-- ===== src/Orchestrator/Degrees.antt =====
-- modules/docker_monitor/src/orchestrator.cpp: the maps that `topological_sort` starts from, and
-- their keys.
use nazg.Base.{
  zero, suc, ◌+◌, ◌≤◌, ◌≡◌, refl, sym, ◌∙◌, subst, true, some, List, [], ◌∷◌, Bytes, length, All,
  arith, Option-cases, inl, inr, =ᵇ_iff, =ᵇ_refl,
}
use nazg.Base.Int.{ℤ, pos, negsuc, increment}
use nazg.Base.Dict.{
  Dict, lookup, insert, keys, compare_bytes-eq, compare_bytes_refl, IsBefore, IsSorted,
  insert-IsSorted, lookup_before, IsBefore-trans,
}
use nazg.Orchestrator.{
  Graph, Nodes, degree, roots, count_positive, count_neighbors, count_nodes, with_entry,
}

module _ {ℓ κ} {V : Type ℓ} {W : Type κ} where
  keys-insert :
      (k : Bytes) (v : V) (w : W) (m : Dict V) (m' : Dict W)
      → keys m ≡ keys m'
      → keys (insert k v m) ≡ keys (insert k w m')
  keys-insert k v w [] [] h = refl
  keys-insert k v w [] ((j, y) ∷ m') h = ground arith
  keys-insert k v w ((i, x) ∷ m) [] h = ground arith
  keys-insert k v w ((i, x) ∷ m) ((j, y) ∷ m') h = ground (arith, keys-insert k v w m m')

module _ {ℓ} {V : Type ℓ} where
  keys-insert_there :
      (k : Bytes) (v n : V) (m : Dict V)
      → IsSorted m
      → lookup k m ≡ some n
      → keys (insert k v m) ≡ keys m
  keys-insert_there k v n [] s h = ground arith
  keys-insert_there k v n ((j, w) ∷ m) s h = ground (
    arith,
    compare_bytes-eq k j,
    compare_bytes_refl k,
    =ᵇ_iff j k,
    lookup_before k m,
    IsBefore-trans k j m,
    keys-insert_there k v n m s.1,
  )

-- An entry of `m` that the larger map `d` returns.
abbrev IsFound : Dict ℤ → Dict ℤ → Type 0
IsFound d m = All (λ e. lookup e.0 d ≡ some e.1) m

IsFound-behind :
    (j : Bytes) (v : ℤ) (d m : Dict ℤ) → IsBefore j m → IsFound d m → IsFound ((j, v) ∷ d) m
IsFound-behind j v d [] b f = tt
IsFound-behind j v d ((i, w) ∷ m) b f =
    (ground (arith, =ᵇ_iff j i, compare_bytes_refl j), IsFound-behind j v d m b.1 f.1)

IsFound-all : (d : Dict ℤ) → IsSorted d → IsFound d d
IsFound-all [] s = tt
IsFound-all ((j, v) ∷ d) s =
    (ground (arith, =ᵇ_refl j), IsFound-behind j v d d s.0 (IsFound-all d s.1))

roots-le :
    (d m : Dict ℤ) → IsFound d m → length (roots d (keys m)) + count_positive m ≤ length (keys m)
roots-le d [] f = omega arith
roots-le d ((j, pos zero) ∷ m) f = rw (f.0) (omega (arith, roots-le d m f.1))
roots-le d ((j, pos (suc n)) ∷ m) f = rw (f.0) (omega (arith, roots-le d m f.1))
roots-le d ((j, negsuc n) ∷ m) f = rw (f.0) (omega (arith, roots-le d m f.1))

-- Sorted degrees of exactly the nodes.
pub record IsCounted (nodes : Nodes) : Type 0 where
  pub sorted : IsSorted nodes.in_degree
  pub same : keys nodes.in_degree ≡ keys nodes.all_nodes

count_neighbors-IsCounted :
    (neighbors : List Bytes) (nodes : Nodes)
    → IsCounted nodes
    → IsCounted (count_neighbors neighbors nodes)
count_neighbors-IsCounted [] nodes c = c
count_neighbors-IsCounted (neighbor ∷ neighbors) nodes c =
    let n = increment (degree neighbor nodes.in_degree) in
    count_neighbors-IsCounted neighbors _ (record {
      sorted = insert-IsSorted neighbor n nodes.in_degree c.sorted;
      same = keys-insert neighbor n true nodes.in_degree nodes.all_nodes c.same;
    })

with_entry-IsCounted :
    (node : Bytes) (nodes : Nodes)
    → IsCounted nodes
    → IsCounted (record {
      in_degree = with_entry node nodes.in_degree;
      all_nodes = insert node true nodes.all_nodes;
    })
with_entry-IsCounted node nodes c = elim (Option-cases (lookup node nodes.in_degree)) [
  | inl missing ↦ record {
    sorted = rw (missing, IsSorted) (insert-IsSorted node (pos 0) nodes.in_degree c.sorted);
    same =
        rw (missing, keys) (keys-insert node (pos 0) true nodes.in_degree nodes.all_nodes c.same);
  }
  | inr (n, there) ↦ record {
    sorted = rw (there, IsSorted) c.sorted;
    same =
        rw (there, keys)
          (sym (keys-insert_there node (pos 0) n nodes.in_degree c.sorted there)
            ∙ keys-insert node (pos 0) true nodes.in_degree nodes.all_nodes c.same);
  }
]

pub count_nodes-IsCounted :
    (graph : Graph) (nodes : Nodes) → IsCounted nodes → IsCounted (count_nodes graph nodes)
count_nodes-IsCounted [] nodes c = c
count_nodes-IsCounted ((node, neighbors) ∷ graph) nodes c =
    count_nodes-IsCounted graph _
      (count_neighbors-IsCounted neighbors _ (with_entry-IsCounted node nodes c))

pub roots_count :
    (nodes : Nodes)
    → IsCounted nodes
    → length (roots nodes.in_degree (keys nodes.all_nodes)) + count_positive nodes.in_degree
      ≤ length (keys nodes.all_nodes)
roots_count nodes c =
    subst (λ ks. length (roots nodes.in_degree ks) + count_positive nodes.in_degree ≤ length ks)
      c.same (roots-le nodes.in_degree nodes.in_degree (IsFound-all nodes.in_degree c.sorted))
