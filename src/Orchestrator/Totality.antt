-- ===== src/Orchestrator/Totality.antt =====
-- modules/docker_monitor/src/orchestrator.cpp: how long the loop of `topological_sort` runs.
use nazg.Base.{
  ℕ, zero, suc, ◌+◌, ◌≤◌, ◌≡◌, refl, some, List, [], ◌∷◌, ◌++◌, Bytes, length, length-append,
  if◌then◌else◌, arith, =ᵇ_iff,
}
use nazg.Base.Int.{ℤ, pos, negsuc, is_zero, is_positive, decrement}
use native.Mathlib.Nat.{le_refl}
use nazg.Base.Dict.{
  IsBefore-trans, IsSorted, insert-IsSorted, lookup_before, Dict, lookup, insert, keys,
  compare_bytes-eq, compare_bytes_refl,
}
use nazg.Orchestrator.Degrees.{count_nodes-IsCounted, roots_count}
use nazg.Orchestrator.{
  Graph, Work, degree, leave_neighbor, leave_neighbors, neighbors_of, visit, count_positive,
  nodes_of, roots_of, topological_sort,
}

abbrev weight : ℤ → ℕ
weight n = if is_positive n then 1 else 0

-- What the loop has left to do.
abbrev measure : Work → ℕ
measure work = length work.queue + count_positive work.in_degree

-- Writing an entry exchanges its old weight for the new one.
count_positive-insert :
    (k : Bytes) (n : ℤ) (m : Dict ℤ)
    → IsSorted m
    → count_positive (insert k n m) + weight (degree k m) ≡ count_positive m + weight n
count_positive-insert k n [] s = omega arith
count_positive-insert k n ((j, w) ∷ m) s = ground (
  arith,
  compare_bytes-eq k j,
  compare_bytes_refl k,
  =ᵇ_iff j k,
  lookup_before k m,
  IsBefore-trans k j m,
  count_positive-insert k n m s.1,
)

-- A degree that becomes 0 was positive, and no degree grows.
weight-decrement :
    (n : ℤ) → weight (decrement n) + (if is_zero (decrement n) then 1 else 0) ≤ weight n
weight-decrement (pos zero) = omega arith
weight-decrement (pos (suc zero)) = omega arith
weight-decrement (pos (suc (suc n))) = omega arith
weight-decrement (negsuc n) = omega arith

leave_neighbor-le :
    (neighbor : Bytes) (work : Work)
    → IsSorted work.in_degree
    → IsSorted (leave_neighbor neighbor work).in_degree
      × (measure (leave_neighbor neighbor work) ≤ measure work)
leave_neighbor-le neighbor work s =
    let n = decrement (degree neighbor work.in_degree) in
    (
      insert-IsSorted neighbor n work.in_degree s,
      ground (
        arith,
        length-append work.queue (neighbor ∷ []),
        count_positive-insert neighbor n work.in_degree s,
        weight-decrement (degree neighbor work.in_degree),
      ),
    )

leave_neighbors-le :
    (neighbors : List Bytes) (work : Work)
    → IsSorted work.in_degree
    → IsSorted (leave_neighbors neighbors work).in_degree
      × (measure (leave_neighbors neighbors work) ≤ measure work)
leave_neighbors-le [] work s = (s, omega arith)
leave_neighbors-le (neighbor ∷ neighbors) work s =
    let (s', le) = leave_neighbor-le neighbor work s in
    let (s'', le') = leave_neighbors-le neighbors (leave_neighbor neighbor work) s' in
    (s'', omega arith)

-- The nodes that the loop appends, if there is fuel for all that is left to do.
visit-total :
    (fuel : ℕ) (graph : Graph) (queue : List Bytes) (in_degree : Dict ℤ) (result : List Bytes)
    → IsSorted in_degree
    → length queue + count_positive in_degree ≤ fuel
    → (order : List Bytes) × (visit fuel graph queue in_degree result ≡ some order)
      × (length order ≤ length result + fuel)
unfolding visit
visit-total fuel graph [] in_degree result s enough = (result, refl, omega arith)
visit-total zero graph (node ∷ queue) in_degree result s enough = absurd (omega arith)
visit-total (suc fuel) graph (node ∷ queue) in_degree result s enough =
    let start : Work = record { queue = queue; in_degree = in_degree } in
    let neighbors = neighbors_of (lookup node graph) in
    let work = leave_neighbors neighbors start in
    let (s', le) = leave_neighbors-le neighbors start s in
    let (order, e, short) =
      visit-total fuel graph work.queue work.in_degree (result ++ node ∷ []) s' (omega arith) in
    (order, e, omega (arith, length-append result (node ∷ [])))

-- `topological_sort` ends on every graph, also on one with cycles, and returns no more nodes than
-- the graph has.
pub topological_sort_total :
    (graph : Graph)
    → (order : List Bytes) × (topological_sort graph ≡ some order)
      × (length order ≤ length (keys (nodes_of graph).all_nodes))
unfolding topological_sort
topological_sort_total graph =
    let nodes = nodes_of graph in
    let counted =
      count_nodes-IsCounted graph (record { in_degree = []; all_nodes = [] })
        (record { sorted = tt; same = refl }) in
    let (order, e, short) =
      visit-total (length (roots_of nodes) + count_positive nodes.in_degree) graph (roots_of nodes)
        nodes.in_degree [] counted.sorted (le_refl _) in
    (order, e, omega (arith, roots_count nodes counted))
