-- ===== src/Orchestrator/Sorted.antt =====
-- modules/docker_monitor/src/orchestrator.cpp: what `topological_sort` returns, and the start order.
use nazg.Base.{
  ℕ, zero, suc, ◌≡◌, refl, sym, subst, ap, ◌∙◌, Option, none, some, List, [], ◌∷◌, ◌++◌, ◌&&◌,
  append-nil, Bytes, =ᵇ_iff, ◌==◌, arith,
}
use nazg.Base.Int.{ℤ, pos, is_zero}
use nazg.Base.Dict.{Dict, lookup, keys, IsSorted, lookup_before}
use nazg.Base.Members.{contains_bytes, lookup-keys}
use nazg.Orchestrator.{
  Graph, degree, leave_neighbors, neighbors_of, visit, roots, nodes_of, roots_of, topological_sort,
}
use nazg.Orchestrator.Degrees.{count_nodes-IsCounted}
use nazg.Orchestrator.Totality.{topological_sort_total}
use nazg.Orchestrator.Edges.{
  edges_to, is_node, degree-nodes_of, nodes_of-contains, neighbors_of-is_node,
}
use nazg.Orchestrator.Order.{
  AreDistinct, IsWorking, leave_neighbors-IsWorking, take-edges_to, take-IsWorking, IsInOrder,
  concat-IsInOrder, is_zero-pos,
}

-- The order holds no node twice, every node in it stands behind all nodes with an edge to it, and
-- a node is not in it exactly if an edge leads to it from a node that is not in it either.
pub record IsTopological (graph : Graph) (order : List Bytes) : Type 0 where
  pub distinct : AreDistinct order
  pub ordered : IsInOrder graph [] order
  pub complete :
      (v : Bytes) → contains_bytes v order ≡ (is_node v graph && (edges_to v order graph == 0))

abbrev IsSome : Graph → Option (List Bytes) → Type 0
IsSome graph none = Unit
IsSome graph (some order) = IsTopological graph order

visit-IsSome :
    (fuel : ℕ) (graph : Graph) (queue : List Bytes) (d : Dict ℤ) (result : List Bytes)
    → IsSorted graph
    → IsWorking graph result [] (record { queue = queue; in_degree = d })
    → IsInOrder graph [] result
    → IsSome graph (visit fuel graph queue d result)
unfolding visit
visit-IsSome fuel graph [] d result s i o = record {
  distinct = subst AreDistinct (append-nil result) i.distinct;
  ordered = o;
  complete = λ v.
      ap (contains_bytes v) (sym (append-nil result))
      ∙ i.ready v
      ∙ ap (λ n. is_node v graph && (n == 0)) (omega arith);
}
visit-IsSome zero graph (u ∷ queue) d result s i o = tt
visit-IsSome (suc fuel) graph (u ∷ queue) d result s i o =
    let neighbors = neighbors_of (lookup u graph) in
    let work = leave_neighbors neighbors (record { queue = queue; in_degree = d }) in
    visit-IsSome fuel graph work.queue work.in_degree (result ++ u ∷ []) s
      (leave_neighbors-IsWorking graph (result ++ u ∷ []) neighbors _
        (λ v h. neighbors_of-is_node v u graph h) (take-IsWorking graph s result queue u d i))
      (concat-IsInOrder graph [] result u o (take-edges_to graph s result queue u d i))

roots-contains :
    (v : Bytes) (d : Dict ℤ) (nodes : List Bytes)
    → contains_bytes v (roots d nodes) ≡ (contains_bytes v nodes && is_zero (degree v d))
roots-contains v d [] = refl
roots-contains v d (node ∷ nodes) = ground (arith, roots-contains v d nodes, =ᵇ_iff node v)

roots-AreDistinct :
    (d : Dict ℤ) (nodes : List Bytes) → AreDistinct nodes → AreDistinct (roots d nodes)
roots-AreDistinct d [] h = tt
roots-AreDistinct d (node ∷ nodes) h =
    ground (arith, roots-AreDistinct d nodes h.1, roots-contains node d nodes)

keys-AreDistinct {ℓ} : {V : Type ℓ} (m : Dict V) → IsSorted m → AreDistinct (keys m)
keys-AreDistinct [] s = tt
keys-AreDistinct ((k, v) ∷ m) s =
    (ground (arith, lookup-keys k m, lookup_before k m s.0), keys-AreDistinct m s.1)

nodes_of-IsWorking :
    (graph : Graph)
    → IsWorking graph [] []
        (record { queue = roots_of (nodes_of graph); in_degree = (nodes_of graph).in_degree })
nodes_of-IsWorking graph =
    let counted =
      count_nodes-IsCounted graph (record { in_degree = []; all_nodes = [] })
        (record { sorted = tt; same = refl }) in
    let nodes = nodes_of graph in
    record {
      degrees = λ v. degree-nodes_of v graph ∙ ap pos (omega arith);
      ready = λ v.
          roots-contains v nodes.in_degree (keys nodes.all_nodes)
          ∙ ap (λ b. b && is_zero (degree v nodes.in_degree)) (nodes_of-contains v graph)
          ∙ ap (λ z. is_node v graph && is_zero z) (degree-nodes_of v graph)
          ∙ ap (λ b. is_node v graph && b) (is_zero-pos (edges_to v [] graph))
          ∙ ap (λ n. is_node v graph && (n == 0)) (omega arith);
      distinct =
          roots-AreDistinct nodes.in_degree (keys nodes.all_nodes)
            (subst AreDistinct counted.same (keys-AreDistinct nodes.in_degree counted.sorted));
    }

-- `topological_sort` returns, for every graph whose entries are sorted by their nodes, as those of a
-- map are, an order without repetitions in which each node stands
-- behind all nodes with an edge to it; a node is left out exactly if an edge leads to it from a node
-- that is left out, as on a cycle.
pub topological_sort-IsTopological :
    (graph : Graph)
    → IsSorted graph
    → (order : List Bytes) × (topological_sort graph ≡ some order) × IsTopological graph order
unfolding topological_sort
topological_sort-IsTopological graph sorted =
    let (order, e, short) = topological_sort_total graph in
    (
      order,
      e,
      subst (IsSome graph) e (
          visit-IsSome _ graph (roots_of (nodes_of graph)) (nodes_of graph).in_degree [] sorted
            (nodes_of-IsWorking graph) tt),
    )
