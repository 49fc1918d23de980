-- ===== src/Orchestrator/Edges.antt =====
-- modules/docker_monitor/src/orchestrator.cpp: the edges of a graph, and how `topological_sort` counts
-- them.
use nazg.Base.{
  ℕ, ◌+◌, ◌≡◌, refl, ap, ◌∙◌, Bool, true, false, Bool-cases, ◌⊎◌, Option-cases, some, List, [], ◌∷◌,
  ◌++◌, ◌||◌, inl, inr, Bytes, ◌=ᵇ◌, =ᵇ_iff, if◌then◌else◌, arith,
}
use nazg.Base.Int.{ℤ, pos, increment}
use nazg.Base.Dict.{
  Dict, lookup, insert, keys, lookup-insert, IsBefore, IsSorted, compare_bytes_refl,
}
use nazg.Base.Members.{contains_bytes, contains_bytes-append, lookup-keys}
use nazg.Orchestrator.{
  Graph, Nodes, degree, degree_or_zero, with_entry, count_neighbors, count_nodes, neighbors_of,
  nodes_of,
}

-- How often a node stands in a list.
abbrev pub count_bytes : Bytes → List Bytes → ℕ
count_bytes node [] = 0
count_bytes node (n ∷ ns) = (if n =ᵇ node then 1 else 0) + count_bytes node ns

-- The number of edges to a node, from nodes that are not in a list.
abbrev pub edges_to : Bytes → List Bytes → Graph → ℕ
edges_to node passed [] = 0
edges_to node passed ((from_, neighbors) ∷ graph) =
    (if contains_bytes from_ passed then 0 else count_bytes node neighbors)
    + edges_to node passed graph

-- Whether a node is one end of an edge, or has an entry.
abbrev pub is_node : Bytes → Graph → Bool
is_node node [] = false
is_node node ((from_, neighbors) ∷ graph) =
    (from_ =ᵇ node || contains_bytes node neighbors) || is_node node graph

edges_to_before :
    (v u : Bytes) (passed : List Bytes) (graph : Graph)
    → IsBefore u graph
    → edges_to v (passed ++ u ∷ []) graph ≡ edges_to v passed graph
edges_to_before v u passed [] b = refl
edges_to_before v u passed ((j, ns) ∷ graph) b = ground (
  arith,
  contains_bytes-append j passed (u ∷ []),
  compare_bytes_refl u,
  =ᵇ_iff u j,
  edges_to_before v u passed graph b.1,
)

-- To pass a node takes its edges away.
pub edges_to-pass :
    (v u : Bytes) (passed : List Bytes) (graph : Graph)
    → IsSorted graph
    → contains_bytes u passed ≡ false
    → edges_to v passed graph
      ≡ edges_to v (passed ++ u ∷ []) graph + count_bytes v (neighbors_of (lookup u graph))
edges_to-pass v u passed [] s h = refl
edges_to-pass v u passed ((j, ns) ∷ graph) s h = ground (
  arith,
  contains_bytes-append j passed (u ∷ []),
  =ᵇ_iff j u,
  =ᵇ_iff u j,
  edges_to_before v j passed graph s.0,
  edges_to-pass v u passed graph s.1 h,
)

degree-with_entry : (v node : Bytes) (d : Dict ℤ) → degree v (with_entry node d) ≡ degree v d
degree-with_entry v node d = elim (Option-cases (lookup node d)) [
  | inl missing ↦ ground (arith, missing, lookup-insert node v (pos 0) d, =ᵇ_iff node v)
  | inr (n, there) ↦ ground (arith, there)
]

degree-count_neighbors :
    (v : Bytes) (n : ℕ) (neighbors : List Bytes) (nodes : Nodes)
    → degree v nodes.in_degree ≡ pos n
    → degree v (count_neighbors neighbors nodes).in_degree ≡ pos (n + count_bytes v neighbors)
degree-count_neighbors v n [] nodes h = ground (arith, h)
degree-count_neighbors v n (w ∷ ws) nodes h =
    degree-count_neighbors v (n + (if w =ᵇ v then 1 else 0)) ws _ (one_more (Bool-cases (w =ᵇ v)))
    ∙ ap pos (omega arith)
  where
    one_more :
        ((w =ᵇ v) ≡ true) ⊎ ((w =ᵇ v) ≡ false)
        → degree v (insert w (increment (degree w nodes.in_degree)) nodes.in_degree)
          ≡ pos (n + (if w =ᵇ v then 1 else 0))
    one_more (inl same) =
        ap degree_or_zero (
          lookup-insert w v (increment (degree w nodes.in_degree)) nodes.in_degree
          ∙ ap
              (λ b.
                if b then some (increment (degree w nodes.in_degree)) else lookup v nodes.in_degree)
              same)
        ∙ ap (λ u. increment (degree u nodes.in_degree)) ((=ᵇ_iff w v).0 same)
        ∙ ap increment h
        ∙ ap pos (ground (arith, same))
    one_more (inr other) =
        ap degree_or_zero (
          lookup-insert w v (increment (degree w nodes.in_degree)) nodes.in_degree
          ∙ ap
              (λ b.
                if b then some (increment (degree w nodes.in_degree)) else lookup v nodes.in_degree)
              other)
        ∙ h
        ∙ ap pos (ground (arith, other))

degree-count_nodes :
    (v : Bytes) (n : ℕ) (graph : Graph) (nodes : Nodes)
    → degree v nodes.in_degree ≡ pos n
    → degree v (count_nodes graph nodes).in_degree ≡ pos (n + edges_to v [] graph)
degree-count_nodes v n [] nodes h = ground (arith, h)
degree-count_nodes v n ((node, neighbors) ∷ graph) nodes h =
    let entered : Nodes = record {
      in_degree = with_entry node nodes.in_degree;
      all_nodes = insert node true nodes.all_nodes;
    } in
    degree-count_nodes v (n + count_bytes v neighbors) graph (count_neighbors neighbors entered)
      (degree-count_neighbors v n neighbors entered (degree-with_entry v node nodes.in_degree ∙ h))
    ∙ ap pos (omega arith)

keys-insert-contains :
    (v k : Bytes) (m : Dict Bool)
    → contains_bytes v (keys (insert k true m)) ≡ (k =ᵇ v || contains_bytes v (keys m))
keys-insert-contains v k m =
    ground (arith, lookup-keys v (insert k true m), lookup-keys v m, lookup-insert k v true m)

count_neighbors-contains :
    (v : Bytes) (neighbors : List Bytes) (nodes : Nodes)
    → contains_bytes v (keys (count_neighbors neighbors nodes).all_nodes)
      ≡ (contains_bytes v (keys nodes.all_nodes) || contains_bytes v neighbors)
count_neighbors-contains v [] nodes = ground arith
count_neighbors-contains v (w ∷ ws) nodes =
    count_neighbors-contains v ws (record {
      in_degree = insert w (increment (degree w nodes.in_degree)) nodes.in_degree;
      all_nodes = insert w true nodes.all_nodes;
    })
    ∙ regroup _ _ _ (keys-insert-contains v w nodes.all_nodes)
  where
    regroup : {a : Bool} (b c d : Bool) → a ≡ (b || c) → (a || d) ≡ (c || (b || d))
    regroup b c d h = ground arith

count_nodes-contains :
    (v : Bytes) (graph : Graph) (nodes : Nodes)
    → contains_bytes v (keys (count_nodes graph nodes).all_nodes)
      ≡ (contains_bytes v (keys nodes.all_nodes) || is_node v graph)
count_nodes-contains v [] nodes = ground arith
count_nodes-contains v ((node, neighbors) ∷ graph) nodes =
    let entered : Nodes = record {
      in_degree = with_entry node nodes.in_degree;
      all_nodes = insert node true nodes.all_nodes;
    } in
    count_nodes-contains v graph (count_neighbors neighbors entered)
    ∙ regroup _ _ _ _ (count_neighbors-contains v neighbors entered)
        (keys-insert-contains v node nodes.all_nodes)
  where
    regroup :
        {a b : Bool} (c d e f : Bool)
        → a ≡ (b || c)
        → b ≡ (d || e)
        → (a || f) ≡ (e || ((d || c) || f))
    regroup c d e f h k = ground arith

-- The degrees that the sort starts from are the numbers of edges, and its nodes those of the graph.
pub degree-nodes_of :
    (v : Bytes) (graph : Graph) → degree v (nodes_of graph).in_degree ≡ pos (edges_to v [] graph)
degree-nodes_of v graph = degree-count_nodes v 0 graph _ refl ∙ ap pos (omega arith)

pub nodes_of-contains :
    (v : Bytes) (graph : Graph)
    → contains_bytes v (keys (nodes_of graph).all_nodes) ≡ is_node v graph
nodes_of-contains v graph = count_nodes-contains v graph _

-- Neighbors are nodes.
pub neighbors_of-is_node :
    (v u : Bytes) (graph : Graph)
    → contains_bytes v (neighbors_of (lookup u graph)) ≡ true
    → is_node v graph ≡ true
neighbors_of-is_node v u [] h = absurd (cc h)
neighbors_of-is_node v u ((j, ns) ∷ graph) h = ground (arith, neighbors_of-is_node v u graph)
