-- ===== src/Orchestrator.antt =====
-- modules/docker_monitor/src/orchestrator.cpp: `topological_sort` and `calculate_start_order`.
-- The dependencies that the store returns for a service are a parameter. Logging is left out.
pub mod Degrees
pub mod Totality
pub mod Edges
pub mod Order
pub mod Sorted
pub mod StartOrder
mod Examples
use nazg.Base.{
  ℕ, zero, suc, ◌+◌, Bool, true, false, Option, none, some, List, [], ◌∷◌, ◌++◌, ◌||◌, Bytes, codes,
  ◌=ᵇ◌, length, if◌then◌else◌,
}
use nazg.Base.Int.{ℤ, pos, negsuc, is_zero, is_positive, increment, decrement}
use nazg.Base.Dict.{Dict, lookup, insert, keys}

abbrev pub Graph : Type 0
Graph = Dict (List Bytes)

-- `in_degree[node]`, which a missing entry reads as 0.
abbrev pub degree_or_zero : Option ℤ → ℤ
degree_or_zero none = pos 0
degree_or_zero (some n) = n

abbrev pub degree : Bytes → Dict ℤ → ℤ
degree node in_degree = degree_or_zero (lookup node in_degree)

-- The maps that the first loop fills: `in_degree`, and `all_nodes` as the keys of a map.
pub record Nodes : Type 0 where
  pub in_degree : Dict ℤ
  pub all_nodes : Dict Bool

-- `if (in_degree.find(node) == in_degree.end()) in_degree[node] = 0`
abbrev pub with_entry : Bytes → Dict ℤ → Dict ℤ
with_entry node in_degree = elim (lookup node in_degree) [
  | none ↦ insert node (pos 0) in_degree
  | some n ↦ in_degree
]

abbrev pub count_neighbors : List Bytes → Nodes → Nodes
count_neighbors [] nodes = nodes
count_neighbors (neighbor ∷ neighbors) nodes = count_neighbors neighbors (record {
  in_degree = insert neighbor (increment (degree neighbor nodes.in_degree)) nodes.in_degree;
  all_nodes = insert neighbor true nodes.all_nodes;
})

abbrev pub count_nodes : Graph → Nodes → Nodes
count_nodes [] nodes = nodes
count_nodes ((node, neighbors) ∷ graph) nodes = count_nodes graph (
    count_neighbors neighbors (record {
      in_degree = with_entry node nodes.in_degree;
      all_nodes = insert node true nodes.all_nodes;
    }))

-- The nodes of `all_nodes` without incoming edges, in their order.
abbrev pub roots : Dict ℤ → List Bytes → List Bytes
roots in_degree [] = []
roots in_degree (node ∷ nodes) =
    if is_zero (degree node in_degree) then node ∷ roots in_degree nodes else roots in_degree nodes

-- The queue and the degrees, between two steps of the algorithm.
pub record Work : Type 0 where
  pub queue : List Bytes
  pub in_degree : Dict ℤ

-- One outgoing edge of the node that was taken from the queue.
abbrev pub leave_neighbor : Bytes → Work → Work
leave_neighbor neighbor work =
    let n = decrement (degree neighbor work.in_degree) in
    record {
      queue = if is_zero n then work.queue ++ neighbor ∷ [] else work.queue;
      in_degree = insert neighbor n work.in_degree;
    }

abbrev pub leave_neighbors : List Bytes → Work → Work
leave_neighbors [] work = work
leave_neighbors (neighbor ∷ neighbors) work =
    leave_neighbors neighbors (leave_neighbor neighbor work)

abbrev pub neighbors_of : Option (List Bytes) → List Bytes
neighbors_of none = []
neighbors_of (some neighbors) = neighbors

-- The loop over the queue, on fuel; `none` is fuel run out.
pub visit : ℕ → Graph → List Bytes → Dict ℤ → List Bytes → Option (List Bytes)
visit fuel graph [] in_degree result = some result
visit zero graph (node ∷ queue) in_degree result = none
visit (suc fuel) graph (node ∷ queue) in_degree result =
    let work =
      leave_neighbors (neighbors_of (lookup node graph))
        (record { queue = queue; in_degree = in_degree }) in
    visit fuel graph work.queue work.in_degree (result ++ node ∷ [])

-- The entries that are positive.
abbrev pub count_positive : Dict ℤ → ℕ
count_positive [] = 0
count_positive ((node, n) ∷ rest) = (if is_positive n then 1 else 0) + count_positive rest

abbrev pub nodes_of : Graph → Nodes
nodes_of graph = count_nodes graph (record { in_degree = []; all_nodes = [] })

abbrev pub roots_of : Nodes → List Bytes
roots_of nodes = roots nodes.in_degree (keys nodes.all_nodes)

-- With a unit of fuel for each node in the queue and each node that has incoming edges.
unfoldable pub topological_sort : Graph → Option (List Bytes)
unfolding visit
topological_sort graph =
    let nodes = nodes_of graph in
    visit (length (roots_of nodes) + count_positive nodes.in_degree) graph (roots_of nodes)
      nodes.in_degree []

pub record ServiceDependency : Type 0 where
  pub service_name : Bytes
  pub depends_on : Bytes
  pub type : Bytes

abbrev pub hard_dependencies : List ServiceDependency → List Bytes
hard_dependencies [] = []
hard_dependencies (dep ∷ deps) =
    if dep.type =ᵇ codes "depends_on"
      || dep.type =ᵇ codes "network_mode"
      || dep.type =ᵇ codes "hard"
    then dep.depends_on ∷ hard_dependencies deps
    else hard_dependencies deps

abbrev pub start_graph : (Bytes → List ServiceDependency) → List Bytes → Graph → Graph
start_graph get_dependencies [] graph = graph
start_graph get_dependencies (service ∷ services) graph =
    start_graph get_dependencies services
      (insert service (hard_dependencies (get_dependencies service)) graph)

unfoldable pub calculate_start_order :
    (Bytes → List ServiceDependency) → List Bytes → Option (List Bytes)
unfolding topological_sort
calculate_start_order get_dependencies services =
    topological_sort (start_graph get_dependencies services [])
