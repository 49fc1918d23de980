-- ===== src/Orchestrator/Examples.antt =====
-- Two services of which one depends on the other, and a cycle: tests and instances.
use nazg.Base.{◌≡◌, ◌≤◌, refl, true, some, List, [], ◌∷◌, Bytes, codes, length, ◌=ᵇ◌, if◌then◌else◌}
use nazg.Base.Dict.{keys, IsSorted}
use nazg.Base.Members.{contains_bytes}
use nazg.Orchestrator.{
  Graph, ServiceDependency, visit, topological_sort, calculate_start_order, nodes_of,
}
use nazg.Orchestrator.Totality.{topological_sort_total}
use nazg.Orchestrator.Sorted.{IsTopological, topological_sort-IsTopological}
use nazg.Orchestrator.StartOrder.{calculate_start_order_lem}

abbrev needs_db : Bytes → List ServiceDependency
needs_db service =
    if service =ᵇ codes "app"
    then record { service_name = codes "app"; depends_on = codes "db"; type = codes "depends_on" }
      ∷ []
    else []

-- The service comes before the one that it depends on.
start_order_of_two :
    calculate_start_order needs_db (codes "app" ∷ codes "db" ∷ [])
    ≡ some (codes "app" ∷ codes "db" ∷ [])
unfolding calculate_start_order topological_sort visit
start_order_of_two = refl

abbrev cycle : Graph
cycle = (codes "a", codes "b" ∷ []) ∷ (codes "b", codes "a" ∷ []) ∷ (codes "c", []) ∷ []

topological_sort-cycle : topological_sort cycle ≡ some (codes "c" ∷ [])
unfolding topological_sort visit
topological_sort-cycle = refl

topological_sort_total_example :
    (order : List Bytes) × (topological_sort cycle ≡ some order)
    × (length order ≤ length (keys (nodes_of cycle).all_nodes))
topological_sort_total_example = topological_sort_total cycle

cycle-IsSorted : IsSorted cycle
cycle-IsSorted = ((refl, (refl, tt)), ((refl, tt), (tt, tt)))

topological_sort-IsTopological_example :
    (order : List Bytes) × (topological_sort cycle ≡ some order) × IsTopological cycle order
topological_sort-IsTopological_example = topological_sort-IsTopological cycle cycle-IsSorted

calculate_start_order_lem_example : contains_bytes (codes "app") (codes "app" ∷ []) ≡ true
calculate_start_order_lem_example =
    calculate_start_order_lem needs_db (codes "app" ∷ codes "db" ∷ []) (codes "app") (codes "db")
      (codes "app" ∷ []) [] refl refl start_order_of_two
