-- ===== src/Orchestrator/StartOrder.antt =====
-- modules/docker_monitor/src/orchestrator.cpp: where `calculate_start_order` puts the dependencies.
use nazg.Base.{
  ◌≡◌, refl, sym, subst, ap, ◌∙◌, Bool, true, false, Option, none, some, List, [], ◌∷◌, ◌++◌, ◌||◌,
  append_assoc, append-nil, Bytes, =ᵇ_iff, if◌then◌else◌, arith,
}
use nazg.Base.Dict.{lookup, insert, lookup-insert, IsSorted, insert-IsSorted}
use nazg.Base.Members.{contains_bytes}
use nazg.Orchestrator.{
  Graph, ServiceDependency, neighbors_of, hard_dependencies, start_graph, calculate_start_order,
}
use nazg.Orchestrator.Edges.{count_bytes, edges_to}
use nazg.Orchestrator.Order.{IsInOrder}
use nazg.Orchestrator.Sorted.{topological_sort-IsTopological}

IsInOrder-middle :
    (graph : Graph) (passed xs : List Bytes) (v : Bytes) (ys : List Bytes)
    → IsInOrder graph passed (xs ++ v ∷ ys)
    → edges_to v (passed ++ xs) graph ≡ 0
IsInOrder-middle graph passed [] v ys o =
    subst (λ p. edges_to v p graph ≡ 0) (sym (append-nil passed)) o.0
IsInOrder-middle graph passed (x ∷ xs) v ys o =
    subst (λ p. edges_to v p graph ≡ 0) (append_assoc passed (x ∷ []) xs)
      (IsInOrder-middle graph (passed ++ x ∷ []) xs v ys o.1)

count_bytes-contains :
    (v : Bytes) (ns : List Bytes) → count_bytes v ns ≡ 0 → contains_bytes v ns ≡ false
count_bytes-contains v [] h = refl
count_bytes-contains v (n ∷ ns) h = ground (arith, count_bytes-contains v ns)

-- Without edges from the nodes that are not passed, a node with an edge is passed.
edges_to-none :
    (v u : Bytes) (passed : List Bytes) (graph : Graph)
    → edges_to v passed graph ≡ 0
    → contains_bytes v (neighbors_of (lookup u graph)) ≡ true
    → contains_bytes u passed ≡ true
edges_to-none v u passed [] h c = absurd (cc c)
edges_to-none v u passed ((j, ns) ∷ graph) h c =
    ground (arith, count_bytes-contains v ns, =ᵇ_iff j u, edges_to-none v u passed graph)

module _ (get_dependencies : Bytes → List ServiceDependency) where
  start_graph-IsSorted :
      (services : List Bytes) (graph : Graph)
      → IsSorted graph
      → IsSorted (start_graph get_dependencies services graph)
  start_graph-IsSorted [] graph s = s
  start_graph-IsSorted (service ∷ services) graph s =
      start_graph-IsSorted services _
        (insert-IsSorted service (hard_dependencies (get_dependencies service)) graph s)

  lookup-start_graph :
      (v : Bytes) (services : List Bytes) (graph : Graph)
      → lookup v (start_graph get_dependencies services graph) ≡ (
          if contains_bytes v services
          then some (hard_dependencies (get_dependencies v))
          else lookup v graph)
  lookup-start_graph v [] graph = refl
  lookup-start_graph v (service ∷ services) graph =
      let deps = hard_dependencies (get_dependencies service) in
      lookup-start_graph v services (insert service deps graph)
      ∙ ap
          (λ o.
            if contains_bytes v services then some (hard_dependencies (get_dependencies v)) else o)
          (lookup-insert service v deps graph)
      ∙ regroup (contains_bytes v services) _ _ _
          (λ h. ap (λ u. some (hard_dependencies (get_dependencies u))) ((=ᵇ_iff service v).0 h))
    where
      regroup :
          {e : Bool} (c : Bool) (x y z : Option (List Bytes))
          → (e ≡ true → x ≡ y)
          → (if c then y else if e then x else z) ≡ (if e || c then y else z)
      regroup c x y z h = ground (arith, h)

-- The order that a sort returned is in order.
abbrev Ordered : Graph → Option (List Bytes) → Type 0
Ordered graph none = Unit
Ordered graph (some order) = IsInOrder graph [] order

-- A service stands before each of its hard dependencies that is in the start order, wherever that
-- is: the order starts services before what they depend on.
pub calculate_start_order_lem :
    (get_dependencies : Bytes → List ServiceDependency) (services : List Bytes)
    (service dependency : Bytes) (before behind : List Bytes)
    → contains_bytes service services ≡ true
    → contains_bytes dependency (hard_dependencies (get_dependencies service)) ≡ true
    → calculate_start_order get_dependencies services ≡ some (before ++ dependency ∷ behind)
    → contains_bytes service before ≡ true
unfolding calculate_start_order
calculate_start_order_lem get_dependencies services service dependency before behind h k e =
    let graph = start_graph get_dependencies services [] in
    let (order, sorted, t) =
      topological_sort-IsTopological graph (start_graph-IsSorted get_dependencies services [] tt) in
    edges_to-none dependency service before graph
      (IsInOrder-middle graph [] before dependency behind
        (subst (Ordered graph) (sym sorted ∙ e) t.ordered))
      (ap (λ o. contains_bytes dependency (neighbors_of o))
          (lookup-start_graph get_dependencies service services []
            ∙ ap (λ b. if b then some (hard_dependencies (get_dependencies service)) else none) h)
        ∙ k)
