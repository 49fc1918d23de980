-- ===== src/Orchestrator/Order.antt =====
-- modules/docker_monitor/src/orchestrator.cpp: the order in which `topological_sort` returns nodes.
use nazg.Base.{
  ℕ, zero, suc, ◌+◌, ◌≡◌, refl, sym, subst, ap, ◌∙◌, Bool, true, false, Bool-cases, List, [], ◌∷◌,
  ◌++◌, ◌&&◌, ◌||◌, append_assoc, append-nil, inl, inr, Bytes, ◌=ᵇ◌, =ᵇ_iff, =ᵇ_refl, ◌==◌,
  if◌then◌else◌, arith,
}
use nazg.Base.Int.{ℤ, pos, decrement, is_zero}
use nazg.Base.Dict.{Dict, lookup, insert, lookup-insert, IsSorted}
use nazg.Base.Members.{contains_bytes, contains_bytes-append}
use nazg.Orchestrator.{Graph, Work, degree, leave_neighbor, leave_neighbors, neighbors_of}
use nazg.Orchestrator.Edges.{count_bytes, edges_to, is_node, edges_to-pass}

-- No text stands twice.
abbrev pub AreDistinct : List Bytes → Type 0
AreDistinct [] = Unit
AreDistinct (s ∷ ss) = (contains_bytes s ss ≡ false) × AreDistinct ss

concat-AreDistinct :
    (ss : List Bytes) (s : Bytes)
    → AreDistinct ss
    → contains_bytes s ss ≡ false
    → AreDistinct (ss ++ s ∷ [])
concat-AreDistinct [] s d h = (refl, tt)
concat-AreDistinct (t ∷ ss) s d h = ground (
  arith,
  contains_bytes-append t ss (s ∷ []),
  concat-AreDistinct ss s d.1,
  =ᵇ_iff t s,
  =ᵇ_iff s t,
)

AreDistinct-middle :
    (ss : List Bytes) (s : Bytes) (ts : List Bytes)
    → AreDistinct (ss ++ s ∷ ts)
    → contains_bytes s ss ≡ false
AreDistinct-middle [] s ts d = refl
AreDistinct-middle (t ∷ ss) s ts d = ground (
  arith,
  contains_bytes-append t ss (s ∷ ts),
  AreDistinct-middle ss s ts d.1,
  =ᵇ_iff t s,
  =ᵇ_refl s,
)

-- The state of the loop, where `passed` are the nodes returned so far, and `rest` the neighbors of the
-- last of them that the inner loop has still to leave.
pub record IsWorking (graph : Graph) (passed rest : List Bytes) (work : Work) : Type 0 where
  pub degrees :
      (v : Bytes) → degree v work.in_degree ≡ pos (edges_to v passed graph + count_bytes v rest)
  pub ready :
      (v : Bytes)
      → contains_bytes v (passed ++ work.queue)
        ≡ (is_node v graph && (edges_to v passed graph + count_bytes v rest == 0))
  pub distinct : AreDistinct (passed ++ work.queue)

degree-insert :
    (w v : Bytes) (n : ℤ) (d : Dict ℤ)
    → degree v (insert w n d) ≡ (if w =ᵇ v then n else degree v d)
degree-insert w v n d = ground (arith, lookup-insert w v n d)

queue_if-contains :
    (v w : Bytes) (b : Bool) (passed queue : List Bytes)
    → contains_bytes v (passed ++ (if b then queue ++ w ∷ [] else queue))
      ≡ (contains_bytes v (passed ++ queue) || (b && w =ᵇ v))
queue_if-contains v w true passed queue =
    ap (contains_bytes v) (sym (append_assoc passed queue (w ∷ [])))
    ∙ contains_bytes-append v (passed ++ queue) (w ∷ [])
    ∙ ap (λ b. contains_bytes v (passed ++ queue) || b) (or_false (w =ᵇ v))
  where
    or_false : (b : Bool) → (b || false) ≡ (true && b)
    or_false b = ground arith
queue_if-contains v w false passed queue = or_false (contains_bytes v (passed ++ queue))
  where
    or_false : (b : Bool) → b ≡ (b || false)
    or_false b = ground arith

queue_if-AreDistinct :
    (w : Bytes) (b : Bool) (passed queue : List Bytes)
    → AreDistinct (passed ++ queue)
    → contains_bytes w (passed ++ queue) ≡ false
    → AreDistinct (passed ++ (if b then queue ++ w ∷ [] else queue))
queue_if-AreDistinct w true passed queue d h =
    subst AreDistinct (append_assoc passed queue (w ∷ []))
      (concat-AreDistinct (passed ++ queue) w d h)
queue_if-AreDistinct w false passed queue d h = d

pub is_zero-pos : (n : ℕ) → is_zero (pos n) ≡ (n == 0)
is_zero-pos zero = refl
is_zero-pos (suc n) = ground arith

ready_after :
    (a z e nd : Bool) (m n : ℕ)
    → a ≡ (nd && (m + ((if e then 1 else 0) + n) == 0))
    → (e ≡ true → z ≡ (m + n == 0))
    → (e ≡ true → nd ≡ true)
    → (a || (z && e)) ≡ (nd && (m + n == 0))
ready_after a z true nd m n h f g = ground (arith, h, f refl, g refl)
ready_after a z false nd m n h f g = ground (arith, h)

module _ (graph : Graph) (passed rest : List Bytes) (w : Bytes) (work : Work)
    (node : is_node w graph ≡ true) (i : IsWorking graph passed (w ∷ rest) work) where
  lowered : decrement (degree w work.in_degree) ≡ pos (edges_to w passed graph + count_bytes w rest)
  lowered = ap decrement (i.degrees w ∙ ap pos one_less)
    where
      one_less :
          edges_to w passed graph + ((if w =ᵇ w then 1 else 0) + count_bytes w rest)
          ≡ suc (edges_to w passed graph + count_bytes w rest)
      one_less = ground (arith, =ᵇ_refl w)

  emptied :
      is_zero (decrement (degree w work.in_degree))
      ≡ (edges_to w passed graph + count_bytes w rest == 0)
  emptied = ap is_zero lowered ∙ is_zero-pos (edges_to w passed graph + count_bytes w rest)

  leave_neighbor-degrees :
      (v : Bytes)
      → degree v (leave_neighbor w work).in_degree
        ≡ pos (edges_to v passed graph + count_bytes v rest)
  leave_neighbor-degrees v =
      degree-insert w v (decrement (degree w work.in_degree)) work.in_degree
      ∙ elim (Bool-cases (w =ᵇ v)) [
        | inl same ↦
            ap (λ b. if b then decrement (degree w work.in_degree) else degree v work.in_degree)
              same
            ∙ lowered
            ∙ ap (λ u. pos (edges_to u passed graph + count_bytes u rest)) ((=ᵇ_iff w v).0 same)
        | inr other ↦
            ap (λ b. if b then decrement (degree w work.in_degree) else degree v work.in_degree)
              other
            ∙ i.degrees v
            ∙ ap (λ b. pos (edges_to v passed graph + ((if b then 1 else 0) + count_bytes v rest)))
                other
            ∙ ap pos (omega arith)
      ]

  leave_neighbor-ready :
      (v : Bytes)
      → contains_bytes v (passed ++ (leave_neighbor w work).queue)
        ≡ (is_node v graph && (edges_to v passed graph + count_bytes v rest == 0))
  leave_neighbor-ready v =
      queue_if-contains v w (is_zero (decrement (degree w work.in_degree))) passed work.queue
      ∙ ready_after _ _ _ _ _ _ (i.ready v)
          (λ same.
            emptied
            ∙ ap (λ u. edges_to u passed graph + count_bytes u rest == 0) ((=ᵇ_iff w v).0 same))
          (λ same. ap (λ u. is_node u graph) (sym ((=ᵇ_iff w v).0 same)) ∙ node)

  leave_neighbor-IsWorking : IsWorking graph passed rest (leave_neighbor w work)
  leave_neighbor-IsWorking = record {
    degrees = leave_neighbor-degrees;
    ready = leave_neighbor-ready;
    distinct =
        queue_if-AreDistinct w (is_zero (decrement (degree w work.in_degree))) passed work.queue
          i.distinct
          (i.ready w
            ∙ never (is_node w graph) (edges_to w passed graph) (count_bytes w rest) (=ᵇ_refl w));
  }
    where
      never :
          (b : Bool) (m n : ℕ) {c : Bool}
          → c ≡ true
          → (b && (m + ((if c then 1 else 0) + n) == 0)) ≡ false
      never b m n h = ground arith

pub leave_neighbors-IsWorking :
    (graph : Graph) (passed rest : List Bytes) (work : Work)
    → ((v : Bytes) → contains_bytes v rest ≡ true → is_node v graph ≡ true)
    → IsWorking graph passed rest work
    → IsWorking graph passed [] (leave_neighbors rest work)
leave_neighbors-IsWorking graph passed [] work nodes i = i
leave_neighbors-IsWorking graph passed (w ∷ rest) work nodes i =
    leave_neighbors-IsWorking graph passed rest (leave_neighbor w work)
      (λ v h. nodes v (ground (arith, h)))
      (leave_neighbor-IsWorking graph passed rest w work (nodes w (ground (arith, =ᵇ_refl w))) i)

-- A node is taken from the queue: all edges to it are from nodes that were returned before it.
module _ (graph : Graph) (sorted : IsSorted graph) (passed queue : List Bytes) (u : Bytes)
    (d : Dict ℤ) (i : IsWorking graph passed [] (record { queue = u ∷ queue; in_degree = d })) where
  fresh : contains_bytes u passed ≡ false
  fresh = AreDistinct-middle passed u queue i.distinct

  pub take-edges_to : edges_to u passed graph ≡ 0
  take-edges_to = none_left (is_node u graph) (edges_to u passed graph) (
      sym (i.ready u)
      ∙ contains_bytes-append u passed (u ∷ queue)
      ∙ found (contains_bytes u passed) (contains_bytes u queue) (=ᵇ_refl u))
    where
      none_left : (b : Bool) (n : ℕ) → (b && (n + 0 == 0)) ≡ true → n ≡ 0
      none_left b n h = ground arith

      found : (a b : Bool) {c : Bool} → c ≡ true → (a || (c || b)) ≡ true
      found a b h = ground arith

  pub take-IsWorking :
      IsWorking graph
        (passed ++ u ∷ [])
        (neighbors_of (lookup u graph))
        (record { queue = queue; in_degree = d })
  take-IsWorking = record {
    degrees = λ v. i.degrees v ∙ ap pos (no_more v);
    ready = λ v.
        ap (contains_bytes v) (append_assoc passed (u ∷ []) queue)
        ∙ i.ready v
        ∙ ap (λ n. is_node v graph && (n == 0)) (no_more v);
    distinct = subst AreDistinct (sym (append_assoc passed (u ∷ []) queue)) i.distinct;
  }
    where
      no_more :
          (v : Bytes)
          → edges_to v passed graph + 0
            ≡ edges_to v (passed ++ u ∷ []) graph + count_bytes v (neighbors_of (lookup u graph))
      no_more v = omega (arith, edges_to-pass v u passed graph sorted fresh)

-- Of the nodes in a list, each has all nodes with an edge to it before it, in `passed` or in the list.
abbrev pub IsInOrder : Graph → List Bytes → List Bytes → Type 0
IsInOrder graph passed [] = Unit
IsInOrder graph passed (v ∷ vs) =
    (edges_to v passed graph ≡ 0) × IsInOrder graph (passed ++ v ∷ []) vs

pub concat-IsInOrder :
    (graph : Graph) (passed vs : List Bytes) (u : Bytes)
    → IsInOrder graph passed vs
    → edges_to u (passed ++ vs) graph ≡ 0
    → IsInOrder graph passed (vs ++ u ∷ [])
concat-IsInOrder graph passed [] u o h =
    (ap (λ p. edges_to u p graph) (sym (append-nil passed)) ∙ h, tt)
concat-IsInOrder graph passed (v ∷ vs) u o h = (
  o.0,
  concat-IsInOrder graph (passed ++ v ∷ []) vs u o.1
      (ap (λ p. edges_to u p graph) (append_assoc passed (v ∷ []) vs) ∙ h),
)
