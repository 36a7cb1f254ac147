-- ===== src/StateGraph/Reachable.antt =====
-- core/state-graph.ts: the loop of `findReachableNodes` and the set that it finds.
use ather.Base.{
  ◌===◌, if◌then◌else◌, Bool-cases, if_ind, ===-eq, length, All, length-append, All-mono, includes,
  includes-append, keys, ℕ, zero, suc, ◌+◌, ◌≤◌, String, ◌≡◌, refl, sym, ap, subst, ◌∙◌, ◌≢◌, ◌⊎◌,
  inl, inr, true, false, ◌||◌, some, List, [], ◌∷◌, ◌++◌, arith, eq_iff, eq_refl,
}
use ather.StateGraph.{
  InternalEdge, StateGraph, targets, push_targets, visit, pushes, find_reachable_nodes,
}

-- Each is visited or in the queue.
abbrev AreMet : List String → List String → List String → Type 0
AreMet visited queue = All (λ t. (includes visited t || includes queue t) ≡ true)

includes_self : (ts : List String) → All (λ t. includes ts t ≡ true) ts
includes_self [] = tt
includes_self (t ∷ ts) = (
  rw eq_refl,
  All-mono (λ u. includes ts u ≡ true) (λ u. includes (t ∷ ts) u ≡ true) ts
      (λ u h. ground (arith, h)) (includes_self ts),
)

All-and {κ μ} :
    {A : Type 0} (P : A → Type κ) (Q : A → Type μ) (xs : List A)
    → All P xs
    → All Q xs
    → All (λ x. P x × Q x) xs
All-and P Q [] h k = tt
All-and P Q (x ∷ xs) h k = ((h.0, k.0), All-and P Q xs h.1 k.1)

met-old :
    (visited queue : List String) (c t : String)
    → includes visited c ≡ true
    → (includes visited t || includes (c ∷ queue) t) ≡ true
    → (includes visited t || includes queue t) ≡ true
met-old visited queue c t old k = elim (Bool-cases (c === t)) [
  | inl same ↦
      let seen : includes visited t ≡ true = ap (includes visited) (sym (===-eq c t same)) ∙ old in
      ground (arith, seen)
  | inr other ↦ ground (arith, other, k)
]

pub All-includes :
    (P : String → Type 0) (xs : List String) (k : String) → All P xs → includes xs k ≡ true → P k
All-includes P [] k h e = absurd (cc e)
All-includes P (x ∷ xs) k h e = elim (Bool-cases (x === k)) [
  | inl same ↦ subst P (===-eq x k same) h.0
  | inr other ↦ All-includes P xs k h.1 (ground (arith, e, other))
]

===-swap : (s t : String) → (s === t) ≡ false → (t === s) ≡ false
===-swap s t h = ground (arith, h, eq_iff s t, eq_iff t s)

module _ {S : Type 0} (ids : List String) where
  -- The pushes of the edges that leave a node.
  leaving : String → List (InternalEdge S) → ℕ
  leaving current [] = 0
  leaving current (e ∷ edges) =
      (if e.from === current then length (targets ids e) else 0) + leaving current edges

  length-push_targets :
      (edges : List (InternalEdge S)) (current : String) (queue : List String)
      → length (push_targets ids edges current queue) ≡ length queue + leaving current edges
  unfolding push_targets leaving
  length-push_targets [] current queue = omega arith
  length-push_targets (e ∷ edges) current queue = ground (
    arith,
    length-push_targets edges current queue,
    length-push_targets edges current (queue ++ targets ids e),
    length-append queue (targets ids e),
  )

  pushes-cons :
      (edges : List (InternalEdge S)) (visited : List String) (current : String)
      → includes visited current ≡ false
      → pushes ids visited edges ≡ pushes ids (current ∷ visited) edges + leaving current edges
  unfolding pushes leaving
  pushes-cons [] visited current new = omega arith
  pushes-cons (e ∷ edges) visited current new =
      let rest = pushes-cons edges visited current new in
      elim (Bool-cases (e.from === current)) [
        | inl h ↦
            let same : e.from ≡ current = ===-eq e.from current h in
            let old : includes visited e.from ≡ false = ap (includes visited) same ∙ new in
            let self : (current === e.from) ≡ true = (eq_iff current e.from).1 (sym same) in
            ground (arith, h, rest, old, self)
        | inr h ↦
            let other : (current === e.from) ≡ false = ===-swap e.from current h in
            ground (arith, h, rest, other)
      ]

  -- The queue and the pushes that may still come bound the rounds.
  visit_total :
      (fuel : ℕ) (edges : List (InternalEdge S)) (visited queue : List String)
      → length queue + pushes ids visited edges ≤ fuel
      → (out : List String) × (visit fuel ids edges visited queue ≡ some out)
  unfolding visit
  visit_total fuel edges visited [] h = (visited, refl)
  visit_total zero edges visited (c ∷ queue) h = absurd (omega (arith, h))
  visit_total (suc fuel) edges visited (c ∷ queue) h = elim (Bool-cases (includes visited c)) [
    | inl old ↦
        let (out, e) = visit_total fuel edges visited queue (omega (arith, h)) in
        (out, rw (old, visit) e)
    | inr new ↦
        let (out, e) =
          visit_total fuel edges (c ∷ visited) (push_targets ids edges c queue) (
            omega (arith, h, length-push_targets edges c queue, pushes-cons edges visited c new)) in
        (out, rw (new, visit) e)
  ]

  -- Every target of an edge from a visited node is visited or in the queue.
  abbrev Covers : List String → List String → List (InternalEdge S) → Type 0
  Covers visited queue =
      All (λ e. includes visited e.from ≡ true → AreMet visited queue (targets ids e))

  push_targets-keeps :
      (edges : List (InternalEdge S)) (current t : String) (queue : List String)
      → includes queue t ≡ true
      → includes (push_targets ids edges current queue) t ≡ true
  unfolding push_targets
  push_targets-keeps [] current t queue h = h
  push_targets-keeps (e ∷ edges) current t queue h = push_targets-keeps edges current t _ (
      if_ind (λ q. includes q t ≡ true) (e.from === current)
        (λ _. ground (arith, h, includes-append queue (targets ids e) t)) (λ _. h))

  push_targets-adds :
      (edges : List (InternalEdge S)) (current : String) (queue : List String)
      → All
          (λ e.
            (e.from === current) ≡ true
            → All (λ t. includes (push_targets ids edges current queue) t ≡ true) (targets ids e))
          edges
  unfolding push_targets
  push_targets-adds [] current queue = tt
  push_targets-adds (e ∷ edges) current queue = (
    λ h.
        All-mono (λ t. includes (targets ids e) t ≡ true) _ (targets ids e)
          (λ t k. push_targets-keeps edges current t _ (
            if_ind (λ q. includes q t ≡ true) (e.from === current)
              (λ _. ground (arith, k, includes-append queue (targets ids e) t))
              (λ n. absurd (cc (n, h)))))
          (includes_self (targets ids e)),
    push_targets-adds edges current (if e.from === current then queue ++ targets ids e else queue),
  )

  Covers-old :
      (edges : List (InternalEdge S)) (visited queue : List String) (c : String)
      → includes visited c ≡ true
      → Covers visited (c ∷ queue) edges
      → Covers visited queue edges
  Covers-old edges visited queue c old = All-mono _ _ edges (λ e f h.
      All-mono _ (λ t. (includes visited t || includes queue t) ≡ true) (targets ids e)
        (λ t k. met-old visited queue c t old k) (f h))

  Covers-new :
      (edges : List (InternalEdge S)) (visited queue : List String) (c : String)
      → Covers visited (c ∷ queue) edges
      → Covers (c ∷ visited) (push_targets ids edges c queue) edges
  Covers-new edges visited queue c covers =
      let queue' = push_targets ids edges c queue in
      All-mono _ _ edges
        (λ e both h. elim (Bool-cases (e.from === c)) [
          | inl same ↦
              All-mono (λ t. includes queue' t ≡ true)
                (λ t. (includes (c ∷ visited) t || includes queue' t) ≡ true) (targets ids e)
                (λ t k. ground (arith, k)) (both.1 same)
          | inr other ↦
              let flipped : (c === e.from) ≡ false = ===-swap e.from c other in
              All-mono (λ t. (includes visited t || includes (c ∷ queue) t) ≡ true)
                (λ t. (includes (c ∷ visited) t || includes queue' t) ≡ true) (targets ids e)
                (λ t k. ground (arith, k, push_targets-keeps edges c t queue))
                (both.0 (ground (arith, h, flipped)))
        ])
        (All-and _ _ edges covers (push_targets-adds edges c queue))

  nothing-Covers : (edges : List (InternalEdge S)) (queue : List String) → Covers [] queue edges
  nothing-Covers [] queue = tt
  nothing-Covers (e ∷ edges) queue = (λ h. absurd (cc h), nothing-Covers edges queue)

  -- The result holds what was visited or in the queue, and is closed under the edges.
  abbrev pub IsClosed : List String → List (InternalEdge S) → Type 0
  IsClosed visited =
      All
        (λ e. includes visited e.from ≡ true → All (λ t. includes visited t ≡ true) (targets ids e))

  visit-IsClosed :
      (fuel : ℕ) (edges : List (InternalEdge S)) (visited queue out : List String) (start : String)
      → Covers visited queue edges
      → (includes visited start || includes queue start) ≡ true
      → visit fuel ids edges visited queue ≡ some out
      → (includes out start ≡ true) × IsClosed out edges
  unfolding visit
  visit-IsClosed fuel edges visited [] out start covers there e =
      let same : visited ≡ out = cc e in
      subst (λ v. (includes v start ≡ true) × IsClosed v edges) same
        (
          ground (arith, there),
          All-mono _ _ edges
              (λ d f h.
                All-mono _ (λ t. includes visited t ≡ true) (targets ids d)
                  (λ t k. ground (arith, k)) (f h))
              covers,
        )
  visit-IsClosed zero edges visited (c ∷ queue) out start covers there e = absurd (cc e)
  visit-IsClosed (suc fuel) edges visited (c ∷ queue) out start covers there e =
      elim (Bool-cases (includes visited c)) [
        | inl old ↦
            visit-IsClosed fuel edges visited queue out start
              (Covers-old edges visited queue c old covers)
              (met-old visited queue c start old there) (ground (arith, old, e))
        | inr new ↦
            visit-IsClosed fuel edges (c ∷ visited) (push_targets ids edges c queue) out start
              (Covers-new edges visited queue c covers)
              (ground (arith, there, push_targets-keeps edges c start queue))
              (ground (arith, new, e))
      ]

-- The loop empties its queue, and its result is closed under the targets that it reads.
pub find_reachable_nodes-IsClosed :
    {S : Type 0} (g : StateGraph S) (start : String)
    → let ids = keys g.nodes in
      let found = find_reachable_nodes g start in
      (visit (1 + pushes ids [] g.edges) ids g.edges [] (start ∷ []) ≡ some found)
      × (includes found start ≡ true)
      × IsClosed ids found g.edges
unfolding find_reachable_nodes
find_reachable_nodes-IsClosed g start =
    let ids = keys g.nodes in
    let (out, e) =
      visit_total ids (1 + pushes ids [] g.edges) g.edges [] (start ∷ []) (omega arith) in
    let none_yet : Covers ids [] (start ∷ []) g.edges = nothing-Covers ids g.edges (start ∷ []) in
    let closed =
      visit-IsClosed ids (1 + pushes ids [] g.edges) g.edges [] (start ∷ []) out start none_yet
        (rw eq_refl) e in
    let same : out ≡ find_reachable_nodes g start = rw (e, find_reachable_nodes) refl in
    let (there, whole) =
      subst (λ v. (includes v start ≡ true) × IsClosed ids v g.edges) same closed in
    (e ∙ ap some same, there, whole)

-- An edge leads to the node that it names, and a conditional edge to any of the nodes.
abbrev pub LeadsTo : {S : Type 0} → List String → InternalEdge S → String → Type 0
LeadsTo ids e t =
    ((e.to ≢ "__conditional__") × (t ≡ e.to))
    ⊎ ((e.to ≡ "__conditional__") × (includes ids t ≡ true))

targets-LeadsTo :
    {S : Type 0} (ids found : List String) (e : InternalEdge S) (t : String)
    → All (λ u. includes found u ≡ true) (targets ids e)
    → LeadsTo ids e t
    → includes found t ≡ true
targets-LeadsTo ids found e t all (inl (named, same)) =
    let plain : (e.to === "__conditional__") ≡ false =
      ground (arith, named, eq_iff e.to "__conditional__") in
    let one : targets ids e ≡ e.to ∷ [] = rw plain refl in
    let whole : All (λ u. includes found u ≡ true) (e.to ∷ []) =
      subst (All (λ u. includes found u ≡ true)) one all in
    ap (includes found) same ∙ whole.0
targets-LeadsTo ids found e t all (inr (marked, there)) =
    let any : targets ids e ≡ ids = rw marked refl in
    All-includes (λ u. includes found u ≡ true) ids t
      (subst (All (λ u. includes found u ≡ true)) any all) there

-- The loop of `findReachableNodes` empties its queue within one round for each id that its edges can
-- push and one for the start, for every graph, cycles included. What it finds holds the start, and
-- with the source of an edge the node that the edge names, or every node when the edge is
-- conditional.
pub visit-find_reachable_nodes :
    {S : Type 0} (g : StateGraph S) (start : String)
    → let ids = keys g.nodes in
      let found = find_reachable_nodes g start in
      (visit (1 + pushes ids [] g.edges) ids g.edges [] (start ∷ []) ≡ some found)
      × (includes found start ≡ true)
      × All
          (λ e.
            includes found e.from ≡ true → (t : String) → LeadsTo ids e t → includes found t ≡ true)
          g.edges
visit-find_reachable_nodes g start =
    let ids = keys g.nodes in
    let found = find_reachable_nodes g start in
    let (total, there, closed) = find_reachable_nodes-IsClosed g start in
    (
      total,
      there,
      All-mono _ _ g.edges (λ e follow h t leads. targets-LeadsTo ids found e t (follow h) leads)
          closed,
    )
