-- ===== src/StateGraph/Build.antt =====
-- core/state-graph.ts: graphs that are built by calls of the builder, and where their edges lead.
use ather.Base.{
  ◌===◌, Bool-cases, Option-cases, ===-eq, filter, All, All-append, includes, get, set, has, keys,
  get-set, includes-keys, String, ◌≡◌, refl, sym, ap, subst, ◌∙◌, ◌⊎◌, inl, inr, true, Option, none,
  some, List, [], ◌∷◌, arith,
}
use ather.StateGraph.{
  GraphError, Result, ok, error, InternalNode, InternalEdge, StateGraph, add_node, add_edge,
  add_conditional_edge, targets, first_target, unconditional_target, resolve_next_node,
}
use ather.StateGraph.Reachable.{All-includes, IsClosed}

pub Result-cases {ℓ} :
    {A : Type ℓ} (r : Result A) → ((a : A) × (r ≡ ok a)) ⊎ ((e : GraphError) × (r ≡ error e))
Result-cases (ok a) = inl (a, refl)
Result-cases (error e) = inr (e, refl)

-- A call of the builder.
pub data Call (S : Type 0) : Type 0 where
  node : (id label : String) → (S → String ⊎ S) → Call S
  edge : (from to : String) → Call S
  conditional_edge : (from : String) → (S → Option String) → Call S

module _ {S : Type 0} where
  -- The calls one after the other, up to the first one that throws.
  abbrev pub build : StateGraph S → List (Call S) → Result (StateGraph S)
  build g [] = ok g
  build g (node id label executor ∷ calls) = elim (add_node id label executor g) [
    | error e ↦ error e
    | ok g' ↦ build g' calls
  ]
  build g (edge from to ∷ calls) = build (add_edge from to g) calls
  build g (conditional_edge from condition ∷ calls) =
      build (add_conditional_edge from condition g) calls

  -- Nodes stand under their ids, and edges with a condition are marked so.
  abbrev IsTagged : InternalEdge S → Type 0
  IsTagged e = elim e.condition [ none ↦ Unit | some _ ↦ e.to ≡ "__conditional__" ]

  pub record Inv (g : StateGraph S) : Type 0 where
    pub keyed : (k : String) (n : InternalNode S) → get g.nodes k ≡ some n → n.id ≡ k
    pub tagged : All IsTagged g.edges

  add_node-Inv :
      (g g' : StateGraph S) (id label : String) (executor : S → String ⊎ S)
      → add_node id label executor g ≡ ok g'
      → Inv g
      → Inv g'
  unfolding add_node
  add_node-Inv g g' id label executor e v = elim (Bool-cases (has g.nodes id)) [
    | inl old ↦ absurd (ground (arith, old, e))
    | inr new ↦
        let n : InternalNode S = record { id = id; label = label; executor = executor } in
        let same : record g { nodes = set g.nodes id n } ≡ g' = ground (arith, new, e) in
        subst Inv same (record {
          keyed = λ k x h. elim (Bool-cases (id === k)) [
            | inl h' ↦
                let key : id ≡ k = ===-eq id k h' in
                let found : some n ≡ some x = ground (arith, h', h, get-set g.nodes id k n) in
                let node_eq : n ≡ x = cc found in ap (λ y. y.id) (sym node_eq) ∙ key
            | inr h' ↦ v.keyed k x (ground (arith, h', h, get-set g.nodes id k n))
          ];
          tagged = v.tagged;
        })
  ]

  pub build-Inv :
      (calls : List (Call S)) (g g' : StateGraph S) → build g calls ≡ ok g' → Inv g → Inv g'
  build-Inv [] g g' e v = subst Inv (cc e) v
  build-Inv (node id label executor ∷ calls) g g' e v =
      elim (Result-cases (add_node id label executor g)) [
        | inl (h, there) ↦
            build-Inv calls h g' (ground (arith, e, there))
              (add_node-Inv g h id label executor there v)
        | inr (x, bad) ↦ absurd (ground (arith, e, bad))
      ]
  build-Inv (edge from to ∷ calls) g g' e v =
      build-Inv calls (add_edge from to g) g' e
        (record { keyed = v.keyed; tagged = All-append IsTagged g.edges _ v.tagged (tt, tt) })
  build-Inv (conditional_edge from condition ∷ calls) g g' e v =
      build-Inv calls (add_conditional_edge from condition g) g' e
        (record { keyed = v.keyed; tagged = All-append IsTagged g.edges _ v.tagged (refl, tt) })

  IsTagged-some :
      (d : InternalEdge S) (c : S → Option String)
      → d.condition ≡ some c
      → IsTagged d
      → d.to ≡ "__conditional__"
  IsTagged-some d c e t =
      subst (λ o. elim o [ none ↦ Unit | some _ ↦ d.to ≡ "__conditional__" ]) e t

  -- From a node that was found, an edge leads to nodes that were found.
  targets-met :
      (found ids : List String) (d : InternalEdge S) (from : String)
      → (includes found d.from ≡ true → All (λ t. includes found t ≡ true) (targets ids d))
      → includes found from ≡ true
      → (d.from === from) ≡ true
      → All (λ t. includes found t ≡ true) (targets ids d)
  targets-met found ids d from closed h same =
      closed (ap (includes found) (===-eq d.from from same) ∙ h)

  -- A conditional edge may lead to any node.
  conditional-met :
      (found ids : List String) (d : InternalEdge S) (target : String)
      → All (λ t. includes found t ≡ true) (targets ids d)
      → d.to ≡ "__conditional__"
      → includes ids target ≡ true
      → includes found target ≡ true
  conditional-met found ids d target all e there =
      let any : targets ids d ≡ ids = rw e refl in
      All-includes (λ t. includes found t ≡ true) ids target
        (subst (All (λ t. includes found t ≡ true)) any all) there

  -- The target of a conditional edge is any node.
  first_target-met :
      (g : StateGraph S) (found : List String) (from target : String) (state : S)
      (edges : List (InternalEdge S))
      → All IsTagged edges
      → IsClosed (keys g.nodes) found edges
      → includes found from ≡ true
      → first_target (filter (λ e. e.from === from) edges) state ≡ some target
      → has g.nodes target ≡ true
      → includes found target ≡ true
  first_target-met g found from target state [] tagged closed h e there = absurd (cc e)
  first_target-met g found from target state (d ∷ edges) tagged closed h e there =
      let rest : first_target (filter (λ e. e.from === from) edges) state ≡ some target
          → includes found target ≡ true =
        λ e'. first_target-met g found from target state edges tagged.1 closed.1 h e' there in
      elim (Bool-cases (d.from === from)) [
        | inr other ↦ rest (ground (arith, e, other))
        | inl same ↦ elim (Option-cases d.condition) [
          | inl plain ↦ rest (ground (arith, e, same, plain))
          | inr (c, cond) ↦ elim (Option-cases (c state)) [
            | inl next ↦ rest (ground (arith, e, same, cond, next))
            | inr (t, hit) ↦
                conditional-met found (keys g.nodes) d target
                  (targets-met found (keys g.nodes) d from closed.0 h same)
                  (IsTagged-some d c cond tagged.0) (includes-keys g.nodes target ∙ there)
          ]
        ]
      ]

  unconditional_target-met :
      (g : StateGraph S) (found : List String) (from target : String)
      (edges : List (InternalEdge S))
      → IsClosed (keys g.nodes) found edges
      → includes found from ≡ true
      → unconditional_target (filter (λ e. e.from === from) edges) ≡ some target
      → includes found target ≡ true
  unconditional_target-met g found from target [] closed h e = absurd (cc e)
  unconditional_target-met g found from target (d ∷ edges) closed h e =
      let rest : unconditional_target (filter (λ e. e.from === from) edges) ≡ some target
          → includes found target ≡ true =
        λ e'. unconditional_target-met g found from target edges closed.1 h e' in
      elim (Bool-cases (d.from === from)) [
        | inr other ↦ rest (ground (arith, e, other))
        | inl same ↦ elim (Option-cases d.condition) [
          | inr (c, cond) ↦ rest (ground (arith, e, same, cond))
          | inl plain ↦
              let near = targets-met found (keys g.nodes) d from closed.0 h same in
              elim (Bool-cases (d.to === "__conditional__")) [
                | inl marked ↦ absurd (ground (arith, e, same, plain, marked))
                | inr named ↦
                    let hit : d.to ≡ target = ground (arith, e, same, plain, named) in
                    let one : targets (keys g.nodes) d ≡ d.to ∷ [] = rw named refl in
                    let all : All (λ t. includes found t ≡ true) (d.to ∷ []) =
                      subst (All (λ t. includes found t ≡ true)) one near in
                    ap (includes found) (sym hit) ∙ all.0
              ]
        ]
      ]

  pub resolve_next_node-met :
      (g : StateGraph S) (found : List String) (from target : String) (state : S)
      → Inv g
      → IsClosed (keys g.nodes) found g.edges
      → includes found from ≡ true
      → resolve_next_node g from state ≡ ok (some target)
      → includes found target ≡ true
  unfolding resolve_next_node
  resolve_next_node-met g found from target state v closed h e =
      elim (Option-cases (first_target (filter (λ e. e.from === from) g.edges) state)) [
        | inl nothing ↦
            unconditional_target-met g found from target g.edges closed h
              (ground (arith, e, nothing))
        | inr (t, hit) ↦ elim (Bool-cases (has g.nodes t)) [
          | inr missing ↦ absurd (ground (arith, e, hit, missing))
          | inl there ↦
              let same : t ≡ target = ground (arith, e, hit, there) in
              ap (includes found) (sym same)
              ∙ first_target-met g found from t state g.edges v.tagged closed h hit there
        ]
      ]
