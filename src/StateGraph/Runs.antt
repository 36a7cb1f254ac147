-- ===== src/StateGraph/Runs.antt =====
-- core/state-graph.ts: what `run` does on a graph that `compile` has accepted.
use ather.Base.{
  ◌===◌, Bool-cases, Option-cases, ===-eq, sum-cases, filter, All, All-append, All-mono, includes,
  get, has, keys, ℕ, zero, suc, ◌+◌, String, ◌≡◌, refl, sym, ap, subst, ◌∙◌, inl, inr, true, false,
  not, none, some, List, [], ◌∷◌, ◌++◌, arith,
}
use ather.StateGraph.{
  check_exits, find_reachable_nodes, check_edges, StateGraphConfig, CompiledGraph, run, compile,
  GraphError, node_not_found, executor_threw, Result, ok, error, InternalNode, StateGraph, Visit,
  RunOutput, resolve_next_node, run_from,
}
use ather.StateGraph.Reachable.{find_reachable_nodes-IsClosed, IsClosed}
use ather.StateGraph.Build.{build-Inv, build, Call, Inv, resolve_next_node-met, Result-cases}

unreachable-not_found :
    (found ids : List String) (k : String)
    → includes found k ≡ true
    → includes (filter (λ id. not (includes found id)) ids) k ≡ false
unreachable-not_found found [] k h = refl
unreachable-not_found found (id ∷ ids) k h = elim (Bool-cases (id === k)) [
  | inl same ↦
      let seen : includes found id ≡ true = ap (includes found) (===-eq id k same) ∙ h in
      ground (arith, seen, unreachable-not_found found ids k h)
  | inr other ↦ ground (arith, other, unreachable-not_found found ids k h)
]

module _ {S : Type 0} where
  abbrev pub visit_of : InternalNode S → ℕ → Visit
  visit_of n i = record { node_id = n.id; label = n.label; iteration = i + 1 }

  abbrev trace_of : Result (RunOutput S) → List Visit
  trace_of (ok out) = out.trace
  trace_of (error e) = []

  -- What a round of the loop may do.
  pub data Round (left : ℕ) (g : StateGraph S) (current : String) (trace : List Visit) (i : ℕ)
      : Result (RunOutput S) → Type 0 where
    missing :
        get g.nodes current ≡ none → Round left g current trace i (error (node_not_found current))
    threw :
        (n : InternalNode S) (state : S) (message : String)
        → get g.nodes current ≡ some n
        → n.executor state ≡ inl message
        → Round left g current trace i (error (executor_threw message))
    failed :
        (state : S) (e : GraphError)
        → resolve_next_node g current state ≡ error e
        → Round left g current trace i (error e)
    stopped :
        (n : InternalNode S) (state : S)
        → get g.nodes current ≡ some n
        → Round left g current trace i (
            ok (record {
              state = state;
              trace = trace ++ (visit_of n i ∷ []);
              iterations = i + 1;
              exit_node = some current;
            }))
    moved :
        (n : InternalNode S) (state : S) (next : String)
        → get g.nodes current ≡ some n
        → resolve_next_node g current state ≡ ok (some next)
        → Round left g current trace i
            (run_from left g next state (trace ++ (visit_of n i ∷ [])) (i + 1))

  pub run_from-Round :
      (left : ℕ) (g : StateGraph S) (current : String) (state : S) (trace : List Visit) (i : ℕ)
      → Round left g current trace i (run_from (suc left) g current state trace i)
  unfolding run_from
  run_from-Round left g current state trace i = elim (Option-cases (get g.nodes current)) [
    | inl none_there ↦ rw (none_there, run_from) (missing none_there)
    | inr (n, there) ↦ elim (sum-cases (n.executor state)) [
      | inl (m, bad) ↦ rw (there, run_from, bad) (threw n state m there bad)
      | inr (state', done) ↦ elim (Bool-cases (includes g.config.exit_nodes current)) [
        | inl exit ↦ rw (there, run_from, done, exit) (stopped n state' there)
        | inr inner ↦ elim (Result-cases (resolve_next_node g current state')) [
          | inr (e, bad) ↦ rw (there, run_from, done, inner, bad) (failed state' e bad)
          | inl (o, good) ↦ elim (Option-cases o) [
            | inl last ↦ rw (there, run_from, done, inner, good, last) (stopped n state' there)
            | inr (next, on) ↦
                rw (there, run_from, done, inner, good, on)
                  (moved n state' next there (good ∙ ap ok on))
          ]
        ]
      ]
    ]
  ]

  visited-met :
      (g : StateGraph S) (found : List String) (current : String) (n : InternalNode S)
      (trace : List Visit) (i : ℕ)
      → Inv g
      → includes found current ≡ true
      → get g.nodes current ≡ some n
      → All (λ t. includes found t.node_id ≡ true) trace
      → All (λ t. includes found t.node_id ≡ true) (trace ++ (visit_of n i ∷ []))
  visited-met g found current n trace i v h there past =
      All-append (λ t. includes found t.node_id ≡ true) trace _ past
        (ap (includes found) (v.keyed current n there) ∙ h, tt)

  Round-met :
      (left : ℕ) (g : StateGraph S) (found : List String) (current : String) (trace : List Visit)
      (i : ℕ) (out : RunOutput S)
      → Inv g
      → IsClosed (keys g.nodes) found g.edges
      → includes found current ≡ true
      → All (λ t. includes found t.node_id ≡ true) trace
      → ((next : String) (s : S) (trace' : List Visit)
          → includes found next ≡ true
          → All (λ t. includes found t.node_id ≡ true) trace'
          → run_from left g next s trace' (i + 1) ≡ ok out
          → All (λ t. includes found t.node_id ≡ true) out.trace)
      → (r : Result (RunOutput S)) → Round left g current trace i r
      → r ≡ ok out
      → All (λ t. includes found t.node_id ≡ true) out.trace
  Round-met left g found current trace i out v closed h past go_on _ (missing x) e = absurd (cc e)
  Round-met left g found current trace i out v closed h past go_on _ (threw n s m there bad) e =
      absurd (cc e)
  Round-met left g found current trace i out v closed h past go_on _ (failed s x b) e =
      absurd (cc e)
  Round-met left g found current trace i out v closed h past go_on _ (stopped n s there) e =
      subst (All (λ t. includes found t.node_id ≡ true)) (ap trace_of e)
        (visited-met g found current n trace i v h there past)
  Round-met left g found current trace i out v closed h past go_on _ (moved n s next there on) e =
      go_on next s (trace ++ (visit_of n i ∷ []))
        (resolve_next_node-met g found current next s v closed h on)
        (visited-met g found current n trace i v h there past) e

  -- A run goes from nodes that were found to nodes that were found.
  run_from-met :
      (left : ℕ) (g : StateGraph S) (found : List String) (current : String) (state : S)
      (trace : List Visit) (i : ℕ) (out : RunOutput S)
      → Inv g
      → IsClosed (keys g.nodes) found g.edges
      → includes found current ≡ true
      → All (λ t. includes found t.node_id ≡ true) trace
      → run_from left g current state trace i ≡ ok out
      → All (λ t. includes found t.node_id ≡ true) out.trace
  unfolding run_from
  run_from-met zero g found current state trace i out v closed h past e =
      let same : trace ≡ out.trace = ap trace_of e in
      subst (All (λ t. includes found t.node_id ≡ true)) same past
  run_from-met (suc left) g found current state trace i out v closed h past e =
      Round-met left g found current trace i out v closed h past
        (λ next s trace' k past'.
          run_from-met left g found next s trace' (i + 1) out v closed k past')
        (run_from (suc left) g current state trace i) (run_from-Round left g current state trace i)
        e

  -- What `compile` returns.
  pub compile-ok :
      (g : StateGraph S) (c : CompiledGraph S)
      → compile g ≡ ok c
      → (check_edges g.nodes g.edges ≡ none)
        × (has g.nodes g.config.entry_node ≡ true)
        × (c ≡ record {
          graph = g;
          unreachable_nodes =
              filter
                (λ id. not (includes (find_reachable_nodes g g.config.entry_node) id))
                (keys g.nodes);
        })
  unfolding compile
  compile-ok g c e = elim (Bool-cases (has g.nodes g.config.entry_node)) [
    | inr no_entry ↦ absurd (ground (arith, e, no_entry))
    | inl there ↦ elim (Option-cases (check_exits g.nodes g.config.exit_nodes)) [
      | inr (x, bad) ↦ absurd (ground (arith, e, there, bad))
      | inl exits ↦ elim (Option-cases (check_edges g.nodes g.edges)) [
        | inr (x, bad) ↦ absurd (ground (arith, e, there, exits, bad))
        | inl edges ↦ (edges, there, ground (arith, e, there, exits, edges))
      ]
    ]
  ]

  -- Of a graph that was built by the builder's calls and accepted by `compile`, a run never visits a
  -- node that `compile` lists as unreachable, whatever the executors and the conditions return.
  pub run-reachable :
      (config : StateGraphConfig) (calls : List (Call S)) (g : StateGraph S) (c : CompiledGraph S)
      (state : S) (out : RunOutput S)
      → build (record { config = config; nodes = []; edges = [] }) calls ≡ ok g
      → compile g ≡ ok c
      → run c state ≡ ok out
      → All (λ t. includes c.unreachable_nodes t.node_id ≡ false) out.trace
  unfolding run get
  run-reachable config calls g c state out built compiled e =
      let v =
        build-Inv calls (record { config = config; nodes = []; edges = [] }) g built
          (record { keyed = λ k n h. absurd (cc h); tagged = tt }) in
      let (edges, there, same) = compile-ok g c compiled in
      let found = find_reachable_nodes g g.config.entry_node in
      let (total, start, closed) = find_reachable_nodes-IsClosed g g.config.entry_node in
      let whole : run_from g.config.max_iterations g g.config.entry_node state [] 0 ≡ ok out =
        ap (λ d. run d state) (sym same) ∙ e in
      let met =
        run_from-met g.config.max_iterations g found g.config.entry_node state [] 0 out v closed
          start tt whole in
      All-mono (λ t. includes found t.node_id ≡ true) _ out.trace
        (λ t h.
          ap (λ d. includes d.unreachable_nodes t.node_id) same
          ∙ unreachable-not_found found (keys g.nodes) t.node_id h)
        met
