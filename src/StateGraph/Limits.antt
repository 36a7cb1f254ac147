-- ===== src/StateGraph/Limits.antt =====
-- core/state-graph.ts: how long `run` goes on, and what it may throw.
use ather.Base.{
  ◌===◌, Bool-cases, Option-cases, length, filter, length-append, get, has, ℕ, zero, suc, ◌+◌, ◌≤◌,
  String, ◌≡◌, refl, sym, ap, subst, ◌∙◌, inl, inr, true, false, none, some, List, [], ◌∷◌, ◌++◌,
  arith,
}
use ather.StateGraph.{
  InternalNode, GraphError, executor_threw, resolved_to_missing, Result, ok, error, InternalEdge,
  StateGraph, CompiledGraph, Visit, RunOutput, check_edges, compile, first_target,
  unconditional_target, resolve_next_node, run_from, run,
}
use ather.StateGraph.Runs.{
  Round, missing, threw, failed, stopped, moved, visit_of, run_from-Round, compile-ok,
}

module _ {S : Type 0} where
  -- Why a run may throw: the executor of a node of the graph has thrown that message, or the first
  -- condition that answers, at that node, has named a target that is not a node.
  abbrev pub IsCause : StateGraph S → GraphError → Type 0
  IsCause g (executor_threw message) =
      (id : String) × (n : InternalNode S) × (state : S) × (get g.nodes id ≡ some n)
      × (n.executor state ≡ inl message)
  IsCause g (resolved_to_missing from target) =
      (state : S) × (first_target (filter (λ e. e.from === from) g.edges) state ≡ some target)
      × (has g.nodes target ≡ false)
  IsCause g _ = ⊥

  -- What `run` gives: as many visits as iterations, within the bound, or an error of those.
  abbrev pub IsSound : StateGraph S → ℕ → Result (RunOutput S) → Type 0
  IsSound g bound (ok out) = (length out.trace ≡ out.iterations) × (out.iterations ≤ bound)
  IsSound g bound (error e) = IsCause g e

  unconditional_target-has :
      (nodes : _) (from target : String) (edges : List (InternalEdge S))
      → check_edges nodes edges ≡ none
      → unconditional_target (filter (λ e. e.from === from) edges) ≡ some target
      → has nodes target ≡ true
  unconditional_target-has nodes from target [] checked e = absurd (cc e)
  unconditional_target-has nodes from target (d ∷ edges) checked e =
      elim (Option-cases d.condition) [
        | inr (c, cond) ↦
            ground (arith, checked, e, cond, unconditional_target-has nodes from target edges)
        | inl plain ↦
            ground (arith, checked, e, plain, unconditional_target-has nodes from target edges)
      ]

  resolve_next_node_sound :
      (g : StateGraph S) (from : String) (state : S) (e : GraphError)
      → resolve_next_node g from state ≡ error e
      → IsCause g e
  unfolding resolve_next_node
  resolve_next_node_sound g from state e h =
      elim (Option-cases (first_target (filter (λ e. e.from === from) g.edges) state)) [
        | inl nothing ↦ absurd (ground (arith, h, nothing))
        | inr (t, hit) ↦ elim (Bool-cases (has g.nodes t)) [
          | inl there ↦ absurd (ground (arith, h, hit, there))
          | inr no_node ↦
              let same : resolved_to_missing from t ≡ e = ground (arith, h, hit, no_node) in
              subst (IsCause g) same (state, hit, no_node)
        ]
      ]

  resolve_next_node-has :
      (g : StateGraph S) (from target : String) (state : S)
      → check_edges g.nodes g.edges ≡ none
      → resolve_next_node g from state ≡ ok (some target)
      → has g.nodes target ≡ true
  unfolding resolve_next_node
  resolve_next_node-has g from target state checked h =
      elim (Option-cases (first_target (filter (λ e. e.from === from) g.edges) state)) [
        | inl nothing ↦
            unconditional_target-has g.nodes from target g.edges checked
              (ground (arith, h, nothing))
        | inr (t, hit) ↦ elim (Bool-cases (has g.nodes t)) [
          | inl there ↦
              let same : t ≡ target = ground (arith, h, hit, there) in
              ap (has g.nodes) (sym same) ∙ there
          | inr no_node ↦ absurd (ground (arith, h, hit, no_node))
        ]
      ]

  Round-IsSound :
      (left : ℕ) (g : StateGraph S) (current : String) (trace : List Visit) (i : ℕ)
      → check_edges g.nodes g.edges ≡ none
      → has g.nodes current ≡ true
      → length trace ≡ i
      → ((next : String) (s : S) (trace' : List Visit)
          → has g.nodes next ≡ true
          → length trace' ≡ i + 1
          → IsSound g (i + 1 + left) (run_from left g next s trace' (i + 1)))
      → (r : Result (RunOutput S)) → Round left g current trace i r
      → IsSound g (i + 1 + left) r
  Round-IsSound left g current trace i checked there size go_on _ (missing x) =
      absurd (ground (arith, there, x))
  Round-IsSound left g current trace i checked there size go_on _ (threw n s m here bad) =
      (current, n, s, here, bad)
  Round-IsSound left g current trace i checked there size go_on _ (failed s e h) =
      resolve_next_node_sound g current s e h
  Round-IsSound left g current trace i checked there size go_on _ (stopped n s h) =
      (omega (arith, size, length-append trace (visit_of n i ∷ [])), omega arith)
  Round-IsSound left g current trace i checked there size go_on _ (moved n s next h on) =
      go_on next s (trace ++ (visit_of n i ∷ []))
        (resolve_next_node-has g current next s checked on)
        (omega (arith, size, length-append trace (visit_of n i ∷ [])))

  run_from-IsSound :
      (left : ℕ) (g : StateGraph S) (current : String) (state : S) (trace : List Visit) (i : ℕ)
      → check_edges g.nodes g.edges ≡ none
      → has g.nodes current ≡ true
      → length trace ≡ i
      → IsSound g (i + left) (run_from left g current state trace i)
  unfolding run_from
  run_from-IsSound zero g current state trace i checked there size = (size, omega arith)
  run_from-IsSound (suc left) g current state trace i checked there size =
      subst (λ b. IsSound g b (run_from (suc left) g current state trace i)) (omega arith)
        (Round-IsSound left g current trace i checked there size
          (λ next s trace' h k. run_from-IsSound left g next s trace' (i + 1) checked h k)
          (run_from (suc left) g current state trace i)
          (run_from-Round left g current state trace i))

  -- A run of a graph that `compile` has accepted makes at most `maxIterations` iterations and as many
  -- entries of the trace, or it throws what the executor of one of its nodes has thrown, or because
  -- the first condition that answered at a node has named one that does not exist. It never meets a
  -- missing node otherwise.
  pub run-IsSound :
      (g : StateGraph S) (c : CompiledGraph S) (state : S)
      → compile g ≡ ok c
      → IsSound g g.config.max_iterations (run c state)
  unfolding run
  run-IsSound g c state compiled =
      let (checked, there, same) = compile-ok g c compiled in
      subst (λ d. IsSound g g.config.max_iterations (run d state)) (sym same)
        (subst
          (λ b. IsSound g b (run_from g.config.max_iterations g g.config.entry_node state [] 0))
          (omega arith)
          (run_from-IsSound g.config.max_iterations g g.config.entry_node state [] 0 checked there
            refl))
