-- ===== src/Builder/Ids.antt =====
-- core/workflow-builder.ts: the ids of the steps, and what `build` never answers.
use ather.Base.{
  ℕ, zero, suc, ◌+◌, String, ◌≡◌, refl, ap, ◌∙◌, ◌≢◌, inl, inr, Option, none, List, [], ◌∷◌, ◌++◌,
  map, arith,
}
use ather.Builder.{
  AgentTask, WorkflowBuilder, StepType, BuildResult, refused, missing_step, new_builder, step_id,
  push_step, chain_from, fan_from, sequential, parallel, handoff, conditional, aggregate, ids_of,
  with_history, build,
}
use ather.Builder.Order.{
  Call, sequential_call, parallel_call, handoff_call, conditional_call, aggregate_call, step, run,
  IsOrdered, IsAnswer, ids_of-append, build-IsAnswer, run-IsOrdered, check_deps-none,
}

-- "step-0", "step-1" and so on.
abbrev pub ids_below : ℕ → List String
ids_below zero = []
ids_below (suc n) = ids_below n ++ (step_id n ∷ [])

module _ {V F : Type 0} where
  -- The steps have the ids of the counter's values so far, each once and in order.
  abbrev pub IsNumbered : WorkflowBuilder V F → Type 0
  IsNumbered b = ids_of b.steps ≡ ids_below b.step_counter

  push_step-IsNumbered :
      (type : StepType) (group : Option String) (condition : Option F) (deps : List String)
      (task : AgentTask V) (b : WorkflowBuilder V F)
      → IsNumbered b
      → IsNumbered (push_step type group condition deps task b)
  unfolding push_step
  push_step-IsNumbered type group condition deps task b h =
      let n = b.step_counter in
      let next : suc n ≡ n + 1 = omega arith in
      ids_of-append b.steps _ ∙ ap (λ ids. ids ++ (step_id n ∷ [])) h ∙ ap ids_below next

  chain_from-IsNumbered :
      (type : StepType) (deps made : List String) (tasks : List (AgentTask V))
      (b : WorkflowBuilder V F)
      → IsNumbered b
      → IsNumbered (chain_from type deps made tasks b).0
  unfolding chain_from
  chain_from-IsNumbered type deps made [] b h = h
  chain_from-IsNumbered type deps made (task ∷ tasks) b h =
      let id = step_id b.step_counter in
      chain_from-IsNumbered type (id ∷ []) (id ∷ []) tasks (push_step type none none deps task b)
        (push_step-IsNumbered type none none deps task b h)

  fan_from-IsNumbered :
      (type : StepType) (group : Option String) (condition : Option F) (deps made : List String)
      (tasks : List (AgentTask V)) (b : WorkflowBuilder V F)
      → IsNumbered b
      → IsNumbered (fan_from type group condition deps made tasks b).0
  unfolding fan_from
  fan_from-IsNumbered type group condition deps made [] b h = h
  fan_from-IsNumbered type group condition deps made (task ∷ tasks) b h =
      fan_from-IsNumbered type group condition deps (made ++ (step_id b.step_counter ∷ [])) tasks
        (push_step type group condition deps task b)
        (push_step-IsNumbered type group condition deps task b h)

  step-IsNumbered : (c : Call V F) (b : WorkflowBuilder V F) → IsNumbered b → IsNumbered (step c b)
  unfolding step sequential parallel handoff conditional aggregate
  step-IsNumbered (sequential_call tasks) b h = chain_from-IsNumbered _ b.last_step_ids [] tasks b h
  step-IsNumbered (parallel_call tasks) b h = fan_from-IsNumbered _ _ _ b.last_step_ids [] tasks b h
  step-IsNumbered (handoff_call truth tasks) b h =
      chain_from-IsNumbered _ b.last_step_ids [] (map (with_history truth) tasks) b h
  step-IsNumbered (conditional_call router tasks) b h =
      fan_from-IsNumbered _ _ _ b.last_step_ids [] tasks b h
  step-IsNumbered (aggregate_call task) b h =
      push_step-IsNumbered _ none none b.last_step_ids task b h

  run-IsNumbered :
      (calls : List (Call V F)) (b : WorkflowBuilder V F) → IsNumbered b → IsNumbered (run calls b)
  unfolding run
  run-IsNumbered [] b h = h
  run-IsNumbered (c ∷ calls) b h = run-IsNumbered calls (step c b) (step-IsNumbered c b h)

  never_missing :
      (b : WorkflowBuilder V F) (r : BuildResult V F) (id dep : String)
      → IsAnswer b r
      → r ≢ refused (missing_step id dep)
  never_missing b r id dep (inl e) = λ h. absurd (cc (e, h))
  never_missing b r id dep (inr (inl e)) = λ h. absurd (cc (e, h))
  never_missing b r id dep (inr (inr (w, e, same))) = λ h. absurd (cc (e, h))

  -- Whatever calls add steps to a new builder, its steps have the ids "step-0", "step-1" and so on in
  -- order, each depends on steps before it only, and `build` never finds that a step is missing.
  pub build-run :
      (name : String) (calls : List (Call V F))
      → let b = run calls (new_builder name) in
        IsNumbered b × IsOrdered b × ((id dep : String) → build b ≢ refused (missing_step id dep))
  build-run name calls =
      let b = run calls (new_builder name) in
      let i = run-IsOrdered calls (new_builder name) (record { ordered = tt; last = tt }) in
      let answer = build-IsAnswer b (check_deps-none [] b.steps i.ordered) in
      (
        run-IsNumbered calls (new_builder name) refl,
        i,
        λ id dep. never_missing b (build b) id dep answer,
      )
