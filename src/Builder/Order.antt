-- ===== src/Builder/Order.antt =====
-- core/workflow-builder.ts: what the steps that a builder makes depend on.
use ather.Base.{
  Bool-cases, All, List-cases, includes, includes-append, String, ◌≡◌, refl, sym, ap, subst, ◌⊎◌,
  inl, inr, true, Option, none, List, [], ◌∷◌, ◌++◌, map, append-nil, append_assoc, arith, eq_iff,
}
use ather.Builder.{
  has_cycle, compiled, CompiledWorkflow, built, empty_workflow, circular_dependencies, none_in,
  check_deps, build, BuildResult, refused, AgentTask, BuilderStep, WorkflowBuilder, BuildResult,
  StepType, refused, step_id, push_step, chain_from, fan_from, sequential, parallel, handoff,
  conditional, aggregate, ids_of, check_deps, none_in, build, with_history,
}

-- The calls that add steps to a builder.
pub data Call (V F : Type 0) : Type 0 where
  sequential_call : List (AgentTask V) → Call V F
  parallel_call : List (AgentTask V) → Call V F
  handoff_call : V → List (AgentTask V) → Call V F
  conditional_call : F → List (AgentTask V) → Call V F
  aggregate_call : AgentTask V → Call V F

-- Every one of the ids is among the others.
abbrev pub AreIn : List String → List String → Type 0
AreIn ids = All (λ id. includes ids id ≡ true)

AreIn-append : (ids more deps : List String) → AreIn ids deps → AreIn (ids ++ more) deps
AreIn-append ids more [] h = tt
AreIn-append ids more (d ∷ deps) h =
    (ground (arith, h.0, includes-append ids more d), AreIn-append ids more deps h.1)

append-AreIn : (ids xs ys : List String) → AreIn ids xs → AreIn ids ys → AreIn ids (xs ++ ys)
append-AreIn ids [] ys h k = k
append-AreIn ids (x ∷ xs) ys h k = (h.0, append-AreIn ids xs ys h.1 k)

includes-last : (ids : List String) (id : String) → includes (ids ++ (id ∷ [])) id ≡ true
includes-last ids id = ground (arith, includes-append ids (id ∷ []) id, eq_iff id id)

none_in-none : (ids deps : List String) → AreIn ids deps → none_in ids deps ≡ none
none_in-none ids [] h = refl
none_in-none ids (d ∷ deps) h = ground (arith, h.0, none_in-none ids deps h.1)

module _ {V F : Type 0} where
  -- Each step depends on steps before it only, where some ids stand before the list.
  abbrev pub AreOrdered : List String → List (BuilderStep V F) → Type 0
  AreOrdered seen [] = Unit
  AreOrdered seen (s ∷ steps) = AreIn seen s.depends_on × AreOrdered (seen ++ (s.id ∷ [])) steps

  -- The steps are ordered, and the ids on which the next steps will depend are steps.
  pub record IsOrdered (b : WorkflowBuilder V F) : Type 0 where
    pub ordered : AreOrdered [] b.steps
    pub last : AreIn (ids_of b.steps) b.last_step_ids

  append-AreOrdered :
      (seen : List String) (steps : List (BuilderStep V F)) (s : BuilderStep V F)
      → AreOrdered seen steps
      → AreIn (seen ++ ids_of steps) s.depends_on
      → AreOrdered seen (steps ++ (s ∷ []))
  append-AreOrdered seen [] s h k = (subst (λ ids. AreIn ids s.depends_on) (append-nil seen) k, tt)
  append-AreOrdered seen (t ∷ steps) s h k = (
    h.0,
    append-AreOrdered (seen ++ (t.id ∷ [])) steps s h.1 (
        subst (λ ids. AreIn ids s.depends_on) (sym (append_assoc seen (t.id ∷ []) (ids_of steps)))
          k),
  )

  pub ids_of-append : (xs ys : List (BuilderStep V F)) → ids_of (xs ++ ys) ≡ ids_of xs ++ ids_of ys
  ids_of-append [] ys = refl
  ids_of-append (x ∷ xs) ys = ap (◌∷◌ x.id) (ids_of-append xs ys)

  -- What pushing a step does to the order and to the ids.
  push_step-ordered :
      (type : StepType) (group : Option String) (condition : Option F) (deps : List String)
      (task : AgentTask V) (b : WorkflowBuilder V F)
      → AreOrdered [] b.steps
      → AreIn (ids_of b.steps) deps
      → AreOrdered [] (push_step type group condition deps task b).steps
        × (ids_of (push_step type group condition deps task b).steps
            ≡ ids_of b.steps ++ (step_id b.step_counter ∷ []))
  unfolding push_step
  push_step-ordered type group condition deps task b h k =
      (append-AreOrdered [] b.steps _ h k, ids_of-append b.steps _)

  -- The steps that a loop makes are ordered, and the ids that it gives are steps.
  abbrev IsMade : WorkflowBuilder V F × List String → Type 0
  IsMade made = AreOrdered [] made.0.steps × AreIn (ids_of made.0.steps) made.1

  chain_from-IsMade :
      (type : StepType) (deps made : List String) (tasks : List (AgentTask V))
      (b : WorkflowBuilder V F)
      → AreOrdered [] b.steps
      → AreIn (ids_of b.steps) deps
      → AreIn (ids_of b.steps) made
      → IsMade (chain_from type deps made tasks b)
  unfolding chain_from
  chain_from-IsMade type deps made [] b h k l = (h, l)
  chain_from-IsMade type deps made (task ∷ tasks) b h k l =
      let id = step_id b.step_counter in
      let b' = push_step type none none deps task b in
      let (h', ids) = push_step-ordered type none none deps task b h k in
      let here : AreIn (ids_of b'.steps) (id ∷ []) =
        subst (λ all. AreIn all (id ∷ [])) (sym ids) (includes-last (ids_of b.steps) id, tt) in
      chain_from-IsMade type (id ∷ []) (id ∷ []) tasks b' h' here here

  fan_from-IsMade :
      (type : StepType) (group : Option String) (condition : Option F) (deps made : List String)
      (tasks : List (AgentTask V)) (b : WorkflowBuilder V F)
      → AreOrdered [] b.steps
      → AreIn (ids_of b.steps) deps
      → AreIn (ids_of b.steps) made
      → IsMade (fan_from type group condition deps made tasks b)
  unfolding fan_from
  fan_from-IsMade type group condition deps made [] b h k l = (h, l)
  fan_from-IsMade type group condition deps made (task ∷ tasks) b h k l =
      let old = ids_of b.steps in
      let id = step_id b.step_counter in
      let b' = push_step type group condition deps task b in
      let (h', ids) = push_step-ordered type group condition deps task b h k in
      let kept : (more : List String) → AreIn old more → AreIn (ids_of b'.steps) more =
        λ more m. subst (λ all. AreIn all more) (sym ids) (AreIn-append old (id ∷ []) more m) in
      let here : AreIn (ids_of b'.steps) (id ∷ []) =
        subst (λ all. AreIn all (id ∷ [])) (sym ids) (includes-last old id, tt) in
      fan_from-IsMade type group condition deps (made ++ (id ∷ [])) tasks b' h' (kept deps k)
        (append-AreIn (ids_of b'.steps) made (id ∷ []) (kept made l) here)

  unfoldable pub step : Call V F → WorkflowBuilder V F → WorkflowBuilder V F
  unfolding sequential parallel handoff conditional aggregate
  step (sequential_call tasks) b = sequential tasks b
  step (parallel_call tasks) b = parallel tasks b
  step (handoff_call truth tasks) b = handoff truth tasks b
  step (conditional_call router tasks) b = conditional router tasks b
  step (aggregate_call task) b = aggregate task b

  unfoldable pub run : List (Call V F) → WorkflowBuilder V F → WorkflowBuilder V F
  unfolding step
  run [] b = b
  run (c ∷ calls) b = run calls (step c b)

  step-IsOrdered : (c : Call V F) (b : WorkflowBuilder V F) → IsOrdered b → IsOrdered (step c b)
  unfolding step sequential parallel handoff conditional aggregate
  step-IsOrdered (sequential_call tasks) b i =
      let (h, l) = chain_from-IsMade _ b.last_step_ids [] tasks b i.ordered i.last tt in
      record { ordered = h; last = l }
  step-IsOrdered (parallel_call tasks) b i =
      let (h, l) = fan_from-IsMade _ _ _ b.last_step_ids [] tasks b i.ordered i.last tt in
      record { ordered = h; last = l }
  step-IsOrdered (handoff_call truth tasks) b i =
      let (h, l) =
        chain_from-IsMade _ b.last_step_ids [] (map (with_history truth) tasks) b i.ordered i.last
          tt in
      record { ordered = h; last = l }
  step-IsOrdered (conditional_call router tasks) b i =
      let (h, l) = fan_from-IsMade _ _ _ b.last_step_ids [] tasks b i.ordered i.last tt in
      record { ordered = h; last = l }
  step-IsOrdered (aggregate_call task) b i =
      let (h, ids) = push_step-ordered _ none none b.last_step_ids task b i.ordered i.last in
      record {
        ordered = h;
        last =
            subst (λ all. AreIn all (step_id b.step_counter ∷ [])) (sym ids)
              (includes-last (ids_of b.steps) (step_id b.step_counter), tt);
      }

  pub run-IsOrdered :
      (calls : List (Call V F)) (b : WorkflowBuilder V F) → IsOrdered b → IsOrdered (run calls b)
  unfolding run
  run-IsOrdered [] b i = i
  run-IsOrdered (c ∷ calls) b i = run-IsOrdered calls (step c b) (step-IsOrdered c b i)

  pub check_deps-none :
      (seen : List String) (steps : List (BuilderStep V F))
      → AreOrdered seen steps
      → check_deps (seen ++ ids_of steps) steps ≡ none
  unfolding check_deps
  check_deps-none seen [] h = refl
  check_deps-none seen (s ∷ steps) h =
      let later = ids_of steps in
      let found =
        none_in-none (seen ++ (s.id ∷ later)) s.depends_on
          (AreIn-append seen (s.id ∷ later) s.depends_on h.0) in
      let rest : check_deps (seen ++ (s.id ∷ later)) steps ≡ none =
        subst (λ ids. check_deps ids steps ≡ none) (append_assoc seen (s.id ∷ []) later)
          (check_deps-none (seen ++ (s.id ∷ [])) steps h.1) in
      rw (check_deps, found) rest

  -- The answers of `build` to steps that are ordered.
  abbrev pub IsAnswer : WorkflowBuilder V F → BuildResult V F → Type 0
  IsAnswer b r =
      (r ≡ refused empty_workflow)
      ⊎ ((r ≡ refused circular_dependencies)
          ⊎ ((w : CompiledWorkflow V F) × (r ≡ built w) × (w.steps ≡ b.steps)))

  pub build-IsAnswer :
      (b : WorkflowBuilder V F) → check_deps (ids_of b.steps) b.steps ≡ none → IsAnswer b (build b)
  unfolding build
  build-IsAnswer b h = elim (List-cases b.steps) [
    | inl e ↦ inl (rw (build, e) refl)
    | inr (s, steps, e) ↦ elim (Bool-cases (has_cycle b.steps)) [
      | inl c ↦ inr (inl (ground (arith, e, h, c)))
      | inr c ↦ inr (inr (compiled b, ground (arith, e, h, c), refl))
    ]
  ]
