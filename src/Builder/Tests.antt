-- ===== src/Builder/Tests.antt =====
-- core/workflow-builder.ts: tests and examples on a workflow that fans out and is aggregated.
use ather.Base.{get, set, ℕ, String, ◌≡◌, refl, ◌≢◌, false, none, List, [], ◌∷◌, map}
use ather.Net.Factories.{to_string}
use ather.Durable.{roots, visit_neighbors}
use ather.Builder.{
  refused, missing_step, AgentTask, WorkflowBuilder, new_builder, build, has_cycle, process_from,
  push_step, chain_from, fan_from, sequential, parallel, aggregate,
}
use ather.Builder.Ids.{IsNumbered, build-run}
use ather.Builder.Order.{Call, sequential_call, parallel_call, aggregate_call, step, run, IsOrdered}

abbrev task : String → AgentTask ℕ
task name = record { agent = name; task = "work"; metadata = none }

abbrev calls : List (Call ℕ ℕ)
calls =
    sequential_call (task "plan" ∷ [])
    ∷ parallel_call (task "left" ∷ task "right" ∷ [])
    ∷ aggregate_call (task "merge")
    ∷ []

abbrev builder : WorkflowBuilder ℕ ℕ
builder = run calls (new_builder "flow")

aggregated :
    map (λ s. s.depends_on) builder.steps
    ≡ [] ∷ ("step-0" ∷ []) ∷ ("step-0" ∷ []) ∷ ("step-1" ∷ "step-2" ∷ []) ∷ []
unfolding run step sequential parallel aggregate chain_from fan_from push_step to_string set
aggregated = refl

no_cycle : has_cycle builder.steps ≡ false
unfolding run step sequential parallel aggregate chain_from fan_from push_step to_string set get
    has_cycle process_from roots visit_neighbors
no_cycle = refl

-- An empty chain cuts a workflow: the step after it waits for nothing.
abbrev cut : WorkflowBuilder ℕ ℕ
cut =
    run
      (sequential_call (task "first" ∷ [])
        ∷ sequential_call []
        ∷ sequential_call (task "second" ∷ [])
        ∷ [])
      (new_builder "flow")

empty_chain_cuts : map (λ s. s.depends_on) cut.steps ≡ [] ∷ [] ∷ []
unfolding run step sequential chain_from push_step
empty_chain_cuts = refl

build-run_example :
    IsNumbered builder
    × IsOrdered builder
    × ((id dep : String) → build builder ≢ refused (missing_step id dep))
build-run_example = build-run "flow" calls
