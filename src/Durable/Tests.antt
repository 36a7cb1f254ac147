-- ===== src/Durable/Tests.antt =====
-- core/durable.ts: tests and examples.
use ather.Base.{length, Map, get, ℕ, ◌+◌, String, ◌≡◌, refl, none, some, List, [], ◌∷◌, map}
use ather.Durable.{
  merge, save_checkpoint, WorkflowStep, WorkflowCheckpoint, completed, topological_sort, sort_from,
  build_tables, roots,
}
use ather.Durable.Run.{
  DurableWorkflowResult, Workflow, returned, running, execute_from, run, resume, execute_steps,
}
use ather.Durable.Order.{topological_sort-sort_from}
use ather.Durable.Resume.{resume-run, advance}

abbrev step : String → List String → WorkflowStep
step id deps = record { id = id; agent = "agent"; task = "task"; depends_on = deps }

abbrev diamond : List WorkflowStep
diamond = step "d" ("b" ∷ "c" ∷ []) ∷ step "b" ("a" ∷ []) ∷ step "a" [] ∷ step "c" ("a" ∷ []) ∷ []

abbrev cycle : List WorkflowStep
cycle = step "a" ("b" ∷ []) ∷ step "b" ("a" ∷ []) ∷ []

-- A result holds the number of values that the step was given.
abbrev flow : List WorkflowStep → Workflow ℕ
flow steps = record {
  id = "flow";
  steps = steps;
  object = length;
  text = λ s. 0;
  step_executor = λ s state. returned ((s.id, length state) ∷ []);
  approval_required = [];
  on_approval_needed = none;
  signal = λ i. running;
  clock = λ i. 100 + i;
}

sorts_diamond : map (λ s. s.id) (topological_sort diamond) ≡ "a" ∷ "b" ∷ "c" ∷ "d" ∷ []
unfolding topological_sort build_tables roots sort_from get
sorts_diamond = refl

-- The steps of a cycle are left out, and the workflow completes without them.
completes_cycle :
    let r = (run (flow cycle) [] []).0 in (r.status ≡ completed) × (r.completed_steps ≡ 0)
unfolding run execute_from execute_steps topological_sort build_tables roots sort_from get
completes_cycle = (refl, refl)

topological_sort-sort_from_example :
    sort_from 5 (build_tables diamond) (build_tables diamond).in_degree ("a" ∷ [])
    ≡ some (topological_sort diamond)
unfolding build_tables roots get
topological_sort-sort_from_example = topological_sort-sort_from diamond

abbrev two_steps : List WorkflowStep
two_steps = step "b" ("a" ∷ []) ∷ step "a" [] ∷ []

abbrev after_a : Map ℕ
after_a = ("a", 0) ∷ ("__step_a", 1) ∷ []

abbrev rows_a : List (WorkflowCheckpoint ℕ)
rows_a = record { workflow_id = "flow"; next_step = 1; state = after_a; created_at = 100 } ∷ []

resume-run_example :
    (run (flow two_steps) [] []
      ≡ execute_steps (flow two_steps) 2 1 (step "b" ("a" ∷ []) ∷ []) after_a ("a" ∷ []) rows_a)
    × (out : DurableWorkflowResult ℕ × List (WorkflowCheckpoint ℕ)) × (resume
          (flow two_steps)
          rows_a
        ≡ some out)
    × (out.0 ≡ (run (flow two_steps) [] []).0)
unfolding advance topological_sort build_tables roots sort_from get save_checkpoint merge
resume-run_example =
    resume-run (flow two_steps) (step "a" []) [] (step "b" ("a" ∷ []) ∷ []) [] after_a ("a" ∷ []) []
      rows_a refl tt refl
