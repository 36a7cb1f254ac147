-- ===== src/Builder.antt =====
-- core/workflow-builder.ts: `WorkflowBuilder`. The router of a conditional step and the values of
-- metadata are opaque. Missing dependencies are an empty list, which every reader treats alike.
use Prim.Native.String.{◌++◌ as text_append}
use ather.Net.Factories.{to_string}
use ather.Durable.{roots, visit_neighbors}
use mathlib.Core.Option
use ather.Base.{
  ◌==◌, if◌then◌else◌, or_else, length, filter, includes, Map, get, set, has, ℕ, zero, suc, ◌+◌,
  String, Bool, true, false, not, Option, none, some, List, [], ◌∷◌, ◌++◌, map,
}
pub mod Order
pub mod Ids
pub mod Tests

pub data StepType : Type 0 where
  sequential_step parallel_step handoff_step conditional_step aggregate_step : StepType

-- `AgentTask`.
pub record AgentTask (V : Type 0) : Type 0 where
  pub agent : String
  pub task : String
  pub metadata : Option (Map V)

-- A `WorkflowStep` as the builder makes it; F is the type of routers.
pub record BuilderStep (V F : Type 0) : Type 0 where
  pub id : String
  pub agent : String
  pub task : String
  pub type : StepType
  pub group : Option String
  pub depends_on : List String
  pub condition : Option F
  pub metadata : Option (Map V)

pub record WorkflowBuilder (V F : Type 0) : Type 0 where
  pub name : String
  pub steps : List (BuilderStep V F)
  pub parallel_groups : Map (List String)
  pub step_counter : ℕ
  pub last_step_ids : List String

pub record CompiledWorkflow (V F : Type 0) : Type 0 where
  pub name : String
  pub steps : List (BuilderStep V F)
  pub parallel_groups : Map (List String)
  pub entry_steps : List String
  pub exit_steps : List String

pub data BuildError : Type 0 where
  empty_workflow : BuildError
  missing_step : String → String → BuildError
  circular_dependencies : BuildError

pub data BuildResult (V F : Type 0) : Type 0 where
  built : CompiledWorkflow V F → BuildResult V F
  refused : BuildError → BuildResult V F

-- The tables of `detectCycles`.
pub record Degrees : Type 0 where
  pub in_degree : Map ℕ
  pub adjacency : Map (List String)

-- One dependency of a step.
abbrev add_dependency : String → String → Degrees → Degrees
add_dependency id dep t = record {
  adjacency = set t.adjacency dep (or_else (get t.adjacency dep) [] ++ (id ∷ []));
  in_degree = set t.in_degree id (or_else (get t.in_degree id) 0 + 1);
}

abbrev add_dependencies : String → List String → Degrees → Degrees
add_dependencies id [] t = t
add_dependencies id (dep ∷ deps) t = add_dependencies id deps (add_dependency id dep t)

abbrev add_entry : String → Degrees → Degrees
add_entry id t = record {
  in_degree = if has t.in_degree id then t.in_degree else set t.in_degree id 0;
  adjacency = if has t.adjacency id then t.adjacency else set t.adjacency id [];
}

-- The `while` loop of `detectCycles`; `none` means that the fuel ran out.
unfoldable pub process_from : ℕ → Map (List String) → Map ℕ → List String → Option ℕ
unfolding get set visit_neighbors
process_from fuel adjacency degrees [] = some 0
process_from zero adjacency degrees (id ∷ queue) = none
process_from (suc fuel) adjacency degrees (id ∷ queue) =
    let (degrees', queue') = visit_neighbors (or_else (get adjacency id) []) degrees queue in
    Option.map suc (process_from fuel adjacency degrees' queue')

abbrev none_in : List String → List String → Option String
none_in ids [] = none
none_in ids (dep ∷ deps) = if includes ids dep then none_in ids deps else some dep

-- `nextStepId`.
abbrev pub step_id : ℕ → String
step_id n = text_append "step-" (to_string 10 n)

-- The metadata of a handoff: `{ ...metadata, preserveHistory: true }`.
abbrev pub with_history : {V : Type 0} → V → AgentTask V → AgentTask V
with_history truth t = record t {
  metadata = some (set (or_else t.metadata []) "preserveHistory" truth);
}

module _ {V F : Type 0} where
  abbrev pub new_builder : String → WorkflowBuilder V F
  new_builder name = record {
    name = name;
    steps = [];
    parallel_groups = [];
    step_counter = 0;
    last_step_ids = [];
  }

  -- Pushing a step under the next id.
  unfoldable pub push_step :
      StepType
      → Option String
      → Option F
      → List String
      → AgentTask V
      → WorkflowBuilder V F
      → WorkflowBuilder V F
  push_step type group condition depends_on task b = record b {
    steps =
        b.steps
        ++ (record {
          id = step_id b.step_counter;
          agent = task.agent;
          task = task.task;
          type = type;
          group = group;
          depends_on = depends_on;
          condition = condition;
          metadata = task.metadata;
        }
            ∷ []);
    step_counter = b.step_counter + 1;
  }

  -- The loop of `sequential` and `handoff`: each step depends on the one before it, the first one on
  -- the last steps of the builder. It gives the id of its last step.
  unfoldable pub chain_from :
      StepType
      → List String
      → List String
      → List (AgentTask V)
      → WorkflowBuilder V F
      → WorkflowBuilder V F × List String
  unfolding push_step
  chain_from type depends_on made [] b = (b, made)
  chain_from type depends_on made (task ∷ tasks) b =
      let id = step_id b.step_counter in
      chain_from type (id ∷ []) (id ∷ []) tasks (push_step type none none depends_on task b)

  -- The loop of `parallel` and `conditional`: each step depends on the last steps of the builder.
  unfoldable pub fan_from :
      StepType
      → Option String
      → Option F
      → List String
      → List String
      → List (AgentTask V)
      → WorkflowBuilder V F
      → WorkflowBuilder V F × List String
  unfolding push_step
  fan_from type group condition depends_on made [] b = (b, made)
  fan_from type group condition depends_on made (task ∷ tasks) b =
      fan_from type group condition depends_on (made ++ (step_id b.step_counter ∷ [])) tasks
        (push_step type group condition depends_on task b)

  abbrev end_at : WorkflowBuilder V F × List String → WorkflowBuilder V F
  end_at made = record made.0 { last_step_ids = made.1 }

  -- `sequential`.
  unfoldable pub sequential : List (AgentTask V) → WorkflowBuilder V F → WorkflowBuilder V F
  unfolding chain_from
  sequential tasks b = end_at (chain_from sequential_step b.last_step_ids [] tasks b)

  -- `parallel`.
  unfoldable pub parallel : List (AgentTask V) → WorkflowBuilder V F → WorkflowBuilder V F
  unfolding fan_from set
  parallel tasks b =
      let group = text_append "parallel-" (to_string 10 b.step_counter) in
      let made = fan_from parallel_step (some group) none b.last_step_ids [] tasks b in
      record made.0 {
        parallel_groups = set made.0.parallel_groups group made.1;
        last_step_ids = made.1;
      }

  -- `handoff`.
  unfoldable pub handoff : V → List (AgentTask V) → WorkflowBuilder V F → WorkflowBuilder V F
  unfolding chain_from set
  handoff truth tasks b =
      end_at (chain_from handoff_step b.last_step_ids [] (map (with_history truth) tasks) b)

  -- `conditional`.
  unfoldable pub conditional : F → List (AgentTask V) → WorkflowBuilder V F → WorkflowBuilder V F
  unfolding fan_from
  conditional router branches b =
      end_at (fan_from conditional_step none (some router) b.last_step_ids [] branches b)

  -- `aggregate`.
  unfoldable pub aggregate : AgentTask V → WorkflowBuilder V F → WorkflowBuilder V F
  unfolding push_step
  aggregate task b = record (push_step aggregate_step none none b.last_step_ids task b) {
    last_step_ids = step_id b.step_counter ∷ [];
  }

  abbrev pub ids_of : List (BuilderStep V F) → List String
  ids_of = map (λ s. s.id)

  abbrev all_deps : List (BuilderStep V F) → List String
  all_deps [] = []
  all_deps (s ∷ steps) = s.depends_on ++ all_deps steps

  abbrev pub is_entry : BuilderStep V F → Bool
  is_entry s = elim s.depends_on [ [] ↦ true | _ ∷ _ ↦ false ]

  -- The check that every dependency is a step.
  unfoldable pub check_deps : List String → List (BuilderStep V F) → Option BuildError
  check_deps ids [] = none
  check_deps ids (s ∷ steps) = elim (none_in ids s.depends_on) [
    | some dep ↦ some (missing_step s.id dep)
    | none ↦ check_deps ids steps
  ]

  abbrev tables_from : List (BuilderStep V F) → Degrees → Degrees
  tables_from [] t = t
  tables_from (s ∷ steps) t =
      tables_from steps (add_dependencies s.id s.depends_on (add_entry s.id t))

  -- `detectCycles`, for as many rounds as there are entries and dependencies.
  unfoldable pub has_cycle : List (BuilderStep V F) → Bool
  unfolding get set roots process_from
  has_cycle steps =
      let t = tables_from steps (record { in_degree = []; adjacency = [] }) in
      let queue = roots t.in_degree in
      elim (process_from (length queue + length (all_deps steps)) t.adjacency t.in_degree queue) [
        | none ↦ true
        | some processed ↦ not (processed == length steps)
      ]

  abbrev pub compiled : WorkflowBuilder V F → CompiledWorkflow V F
  compiled b = record {
    name = b.name;
    steps = b.steps;
    parallel_groups = b.parallel_groups;
    entry_steps = ids_of (filter is_entry b.steps);
    exit_steps = ids_of (filter (λ s. not (includes (all_deps b.steps) s.id)) b.steps);
  }

  -- `build`.
  unfoldable pub build : WorkflowBuilder V F → BuildResult V F
  unfolding check_deps has_cycle
  build b = elim b.steps [
    | [] ↦ refused empty_workflow
    | _ ∷ _ ↦ elim (check_deps (ids_of b.steps) b.steps) [
      | some e ↦ refused e
      | none ↦ if has_cycle b.steps then refused circular_dependencies else built (compiled b)
    ]
  ]

  -- `sequentialWorkflow` and `parallelWithAggregation`.
  abbrev pub sequential_workflow : String → List (AgentTask V) → BuildResult V F
  sequential_workflow name tasks = build (sequential tasks (new_builder name))

  abbrev pub parallel_with_aggregation : String → List (AgentTask V) → AgentTask V → BuildResult V F
  parallel_with_aggregation name tasks aggregator =
      build (aggregate aggregator (parallel tasks (new_builder name)))
