-- ===== src/Durable.antt =====
-- core/durable.ts: the durable workflow engine, with the checkpoint table that
-- core/storage/sqlite-store.ts keeps for it. The values in a workflow's state are opaque. The
-- executor of steps is an argument; it may fail, and what it returns depends on step and state only.
pub mod Run
pub mod Order
pub mod Resume
pub mod Tests
use Prim.Native.String.{◌++◌ as text_append}
use mathlib.Core.Option
use ather.Base.{
  ltb, ◌==◌, ◌===◌, if◌then◌else◌, or_else, length, filter, Map, get, set, has, ℕ, zero, suc, ◌+◌,
  ◌-◌, String, Bool, ◌&&◌, not, Option, none, some, List, [], ◌∷◌, ◌++◌, map,
}

-- `WorkflowStep`, with the fields that the engine reads or hands on. No `dependsOn` is an empty one.
pub record WorkflowStep : Type 0 where
  pub id : String
  pub agent : String
  pub task : String
  pub depends_on : List String

pub data DurableWorkflowStatus : Type 0 where
  paused completed failed aborted : DurableWorkflowStatus

-- `WorkflowCheckpoint`. A step index starts at -1, so its successor is kept. The id of a row is made
-- of the workflow, the index and the time.
pub record WorkflowCheckpoint (V : Type 0) : Type 0 where
  pub workflow_id : String
  pub next_step : ℕ
  pub state : Map V
  pub created_at : ℕ

-- `{ ...a, ...b }`.
unfoldable pub merge {ℓ} : {V : Type ℓ} → Map V → Map V → Map V
unfolding set
merge a [] = a
merge a ((k, v) ∷ b) = merge (set a k v) b

module _ {V : Type 0} where
  same_id : WorkflowCheckpoint V → WorkflowCheckpoint V → Bool
  same_id c d =
      (c.workflow_id === d.workflow_id)
      && (c.next_step == d.next_step)
      && (c.created_at == d.created_at)

  -- `INSERT OR REPLACE`, newest row first.
  unfoldable pub save_checkpoint :
      WorkflowCheckpoint V → List (WorkflowCheckpoint V) → List (WorkflowCheckpoint V)
  unfolding same_id
  save_checkpoint c rows = c ∷ filter (λ d. not (same_id c d)) rows

  abbrev later :
      WorkflowCheckpoint V → Option (WorkflowCheckpoint V) → Option (WorkflowCheckpoint V)
  later c none = some c
  later c (some d) = if ltb c.next_step d.next_step then some d else some c

  -- `ORDER BY step_index DESC LIMIT 1`. SQLite leaves open which of several rows with the highest
  -- index it returns; this is the newest of them.
  unfoldable pub get_latest_checkpoint :
      String → List (WorkflowCheckpoint V) → Option (WorkflowCheckpoint V)
  get_latest_checkpoint id [] = none
  get_latest_checkpoint id (c ∷ rows) =
      let rest = get_latest_checkpoint id rows in
      if c.workflow_id === id then later c rest else rest

-- The tables of `topologicalSort`.
pub record Tables : Type 0 where
  pub step_map : Map WorkflowStep
  pub in_degree : Map ℕ
  pub adjacency : Map (List String)

-- The first loop over the steps.
abbrev add_step : WorkflowStep → Tables → Tables
add_step s t = record {
  step_map = set t.step_map s.id s;
  in_degree = set t.in_degree s.id 0;
  adjacency = if has t.adjacency s.id then t.adjacency else set t.adjacency s.id [];
}

add_steps : List WorkflowStep → Tables → Tables
add_steps [] t = t
add_steps (s ∷ steps) t = add_steps steps (add_step s t)

-- The loop over the dependencies of a step.
abbrev add_dep : String → String → Tables → Tables
add_dep id dep t = record t {
  adjacency = set t.adjacency dep (or_else (get t.adjacency dep) [] ++ (id ∷ []));
  in_degree = set t.in_degree id (or_else (get t.in_degree id) 0 + 1);
}

add_deps : String → List String → Tables → Tables
add_deps id [] t = t
add_deps id (dep ∷ deps) t = add_deps id deps (add_dep id dep t)

-- The second loop over the steps.
add_edges : List WorkflowStep → Tables → Tables
add_edges [] t = t
add_edges (s ∷ steps) t = add_edges steps (add_deps s.id s.depends_on t)

unfoldable pub build_tables : List WorkflowStep → Tables
unfolding add_steps add_deps add_edges get set
build_tables steps =
    add_edges steps (add_steps steps (record { step_map = []; in_degree = []; adjacency = [] }))

-- The ids with no dependency, in the order of the map.
unfoldable pub roots : Map ℕ → List String
roots [] = []
roots ((id, d) ∷ m) = if d == 0 then id ∷ roots m else roots m

-- The loop over the neighbours of a finished node. The new degree is 0 just if the old one is 1. An
-- old degree of 0 would become -1 in the source: it stays 0 here, and neither one is 0 after a
-- further round.
unfoldable pub visit_neighbors : List String → Map ℕ → List String → Map ℕ × List String
unfolding get set
visit_neighbors [] degrees queue = (degrees, queue)
visit_neighbors (n ∷ neighbors) degrees queue =
    let d = or_else (get degrees n) 1 in
    visit_neighbors neighbors (set degrees n (d - 1)) (if d == 1 then queue ++ (n ∷ []) else queue)

abbrev push_step : Option WorkflowStep → List WorkflowStep → List WorkflowStep
push_step none sorted = sorted
push_step (some s) sorted = s ∷ sorted

-- The `while` loop of `topologicalSort`; `none` means that the fuel ran out.
unfoldable pub sort_from : ℕ → Tables → Map ℕ → List String → Option (List WorkflowStep)
unfolding visit_neighbors
sort_from fuel t degrees [] = some []
sort_from zero t degrees (id ∷ queue) = none
sort_from (suc fuel) t degrees (id ∷ queue) =
    let (degrees', queue') = visit_neighbors (or_else (get t.adjacency id) []) degrees queue in
    Option.map (push_step (get t.step_map id)) (sort_from fuel t degrees' queue')

-- `topologicalSort`. A node enters the queue at the start, or once when its degree falls to 0.
unfoldable pub topological_sort : List WorkflowStep → List WorkflowStep
topological_sort steps =
    let t = build_tables steps in
    let queue = roots t.in_degree in
    or_else (sort_from (length queue + length steps) t t.in_degree queue) []
