-- ===== src/Durable/Run.antt =====
-- core/durable.ts: `executeFrom`, `run` and `resume`.
use Prim.Native.String.{◌++◌ as text_append}
use ather.Base.{
  length, take, drop, includes, Map, set, ℕ, ◌+◌, String, Bool, true, false, ◌&&◌, ◌||◌, not,
  Option, none, some, List, [], ◌∷◌,
}
use ather.Durable.{
  WorkflowStep, WorkflowCheckpoint, DurableWorkflowStatus, paused, completed, failed, aborted,
  merge, save_checkpoint, get_latest_checkpoint, topological_sort,
}

pub data Outcome (V : Type 0) : Type 0 where
  returned : Map V → Outcome V
  threw : String → Outcome V

-- What `pause` and `abort` have made of the status by the time that a step is about to start.
pub data Signal : Type 0 where
  running pausing : Signal
  aborting : (reason : String) → Signal

-- `DurableWorkflowResult`.
pub record DurableWorkflowResult (V : Type 0) : Type 0 where
  pub workflow_id : String
  pub status : DurableWorkflowStatus
  pub completed_steps : ℕ
  pub total_steps : ℕ
  pub final_state : Map V
  pub paused_at_step : Option String
  pub abort_reason : Option String

-- A workflow with its collaborators. `object` and `text` are how a result and a string stand among
-- the values of a state; `signal` and `clock` are read once for each index.
pub record Workflow (V : Type 0) : Type 0 where
  pub id : String
  pub steps : List WorkflowStep
  pub object : Map V → V
  pub text : String → V
  pub step_executor : WorkflowStep → Map V → Outcome V
  pub approval_required : List String
  pub on_approval_needed : Option (String → Map V → Bool)
  pub signal : ℕ → Signal
  pub clock : ℕ → ℕ

-- `step.dependsOn.filter(...)` finds nothing.
abbrev pub all_met : List String → List String → Bool
all_met [] done = true
all_met (d ∷ deps) done = includes done d && all_met deps done

-- The ids of the steps before the start, which count as completed.
abbrev pub ids_of : List WorkflowStep → List String
ids_of [] = []
ids_of (s ∷ steps) = s.id ∷ ids_of steps

module _ {V : Type 0} where
  abbrev pub checkpoint : Workflow V → ℕ → Map V → ℕ → WorkflowCheckpoint V
  checkpoint w next state now = record {
    workflow_id = w.id;
    next_step = next;
    state = state;
    created_at = now;
  }

  -- Whether the step needs no approval or gets it.
  abbrev pub is_approved : Workflow V → WorkflowStep → Map V → Bool
  is_approved w s state =
      not (includes w.approval_required s.id)
      || elim w.on_approval_needed [ none ↦ true | some ask ↦ ask s.id state ]

  -- `{ ...state, ...result, ["__step_" + step.id]: result }`.
  abbrev pub next_state : Workflow V → WorkflowStep → Map V → Map V → Map V
  next_state w s state result =
      set (merge state result) (text_append "__step_" s.id) (w.object result)

  -- `{ ...state, __failedStep: step.id, __error: message }`.
  abbrev pub failed_state : Workflow V → WorkflowStep → Map V → String → Map V
  failed_state w s state e = set (set state "__failedStep" (w.text s.id)) "__error" (w.text e)

  abbrev pub result :
      Workflow V
      → DurableWorkflowStatus
      → ℕ
      → ℕ
      → Map V
      → Option String
      → Option String
      → DurableWorkflowResult V
  result w status i total state at reason = record {
    workflow_id = w.id;
    status = status;
    completed_steps = i;
    total_steps = total;
    final_state = state;
    paused_at_step = at;
    abort_reason = reason;
  }

  -- The loop of `executeFrom` over the steps from index `i` on. It returns the result and the
  -- checkpoint rows.
  unfoldable pub execute_steps :
      Workflow V
      → ℕ
      → ℕ
      → List WorkflowStep
      → Map V
      → List String
      → List (WorkflowCheckpoint V)
      → DurableWorkflowResult V × List (WorkflowCheckpoint V)
  execute_steps w total i [] state done rows =
      (result w completed total total state none none, rows)
  execute_steps w total i (s ∷ steps) state done rows = elim (w.signal i) [
    | pausing ↦ (result w paused i total state (some s.id) none, rows)
    | aborting reason ↦ (result w aborted i total state none (some reason), rows)
    | running ↦ elim (all_met s.depends_on done) [
      | false ↦ execute_steps w total (i + 1) steps state done rows
      | true ↦ elim (is_approved w s state) [
        | false ↦ (
          result w paused i total state (some s.id) none,
          save_checkpoint (checkpoint w i state (w.clock i)) rows,
        )
        | true ↦ elim (w.step_executor s state) [
          | returned r ↦
              execute_steps w total (i + 1) steps (next_state w s state r) (s.id ∷ done)
                (save_checkpoint (checkpoint w (i + 1) (next_state w s state r) (w.clock i)) rows)
          | threw e ↦ (
            result w failed i total state none
                (some (text_append (text_append "Step " s.id) (text_append " failed: " e))),
            save_checkpoint (checkpoint w i (failed_state w s state e) (w.clock i)) rows,
          )
        ]
      ]
    ]
  ]

  -- `executeFrom`.
  unfoldable pub execute_from :
      Workflow V
      → ℕ
      → Map V
      → List (WorkflowCheckpoint V)
      → DurableWorkflowResult V × List (WorkflowCheckpoint V)
  execute_from w start state rows =
      let ordered = topological_sort w.steps in
      execute_steps w (length ordered) start (drop start ordered) state
        (ids_of (take start ordered)) rows

  -- `run`.
  unfoldable pub run :
      Workflow V
      → Map V
      → List (WorkflowCheckpoint V)
      → DurableWorkflowResult V × List (WorkflowCheckpoint V)
  run w initial rows = execute_from w 0 initial rows

  -- `resume`; `none` is the error that no checkpoint was found.
  unfoldable pub resume :
      Workflow V
      → List (WorkflowCheckpoint V)
      → Option (DurableWorkflowResult V × List (WorkflowCheckpoint V))
  unfolding get_latest_checkpoint
  resume w rows = elim (get_latest_checkpoint w.id rows) [
    | none ↦ none
    | some c ↦ some (execute_from w c.next_step c.state rows)
  ]
