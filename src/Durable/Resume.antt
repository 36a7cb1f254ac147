-- ===== src/Durable/Resume.antt =====
-- core/durable.ts: a workflow that is resumed after a crash, and the run without it.
-- States are kept in the store as JSON; the values are taken to survive that.
use ather.Base.{
  ◌===◌, Bool-cases, Option-cases, if_ind, length, take, drop, filter, All, drop-append,
  take-append, All-mono, includes, Map, ℕ, ◌+◌, ◌≤◌, String, ◌≡◌, refl, ap, ◌∙◌, ◌⊎◌, inl, inr,
  Bool, true, false, ◌&&◌, ◌||◌, not, Option, none, some, List, [], ◌∷◌, ◌++◌, arith, eq_refl,
}
use ather.Durable.{
  same_id, topological_sort, get_latest_checkpoint, WorkflowStep, WorkflowCheckpoint,
  save_checkpoint,
}
use ather.Durable.Run.{
  DurableWorkflowResult, execute_from, run, resume, ids_of, Workflow, Outcome, returned, threw,
  running, checkpoint, all_met, is_approved, next_state, execute_steps,
}

all_met-ext :
    (deps done done' : List String)
    → ((k : String) → includes done k ≡ includes done' k)
    → all_met deps done ≡ all_met deps done'
all_met-ext [] done done' same = refl
all_met-ext (d ∷ deps) done done' same = rw (same d, all_met-ext deps done done' same) refl

Outcome-cases :
    {V : Type 0} (o : Outcome V) → ((r : Map V) × (o ≡ returned r)) ⊎ ((e : String) × (o ≡ threw e))
Outcome-cases (returned r) = inl (r, refl)
Outcome-cases (threw e) = inr (e, refl)

module _ {V : Type 0} (w : Workflow V) where
  -- The steps run one after the other without a stop: no signal, no step skipped or refused, none
  -- that throws. The result is the state, the completed steps and the rows after the last of them.
  unfoldable pub advance :
      ℕ
      → List WorkflowStep
      → Map V
      → List String
      → List (WorkflowCheckpoint V)
      → Option (Map V × List String × List (WorkflowCheckpoint V))
  advance i [] state done rows = some (state, done, rows)
  advance i (s ∷ steps) state done rows = elim (w.signal i) [
    | running ↦ elim (all_met s.depends_on done && is_approved w s state) [
      | false ↦ none
      | true ↦ elim (w.step_executor s state) [
        | threw e ↦ none
        | returned r ↦
            advance (i + 1) steps (next_state w s state r) (s.id ∷ done)
              (save_checkpoint (checkpoint w (i + 1) (next_state w s state r) (w.clock i)) rows)
      ]
    ]
    | _ ↦ none
  ]

  -- The result depends on the completed steps as a set, and not on the rows.
  execute_steps-ext :
      (total i : ℕ) (steps : List WorkflowStep) (state : Map V) (done done' : List String)
      (rows rows' : List (WorkflowCheckpoint V))
      → ((k : String) → includes done k ≡ includes done' k)
      → (execute_steps w total i steps state done rows).0
        ≡ (execute_steps w total i steps state done' rows').0
  unfolding execute_steps
  execute_steps-ext total i [] state done done' rows rows' same = refl
  execute_steps-ext total i (s ∷ steps) state done done' rows rows' same =
      let met = all_met-ext s.depends_on done done' same in
      let skip = execute_steps-ext total (i + 1) steps state done done' rows rows' same in
      elim (Outcome-cases (w.step_executor s state)) [
        | inl (r, e) ↦
            let state' = next_state w s state r in
            let c = checkpoint w (i + 1) state' (w.clock i) in
            let go_on =
              execute_steps-ext total (i + 1) steps state' (s.id ∷ done) (s.id ∷ done')
                (save_checkpoint c rows) (save_checkpoint c rows')
                (λ k. ap (◌||◌ (s.id === k)) (same k)) in
            ground (arith, e, met, skip, go_on)
        | inr (x, e) ↦ ground (arith, e, met, skip)
      ]

  -- Such a run is the first part of the loop.
  execute_steps-advance :
      (total i : ℕ) (steps rest : List WorkflowStep) (state : Map V) (done : List String)
      (rows : List (WorkflowCheckpoint V)) (state' : Map V) (done' : List String)
      (rows' : List (WorkflowCheckpoint V))
      → advance i steps state done rows ≡ some (state', done', rows')
      → execute_steps w total i (steps ++ rest) state done rows
        ≡ execute_steps w total (i + length steps) rest state' done' rows'
  unfolding advance execute_steps
  execute_steps-advance total i [] rest state done rows state' done' rows' e = ground arith
  execute_steps-advance total i (s ∷ steps) rest state done rows state' done' rows' e =
      elim (Outcome-cases (w.step_executor s state)) [
        | inl (r, o) ↦
            let next = next_state w s state r in
            let c = checkpoint w (i + 1) next (w.clock i) in
            ground (
              arith,
              o,
              execute_steps-advance total (i + 1) steps rest next (s.id ∷ done)
                  (save_checkpoint c rows) state' done' rows',
            )
        | inr (x, o) ↦ ground (arith, o)
      ]

  -- The completed steps are those that were run, besides those from before.
  advance-done :
      (i : ℕ) (steps : List WorkflowStep) (state : Map V) (done : List String)
      (rows : List (WorkflowCheckpoint V)) (state' : Map V) (done' : List String)
      (rows' : List (WorkflowCheckpoint V)) (k : String)
      → advance i steps state done rows ≡ some (state', done', rows')
      → includes done' k ≡ (includes (ids_of steps) k || includes done k)
  unfolding advance
  advance-done i [] state done rows state' done' rows' k e = ground arith
  advance-done i (s ∷ steps) state done rows state' done' rows' k e =
      elim (Outcome-cases (w.step_executor s state)) [
        | inl (r, o) ↦
            let next = next_state w s state r in
            let c = checkpoint w (i + 1) next (w.clock i) in
            ground (
              arith,
              o,
              advance-done (i + 1) steps next (s.id ∷ done) (save_checkpoint c rows) state' done'
                  rows' k,
            )
        | inr (x, o) ↦ ground (arith, o)
      ]

  -- No row of this workflow has a later index.
  abbrev pub IsUpTo : ℕ → List (WorkflowCheckpoint V) → Type 0
  IsUpTo n rows = All (λ c. (c.workflow_id === w.id) ≡ true → c.next_step ≤ n) rows

  filter-All :
      (P : WorkflowCheckpoint V → Type 0) (p : WorkflowCheckpoint V → Bool)
      (rows : List (WorkflowCheckpoint V))
      → All P rows
      → All P (filter p rows)
  filter-All P p [] h = tt
  filter-All P p (c ∷ rows) h =
      if_ind (All P) (p c) (λ _. (h.0, filter-All P p rows h.1)) (λ _. filter-All P p rows h.1)

  save_checkpoint-IsUpTo :
      (n m : ℕ) (state : Map V) (now : ℕ) (rows : List (WorkflowCheckpoint V))
      → n ≤ m
      → IsUpTo n rows
      → IsUpTo m (save_checkpoint (checkpoint w m state now) rows)
  unfolding save_checkpoint
  save_checkpoint-IsUpTo n m state now rows h upto = (
    λ _. omega arith,
    filter-All _ _ rows (
        All-mono _ (λ c. (c.workflow_id === w.id) ≡ true → c.next_step ≤ m) rows
          (λ c f e. omega (arith, f e)) upto),
  )

  get_latest_checkpoint-le :
      (n : ℕ) (rows : List (WorkflowCheckpoint V)) (c : WorkflowCheckpoint V)
      → IsUpTo n rows
      → get_latest_checkpoint w.id rows ≡ some c
      → c.next_step ≤ n
  unfolding get_latest_checkpoint
  get_latest_checkpoint-le n [] c h e = cc
  get_latest_checkpoint-le n (d ∷ rows) c h e = elim (Bool-cases (d.workflow_id === w.id)) [
    | inl mine ↦ elim (Option-cases (get_latest_checkpoint w.id rows)) [
      | inl nothing ↦ ground (arith, mine, nothing, h.0 mine)
      | inr (d', there) ↦
          ground (arith, mine, there, h.0 mine, get_latest_checkpoint-le n rows d' h.1 there)
    ]
    | inr other ↦ get_latest_checkpoint-le n rows c h.1 (ground (arith, other, e))
  ]

  -- The newest row is the latest one, if it has the highest index.
  get_latest_checkpoint-head :
      (n : ℕ) (state : Map V) (now : ℕ) (rows : List (WorkflowCheckpoint V))
      → IsUpTo n rows
      → get_latest_checkpoint w.id (checkpoint w n state now ∷ rows)
        ≡ some (checkpoint w n state now)
  unfolding get_latest_checkpoint
  get_latest_checkpoint-head n state now rows h =
      elim (Option-cases (get_latest_checkpoint w.id rows)) [
        | inl nothing ↦ ground (arith, nothing, eq_refl w.id)
        | inr (d, there) ↦
            ground (arith, there, eq_refl w.id, get_latest_checkpoint-le n rows d h there)
      ]

  -- The first step of such a run.
  advance-cons :
      (i : ℕ) (s : WorkflowStep) (steps : List WorkflowStep) (state : Map V) (done : List String)
      (rows : List (WorkflowCheckpoint V)) (out : Map V × List String × List (WorkflowCheckpoint V))
      → advance i (s ∷ steps) state done rows ≡ some out
      → (r : Map V) × (advance
            (i + 1)
            steps
            (next_state w s state r)
            (s.id ∷ done)
            (save_checkpoint (checkpoint w (i + 1) (next_state w s state r) (w.clock i)) rows)
          ≡ some out)
  unfolding advance
  advance-cons i s steps state done rows out e = elim (Outcome-cases (w.step_executor s state)) [
    | inl (r, o) ↦ (r, ground (arith, e, o))
    | inr (x, o) ↦ absurd (ground (arith, e, o))
  ]

  -- After one step or more the latest checkpoint holds the state that was reached.
  advance-latest :
      (i n : ℕ) (s : WorkflowStep) (steps : List WorkflowStep) (state : Map V) (done : List String)
      (rows : List (WorkflowCheckpoint V)) (state' : Map V) (done' : List String)
      (rows' : List (WorkflowCheckpoint V))
      → n ≡ i + length (s ∷ steps)
      → IsUpTo i rows
      → advance i (s ∷ steps) state done rows ≡ some (state', done', rows')
      → (now : ℕ) × (get_latest_checkpoint w.id rows' ≡ some (checkpoint w n state' now))
  unfolding advance save_checkpoint
  advance-latest i n s [] state done rows state' done' rows' size upto e =
      let (r, e') = advance-cons i s [] state done rows (state', done', rows') e in
      let next = next_state w s state r in
      let saved = save_checkpoint-IsUpTo i (i + 1) next (w.clock i) rows (omega arith) upto in
      let c : WorkflowCheckpoint V = checkpoint w (i + 1) next (w.clock i) in
      let head : get_latest_checkpoint w.id (save_checkpoint c rows) ≡ some c =
        get_latest_checkpoint-head (i + 1) next (w.clock i) (filter (λ d. not (same_id c d)) rows)
          saved.1 in
      (w.clock i, ground (arith, e', head))
  advance-latest i n s (t ∷ steps) state done rows state' done' rows' size upto e =
      let (r, e') = advance-cons i s (t ∷ steps) state done rows (state', done', rows') e in
      let next = next_state w s state r in
      advance-latest (i + 1) n t steps next (s.id ∷ done)
        (save_checkpoint (checkpoint w (i + 1) next (w.clock i)) rows) state' done' rows'
        (omega arith) (save_checkpoint-IsUpTo i (i + 1) next (w.clock i) rows (omega arith) upto) e'

  -- The run is cut off when some steps have been done, the checkpoint of the last one being saved:
  -- the uninterrupted run passes through that state and those rows. Then `resume` returns what the
  -- uninterrupted run returns: the same status, counts, final state and messages. The store had no
  -- rows of this workflow before, and the executor, the approvals, the signals and the clock are the
  -- same functions in both runs.
  pub resume-run :
      (s : WorkflowStep) (steps rest : List WorkflowStep) (initial state : Map V)
      (done : List String) (rows rows' : List (WorkflowCheckpoint V))
      → topological_sort w.steps ≡ (s ∷ steps) ++ rest
      → IsUpTo 0 rows
      → advance 0 (s ∷ steps) initial [] rows ≡ some (state, done, rows')
      → let total = length (topological_sort w.steps) in
        (run w initial rows ≡ execute_steps w total (length (s ∷ steps)) rest state done rows')
        × (out : DurableWorkflowResult V × List (WorkflowCheckpoint V)) × (resume w rows'
            ≡ some out)
        × (out.0 ≡ (run w initial rows).0)
  unfolding resume run execute_from
  resume-run s steps rest initial state done rows rows' order upto e =
      let first = s ∷ steps in
      let ordered = topological_sort w.steps in
      let total = length ordered in
      let (now, latest) =
        advance-latest 0 (length first) s steps initial [] rows state done rows' (omega arith) upto
          e in
      let left = ap (drop (length first)) order ∙ drop-append first rest in
      let past = ap (take (length first)) order ∙ take-append first rest in
      let whole = execute_steps-advance total 0 first rest initial [] rows state done rows' e in
      let same : (k : String) → includes (ids_of first) k ≡ includes done k =
        λ k. ground (arith, advance-done 0 first initial [] rows state done rows' k e) in
      let tail =
        execute_steps-ext total (length first) rest state (ids_of first) done rows' rows' same in
      let joined : (execute_from w (length first) state rows').0 ≡ (run w initial rows).0 =
        ground (arith, order, left, past, whole, tail) in
      let through : run w initial rows
          ≡ execute_steps w total (length first) rest state done rows' =
        ap (λ l. execute_steps w total 0 l initial [] rows) order
        ∙ whole
        ∙ ap (λ i. execute_steps w total i rest state done rows') (omega arith) in
      (through, execute_from w (length first) state rows', rw (latest, resume) refl, joined)
