-- ===== src/Progress.antt =====
-- core/progress-tracker.ts: `ProgressTracker`, with the table progress_events of
-- core/storage/sqlite-store.ts. Times are milliseconds; a text that is hashed is the list of its UTF-16
-- code units. The average of durations is a fraction and is compared exactly. The messages of
-- warnings are the values that they show.
use Prim.Native.String.{◌++◌ as text_append}
use ather.Net.Factories.{to_string}
use mathlib.Core.Option
use ather.Base.{
  ltb, leb, ◌===◌, if◌then◌else◌, or_else, is_some, length, take, filter, sum, Map, get, set,
  delete, has, ℕ, zero, suc, ◌+◌, ◌-◌, ◌*◌, ◌%◌, ◌^◌, String, Bool, true, false, ◌&&◌, not, Option,
  none, some, List, [], ◌∷◌, ◌++◌, map,
}
pub mod Hash
pub mod Loops
pub mod Tests

pub record ProgressConfig : Type 0 where
  pub max_token_budget : ℕ
  pub max_wall_clock_ms : ℕ
  pub stall_threshold_ms : ℕ
  pub max_consecutive_similar : ℕ

pub record ProgressEvent : Type 0 where
  pub id : String
  pub workflow_id : String
  pub step_index : ℕ
  pub agent_id : String
  pub output_hash : Option String
  pub tokens_used : ℕ
  pub duration : ℕ
  pub created_at : ℕ

pub record LoopWarning : Type 0 where
  pub workflow_id : String
  pub agent_id : String
  pub consecutive_count : ℕ

-- The expected time is a fraction: its numerator and its denominator.
pub record StallWarning : Type 0 where
  pub workflow_id : String
  pub step_index : ℕ
  pub elapsed_ms : ℕ
  pub expected_ms : ℕ × ℕ

pub data AbortReason : Type 0 where
  token_budget_exceeded : ℕ → ℕ → AbortReason
  wall_clock_exceeded : ℕ → ℕ → AbortReason
  loop_detected : LoopWarning → AbortReason

pub record ProgressTracker : Type 0 where
  pub config : ProgressConfig
  pub workflow_start_times : Map ℕ
  pub progress_events : List ProgressEvent

abbrev pub default_config : ProgressConfig
default_config = record {
  max_token_budget = 500000;
  max_wall_clock_ms = 600000;
  stall_threshold_ms = 60000;
  max_consecutive_similar = 3;
}

-- One round of `simpleHash`: `((hash << 5) - hash + ch) | 0`, on the unsigned form of the 32-bit number.
unfoldable pub hash_step : ℕ → ℕ → ℕ
hash_step hash ch = (hash * 32 % 2 ^ 32 + (2 ^ 32 - hash) + ch) % 2 ^ 32

unfoldable pub hash_from : ℕ → List ℕ → ℕ
unfolding hash_step
hash_from hash [] = hash
hash_from hash (ch ∷ text) = hash_from (hash_step hash ch) text

-- `simpleHash`, before it is written in base 36.
abbrev pub simple_hash : List ℕ → ℕ
simple_hash text = hash_from 0 text

abbrev pub hash_text : List ℕ → String
hash_text text = text_append "h" (to_string 36 (simple_hash text))

-- `saveProgressEvent`.
abbrev pub save_progress_event : ProgressEvent → List ProgressEvent → List ProgressEvent
save_progress_event event rows = filter (λ r. not (r.id === event.id)) rows ++ (event ∷ [])

abbrev insert_by_step : ProgressEvent → List ProgressEvent → List ProgressEvent
insert_by_step e [] = e ∷ []
insert_by_step e (r ∷ rows) =
    if leb e.step_index r.step_index then e ∷ r ∷ rows else r ∷ insert_by_step e rows

abbrev by_step : List ProgressEvent → List ProgressEvent
by_step [] = []
by_step (e ∷ rows) = insert_by_step e (by_step rows)

-- `getProgressEvents`.
unfoldable pub get_progress_events : String → List ProgressEvent → List ProgressEvent
get_progress_events workflow_id rows = by_step (filter (λ r. r.workflow_id === workflow_id) rows)

abbrev newest : Option ProgressEvent → List ProgressEvent → Option ProgressEvent
newest best [] = best
newest none (e ∷ rows) = newest (some e) rows
newest (some b) (e ∷ rows) = newest (some (if ltb b.created_at e.created_at then e else b)) rows

-- `getLatestProgressEvent`.
abbrev pub get_latest_progress_event : String → List ProgressEvent → Option ProgressEvent
get_latest_progress_event workflow_id rows =
    newest none (filter (λ r. r.workflow_id === workflow_id) rows)

-- `trackExecution`, with the id that is made for the event.
unfoldable pub track_execution :
    String → String → ℕ → String → List ℕ → ℕ → ℕ → ℕ → ProgressTracker → ProgressTracker
unfolding get set
track_execution id workflow_id step_index agent_id output tokens_used duration now t = record t {
  workflow_start_times =
      (if has t.workflow_start_times workflow_id
        then t.workflow_start_times
        else set t.workflow_start_times workflow_id now);
  progress_events =
      save_progress_event
        (record {
          id = id;
          workflow_id = workflow_id;
          step_index = step_index;
          agent_id = agent_id;
          output_hash = some (hash_text output);
          tokens_used = tokens_used;
          duration = duration;
          created_at = now;
        })
        t.progress_events;
}

abbrev pub total_of : List ℕ → ℕ
total_of [] = 0
total_of (n ∷ ns) = n + total_of ns

abbrev stalled : String → ProgressEvent → List ℕ → ℕ → ProgressConfig → Option StallWarning
stalled workflow_id latest [] now config = none
stalled workflow_id latest (d ∷ durations) now config =
    let all = d ∷ durations in
    let elapsed = now - latest.created_at in
    if ltb (2 * total_of all) (elapsed * length all) && ltb config.stall_threshold_ms elapsed
    then some (record {
      workflow_id = workflow_id;
      step_index = latest.step_index;
      elapsed_ms = elapsed;
      expected_ms = (2 * total_of all, length all);
    })
    else none

-- `detectStall`.
unfoldable pub detect_stall : String → ℕ → ProgressTracker → Option StallWarning
unfolding get_progress_events
detect_stall workflow_id now t = elim (get_latest_progress_event workflow_id t.progress_events) [
  | none ↦ none
  | some latest ↦
      let events = get_progress_events workflow_id t.progress_events in
      if ltb (length events) 2
      then none
      else stalled workflow_id latest (filter (λ d. ltb 0 d) (map (λ e. e.duration) events)) now
          t.config
]

-- Whether an event repeats one by the same agent with the same output.
abbrev pub repeats : ProgressEvent → ProgressEvent → Bool
repeats last event =
    event.agent_id === last.agent_id && or_else event.output_hash "" === or_else last.output_hash ""

-- How many events repeat one, from the end of the list on, where the list is given from its end.
abbrev pub leading : ProgressEvent → List ProgressEvent → ℕ
leading last [] = 0
leading last (e ∷ earlier) =
    if is_some e.output_hash && repeats last e && not (or_else last.output_hash "" === "")
    then 1 + leading last earlier
    else 0

abbrev pub reverse_onto : List ProgressEvent → List ProgressEvent → List ProgressEvent
reverse_onto done [] = done
reverse_onto done (e ∷ events) = reverse_onto (e ∷ done) events

abbrev pub is_hash : Option String → Option String → Bool
is_hash none none = true
is_hash (some h) (some k) = h === k
is_hash none (some k) = false
is_hash (some h) none = false

-- Whether a set of the hashes of events has one member, given one of them.
abbrev pub all_same : Option String → List ProgressEvent → Bool
all_same h [] = true
all_same h (e ∷ events) = is_hash h e.output_hash && all_same h events

abbrev pub loop_warning : String → String → ℕ → LoopWarning
loop_warning workflow_id agent_id n = record {
  workflow_id = workflow_id;
  agent_id = agent_id;
  consecutive_count = n;
}

-- The tests of `detectLoop` on the recent events, given from the last one back.
unfoldable pub check_recent : String → ℕ → List ProgressEvent → Option LoopWarning
check_recent workflow_id n [] = if leb n 1 then some (loop_warning workflow_id "" 1) else none
check_recent workflow_id n (last ∷ earlier) =
    let count = 1 + leading last earlier in
    let mine = filter (λ e. e.agent_id === last.agent_id) (last ∷ earlier) in
    if leb n count
    then some (loop_warning workflow_id last.agent_id count)
    else if leb 2 (length (last ∷ earlier)) && leb n (length mine) && all_same last.output_hash mine
    then some (loop_warning workflow_id last.agent_id (length mine))
    else none

-- `detectLoop`.
unfoldable pub detect_loop : String → ProgressTracker → Option LoopWarning
unfolding get_progress_events check_recent
detect_loop workflow_id t =
    let events = get_progress_events workflow_id t.progress_events in
    let n = t.config.max_consecutive_similar in
    if ltb (length events) n
    then none
    else check_recent workflow_id n (take (n + 1) (reverse_onto [] events))

abbrev elapsed_since : Option ℕ → ℕ → ℕ
elapsed_since none now = 0
elapsed_since (some zero) now = 0
elapsed_since (some (suc start)) now = now - suc start

-- `shouldAbort`: the reason, if it should.
unfoldable pub should_abort : String → ℕ → ProgressTracker → Option AbortReason
unfolding get_progress_events detect_loop get
should_abort workflow_id now t =
    let total =
      sum (map (λ e. e.tokens_used) (get_progress_events workflow_id t.progress_events)) in
    let elapsed = elapsed_since (get t.workflow_start_times workflow_id) now in
    if ltb t.config.max_token_budget total
    then some (token_budget_exceeded total t.config.max_token_budget)
    else if ltb t.config.max_wall_clock_ms elapsed
    then some (wall_clock_exceeded elapsed t.config.max_wall_clock_ms)
    else Option.map loop_detected (detect_loop workflow_id t)

-- `cleanup`.
unfoldable pub cleanup : String → ProgressTracker → ProgressTracker
unfolding delete
cleanup workflow_id t = record t {
  workflow_start_times = delete t.workflow_start_times workflow_id;
  progress_events = filter (λ r. not (r.workflow_id === workflow_id)) t.progress_events;
}
