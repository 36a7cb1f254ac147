-- ===== src/Progress/Loops.antt =====
-- core/progress-tracker.ts: what `detectLoop` warns of.
use ather.Base.{
  ◌===◌, or_else, length, take, filter, All, List-cases, length-append, length-take, ℕ, ◌+◌, ◌≤◌,
  String, ◌≡◌, refl, sym, ap, ◌∙◌, inl, inr, true, false, Option, none, some, List, [], ◌∷◌, ◌++◌,
  arith, eq_iff,
}
use ather.Progress.{
  loop_warning, detect_loop, ProgressEvent, ProgressTracker, LoopWarning, get_progress_events,
  repeats, leading, reverse_onto, is_hash, all_same, check_recent,
}

-- How many events repeat one.
abbrev pub alike : ProgressEvent → List ProgressEvent → ℕ
alike last events = length (filter (repeats last) events)

repeats_self : (e : ProgressEvent) → repeats e e ≡ true
repeats_self e = ground (
  arith,
  eq_iff e.agent_id e.agent_id,
  eq_iff (or_else e.output_hash "") (or_else e.output_hash ""),
)

leading-le :
    (last : ProgressEvent) (events : List ProgressEvent) → leading last events ≤ alike last events
leading-le last [] = omega arith
leading-le last (e ∷ events) = ground (arith, leading-le last events)

is_hash-or_else :
    (h k : Option String) → is_hash h k ≡ true → (or_else k "" === or_else h "") ≡ true
is_hash-or_else none none e = refl
is_hash-or_else (some h) (some k) e = ground (arith, e, eq_iff h k, eq_iff k h)
is_hash-or_else none (some k) e = absurd (cc e)
is_hash-or_else (some h) none e = absurd (cc e)

all_same-le :
    (last : ProgressEvent) (events : List ProgressEvent)
    → all_same last.output_hash (filter (λ e. e.agent_id === last.agent_id) events) ≡ true
    → length (filter (λ e. e.agent_id === last.agent_id) events) ≤ alike last events
all_same-le last [] h = omega arith
all_same-le last (e ∷ events) h =
    ground (arith, h, is_hash-or_else last.output_hash e.output_hash, all_same-le last events)

-- The events that `detectLoop` looks at, from the last one back.
abbrev pub recent_events : String → ProgressTracker → List ProgressEvent
recent_events workflow_id t =
    take (t.config.max_consecutive_similar + 1)
      (reverse_onto [] (get_progress_events workflow_id t.progress_events))

-- What a warning says of the recent events.
pub record IsLoop (n : ℕ) (w : LoopWarning) (last : ProgressEvent) (events : List ProgressEvent)
    : Type 0 where
  pub agent : w.agent_id ≡ last.agent_id
  pub enough : n ≤ w.consecutive_count
  pub counted : w.consecutive_count ≤ alike last events

check_recent-IsLoop :
    (workflow_id : String) (n : ℕ) (last : ProgressEvent) (earlier : List ProgressEvent)
    (w : LoopWarning)
    → check_recent workflow_id n (last ∷ earlier) ≡ some w
    → IsLoop n w last (last ∷ earlier)
unfolding check_recent
check_recent-IsLoop workflow_id n last earlier w h =
    let self = repeats_self last in
    let short = leading-le last earlier in
    let long = all_same-le last (last ∷ earlier) in
    record {
      agent = ground (arith, h);
      enough = ground (arith, h);
      counted = ground (arith, h, self, short, long);
    }

length-reverse_onto :
    (done events : List ProgressEvent)
    → length (reverse_onto done events) ≡ length done + length events
length-reverse_onto done [] = omega arith
length-reverse_onto done (e ∷ events) = omega (arith, length-reverse_onto (e ∷ done) events)

detect_loop-recent :
    (workflow_id : String) (t : ProgressTracker) (w : LoopWarning)
    → detect_loop workflow_id t ≡ some w
    → (t.config.max_consecutive_similar
        ≤ length (get_progress_events workflow_id t.progress_events))
      × (check_recent workflow_id t.config.max_consecutive_similar (recent_events workflow_id t)
          ≡ some w)
unfolding detect_loop
detect_loop-recent workflow_id t w h = (ground (arith, h), ground (arith, h))

-- When `detectLoop` warns, with a configured number of at least 1, the warning names the agent of the
-- last event; the number that it gives is at least the configured one, and at least so many of the
-- recent events, which are one more than configured, are by that agent with the hash of the last one.
pub detect_loop-IsLoop :
    (workflow_id : String) (t : ProgressTracker) (w : LoopWarning)
    → 1 ≤ t.config.max_consecutive_similar
    → detect_loop workflow_id t ≡ some w
    → (last : ProgressEvent) × (earlier : List ProgressEvent) × (recent_events workflow_id t
        ≡ last ∷ earlier)
      × IsLoop t.config.max_consecutive_similar w last (last ∷ earlier)
detect_loop-IsLoop workflow_id t w some_events h =
    let n = t.config.max_consecutive_similar in
    let events = get_progress_events workflow_id t.progress_events in
    let (many, warned) = detect_loop-recent workflow_id t w h in
    elim (List-cases (recent_events workflow_id t)) [
      | inl e ↦ absurd (
          omega (
            arith,
            ap length e,
            many,
            some_events,
            length-take (n + 1) (reverse_onto [] events),
            length-reverse_onto [] events,
          ))
      | inr (last, earlier, e) ↦ (
        last,
        earlier,
        e,
        check_recent-IsLoop workflow_id n last earlier w
            (ap (check_recent workflow_id n) (sym e) ∙ warned),
      )
    ]

-- An event by an agent with a hash.
abbrev pub IsBy : String → String → ProgressEvent → Type 0
IsBy agent hash e = (e.agent_id ≡ agent) × (e.output_hash ≡ some hash)

leading-same :
    (agent hash : String) (last : ProgressEvent) (same rest : List ProgressEvent)
    → (hash === "") ≡ false
    → IsBy agent hash last
    → All (IsBy agent hash) same
    → length same ≤ leading last (same ++ rest)
leading-same agent hash last [] rest shown l all = omega arith
leading-same agent hash last (e ∷ same) rest shown l all = ground (
  arith,
  shown,
  l,
  all.0,
  eq_iff agent agent,
  eq_iff hash hash,
  leading-same agent hash last same rest shown l all.1,
)

-- When the last events, as many as configured, are by one agent and have one hash that is not empty,
-- `detectLoop` warns of that agent.
pub detect_loop-same :
    (workflow_id : String) (t : ProgressTracker) (agent hash : String) (last : ProgressEvent)
    (same rest : List ProgressEvent)
    → (hash === "") ≡ false
    → recent_events workflow_id t ≡ last ∷ (same ++ rest)
    → t.config.max_consecutive_similar ≡ length same + 1
    → IsBy agent hash last
    → All (IsBy agent hash) same
    → (w : LoopWarning) × (detect_loop workflow_id t ≡ some w) × (w.agent_id ≡ agent)
unfolding detect_loop check_recent
detect_loop-same workflow_id t agent hash last same rest shown e n l all =
    let events = get_progress_events workflow_id t.progress_events in
    let run = leading-same agent hash last same rest shown l all in
    let size = length-take (t.config.max_consecutive_similar + 1) (reverse_onto [] events) in
    let count = ap length e in
    let long : t.config.max_consecutive_similar ≤ length events =
      omega (arith, n, size, count, length-append same rest, length-reverse_onto [] events) in
    (
      loop_warning workflow_id last.agent_id (1 + leading last (same ++ rest)),
      ground (arith, e, n, run, long),
      l.0,
    )
