-- ===== src/Escalation/Breaker.antt =====
-- core/escalation.ts: the circuit breaker.
use ather.Base.{
  leb, if◌then◌else◌, Option-cases, ===-ne, get, get-set, ℕ, ◌+◌, ◌≤◌, ◌<◌, String, ◌≡◌, refl, ◌≢◌,
  ◌⊎◌, inl, inr, Bool, true, false, not, Option, none, some, List, [], ◌∷◌, arith, eq_refl,
}
use ather.Registry.{Agent, get_escalation_chain}
use ather.Escalation.{
  reset_circuit, is_circuit_broken, record_escalation, count_in, EscalationManager,
  EscalationRecord, EscalationResult, current_record, follow_chain, determine_target, escalate,
}

-- The escalations of an agent that its record counts, if the last of them is no older than `start`.
counted_since : ℕ → Option EscalationRecord → ℕ
counted_since start none = 0
counted_since start (some r) = if leb start r.last_escalation then r.count else 0

-- What routing leaves alone: the records and the settings. It never reports a broken circuit.
pub record IsRouting (m : EscalationManager) (out : EscalationManager × EscalationResult)
    : Type 0 where
  pub records : out.0.records ≡ m.records
  pub threshold : out.0.circuit_breaker_threshold ≡ m.circuit_breaker_threshold
  pub window : out.0.circuit_breaker_window ≡ m.circuit_breaker_window
  pub intact : out.1.circuit_broken ≡ false

follow_chain-IsRouting :
    (m : EscalationManager) (from reason : String) (p : ℕ) (chain : List Agent)
    → IsRouting m (follow_chain m from reason p chain)
unfolding follow_chain
follow_chain-IsRouting m from reason p [] = record {
  records = refl;
  threshold = refl;
  window = refl;
  intact = refl;
}
follow_chain-IsRouting m from reason p (a ∷ _) = ground arith

pub determine_target-IsRouting :
    (m : EscalationManager) (from reason : String) (p : ℕ)
    → IsRouting m (determine_target m from reason p)
unfolding determine_target
determine_target-IsRouting m from reason p =
    ground (arith, follow_chain-IsRouting m from reason p (get_escalation_chain m.registry from))

abbrev one_if : Bool → ℕ
one_if true = 1
one_if false = 0

-- One attempt inside the span: it is counted, and passes only below the threshold.
record IsAttempt (start : ℕ) (from : String) (m : EscalationManager)
    (out : EscalationManager × EscalationResult) : Type 0 where
  counted :
      counted_since start (get m.records from) + one_if (not out.1.circuit_broken)
      ≤ counted_since start (get out.0.records from)
  below :
      out.1.circuit_broken ≡ false
      → counted_since start (get out.0.records from) < m.circuit_breaker_threshold
  threshold : out.0.circuit_breaker_threshold ≡ m.circuit_breaker_threshold
  window : out.0.circuit_breaker_window ≡ m.circuit_breaker_window

escalate-IsAttempt :
    (start : ℕ) (m : EscalationManager) (from reason : String) (p now later : ℕ)
    → start ≤ now
    → now ≤ later
    → later ≤ start + m.circuit_breaker_window
    → IsAttempt start from m (escalate m from reason p now later)
unfolding escalate counted_since
escalate-IsAttempt start m from reason p now later h1 h2 h3 = ground (
  arith,
  get-set m.records from from (current_record m from now),
  get-set m.records from from (count_in (current_record m from now) reason now),
  eq_refl from,
  determine_target-IsRouting (record_escalation m from reason now) from reason p,
)

-- An attempt to escalate, with its two readings of the clock.
pub record Attempt : Type 0 where
  pub reason : String
  pub priority : ℕ
  pub now : ℕ
  pub later : ℕ

-- The attempts of one agent, one after the other: how many the breaker lets through.
pub passes : EscalationManager → String → List Attempt → ℕ
passes m from [] = 0
passes m from (a ∷ calls) =
    let out = escalate m from a.reason a.priority a.now a.later in
    one_if (not out.1.circuit_broken) + passes out.0 from calls

-- Every reading of the clock lies within `window` of the start.
abbrev pub IsWithin : ℕ → ℕ → List Attempt → Type 0
IsWithin start window [] = Unit
IsWithin start window (a ∷ calls) =
    (start ≤ a.now) × (a.now ≤ a.later) × (a.later ≤ start + window) × IsWithin start window calls

passes-le :
    (calls : List Attempt) (start : ℕ) (m : EscalationManager) (from : String)
    → IsWithin start m.circuit_breaker_window calls
    → (passes m from calls ≡ 0)
      ⊎ (counted_since start (get m.records from) + passes m from calls
          < m.circuit_breaker_threshold)
unfolding passes
passes-le [] start m from h = inl refl
passes-le (a ∷ calls) start m from h =
    let out = escalate m from a.reason a.priority a.now a.later in
    let one = escalate-IsAttempt start m from a.reason a.priority a.now a.later h.0 h.1 h.2 in
    let rest : (passes out.0 from calls ≡ 0)
        ⊎ (counted_since start (get out.0.records from) + passes out.0 from calls
            < out.0.circuit_breaker_threshold) =
      passes-le calls start out.0 from (rw one.window h.3) in
    ground (arith, one.counted, one.below, one.threshold, rest)

-- However an agent's attempts fall within one window, the breaker lets fewer of them through than
-- its threshold, whatever the record says before. The threshold is at least 1.
pub passes-lt-threshold :
    (m : EscalationManager) (from : String) (start : ℕ) (calls : List Attempt)
    → 1 ≤ m.circuit_breaker_threshold
    → IsWithin start m.circuit_breaker_window calls
    → passes m from calls < m.circuit_breaker_threshold
passes-lt-threshold m from start calls h within = omega (arith, passes-le calls start m from within)

-- While the circuit is open an attempt is refused, whatever its priority. It is not counted, and it
-- reaches neither the store nor the master count.
pub escalate_open :
    (m : EscalationManager) (from reason : String) (p now : ℕ)
    → is_circuit_broken m from now ≡ true
    → let (m', result) = escalate m from reason p now now in
      (result.target ≡ none)
      × (result.circuit_broken ≡ true)
      × (get m'.records from ≡ get m.records from)
      × (m'.store ≡ m.store)
      × (m'.master_escalation_count ≡ m.master_escalation_count)
unfolding escalate
escalate_open m from reason p now broken =
    ground (arith, get-set m.records from from (current_record m from now), eq_refl from)

-- An agent's attempt never opens or closes the circuit of another agent.
pub is_circuit_broken-escalate :
    (m : EscalationManager) (from other reason : String) (p now later t : ℕ)
    → from ≢ other
    → is_circuit_broken (escalate m from reason p now later).0 other t ≡ is_circuit_broken m other t
unfolding escalate
is_circuit_broken-escalate m from other reason p now later t apart = ground (
  arith,
  get-set m.records from other (current_record m from now),
  get-set m.records from other (count_in (current_record m from now) reason now),
  ===-ne from other apart,
  determine_target-IsRouting (record_escalation m from reason now) from reason p,
)

-- Below the threshold an attempt passes.
escalate_passes :
    (m : EscalationManager) (from reason : String) (p now later : ℕ)
    → (current_record m from now).count + 1 < m.circuit_breaker_threshold
    → (escalate m from reason p now later).1.circuit_broken ≡ false
unfolding escalate
escalate_passes m from reason p now later h = ground (
  arith,
  get-set m.records from from (current_record m from now),
  eq_refl from,
  determine_target-IsRouting (record_escalation m from reason now) from reason p,
)

current_record-reset_circuit :
    (m : EscalationManager) (from : String) (now : ℕ)
    → (current_record (reset_circuit m from) from now).count ≡ 0
unfolding reset_circuit
current_record-reset_circuit m from now = elim (Option-cases (get m.records from)) [
  | inl e ↦ ground (arith, e)
  | inr (r, e) ↦ ground (
    arith,
    e,
    eq_refl from,
    get-set m.records from from (record r { count = 0; reasons = []; last_escalation = 0 }),
  )
]

-- After a reset the next attempt passes the breaker, if the threshold is above 1.
pub escalate-reset_circuit :
    (m : EscalationManager) (from reason : String) (p now later : ℕ)
    → 2 ≤ m.circuit_breaker_threshold
    → (escalate (reset_circuit m from) from reason p now later).1.circuit_broken ≡ false
unfolding reset_circuit
escalate-reset_circuit m from reason p now later h =
    escalate_passes (reset_circuit m from) from reason p now later
      (omega (arith, current_record-reset_circuit m from now))

-- The circuit closes by itself: once the window has passed since the last counted escalation, the
-- next attempt is counted as the first one.
pub escalate_stale :
    (m : EscalationManager) (from reason : String) (r : EscalationRecord) (p now : ℕ)
    → get m.records from ≡ some r
    → r.last_escalation + m.circuit_breaker_window < now
    → 1 ≤ m.circuit_breaker_threshold
    → get (escalate m from reason p now now).0.records from
      ≡ some (record r { count = 1; last_escalation = now; reasons = reason ∷ [] })
unfolding escalate
escalate_stale m from reason r p now found old h = ground (
  arith,
  get-set m.records from from (current_record m from now),
  get-set m.records from from (count_in (current_record m from now) reason now),
  eq_refl from,
  determine_target-IsRouting (record_escalation m from reason now) from reason p,
)
