-- ===== src/Escalation/Restart.antt =====
-- core/escalation.ts: sequences of calls, and a restart over the store.
use ather.Base.{is_some, IsUnique, ℕ, ◌≤◌, String, ◌≡◌, true, List, [], ◌∷◌}
use ather.Escalation.Recovery.{IsSynced}
use ather.Escalation.{EscalationManager, escalate, reset_circuit, prune}

-- The operations of a manager, with the times at which they read the clock.
pub data Call : Type 0 where
  escalates : (from reason : String) (p now later : ℕ) → Call
  resets : (id : String) → Call
  prunes : (now : ℕ) → Call

abbrev pub perform : EscalationManager → Call → EscalationManager
perform m (escalates from reason p now later) = (escalate m from reason p now later).0
perform m (resets id) = reset_circuit m id
perform m (prunes now) = prune m now

-- The clock after a call, and whether the call's time is not before `since`.
abbrev pub clock_after : ℕ → Call → ℕ
clock_after since (escalates from reason p now later) = now
clock_after since (resets id) = since
clock_after since (prunes now) = now

abbrev pub run : EscalationManager → List Call → EscalationManager
run m [] = m
run m (c ∷ calls) = run (perform m c) calls

-- The calls come in the order of their times.
abbrev pub IsOrdered : ℕ → List Call → Type 0
IsOrdered since [] = Unit
IsOrdered since (c ∷ calls) = (since ≤ clock_after since c) × IsOrdered (clock_after since c) calls

abbrev pub end_of : ℕ → List Call → ℕ
end_of since [] = since
end_of since (c ∷ calls) = end_of (clock_after since c) calls

-- What every call keeps: a store is attached, keys are unique, and rows and records are in step.
pub record Inv (since : ℕ) (m : EscalationManager) : Type 0 where
  pub attached : is_some m.store ≡ true
  pub positive : 1 ≤ m.circuit_breaker_threshold
  pub unique : IsUnique m.records
  pub synced : IsSynced since m
