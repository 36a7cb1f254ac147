-- ===== src/Escalation.antt =====
-- core/escalation.ts: the escalation manager, with the rows that core/storage/sqlite-store.ts keeps
-- for it. Times are milliseconds, and a call that reads the clock twice takes both readings. A
-- recommendation is kept as the values that its text is made of.
pub mod Breaker
pub mod Gates
pub mod Recovery
pub mod Restart
pub mod Tests
use ather.Base.{
  ltb, leb, if◌then◌else◌, or_else, includes, Map, get, set, delete, delete_all, ℕ, ◌+◌, ◌-◌,
  String, Bool, true, false, ◌||◌, Option, none, some, List, [], ◌∷◌, ◌++◌,
}
use ather.Registry.{Agent, find, get_all, get_escalation_chain}

pub record EscalationRecord : Type 0 where
  pub agent_id : String
  pub count : ℕ
  pub last_escalation : ℕ
  pub reasons : List String

pub data GatePolicy : Type 0 where
  unrestricted priority tier_only : GatePolicy

pub record Gate : Type 0 where
  pub gate_policy : GatePolicy
  pub min_priority : ℕ
  pub allowed_source_tiers : List String

-- The two tables of the persistent store.
pub record Store : Type 0 where
  pub rows : Map EscalationRecord
  pub master_count : ℕ

abbrev pub save_escalation_record : String → EscalationRecord → Store → Store
save_escalation_record id r s = record s { rows = set s.rows id r }

abbrev pub clear_escalation_record : String → Store → Store
clear_escalation_record id s = record s { rows = delete s.rows id }

abbrev pub increment_master_escalation_count : Store → Store
increment_master_escalation_count s = record s { master_count = s.master_count + 1 }

-- A call through `this.store?.`.
abbrev pub on_store : (Store → Store) → Option Store → Option Store
on_store f none = none
on_store f (some s) = some (f s)

pub record EscalationManager : Type 0 where
  pub records : Map EscalationRecord
  pub circuit_breaker_threshold : ℕ
  pub circuit_breaker_window : ℕ
  pub registry : Map Agent
  pub store : Option Store
  pub master_escalation_count : ℕ
  pub tier_gates : Map Gate

-- The texts of `recommendation`, by the values that they show.
pub data Recommendation : Type 0 where
  circuit_open : String → ℕ → ℕ → Recommendation
  circuit_tripped : String → ℕ → ℕ → List String → Recommendation
  not_registered : String → Recommendation
  no_target : String → Recommendation
  escalated_through_gate : String → String → ℕ → String → Recommendation
  gate_blocked : String → String → ℕ → ℕ → Recommendation
  escalated : String → String → String → String → Recommendation

pub record EscalationResult : Type 0 where
  pub target : Option Agent
  pub circuit_broken : Bool
  pub recommendation : Recommendation

abbrev pub master_weight : ℕ
master_weight = 10

abbrev pub master_gate : Gate
master_gate = record {
  gate_policy = priority;
  min_priority = 4;
  allowed_source_tiers = "manager" ∷ "forge" ∷ "sentinel" ∷ [];
}

abbrev pub sentinel_gate : Gate
sentinel_gate = record {
  gate_policy = priority;
  min_priority = 4;
  allowed_source_tiers = "master" ∷ "forge" ∷ [];
}

abbrev pub default_gates : Map Gate
default_gates = ("master", master_gate) ∷ ("sentinel", sentinel_gate) ∷ []

-- The constructor, with its defaults.
unfoldable pub new : Map Agent → Option ℕ → Option ℕ → Option Store → EscalationManager
new registry threshold window_ms store = record {
  records = [];
  circuit_breaker_threshold = or_else threshold 3;
  circuit_breaker_window = or_else window_ms 300_000;
  registry = registry;
  store = store;
  master_escalation_count = 0;
  tier_gates = default_gates;
}

-- `now - record.lastEscalation > this.circuitBreakerWindow`. A difference below zero is no more
-- than the window, and neither is the 0 that stands for it here.
abbrev pub is_stale : ℕ → ℕ → EscalationRecord → Bool
is_stale window now r = ltb window (now - r.last_escalation)

-- The body of `isCircuitBroken` after its lookup.
abbrev pub trips : ℕ → ℕ → ℕ → Option EscalationRecord → Bool
trips threshold window now none = false
trips threshold window now (some r) = if is_stale window now r then false else leb threshold r.count

-- `isCircuitBroken`, at the time that it reads.
unfoldable pub is_circuit_broken : EscalationManager → String → ℕ → Bool
is_circuit_broken m id now =
    trips m.circuit_breaker_threshold m.circuit_breaker_window now (get m.records id)

-- `canPassTierGate`.
unfoldable pub can_pass_tier_gate : EscalationManager → String → ℕ → Gate → Bool
can_pass_tier_gate m from p gate = elim gate.gate_policy [
  | unrestricted ↦ true
  | _ ↦ leb gate.min_priority p || elim (find m.registry from) [
    | none ↦ false
    | some agent ↦ includes gate.allowed_source_tiers agent.tier
  ]
]

-- `shouldReachMaster`.
unfoldable pub should_reach_master : EscalationManager → String → ℕ → Bool
unfolding can_pass_tier_gate
should_reach_master m from p = elim (get m.tier_gates "master") [
  | none ↦ leb 4 p
  | some gate ↦ can_pass_tier_gate m from p gate
]

abbrev pub refuse : Bool → Recommendation → EscalationResult
refuse broken r = record { target = none; circuit_broken = broken; recommendation = r }

abbrev pub accept : Agent → Recommendation → EscalationResult
accept a r = record { target = some a; circuit_broken = false; recommendation = r }

-- The body of the loop over the chain: every branch of it returns.
unfoldable pub consider :
    EscalationManager → String → String → ℕ → Agent → EscalationManager × EscalationResult
consider m from reason p candidate = elim (get m.tier_gates candidate.tier) [
  | none ↦ (m, accept candidate (escalated from candidate.id candidate.tier reason))
  | some gate ↦
      if can_pass_tier_gate m from p gate
      then (
        record m {
          master_escalation_count = m.master_escalation_count + 1;
          store = on_store increment_master_escalation_count m.store;
        },
        accept candidate (escalated_through_gate candidate.tier candidate.id p reason),
      )
      else (m, refuse false (gate_blocked from candidate.tier gate.min_priority p))
]

-- The test for an empty chain and the walk of the chain. The loop's first round returns, so what
-- stands behind the loop is never reached.
unfoldable pub follow_chain :
    EscalationManager → String → String → ℕ → List Agent → EscalationManager × EscalationResult
unfolding consider
follow_chain m from reason p [] = (m, refuse false (no_target from))
follow_chain m from reason p (candidate ∷ _) = consider m from reason p candidate

-- "Determine escalation target".
unfoldable pub determine_target :
    EscalationManager → String → String → ℕ → EscalationManager × EscalationResult
unfolding follow_chain
determine_target m from reason p = elim (find m.registry from) [
  | none ↦ (m, refuse false (not_registered from))
  | some _ ↦ follow_chain m from reason p (get_escalation_chain m.registry from)
]

abbrev pub fresh_record : String → EscalationRecord
fresh_record id = record { agent_id = id; count = 0; last_escalation = 0; reasons = [] }

-- The record that `escalate` works on: a new one if there is none, emptied if it is stale.
abbrev pub current_record : EscalationManager → String → ℕ → EscalationRecord
current_record m from now =
    let r = or_else (get m.records from) (fresh_record from) in
    if is_stale m.circuit_breaker_window now r then record r { count = 0; reasons = [] } else r

-- "Record this escalation".
abbrev pub count_in : EscalationRecord → String → ℕ → EscalationRecord
count_in r reason now = record r {
  count = r.count + 1;
  last_escalation = now;
  reasons = r.reasons ++ (reason ∷ []);
}

-- "Ensure record exists & prune stale entries".
unfoldable pub open_record : EscalationManager → String → ℕ → EscalationManager
open_record m from now = record m { records = set m.records from (current_record m from now) }

-- "Record this escalation": the map's own record object is updated, and written to the store.
unfoldable pub record_escalation : EscalationManager → String → String → ℕ → EscalationManager
record_escalation m from reason now =
    let counted = count_in (current_record m from now) reason now in
    record m {
      records = set m.records from counted;
      store = on_store (save_escalation_record from counted) m.store;
    }

-- `escalate` reads the clock at `now`, and `isCircuitBroken` inside it at `later`.
unfoldable pub escalate :
    EscalationManager → String → String → ℕ → ℕ → ℕ → EscalationManager × EscalationResult
unfolding is_circuit_broken determine_target open_record record_escalation
escalate m from reason p now later =
    let r = current_record m from now in
    let counted = count_in r reason now in
    if is_circuit_broken (open_record m from now) from later
    then (open_record m from now, refuse true (circuit_open from r.count m.circuit_breaker_window))
    else if leb m.circuit_breaker_threshold counted.count
    then (
      record_escalation m from reason now,
      refuse true (circuit_tripped from counted.count m.circuit_breaker_threshold counted.reasons),
    )
    else determine_target (record_escalation m from reason now) from reason p

-- `resetCircuit`.
unfoldable pub reset_circuit : EscalationManager → String → EscalationManager
reset_circuit m id = record m {
  records = elim (get m.records id) [
    | none ↦ m.records
    | some r ↦ set m.records id (record r { count = 0; reasons = []; last_escalation = 0 })
  ];
  store = on_store (clear_escalation_record id) m.store;
}

-- The loop of `loadFromStore` over the registered agents.
load_records : Map EscalationRecord → List Agent → Map EscalationRecord → Map EscalationRecord
load_records rows [] records = records
load_records rows (a ∷ agents) records =
    load_records rows agents (elim (get rows a.id) [ none ↦ records | some r ↦ set records a.id r ])

-- `loadFromStore`.
unfoldable pub load_from_store : EscalationManager → EscalationManager
unfolding load_records
load_from_store m = elim m.store [
  | none ↦ m
  | some s ↦ record m {
    records = load_records s.rows (get_all m.registry) m.records;
    master_escalation_count = s.master_count;
  }
]

-- `prune`: the ids are collected first, then deleted one by one.
stale_ids : ℕ → ℕ → Map EscalationRecord → List String
stale_ids window now [] = []
stale_ids window now ((id, r) ∷ m) =
    if is_stale window now r then id ∷ stale_ids window now m else stale_ids window now m

unfoldable pub prune : EscalationManager → ℕ → EscalationManager
unfolding stale_ids delete_all
prune m now = record m {
  records = delete_all m.records (stale_ids m.circuit_breaker_window now m.records);
}

pub record EscalationStats : Type 0 where
  pub total_escalations : ℕ
  pub circuits_broken : ℕ
  pub by_agent : Map ℕ
  pub master_escalations : ℕ

-- The loop of `getStats`.
add_stats : EscalationManager → ℕ → Map EscalationRecord → EscalationStats → EscalationStats
add_stats m now [] s = s
add_stats m now ((id, r) ∷ rest) s = add_stats m now rest (record s {
  total_escalations = s.total_escalations + r.count;
  by_agent = set s.by_agent id r.count;
  circuits_broken = if is_circuit_broken m id now then s.circuits_broken + 1 else s.circuits_broken;
})

-- `getStats`.
unfoldable pub get_stats : EscalationManager → ℕ → EscalationStats
unfolding add_stats
get_stats m now = add_stats m now m.records (record {
  total_escalations = 0;
  circuits_broken = 0;
  by_agent = [];
  master_escalations = elim m.store [ none ↦ m.master_escalation_count | some s ↦ s.master_count ];
})
