-- ===== src/Escalation/Tests.antt =====
-- core/escalation.ts and core/registry.ts at small inputs: a worker below a manager below the master.
use ather.Base.{
  Map, get, set, ℕ, ◌≤◌, ◌<◌, String, ◌≡◌, refl, ◌≢◌, ◌⊎◌, true, Option, none, some, List, [], ◌∷◌,
  arith,
}
use ather.Registry.{Agent, find, get_escalation_chain, walk}
use ather.Registry.Chain.{IsPath, get_escalation_chain-walk, get_escalation_chain-IsPath}
use ather.Escalation.{
  EscalationManager, EscalationRecord, Store, new, default_gates, is_circuit_broken,
  can_pass_tier_gate, escalate, get_stats,
}
use ather.Escalation.Breaker.{Attempt, passes, passes-lt-threshold, escalate_open}
use ather.Escalation.Gates.{
  IsAllowed, IsTrusted, escalate-IsAllowed, escalate-master, escalate_unregistered,
}

abbrev agent : String → String → Option String → Agent
agent id tier target = record { id = id; tier = tier; escalation_target = target }

abbrev worker : Agent
worker = agent "db-worker" "worker" (some "lead")

abbrev lead : Agent
lead = agent "lead" "manager" (some "cortex")

abbrev cortex : Agent
cortex = agent "cortex" "master" none

abbrev smith : Agent
smith = agent "smith" "forge" (some "cortex")

abbrev agents : Map Agent
agents = ("db-worker", worker) ∷ ("lead", lead) ∷ ("cortex", cortex) ∷ ("smith", smith) ∷ []

abbrev empty_store : Store
empty_store = record { rows = []; master_count = 0 }

abbrev row : String → ℕ → ℕ → List String → EscalationRecord
row id count last reasons = record {
  agent_id = id;
  count = count;
  last_escalation = last;
  reasons = reasons;
}

abbrev manager : EscalationManager
manager = record {
  records = ("db-worker", row "db-worker" 2 1_000 ("a" ∷ "b" ∷ [])) ∷ [];
  circuit_breaker_threshold = 3;
  circuit_breaker_window = 300_000;
  registry = agents;
  store = some (record {
    rows = ("db-worker", row "db-worker" 2 1_000 ("a" ∷ "b" ∷ [])) ∷ [];
    master_count = 0;
  });
  master_escalation_count = 0;
  tier_gates = default_gates;
}

abbrev tripped : EscalationManager
tripped = record manager {
  records = ("db-worker", row "db-worker" 3 1_000 ("a" ∷ "b" ∷ "c" ∷ [])) ∷ [];
}

chain_of_worker : get_escalation_chain agents "db-worker" ≡ lead ∷ cortex ∷ []
unfolding get_escalation_chain
chain_of_worker = refl

-- The registry answers for a suffix of an id, and has no chain for it.
suffix_lookup : (find agents "worker" ≡ some worker) × (get_escalation_chain agents "worker" ≡ [])
unfolding find get_escalation_chain
suffix_lookup = (refl, refl)

first_escalation :
    (escalate (new agents none none none) "db-worker" "slow" 2 5_000 5_000).1.target ≡ some lead
unfolding escalate new find get_escalation_chain get set
first_escalation = refl

third_escalation_trips : (escalate manager "db-worker" "slow" 5 2_000 2_000).1.circuit_broken ≡ true
unfolding escalate find get_escalation_chain get set
third_escalation_trips = refl

defaults_count : (get_stats manager 2_000).total_escalations ≡ 2
unfolding get_stats get set is_circuit_broken
defaults_count = refl

get_escalation_chain-walk_example :
    walk 5 agents "lead" [] (some "lead") ≡ some (get_escalation_chain agents "lead")
get_escalation_chain-walk_example = get_escalation_chain-walk agents "lead"

get_escalation_chain-IsPath_example :
    IsPath agents ("db-worker" ∷ []) "db-worker" (get_escalation_chain agents "db-worker")
unfolding get
get_escalation_chain-IsPath_example = get_escalation_chain-IsPath agents "db-worker" refl

abbrev attempts : List Attempt
attempts =
    record { reason = "a"; priority = 2; now = 1_500; later = 1_501 }
    ∷ record { reason = "b"; priority = 5; now = 90_000; later = 90_000 }
    ∷ []

passes-lt-threshold_example : passes manager "db-worker" attempts < 3
passes-lt-threshold_example =
    passes-lt-threshold manager "db-worker" 1_000 attempts (omega arith) (omega arith)

escalate_open_example :
    let (m, result) = escalate tripped "db-worker" "again" 5 2_000 2_000 in
    (result.target ≡ none)
    × (result.circuit_broken ≡ true)
    × (get m.records "db-worker" ≡ get tripped.records "db-worker")
    × (m.store ≡ tripped.store)
    × (m.master_escalation_count ≡ 0)
unfolding is_circuit_broken get
escalate_open_example = escalate_open tripped "db-worker" "again" 5 2_000 refl

lead-ne-worker : (let a : String = "lead" in a ≢ "db-worker")
lead-ne-worker = cc

escalate-IsAllowed_example :
    IsAllowed manager "lead" 4 (escalate manager "lead" "hard" 4 2_000 2_000).1.target
escalate-IsAllowed_example = escalate-IsAllowed manager "lead" "hard" 4 2_000 2_000

escalate-master_example : (4 ≤ 1) ⊎ IsTrusted manager "lead"
unfolding escalate find get_escalation_chain get set can_pass_tier_gate
escalate-master_example = escalate-master manager "lead" "hard" 1 2_000 2_000 cortex refl refl refl

escalate_unregistered_example : (escalate manager "worker" "slow" 5 2_000 2_000).1.target ≡ none
unfolding get
escalate_unregistered_example = escalate_unregistered manager "worker" "slow" 5 2_000 2_000 refl
