-- ===== src/Tiers/Tests.antt =====
-- core/tier-registry.ts: tests and examples on the built-in tiers.
use ather.Base.{get, set, delete, ℕ, ◌≤◌, String, ◌≡◌, refl, false, none, some, List, [], ◌∷◌}
use ather.Tiers.{
  TierDefinition, TierRegistry, open_gate, can_escalate_to, get_top_tier, register_tier,
  unregister_tier, insert_by_rank, sort_by_rank, check_ranks, check_targets, check_circles,
  check_agents, validate_tiers, from_json, empty_registry,
}
use ather.Tiers.Presets.{builtin_tiers, classic_tiers}
use ather.Tiers.Order.{Call, registered, unregistered, run, step, get_top_tier-le}
use ather.Tiers.Checks.{IsConsistent, validate_tiers-IsConsistent}

builtin_valid : validate_tiers builtin_tiers ≡ []
unfolding validate_tiers check_ranks check_targets check_circles check_agents register_tier
    sort_by_rank insert_by_rank get set
builtin_valid = refl

validate_tiers-IsConsistent_example : IsConsistent builtin_tiers
unfolding register_tier sort_by_rank insert_by_rank get set
validate_tiers-IsConsistent_example = validate_tiers-IsConsistent builtin_tiers refl builtin_valid

classic_top : get_top_tier classic_tiers ≡ "master"
unfolding get_top_tier register_tier sort_by_rank insert_by_rank get set
classic_top = refl

-- A worker cannot pass over the managers.
worker_to_master : can_escalate_to "worker" "master" 5 builtin_tiers ≡ false
unfolding can_escalate_to register_tier sort_by_rank insert_by_rank get set
worker_to_master = refl

abbrev with_targets : String → ℕ → List String → TierDefinition
with_targets name rank targets = record {
  name = name;
  rank = rank;
  max_agents = 1;
  model = ("claude", "haiku");
  targets = targets;
  gate_policy = open_gate;
  min_priority = none;
  conflict = 1;
  rag_boost_tenths = 10;
  cost_multiplier = 1;
  capabilities = [];
}

-- "lead" and "aide" escalate to each other, but not by their first targets only.
abbrev hidden_circle : TierRegistry
hidden_circle = from_json (
    with_targets "top" 0 []
    ∷ with_targets "lead" 1 ("top" ∷ "aide" ∷ [])
    ∷ with_targets "aide" 2 ("lead" ∷ [])
    ∷ [])

circle_missed : validate_tiers hidden_circle ≡ []
unfolding validate_tiers check_ranks check_targets check_circles check_agents register_tier
    sort_by_rank insert_by_rank get set
circle_missed = refl

abbrev tier_calls : List Call
tier_calls =
    registered (with_targets "lead" 1 [])
    ∷ registered (with_targets "top" 0 [])
    ∷ registered (with_targets "aide" 2 [])
    ∷ unregistered "top"
    ∷ []

get_top_tier-le_example :
    (top : TierDefinition) × (get
        (run tier_calls empty_registry).tiers
        (get_top_tier (run tier_calls empty_registry))
      ≡ some top)
    × (top.rank ≤ 2)
unfolding run step register_tier unregister_tier sort_by_rank insert_by_rank get set delete
get_top_tier-le_example = get_top_tier-le tier_calls "aide" (with_targets "aide" 2 []) refl
