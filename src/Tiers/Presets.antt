-- ===== src/Tiers/Presets.antt =====
-- core/tier-registry.ts: the built-in tiers, and the registries that are made of them.
use ather.Base.{filter, includes, ℕ, String, Option, none, some, List, [], ◌∷◌}
use ather.Tiers.{TierDefinition, TierRegistry, GatePolicy, open_gate, priority_gate, from_json}

abbrev preset :
    String
    → ℕ
    → ℕ
    → String
    → List String
    → GatePolicy
    → Option ℕ
    → ℕ × ℕ × ℕ
    → List String
    → TierDefinition
preset name rank max_agents model targets gate_policy min_priority weights capabilities = record {
  name = name;
  rank = rank;
  max_agents = max_agents;
  model = ("claude", model);
  targets = targets;
  gate_policy = gate_policy;
  min_priority = min_priority;
  conflict = weights.0;
  rag_boost_tenths = weights.1;
  cost_multiplier = weights.2;
  capabilities = capabilities;
}

-- `BUILTIN_TIERS`.
abbrev pub builtin_presets : List TierDefinition
builtin_presets =
    preset "sentinel" 0 1 "opus" [] open_gate none (5, 20, 15)
      ("system_monitor" ∷ "constitutional_oversight" ∷ "force_kill" ∷ "health_ledger" ∷ [])
    ∷ preset "forge" 1 1 "opus" ("sentinel" ∷ []) open_gate none (4, 18, 12)
        ("spawn_agents" ∷ "retire_agents" ∷ "create_tiers" ∷ [])
    ∷ preset "master" 2 1 "opus" ("sentinel" ∷ []) priority_gate (some 4) (3, 15, 10) []
    ∷ preset "manager" 3 3 "sonnet" ("master" ∷ "sentinel" ∷ []) open_gate none (2, 12, 3) []
    ∷ preset "worker" 4 10 "haiku" ("manager" ∷ []) open_gate none (1, 10, 1) []
    ∷ []

-- `builtinTiers`.
abbrev pub builtin_tiers : TierRegistry
builtin_tiers = from_json builtin_presets

-- `classicTiers`.
abbrev pub classic_tiers : TierRegistry
classic_tiers =
    from_json (filter (λ t. includes ("master" ∷ "manager" ∷ "worker" ∷ []) t.name) builtin_presets)
