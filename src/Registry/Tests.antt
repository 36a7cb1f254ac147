-- ===== src/Registry/Tests.antt =====
-- core/registry.ts: tests and examples of registration.
use ather.Base.{get, set, ◌≡◌, refl, none, some, [], ◌∷◌}
use ather.Registry.{idle}
use ather.Registry.Index.{
  AgentDefinition, AgentRegistry, register, unregister, add_to_buckets, index_agent,
}
use ather.Registry.Registration.{IsIndexed, register-IsIndexed, unregister-IsIndexed}

abbrev agent : AgentDefinition
agent = record {
  id = "scanner";
  tier = "worker";
  status = idle;
  sections = "SECURITY" ∷ [];
  capabilities = "scan" ∷ [];
}

abbrev empty : AgentRegistry
empty = record { agents = []; section_index = []; capability_index = []; tier_index = [] }

abbrev registered : AgentRegistry
registered = record {
  agents = ("scanner", agent) ∷ [];
  section_index = ("SECURITY", "scanner" ∷ []) ∷ [];
  capability_index = ("scan", "scanner" ∷ []) ∷ [];
  tier_index = ("worker", "scanner" ∷ []) ∷ [];
}

abbrev empty_IsIndexed : IsIndexed (λ s. s) empty
unfolding get
empty_IsIndexed = record { sections = λ s j. refl; capabilities = λ s j. refl; tiers = λ s j. refl }

registers : register (λ s. s) agent empty ≡ some registered
unfolding register index_agent add_to_buckets get set
registers = refl

register-IsIndexed_example : IsIndexed (λ s. s) registered
unfolding register index_agent add_to_buckets get set
register-IsIndexed_example = register-IsIndexed (λ s. s) agent empty registered empty_IsIndexed refl

abbrev registered_IsIndexed : IsIndexed (λ s. s) registered
registered_IsIndexed = register-IsIndexed (λ s. s) agent empty registered empty_IsIndexed registers

unregister-IsIndexed_example :
    let out = (unregister (λ s. s) "scanner" registered).0 in
    IsIndexed (λ s. s) out × (get out.agents "scanner" ≡ none)
unregister-IsIndexed_example =
    unregister-IsIndexed (λ s. s) "scanner" registered registered_IsIndexed
