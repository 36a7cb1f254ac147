-- ===== src/Registry/Registration.antt =====
-- core/registry.ts: the indexes of a registry under `register` and `unregister`.
use ather.Base.{
  Bool-cases, Option-cases, get, has, get-delete, String, ◌≡◌, refl, subst, ◌∙◌, inl, inr, none,
  some, [], ◌∷◌, arith, eq_refl,
}
use ather.Registry.Index.{
  AgentDefinition, AgentRegistry, capability_keys, index_agent, register, unregister,
}
use ather.Registry.Exact.{
  IsExact, add-IsExact, remove-IsExact, bucket-remove_from_buckets, bucket-remove_from_capabilities,
}

module _ (to_lower_case : String → String) where
  -- Each index lists under each key the registered agents with that key.
  pub record IsIndexed (r : AgentRegistry) : Type 0 where
    pub sections : IsExact (λ a. a.sections) r.agents r.section_index
    pub capabilities : IsExact (capability_keys to_lower_case) r.agents r.capability_index
    pub tiers : IsExact (λ a. a.tier ∷ []) r.agents r.tier_index

  -- `register` keeps the three indexes exact, when it does not throw. Lower case may be any function.
  pub register-IsIndexed :
      (a : AgentDefinition) (r r' : AgentRegistry)
      → IsIndexed r
      → register to_lower_case a r ≡ some r'
      → IsIndexed r'
  unfolding register index_agent
  register-IsIndexed a r r' v e = elim (Bool-cases (has r.agents a.id)) [
    | inl taken ↦ absurd (ground (arith, e, taken))
    | inr new ↦
        let same : index_agent to_lower_case a r ≡ r' = ground (arith, e, new) in
        subst IsIndexed same (record {
          sections = add-IsExact (λ b. b.sections) r.agents r.section_index a new v.sections;
          capabilities =
              add-IsExact (capability_keys to_lower_case) r.agents r.capability_index a new
                v.capabilities;
          tiers = add-IsExact (λ b. b.tier ∷ []) r.agents r.tier_index a new v.tiers;
        })
  ]

  -- `unregister` keeps the three indexes exact, for every id, and afterwards no agent has the id.
  -- Lower case may be any function.
  pub unregister-IsIndexed :
      (id : String) (r : AgentRegistry)
      → IsIndexed r
      → let out = (unregister to_lower_case id r).0 in IsIndexed out × (get out.agents id ≡ none)
  unfolding unregister
  unregister-IsIndexed id r v = elim (Option-cases (get r.agents id)) [
    | inl nothing ↦ rw (nothing, unregister) (v, nothing)
    | inr (a, there) ↦
        rw (there, unregister)
          (
            record {
              sections =
                  remove-IsExact (λ b. b.sections) r.agents r.section_index _ id a there v.sections
                    (bucket-remove_from_buckets a.sections r.section_index id);
              capabilities =
                  remove-IsExact (capability_keys to_lower_case) r.agents r.capability_index _ id a
                    there v.capabilities
                    (bucket-remove_from_capabilities (capability_keys to_lower_case a)
                      r.capability_index id);
              tiers =
                  remove-IsExact (λ b. b.tier ∷ []) r.agents r.tier_index _ id a there v.tiers
                    (bucket-remove_from_buckets (a.tier ∷ []) r.tier_index id);
            },
            get-delete r.agents id id ∙ rw eq_refl refl,
          )
  ]
