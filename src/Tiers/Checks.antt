-- ===== src/Tiers/Checks.antt =====
-- core/tier-registry.ts: what a registry that `validate` accepts is like.
use ather.Base.{
  ◌===◌, Bool-cases, includes, Map, get, has, keys, ℕ, ◌≤◌, String, ◌≡◌, refl, sym, ap, ◌∙◌, ◌≢◌,
  inl, inr, true, false, none, some, List, [], ◌∷◌, ◌++◌, arith, eq_iff,
}
use ather.Tiers.{
  check_circles, validate_tiers, TierDefinition, TierRegistry, TierError, rank_holder, truthy,
  check_ranks, check_target_list, check_targets, check_agents,
}

-- Every tier has an agent, its targets are tiers, and no two tiers have one rank.
pub record IsConsistent (r : TierRegistry) : Type 0 where
  pub some_agents :
      (name : String) (d : TierDefinition) → get r.tiers name ≡ some d → 1 ≤ d.max_agents
  pub known_targets :
      (name : String) (d : TierDefinition) (target : String)
      → get r.tiers name ≡ some d
      → includes d.targets target ≡ true
      → has r.tiers target ≡ true
  pub own_rank :
      (a b : String) (d e : TierDefinition)
      → get r.tiers a ≡ some d
      → get r.tiers b ≡ some e
      → d.rank ≡ e.rank
      → a ≡ b

append-[] : (xs ys : List TierError) → xs ++ ys ≡ [] → (xs ≡ []) × (ys ≡ [])
append-[] [] ys h = (refl, h)
append-[] (x ∷ xs) ys h = absurd (cc h)

check_agents-le :
    (entries : Map TierDefinition) (name : String) (d : TierDefinition)
    → check_agents entries ≡ []
    → get entries name ≡ some d
    → 1 ≤ d.max_agents
unfolding check_agents get
check_agents-le [] name d h e = absurd (cc e)
check_agents-le ((m, c) ∷ entries) name d h e = ground (arith, h, e, check_agents-le entries name d)

check_target_list-has :
    (tiers : Map TierDefinition) (name : String) (targets : List String) (target : String)
    → check_target_list tiers name targets ≡ []
    → includes targets target ≡ true
    → has tiers target ≡ true
check_target_list-has tiers name [] target h e = absurd (cc e)
check_target_list-has tiers name (t ∷ targets) target h e =
    ground (arith, h, e, eq_iff t target, check_target_list-has tiers name targets target)

check_targets-has :
    (tiers entries : Map TierDefinition) (name : String) (d : TierDefinition) (target : String)
    → check_targets tiers entries ≡ []
    → get entries name ≡ some d
    → includes d.targets target ≡ true
    → has tiers target ≡ true
unfolding check_targets get
check_targets-has tiers [] name d target h e i = absurd (cc e)
check_targets-has tiers ((m, c) ∷ entries) name d target h e i =
    let parts = append-[] (check_target_list tiers m c.targets) (check_targets tiers entries) h in
    elim (Bool-cases (m === name)) [
      | inl q ↦
          let same : some c ≡ some d = ground (arith, e, q) in
          let listed : c.targets ≡ d.targets = ground (arith, same) in
          check_target_list-has tiers m c.targets target parts.0
            (ap (λ ts. includes ts target) listed ∙ i)
      | inr q ↦ check_targets-has tiers entries name d target parts.1 (ground (arith, e, q)) i
    ]

-- No rank of the entries was seen before.
check_ranks-fresh :
    (seen : List (ℕ × String)) (entries : Map TierDefinition) (name : String) (d : TierDefinition)
    → has entries "" ≡ false
    → check_ranks seen entries ≡ []
    → get entries name ≡ some d
    → truthy (rank_holder seen d.rank) ≡ none
unfolding check_ranks get
check_ranks-fresh seen [] name d named h e = absurd (cc e)
check_ranks-fresh seen ((m, c) ∷ entries) name d named h e =
    ground (arith, named, h, e, check_ranks-fresh ((c.rank, m) ∷ seen) entries name d)

-- A later entry has another rank than the first one.
check_ranks-later :
    (seen : List (ℕ × String)) (m : String) (c : TierDefinition) (entries : Map TierDefinition)
    (name : String) (d : TierDefinition)
    → has ((m, c) ∷ entries) "" ≡ false
    → check_ranks seen ((m, c) ∷ entries) ≡ []
    → get entries name ≡ some d
    → c.rank ≢ d.rank
unfolding check_ranks get
check_ranks-later seen m c entries name d named h e same =
    let fresh =
      check_ranks-fresh ((c.rank, m) ∷ seen) entries name d (ground (arith, named))
        (ground (arith, h)) e in
    ground (arith, fresh, same, named)

check_ranks-eq :
    (seen : List (ℕ × String)) (entries : Map TierDefinition) (a b : String) (d e : TierDefinition)
    → has entries "" ≡ false
    → check_ranks seen entries ≡ []
    → get entries a ≡ some d
    → get entries b ≡ some e
    → d.rank ≡ e.rank
    → a ≡ b
unfolding check_ranks get
check_ranks-eq seen [] a b d e named h there too same = absurd (cc there)
check_ranks-eq seen ((m, c) ∷ entries) a b d e named h there too same =
    let later = check_ranks-later seen m c entries in
    elim (Bool-cases (m === a)) [
      | inl p ↦ elim (Bool-cases (m === b)) [
        | inl q ↦ sym ((eq_iff m a).0 p) ∙ (eq_iff m b).0 q
        | inr q ↦
            absurd (later b e named h (ground (arith, too, q)) (ground (arith, there, p, same)))
      ]
      | inr p ↦ elim (Bool-cases (m === b)) [
        | inl q ↦
            absurd (later a d named h (ground (arith, there, p)) (ground (arith, too, q, same)))
        | inr q ↦
            check_ranks-eq ((c.rank, m) ∷ seen) entries a b d e (ground (arith, named))
              (ground (arith, h)) (ground (arith, there, p)) (ground (arith, too, q)) same
      ]
    ]

-- When `validate` finds no error, and no tier has the empty name, every tier allows an agent, every
-- escalation target is a tier, and two tiers with one rank are the same.
pub validate_tiers-IsConsistent :
    (r : TierRegistry) → has r.tiers "" ≡ false → validate_tiers r ≡ [] → IsConsistent r
unfolding validate_tiers
validate_tiers-IsConsistent r named h =
    let (ranks, others) = append-[] (check_ranks [] r.tiers) _ h in
    let (targets, rest) = append-[] (check_targets r.tiers r.tiers) _ others in
    let (circles, agents) =
      append-[] (check_circles (keys r.tiers) r) (check_agents r.tiers) rest in
    record {
      some_agents = λ name d. check_agents-le r.tiers name d agents;
      known_targets = λ name d target. check_targets-has r.tiers r.tiers name d target targets;
      own_rank = λ a b d e. check_ranks-eq [] r.tiers a b d e named ranks;
    }
