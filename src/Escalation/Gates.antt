-- ===== src/Escalation/Gates.antt =====
-- core/escalation.ts: who an escalation can reach.
use ather.Base.{
  leb, leb→le, Bool-cases, Option-cases, get, has, ℕ, ◌≤◌, String, ◌≡◌, refl, subst, ◌⊎◌, inl, inr,
  true, false, Option, none, some, List, [], ◌∷◌, arith, eq_iff,
}
use ather.Registry.Chain.{get_escalation_chain_unregistered}
use ather.Registry.{Agent, get_escalation_chain}
use ather.Escalation.{
  master_gate, record_escalation, current_record, count_in, open_record, is_circuit_broken,
  should_reach_master, default_gates, find, escalate, determine_target, EscalationManager, Gate,
  can_pass_tier_gate, consider, follow_chain,
}

-- The result names a target only as the rules allow: it is the first agent of the chain, and its
-- tier has no gate or one that lets the attempt pass.
abbrev pub IsAllowed : EscalationManager → String → ℕ → Option Agent → Type 0
IsAllowed m from p none = Unit
IsAllowed m from p (some a) =
    (rest : List Agent) × (get_escalation_chain m.registry from ≡ a ∷ rest)
    × ((get m.tier_gates a.tier ≡ none)
        ⊎ ((gate : Gate) × (get m.tier_gates a.tier ≡ some gate)
            × (can_pass_tier_gate m from p gate ≡ true)))

follow_chain-IsAllowed :
    (m : EscalationManager) (from reason : String) (p : ℕ) (chain : List Agent)
    → get_escalation_chain m.registry from ≡ chain
    → IsAllowed m from p (follow_chain m from reason p chain).1.target
unfolding follow_chain
follow_chain-IsAllowed m from reason p [] e = tt
follow_chain-IsAllowed m from reason p (a ∷ rest) e =
    elim (Option-cases (get m.tier_gates a.tier)) [
      | inl free ↦ rw (free, consider) (rest, e, inl free)
      | inr (gate, found) ↦ elim (Bool-cases (can_pass_tier_gate m from p gate)) [
        | inl pass ↦ rw (found, consider, pass) (rest, e, inr (gate, found, pass))
        | inr stop ↦ rw (found, consider, stop) tt
      ]
    ]

determine_target-IsAllowed :
    (m : EscalationManager) (from reason : String) (p : ℕ)
    → IsAllowed m from p (determine_target m from reason p).1.target
unfolding determine_target
determine_target-IsAllowed m from reason p = elim (Option-cases (find m.registry from)) [
  | inl e ↦ rw (e, determine_target) tt
  | inr (_, e) ↦
      rw (e, determine_target)
        (follow_chain-IsAllowed m from reason p (get_escalation_chain m.registry from) refl)
]

-- A target that `escalate` names is the first agent of the chain, and its tier has no gate, or one
-- that lets this source and priority pass.
pub escalate-IsAllowed :
    (m : EscalationManager) (from reason : String) (p now later : ℕ)
    → IsAllowed m from p (escalate m from reason p now later).1.target
unfolding escalate can_pass_tier_gate
escalate-IsAllowed m from reason p now later =
    elim (Bool-cases (is_circuit_broken (open_record m from now) from later)) [
      | inl broken ↦ rw (broken, escalate) tt
      | inr closed ↦
          elim (Bool-cases (
            leb m.circuit_breaker_threshold
              (count_in (current_record m from now) reason now).count)) [
                | inl full ↦ rw (closed, escalate, full) tt
                | inr free ↦
                    rw (closed, escalate, free)
                      (determine_target-IsAllowed (record_escalation m from reason now) from reason
                        p)
              ]
    ]

-- The source is registered, and of a tier that may pass the gate of the master tier.
abbrev pub IsTrusted : EscalationManager → String → Type 0
IsTrusted m from =
    (a : Agent) × (find m.registry from ≡ some a)
    × ((a.tier ≡ "manager") ⊎ (a.tier ≡ "forge") ⊎ (a.tier ≡ "sentinel"))

get-default_gates : get default_gates "master" ≡ some master_gate
unfolding get
get-default_gates = refl

can_pass_tier_gate-master :
    (m : EscalationManager) (from : String) (p : ℕ)
    → can_pass_tier_gate m from p master_gate ≡ true
    → (4 ≤ p) ⊎ IsTrusted m from
unfolding can_pass_tier_gate
can_pass_tier_gate-master m from p h = elim (Option-cases (find m.registry from)) [
  | inl e ↦ ground (arith, e)
  | inr (a, e) ↦ elim (Bool-cases (leb 4 p)) [
    | inl high ↦ inl (leb→le 4 p high)
    | inr low ↦ inr (
      a,
      e,
      ground (arith, e, eq_iff "manager" a.tier, eq_iff "forge" a.tier, eq_iff "sentinel" a.tier),
    )
  ]
]

-- Under the default gates the master is reached only with priority 4 or more, or from a registered
-- manager, forge or sentinel.
pub escalate-master :
    (m : EscalationManager) (from reason : String) (p now later : ℕ) (a : Agent)
    → m.tier_gates ≡ default_gates
    → (escalate m from reason p now later).1.target ≡ some a
    → a.tier ≡ "master"
    → (4 ≤ p) ⊎ IsTrusted m from
escalate-master m from reason p now later a gates reached tier =
    let allowed : IsAllowed m from p (some a) =
      subst (IsAllowed m from p) reached (escalate-IsAllowed m from reason p now later) in
    elim allowed.2 [
      | inl free ↦ cc get-default_gates
      | inr (gate, found, pass) ↦ can_pass_tier_gate-master m from p (cc get-default_gates)
    ]

-- A registered agent of the forge tier reaches the master gate at every priority.
pub should_reach_master_forge :
    (m : EscalationManager) (from : String) (a : Agent) (p : ℕ)
    → m.tier_gates ≡ default_gates
    → find m.registry from ≡ some a
    → a.tier ≡ "forge"
    → should_reach_master m from p ≡ true
unfolding should_reach_master get
should_reach_master_forge m from a p gates known tier = ground (
  arith,
  known,
  tier,
  gates,
  eq_iff "manager" a.tier,
  eq_iff "forge" a.tier,
  eq_iff "sentinel" a.tier,
)

-- An id that is no key of the registry never gets a target, also where the registry's lookup answers
-- for it by suffix.
pub escalate_unregistered :
    (m : EscalationManager) (from reason : String) (p now later : ℕ)
    → has m.registry from ≡ false
    → (escalate m from reason p now later).1.target ≡ none
unfolding escalate determine_target
escalate_unregistered m from reason p now later unknown =
    ground (arith, get_escalation_chain_unregistered m.registry from unknown)
