-- ===== src/Reaction/Firing.antt =====
-- core/reaction-engine.ts: how often a rule fires, and when.
use ather.Base.{
  ◌===◌, if◌then◌else◌, Bool-cases, Option-cases, ===-eq, length, get, set, get-set, ℕ, ◌+◌, ◌≤◌,
  ◌<◌, String, ◌≡◌, refl, sym, ap, subst, ◌∙◌, ◌⊎◌, inl, inr, Bool, true, false, ◌&&◌, none, some,
  List, [], ◌∷◌, arith,
}
use ather.Reaction.{
  HighwayMessage, RuleState, ReactionEngine, ReactionResult, result_of, log_reaction, is_triggered,
  reason_to_skip, fire, process_rule,
}

-- A round of the loop for some message, at a reading of the clock.
pub record Round : Type 0 where
  pub rule_id : String
  pub message : HighwayMessage
  pub now : ℕ

abbrev pub run_round : Round → ReactionEngine → ReactionEngine × Bool
run_round r e = process_rule r.rule_id r.message r.now e

-- The times at which a rule fires in a sequence of rounds.
unfoldable pub fires : String → List Round → ReactionEngine → List ℕ
fires id [] e = []
fires id (r ∷ rounds) e =
    let out = run_round r e in
    let rest = fires id rounds out.0 in if out.1 && (r.rule_id === id) then r.now ∷ rest else rest

-- A rule that fires has room below its limit, and its cooldown is over.
record MayFire (s : RuleState) (now : ℕ) : Type 0 where
  room : 0 < s.rule.max_fires → s.fire_count < s.rule.max_fires
  rested : 0 < s.rule.cooldown_ms → 0 < s.last_fired_at → s.last_fired_at + s.rule.cooldown_ms ≤ now

reason_to_skip-none : (s : RuleState) (now : ℕ) → reason_to_skip s now ≡ none → MayFire s now
reason_to_skip-none s now h = record {
  room = λ k. ground (arith, h, k);
  rested = λ k l. ground (arith, h, k, l);
}

-- What one round does to the state of a rule.
abbrev After : String → Round → ReactionEngine × Bool → RuleState → Type 0
After id r out s =
    ((out.1 && (r.rule_id === id)) ≡ true)
      × MayFire s r.now
      × (get out.0.rules id ≡ some (fire s r.now))
    ⊎ ((out.1 && (r.rule_id === id)) ≡ false) × (get out.0.rules id ≡ some s)

fired-After :
    (id : String) (r : Round) (e : ReactionEngine) (s t : RuleState) (log : List ReactionResult)
    → get e.rules id ≡ some s
    → get e.rules r.rule_id ≡ some t
    → reason_to_skip t r.now ≡ none
    → After id r
        (record e { rules = set e.rules r.rule_id (fire t r.now); reaction_log = log }, true)
        s
fired-After id r e s t log there found free = elim (Bool-cases (r.rule_id === id)) [
  | inl same ↦
      let key : r.rule_id ≡ id = ===-eq r.rule_id id same in
      let state : t ≡ s = cc (sym found ∙ ap (get e.rules) key ∙ there) in
      inl (
        ground (arith, same),
        subst (λ x. MayFire x r.now) state (reason_to_skip-none t r.now free),
        get-set e.rules r.rule_id id (fire t r.now) ∙ rw same (ap (λ x. some (fire x r.now)) state),
      )
  | inr other ↦
      inr (ground (arith, other), get-set e.rules r.rule_id id (fire t r.now) ∙ rw other there)
]

run_round-After :
    (id : String) (r : Round) (e : ReactionEngine) (s : RuleState)
    → get e.rules id ≡ some s
    → After id r (run_round r e) s
unfolding process_rule
run_round-After id r e s there = elim (Option-cases (get e.rules r.rule_id)) [
  | inl nothing ↦ rw (nothing, process_rule) (inr (refl, there))
  | inr (t, found) ↦ elim (Bool-cases (is_triggered t r.message)) [
    | inr quiet ↦ rw (found, process_rule, quiet) (inr (refl, there))
    | inl triggered ↦ elim (Option-cases (reason_to_skip t r.now)) [
      | inr (reason, skipped) ↦ rw (found, process_rule, triggered, skipped) (inr (refl, there))
      | inl free ↦
          rw (found, process_rule, triggered, free)
            (fired-After id r e s t (log_reaction (result_of r.rule_id t none) e.reaction_log) there
              found free)
    ]
  ]
]

-- In any sequence of rounds, of any messages in any order, a rule with a limit fires at most as often
-- as the limit leaves.
pub fires-le :
    (id : String) (rounds : List Round) (e : ReactionEngine) (s : RuleState)
    → get e.rules id ≡ some s
    → 0 < s.rule.max_fires
    → s.fire_count ≤ s.rule.max_fires
    → s.fire_count + length (fires id rounds e) ≤ s.rule.max_fires
unfolding fires
fires-le id [] e s there limited h = omega (arith, h)
fires-le id (r ∷ rounds) e s there limited h = elim (run_round-After id r e s there) [
  | inl (fired, may, next) ↦
      let rest =
        fires-le id rounds (run_round r e).0 (fire s r.now) next limited
          (omega (arith, may.room limited)) in
      rw fired (omega (arith, rest))
  | inr (quiet, next) ↦ rw quiet (fires-le id rounds (run_round r e).0 s next limited h)
]

-- Each time is a cooldown or more after the one before it. The time 0 stands for none.
abbrev pub IsSpaced : ℕ → ℕ → List ℕ → Type 0
IsSpaced cooldown last [] = Unit
IsSpaced cooldown last (t ∷ times) = (0 < last → last + cooldown ≤ t) × IsSpaced cooldown t times

-- In any sequence of rounds the firings of a rule with a cooldown lie at least the cooldown apart,
-- also if the clock goes back.
pub fires-IsSpaced :
    (id : String) (rounds : List Round) (e : ReactionEngine) (s : RuleState)
    → get e.rules id ≡ some s
    → 0 < s.rule.cooldown_ms
    → IsSpaced s.rule.cooldown_ms s.last_fired_at (fires id rounds e)
unfolding fires
fires-IsSpaced id [] e s there cooling = tt
fires-IsSpaced id (r ∷ rounds) e s there cooling = elim (run_round-After id r e s there) [
  | inl (fired, may, next) ↦
      rw fired
        (may.rested cooling, fires-IsSpaced id rounds (run_round r e).0 (fire s r.now) next cooling)
  | inr (quiet, next) ↦ rw quiet (fires-IsSpaced id rounds (run_round r e).0 s next cooling)
]
