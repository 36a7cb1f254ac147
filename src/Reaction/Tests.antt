-- ===== src/Reaction/Tests.antt =====
-- core/reaction-engine.ts: tests and examples on a rule that fires at most twice, with a cooldown.
use ather.Base.{length, get, set, ℕ, ◌+◌, ◌≤◌, ◌≡◌, refl, true, none, some, List, [], ◌∷◌, arith}
use ather.Reaction.{
  primitive, object, empty, field, HighwayMessage, ReactionRule, RuleState, ReactionEngine,
  channel_matches, compile_condition, process_rule, add_rule, task_failure_rule,
}
use ather.Reaction.Firing.{Round, fires, fires-le, IsSpaced, fires-IsSpaced}

abbrev message : HighwayMessage
message = record {
  channel = "results";
  type = "result";
  value = object (field "payload" (object (field "status" (primitive "failed") empty)) empty);
}

abbrev rule : ReactionRule
rule = task_failure_rule "watch" 2 none

abbrev engine : ReactionEngine
engine = add_rule rule (record { rules = []; running = true; reaction_log = [] })

abbrev round_at : ℕ → Round
round_at t = record { rule_id = "watch"; message = message; now = t }

abbrev rounds : List Round
rounds = round_at 1000 ∷ round_at 9000 ∷ round_at 40000 ∷ round_at 90000 ∷ []

-- The second round falls into the cooldown, the fourth exceeds the limit.
fires_twice : fires "watch" rounds engine ≡ 1000 ∷ 40000 ∷ []
unfolding fires process_rule compile_condition get set
fires_twice = refl

-- A prefix pattern also matches a channel whose name only starts with the same letters.
matches_longer_name : channel_matches "tasks.*" "tasksheet" ≡ true
unfolding channel_matches
matches_longer_name = refl

abbrev watched : RuleState
watched = record {
  rule = rule;
  last_fired_at = 0;
  fire_count = 0;
  condition_fn = some (record { path = "payload.status"; value = "failed" } ∷ []);
}

fires-le_example : 0 + length (fires "watch" rounds engine) ≤ 2
unfolding get set compile_condition
fires-le_example = fires-le "watch" rounds engine watched refl (omega arith) (omega arith)

fires-IsSpaced_example : IsSpaced 30000 0 (fires "watch" rounds engine)
unfolding get set compile_condition
fires-IsSpaced_example = fires-IsSpaced "watch" rounds engine watched refl (omega arith)
