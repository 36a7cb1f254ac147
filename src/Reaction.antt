-- ===== src/Reaction.antt =====
-- core/reaction-engine.ts: `ReactionEngine`. One round of the loop of `processMessage` runs from a
-- reading of the clock to the wait for the action; the rounds of several messages may alternate.
pub mod Firing
pub mod Tests
use ather.Base.{
  ltb, leb, ◌===◌, if◌then◌else◌, is_some, length, drop, Map, get, set, delete, has, keys,
  starts_with, strip_suffix, trim, split, split_first, ℕ, ◌+◌, ◌-◌, String, Bool, true, false, ◌&&◌,
  ◌||◌, not, Option, none, some, List, [], ◌∷◌, ◌++◌, map,
}

-- A JSON value. A primitive stands as the text that `String` gives for it.
mutual
  pub data Value : Type 0 where
    null undefined : Value
    primitive : String → Value
    object : Fields → Value

  pub data Fields : Type 0 where
    empty : Fields
    field : String → Value → Fields → Fields

-- `HighwayMessage`, with the fields that the engine names; `value` is the message as an object.
pub record HighwayMessage : Type 0 where
  pub channel : String
  pub type : String
  pub value : Value

pub data ActionType : Type 0 where
  execute_task execute_workflow notify custom : ActionType

-- `ReactionRule`.
pub record ReactionRule : Type 0 where
  pub id : String
  pub channel : String
  pub message_type : Option String
  pub condition : Option String
  pub action : ActionType
  pub target : Option String
  pub task_template : Option String
  pub cooldown_ms : ℕ
  pub max_fires : ℕ
  pub enabled : Bool

-- One of the checks that a condition is compiled to.
pub record Check : Type 0 where
  pub path : String
  pub value : String

pub record RuleState : Type 0 where
  pub rule : ReactionRule
  pub last_fired_at : ℕ
  pub fire_count : ℕ
  pub condition_fn : Option (List Check)

pub data SkippedReason : Type 0 where
  cooldown : (remaining : ℕ) → SkippedReason
  max_fires_reached : (fires limit : ℕ) → SkippedReason

pub record ReactionResult : Type 0 where
  pub rule_id : String
  pub fired : Bool
  pub action : ActionType
  pub target : Option String
  pub skipped_reason : Option SkippedReason

pub record ReactionEngine : Type 0 where
  pub rules : Map RuleState
  pub running : Bool
  pub reaction_log : List ReactionResult

abbrev pub max_log_size : ℕ
max_log_size = 100

-- The loop of `compileCondition` over the parts.
abbrev add_check : Option (String × String) → List Check → List Check
add_check none checks = checks
add_check (some (path, value)) checks = record { path = trim path; value = trim value } ∷ checks

abbrev checks_of : List String → List Check
checks_of [] = []
checks_of (part ∷ parts) = add_check (split_first b':' (trim part)) (checks_of parts)

-- `compileCondition`.
unfoldable pub compile_condition : String → List Check
compile_condition condition = checks_of (split b',' condition)

-- `object[key]`.
abbrev field_of : Fields → String → Value
field_of empty key = undefined
field_of (field k v fields) key = if k === key then v else field_of fields key

-- The loop of `getNestedValue`. A primitive has no fields, and neither has null.
abbrev nested : Value → List String → Value
nested v [] = v
nested (object fields) (part ∷ parts) = nested (field_of fields part) parts
nested v (part ∷ parts) = undefined

-- `getNestedValue`.
abbrev get_nested_value : Value → String → Value
get_nested_value v path = nested v (split b'.' path)

-- `String(value)`.
abbrev to_text : Value → String
to_text null = "null"
to_text undefined = "undefined"
to_text (primitive s) = s
to_text (object _) = "[object Object]"

-- The function that `compileCondition` returns.
abbrev holds : List Check → HighwayMessage → Bool
holds [] m = true
holds (c ∷ checks) m = (to_text (get_nested_value m.value c.path) === c.value) && holds checks m

-- `channelMatches`.
unfoldable pub channel_matches : String → String → Bool
channel_matches pattern channel =
    (pattern === "*")
    || (pattern === channel)
    || elim (strip_suffix ".*" pattern) [ none ↦ false | some prefix ↦ starts_with channel prefix ]

-- `if (text)`: an empty text counts as none.
abbrev pub present : Option String → Option String
present none = none
present (some s) = if s === "" then none else some s

-- `addRule`.
abbrev pub add_rule : ReactionRule → ReactionEngine → ReactionEngine
add_rule rule e = record e {
  rules = set e.rules rule.id (record {
    rule = rule;
    last_fired_at = 0;
    fire_count = 0;
    condition_fn = elim (present rule.condition) [
      | none ↦ none
      | some c ↦ some (compile_condition c)
    ];
  });
}

-- `removeRule`.
abbrev pub remove_rule : String → ReactionEngine → ReactionEngine × Bool
remove_rule id e = (record e { rules = delete e.rules id }, has e.rules id)

-- `setRuleEnabled`.
abbrev pub set_rule_enabled : String → Bool → ReactionEngine → ReactionEngine
set_rule_enabled id enabled e = elim (get e.rules id) [
  | none ↦ e
  | some s ↦ record e {
    rules = set e.rules id (record s { rule = record (s.rule) { enabled = enabled } });
  }
]

-- `start`, `stop` and `resetCounters`.
abbrev pub start : ReactionEngine → ReactionEngine
start e = record e { running = true }

abbrev pub stop : ReactionEngine → ReactionEngine
stop e = record e { running = false }

abbrev reset_state : RuleState → RuleState
reset_state s = record s { last_fired_at = 0; fire_count = 0 }

abbrev pub reset_counters : ReactionEngine → ReactionEngine
reset_counters e = record e { rules = map (λ entry. (entry.0, reset_state entry.1)) e.rules }

-- `logReaction`: the log is cut to its newest entries.
abbrev pub log_reaction : ReactionResult → List ReactionResult → List ReactionResult
log_reaction r log = let longer = log ++ (r ∷ []) in drop (length longer - max_log_size) longer

-- The tests of `processMessage` before the cooldown.
unfoldable pub is_triggered : RuleState → HighwayMessage → Bool
unfolding channel_matches
is_triggered s m =
    s.rule.enabled
    && channel_matches s.rule.channel m.channel
    && elim (present s.rule.message_type) [ none ↦ true | some t ↦ t === m.type ]
    && elim s.condition_fn [ none ↦ true | some checks ↦ holds checks m ]

-- What a round does with a triggered rule: it is skipped, or it fires.
abbrev reason_to_skip : RuleState → ℕ → Option SkippedReason
reason_to_skip s now =
    if ltb 0 s.rule.cooldown_ms
      && ltb 0 s.last_fired_at
      && ltb (now - s.last_fired_at) s.rule.cooldown_ms
    then some (cooldown (s.rule.cooldown_ms - (now - s.last_fired_at)))
    else if ltb 0 s.rule.max_fires && leb s.rule.max_fires s.fire_count
    then some (max_fires_reached s.fire_count s.rule.max_fires)
    else none

abbrev result_of : String → RuleState → Option SkippedReason → ReactionResult
result_of id s reason = record {
  rule_id = id;
  fired = not (is_some reason);
  action = s.rule.action;
  target = s.rule.target;
  skipped_reason = reason;
}

abbrev fire : RuleState → ℕ → RuleState
fire s now = record s { last_fired_at = now; fire_count = s.fire_count + 1 }

-- One round of the loop of `processMessage`, up to the action; it tells whether the rule fired.
unfoldable pub process_rule : String → HighwayMessage → ℕ → ReactionEngine → ReactionEngine × Bool
unfolding is_triggered
process_rule id m now e = elim (get e.rules id) [
  | none ↦ (e, false)
  | some s ↦ elim (is_triggered s m) [
    | false ↦ (e, false)
    | true ↦ elim (reason_to_skip s now) [
      | some reason ↦ (
        record e { reaction_log = log_reaction (result_of id s (some reason)) e.reaction_log },
        false,
      )
      | none ↦ (
        record e {
          rules = set e.rules id (fire s now);
          reaction_log = log_reaction (result_of id s none) e.reaction_log;
        },
        true,
      )
    ]
  ]
]

-- The loop of `processMessage` over the rules that stand there, with the clock of each round.
pub process_rules : List String → HighwayMessage → (String → ℕ) → ReactionEngine → ReactionEngine
process_rules [] m clock e = e
process_rules (id ∷ ids) m clock e = process_rules ids m clock (process_rule id m (clock id) e).0

-- `processMessage`.
abbrev pub process_message : HighwayMessage → (String → ℕ) → ReactionEngine → ReactionEngine
process_message m clock e = process_rules (keys e.rules) m clock e

-- `taskFailureRule`, with the threshold given.
abbrev pub task_failure_rule : String → ℕ → Option String → ReactionRule
task_failure_rule id failure_threshold target_agent = record {
  id = id;
  channel = "results";
  message_type = some "result";
  condition = some "payload.status:failed";
  action = execute_task;
  target = target_agent;
  task_template = some "Investigate and fix the recurring failure";
  cooldown_ms = 30000;
  max_fires = failure_threshold;
  enabled = true;
}

-- `postReviewTestRule`.
abbrev pub post_review_test_rule : String → ReactionRule
post_review_test_rule id = record {
  id = id;
  channel = "results";
  message_type = some "result";
  condition = some "payload.taskType:review";
  action = execute_task;
  target = none;
  task_template = some "Run the test suite and report results";
  cooldown_ms = 60000;
  max_fires = 0;
  enabled = true;
}
