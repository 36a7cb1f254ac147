-- ===== src/Tiers.antt =====
-- core/tier-registry.ts: `TierRegistry`. Ranks are natural numbers, as in every preset; the boost of
-- searches is kept in tenths, and what is only displayed is left out. A rank that is `Infinity` is missing. Copies of definitions are the
-- definitions themselves, and error messages the values that they show.
use ather.Base.{
  ltb, leb, ◌==◌, ◌===◌, if◌then◌else◌, or_else, length, filter, includes, Map, get, set, delete,
  has, keys, ℕ, zero, suc, ◌+◌, String, Bool, true, false, ◌&&◌, Option, none, some, List, [], ◌∷◌,
  ◌++◌,
}
pub mod Order
pub mod Presets
pub mod Checks
pub mod Tests

pub data GatePolicy : Type 0 where
  open_gate priority_gate tier_only_gate : GatePolicy

pub record TierDefinition : Type 0 where
  pub name : String
  pub rank : ℕ
  pub max_agents : ℕ
  pub model : String × String
  pub targets : List String
  pub gate_policy : GatePolicy
  pub min_priority : Option ℕ
  pub conflict : ℕ
  pub rag_boost_tenths : ℕ
  pub cost_multiplier : ℕ
  pub capabilities : List String

pub record TierRegistry : Type 0 where
  pub tiers : Map TierDefinition
  pub rank_order : List String

pub data TierError : Type 0 where
  same_rank : String → String → ℕ → TierError
  missing_target : String → String → TierError
  circular_escalation : String → TierError
  too_few_agents : String → TierError

-- A stable sort of the entries by rank.
unfoldable pub insert_by_rank : String × TierDefinition → Map TierDefinition → Map TierDefinition
insert_by_rank e [] = e ∷ []
insert_by_rank e (x ∷ entries) =
    if leb e.1.rank x.1.rank then e ∷ x ∷ entries else x ∷ insert_by_rank e entries

unfoldable pub sort_by_rank : Map TierDefinition → Map TierDefinition
unfolding insert_by_rank
sort_by_rank [] = []
sort_by_rank (e ∷ entries) = insert_by_rank e (sort_by_rank entries)

-- `rebuildRankOrder`.
abbrev pub rebuild_rank_order : TierRegistry → TierRegistry
rebuild_rank_order r = record r { rank_order = keys (sort_by_rank r.tiers) }

abbrev pub empty_registry : TierRegistry
empty_registry = record { tiers = []; rank_order = [] }

-- `register`.
unfoldable pub register_tier : TierDefinition → TierRegistry → TierRegistry
unfolding set sort_by_rank
register_tier def r = rebuild_rank_order (record r { tiers = set r.tiers def.name def })

-- `unregister`.
unfoldable pub unregister_tier : String → TierRegistry → TierRegistry × Bool
unfolding get delete sort_by_rank
unregister_tier name r =
    if has r.tiers name
    then (rebuild_rank_order (record r { tiers = delete r.tiers name }), true)
    else (r, false)

abbrev pub definitions_of : Map TierDefinition → List String → List TierDefinition
definitions_of tiers [] = []
definitions_of tiers (name ∷ names) = elim (get tiers name) [
  | none ↦ definitions_of tiers names
  | some d ↦ d ∷ definitions_of tiers names
]

-- `getByRank`, which is `toJSON` as well.
abbrev pub get_by_rank : TierRegistry → List TierDefinition
get_by_rank r = definitions_of r.tiers r.rank_order

-- `getRank`.
abbrev pub get_rank : String → TierRegistry → Option ℕ
get_rank name r = elim (get r.tiers name) [ none ↦ none | some d ↦ some d.rank ]

-- `isHigherThan`.
unfoldable pub is_higher_than : String → String → TierRegistry → Bool
unfolding get
is_higher_than a b r = elim (get_rank a r) [
  | none ↦ false
  | some i ↦ elim (get_rank b r) [ none ↦ true | some j ↦ ltb i j ]
]

-- `getEscalationTargets`.
abbrev pub get_escalation_targets : String → TierRegistry → List String
get_escalation_targets name r = elim (get r.tiers name) [ none ↦ [] | some d ↦ d.targets ]

-- The gate of the target tier in `canEscalateTo`.
abbrev passes_gate : TierDefinition → TierDefinition → ℕ → Bool
passes_gate from to priority = elim to.gate_policy [
  | open_gate ↦ true
  | priority_gate ↦ leb (or_else to.min_priority 4) priority
  | tier_only_gate ↦ leb (from.rank + 1) to.rank
]

-- `canEscalateTo`.
unfoldable pub can_escalate_to : String → String → ℕ → TierRegistry → Bool
unfolding get
can_escalate_to from_tier to_tier priority r = elim (get r.tiers from_tier) [
  | none ↦ false
  | some from ↦ elim (get r.tiers to_tier) [
    | none ↦ false
    | some to ↦ includes from.targets to_tier && passes_gate from to priority
  ]
]

abbrev pub head_of : List String → Option String
head_of [] = none
head_of (x ∷ xs) = some x

-- `getTopTier`.
unfoldable pub get_top_tier : TierRegistry → String
get_top_tier r = or_else (head_of r.rank_order) "master"

-- The weights and the model of a tier, with the defaults for a tier that is unknown.
abbrev pub get_conflict_weight : String → TierRegistry → ℕ
get_conflict_weight name r = elim (get r.tiers name) [ none ↦ 1 | some d ↦ d.conflict ]

abbrev pub get_rag_boost : String → TierRegistry → ℕ
get_rag_boost name r = elim (get r.tiers name) [ none ↦ 10 | some d ↦ d.rag_boost_tenths ]

abbrev pub get_cost_multiplier : String → TierRegistry → ℕ
get_cost_multiplier name r = elim (get r.tiers name) [ none ↦ 1 | some d ↦ d.cost_multiplier ]

abbrev pub get_model_config : String → TierRegistry → String × String
get_model_config name r = elim (get r.tiers name) [ none ↦ ("claude", "haiku") | some d ↦ d.model ]

abbrev pub has_capability : String → String → TierRegistry → Bool
has_capability name cap r = elim (get r.tiers name) [
  | none ↦ false
  | some d ↦ includes d.capabilities cap
]

abbrev pub get_tiers_with_capability : String → TierRegistry → List String
get_tiers_with_capability cap r = keys (filter (λ e. includes e.1.capabilities cap) r.tiers)

-- `fromJSON`.
abbrev pub register_all : List TierDefinition → TierRegistry → TierRegistry
register_all [] r = r
register_all (d ∷ defs) r = register_all defs (register_tier d r)

abbrev pub from_json : List TierDefinition → TierRegistry
from_json defs = register_all defs empty_registry

-- The loops of `validate`: the ranks that were seen, from the last one back.
abbrev pub rank_holder : List (ℕ × String) → ℕ → Option String
rank_holder [] rank = none
rank_holder ((i, name) ∷ seen) rank = if i == rank then some name else rank_holder seen rank

abbrev pub truthy : Option String → Option String
truthy none = none
truthy (some s) = if s === "" then none else some s

unfoldable pub check_ranks : List (ℕ × String) → Map TierDefinition → List TierError
check_ranks seen [] = []
check_ranks seen ((name, d) ∷ entries) =
    let rest = check_ranks ((d.rank, name) ∷ seen) entries in
    elim (truthy (rank_holder seen d.rank)) [
      | none ↦ rest
      | some other ↦ same_rank other name d.rank ∷ rest
    ]

abbrev pub check_target_list : Map TierDefinition → String → List String → List TierError
check_target_list tiers name [] = []
check_target_list tiers name (t ∷ targets) =
    let rest = check_target_list tiers name targets in
    if has tiers t then rest else missing_target name t ∷ rest

unfoldable pub check_targets : Map TierDefinition → Map TierDefinition → List TierError
unfolding get
check_targets tiers [] = []
check_targets tiers ((name, d) ∷ entries) =
    check_target_list tiers name d.targets ++ check_targets tiers entries

-- The `while` loop over the first targets; it stops after as many rounds as there are tiers, and one.
abbrev follows_circle : ℕ → String → String → List String → Bool → TierRegistry → Bool
follows_circle zero name current visited moved r = false
follows_circle (suc rounds) name current visited moved r =
    if includes visited current
    then (current === name) && moved
    else elim (get_escalation_targets current r) [
      | [] ↦ false
      | target ∷ _ ↦ follows_circle rounds name target (visited ++ (current ∷ [])) true r
    ]

unfoldable pub check_circles : List String → TierRegistry → List TierError
unfolding get
check_circles [] r = []
check_circles (name ∷ names) r =
    let rest = check_circles names r in
    if follows_circle (length r.tiers + 1) name name [] false r
    then circular_escalation name ∷ rest
    else rest

unfoldable pub check_agents : Map TierDefinition → List TierError
check_agents [] = []
check_agents ((name, d) ∷ entries) =
    let rest = check_agents entries in
    if ltb d.max_agents 1 then too_few_agents name ∷ rest else rest

-- `validate`.
unfoldable pub validate_tiers : TierRegistry → List TierError
unfolding check_ranks check_targets check_circles check_agents
validate_tiers r =
    check_ranks [] r.tiers
    ++ (check_targets r.tiers r.tiers ++ (check_circles (keys r.tiers) r ++ check_agents r.tiers))
