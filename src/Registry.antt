-- ===== src/Registry.antt =====
-- core/registry.ts: the lookups of `AgentRegistry` that the other parts call.
-- An agent definition is reduced to the fields that these parts read.
pub mod Chain
pub mod Index
pub mod Exact
pub mod Registration
pub mod Tests
use Prim.Native.String.{◌++◌ as text_append}
use mathlib.Core.Option
use ather.Base.{
  ◌===◌, if◌then◌else◌, or_else, is_some, length, includes, Map, get, values, strip_suffix, ℕ, zero,
  suc, String, Option, none, some, List, [], ◌∷◌, ◌++◌, map,
}

pub data AgentStatus : Type 0 where
  active idle busy offline error : AgentStatus

-- `AgentDefinition`, with the fields that routing reads.
pub record Agent : Type 0 where
  pub id : String
  pub tier : String
  pub escalation_target : Option String

-- The loop of `get` over the entries: the first whose id ends with the given text.
find_suffix : Map Agent → String → Option Agent
find_suffix [] suffix = none
find_suffix ((k, a) ∷ agents) suffix =
    if is_some (strip_suffix suffix k) then some a else find_suffix agents suffix

-- `AgentRegistry.get`: an exact match, or else the first agent whose id ends with "-" and the id.
unfoldable pub find : Map Agent → String → Option Agent
unfolding get find_suffix
find agents id = elim (get agents id) [
  | some a ↦ some a
  | none ↦ find_suffix agents (text_append "-" id)
]

-- `AgentRegistry.getAll`.
abbrev pub get_all : Map Agent → List Agent
get_all agents = values agents

-- `chain.push` for every agent but the one that the walk starts from.
abbrev push_unless_start : String → String → Agent → List Agent → List Agent
push_unless_start start current a chain = if current === start then chain else a ∷ chain

-- The `while` loop of `getEscalationChain`; `none` means that the fuel ran out. The visited set is
-- a list, newest first: the loop only asks whether it holds an id.
pub walk : ℕ → Map Agent → String → List String → Option String → Option (List Agent)
walk fuel agents start visited none = some []
walk zero agents start visited (some current) = none
walk (suc fuel) agents start visited (some current) =
    let step : Option (List Agent) = elim (get agents current) [
      | none ↦ some []
      | some a ↦
          Option.map (push_unless_start start current a)
            (walk fuel agents start (current ∷ visited) a.escalation_target)
    ] in
    if includes visited current then some [] else step

-- `AgentRegistry.getEscalationChain`. Each round visits another registered agent, or is the last.
unfoldable pub get_escalation_chain : Map Agent → String → List Agent
unfolding walk get
get_escalation_chain agents id = or_else (walk (suc (length agents)) agents id [] (some id)) []
