-- ===== src/Registry/Chain.antt =====
-- core/registry.ts: the chain that `getEscalationChain` returns, and its loop.
use ather.Base.{
  Bool-cases, Option-cases, ===-ne, is_some, length, filter, includes, Map, get, has, ℕ, zero, suc,
  ◌≤◌, ◌<◌, String, ◌≡◌, refl, ap, inl, inr, true, false, not, Option, none, some, List, [], ◌∷◌,
  arith, eq_iff, eq_refl,
}
use ather.Registry.{Agent, walk, push_unless_start, get_escalation_chain}

-- The entries whose key is not visited yet: the measure of the loop.
unvisited : Map Agent → List String → ℕ
unvisited agents visited = length (filter (λ e. not (includes visited e.0)) agents)

unvisited-le :
    (agents : Map Agent) (visited : List String) → unvisited agents visited ≤ length agents
unfolding unvisited
unvisited-le [] visited = omega arith
unvisited-le (e ∷ agents) visited = ground (arith, unvisited-le agents visited)

unvisited-cons-le :
    (agents : Map Agent) (visited : List String) (k : String)
    → unvisited agents (k ∷ visited) ≤ unvisited agents visited
unfolding unvisited
unvisited-cons-le [] visited k = omega arith
unvisited-cons-le ((j, a) ∷ agents) visited k = ground (arith, unvisited-cons-le agents visited k)

-- Visiting a registered agent for the first time makes the measure fall.
unvisited-cons-lt :
    (agents : Map Agent) (visited : List String) (k : String) (a : Agent)
    → get agents k ≡ some a
    → includes visited k ≡ false
    → unvisited agents (k ∷ visited) < unvisited agents visited
unfolding unvisited get
unvisited-cons-lt [] visited k a found new = cc
unvisited-cons-lt ((j, b) ∷ agents) visited k a found new = ground (
  arith,
  eq_iff j k,
  eq_iff k j,
  unvisited-cons-le agents visited k,
  unvisited-cons-lt agents visited k a,
)

-- With more fuel than unvisited agents the loop ends by its own tests.
walk_total :
    (fuel : ℕ) (agents : Map Agent) (start : String) (visited : List String)
    (current : Option String)
    → unvisited agents visited < fuel
    → (chain : List Agent) × (walk fuel agents start visited current ≡ some chain)
unfolding walk
walk_total zero agents start visited current h = elim h [ ]
walk_total (suc fuel) agents start visited none h = ([], refl)
walk_total (suc fuel) agents start visited (some k) h = elim (Bool-cases (includes visited k)) [
  | inl old ↦ ([], rw old)
  | inr new ↦ elim (Option-cases (get agents k)) [
    | inl missing ↦ ([], rw (new, missing))
    | inr (a, found) ↦
        let (rest, e) =
          walk_total fuel agents start (k ∷ visited) a.escalation_target
            (omega (arith, unvisited-cons-lt agents visited k a found new)) in
        (push_unless_start start k a rest, rw (new, found, e))
  ]
]

-- The loop never runs out of the fuel that `getEscalationChain` is given here.
pub get_escalation_chain-walk :
    (agents : Map Agent) (id : String)
    → walk (suc (length agents)) agents id [] (some id) ≡ some (get_escalation_chain agents id)
unfolding get_escalation_chain
get_escalation_chain-walk agents id =
    let (chain, e) =
      walk_total (suc (length agents)) agents id [] (some id)
        (omega (arith, unvisited-le agents [])) in
    rw e

-- `chain` goes up from the agent stored under `from`: each entry is the registered escalation
-- target of the one before, and its id is none of those visited so far.
abbrev pub IsPath : Map Agent → List String → String → List Agent → Type 0
IsPath agents visited from [] = Unit
IsPath agents visited from (a ∷ chain) =
    (f : Agent) × (t : String) × (get agents from ≡ some f)
    × (f.escalation_target ≡ some t)
    × (includes visited t ≡ false)
    × (get agents t ≡ some a)
    × IsPath agents (t ∷ visited) t chain

-- From an agent whose id is visited, the loop returns such a path.
walk-IsPath :
    (fuel : ℕ) (agents : Map Agent) (start : String) (visited : List String) (from : String)
    (f : Agent) (target : Option String)
    → unvisited agents visited < fuel
    → get agents from ≡ some f
    → f.escalation_target ≡ target
    → includes visited start ≡ true
    → (chain : List Agent) × (walk fuel agents start visited target ≡ some chain)
      × IsPath agents visited from chain
unfolding walk
walk-IsPath zero agents start visited from f target h ef et es = elim h [ ]
walk-IsPath (suc fuel) agents start visited from f none h ef et es = ([], refl, tt)
walk-IsPath (suc fuel) agents start visited from f (some t) h ef et es =
    elim (Bool-cases (includes visited t)) [
      | inl old ↦ ([], rw old, tt)
      | inr new ↦ elim (Option-cases (get agents t)) [
        | inl missing ↦ ([], rw (new, missing), tt)
        | inr (a, found) ↦
            let (rest, e, path) =
              walk-IsPath fuel agents start (t ∷ visited) t a a.escalation_target
                (omega (arith, unvisited-cons-lt agents visited t a found new)) found refl
                (ground (arith, es)) in
            let other = ===-ne t start (λ p. cc (ap (includes visited) p)) in
            (a ∷ rest, rw (new, found, e, other), (f, t, ef, et, new, found, path))
      ]
    ]

-- The chain of a registered agent goes up through escalation targets, each of them registered, and
-- holds no id twice, nor the id of the agent itself.
pub get_escalation_chain-IsPath :
    (agents : Map Agent) (id : String)
    → has agents id ≡ true
    → IsPath agents (id ∷ []) id (get_escalation_chain agents id)
unfolding get_escalation_chain walk
get_escalation_chain-IsPath agents id known = elim (Option-cases (get agents id)) [
  | inl missing ↦ absurd (cc (ap is_some missing))
  | inr (f, found) ↦
      let (chain, e, path) =
        walk-IsPath (length agents) agents id (id ∷ []) id f f.escalation_target
          (omega (arith, unvisited-cons-lt agents [] id f found refl, unvisited-le agents [])) found
          refl (rw eq_refl refl) in
      rw (found, e, eq_refl id) path
]

-- An id that is no key of the registry has no chain, also where `find` answers for its suffix.
pub get_escalation_chain_unregistered :
    (agents : Map Agent) (id : String) → has agents id ≡ false → get_escalation_chain agents id ≡ []
unfolding get_escalation_chain walk
get_escalation_chain_unregistered agents id unknown = ground arith
