-- ===== src/Utils/Fallback.antt =====
-- core/fallback/chain-manager.ts: `FallbackChainManager`.
use ather.Base.{
  All, Map, get, set, String, ◌≡◌, refl, ◌⊎◌, inl, inr, Option, none, some, List, [], ◌∷◌, ◌++◌,
}

pub record FallbackAttempt (E : Type 0) : Type 0 where
  pub model : String
  pub error : E

pub data FallbackOutcome (T E : Type 0) : Type 0 where
  returned : T → FallbackOutcome T E
  no_chain : FallbackOutcome T E
  all_failed : List (FallbackAttempt E) → FallbackOutcome T E

-- The chains are copied on the way in and out; a list is its own copy here.
abbrev pub Chains : Type 0
Chains = Map (List String)

-- `setChain` and `getChain`.
abbrev pub set_chain : String → List String → Chains → Chains
set_chain tier models chains = set chains tier models

abbrev pub get_chain : String → Chains → Option (List String)
get_chain tier chains = get chains tier

module _ {T E : Type 0} where
  -- The loop of `executeWithFallback` over the models, with the attempts so far.
  unfoldable pub try_models :
      (String → E ⊎ T) → List (FallbackAttempt E) → List String → FallbackOutcome T E
  try_models operation attempts [] = all_failed attempts
  try_models operation attempts (model ∷ models) = elim (operation model) [
    | inr v ↦ returned v
    | inl e ↦ try_models operation (attempts ++ (record { model = model; error = e } ∷ [])) models
  ]

  -- `executeWithFallback`.
  unfoldable pub execute_with_fallback : String → (String → E ⊎ T) → Chains → FallbackOutcome T E
  unfolding try_models get
  execute_with_fallback tier operation chains = elim (get chains tier) [
    | none ↦ no_chain
    | some [] ↦ no_chain
    | some (model ∷ models) ↦ try_models operation [] (model ∷ models)
  ]

  -- Every one of the models fails.
  abbrev AllFail : (String → E ⊎ T) → List String → Type 0
  AllFail operation = All (λ model. (e : E) × (operation model ≡ inl e))

  -- The models before the first one that succeeds fail, and its value is the result.
  pub try_models-first :
      (operation : String → E ⊎ T) (before : List String) (attempts : List (FallbackAttempt E))
      (model : String) (after : List String) (v : T)
      → AllFail operation before
      → operation model ≡ inr v
      → try_models operation attempts (before ++ (model ∷ after)) ≡ returned v
  unfolding try_models
  try_models-first operation [] attempts model after v fail fine = rw fine refl
  try_models-first operation (m ∷ before) attempts model after v fail fine =
      let (e, failed) = fail.0 in
      rw failed (
        try_models-first operation before (attempts ++ (record { model = m; error = e } ∷ [])) model
          after v fail.1 fine)
