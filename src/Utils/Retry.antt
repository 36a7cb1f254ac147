-- ===== src/Utils/Retry.antt =====
-- core/utils/retry.ts: `retryWithBackoff`. Delays are computed exactly, where the source rounds
-- floating-point numbers; a random number is a multiple of 2 ^ -53.
use Prim.Native.String.{◌++◌ as text_append}
use ather.Base.{
  ◌===◌, Bool-cases, sum-cases, length, filter, starts_with, ℕ, zero, suc, ◌+◌, ◌*◌, ◌/◌, ◌^◌, ◌≤◌,
  min, String, ◌≡◌, refl, sym, ap, ◌∙◌, ◌⊎◌, inl, inr, Bool, true, false, ◌||◌, not, List, [], ◌∷◌,
  arith,
}

pub record Failure : Type 0 where
  pub name : String
  pub constructor_name : String
  pub message : String

pub record RetryConfig : Type 0 where
  pub max_retries : ℕ
  pub base_delay : ℕ
  pub max_delay : ℕ
  pub retryable_errors : List String

abbrev pub default_retryable_errors : List String
default_retryable_errors =
    "ThrottlingException" ∷ "ServiceUnavailable" ∷ "ECONNRESET" ∷ "ETIMEDOUT" ∷ "429" ∷ "503"
    ∷ "502" ∷ []

-- The values that the destructuring gives where the caller gives none.
abbrev pub default_config : RetryConfig
default_config = record {
  max_retries = 3;
  base_delay = 1000;
  max_delay = 8000;
  retryable_errors = default_retryable_errors;
}

-- `s.includes(p)`.
abbrev pub text_includes : String → String → Bool
text_includes String.[] p = starts_with String.[] p
text_includes (String.◌∷◌ c s) p = starts_with (String.◌∷◌ c s) p || text_includes s p

abbrev join_words : List String → String
join_words [] = ""
join_words (w ∷ []) = w
join_words (w ∷ v ∷ words) = text_append w (text_append " " (join_words (v ∷ words)))

abbrev any_included : String → List String → Bool
any_included subject [] = false
any_included subject (p ∷ patterns) = text_includes subject p || any_included subject patterns

-- `isRetryable`.
unfoldable pub is_retryable : Failure → List String → Bool
is_retryable e patterns =
    any_included
      (join_words (filter (λ w. not (w === "")) (e.name ∷ e.constructor_name ∷ e.message ∷ [])))
      patterns

-- `withJitter`: `ms * (0.8 + 0.4 * random)`, rounded to the nearest.
unfoldable pub with_jitter : ℕ → ℕ → ℕ
with_jitter random ms = (2 * ms * (8 * 2 ^ 53 + 4 * random) + 10 * 2 ^ 53) / (20 * 2 ^ 53)

pub record RetryOutcome (T : Type 0) : Type 0 where
  pub result : Failure ⊎ T
  pub delays : List ℕ

abbrev pub delay_at : RetryConfig → (ℕ → ℕ) → ℕ → ℕ
delay_at config random attempt =
    with_jitter (random attempt) (min (config.base_delay * 2 ^ attempt) config.max_delay)

module _ {T : Type 0} where
  abbrev after_delay : ℕ → RetryOutcome T → RetryOutcome T
  after_delay delay o = record o { delays = delay ∷ o.delays }

  -- The loop of `retryWithBackoff` from an attempt on, with the retries that are left.
  unfoldable pub retry_from : RetryConfig → (ℕ → ℕ) → (ℕ → Failure ⊎ T) → ℕ → ℕ → RetryOutcome T
  unfolding is_retryable with_jitter
  retry_from config random fn zero attempt = record { result = fn attempt; delays = [] }
  retry_from config random fn (suc left) attempt = elim (fn attempt) [
    | inr v ↦ record { result = inr v; delays = [] }
    | inl e ↦ elim (is_retryable e config.retryable_errors) [
      | false ↦ record { result = inl e; delays = [] }
      | true ↦
          after_delay (delay_at config random attempt)
            (retry_from config random fn left (attempt + 1))
    ]
  ]

  -- `retryWithBackoff`.
  unfoldable pub retry_with_backoff : RetryConfig → (ℕ → ℕ) → (ℕ → Failure ⊎ T) → RetryOutcome T
  unfolding retry_from
  retry_with_backoff config random fn = retry_from config random fn config.max_retries 0

  -- Whether an attempt may be followed by another one.
  abbrev pub is_retried : RetryConfig → Failure ⊎ T → Bool
  is_retried config (inl e) = is_retryable e config.retryable_errors
  is_retried config (inr v) = false

  -- The attempts from one on that are followed by another one, and their delays.
  abbrev pub AreRetried : RetryConfig → (ℕ → ℕ) → (ℕ → Failure ⊎ T) → ℕ → List ℕ → Type 0
  AreRetried config random fn attempt [] = Unit
  AreRetried config random fn attempt (d ∷ delays) =
      (is_retried config (fn attempt) ≡ true)
      × (d ≡ delay_at config random attempt)
      × AreRetried config random fn (attempt + 1) delays

  -- After the delays stands the attempt that decides: it succeeds, or fails for good, or is the last.
  pub record Decides (config : RetryConfig) (random : ℕ → ℕ) (fn : ℕ → Failure ⊎ T)
      (left attempt : ℕ) (o : RetryOutcome T) : Type 0 where
    pub retried : AreRetried config random fn attempt o.delays
    pub decided : o.result ≡ fn (attempt + length o.delays)
    pub bounded : length o.delays ≤ left
    pub final :
        (length o.delays ≡ left) ⊎ (is_retried config (fn (attempt + length o.delays)) ≡ false)

  -- An attempt that is not followed by another one.
  stop-Decides :
      (config : RetryConfig) (random : ℕ → ℕ) (fn : ℕ → Failure ⊎ T) (left attempt : ℕ)
      (r : Failure ⊎ T)
      → fn attempt ≡ r
      → is_retried config r ≡ false
      → Decides config random fn left attempt (record { result = r; delays = [] })
  stop-Decides config random fn left attempt r e last =
      let here : r ≡ fn (attempt + 0) = sym e ∙ ap fn (omega arith) in
      record {
        retried = tt;
        decided = here;
        bounded = omega arith;
        final = inr (ap (is_retried config) (sym here) ∙ last);
      }

  -- An attempt that is followed by others.
  after_delay-Decides :
      (config : RetryConfig) (random : ℕ → ℕ) (fn : ℕ → Failure ⊎ T) (left attempt : ℕ)
      (o : RetryOutcome T)
      → is_retried config (fn attempt) ≡ true
      → Decides config random fn left (attempt + 1) o
      → Decides config random fn (suc left) attempt (after_delay (delay_at config random attempt) o)
  after_delay-Decides config random fn left attempt o again d =
      let index : attempt + 1 + length o.delays ≡ attempt + suc (length o.delays) = omega arith in
      record {
        retried = (again, refl, d.retried);
        decided = d.decided ∙ ap fn index;
        bounded = omega (arith, d.bounded);
        final = elim d.final [
          | inl full ↦ inl (omega (arith, full))
          | inr last ↦ inr (ap (λ n. is_retried config (fn n)) (sym index) ∙ last)
        ];
      }

  retry_from-Decides :
      (config : RetryConfig) (random : ℕ → ℕ) (fn : ℕ → Failure ⊎ T) (left attempt : ℕ)
      → Decides config random fn left attempt (retry_from config random fn left attempt)
  unfolding retry_from
  retry_from-Decides config random fn zero attempt =
      let here : fn attempt ≡ fn (attempt + 0) = ap fn (omega arith) in
      record { retried = tt; decided = here; bounded = omega arith; final = inl refl }
  retry_from-Decides config random fn (suc left) attempt = elim (sum-cases (fn attempt)) [
    | inr (v, fine) ↦
        rw (fine, retry_from) (stop-Decides config random fn (suc left) attempt (inr v) fine refl)
    | inl (e, failed) ↦ elim (Bool-cases (is_retryable e config.retryable_errors)) [
      | inr final ↦
          rw (failed, retry_from, final)
            (stop-Decides config random fn (suc left) attempt (inl e) failed final)
      | inl again ↦
          rw (failed, retry_from, again)
            (after_delay-Decides config random fn left attempt
              (retry_from config random fn left (attempt + 1))
              (ap (is_retried config) failed ∙ again)
              (retry_from-Decides config random fn left (attempt + 1)))
    ]
  ]

  -- `retryWithBackoff` gives what the deciding attempt gives, at most `maxRetries` after the first: it
  -- is the last one allowed, or succeeds, or fails with an error that is not retryable. Every attempt
  -- before it failed with a retryable error and was followed by its delay, in that order.
  pub retry_with_backoff-Decides :
      (config : RetryConfig) (random : ℕ → ℕ) (fn : ℕ → Failure ⊎ T)
      → Decides config random fn config.max_retries 0 (retry_with_backoff config random fn)
  unfolding retry_with_backoff
  retry_with_backoff-Decides config random fn =
      retry_from-Decides config random fn config.max_retries 0
