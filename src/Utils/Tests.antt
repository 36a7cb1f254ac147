-- ===== src/Utils/Tests.antt =====
-- core/utils: tests and examples: a call that is throttled twice, and five numbers in batches of two.
use mathlib.Core.Option
use ather.Base.{
  ltb, ◌===◌, if◌then◌else◌, get, set, ℕ, ◌+◌, ◌^◌, String, ◌≡◌, refl, ◌⊎◌, inl, inr, some, [], ◌∷◌,
}
use ather.Utils.Retry.{
  Failure, RetryConfig, default_retryable_errors, retry_with_backoff, retry_from, is_retryable,
  with_jitter, Decides, retry_with_backoff-Decides,
}
use ather.Utils.Batch.{process_batch, process_from}
use ather.Utils.Fallback.{returned, execute_with_fallback, try_models, set_chain}

abbrev throttled : Failure
throttled = record {
  name = "ThrottlingException";
  constructor_name = "Error";
  message = "slow down";
}

abbrev config : RetryConfig
config = record {
  max_retries = 3;
  base_delay = 1000;
  max_delay = 1500;
  retryable_errors = default_retryable_errors;
}

abbrev call : ℕ → Failure ⊎ String
call attempt = if ltb attempt 2 then inl throttled else inr "done"

-- A random number of one half leaves a delay as it is.
abbrev half : ℕ → ℕ
half attempt = 2 ^ 52

retry_twice :
    retry_with_backoff config half call ≡ record { result = inr "done"; delays = 1000 ∷ 1500 ∷ [] }
unfolding retry_with_backoff retry_from is_retryable with_jitter
retry_twice = refl

retry_with_backoff-Decides_example :
    Decides config half call 3 0 (retry_with_backoff config half call)
retry_with_backoff-Decides_example = retry_with_backoff-Decides config half call

abbrev halve : ℕ → String ⊎ ℕ
halve n = if ltb n 3 then inr (n + 10) else inl "too large"

batch_counts : Option.map (λ o. o.success_count) (process_batch halve 2 0 (1 ∷ 4 ∷ 2 ∷ [])) ≡ some 2
unfolding process_batch process_from
batch_counts = refl

-- The second model answers for the first.
abbrev answer : String → String ⊎ ℕ
answer model = if model === "small" then inr 7 else inl "down"

fallback_second :
    execute_with_fallback "worker" answer (set_chain "worker" ("large" ∷ "small" ∷ []) [])
    ≡ returned 7
unfolding execute_with_fallback try_models get set
fallback_second = refl
