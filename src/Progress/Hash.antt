-- ===== src/Progress/Hash.antt =====
-- core/progress-tracker.ts: the hash of an output, computed in 32-bit integers.
use ather.Base.{ℕ, ◌+◌, ◌*◌, ◌%◌, ◌^◌, ◌<◌, ◌≡◌, refl, ap, ◌∙◌, List, [], ◌∷◌, arith}
use ather.Progress.{hash_step, hash_from, simple_hash}

-- The hash without any limit on the numbers: the text as a number with the base 31.
abbrev pub polynomial_from : ℕ → List ℕ → ℕ
polynomial_from p [] = p
polynomial_from p (ch ∷ text) = polynomial_from (31 * p + ch) text

abbrev pub polynomial : List ℕ → ℕ
polynomial text = polynomial_from 0 text

hash_step_lem : (p ch : ℕ) → hash_step (p % 2 ^ 32) ch ≡ (31 * p + ch) % 2 ^ 32
unfolding hash_step
hash_step_lem p ch = omega arith

hash_from_lem :
    (p : ℕ) (text : List ℕ) → hash_from (p % 2 ^ 32) text ≡ polynomial_from p text % 2 ^ 32
unfolding hash_from
hash_from_lem p [] = refl
hash_from_lem p (ch ∷ text) =
    ap (λ h. hash_from h text) (hash_step_lem p ch) ∙ hash_from_lem (31 * p + ch) text

-- In spite of the shift that wraps around, the hash of a text is its number to the base 31, taken
-- modulo 2 ^ 32; so it is below 2 ^ 32.
pub simple_hash-polynomial :
    (text : List ℕ) → (simple_hash text ≡ polynomial text % 2 ^ 32) × (simple_hash text < 2 ^ 32)
simple_hash-polynomial text =
    let same : simple_hash text ≡ polynomial text % 2 ^ 32 = hash_from_lem 0 text in
    (same, omega (arith, same))
