-- ===== src/Utils/Batch.antt =====
-- core/utils/batch.ts: `processBatch`. The items of a batch are settled one by one, which gives the
-- same results as at once, since an item's result depends on the item. The duration is left out.
use mathlib.Core.Option
use ather.Base.{
  ltb, if◌then◌else◌, length, take, drop, filter, length-filter-le, length-drop, take-append-drop,
  ℕ, zero, suc, ◌+◌, ◌-◌, ◌≤◌, ◌≡◌, refl, sym, ap, ◌∙◌, ◌⊎◌, inl, inr, Bool, true, false, ◌&&◌,
  Option, none, some, List, [], ◌∷◌, ◌++◌, map, arith,
}

pub record BatchItemResult (T R E : Type 0) : Type 0 where
  pub item : T
  pub success : Bool
  pub result : Option R
  pub error : Option E

pub record BatchResult (T R E : Type 0) : Type 0 where
  pub total_processed : ℕ
  pub success_count : ℕ
  pub failure_count : ℕ
  pub results : List (BatchItemResult T R E)

-- What the loop has made: the results, the batches that were reported and the number of waits.
pub record Progress (T R E : Type 0) : Type 0 where
  pub results : List (BatchItemResult T R E)
  pub batches : List (List (BatchItemResult T R E))
  pub waits : ℕ

module _ {T R E : Type 0} where
  abbrev item_result : T → E ⊎ R → BatchItemResult T R E
  item_result item (inr r) = record { item = item; success = true; result = some r; error = none }
  item_result item (inl e) = record { item = item; success = false; result = none; error = some e }

  -- `Promise.allSettled`, and the results that are made of it.
  abbrev pub settle : (T → E ⊎ R) → T → BatchItemResult T R E
  settle processor item = item_result item (processor item)

  abbrev extend : List (BatchItemResult T R E) → ℕ → Progress T R E → Progress T R E
  extend batch waits p = record {
    results = batch ++ p.results;
    batches = batch ∷ p.batches;
    waits = waits + p.waits;
  }

  -- The loop of `processBatch` over the items that are left; `none` means that the fuel ran out.
  unfoldable pub process_from : ℕ → (T → E ⊎ R) → ℕ → ℕ → List T → Option (Progress T R E)
  process_from fuel processor size delay [] =
      some (record { results = []; batches = []; waits = 0 })
  process_from zero processor size delay (x ∷ items) = none
  process_from (suc fuel) processor size delay (x ∷ items) =
      let batch = map (settle processor) (take size (x ∷ items)) in
      let waits = if ltb size (length (x ∷ items)) && ltb 0 delay then 1 else 0 in
      Option.map (extend batch waits)
        (process_from fuel processor size delay (drop size (x ∷ items)))

  abbrev summary : List (BatchItemResult T R E) → BatchResult T R E
  summary results =
      let successes = length (filter (λ r. r.success) results) in
      record {
        total_processed = length results;
        success_count = successes;
        failure_count = length results - successes;
        results = results;
      }

  -- `processBatch`. With a size of at least 1 every round takes an item.
  unfoldable pub process_batch : (T → E ⊎ R) → ℕ → ℕ → List T → Option (BatchResult T R E)
  unfolding process_from
  process_batch processor size delay items =
      Option.map (λ p. summary p.results) (process_from (length items) processor size delay items)

  map-append :
      (f : T → BatchItemResult T R E) (xs ys : List T) → map f (xs ++ ys) ≡ map f xs ++ map f ys
  map-append f [] ys = refl
  map-append f (x ∷ xs) ys = ap (◌∷◌ (f x)) (map-append f xs ys)

  length-map : (f : T → BatchItemResult T R E) (xs : List T) → length (map f xs) ≡ length xs
  length-map f [] = refl
  length-map f (x ∷ xs) = ap suc (length-map f xs)

  process_from_total :
      (fuel : ℕ) (processor : T → E ⊎ R) (size delay : ℕ) (items : List T)
      → 1 ≤ size
      → length items ≤ fuel
      → (p : Progress T R E) × (process_from fuel processor size delay items ≡ some p)
        × (p.results ≡ map (settle processor) items)
  unfolding process_from
  process_from_total fuel processor size delay [] some_size h =
      (record { results = []; batches = []; waits = 0 }, refl, refl)
  process_from_total zero processor size delay (x ∷ items) some_size h = absurd (omega (arith, h))
  process_from_total (suc fuel) processor size delay (x ∷ items) some_size h =
      let all = x ∷ items in
      let batch = map (settle processor) (take size all) in
      let waits : ℕ = if ltb size (length all) && ltb 0 delay then 1 else 0 in
      let (p, e, same) =
        process_from_total fuel processor size delay (drop size all) some_size
          (omega (arith, h, length-drop size all)) in
      (
        extend batch waits p,
        rw e refl,
        ap (◌++◌ batch) same
            ∙ sym (map-append (settle processor) (take size all) (drop size all))
            ∙ ap (map (settle processor)) (take-append-drop size all),
      )

  -- For a batch size of at least 1 `processBatch` ends, and its results are those of the items, each
  -- settled by itself, in the order of the items and with none left out; one that fails stops no other.
  pub process_batch-map :
      (processor : T → E ⊎ R) (size delay : ℕ) (items : List T)
      → 1 ≤ size
      → (out : BatchResult T R E) × (process_batch processor size delay items ≡ some out)
        × (out.results ≡ map (settle processor) items)
        × (out.success_count + out.failure_count ≡ length items)
  unfolding process_batch
  process_batch-map processor size delay items some_size =
      let (p, e, same) =
        process_from_total (length items) processor size delay items some_size (omega arith) in
      let count : length p.results ≡ length items =
        ap length same ∙ length-map (settle processor) items in
      (
        summary p.results,
        rw e refl,
        same,
        omega (arith, count, length-filter-le (λ r. r.success) p.results),
      )

  -- With a batch size of 0 the loop never ends, whatever the fuel, if there is an item.
  process_from_zero :
      (fuel : ℕ) (processor : T → E ⊎ R) (delay : ℕ) (x : T) (items : List T)
      → process_from fuel processor 0 delay (x ∷ items) ≡ none
  unfolding process_from
  process_from_zero zero processor delay x items = refl
  process_from_zero (suc fuel) processor delay x items =
      rw (process_from_zero fuel processor delay x items) refl
