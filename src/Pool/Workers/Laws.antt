-- ===== src/Pool/Workers/Laws.antt =====
-- core/worker-pool.ts: lemmas on lists of workers.
use mathlib.Core.Option
use ather.Base.{
  ltb, ◌==◌, if◌then◌else◌, Bool-cases, is_some, length, All, ℕ, suc, ◌+◌, ◌≤◌, ◌≡◌, refl, ap,
  subst, ◌≢◌, ◌⊎◌, inl, inr, true, false, ◌&&◌, Option, none, some, List, [], ◌∷◌, map, arith,
}
use ather.Pool.{PoolTask, Worker, idle, is_idle}
use ather.Pool.Workers.{better, find_idle_from, find_idle_worker, modify, count}

abbrev pub ids : List Worker → List ℕ
ids = map (λ w. w.id)

abbrev pub find : ℕ → List Worker → Option Worker
find id [] = none
find id (w ∷ workers) = if w.id == id then some w else find id workers

abbrev pub Lacks : ℕ → List ℕ → Type 0
Lacks n [] = Unit
Lacks n (m ∷ ms) = (m ≢ n) × Lacks n ms

abbrev pub IsDistinct : List ℕ → Type 0
IsDistinct [] = Unit
IsDistinct (n ∷ ns) = Lacks n ns × IsDistinct ns

-- 1 for a task with an id.
abbrev pub is_task : ℕ → PoolTask → ℕ
is_task t task = if task.id == t then 1 else 0

-- 1 for a worker that has the task with an id.
abbrev pub held : ℕ → Worker → ℕ
held t w = elim w.current_task [ none ↦ 0 | some task ↦ is_task t task ]

-- How many of the workers have the task with an id.
unfoldable pub holding : ℕ → List Worker → ℕ
holding t [] = 0
holding t (w ∷ workers) = held t w + holding t workers

-- An idle worker has no task.
abbrev pub IsHonest : Worker → Type 0
IsHonest w = w.status ≡ idle → w.current_task ≡ none

pub ids-modify :
    (id : ℕ) (f : Worker → Worker) (workers : List Worker)
    → ((w : Worker) → (f w).id ≡ w.id)
    → ids (modify id f workers) ≡ ids workers
unfolding modify
ids-modify id f [] keep = refl
ids-modify id f (w ∷ workers) keep = ground (arith, keep w, ids-modify id f workers keep)

pub modify-All :
    (P : Worker → Type 0) (id : ℕ) (f : Worker → Worker) (workers : List Worker)
    → ((w : Worker) → P w → P (f w))
    → All P workers
    → All P (modify id f workers)
unfolding modify
modify-All P id f [] keep h = tt
modify-All P id f (w ∷ workers) keep h = elim (Bool-cases (w.id == id)) [
  | inl e ↦ rw e (keep w h.0, h.1)
  | inr e ↦ rw e (h.0, modify-All P id f workers keep h.1)
]

pub length-modify :
    (id : ℕ) (f : Worker → Worker) (workers : List Worker)
    → length (modify id f workers) ≡ length workers
unfolding modify
length-modify id f [] = refl
length-modify id f (w ∷ workers) = ground (arith, length-modify id f workers)

pub find-modify :
    (id : ℕ) (f : Worker → Worker) (workers : List Worker)
    → ((w : Worker) → (f w).id ≡ w.id)
    → find id (modify id f workers) ≡ Option.map f (find id workers)
unfolding modify
find-modify id f [] keep = refl
find-modify id f (w ∷ workers) keep = ground (arith, keep w, find-modify id f workers keep)

pub holding-modify :
    (t id : ℕ) (f : Worker → Worker) (workers : List Worker) (w : Worker)
    → find id workers ≡ some w
    → holding t (modify id f workers) + held t w ≡ holding t workers + held t (f w)
unfolding modify holding
holding-modify t id f [] w e = cc
holding-modify t id f (v ∷ workers) w e = ground (arith, holding-modify t id f workers w)

-- A change that keeps each worker's status keeps the number of idle workers.
pub count-modify :
    (id : ℕ) (f : Worker → Worker) (workers : List Worker)
    → ((w : Worker) → is_idle (f w) ≡ is_idle w)
    → count is_idle (modify id f workers) ≡ count is_idle workers
unfolding modify count
count-modify id f [] keep = refl
count-modify id f (w ∷ workers) keep = ground (arith, keep w, count-modify id f workers keep)

pub holding-modify_keep :
    (t id : ℕ) (f : Worker → Worker) (workers : List Worker)
    → ((w : Worker) → (f w).current_task ≡ w.current_task)
    → holding t (modify id f workers) ≡ holding t workers
unfolding modify holding
holding-modify_keep t id f [] keep = refl
holding-modify_keep t id f (w ∷ workers) keep =
    let one : held t (f w) ≡ held t w =
      ap {B = ℕ} (λ c. elim c [ none ↦ 0 | some task ↦ is_task t task ]) (keep w) in
    ground (arith, one, holding-modify_keep t id f workers keep)

pub count-modify-le :
    (id : ℕ) (f : Worker → Worker) (workers : List Worker)
    → count is_idle (modify id f workers) ≤ count is_idle workers + 1
unfolding modify count
count-modify-le id f [] = omega arith
count-modify-le id f (w ∷ workers) = ground (arith, count-modify-le id f workers)

-- A worker that leaves the idle ones.
pub count-modify_lt :
    (id : ℕ) (f : Worker → Worker) (workers : List Worker) (w : Worker)
    → find id workers ≡ some w
    → is_idle w ≡ true
    → is_idle (f w) ≡ false
    → suc (count is_idle (modify id f workers)) ≡ count is_idle workers
unfolding modify count
count-modify_lt id f [] w e h k = cc
count-modify_lt id f (v ∷ workers) w e h k = ground (arith, count-modify_lt id f workers w)

-- Searching goes on from `best` only with idle workers.
find_idle_from-IsSome :
    (best : Worker) (workers : List Worker) → is_some (find_idle_from (some best) workers) ≡ true
unfolding find_idle_from
find_idle_from-IsSome best [] = refl
find_idle_from-IsSome best (w ∷ workers) =
    ground (arith, find_idle_from-IsSome best workers, find_idle_from-IsSome w workers)

-- No idle worker is found only where there is none.
pub find_idle_worker-eq-none :
    (workers : List Worker) → find_idle_worker workers ≡ none → count is_idle workers ≡ 0
unfolding find_idle_worker find_idle_from count
find_idle_worker-eq-none [] e = refl
find_idle_worker-eq-none (w ∷ workers) e =
    ground (arith, find_idle_worker-eq-none workers, find_idle_from-IsSome w workers)

find-Lacks :
    (id n : ℕ) (workers : List Worker) (w : Worker)
    → find id workers ≡ some w
    → Lacks n (ids workers)
    → (n == id) ≡ false
find-Lacks id n [] w e h = cc
find-Lacks id n (v ∷ workers) w e h = ground (arith, h.0, h.1, find-Lacks id n workers w)

better-cases :
    (best : Option Worker) (v w : Worker)
    → better best v ≡ some w
    → (best ≡ some w) ⊎ ((v ≡ w) × (is_idle w ≡ true))
better-cases none v w e = elim (Bool-cases (is_idle v)) [
  | inl h ↦ inr (ground (arith, h, e), ground (arith, h, e))
  | inr h ↦ ground (arith, h, e)
]
better-cases (some b) v w e =
    elim (Bool-cases (is_idle v && ltb b.tasks_completed w.tasks_completed)) [
      | inl h ↦ ground (arith, h, e)
      | inr h ↦ ground (arith, h, e)
    ]

find_idle_from-cases :
    (best : Option Worker) (workers : List Worker) (w : Worker)
    → IsDistinct (ids workers)
    → find_idle_from best workers ≡ some w
    → (best ≡ some w) ⊎ ((is_idle w ≡ true) × (find w.id workers ≡ some w))
unfolding find_idle_from
find_idle_from-cases best [] w d e = inl e
find_idle_from-cases best (v ∷ workers) w d e =
    elim (find_idle_from-cases (better best v) workers w d.1 e) [
      | inl chosen ↦ elim (better-cases best v w chosen) [
        | inl before ↦ inl before
        | inr (same, h) ↦ inr (h, ground (arith, same))
      ]
      | inr (h, found) ↦ inr (h, rw (find-Lacks w.id v.id workers w found d.0) found)
    ]

-- A worker that is found is idle, and stands in the map under its id.
pub find_idle_worker-find :
    (workers : List Worker) (w : Worker)
    → IsDistinct (ids workers)
    → find_idle_worker workers ≡ some w
    → (is_idle w ≡ true) × (find w.id workers ≡ some w)
unfolding find_idle_worker
find_idle_worker-find workers w d e = elim (find_idle_from-cases none workers w d e) [
  | inl never ↦ absurd (cc never)
  | inr found ↦ found
]

pub All-find :
    (P : Worker → Type 0) (id : ℕ) (workers : List Worker) (w : Worker)
    → All P workers
    → find id workers ≡ some w
    → P w
All-find P id [] w h e = cc
All-find P id (v ∷ workers) w h e = elim (Bool-cases (v.id == id)) [
  | inl hit ↦ subst P (ground (arith, hit, e)) h.0
  | inr miss ↦ All-find P id workers w h.1 (ground (arith, miss, e))
]

-- An honest idle worker holds nothing.
pub held-idle : (t : ℕ) (w : Worker) → IsHonest w → is_idle w ≡ true → held t w ≡ 0
held-idle t w h e = let s : w.status ≡ idle = ground (arith, e) in ground (arith, h s)
