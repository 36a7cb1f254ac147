-- ===== src/Pool/Queue.antt =====
-- core/worker-pool.ts: `enqueue`, the binary insertion into the queue.
use ather.Base.{
  ltb, if◌then◌else◌, Bool-cases, length, get_elem?, take, drop, length-append, take-append-drop, ℕ,
  zero, suc, ◌+◌, ◌/◌, ◌≤◌, ◌≡◌, refl, ap, ◌∙◌, inl, inr, Bool, false, Option, none, some, List, [],
  ◌∷◌, ◌++◌, arith,
}
use ather.Pool.{PoolTask, WorkerPool}

-- `this.taskQueue[mid].priority > task.priority`, at an index within the queue.
abbrev outranks : Option PoolTask → ℕ → Bool
outranks none p = false
outranks (some t) p = ltb p t.priority

-- The `while` loop of `enqueue`. `hi - lo` falls in each round, so the length of the queue is fuel
-- enough. `>>> 1` halves: the sum of two indices is far below 2^32.
unfoldable pub insertion_point : ℕ → List PoolTask → ℕ → ℕ → ℕ → ℕ
insertion_point zero queue p lo hi = lo
insertion_point (suc fuel) queue p lo hi =
    let mid = (lo + hi) / 2 in
    let right = insertion_point fuel queue p (mid + 1) hi in
    let left = insertion_point fuel queue p lo mid in
    if ltb lo hi then (if outranks (get_elem? queue mid) p then right else left) else lo

-- `splice(i, 0, task)`.
abbrev splice : List PoolTask → ℕ → PoolTask → List PoolTask
splice queue i task = take i queue ++ (task ∷ drop i queue)

-- The queue that `enqueue` leaves.
unfoldable pub insert : PoolTask → List PoolTask → List PoolTask
unfolding insertion_point
insert task queue =
    splice queue (insertion_point (length queue) queue task.priority 0 (length queue)) task

unfoldable pub enqueue : WorkerPool → PoolTask → WorkerPool
enqueue p task = record p {
  task_queue = insert task p.task_queue;
  metrics = record (p.metrics) { queue_length = length (insert task p.task_queue) };
}

-- The queue that is meant: the new task goes before the first task that does not outrank it.
pub insert_before : PoolTask → List PoolTask → List PoolTask
insert_before task [] = task ∷ []
insert_before task (t ∷ queue) =
    if ltb task.priority t.priority then t ∷ insert_before task queue else task ∷ t ∷ queue

-- Every priority is at most `bound`, and none is higher than the one before it.
abbrev pub IsSortedBelow : ℕ → List PoolTask → Type 0
IsSortedBelow bound [] = Unit
IsSortedBelow bound (t ∷ queue) = (t.priority ≤ bound) × IsSortedBelow t.priority queue

abbrev pub IsSorted : List PoolTask → Type 0
IsSorted [] = Unit
IsSorted (t ∷ queue) = IsSortedBelow t.priority queue

-- How many tasks at the front outrank a priority.
rank : ℕ → List PoolTask → ℕ
rank p [] = 0
rank p (t ∷ queue) = if ltb p t.priority then suc (rank p queue) else 0

rank-le : (p : ℕ) (queue : List PoolTask) → rank p queue ≤ length queue
unfolding rank
rank-le p [] = omega arith
rank-le p (t ∷ queue) = ground (arith, rank-le p queue)

-- Nothing outranks a priority that bounds a sorted queue.
outranks_below :
    (p bound i : ℕ) (queue : List PoolTask)
    → bound ≤ p
    → IsSortedBelow bound queue
    → outranks (get_elem? queue i) p ≡ false
outranks_below p bound i [] h s = refl
outranks_below p bound zero (t ∷ queue) h s = ground (arith, s.0)
outranks_below p bound (suc i) (t ∷ queue) h s =
    outranks_below p t.priority i queue (omega (arith, s.0)) s.1

-- In a sorted queue the tasks that outrank a priority are those at the front.
outranks-rank :
    (p bound i : ℕ) (queue : List PoolTask)
    → IsSortedBelow bound queue
    → outranks (get_elem? queue i) p ≡ ltb i (rank p queue)
unfolding rank
outranks-rank p bound i [] s = ground arith
outranks-rank p bound zero (t ∷ queue) s = ground arith
outranks-rank p bound (suc i) (t ∷ queue) s = elim (Bool-cases (ltb p t.priority)) [
  | inl more ↦ rw more (outranks-rank p t.priority i queue s.1 ∙ ground arith)
  | inr less ↦ rw less (outranks_below p t.priority i queue (ground arith) s.1 ∙ ground arith)
]

insertion_point-rank :
    (fuel : ℕ) (queue : List PoolTask) (p lo hi bound : ℕ)
    → IsSortedBelow bound queue
    → lo ≤ rank p queue
    → rank p queue ≤ hi
    → hi ≤ lo + fuel
    → insertion_point fuel queue p lo hi ≡ rank p queue
unfolding insertion_point
insertion_point-rank zero queue p lo hi bound s h k f = omega arith
insertion_point-rank (suc fuel) queue p lo hi bound s h k f = ground (
  arith,
  outranks-rank p bound ((lo + hi) / 2) queue s,
  insertion_point-rank fuel queue p ((lo + hi) / 2 + 1) hi bound s,
  insertion_point-rank fuel queue p lo ((lo + hi) / 2) bound s,
)

splice-rank :
    (task : PoolTask) (queue : List PoolTask)
    → splice queue (rank task.priority queue) task ≡ insert_before task queue
unfolding rank insert_before
splice-rank task [] = refl
splice-rank task (t ∷ queue) = elim (Bool-cases (ltb task.priority t.priority)) [
  | inl more ↦ rw more (ap (◌∷◌ t) (splice-rank task queue))
  | inr less ↦ rw less refl
]

IsSorted-below : (queue : List PoolTask) → IsSorted queue → (bound : ℕ) × IsSortedBelow bound queue
IsSorted-below [] s = (0, tt)
IsSorted-below (t ∷ queue) s = (t.priority, (omega arith, s))

-- On a queue that is sorted by falling priority, the binary search puts the task where a walk from
-- the front would: behind all tasks of higher priority and before all others, also those of equal
-- priority.
pub insert-insert_before :
    (task : PoolTask) (queue : List PoolTask)
    → IsSorted queue
    → insert task queue ≡ insert_before task queue
unfolding insert
insert-insert_before task queue s =
    let (bound, below) = IsSorted-below queue s in
    let found =
      insertion_point-rank (length queue) queue task.priority 0 (length queue) bound below
        (omega arith) (rank-le task.priority queue) (omega arith) in
    rw found (splice-rank task queue)

insert_before-IsSortedBelow :
    (task : PoolTask) (bound : ℕ) (queue : List PoolTask)
    → task.priority ≤ bound
    → IsSortedBelow bound queue
    → IsSortedBelow bound (insert_before task queue)
unfolding insert_before
insert_before-IsSortedBelow task bound [] h s = (h, tt)
insert_before-IsSortedBelow task bound (t ∷ queue) h s =
    ground (arith, insert_before-IsSortedBelow task t.priority queue)

-- `enqueue` keeps the queue sorted.
pub insert-IsSorted :
    (task : PoolTask) (queue : List PoolTask) → IsSorted queue → IsSorted (insert task queue)
unfolding insert_before
insert-IsSorted task [] s = rw (insert-insert_before task [] s) tt
insert-IsSorted task (t ∷ queue) s =
    rw (insert-insert_before task (t ∷ queue) s)
      (ground (arith, insert_before-IsSortedBelow task t.priority queue))

-- One task more.
pub length-insert :
    (task : PoolTask) (queue : List PoolTask) → length (insert task queue) ≡ suc (length queue)
unfolding insert
length-insert task queue =
    let i = insertion_point (length queue) queue task.priority 0 (length queue) in
    omega (
      arith,
      length-append (take i queue) (task ∷ drop i queue),
      ap length (take-append-drop i queue),
      length-append (take i queue) (drop i queue),
    )

pub IsSorted-tail : (t : PoolTask) (queue : List PoolTask) → IsSorted (t ∷ queue) → IsSorted queue
IsSorted-tail t [] s = tt
IsSorted-tail t (u ∷ queue) s = s.1
