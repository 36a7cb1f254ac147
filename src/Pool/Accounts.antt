-- ===== src/Pool/Accounts.antt =====
-- core/worker-pool.ts: the invariant of the pool, and where each submitted task is.
use ather.Base.{
  ltb, ◌==◌, if◌then◌else◌, Bool-cases, Option-cases, length, take, drop, All, take-append-drop, ℕ,
  ◌+◌, ◌≤◌, ◌≡◌, refl, ap, subst, inl, inr, some, List, [], ◌∷◌, ◌++◌, arith,
}
use ather.Pool.{WorkerPool, Worker, PoolTask, Settlement, resolved, rejected}
use ather.Pool.Queue.{enqueue, IsSorted, IsSorted-tail, insert-IsSorted, insert, insertion_point}
use ather.Pool.Workers.{
  shift_queue, assign_task, find_idle_worker, modify, update_metrics, dispatch, on_task_complete,
  Outcome, fulfilled, failed, conclude, start_task, release,
}
use ather.Pool.Workers.Laws.{
  All-find, held-idle, is_task, ids, find, held, holding, IsDistinct, IsHonest, ids-modify,
  modify-All, holding-modify, holding-modify_keep, find_idle_worker-find,
}

-- The queue is sorted by falling priority, worker ids are distinct and were given out by the
-- counter, and an idle worker has no task.
pub record Inv (p : WorkerPool) : Type 0 where
  pub sorted : IsSorted p.task_queue
  pub distinct : IsDistinct (ids p.workers)
  pub fresh : All (λ i. i ≤ p.id_counter) (ids p.workers)
  pub honest : All IsHonest p.workers

-- How often a task waits.
abbrev pub queued : ℕ → List PoolTask → ℕ
queued t [] = 0
queued t (task ∷ queue) = is_task t task + queued t queue

abbrev is_settlement : ℕ → Settlement → ℕ
is_settlement t (resolved task value) = if task == t then 1 else 0
is_settlement t (rejected task error) = if task == t then 1 else 0

-- How often a task was settled.
abbrev pub settlements : ℕ → List Settlement → ℕ
settlements t [] = 0
settlements t (s ∷ settled) = is_settlement t s + settlements t settled

-- How often a task waits, runs or was settled.
unfoldable pub accounted : ℕ → WorkerPool → ℕ
accounted t p = queued t p.task_queue + holding t p.workers + settlements t p.settled

queued-append : (t : ℕ) (xs ys : List PoolTask) → queued t (xs ++ ys) ≡ queued t xs + queued t ys
queued-append t [] ys = omega arith
queued-append t (x ∷ xs) ys = omega (arith, queued-append t xs ys)

-- Wherever a task is inserted, it is the one that is added.
pub queued-insert :
    (t : ℕ) (task : PoolTask) (queue : List PoolTask)
    → queued t (insert task queue) ≡ is_task t task + queued t queue
unfolding insert
queued-insert t task queue =
    let i = insertion_point (length queue) queue task.priority 0 (length queue) in
    omega (
      arith,
      queued-append t (take i queue) (task ∷ drop i queue),
      ap (queued t) (take-append-drop i queue),
      queued-append t (take i queue) (drop i queue),
    )

-- A change of one worker that keeps its id and leaves it honest.
pub modify-Inv :
    (p : WorkerPool) (id : ℕ) (f : Worker → Worker)
    → ((w : Worker) → (f w).id ≡ w.id)
    → ((w : Worker) → IsHonest w → IsHonest (f w))
    → Inv p
    → Inv (record p { workers = modify id f p.workers })
modify-Inv p id f same keep v = record {
  sorted = v.sorted;
  distinct = rw (ids-modify id f p.workers same) v.distinct;
  fresh = rw (ids-modify id f p.workers same) v.fresh;
  honest = modify-All IsHonest id f p.workers keep v.honest;
}

pub assign_task-Inv :
    (p : WorkerPool) (w : Worker) (task : PoolTask) (now : ℕ)
    → Inv p
    → Inv (assign_task p w task now)
unfolding assign_task
assign_task-Inv p w task now v =
    let changed = modify-Inv p w.id (start_task task now) (λ w. refl) (λ w h b. cc) v in
    record {
      sorted = changed.sorted;
      distinct = changed.distinct;
      fresh = changed.fresh;
      honest = changed.honest;
    }

-- The idle worker that is chosen takes the task into the account.
pub assign_task-accounted :
    (t : ℕ) (p : WorkerPool) (w : Worker) (task : PoolTask) (now : ℕ)
    → Inv p
    → find_idle_worker p.workers ≡ some w
    → accounted t (assign_task p w task now) ≡ accounted t p + is_task t task
unfolding assign_task accounted
assign_task-accounted t p w task now v found =
    let (h, here) = find_idle_worker-find p.workers w v.distinct found in
    let free = held-idle t w (All-find IsHonest w.id p.workers w v.honest here) h in
    omega (arith, free, holding-modify t w.id (start_task task now) p.workers w here)

-- Taking the first task off the queue.
pub shift_queue-Inv :
    (p : WorkerPool) (task : PoolTask) (rest : List PoolTask)
    → p.task_queue ≡ task ∷ rest
    → Inv p
    → Inv (shift_queue p rest)
shift_queue-Inv p task rest e v = record {
  sorted = IsSorted-tail task rest (subst IsSorted e v.sorted);
  distinct = v.distinct;
  fresh = v.fresh;
  honest = v.honest;
}

pub dispatch-Inv :
    (p : WorkerPool) (queue : List PoolTask) (now : ℕ)
    → p.task_queue ≡ queue
    → Inv p
    → Inv (dispatch p queue now)
unfolding dispatch
dispatch-Inv p [] now e v = v
dispatch-Inv p (task ∷ rest) now e v = elim (Option-cases (find_idle_worker p.workers)) [
  | inl all_busy ↦ rw (all_busy, dispatch) v
  | inr (w, found) ↦
      rw (found, dispatch)
        (assign_task-Inv (shift_queue p rest) w task now (shift_queue-Inv p task rest e v))
]

pub dispatch-accounted :
    (t : ℕ) (p : WorkerPool) (queue : List PoolTask) (now : ℕ)
    → p.task_queue ≡ queue
    → Inv p
    → accounted t (dispatch p queue now) ≡ accounted t p
unfolding dispatch accounted
dispatch-accounted t p [] now e v = refl
dispatch-accounted t p (task ∷ rest) now e v = elim (Option-cases (find_idle_worker p.workers)) [
  | inl all_busy ↦ rw (all_busy, dispatch) refl
  | inr (w, found) ↦
      rw (found, dispatch)
        (omega (
          arith,
          ap (queued t) e,
          assign_task-accounted t (shift_queue p rest) w task now (shift_queue-Inv p task rest e v)
              found,
        ))
]

pub on_task_complete-Inv : (p : WorkerPool) (id now : ℕ) → Inv p → Inv (on_task_complete p id now)
unfolding on_task_complete
on_task_complete-Inv p id now v =
    let changed = modify-Inv p id (release now) (λ w. refl) (λ w h b. refl) v in
    dispatch-Inv (update_metrics (record p { workers = modify id (release now) p.workers }))
      p.task_queue now refl
      (record {
        sorted = changed.sorted;
        distinct = changed.distinct;
        fresh = changed.fresh;
        honest = changed.honest;
      })

-- `onTaskComplete` for a worker takes its task, if it has one, out of the account.
pub on_task_complete-accounted :
    (t : ℕ) (p : WorkerPool) (id now : ℕ) (w : Worker)
    → Inv p
    → find id p.workers ≡ some w
    → accounted t (on_task_complete p id now) + held t w ≡ accounted t p
unfolding on_task_complete accounted
on_task_complete-accounted t p id now w v here =
    let changed = modify-Inv p id (release now) (λ w. refl) (λ w h b. refl) v in
    let freed = update_metrics (record p { workers = modify id (release now) p.workers }) in
    let v' : Inv freed = record {
      sorted = changed.sorted;
      distinct = changed.distinct;
      fresh = changed.fresh;
      honest = changed.honest;
    } in
    omega (
      arith,
      dispatch-accounted t freed p.task_queue now refl v',
      holding-modify t id (release now) p.workers w here,
    )

pub enqueue-Inv : (p : WorkerPool) (task : PoolTask) → Inv p → Inv (enqueue p task)
unfolding enqueue
enqueue-Inv p task v = record {
  sorted = insert-IsSorted task p.task_queue v.sorted;
  distinct = v.distinct;
  fresh = v.fresh;
  honest = v.honest;
}

pub conclude-Inv :
    (p : WorkerPool) (id : ℕ) (task : PoolTask) (outcome : Outcome)
    → Inv p
    → Inv (conclude p id task outcome)
unfolding conclude
conclude-Inv p id task (fulfilled value) v =
    let changed =
      modify-Inv p id (λ w. record w { tasks_completed = w.tasks_completed + 1 }) (λ w. refl)
        (λ w h b. h b) v in
    record {
      sorted = changed.sorted;
      distinct = changed.distinct;
      fresh = changed.fresh;
      honest = changed.honest;
    }
conclude-Inv p id task (failed error) v =
    elim (Bool-cases (ltb task.retries p.config.max_retries)) [
      | inl again ↦ rw again (enqueue-Inv p (record task { retries = task.retries + 1 }) v)
      | inr over ↦
          let changed =
            modify-Inv p id
              (λ w. record w {
                tasks_failed = w.tasks_failed + 1;
                errors = w.errors ++ (error ∷ []);
              })
              (λ w. refl) (λ w h b. h b) v in
          rw over (record {
            sorted = changed.sorted;
            distinct = changed.distinct;
            fresh = changed.fresh;
            honest = changed.honest;
          })
    ]

-- Every outcome adds its task to the account: it is settled, or queued again.
pub conclude-accounted :
    (t : ℕ) (p : WorkerPool) (id : ℕ) (task : PoolTask) (outcome : Outcome)
    → accounted t (conclude p id task outcome) ≡ accounted t p + is_task t task
unfolding conclude accounted enqueue
conclude-accounted t p id task (fulfilled value) = omega (
  arith,
  holding-modify_keep t id (λ w. record w { tasks_completed = w.tasks_completed + 1 }) p.workers
      (λ w. refl),
)
conclude-accounted t p id task (failed error) = ground (
  arith,
  queued-insert t (record task { retries = task.retries + 1 }) p.task_queue,
  holding-modify_keep t id
      (λ w. record w { tasks_failed = w.tasks_failed + 1; errors = w.errors ++ (error ∷ []) })
      p.workers (λ w. refl),
)
