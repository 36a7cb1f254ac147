-- ===== src/Pool/Tasks.antt =====
-- core/worker-pool.ts: what becomes of tasks.
use ather.Base.{
  ltb, Bool-cases, Option-cases, if_ind, All-mono, ℕ, ◌+◌, ◌≤◌, String, ◌≡◌, refl, ap, ◌∙◌, inl,
  inr, Option, some, List, [], ◌∷◌, ◌++◌, arith,
}
use ather.Pool.{WorkerPool, Worker, PoolTask, rejected}
use ather.Pool.Queue.{enqueue}
use ather.Pool.Workers.{
  find_idle_worker, assign_task, dispatch_next, settle, Outcome, fulfilled, failed, conclude,
  finish,
}
use ather.Pool.Workers.Laws.{is_task, ids, find, held, find-modify}
use ather.Pool.Accounts.{
  queued, queued-insert, assign_task-accounted, assign_task-Inv, shift_queue-Inv, Inv, accounted,
  dispatch-Inv, dispatch-accounted, on_task_complete-Inv, on_task_complete-accounted, enqueue-Inv,
  conclude-Inv, conclude-accounted,
}
use ather.Pool.Steps.{
  stolen, new_task, count_up, submit, steal_from, attempt_task_stealing, is_stuck, check_worker,
  check_workers, health_check,
}

-- `finish` keeps the invariant, whatever worker and task it is for.
pub finish-Inv :
    (p : WorkerPool) (id : ℕ) (task : PoolTask) (outcome : Outcome) (now : ℕ)
    → Inv p
    → Inv (finish p id task outcome now)
unfolding finish
finish-Inv p id task outcome now v =
    on_task_complete-Inv (conclude p id task outcome) id now (conclude-Inv p id task outcome v)

-- The worker's hold on its task is left to `onTaskComplete`.
pub find-conclude :
    (p : WorkerPool) (id : ℕ) (task : PoolTask) (outcome : Outcome) (w : Worker)
    → find id p.workers ≡ some w
    → (w' : Worker) × (find id (conclude p id task outcome).workers ≡ some w')
      × (w'.current_task ≡ w.current_task)
unfolding conclude enqueue
find-conclude p id task (fulfilled value) w e =
    let f : Worker → Worker = λ w. record w { tasks_completed = w.tasks_completed + 1 } in
    (f w, rw (find-modify id f p.workers (λ w. refl), e) refl, refl)
find-conclude p id task (failed error) w e =
    elim (Bool-cases (ltb task.retries p.config.max_retries)) [
      | inl again ↦ rw again (w, e, refl)
      | inr over ↦
          let f : Worker → Worker = λ w. record w {
            tasks_failed = w.tasks_failed + 1;
            errors = w.errors ++ (error ∷ []);
          } in
          rw over (f w, rw (find-modify id f p.workers (λ w. refl), e) refl, refl)
    ]

-- When a worker reports the outcome of its task, every task waits, runs or is settled as often as
-- before: the task of the worker is settled or waits again, no other is lost or added.
pub accounted-finish :
    (t : ℕ) (p : WorkerPool) (id : ℕ) (task : PoolTask) (outcome : Outcome) (now : ℕ) (w : Worker)
    → Inv p
    → find id p.workers ≡ some w
    → w.current_task ≡ some task
    → accounted t (finish p id task outcome now) ≡ accounted t p
unfolding finish
accounted-finish t p id task outcome now w v here has_task =
    let (w', here', same) = find-conclude p id task outcome w here in
    let one : held t w' ≡ is_task t task = ground (arith, same, has_task) in
    omega (
      arith,
      one,
      on_task_complete-accounted t (conclude p id task outcome) id now w'
          (conclude-Inv p id task outcome v) here',
      conclude-accounted t p id task outcome,
    )

count_up-Inv : (p : WorkerPool) → Inv p → Inv (count_up p)
count_up-Inv p v = record {
  sorted = v.sorted;
  distinct = v.distinct;
  fresh =
      All-mono (λ i. i ≤ p.id_counter) (λ i. i ≤ p.id_counter + 1) (ids p.workers)
        (λ i h. omega arith) v.fresh;
  honest = v.honest;
}

accounted-count_up : (t : ℕ) (p : WorkerPool) → accounted t (count_up p) ≡ accounted t p
unfolding accounted
accounted-count_up t p = refl

accounted-enqueue :
    (t : ℕ) (p : WorkerPool) (task : PoolTask)
    → accounted t (enqueue p task) ≡ accounted t p + is_task t task
unfolding accounted enqueue
accounted-enqueue t p task = omega (arith, queued-insert t task p.task_queue)

pub submit-Inv :
    (p : WorkerPool) (payload : String) (priority : ℕ) (timeout : Option ℕ) (now : ℕ)
    → Inv p
    → Inv (submit p payload priority timeout now)
unfolding submit dispatch_next
submit-Inv p payload priority timeout now v =
    let task = new_task p payload priority timeout now in
    let q = enqueue (count_up p) task in
    dispatch-Inv q q.task_queue now refl (enqueue-Inv (count_up p) task (count_up-Inv p v))

-- `submit` adds the new task.
pub accounted-submit :
    (t : ℕ) (p : WorkerPool) (payload : String) (priority : ℕ) (timeout : Option ℕ) (now : ℕ)
    → Inv p
    → accounted t (submit p payload priority timeout now)
      ≡ accounted t p + is_task t (new_task p payload priority timeout now)
unfolding submit dispatch_next
accounted-submit t p payload priority timeout now v =
    let task = new_task p payload priority timeout now in
    let q = enqueue (count_up p) task in
    omega (
      arith,
      dispatch-accounted t q q.task_queue now refl
          (enqueue-Inv (count_up p) task (count_up-Inv p v)),
      accounted-enqueue t (count_up p) task,
      accounted-count_up t p,
    )

stolen-Inv :
    (p : WorkerPool) (task : PoolTask) (rest : List PoolTask)
    → p.task_queue ≡ task ∷ rest
    → Inv p
    → Inv (stolen p rest)
stolen-Inv p task rest e v =
    let shifted = shift_queue-Inv p task rest e v in
    record {
      sorted = shifted.sorted;
      distinct = shifted.distinct;
      fresh = shifted.fresh;
      honest = shifted.honest;
    }

steal_from-Inv :
    (t : ℕ) (queue : List PoolTask) (p : WorkerPool) (now : ℕ)
    → p.task_queue ≡ queue
    → Inv p
    → Inv (steal_from p queue now) × (accounted t (steal_from p queue now) ≡ accounted t p)
unfolding steal_from accounted assign_task
steal_from-Inv t [] p now e v = (v, refl)
steal_from-Inv t (task ∷ rest) p now e v = elim (Option-cases (find_idle_worker p.workers)) [
  | inl none_idle ↦ rw (none_idle, steal_from) (v, refl)
  | inr (w, found) ↦
      let q = stolen p rest in
      let qv = stolen-Inv p task rest e v in
      let (rest_Inv, same) =
        steal_from-Inv t rest (assign_task q w task now) now refl
          (assign_task-Inv q w task now qv) in
      rw (found, steal_from)
        (
          rest_Inv,
          omega (arith, same, ap (queued t) e, assign_task-accounted t q w task now qv found),
        )
]

check_worker-Inv :
    (t : ℕ) (p : WorkerPool) (id now : ℕ)
    → Inv p
    → Inv (check_worker p id now) × (accounted t (check_worker p id now) ≡ accounted t p)
unfolding check_worker accounted
check_worker-Inv t p id now v = elim (Option-cases (find id p.workers)) [
  | inl missing ↦ rw (missing, check_worker) (v, refl)
  | inr (w, here) ↦ elim (Bool-cases (is_stuck p.config now w)) [
    | inl stuck ↦ elim (Option-cases w.current_task) [
      | inl free ↦ rw (here, check_worker, stuck, free) (v, refl)
      | inr (task, has_task) ↦
          let q = settle (rejected task.id "Worker stuck — timeout exceeded") p in
          let qv : Inv q = record {
            sorted = v.sorted;
            distinct = v.distinct;
            fresh = v.fresh;
            honest = v.honest;
          } in
          let one : held t w ≡ is_task t task = ground (arith, has_task) in
          rw (here, check_worker, stuck, has_task)
            (
              on_task_complete-Inv q id now qv,
              omega (arith, one, on_task_complete-accounted t q id now w qv here),
            )
    ]
    | inr fine ↦ rw (here, check_worker, fine) (v, refl)
  ]
]

check_workers-Inv :
    (t : ℕ) (workers : List Worker) (p : WorkerPool) (now : ℕ)
    → Inv p
    → Inv (check_workers p workers now)
      × (accounted t (check_workers p workers now) ≡ accounted t p)
unfolding check_workers
check_workers-Inv t [] p now v = (v, refl)
check_workers-Inv t (w ∷ workers) p now v =
    let (v', same) = check_worker-Inv t p w.id now v in
    let (v'', same') = check_workers-Inv t workers (check_worker p w.id now) now v' in
    (v'', same' ∙ same)

-- A health check settles a stuck task when it takes it from its worker, and hands out waiting tasks:
-- it keeps the invariant, and every task waits, runs or is settled as often as before.
pub health_check-Inv :
    (t : ℕ) (p : WorkerPool) (now : ℕ)
    → Inv p
    → Inv (health_check p now) × (accounted t (health_check p now) ≡ accounted t p)
unfolding health_check attempt_task_stealing
health_check-Inv t p now v =
    if_ind (λ q. Inv q × (accounted t q ≡ accounted t p)) p.running
      (λ on.
        let (v', same) = check_workers-Inv t p.workers p now v in
        let q = check_workers p p.workers now in
        let (v'', same') = steal_from-Inv t q.task_queue q now refl v' in (v'', same' ∙ same))
      (λ off. (v, refl))
