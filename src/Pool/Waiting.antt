-- ===== src/Pool/Waiting.antt =====
-- core/worker-pool.ts: waiting tasks and idle workers.
use ather.Base.{
  ltb, Option-cases, if_ind, length, ℕ, suc, ◌+◌, ◌≤◌, String, ◌≡◌, refl, ap, ◌⊎◌, inl, inr, true,
  Option, some, List, [], ◌∷◌, ◌++◌, arith,
}
use ather.Pool.{WorkerPool, Worker, PoolTask, is_idle}
use ather.Pool.Queue.{enqueue, length-insert}
use ather.Pool.Workers.{
  update_metrics, find_idle_worker, modify, count, assign_task, shift_queue, dispatch,
  dispatch_next, on_task_complete, Outcome, fulfilled, failed, conclude, finish, start_task,
  release,
}
use ather.Pool.Workers.Laws.{
  count-modify, count-modify-le, count-modify_lt, find_idle_worker-find, find_idle_worker-eq-none,
  ids-modify, ids, IsDistinct,
}
use ather.Pool.Accounts.{Inv}
use ather.Pool.Steps.{
  new_task, count_up, submit, stolen, steal_from, check_workers, attempt_task_stealing,
  health_check,
}

-- No task waits, or no worker is idle.
abbrev pub IsBusy : WorkerPool → Type 0
IsBusy p = (p.task_queue ≡ []) ⊎ (count is_idle p.workers ≡ 0)

count-assign_task :
    (p : WorkerPool) (w : Worker) (task : PoolTask) (now : ℕ)
    → IsDistinct (ids p.workers)
    → find_idle_worker p.workers ≡ some w
    → suc (count is_idle (assign_task p w task now).workers) ≡ count is_idle p.workers
unfolding assign_task
count-assign_task p w task now d found =
    let (h, here) = find_idle_worker-find p.workers w d found in
    count-modify_lt w.id (start_task task now) p.workers w here h refl

nil_of_length : (queue : List PoolTask) → length queue ≡ 0 → queue ≡ []
nil_of_length [] e = refl
nil_of_length (t ∷ queue) e = absurd (omega arith)

-- One dispatch is enough for one waiting task, or for one idle worker.
dispatch-IsBusy :
    (p : WorkerPool) (queue : List PoolTask) (now : ℕ)
    → p.task_queue ≡ queue
    → IsDistinct (ids p.workers)
    → (length queue ≤ 1) ⊎ (count is_idle p.workers ≤ 1)
    → IsBusy (dispatch p queue now)
unfolding dispatch assign_task
dispatch-IsBusy p [] now e d h = inl e
dispatch-IsBusy p (task ∷ rest) now e d h = elim (Option-cases (find_idle_worker p.workers)) [
  | inl none_idle ↦ rw (none_idle, dispatch) (inr (find_idle_worker-eq-none p.workers none_idle))
  | inr (w, found) ↦
      let fewer = count-assign_task (shift_queue p rest) w task now d found in
      rw (found, dispatch)
        (elim h [
          | inl short ↦ inl (nil_of_length rest (omega arith))
          | inr few ↦ inr (omega (arith, fewer))
        ])
]

-- A pool that keeps its workers busy still does when a task is submitted.
pub submit-IsBusy :
    (p : WorkerPool) (payload : String) (priority : ℕ) (timeout : Option ℕ) (now : ℕ)
    → Inv p
    → IsBusy p
    → IsBusy (submit p payload priority timeout now)
unfolding submit dispatch_next enqueue
submit-IsBusy p payload priority timeout now v h =
    let task = new_task p payload priority timeout now in
    let q = enqueue (count_up p) task in
    dispatch-IsBusy q q.task_queue now refl v.distinct (elim h [
      | inl empty ↦ inl (omega (arith, length-insert task p.task_queue, ap length empty))
      | inr all_busy ↦ inr (omega (arith, all_busy))
    ])

record IsConclusion (p q : WorkerPool) : Type 0 where
  idle_kept : count is_idle q.workers ≡ count is_idle p.workers
  at_most : length q.task_queue ≤ length p.task_queue + 1
  same_ids : ids q.workers ≡ ids p.workers

conclude-IsConclusion :
    (p : WorkerPool) (id : ℕ) (task : PoolTask) (outcome : Outcome)
    → IsConclusion p (conclude p id task outcome)
unfolding conclude enqueue
conclude-IsConclusion p id task (fulfilled value) =
    let f : Worker → Worker = λ w. record w { tasks_completed = w.tasks_completed + 1 } in
    record {
      idle_kept = count-modify id f p.workers (λ w. refl);
      at_most = omega arith;
      same_ids = ids-modify id f p.workers (λ w. refl);
    }
conclude-IsConclusion p id task (failed error) =
    let f : Worker → Worker =
      λ w. record w { tasks_failed = w.tasks_failed + 1; errors = w.errors ++ (error ∷ []) } in
    if_ind (IsConclusion p) (ltb task.retries p.config.max_retries)
      (λ again. record {
        idle_kept = refl;
        at_most =
            omega (arith, length-insert (record task { retries = task.retries + 1 }) p.task_queue);
        same_ids = refl;
      })
      (λ over. record {
        idle_kept = count-modify id f p.workers (λ w. refl);
        at_most = omega arith;
        same_ids = ids-modify id f p.workers (λ w. refl);
      })

-- Nor does it leave a task beside an idle worker when a worker is done with its task, also when the
-- task has failed and is queued again.
pub finish-IsBusy :
    (p : WorkerPool) (id : ℕ) (task : PoolTask) (outcome : Outcome) (now : ℕ)
    → Inv p
    → IsBusy p
    → IsBusy (finish p id task outcome now)
unfolding finish on_task_complete dispatch_next
finish-IsBusy p id task outcome now v h =
    let q = conclude p id task outcome in
    let c = conclude-IsConclusion p id task outcome in
    let freed = update_metrics (record q { workers = modify id (release now) q.workers }) in
    dispatch-IsBusy freed q.task_queue now refl
      (rw (ids-modify id (release now) q.workers (λ w. refl), c.same_ids) v.distinct)
      (elim h [
        | inl empty ↦ inl (omega (arith, c.at_most, ap length empty))
        | inr all_busy ↦
            inr (omega (arith, c.idle_kept, count-modify-le id (release now) q.workers))
      ])

steal_from-IsBusy :
    (queue : List PoolTask) (p : WorkerPool) (now : ℕ)
    → p.task_queue ≡ queue
    → IsBusy (steal_from p queue now)
unfolding steal_from assign_task
steal_from-IsBusy [] p now e = inl e
steal_from-IsBusy (task ∷ rest) p now e = elim (Option-cases (find_idle_worker p.workers)) [
  | inl none_idle ↦ rw (none_idle, steal_from) (inr (find_idle_worker-eq-none p.workers none_idle))
  | inr (w, found) ↦
      rw (found, steal_from)
        (steal_from-IsBusy rest (assign_task (stolen p rest) w task now) now refl)
]

-- After a health check of a running pool no task waits beside an idle worker, whatever stood before.
pub health_check-IsBusy :
    (p : WorkerPool) (now : ℕ) → p.running ≡ true → IsBusy (health_check p now)
unfolding health_check attempt_task_stealing
health_check-IsBusy p now on =
    if_ind IsBusy p.running
      (λ _.
        steal_from-IsBusy (check_workers p p.workers now).task_queue (check_workers p p.workers now)
          now refl)
      (λ off. absurd (cc on))
