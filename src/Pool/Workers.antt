-- ===== src/Pool/Workers.antt =====
-- core/worker-pool.ts: choosing, spawning, assigning and releasing workers.
pub mod Laws
use ather.Base.{
  ltb, ◌==◌, if◌then◌else◌, length, ℕ, suc, ◌+◌, String, Bool, ◌&&◌, Option, none, some, List, [],
  ◌∷◌, ◌++◌,
}
use ather.Pool.{
  WorkerPool, Worker, PoolTask, Settlement, idle, busy, resolved, rejected, is_idle, is_busy,
}
use ather.Pool.Queue.{enqueue}

abbrev better : Option Worker → Worker → Option Worker
better none w = if is_idle w then some w else none
better (some b) w = if is_idle w && ltb b.tasks_completed w.tasks_completed then some w else some b

-- The loop of `findIdleWorker`: the first of the idle workers with the most completions.
find_idle_from : Option Worker → List Worker → Option Worker
find_idle_from best [] = best
find_idle_from best (w ∷ workers) = find_idle_from (better best w) workers

unfoldable pub find_idle_worker : List Worker → Option Worker
unfolding find_idle_from
find_idle_worker = find_idle_from none

-- An assignment to fields of the worker object with this id.
unfoldable pub modify : ℕ → (Worker → Worker) → List Worker → List Worker
modify id f [] = []
modify id f (w ∷ workers) = if w.id == id then f w ∷ workers else w ∷ modify id f workers

unfoldable pub count : (Worker → Bool) → List Worker → ℕ
count p [] = 0
count p (w ∷ workers) = if p w then suc (count p workers) else count p workers

unfoldable pub update_metrics : WorkerPool → WorkerPool
unfolding count
update_metrics p = record p {
  metrics = record (p.metrics) {
    total_workers = length p.workers;
    active_workers = count is_busy p.workers;
    idle_workers = count is_idle p.workers;
  };
}

abbrev pub start_task : PoolTask → ℕ → Worker → Worker
start_task task now w = record w {
  status = busy;
  current_task_id = some task.id;
  current_task = some task;
  task_start_time = some now;
}

-- `assignTask`. The call of `executeInWorker` at its end starts the executor; what comes of it is an
-- event of its own, `finish`.
unfoldable pub assign_task : WorkerPool → Worker → PoolTask → ℕ → WorkerPool
unfolding update_metrics modify
assign_task p worker task now =
    update_metrics (record p { workers = modify worker.id (start_task task now) p.workers })

-- `this.taskQueue.shift()` and the metric that follows it.
abbrev pub shift_queue : WorkerPool → List PoolTask → WorkerPool
shift_queue p rest = record p {
  task_queue = rest;
  metrics = record (p.metrics) { queue_length = length rest };
}

-- `dispatchNext`, with the queue as an argument.
unfoldable pub dispatch : WorkerPool → List PoolTask → ℕ → WorkerPool
unfolding assign_task find_idle_worker
dispatch p [] now = p
dispatch p (task ∷ rest) now = elim (find_idle_worker p.workers) [
  | none ↦ p
  | some worker ↦ assign_task (shift_queue p rest) worker task now
]

unfoldable pub dispatch_next : WorkerPool → ℕ → WorkerPool
unfolding dispatch
dispatch_next p now = dispatch p p.task_queue now

abbrev pub release : ℕ → Worker → Worker
release now w = record w {
  status = idle;
  current_task_id = none;
  last_active_at = now;
  current_task = none;
  task_start_time = none;
}

-- `onTaskComplete`. Its second argument, the id of the task, is not used.
unfoldable pub on_task_complete : WorkerPool → ℕ → ℕ → WorkerPool
unfolding update_metrics modify dispatch_next
on_task_complete p worker now =
    dispatch_next (update_metrics (record p { workers = modify worker (release now) p.workers }))
      now

-- What the executor's promise, or its timeout, comes to.
pub data Outcome : Type 0 where
  fulfilled : (value : String) → Outcome
  failed : (error : String) → Outcome

abbrev pub settle : Settlement → WorkerPool → WorkerPool
settle s p = record p { settled = s ∷ p.settled }

-- The `try` and `catch` blocks of `executeInWorker`, for the worker and the task that it was
-- called with.
unfoldable pub conclude : WorkerPool → ℕ → PoolTask → Outcome → WorkerPool
unfolding modify enqueue
conclude p worker task (fulfilled value) = settle (resolved task.id value) (record p {
  workers = modify worker (λ w. record w { tasks_completed = w.tasks_completed + 1 }) p.workers;
  metrics = record (p.metrics) { total_tasks_processed = p.metrics.total_tasks_processed + 1 };
})
conclude p worker task (failed error) =
    if ltb task.retries p.config.max_retries
    then enqueue p (record task { retries = task.retries + 1 })
    else settle (rejected task.id error) (record p {
      workers =
          modify worker
            (λ w. record w { tasks_failed = w.tasks_failed + 1; errors = w.errors ++ (error ∷ []) })
            p.workers;
      metrics = record (p.metrics) { total_tasks_failed = p.metrics.total_tasks_failed + 1 };
    })

-- The rest of `executeInWorker`, from the moment that its race is decided.
unfoldable pub finish : WorkerPool → ℕ → PoolTask → Outcome → ℕ → WorkerPool
unfolding conclude on_task_complete
finish p worker task outcome now = on_task_complete (conclude p worker task outcome) worker now

-- `spawnWorker`.
unfoldable pub spawn_worker : WorkerPool → ℕ → WorkerPool
unfolding update_metrics
spawn_worker p now = update_metrics (record p {
  id_counter = p.id_counter + 1;
  workers =
      p.workers
      ++ (record {
        id = p.id_counter + 1;
        status = idle;
        tasks_completed = 0;
        tasks_failed = 0;
        current_task_id = none;
        last_active_at = now;
        created_at = now;
        errors = [];
        current_task = none;
        task_start_time = none;
      }
          ∷ []);
})
