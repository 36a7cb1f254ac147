-- ===== src/Pool/Steps.antt =====
-- core/worker-pool.ts: the calls and timers of the pool. Each runs to its end before the next one,
-- as the event loop runs them, with one reading of the clock.
use ather.Base.{
  ltb, leb, ◌==◌, if◌then◌else◌, or_else, length, take, filter, ℕ, zero, suc, ◌+◌, ◌-◌, ◌*◌, ◌/◌,
  min, String, Bool, true, false, ◌&&◌, not, Option, none, some, List, [], ◌∷◌,
}
use ather.Pool.{
  WorkerPool, WorkerPoolConfig, Worker, PoolTask, Settlement, draining, rejected, is_idle, is_busy,
}
use ather.Pool.Queue.{enqueue}
use ather.Pool.Workers.Laws.{find}
use ather.Pool.Workers.{
  find_idle_worker, modify, update_metrics, assign_task, dispatch_next, on_task_complete, settle,
  spawn_worker,
}

-- The constructor.
unfoldable pub new : WorkerPoolConfig → WorkerPool
new config = record {
  config = config;
  workers = [];
  task_queue = [];
  running = false;
  id_counter = 0;
  metrics = record {
    total_workers = 0;
    active_workers = 0;
    idle_workers = 0;
    queue_length = 0;
    total_tasks_processed = 0;
    total_tasks_failed = 0;
    task_steal_count = 0;
  };
  settled = [];
}

-- `for (let i = 0; i < n; i++) this.spawnWorker();`
unfoldable pub spawn_workers : ℕ → WorkerPool → ℕ → WorkerPool
unfolding spawn_worker
spawn_workers zero p now = p
spawn_workers (suc n) p now = spawn_workers n (spawn_worker p now) now

-- `start`, less the timers that it sets: their ticks are `health_check` and `auto_scale`.
unfoldable pub start : WorkerPool → ℕ → WorkerPool
unfolding spawn_workers
start p now =
    if p.running then p else spawn_workers p.config.min_workers (record p { running = true }) now

-- The task that `submit` makes, once the counter has been raised.
abbrev pub new_task : WorkerPool → String → ℕ → Option ℕ → ℕ → PoolTask
new_task p payload priority timeout now = record {
  id = p.id_counter + 1;
  payload = payload;
  priority = priority;
  timeout = or_else timeout p.config.task_timeout;
  retries = 0;
  created_at = now;
}

abbrev pub count_up : WorkerPool → WorkerPool
count_up p = record p { id_counter = p.id_counter + 1 }

-- `submit`.
unfoldable pub submit : WorkerPool → String → ℕ → Option ℕ → ℕ → WorkerPool
submit p payload priority timeout now =
    dispatch_next (enqueue (count_up p) (new_task p payload priority timeout now)) now

-- The pool once a task is stolen, before it is assigned.
abbrev pub stolen : WorkerPool → List PoolTask → WorkerPool
stolen p rest = record p {
  task_queue = rest;
  metrics = record (p.metrics) {
    queue_length = length rest;
    task_steal_count = p.metrics.task_steal_count + 1;
  };
}

-- The `while` loop of `attemptTaskStealing`. Each round takes a task off the queue, so the queue is
-- the measure.
unfoldable pub steal_from : WorkerPool → List PoolTask → ℕ → WorkerPool
steal_from p [] now = p
steal_from p (task ∷ rest) now = elim (find_idle_worker p.workers) [
  | none ↦ p
  | some worker ↦ steal_from (assign_task (stolen p rest) worker task now) rest now
]

unfoldable pub attempt_task_stealing : WorkerPool → ℕ → WorkerPool
unfolding steal_from
attempt_task_stealing p now = steal_from p p.task_queue now

-- The test of `healthCheck` for a stuck task. A start time of 0 counts as missing there.
abbrev pub is_stuck : WorkerPoolConfig → ℕ → Worker → Bool
is_stuck config now w = is_busy w && elim w.task_start_time [
  | none ↦ false
  | some start ↦ not (start == 0) && ltb (config.task_timeout * 2) (now - start)
]

-- The body of the loop of `healthCheck`.
unfoldable pub check_worker : WorkerPool → ℕ → ℕ → WorkerPool
unfolding on_task_complete
check_worker p id now = elim (find id p.workers) [
  | none ↦ p
  | some w ↦
      if is_stuck p.config now w
      then elim w.current_task [
        | none ↦ p
        | some task ↦
            on_task_complete (settle (rejected task.id "Worker stuck — timeout exceeded") p) id now
      ]
      else p
]

-- The loop reads each worker when its turn comes.
unfoldable pub check_workers : WorkerPool → List Worker → ℕ → WorkerPool
unfolding check_worker
check_workers p [] now = p
check_workers p (w ∷ workers) now = check_workers (check_worker p w.id now) workers now

unfoldable pub health_check : WorkerPool → ℕ → WorkerPool
unfolding check_workers attempt_task_stealing
health_check p now =
    if p.running then attempt_task_stealing (check_workers p p.workers now) now else p

-- `this.workers.delete(worker.id)`.
unfoldable pub remove : ℕ → List Worker → List Worker
remove id [] = []
remove id (w ∷ workers) = if w.id == id then workers else w ∷ remove id workers

-- `shutdownWorker` up to its first wait: a worker with no task is removed, another one drains.
unfoldable pub shutdown_worker : WorkerPool → Worker → WorkerPool
unfolding remove modify update_metrics
shutdown_worker p w = elim w.current_task [
  | none ↦ update_metrics (record p { workers = remove w.id p.workers })
  | some _ ↦ record p { workers = modify w.id (λ v. record v { status = draining }) p.workers }
]

-- `shutdownWorker` after its wait.
unfoldable pub end_shutdown : WorkerPool → ℕ → WorkerPool
unfolding remove update_metrics
end_shutdown p id = update_metrics (record p { workers = remove id p.workers })

unfoldable pub shutdown_workers : WorkerPool → List Worker → WorkerPool
unfolding shutdown_worker
shutdown_workers p [] = p
shutdown_workers p (w ∷ workers) = shutdown_workers (shutdown_worker p w) workers

-- `reject` of each task that is still queued.
unfoldable pub reject_all : List PoolTask → List Settlement → List Settlement
reject_all [] log = log
reject_all (t ∷ queue) log = reject_all queue (rejected t.id "Worker pool shutting down" ∷ log)

-- `stop` up to its wait for the workers. The queue's metric is not brought up to date.
unfoldable pub stop : WorkerPool → WorkerPool
unfolding reject_all shutdown_workers
stop p =
    shutdown_workers
      (record p { running = false; task_queue = []; settled = reject_all p.task_queue p.settled })
      p.workers

-- "Scale up": `Math.ceil(queueLen / threshold)`, limited by the room. For the threshold 0 that is all
-- the room, since the quotient is infinite, and nothing when the queue is empty (`0 / 0` is `NaN`).
abbrev pub scale_up_by : WorkerPool → ℕ
scale_up_by p =
    let queue_len = length p.task_queue in
    let t = p.config.scale_up_threshold in
    let room = p.config.max_workers - length p.workers in
    if leb t queue_len && ltb (length p.workers) p.config.max_workers
    then if t == 0 then if queue_len == 0 then 0 else room else min ((queue_len + (t - 1)) / t) room
    else 0

-- The idle workers that have not worked for longer than the timeout.
abbrev pub is_excess : WorkerPoolConfig → ℕ → Worker → Bool
is_excess config now w = is_idle w && ltb config.idle_timeout_ms (now - w.last_active_at)

-- `autoScale`. "Scale down" counts with the number of workers from before "scale up".
unfoldable pub auto_scale : WorkerPool → ℕ → WorkerPool
unfolding spawn_workers shutdown_workers
auto_scale p now =
    let current = length p.workers in
    let grown = spawn_workers (scale_up_by p) p now in
    let excess = filter (is_excess p.config now) grown.workers in
    if not p.running
    then p
    else if ltb p.config.min_workers current
    then shutdown_workers grown (take (min (length excess) (current - p.config.min_workers)) excess)
    else grown
