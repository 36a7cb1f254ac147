-- ===== src/Pool/Tests.antt =====
-- core/worker-pool.ts at small inputs: two workers, one of them busy.
use ather.Base.{length, ℕ, ◌+◌, ◌≤◌, ◌≡◌, refl, true, none, some, List, [], ◌∷◌, arith}
use ather.Pool.{WorkerPool, WorkerPoolConfig, Worker, PoolTask, PoolMetrics, idle, busy}
use ather.Pool.Queue.{IsSorted, insert, insert_before, insert-insert_before, insert-IsSorted}
use ather.Pool.Workers.{failed, finish}
use ather.Pool.Accounts.{Inv, accounted}
use ather.Pool.Tasks.{accounted-finish, health_check-Inv}
use ather.Pool.Waiting.{IsBusy, health_check-IsBusy}
use ather.Pool.Scaling.{size-auto_scale}
use ather.Pool.Late.{accounted-finish_late}
use ather.Pool.Steps.{new, start, health_check, auto_scale}

abbrev config : WorkerPoolConfig
config = record {
  min_workers = 2;
  max_workers = 3;
  idle_timeout_ms = 30_000;
  health_check_ms = 5_000;
  max_retries = 2;
  task_timeout = 120_000;
  scale_up_threshold = 2;
}

abbrev task : ℕ → ℕ → PoolTask
task id priority = record {
  id = id;
  payload = "p";
  priority = priority;
  timeout = 120_000;
  retries = 0;
  created_at = 10;
}

abbrev free_worker : ℕ → Worker
free_worker id = record {
  id = id;
  status = idle;
  tasks_completed = 0;
  tasks_failed = 0;
  current_task_id = none;
  last_active_at = 5;
  created_at = 5;
  errors = [];
  current_task = none;
  task_start_time = none;
}

abbrev busy_worker : ℕ → PoolTask → Worker
busy_worker id t = record (free_worker id) {
  status = busy;
  current_task_id = some t.id;
  current_task = some t;
  task_start_time = some 10;
}

abbrev metrics : PoolMetrics
metrics = record {
  total_workers = 2;
  active_workers = 2;
  idle_workers = 0;
  queue_length = 2;
  total_tasks_processed = 0;
  total_tasks_failed = 0;
  task_steal_count = 0;
}

-- Both workers are busy, and two tasks wait.
abbrev loaded : WorkerPool
loaded = record {
  config = config;
  workers = busy_worker 1 (task 3 5) ∷ busy_worker 2 (task 4 4) ∷ [];
  task_queue = task 5 4 ∷ task 6 2 ∷ [];
  running = true;
  id_counter = 6;
  metrics = metrics;
  settled = [];
}

-- The same with nothing waiting.
loaded-Inv : Inv loaded
loaded-Inv = record {
  sorted = omega arith;
  distinct = omega arith;
  fresh = omega arith;
  honest = ((λ e. cc), ((λ e. cc), tt));
}

queue_ids : List PoolTask → List ℕ
queue_ids [] = []
queue_ids (t ∷ queue) = t.id ∷ queue_ids queue

-- Of two waiting tasks with one priority the later one goes first.
equal_priorities_reverse :
    queue_ids (insert (task 3 4) (insert (task 2 4) (insert (task 1 4) []))) ≡ 3 ∷ 2 ∷ 1 ∷ []
unfolding insert queue_ids
equal_priorities_reverse = refl

started : length (start (new config) 0).workers ≡ 2
unfolding start new
started = refl

retried : queue_ids (finish loaded 1 (task 3 5) (failed "timeout") 20).task_queue ≡ 5 ∷ 6 ∷ []
unfolding finish insert queue_ids
retried = refl

insert-insert_before_example :
    insert (task 9 3) loaded.task_queue ≡ insert_before (task 9 3) loaded.task_queue
insert-insert_before_example = insert-insert_before (task 9 3) loaded.task_queue (omega arith)

insert-IsSorted_example : IsSorted (insert (task 9 3) loaded.task_queue)
insert-IsSorted_example = insert-IsSorted (task 9 3) loaded.task_queue (omega arith)

accounted-finish_example :
    accounted 3 (finish loaded 1 (task 3 5) (failed "timeout") 20) ≡ accounted 3 loaded
accounted-finish_example =
    accounted-finish 3 loaded 1 (task 3 5) (failed "timeout") 20 (busy_worker 1 (task 3 5))
      loaded-Inv refl refl

health_check-IsBusy_example : IsBusy (health_check loaded 500_000)
health_check-IsBusy_example = health_check-IsBusy loaded 500_000 refl

health_check_keeps_accounts :
    Inv (health_check loaded 500_000)
    × (accounted 3 (health_check loaded 500_000) ≡ accounted 3 loaded)
health_check_keeps_accounts = health_check-Inv 3 loaded 500_000 loaded-Inv

size-auto_scale_example :
    (2 ≤ length (auto_scale loaded 20).workers) × (length (auto_scale loaded 20).workers ≤ 3)
size-auto_scale_example = size-auto_scale loaded 20 (omega arith) (omega arith)

accounted-finish_late_example :
    let q = finish loaded 1 (task 2 5) (failed "late") 400_000 in
    (accounted 3 q + 1 ≡ accounted 3 loaded) × (accounted 2 q ≡ accounted 2 loaded + 1)
accounted-finish_late_example =
    accounted-finish_late loaded 1 (task 2 5) (task 3 5) (failed "late") 400_000
      (busy_worker 1 (task 3 5)) loaded-Inv refl refl (omega arith)
