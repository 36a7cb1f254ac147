-- ===== src/Pool.antt =====
-- core/worker-pool.ts: the worker pool's data. The `Map` of workers is the list of its values, whose
-- ids are its keys; `worker-N` and `task-N` stand as the number N of the pool's counter. A call of
-- `resolve` or `reject` is an entry of `settled`, oldest last. Payloads are only handed on.
pub mod Queue
pub mod Workers
pub mod Steps
pub mod Accounts
pub mod Tasks
pub mod Waiting
pub mod Scaling
pub mod Late
pub mod Tests
use ather.Base.{ℕ, String, Bool, true, false, Option, List}

pub record WorkerPoolConfig : Type 0 where
  pub min_workers : ℕ
  pub max_workers : ℕ
  pub idle_timeout_ms : ℕ
  pub health_check_ms : ℕ
  pub max_retries : ℕ
  pub task_timeout : ℕ
  pub scale_up_threshold : ℕ

pub data WorkerStatus : Type 0 where
  idle busy draining dead : WorkerStatus

pub record PoolTask : Type 0 where
  pub id : ℕ
  pub payload : String
  pub priority : ℕ
  pub timeout : ℕ
  pub retries : ℕ
  pub created_at : ℕ

-- `ManagedWorker` with the fields of its `WorkerInfo`.
pub record Worker : Type 0 where
  pub id : ℕ
  pub status : WorkerStatus
  pub tasks_completed : ℕ
  pub tasks_failed : ℕ
  pub current_task_id : Option ℕ
  pub last_active_at : ℕ
  pub created_at : ℕ
  pub errors : List String
  pub current_task : Option PoolTask
  pub task_start_time : Option ℕ

-- How the promise of a task is settled.
pub data Settlement : Type 0 where
  resolved : (task : ℕ) (value : String) → Settlement
  rejected : (task : ℕ) (error : String) → Settlement

-- `PoolMetrics`, less the running average of durations, which is a fraction.
pub record PoolMetrics : Type 0 where
  pub total_workers : ℕ
  pub active_workers : ℕ
  pub idle_workers : ℕ
  pub queue_length : ℕ
  pub total_tasks_processed : ℕ
  pub total_tasks_failed : ℕ
  pub task_steal_count : ℕ

pub record WorkerPool : Type 0 where
  pub config : WorkerPoolConfig
  pub workers : List Worker
  pub task_queue : List PoolTask
  pub running : Bool
  pub id_counter : ℕ
  pub metrics : PoolMetrics
  pub settled : List Settlement

abbrev pub is_idle : Worker → Bool
is_idle w = elim w.status [ idle ↦ true | _ ↦ false ]

abbrev pub is_busy : Worker → Bool
is_busy w = elim w.status [ busy ↦ true | _ ↦ false ]
