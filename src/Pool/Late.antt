-- ===== src/Pool/Late.antt =====
-- core/worker-pool.ts: late outcomes, and the metrics after `stop`.
use ather.Pool.Accounts.{
  Inv, accounted, on_task_complete-accounted, conclude-Inv, conclude-accounted,
}
use ather.Pool.Tasks.{find-conclude}
use ather.Base.{ℕ, ◌+◌, ◌≡◌, refl, sym, ◌∙◌, ◌≢◌, false, some, List, [], ◌∷◌, arith}
use ather.Pool.{WorkerPool, Worker, PoolTask}
use ather.Pool.Workers.{Outcome, conclude, finish}
use ather.Pool.Workers.Laws.{find, held, is_task}
use ather.Pool.Steps.{shutdown_worker, shutdown_workers, reject_all, stop}

-- A task that was taken from its worker as stuck may still report, with any outcome, while the worker
-- runs another task. Then that other task is lost from the account: it runs on, but it is not any
-- worker's task, though it neither waits nor was settled; and the late task is counted once more.
pub accounted-finish_late :
    (p : WorkerPool) (id : ℕ) (late running : PoolTask) (outcome : Outcome) (now : ℕ) (w : Worker)
    → Inv p
    → find id p.workers ≡ some w
    → w.current_task ≡ some running
    → late.id ≢ running.id
    → let q = finish p id late outcome now in
      (accounted running.id q + 1 ≡ accounted running.id p)
      × (accounted late.id q ≡ accounted late.id p + 1)
unfolding finish
accounted-finish_late p id late running outcome now w v here has_task other =
    let (w', here', same) = find-conclude p id late outcome w here in
    let after : (t : ℕ)
        → accounted t (finish p id late outcome now) + is_task t running
          ≡ accounted t p + is_task t late =
      λ t.
        let one : held t w' ≡ is_task t running = ground (arith, same, has_task) in
        omega (
          arith,
          one,
          on_task_complete-accounted t (conclude p id late outcome) id now w'
              (conclude-Inv p id late outcome v) here',
          conclude-accounted t p id late outcome,
        ) in
    let apart : running.id ≢ late.id = λ e. absurd (other (sym e)) in
    (ground (arith, after running.id, other, apart), ground (arith, after late.id, other, apart))

shutdown_worker-queue :
    (p : WorkerPool) (w : Worker)
    → ((shutdown_worker p w).task_queue ≡ p.task_queue)
      × ((shutdown_worker p w).metrics.queue_length ≡ p.metrics.queue_length)
unfolding shutdown_worker
shutdown_worker-queue p w = ground arith

-- `shutdownWorker` leaves the queue and its metric alone.
shutdown_workers-queue :
    (workers : List Worker) (p : WorkerPool)
    → ((shutdown_workers p workers).task_queue ≡ p.task_queue)
      × ((shutdown_workers p workers).metrics.queue_length ≡ p.metrics.queue_length)
unfolding shutdown_workers
shutdown_workers-queue [] p = (refl, refl)
shutdown_workers-queue (w ∷ workers) p =
    let rest = shutdown_workers-queue workers (shutdown_worker p w) in
    let one = shutdown_worker-queue p w in (rest.0 ∙ one.0, rest.1 ∙ one.1)

-- `stop` empties the queue, and the metrics go on to report its old length.
pub queue_length-stop :
    (p : WorkerPool)
    → ((stop p).task_queue ≡ []) × ((stop p).metrics.queue_length ≡ p.metrics.queue_length)
unfolding stop
queue_length-stop p =
    shutdown_workers-queue p.workers
      (record p { running = false; task_queue = []; settled = reject_all p.task_queue p.settled })
