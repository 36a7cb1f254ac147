-- ===== src/Pool/Scaling.antt =====
-- core/worker-pool.ts: `autoScale` and the number of workers.
use ather.Base.{
  ltb, if_ind, length, take, filter, length-append, length-take, ℕ, zero, suc, ◌+◌, ◌-◌, ◌≤◌, min,
  ◌≡◌, not, List, [], ◌∷◌, arith,
}
use ather.Pool.{draining, WorkerPool, Worker}
use ather.Pool.Workers.{spawn_worker}
use ather.Pool.Workers.Laws.{length-modify}
use ather.Pool.Steps.{
  spawn_workers, remove, shutdown_worker, shutdown_workers, scale_up_by, is_excess, auto_scale,
}

size : WorkerPool → ℕ
size p = length p.workers

size-spawn_worker : (p : WorkerPool) (now : ℕ) → size (spawn_worker p now) ≡ size p + 1
unfolding size spawn_worker
size-spawn_worker p now = omega (arith, length-append {0} p.workers)

size-spawn_workers : (n : ℕ) (p : WorkerPool) (now : ℕ) → size (spawn_workers n p now) ≡ size p + n
unfolding size spawn_workers
size-spawn_workers zero p now = omega arith
size-spawn_workers (suc n) p now =
    omega (arith, size-spawn_workers n (spawn_worker p now) now, size-spawn_worker p now)

length-remove :
    (id : ℕ) (workers : List Worker)
    → (length (remove id workers) ≤ length workers)
      × (length workers ≤ length (remove id workers) + 1)
unfolding remove
length-remove id [] = omega arith
length-remove id (w ∷ workers) = ground (arith, length-remove id workers)

size-shutdown_worker :
    (p : WorkerPool) (w : Worker)
    → (size (shutdown_worker p w) ≤ size p) × (size p ≤ size (shutdown_worker p w) + 1)
unfolding size shutdown_worker
size-shutdown_worker p w = ground (
  arith,
  length-remove w.id p.workers,
  length-modify w.id (λ v. record v { status = draining }) p.workers,
)

-- Shutting workers down takes away no more of them than were named.
size-shutdown_workers :
    (workers : List Worker) (p : WorkerPool)
    → (size (shutdown_workers p workers) ≤ size p)
      × (size p ≤ size (shutdown_workers p workers) + length workers)
unfolding shutdown_workers
size-shutdown_workers [] p = omega arith
size-shutdown_workers (w ∷ workers) p =
    omega (arith, size-shutdown_worker p w, size-shutdown_workers workers (shutdown_worker p w))

scale_up_by-le : (p : WorkerPool) → scale_up_by p ≤ p.config.max_workers - length p.workers
scale_up_by-le p = ground arith

-- If the number of workers lies between the minimum and the maximum before `autoScale`, it does so
-- afterwards.
pub size-auto_scale :
    (p : WorkerPool) (now : ℕ)
    → p.config.min_workers ≤ length p.workers
    → length p.workers ≤ p.config.max_workers
    → (p.config.min_workers ≤ length (auto_scale p now).workers)
      × (length (auto_scale p now).workers ≤ p.config.max_workers)
unfolding auto_scale size
size-auto_scale p now low high =
    let grown = spawn_workers (scale_up_by p) p now in
    let excess = filter (is_excess p.config now) grown.workers in
    let limit = min (length excess) (length p.workers - p.config.min_workers) in
    let up = size-spawn_workers (scale_up_by p) p now in
    let room = scale_up_by-le p in
    let Bounded : WorkerPool → Type 0 =
      λ q. (p.config.min_workers ≤ length q.workers) × (length q.workers ≤ p.config.max_workers) in
    if_ind Bounded (not p.running) (λ off. (low, high))
      (λ on.
        if_ind Bounded (ltb p.config.min_workers (length p.workers))
          (λ above.
            let down = size-shutdown_workers (take limit excess) grown in
            omega (arith, up, room, down, length-take limit excess))
          (λ at_most. omega (arith, up, room)))
