-- ===== src/Hooks/Single.antt =====
-- core/hooks/debounce.ts: how many executions of a hook are under way, and how many wait.
use ather.Base.{
  ◌===◌, if◌then◌else◌, Bool-cases, Option-cases, or_else, length, drop, length-append, length-drop,
  includes, Map, get, delete, get-set, get-delete, ℕ, ◌+◌, ◌-◌, ◌≤◌, String, ◌≡◌, refl, sym, ap,
  ◌∙◌, ◌≢◌, ◌⊎◌, inl, inr, Bool, true, false, Option, none, some, List, [], ◌∷◌, ◌++◌, arith,
  eq_iff,
}
use ather.Hooks.Debounce.{
  QueueEntry, DebounceManager, Call, scheduled, expired, completed, cancelled, disposed, dispose,
  max_queued_per_hook, remove_first, empty, extend_queue, enqueue, schedule, execute, process_queue,
  complete, expire, cancel, is_running, is_pending, queue_length, step, run, rest_of,
}

-- How many executions of a hook are under way.
abbrev pub executions : String → List String → ℕ
executions name [] = 0
executions name (a ∷ active) = (if a === name then 1 else 0) + executions name active

abbrev pub as_number : Bool → ℕ
as_number false = 0
as_number true = 1

executions-append :
    (name : String) (xs ys : List String)
    → executions name (xs ++ ys) ≡ executions name xs + executions name ys
executions-append name [] ys = omega arith
executions-append name (x ∷ xs) ys = omega (arith, executions-append name xs ys)

executions-remove_first :
    (name other : String) (xs : List String)
    → executions other (remove_first name xs)
      ≡ executions other xs - (if name === other then 1 else 0)
executions-remove_first name other [] = ground arith
executions-remove_first name other (x ∷ xs) =
    ground (
      arith,
      eq_iff x name,
      eq_iff x other,
      eq_iff name other,
      executions-remove_first name other xs,
    )

includes-executions :
    (name : String) (xs : List String) → includes xs name ≡ true → 1 ≤ executions name xs
includes-executions name [] h = absurd (cc h)
includes-executions name (x ∷ xs) h = ground (arith, h, includes-executions name xs)

module _ {E C : Type 0} where
  -- A hook is executed at most once at a time, and then it is marked as running. It is not pending
  -- while it runs, what it has queued is for a running execution to take up, and no queue is longer
  -- than the limit.
  pub record IsSingle (m : DebounceManager E C) (name : String) : Type 0 where
    pub single : executions name m.active ≡ as_number (is_running name m)
    pub apart : is_pending name m ≡ true → is_running name m ≡ false
    pub waiting : 1 ≤ queue_length name m → is_running name m ≡ true
    pub bounded : queue_length name m ≤ max_queued_per_hook

  length-extend_queue :
      (entry : QueueEntry E C) (queue : List (QueueEntry E C))
      → length queue ≤ max_queued_per_hook
      → length (extend_queue entry queue) ≤ max_queued_per_hook
  length-extend_queue entry queue le = ground (
    arith,
    le,
    length-drop 1 queue,
    length-append queue (entry ∷ []),
    length-append (drop 1 queue) (entry ∷ []),
  )

  enqueue-IsSingle :
      (name other : String) (entry : QueueEntry E C) (m : DebounceManager E C)
      → is_running name m ≡ true
      → IsSingle m name
      → IsSingle m other
      → IsSingle (enqueue name entry m) other
  unfolding enqueue
  enqueue-IsSingle name other entry m runs i j =
      let look =
        get-set m.queues name other (extend_queue entry (or_else (get m.queues name) [])) in
      let short = length-extend_queue entry (or_else (get m.queues name) []) i.bounded in
      record {
        single = j.single;
        apart = j.apart;
        waiting = λ h. ground (arith, h, runs, j.waiting, look, eq_iff name other);
        bounded = ground (arith, look, short, j.bounded, eq_iff name other);
      }

  execute-IsSingle :
      (name other : String) (callback : C) (m : DebounceManager E C)
      → (name ≡ other → (executions name m.active ≡ 0) × (is_pending name m ≡ false))
      → (name ≢ other → IsSingle m other)
      → queue_length other m ≤ max_queued_per_hook
      → IsSingle (execute name callback m) other
  unfolding execute
  execute-IsSingle name other callback m fresh keeps le =
      let look = get-set m.running name other tt in
      let more = executions-append other m.active (name ∷ []) in
      elim (Bool-cases (name === other)) [
        | inl e ↦
            let same = (eq_iff name other).0 e in
            let (none_active, none_pending) = fresh same in
            let idle : executions other m.active ≡ 0 =
              ap (λ n. executions n m.active) (sym same) ∙ none_active in
            let free : is_pending other m ≡ false =
              ap (λ n. is_pending n m) (sym same) ∙ none_pending in
            record {
              single = ground (arith, look, more, idle, e);
              apart = λ h. absurd (ground (arith, h, free));
              waiting = λ h. ground (arith, look, e);
              bounded = le;
            }
        | inr e ↦
            let j = keeps (λ q. absurd (ground (arith, e, (eq_iff name other).1 q))) in
            record {
              single = ground (arith, look, more, j.single, e);
              apart = λ h. ground (arith, look, e, j.apart h);
              waiting = λ h. ground (arith, look, e, j.waiting h);
              bounded = j.bounded;
            }
      ]

  -- A manager in which the execution of a hook has just ended.
  record IsFreed (m : DebounceManager E C) (name : String) : Type 0 where
    ended : executions name m.active ≡ 0
    free : is_pending name m ≡ false
    idle : is_running name m ≡ false
    bounded : queue_length name m ≤ max_queued_per_hook

  freed-IsSingle :
      (m : DebounceManager E C) (name : String)
      → IsFreed m name
      → queue_length name m ≡ 0
      → IsSingle m name
  freed-IsSingle m name i none_left = record {
    single = ground (arith, i.ended, i.idle);
    apart = λ h. i.idle;
    waiting = λ h. absurd (omega (arith, h, none_left));
    bounded = i.bounded;
  }

  -- What a round leaves of the queue of a hook, and of those of the others.
  queue_length-rest_of :
      (name other : String) (next : QueueEntry E C) (queue : List (QueueEntry E C))
      (queues : Map (List (QueueEntry E C)))
      → get queues name ≡ some (next ∷ queue)
      → length (or_else (get (rest_of name queue queues) other) [])
        ≡ (if name === other then length queue else length (or_else (get queues other) []))
  queue_length-rest_of name other next [] queues e = ground (arith, e, get-delete queues name other)
  queue_length-rest_of name other next (q ∷ queue) queues e =
      ground (arith, e, get-set queues name other (q ∷ queue))

  queue-cases :
      (o : Option (List (QueueEntry E C)))
      → (length (or_else o []) ≡ 0)
        ⊎ ((next : QueueEntry E C) × (queue : List (QueueEntry E C)) × (o ≡ some (next ∷ queue)))
  queue-cases none = inl refl
  queue-cases (some []) = inl refl
  queue-cases (some (next ∷ queue)) = inr (next, queue, refl)

  process_queue_empty :
      (name : String) (m : DebounceManager E C) → queue_length name m ≡ 0 → process_queue name m ≡ m
  unfolding process_queue
  process_queue_empty name m h = ground (arith, h)

  process_queue_next :
      (name : String) (next : QueueEntry E C) (queue : List (QueueEntry E C))
      (m : DebounceManager E C)
      → get m.queues name ≡ some (next ∷ queue)
      → process_queue name m
        ≡ execute name next.callback (record m { queues = rest_of name queue m.queues })
  unfolding process_queue
  process_queue_next name next queue m e = rw (process_queue, e) refl

  process_queue-IsSingle :
      (name other : String) (m : DebounceManager E C)
      → IsFreed m name
      → (name ≢ other → IsSingle m other)
      → IsSingle (process_queue name m) other
  process_queue-IsSingle name other m i keeps = elim (queue-cases (get m.queues name)) [
    | inl e ↦ rw (process_queue_empty name m e) (elim (Bool-cases (name === other)) [
      | inl q ↦ rw (sym ((eq_iff name other).0 q)) (freed-IsSingle m name i e)
      | inr q ↦ keeps (λ h. absurd (ground (arith, q, (eq_iff name other).1 h)))
    ])
    | inr (next, queue, e) ↦
        let m' : DebounceManager E C = record m { queues = rest_of name queue m.queues } in
        let look = queue_length-rest_of name other next queue m.queues e in
        rw (process_queue_next name next queue m e) (
          execute-IsSingle name other next.callback m' (λ h. (i.ended, i.free))
            (λ h.
              let j = keeps h in
              record {
                single = j.single;
                apart = j.apart;
                waiting = λ k. j.waiting (ground (arith, k, look, (eq_iff name other).0, h));
                bounded = ground (arith, look, j.bounded, (eq_iff name other).0, h);
              })
            (elim (Bool-cases (name === other)) [
              | inl q ↦ ground (arith, look, q, ap (λ o. length (or_else o [])) e, i.bounded)
              | inr q ↦ ground (
                arith,
                look,
                q,
                (keeps (λ h. absurd (ground (arith, q, (eq_iff name other).1 h)))).bounded,
              )
            ]))
  ]

  complete-IsSingle :
      (name other : String) (m : DebounceManager E C)
      → IsSingle m name
      → IsSingle m other
      → IsSingle (complete name m) other
  unfolding complete
  complete-IsSingle name other m i j = elim (Bool-cases (includes m.active name)) [
    | inr e ↦ rw e j
    | inl e ↦
        let started = includes-executions name m.active e in
        let runs : is_running name m ≡ true = ground (arith, started, i.single) in
        let m' : DebounceManager E C = record m {
          running = delete m.running name;
          active = remove_first name m.active;
        } in
        rw e (
          process_queue-IsSingle name other m'
            (record {
              ended = ground (
                arith,
                runs,
                i.single,
                executions-remove_first name name m.active,
                eq_iff name name,
              );
              free = elim (Bool-cases (is_pending name m)) [
                | inr h ↦ h
                | inl h ↦ absurd (ground (arith, runs, i.apart h))
              ];
              idle = ground (arith, get-delete m.running name name, eq_iff name name);
              bounded = i.bounded;
            })
            (λ h.
              let look = get-delete m.running name other in
              let ne = (eq_iff name other).0 in
              record {
                single =
                    ground
                      (arith, h, ne, look, j.single, executions-remove_first name other m.active);
                apart = λ k. ground (arith, h, ne, look, j.apart k);
                waiting = λ k. ground (arith, h, ne, look, j.waiting k);
                bounded = j.bounded;
              }))
  ]

  expire-IsSingle :
      (name other : String) (m : DebounceManager E C)
      → IsSingle m name
      → IsSingle m other
      → IsSingle (expire name m) other
  unfolding expire
  expire-IsSingle name other m i j = elim (Option-cases (get m.pending name)) [
    | inl e ↦ rw (expire, e) j
    | inr (p, e) ↦
        let m' : DebounceManager E C = record m { pending = delete m.pending name } in
        let look = get-delete m.pending name other in
        rw (expire, e)
          (execute-IsSingle name other p.callback m'
            (λ h. (
              ground (arith, i.single, i.apart (ground (arith, e))),
              ground (arith, get-delete m.pending name name, eq_iff name name),
            ))
            (λ h. record {
              single = j.single;
              apart = λ k. j.apart (ground (arith, k, look));
              waiting = j.waiting;
              bounded = j.bounded;
            })
            j.bounded)
  ]

  schedule-IsSingle :
      (name other : String) (entry : QueueEntry E C) (m : DebounceManager E C)
      → IsSingle m name
      → IsSingle m other
      → IsSingle (schedule name entry m) other
  unfolding schedule
  schedule-IsSingle name other entry m i j = elim (Bool-cases (is_running name m)) [
    | inl e ↦ rw e (enqueue-IsSingle name other entry m e i j)
    | inr e ↦
        let look = get-set m.pending name other entry in
        rw e (record {
          single = j.single;
          apart = λ k. ground (arith, k, look, e, eq_iff name other, j.apart);
          waiting = j.waiting;
          bounded = j.bounded;
        })
  ]

  cancel-IsSingle :
      (name other : String) (m : DebounceManager E C)
      → IsSingle m other
      → IsSingle (cancel name m).0 other
  unfolding cancel
  cancel-IsSingle name other m j = elim (Bool-cases (is_pending name m)) [
    | inr e ↦ rw e j
    | inl e ↦
        let look = get-delete m.pending name other in
        rw e (record {
          single = j.single;
          apart = λ k. j.apart (ground (arith, k, look));
          waiting = j.waiting;
          bounded = j.bounded;
        })
  ]

  dispose-IsSingle :
      (m : DebounceManager E C) (name : String) → m.active ≡ [] → IsSingle (dispose m) name
  unfolding get
  dispose-IsSingle m name quiet = record {
    single = ap (executions name) quiet;
    apart = λ h. refl;
    waiting = λ h. absurd (omega (arith, h));
    bounded = omega arith;
  }

  -- The manager is disposed of only while no callback is under way.
  abbrev pub IsQuiet : Call E C → DebounceManager E C → Type 0
  IsQuiet disposed m = m.active ≡ []
  IsQuiet c m = Unit

  unfoldable pub AreQuiet : List (Call E C) → DebounceManager E C → Type 0
  unfolding step
  AreQuiet [] m = Unit
  AreQuiet (c ∷ calls) m = IsQuiet c m × AreQuiet calls (step c m)

  step-IsSingle :
      (c : Call E C) (m : DebounceManager E C)
      → IsQuiet c m
      → ((name : String) → IsSingle m name)
      → (name : String) → IsSingle (step c m) name
  unfolding step
  step-IsSingle (scheduled name entry) m quiet i other =
      schedule-IsSingle name other entry m (i name) (i other)
  step-IsSingle (expired name) m quiet i other = expire-IsSingle name other m (i name) (i other)
  step-IsSingle (completed name) m quiet i other = complete-IsSingle name other m (i name) (i other)
  step-IsSingle (cancelled name) m quiet i other = cancel-IsSingle name other m (i other)
  step-IsSingle disposed m quiet i other = dispose-IsSingle m other quiet

  run-keeps :
      (calls : List (Call E C)) (m : DebounceManager E C)
      → AreQuiet calls m
      → ((name : String) → IsSingle m name)
      → (name : String) → IsSingle (run calls m) name
  unfolding run AreQuiet
  run-keeps [] m quiet i = i
  run-keeps (c ∷ calls) m quiet i = run-keeps calls (step c m) quiet.1 (step-IsSingle c m quiet.0 i)

  -- However hooks are scheduled and cancelled, timers run out and callbacks end, from an empty manager
  -- on, where the manager is disposed of only while no callback is under way: of every hook at most
  -- one callback is under way, and exactly one if it is marked as running; it is not pending then; its
  -- queue holds at most ten events, and none if it is not running.
  pub run-IsSingle :
      (calls : List (Call E C)) (name : String)
      → AreQuiet calls empty
      → IsSingle (run calls empty) name
  unfolding get
  run-IsSingle calls name quiet =
      run-keeps calls empty quiet
        (λ name. record {
          single = refl;
          apart = λ h. refl;
          waiting = λ h. absurd (omega (arith, h));
          bounded = omega arith;
        })
        name
