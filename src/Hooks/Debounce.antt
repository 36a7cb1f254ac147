-- ===== src/Hooks/Debounce.antt =====
-- core/hooks/debounce.ts: `DebounceManager`. A `Set<string>` is a map to the unit type. The timers are
-- those of the pending hooks, since clearing a timer goes with removing its entry. Beside the fields
-- of the class the record keeps the executions that are under way, with the callbacks that were
-- called, and the events that were emitted.
use ather.Base.{
  leb, ◌===◌, if◌then◌else◌, or_else, length, drop, includes, Map, get, set, delete, has, ℕ, String,
  Bool, true, false, Option, none, some, List, [], ◌∷◌, ◌++◌,
}

pub record QueueEntry (E C : Type 0) : Type 0 where
  pub event : E
  pub callback : C

pub data Emitted (E : Type 0) : Type 0 where
  hook_debounced : String → E → Emitted E
  hook_queue_overflow : String → ℕ → Emitted E

pub record DebounceManager (E C : Type 0) : Type 0 where
  pub pending : Map (QueueEntry E C)
  pub queues : Map (List (QueueEntry E C))
  pub running : Map {0} Unit
  pub active : List String
  pub called : List (String × C)
  pub emitted : List (Emitted E)

-- `HOOK_DEFAULTS.maxQueuedPerHook`.
abbrev pub max_queued_per_hook : ℕ
max_queued_per_hook = 10

-- The execution of a hook that ends is the one that began first.
abbrev pub remove_first : String → List String → List String
remove_first name [] = []
remove_first name (a ∷ active) = if a === name then active else a ∷ remove_first name active

-- What calls the manager: its users, its timers, and the callbacks that end.
pub data Call (E C : Type 0) : Type 0 where
  scheduled : String → QueueEntry E C → Call E C
  expired : String → Call E C
  completed : String → Call E C
  cancelled : String → Call E C
  disposed : Call E C

module _ {E C : Type 0} where
  abbrev pub empty : DebounceManager E C
  empty = record { pending = []; queues = []; running = []; active = []; called = []; emitted = [] }

  abbrev pub queue_of : Option (List (QueueEntry E C)) → List (QueueEntry E C)
  queue_of queue = or_else queue []

  -- `shift` from a full queue, and `push`.
  abbrev pub extend_queue : QueueEntry E C → List (QueueEntry E C) → List (QueueEntry E C)
  extend_queue entry queue =
      (if leb max_queued_per_hook (length queue) then drop 1 queue else queue) ++ (entry ∷ [])

  -- `enqueue`.
  unfoldable pub enqueue : String → QueueEntry E C → DebounceManager E C → DebounceManager E C
  unfolding get set
  enqueue name entry m =
      let queue = queue_of (get m.queues name) in
      record m {
        queues = set m.queues name (extend_queue entry queue);
        emitted =
            (if leb max_queued_per_hook (length queue)
              then m.emitted ++ (hook_queue_overflow name 1 ∷ [])
              else m.emitted);
      }

  -- `schedule`: the timer of a pending hook is set again.
  unfoldable pub schedule : String → QueueEntry E C → DebounceManager E C → DebounceManager E C
  unfolding enqueue set
  schedule name entry m = if has m.running name then enqueue name entry m else record m {
    pending = set m.pending name entry;
    emitted = m.emitted ++ (hook_debounced name entry.event ∷ []);
  }

  -- `execute`, up to the `await`.
  unfoldable pub execute : String → C → DebounceManager E C → DebounceManager E C
  unfolding set
  execute name callback m = record m {
    running = set m.running name tt;
    active = m.active ++ (name ∷ []);
    called = m.called ++ ((name, callback) ∷ []);
  }

  abbrev pub rest_of :
      String → List (QueueEntry E C) → Map (List (QueueEntry E C)) → Map (List (QueueEntry E C))
  rest_of name [] queues = delete queues name
  rest_of name (entry ∷ queue) queues = set queues name (entry ∷ queue)

  -- `processQueue`.
  unfoldable pub process_queue : String → DebounceManager E C → DebounceManager E C
  unfolding get execute set delete
  process_queue name m = elim (get m.queues name) [
    | none ↦ m
    | some [] ↦ m
    | some (next ∷ queue) ↦
        execute name next.callback (record m { queues = rest_of name queue m.queues })
  ]

  -- The `finally` of `execute`, when the callback has ended in any way.
  unfoldable pub complete : String → DebounceManager E C → DebounceManager E C
  unfolding process_queue delete
  complete name m =
      if includes m.active name
      then process_queue name
          (record m { running = delete m.running name; active = remove_first name m.active })
      else m

  -- The timer of a pending hook.
  unfoldable pub expire : String → DebounceManager E C → DebounceManager E C
  unfolding execute get delete
  expire name m = elim (get m.pending name) [
    | none ↦ m
    | some p ↦ execute name p.callback (record m { pending = delete m.pending name })
  ]

  -- `cancel`.
  unfoldable pub cancel : String → DebounceManager E C → DebounceManager E C × Bool
  unfolding delete
  cancel name m =
      if has m.pending name
      then (record m { pending = delete m.pending name }, true)
      else (m, false)

  abbrev pub is_running : String → DebounceManager E C → Bool
  is_running name m = has m.running name

  abbrev pub is_pending : String → DebounceManager E C → Bool
  is_pending name m = has m.pending name

  -- `queueLength`.
  abbrev pub queue_length : String → DebounceManager E C → ℕ
  queue_length name m = length (queue_of (get m.queues name))

  -- `dispose`: the callbacks that are under way go on.
  abbrev pub dispose : DebounceManager E C → DebounceManager E C
  dispose m = record m { pending = []; queues = []; running = [] }

  unfoldable pub step : Call E C → DebounceManager E C → DebounceManager E C
  unfolding schedule expire complete cancel
  step (scheduled name entry) m = schedule name entry m
  step (expired name) m = expire name m
  step (completed name) m = complete name m
  step (cancelled name) m = (cancel name m).0
  step disposed m = dispose m

  unfoldable pub run : List (Call E C) → DebounceManager E C → DebounceManager E C
  unfolding step
  run [] m = m
  run (c ∷ calls) m = run calls (step c m)
