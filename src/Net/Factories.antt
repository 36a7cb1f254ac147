-- ===== src/Net/Factories.antt =====
-- core/interaction-net.ts: ids and the factory methods. The default values of arguments are left to
-- the caller; each method is given its reading of the clock.
use Prim.Native.String.{◌++◌ as text_append}
use ather.Base.{
  ltb, if◌then◌else◌, length, set, ℕ, zero, suc, ◌+◌, ◌/◌, ◌%◌, String, Bool, Option, none, some,
  List, [], ◌∷◌,
}
use ather.Net.{
  CombinatorKind, constructor, duplicator, eraser, idle, Port, MergeStrategy, FanoutMode,
  TaskPayload, NodePayload, join, fan_out, erase, task, NetNode, InteractionNet, add_node, connect,
}

-- The digits of a number, lowest first, with fuel.
digits : ℕ → ℕ → ℕ → List ℕ
digits zero base n = []
digits (suc fuel) base n =
    let rest = digits fuel base (n / base) in if ltb n base then n ∷ [] else n % base ∷ rest

abbrev digit_chars : String
digit_chars = "0123456789abcdefghijklmnopqrstuvwxyz"

-- `digits[d]`, as a text.
abbrev char_at : String → ℕ → String
char_at String.[] d = ""
char_at (String.◌∷◌ c s) zero = String.◌∷◌ c String.[]
char_at (String.◌∷◌ c s) (suc d) = char_at s d

abbrev digits_text : List ℕ → String
digits_text [] = ""
digits_text (d ∷ ds) = text_append (digits_text ds) (char_at digit_chars d)

-- `n.toString(base)`: a number has at most as many digits as it counts, and one.
unfoldable pub to_string : ℕ → ℕ → String
unfolding digits
to_string base n = digits_text (digits (suc n) base n)

abbrev own_port : String → ℕ → Port
own_port id index = record { node_id = id; index = index }

module _ {V : Type 0} where
  -- `nextId`: a prefix, the counter and the time in base 36.
  unfoldable pub next_id : String → ℕ → InteractionNet V → InteractionNet V × String
  unfolding to_string
  next_id prefix now net =
      let n = net.id_counter + 1 in
      (
        record net { id_counter = n },
        text_append prefix
            (text_append "-" (text_append (to_string 10 n) (text_append "-" (to_string 36 now)))),
      )

  -- The object that each factory method makes.
  abbrev new_node : String → CombinatorKind → ℕ → NodePayload V → ℕ → NetNode V
  new_node id kind priority payload now = record {
    id = id;
    kind = kind;
    status = idle;
    priority = priority;
    principal = own_port id 0;
    aux = (own_port id 1, own_port id 2);
    payload = payload;
    created_at = now;
    claimed_by = none;
    result = none;
    error = none;
  }

  abbrev create :
      String
      → CombinatorKind
      → ℕ
      → NodePayload V
      → ℕ
      → InteractionNet V
      → InteractionNet V × NetNode V
  create prefix kind priority payload now net =
      let (net', id) = next_id prefix now net in
      let n = new_node id kind priority payload now in (add_node n net', n)

  -- `createTaskNode`.
  unfoldable pub create_task_node :
      TaskPayload V → ℕ → InteractionNet V → InteractionNet V × NetNode V
  unfolding next_id add_node
  create_task_node t = create "task" constructor t.priority (task t)

  -- `createFanOut`.
  unfoldable pub create_fan_out :
      TaskPayload V
      → List String
      → FanoutMode
      → Option ℕ
      → ℕ
      → InteractionNet V
      → InteractionNet V × NetNode V
  unfolding next_id add_node
  create_fan_out t targets mode quorum_size =
      create "dup" duplicator t.priority (fan_out t targets mode quorum_size)

  -- `createJoin`.
  unfoldable pub create_join :
      ℕ → MergeStrategy → Option String → ℕ → InteractionNet V → InteractionNet V × NetNode V
  unfolding next_id add_node
  create_join arity strategy merge_fn =
      create "join" constructor 3 (join strategy merge_fn arity [])

  -- `createEraser`.
  unfoldable pub create_eraser : String → Bool → ℕ → InteractionNet V → InteractionNet V × NetNode V
  unfolding next_id add_node
  create_eraser reason propagate = create "era" eraser 5 (erase reason propagate)

  -- `connect` with the id that it makes.
  abbrev wire_up : Port → Port → ℕ → InteractionNet V → InteractionNet V
  wire_up from to now net = let (net', id) = next_id "w" now net in (connect id from to net').0

  -- The loop of `buildParallelDAG`, with one reading of the clock.
  build_tasks :
      List (TaskPayload V) → NetNode V → ℕ → InteractionNet V → InteractionNet V × List (NetNode V)
  unfolding create_task_node connect
  build_tasks [] target now net = (net, [])
  build_tasks (t ∷ tasks) target now net =
      let (net', n) = create_task_node t now net in
      let (out, nodes) =
        build_tasks tasks target now (wire_up n.principal target.principal now net') in
      (out, n ∷ nodes)

  -- `buildParallelDAG`.
  unfoldable pub build_parallel_dag :
      List (TaskPayload V)
      → MergeStrategy
      → ℕ
      → InteractionNet V
      → InteractionNet V × List (NetNode V) × NetNode V
  unfolding build_tasks create_join
  build_parallel_dag tasks strategy now net =
      let (net', target) = create_join (length tasks) strategy none now net in
      let (out, nodes) = build_tasks tasks target now net' in (out, nodes, target)

  -- The wire from the node before, in the loop of `buildPipeline`.
  abbrev wire_after : Option (NetNode V) → NetNode V → ℕ → InteractionNet V → InteractionNet V
  wire_after none n now net = net
  wire_after (some prev) n now net = wire_up prev.aux.1 n.principal now net

  -- The loop of `buildPipeline`; the tasks come with their contexts extended.
  build_steps :
      List (TaskPayload V)
      → Option (NetNode V)
      → ℕ
      → InteractionNet V
      → InteractionNet V × List (NetNode V)
  unfolding create_task_node connect
  build_steps [] prev now net = (net, [])
  build_steps (t ∷ tasks) prev now net =
      let (net', n) = create_task_node t now net in
      let (out, nodes) = build_steps tasks (some n) now (wire_after prev n now net') in
      (out, n ∷ nodes)

  -- The contexts of a pipeline's tasks: `number` is how a number stands among the values.
  abbrev numbered : (ℕ → V) → ℕ → ℕ → List (TaskPayload V) → List (TaskPayload V)
  numbered number total step [] = []
  numbered number total step (t ∷ tasks) =
      record t {
        context = set (set t.context "pipelineStep" (number step)) "pipelineTotal" (number total);
        priority = 3;
      }
      ∷ numbered number total (step + 1) tasks

  -- `buildPipeline`.
  unfoldable pub build_pipeline :
      (ℕ → V) → List (TaskPayload V) → ℕ → InteractionNet V → InteractionNet V × List (NetNode V)
  unfolding build_steps
  build_pipeline number tasks now net =
      build_steps (numbered number (length tasks) 1 tasks) none now net
