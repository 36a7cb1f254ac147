-- ===== src/Net.antt =====
-- core/interaction-net.ts: `InteractionNet`. A pair in the cache refers to its nodes by their ids: the
-- cache is emptied whenever the map of nodes changes, so that the objects are those of the map.
pub mod Pairs
pub mod Factories
pub mod Claims
pub mod Wiring
pub mod Snapshot
pub mod Tests
use Prim.Native.String.{◌++◌ as text_append}
use ather.Base.{
  ◌==◌, ◌===◌, if◌then◌else◌, filter, Map, get, set, delete, has, values, delete_all, ℕ, String,
  Bool, true, false, ◌&&◌, ◌||◌, Option, none, some, List, [], ◌∷◌, ◌++◌,
}

pub data CombinatorKind : Type 0 where
  constructor duplicator eraser : CombinatorKind

pub data NodeStatus : Type 0 where
  idle active reducing completed cancelled : NodeStatus

pub record Port : Type 0 where
  pub node_id : String
  pub index : ℕ

pub record Wire : Type 0 where
  pub id : String
  pub from : Port
  pub to : Port

pub data MergeStrategy : Type 0 where
  concat first custom : MergeStrategy

pub data FanoutMode : Type 0 where
  all race quorum : FanoutMode

pub record TaskPayload (V : Type 0) : Type 0 where
  pub description : String
  pub agent_id : String
  pub context : Map V
  pub priority : ℕ
  pub timeout : ℕ

pub data NodePayload (V : Type 0) : Type 0 where
  join :
      (merge_strategy : MergeStrategy) (merge_fn : Option String) (arity : ℕ) (inputs : List V)
      → NodePayload V
  fan_out :
      (task : TaskPayload V) (targets : List String) (mode : FanoutMode) (quorum_size : Option ℕ)
      → NodePayload V
  erase : (reason : String) (propagate : Bool) → NodePayload V
  task : TaskPayload V → NodePayload V

-- `INetNode`.
pub record NetNode (V : Type 0) : Type 0 where
  pub id : String
  pub kind : CombinatorKind
  pub status : NodeStatus
  pub priority : ℕ
  pub principal : Port
  pub aux : Port × Port
  pub payload : NodePayload V
  pub created_at : ℕ
  pub claimed_by : Option String
  pub result : Option V
  pub error : Option String

-- `ActivePair`.
pub record ActivePair : Type 0 where
  pub id : String
  pub left : String
  pub right : String
  pub wire : Wire
  pub priority : ℕ
  pub detected_at : ℕ

-- `InteractionNet` without its store.
pub record InteractionNet (V : Type 0) : Type 0 where
  pub nodes : Map (NetNode V)
  pub wires : Map Wire
  pub active_pair_cache : Map ActivePair
  pub id_counter : ℕ

pub record ReductionResult (V : Type 0) : Type 0 where
  pub remove : List String
  pub add : List (NetNode V)
  pub add_wires : List Wire
  pub remove_wires : List String

abbrev pub touches : String → Wire → Bool
touches id w = (w.from.node_id === id) || (w.to.node_id === id)

-- The loop of `removeNode` over the wires.
unfoldable pub drop_wires : String → Map Wire → Map Wire
drop_wires id [] = []
drop_wires id ((k, w) ∷ wires) =
    if touches id w then drop_wires id wires else (k, w) ∷ drop_wires id wires

-- `getWiresForPort`.
abbrev pub get_wires_for_port : String → ℕ → Map Wire → List Wire
get_wires_for_port id index wires =
    filter
      (λ w.
        ((w.from.node_id === id) && (w.from.index == index))
        || ((w.to.node_id === id) && (w.to.index == index)))
      (values wires)

abbrev other_end : String → Wire → String
other_end id w = if w.from.node_id === id then w.to.node_id else w.from.node_id

-- The loops that store each of a list of objects under its id.
unfoldable pub add_all : {A : Type 0} → (A → String) → List A → Map A → Map A
unfolding set
add_all id_of [] m = m
add_all id_of (x ∷ xs) m = add_all id_of xs (set m (id_of x) x)

module _ {V : Type 0} where
  -- `addNode`.
  unfoldable pub add_node : NetNode V → InteractionNet V → InteractionNet V
  unfolding set
  add_node n net = record net { nodes = set net.nodes n.id n; active_pair_cache = [] }

  -- `removeNode`.
  unfoldable pub remove_node : String → InteractionNet V → InteractionNet V × Option (NetNode V)
  unfolding get delete drop_wires
  remove_node id net = elim (get net.nodes id) [
    | none ↦ (net, none)
    | some n ↦ (
      record net {
        nodes = delete net.nodes id;
        wires = drop_wires id net.wires;
        active_pair_cache = [];
      },
      some n,
    )
  ]

  -- `connect`, with the new wire's id.
  unfoldable pub connect : String → Port → Port → InteractionNet V → InteractionNet V × Wire
  unfolding set
  connect id from to net =
      let w : Wire = record { id = id; from = from; to = to } in
      (record net { wires = set net.wires id w; active_pair_cache = [] }, w)

  -- `removeWire`.
  abbrev pub remove_wire : String → InteractionNet V → InteractionNet V × Bool
  remove_wire id net =
      if has net.wires id
      then (record net { wires = delete net.wires id; active_pair_cache = [] }, true)
      else (net, false)

  -- `getConnectedNode`.
  abbrev pub get_connected_node : String → ℕ → InteractionNet V → Option (NetNode V)
  get_connected_node id index net = elim (get_wires_for_port id index net.wires) [
    | [] ↦ none
    | w ∷ _ ↦ get net.nodes (other_end id w)
  ]

  -- `applyReduction`.
  unfoldable pub apply_reduction : ReductionResult V → InteractionNet V → InteractionNet V
  unfolding add_all delete_all
  apply_reduction r net = record net {
    nodes = add_all (λ n. n.id) r.add (delete_all net.nodes r.remove);
    wires = add_all (λ w. w.id) r.add_wires (delete_all net.wires r.remove_wires);
    active_pair_cache = [];
  }
