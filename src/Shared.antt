-- ===== src/Shared.antt =====
-- core/shared-state.ts: `SharedStateBus`. The edges of a session are objects that several states
-- share: they live in a heap, and a state holds their addresses. Values are opaque; their comparison
-- is an argument, and a patch holds no undefined one. A stored session is a deep copy. The logger and
-- the timer are left out.
pub mod History
pub mod Sharing
pub mod Tests
use Prim.Native.String.{◌++◌ as text_append}
use ather.Base.{
  ◌===◌, if◌then◌else◌, or_else, is_some, length, get_elem?, drop, filter, Map, get, set, delete,
  has, values, ℕ, zero, suc, ◌+◌, ◌-◌, String, Bool, true, ◌&&◌, not, Option, none, some, List, [],
  ◌∷◌, ◌++◌,
}

pub record CommEdge : Type 0 where
  pub from : String
  pub to : String
  pub msg_type : String
  pub count : ℕ
  pub last_at : ℕ

-- `BusState`; an edge is its address.
pub record BusState (V : Type 0) : Type 0 where
  pub id : String
  pub session_id : String
  pub goal : String
  pub active_role : Option String
  pub step_count : ℕ
  pub edges : List ℕ
  pub values : Map V
  pub created_at : ℕ
  pub updated_at : ℕ
  pub version : ℕ

-- What `BusUpdate.addEdge` names.
pub record EdgeKey : Type 0 where
  pub from : String
  pub to : String
  pub msg_type : String

-- `BusUpdate`. A role may be set to null.
pub record BusUpdate (V : Type 0) : Type 0 where
  pub patches : Map V
  pub add_edge : Option EdgeKey
  pub set_active_role : Option (Option String)
  pub increment_step : Bool
  pub set_goal : Option String
  pub agent : String
  pub reason : String

pub record StateTransition : Type 0 where
  pub changed_fields : List String
  pub agent : String
  pub reason : String
  pub from_version : ℕ
  pub to_version : ℕ
  pub timestamp : ℕ

-- A row of the key-value store: the state, with its edges by value.
pub record Stored (V : Type 0) : Type 0 where
  pub state : BusState V
  pub edges : List CommEdge

pub record SharedStateBusConfig : Type 0 where
  pub max_transitions_per_session : ℕ
  pub publish_changes : Bool
  pub persist_sessions : Bool

pub record SharedStateBus (V : Type 0) : Type 0 where
  pub config : SharedStateBusConfig
  pub heap : List CommEdge
  pub sessions : Map (BusState V)
  pub transitions : Map (List StateTransition)
  pub kv : Option (Map (Stored V))
  pub published : List (String × StateTransition)

abbrev pub matches : EdgeKey → CommEdge → Bool
matches k e = (e.from === k.from) && (e.to === k.to) && (e.msg_type === k.msg_type)

abbrev pub edge_at : List CommEdge → ℕ → Option CommEdge
edge_at heap a = get_elem? heap a

-- `edges.find(...)`, as an address.
unfoldable pub find_edge : EdgeKey → List CommEdge → List ℕ → Option ℕ
find_edge k heap [] = none
find_edge k heap (a ∷ addresses) =
    let rest = find_edge k heap addresses in
    elim (edge_at heap a) [ none ↦ rest | some e ↦ if matches k e then some a else rest ]

-- A write to the object at an address.
unfoldable pub write : List CommEdge → ℕ → CommEdge → List CommEdge
write [] a e = []
write (d ∷ heap) zero e = e ∷ heap
write (d ∷ heap) (suc a) e = d ∷ write heap a e

abbrev pub counted : CommEdge → ℕ → CommEdge
counted e now = record e { count = e.count + 1; last_at = now }

abbrev pub new_edge : EdgeKey → ℕ → CommEdge
new_edge k now = record {
  from = k.from;
  to = k.to;
  msg_type = k.msg_type;
  count = 1;
  last_at = now;
}

-- "Build new edges": an edge that is there is counted in place, another one is made.
unfoldable pub touch_edge : EdgeKey → ℕ → List CommEdge → List ℕ → List CommEdge × List ℕ
unfolding find_edge write
touch_edge k now heap addresses = elim (find_edge k heap addresses) [
  | none ↦ (heap ++ (new_edge k now ∷ []), addresses ++ (length heap ∷ []))
  | some a ↦ elim (edge_at heap a) [
    | none ↦ (heap, addresses)
    | some e ↦ (write heap a (counted e now), addresses)
  ]
]

abbrev field_name : String → String → String
field_name prefix k = text_append prefix k

-- `push`, and `splice` from the front when the history is too long.
abbrev pub append_transition : ℕ → StateTransition → List StateTransition → List StateTransition
append_transition limit t history =
    let longer = history ++ (t ∷ []) in drop (length longer - limit) longer

-- The edges of a state, as they read now.
abbrev pub read_edges : List CommEdge → List ℕ → List CommEdge
read_edges heap [] = []
read_edges heap (a ∷ addresses) = elim (edge_at heap a) [
  | none ↦ read_edges heap addresses
  | some e ↦ e ∷ read_edges heap addresses
]

-- The addresses of objects that are allocated one after the other.
abbrev addresses_from : ℕ → List CommEdge → List ℕ
addresses_from a [] = []
addresses_from a (e ∷ edges) = a ∷ addresses_from (a + 1) edges

abbrev mark_if : Bool → String → List String → List String
mark_if b name changed = if b then changed ++ (name ∷ []) else changed

module _ {V : Type 0} where
  abbrev is_changed : (V → V → Bool) → Option V → V → Bool
  is_changed same none v = true
  is_changed same (some w) v = not (same w v)

  -- "Build new values": the loop over the patches.
  unfoldable pub patch : (V → V → Bool) → Map V → Map V → List String → Map V × List String
  unfolding get set
  patch same [] state_values changed = (state_values, changed)
  patch same ((k, v) ∷ patches) state_values changed = patch same patches (set state_values k v) (
      if is_changed same (get state_values k) v
      then changed ++ (field_name "values." k ∷ [])
      else changed)

  -- Writes a session through to the store, as a deep copy.
  abbrev pub kv_set : SharedStateBus V → BusState V → Option (Map (Stored V))
  kv_set bus s = elim (bus.kv) [
    | none ↦ none
    | some rows ↦ some (
        set rows (field_name "bus:" s.session_id)
          (record { state = s; edges = read_edges bus.heap s.edges }))
  ]

  abbrev persist : SharedStateBus V → BusState V → SharedStateBus V
  persist bus s = if bus.config.persist_sessions then record bus { kv = kv_set bus s } else bus

  -- The state that `createSession` starts with.
  abbrev pub new_session : String → String → String → Map V → ℕ → BusState V
  new_session bus_id session_id goal initial_values now = record {
    id = bus_id;
    session_id = session_id;
    goal = goal;
    active_role = none;
    step_count = 0;
    edges = [];
    values = initial_values;
    created_at = now;
    updated_at = now;
    version = 0;
  }

  -- `createSession`; `none` is the error that the session exists.
  unfoldable pub create_session :
      String → String → String → Map V → ℕ → SharedStateBus V → Option (SharedStateBus V)
  unfolding set get
  create_session bus_id session_id goal initial_values now bus =
      let s = new_session bus_id session_id goal initial_values now in
      if has bus.sessions session_id
      then none
      else some (
          persist
            (record bus {
              sessions = set bus.sessions session_id s;
              transitions = set bus.transitions session_id [];
            })
            s)

  -- `closeSession`.
  unfoldable pub close_session : String → SharedStateBus V → SharedStateBus V
  unfolding delete
  close_session session_id bus = record bus {
    sessions = delete bus.sessions session_id;
    transitions = delete bus.transitions session_id;
    kv = elim (bus.kv) [
      | none ↦ none
      | some rows ↦ some (delete rows (field_name "bus:" session_id))
    ];
  }

  -- What `update` does to the heap and the addresses.
  abbrev pub edges_after : BusUpdate V → ℕ → List CommEdge → List ℕ → List CommEdge × List ℕ
  edges_after c now heap addresses = elim (c.add_edge) [
    | none ↦ (heap, addresses)
    | some k ↦ touch_edge k now heap addresses
  ]

  -- The names of the fields that `update` reports.
  abbrev changed_by : BusUpdate V → List String → List String
  changed_by c changed = mark_if (is_some c.set_goal) "goal" (
      mark_if c.increment_step "stepCount" (
        mark_if (is_some c.set_active_role) "activeRole"
          (mark_if (is_some c.add_edge) "edges" changed)))

  -- "Create new state".
  abbrev pub next_state : BusUpdate V → ℕ → BusState V → Map V → List ℕ → BusState V
  next_state c now s state_values addresses = record s {
    goal = or_else c.set_goal s.goal;
    active_role = or_else c.set_active_role s.active_role;
    step_count = if c.increment_step then s.step_count + 1 else s.step_count;
    edges = addresses;
    values = state_values;
    updated_at = now;
    version = s.version + 1;
  }

  abbrev pub transition_of : BusUpdate V → ℕ → BusState V → List String → StateTransition
  transition_of c now s changed = record {
    changed_fields = changed;
    agent = c.agent;
    reason = c.reason;
    from_version = s.version;
    to_version = s.version + 1;
    timestamp = now;
  }

  -- The body of `update` for a session that is there.
  unfoldable pub updated :
      (V → V → Bool)
      → String
      → BusUpdate V
      → ℕ
      → SharedStateBus V
      → BusState V
      → SharedStateBus V × BusState V
  unfolding get set patch touch_edge
  updated same session_id c now bus s =
      let (state_values, changed) = patch same c.patches s.values [] in
      let (heap, addresses) = edges_after c now bus.heap s.edges in
      let s' = next_state c now s state_values addresses in
      let t = transition_of c now s (changed_by c changed) in
      let history =
        append_transition bus.config.max_transitions_per_session t
          (or_else (get bus.transitions session_id) []) in
      (
        persist
            (record bus {
              heap = heap;
              sessions = set bus.sessions session_id s';
              transitions = set bus.transitions session_id history;
              published =
                  if bus.config.publish_changes
                  then bus.published ++ ((session_id, t) ∷ [])
                  else bus.published;
            })
            s',
        s',
      )

  -- `update`; `none` is the error that there is no such session.
  unfoldable pub update :
      (V → V → Bool)
      → String
      → BusUpdate V
      → ℕ
      → SharedStateBus V
      → Option (SharedStateBus V × BusState V)
  unfolding updated
  update same session_id c now bus = elim (get bus.sessions session_id) [
    | none ↦ none
    | some s ↦ some (updated same session_id c now bus s)
  ]

  -- `recordEdge`.
  abbrev pub record_edge : String → EdgeKey → ℕ → SharedStateBus V → SharedStateBus V
  record_edge session_id k now bus = elim (get bus.sessions session_id) [
    | none ↦ bus
    | some s ↦
        let (heap, addresses) = touch_edge k now bus.heap s.edges in
        record bus {
          heap = heap;
          sessions = set bus.sessions session_id (record s { edges = addresses; updated_at = now });
        }
  ]

  -- `getEdges`.
  abbrev pub get_edges : String → SharedStateBus V → List CommEdge
  get_edges session_id bus = elim (get bus.sessions session_id) [
    | none ↦ []
    | some s ↦ read_edges bus.heap s.edges
  ]

  -- `loadSession`: the object that the store gives is new.
  abbrev pub load_session : String → SharedStateBus V → SharedStateBus V × Option (BusState V)
  load_session session_id bus = elim (bus.kv) [
    | none ↦ (bus, none)
    | some rows ↦ elim (get rows (field_name "bus:" session_id)) [
      | none ↦ (bus, none)
      | some row ↦
          let s = record (row.state) { edges = addresses_from (length bus.heap) row.edges } in
          (
            record bus {
              heap = bus.heap ++ row.edges;
              sessions = set bus.sessions session_id s;
              transitions =
                  if has bus.transitions session_id
                  then bus.transitions
                  else set bus.transitions session_id [];
            },
            some s,
          )
    ]
  ]

  -- `getTransitionsByAgent`.
  abbrev pub get_transitions_by_agent : String → String → SharedStateBus V → List StateTransition
  get_transitions_by_agent session_id agent bus =
      filter (λ t. t.agent === agent) (or_else (get bus.transitions session_id) [])
