-- ===== src/Shared/Tests.antt =====
-- core/shared-state.ts: tests and examples on one session with an edge.
use ather.Base.{◌==◌, get, set, ℕ, ◌≡◌, refl, true, Option, none, some, [], ◌∷◌, map}
use ather.Shared.{
  read_edges, BusState, BusUpdate, EdgeKey, SharedStateBusConfig, SharedStateBus, new_session,
  find_edge, write, touch_edge, patch, create_session, updated, update, get_edges,
}
use ather.Shared.History.{IsTracked, update-IsTracked, create_session-IsTracked}
use ather.Shared.Sharing.{IsSeen, update-IsSeen}

abbrev config : SharedStateBusConfig
config = record { max_transitions_per_session = 2; publish_changes = true; persist_sessions = true }

abbrev empty : SharedStateBus ℕ
empty = record {
  config = config;
  heap = [];
  sessions = [];
  transitions = [];
  kv = some [];
  published = [];
}

abbrev or_empty : Option (SharedStateBus ℕ) → SharedStateBus ℕ
or_empty none = empty
or_empty (some bus) = bus

abbrev or_empty_bus : Option (SharedStateBus ℕ × BusState ℕ) → SharedStateBus ℕ
or_empty_bus none = empty
or_empty_bus (some out) = out.0

abbrev opened : SharedStateBus ℕ
opened = or_empty (create_session "bus" "s" "goal" [] 5 empty)

abbrev key : EdgeKey
key = record { from = "a"; to = "b"; msg_type = "task" }

abbrev command : BusUpdate ℕ
command = record {
  patches = ("x", 1) ∷ [];
  add_edge = some key;
  set_active_role = none;
  increment_step = true;
  set_goal = none;
  agent = "a";
  reason = "progress";
}

abbrev once : SharedStateBus ℕ
once = or_empty_bus (update ◌==◌ "s" command 6 opened)

abbrev twice : SharedStateBus ℕ
twice = or_empty_bus (update ◌==◌ "s" command 7 once)

counts_edge : map (λ e. e.count) (get_edges "s" twice) ≡ 2 ∷ []
unfolding update create_session updated touch_edge find_edge write patch get set
counts_edge = refl

empty-IsTracked : IsTracked empty
unfolding get
empty-IsTracked id s h = absurd (cc h)

create_session-IsTracked_example : IsTracked opened
unfolding create_session get set
create_session-IsTracked_example =
    create_session-IsTracked "bus" "s" "goal" [] 5 empty opened empty-IsTracked refl

opened-IsTracked : IsTracked opened
unfolding create_session get set
opened-IsTracked = create_session-IsTracked "bus" "s" "goal" [] 5 empty opened empty-IsTracked refl

abbrev new_state : BusState ℕ
new_state = record (new_session "bus" "s" "goal" [] 5) {
  step_count = 1;
  edges = 0 ∷ [];
  values = ("x", 1) ∷ [];
  updated_at = 6;
  version = 1;
}

update-IsTracked_example : IsTracked once
unfolding create_session get set update updated touch_edge find_edge write patch
update-IsTracked_example =
    update-IsTracked ◌==◌ "s" command 6 opened (once, new_state) opened-IsTracked refl

-- The edge that the state of before the second update holds reads a count of 2 after it.
earlier_edge_counted :
    read_edges twice.heap new_state.edges
    ≡ record { from = "a"; to = "b"; msg_type = "task"; count = 2; last_at = 7 } ∷ []
unfolding create_session get set update updated touch_edge find_edge write patch
earlier_edge_counted = refl

update-IsSeen_example : IsSeen twice.heap (0 ∷ []) (0 ∷ []) []
unfolding create_session get set update updated touch_edge find_edge write patch
update-IsSeen_example =
    update-IsSeen ◌==◌ "s" command 7 once new_state
      (twice, record new_state { step_count = 2; updated_at = 7; version = 2 }) refl refl
