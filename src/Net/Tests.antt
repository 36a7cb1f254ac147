-- ===== src/Net/Tests.antt =====
-- core/interaction-net.ts: tests and examples on two tasks that are joined.
use ather.Base.{get, set, keys, values, ℕ, ◌≤◌, String, ◌≡◌, refl, true, some, List, [], ◌∷◌}
use ather.Net.{concat, TaskPayload, InteractionNet, add_node, connect}
use ather.Net.Pairs.{find_active_pairs, claim_pair}
use ather.Net.Factories.{to_string, next_id, create_task_node, create_join, build_parallel_dag}
use ather.Net.Claims.{Op, find_pairs, claim, claims, AreDisjoint, claims-AreDisjoint}
use ather.Net.Wiring.{IsWired}
use ather.Net.Snapshot.{AreCounted, checkpoint, restore, restore-checkpoint}

abbrev work : TaskPayload ℕ
work = record {
  description = "review";
  agent_id = "reviewer";
  context = [];
  priority = 3;
  timeout = 120000;
}

abbrev empty : InteractionNet ℕ
empty = record { nodes = []; wires = []; active_pair_cache = []; id_counter = 0 }

abbrev joined : InteractionNet ℕ
joined = (build_parallel_dag (work ∷ work ∷ []) concat 36 empty).0

names_nodes : keys joined.nodes ≡ "join-1-10" ∷ "task-2-10" ∷ "task-4-10" ∷ []
unfolding build_parallel_dag create_join create_task_node next_id to_string add_node connect set
names_nodes = refl

abbrev first_pair : String
first_pair = "ap-task-2-10:join-1-10"

abbrev second_pair : String
second_pair = "ap-task-4-10:join-1-10"

abbrev ops : List Op
ops = find_pairs 36 ∷ claim first_pair "w1" ∷ claim second_pair "w2" ∷ []

-- The two tasks meet the same node, so that only one of them can be claimed.
claims_one : claims ops joined ≡ ("task-2-10", "join-1-10") ∷ []
unfolding claims build_parallel_dag create_join create_task_node next_id to_string add_node connect
    set find_active_pairs claim_pair get
claims_one = refl

claims-AreDisjoint_example : AreDisjoint (claims ops joined)
claims-AreDisjoint_example = claims-AreDisjoint ops joined

joined-IsWired : IsWired joined
unfolding build_parallel_dag create_join create_task_node next_id to_string add_node connect set get
joined-IsWired = ((refl, refl), ((refl, refl), tt))

restore-checkpoint_example :
    let out = restore (some (checkpoint joined)) empty in
    (out.0.nodes ≡ joined.nodes)
    × (out.0.wires ≡ joined.wires)
    × (out.0.active_pair_cache ≡ [])
    × AreCounted out.0.id_counter (values joined.nodes)
    × (empty.id_counter ≤ out.0.id_counter)
    × (out.1 ≡ true)
unfolding build_parallel_dag create_join create_task_node next_id to_string add_node connect set get
restore-checkpoint_example =
    restore-checkpoint joined empty ((refl, (refl, (refl, tt))), (refl, (refl, (refl, tt))))
      ((refl, (refl, tt)), (refl, (refl, tt)))
