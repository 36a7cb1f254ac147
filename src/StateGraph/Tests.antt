-- ===== src/StateGraph/Tests.antt =====
-- core/state-graph.ts: tests and examples on a loop of two nodes beside one that no edge leads to.
use ather.Base.{
  ltb, if◌then◌else◌, All, includes, get, ℕ, ◌+◌, String, ◌≡◌, refl, ◌⊎◌, inr, true, false, none,
  some, List, [], ◌∷◌,
}
use ather.StateGraph.{
  resolve_next_node, run_from, Result, ok, error, StateGraphConfig, StateGraph, CompiledGraph,
  RunOutput, add_node, pushes, visit, compile, find_reachable_nodes, run,
}
use ather.StateGraph.Reachable.{LeadsTo, visit-find_reachable_nodes}
use ather.StateGraph.Build.{Call, node, edge, conditional_edge, build}
use ather.StateGraph.Runs.{run-reachable}
use ather.StateGraph.Limits.{IsSound, run-IsSound}

abbrev config : StateGraphConfig
config = record {
  id = "review";
  max_iterations = 5;
  entry_node = "draft";
  exit_nodes = "done" ∷ [];
}

abbrev count : ℕ → String ⊎ ℕ
count n = inr (n + 1)

-- A reviewer sends the draft back until the counter is 4.
abbrev calls : List (Call ℕ)
calls =
    node "draft" "Draft" count
    ∷ node "review" "Review" count
    ∷ node "done" "Done" count
    ∷ edge "draft" "review"
    ∷ conditional_edge "review" (λ n. if ltb n 4 then some "draft" else none)
    ∷ edge "review" "done"
    ∷ []

abbrev straight_calls : List (Call ℕ)
straight_calls =
    node "draft" "Draft" count
    ∷ node "done" "Done" count
    ∷ node "aside" "Aside" count
    ∷ edge "draft" "done"
    ∷ []

abbrev empty : StateGraph ℕ
empty = record { config = config; nodes = []; edges = [] }

abbrev or_empty : Result (StateGraph ℕ) → StateGraph ℕ
or_empty (ok g) = g
or_empty (error e) = empty

abbrev review : StateGraph ℕ
review = or_empty (build empty calls)

abbrev straight : StateGraph ℕ
straight = or_empty (build empty straight_calls)

abbrev straight_compiled : CompiledGraph ℕ
straight_compiled = record { graph = straight; unreachable_nodes = "aside" ∷ [] }

abbrev straight_out : RunOutput ℕ
straight_out = record {
  state = 2;
  trace =
      record { node_id = "draft"; label = "Draft"; iteration = 1 }
      ∷ record { node_id = "done"; label = "Done"; iteration = 2 }
      ∷ [];
  iterations = 2;
  exit_node = some "done";
}

-- After one iteration the bound is met: the exit node is reported although it has not run.
stops_at_bound :
    run_from 1 straight "draft" 0 [] 0
    ≡ ok (record {
      state = 1;
      trace = record { node_id = "draft"; label = "Draft"; iteration = 1 } ∷ [];
      iterations = 1;
      exit_node = some "done";
    })
unfolding add_node get run_from resolve_next_node
stops_at_bound = refl

visit-find_reachable_nodes_example :
    (visit
        (1 + pushes ("draft" ∷ "review" ∷ "done" ∷ []) [] review.edges)
        ("draft" ∷ "review" ∷ "done" ∷ [])
        review.edges
        []
        ("draft" ∷ [])
      ≡ some (find_reachable_nodes review "draft"))
    × (includes (find_reachable_nodes review "draft") "draft" ≡ true)
    × All
        (λ e.
          includes (find_reachable_nodes review "draft") e.from ≡ true
          → (t : String) → LeadsTo ("draft" ∷ "review" ∷ "done" ∷ []) e t
          → includes (find_reachable_nodes review "draft") t ≡ true)
        review.edges
unfolding add_node get
visit-find_reachable_nodes_example = visit-find_reachable_nodes review "draft"

run-reachable_example : All (λ t. includes ("aside" ∷ []) t.node_id ≡ false) straight_out.trace
unfolding run compile get add_node find_reachable_nodes visit
run-reachable_example =
    run-reachable config straight_calls straight straight_compiled 0 straight_out refl refl refl

run-IsSound_example : IsSound straight 5 (run straight_compiled 0)
unfolding compile add_node get find_reachable_nodes visit
run-IsSound_example = run-IsSound straight straight_compiled 0 refl
