-- ===== src/StateGraph.antt =====
-- core/state-graph.ts: the builder `StateGraph` and `CompiledGraph`. The state that flows through a
-- graph is a type parameter. Executors may throw; edge conditions are taken not to.
pub mod Reachable
pub mod Build
pub mod Runs
pub mod Limits
pub mod Tests
use ather.Base.{
  ◌===◌, if◌then◌else◌, or_else, length, filter, includes, Map, get, set, has, keys, ℕ, zero, suc,
  ◌+◌, String, ◌⊎◌, inl, inr, true, false, ◌&&◌, not, Option, none, some, List, [], ◌∷◌, ◌++◌,
}

pub data GraphError : Type 0 where
  node_exists entry_not_found exit_not_found edge_source_not_found edge_target_not_found
        node_not_found :
      (id : String) → GraphError
  resolved_to_missing : (from target : String) → GraphError
  executor_threw : (message : String) → GraphError

-- What a method that may throw gives.
pub data Result {ℓ} (A : Type ℓ) : Type ℓ where
  ok : A → Result A
  error : GraphError → Result A

-- `InternalNode`. The executor throws a message or returns the next state.
pub record InternalNode (S : Type 0) : Type 0 where
  pub id : String
  pub label : String
  pub executor : S → String ⊎ S

-- `InternalEdge`.
pub record InternalEdge (S : Type 0) : Type 0 where
  pub from : String
  pub to : String
  pub condition : Option (S → Option String)

pub record StateGraphConfig : Type 0 where
  pub id : String
  pub max_iterations : ℕ
  pub entry_node : String
  pub exit_nodes : List String

-- The fields of `StateGraph`, and of `CompiledGraph` but for the list of unreachable nodes.
pub record StateGraph (S : Type 0) : Type 0 where
  pub config : StateGraphConfig
  pub nodes : Map (InternalNode S)
  pub edges : List (InternalEdge S)

pub record CompiledGraph (S : Type 0) : Type 0 where
  pub graph : StateGraph S
  pub unreachable_nodes : List String

-- An entry of the trace.
pub record Visit : Type 0 where
  pub node_id : String
  pub label : String
  pub iteration : ℕ

pub record RunOutput (S : Type 0) : Type 0 where
  pub state : S
  pub trace : List Visit
  pub iterations : ℕ
  pub exit_node : Option String

module _ {S : Type 0} where
  -- `addNode`.
  unfoldable pub add_node :
      String → String → (S → String ⊎ S) → StateGraph S → Result (StateGraph S)
  unfolding set
  add_node id label executor g =
      if has g.nodes id
      then error (node_exists id)
      else ok (record g {
        nodes = set g.nodes id (record { id = id; label = label; executor = executor });
      })

  -- `addEdge`.
  abbrev pub add_edge : String → String → StateGraph S → StateGraph S
  add_edge from to g = record g {
    edges = g.edges ++ (record { from = from; to = to; condition = none } ∷ []);
  }

  -- `addConditionalEdge`.
  abbrev pub add_conditional_edge : String → (S → Option String) → StateGraph S → StateGraph S
  add_conditional_edge from condition g = record g {
    edges =
        g.edges
        ++ (record { from = from; to = "__conditional__"; condition = some condition } ∷ []);
  }

  -- What `findReachableNodes` pushes for an edge.
  abbrev pub targets : List String → InternalEdge S → List String
  targets ids e = if e.to === "__conditional__" then ids else e.to ∷ []

  -- The loop of `findReachableNodes` over the edges.
  unfoldable pub push_targets :
      List String → List (InternalEdge S) → String → List String → List String
  push_targets ids [] current queue = queue
  push_targets ids (e ∷ edges) current queue =
      push_targets ids edges current (if e.from === current then queue ++ targets ids e else queue)

  -- The `while` loop of `findReachableNodes`; `none` means that the fuel ran out. The visited set
  -- is a list, newest first: it is only asked whether it holds an id.
  unfoldable pub visit :
      ℕ → List String → List (InternalEdge S) → List String → List String → Option (List String)
  visit fuel ids edges visited [] = some visited
  visit zero ids edges visited (current ∷ queue) = none
  visit (suc fuel) ids edges visited (current ∷ queue) = elim (includes visited current) [
    | true ↦ visit fuel ids edges visited queue
    | false ↦ visit fuel ids edges (current ∷ visited) (push_targets ids edges current queue)
  ]

  -- The number of pushes that the edges from nodes not yet visited may still make.
  unfoldable pub pushes : List String → List String → List (InternalEdge S) → ℕ
  pushes ids visited [] = 0
  pushes ids visited (e ∷ edges) =
      (if includes visited e.from then 0 else length (targets ids e)) + pushes ids visited edges

  -- `findReachableNodes`. Each round takes an id from the queue.
  unfoldable pub find_reachable_nodes : StateGraph S → String → List String
  unfolding visit pushes push_targets
  find_reachable_nodes g start =
      or_else (visit (1 + pushes (keys g.nodes) [] g.edges) (keys g.nodes) g.edges [] (start ∷ []))
        []

  -- The loop of `compile` over the exit nodes.
  abbrev pub check_exits : Map (InternalNode S) → List String → Option GraphError
  check_exits nodes [] = none
  check_exits nodes (id ∷ ids) =
      if has nodes id then check_exits nodes ids else some (exit_not_found id)

  -- The loop of `compile` over the edges.
  abbrev pub check_edges : Map (InternalNode S) → List (InternalEdge S) → Option GraphError
  check_edges nodes [] = none
  check_edges nodes (e ∷ edges) =
      if has nodes e.from
      then (if not (e.to === "__conditional__") && not (has nodes e.to)
          then some (edge_target_not_found e.to)
          else check_edges nodes edges)
      else some (edge_source_not_found e.from)

  -- `compile`.
  unfoldable pub compile : StateGraph S → Result (CompiledGraph S)
  unfolding find_reachable_nodes
  compile g =
      if has g.nodes g.config.entry_node
      then elim (check_exits g.nodes g.config.exit_nodes) [
        | some e ↦ error e
        | none ↦ elim (check_edges g.nodes g.edges) [
          | some e ↦ error e
          | none ↦
              let reachable = find_reachable_nodes g g.config.entry_node in
              ok (record {
                graph = g;
                unreachable_nodes = filter (λ id. not (includes reachable id)) (keys g.nodes);
              })
        ]
      ]
      else error (entry_not_found g.config.entry_node)

  -- The loop of `resolveNextNode` over the conditional edges: the first target that is not null.
  abbrev pub first_target : List (InternalEdge S) → S → Option String
  first_target [] state = none
  first_target (e ∷ edges) state = elim e.condition [
    | none ↦ first_target edges state
    | some condition ↦ elim (condition state) [
      | some target ↦ some target
      | none ↦ first_target edges state
    ]
  ]

  -- `outEdges.find((e) => !e.condition)`, and what follows it.
  abbrev pub unconditional_target : List (InternalEdge S) → Option String
  unconditional_target [] = none
  unconditional_target (e ∷ edges) = elim e.condition [
    | none ↦ if e.to === "__conditional__" then none else some e.to
    | some _ ↦ unconditional_target edges
  ]

  -- `resolveNextNode`.
  unfoldable pub resolve_next_node : StateGraph S → String → S → Result (Option String)
  resolve_next_node g from state =
      let out_edges = filter (λ e. e.from === from) g.edges in
      elim (first_target out_edges state) [
        | some target ↦
            if has g.nodes target then ok (some target) else error (resolved_to_missing from target)
        | none ↦ ok (unconditional_target out_edges)
      ]

  -- The `while` loop of `run`, with the number of iterations that are left.
  unfoldable pub run_from : ℕ → StateGraph S → String → S → List Visit → ℕ → Result (RunOutput S)
  unfolding get resolve_next_node
  run_from zero g current state trace i =
      ok (record { state = state; trace = trace; iterations = i; exit_node = some current })
  run_from (suc left) g current state trace i = elim (get g.nodes current) [
    | none ↦ error (node_not_found current)
    | some node ↦
        let trace' =
          trace ++ (record { node_id = node.id; label = node.label; iteration = i + 1 } ∷ []) in
        elim (node.executor state) [
          | inl message ↦ error (executor_threw message)
          | inr state' ↦
              let stop : Result (RunOutput S) = ok (record {
                state = state';
                trace = trace';
                iterations = i + 1;
                exit_node = some current;
              }) in
              elim (includes g.config.exit_nodes current) [
                | true ↦ stop
                | false ↦ elim (resolve_next_node g current state') [
                  | error e ↦ error e
                  | ok none ↦ stop
                  | ok (some next) ↦ run_from left g next state' trace' (i + 1)
                ]
              ]
        ]
  ]

  -- `CompiledGraph.run`.
  unfoldable pub run : CompiledGraph S → S → Result (RunOutput S)
  unfolding run_from
  run c state = run_from c.graph.config.max_iterations c.graph c.graph.config.entry_node state [] 0
