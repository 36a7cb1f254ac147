-- ===== src/Lib.antt =====
-- Ather (also AETHER): an agent orchestration framework in TypeScript. This library models parts
-- of its core that keep state and make decisions, with theorems about them.
--
-- The parts and how they interact. The agent registry (core/registry.ts) knows the agents and their
-- escalation targets; the escalation manager (core/escalation.ts) asks it for the chain above an
-- agent and writes its records through to the store (core/storage/sqlite-store.ts). The worker pool
-- (core/worker-pool.ts) runs submitted tasks on a bounded number of workers. The durable workflow
-- engine (core/durable.ts) runs steps in the order of their dependencies and checkpoints each to the
-- store. The state graph (core/state-graph.ts) runs nodes along conditional edges; the handoff
-- manager (core/handoff.ts) passes conversations between agents and keeps their chains in the store.
-- The interaction net (core/interaction-net.ts) holds tasks as nodes whose active pairs workers claim,
-- and saves snapshots to the store. Messages travel in the form that protocol/codec.ts gives them; the
-- reaction engine (core/reaction-engine.ts) watches them and fires rules. The shared state bus
-- (core/shared-state.ts) keeps the state of a session with its history and writes it to the store.
-- core/utils and core/fallback wrap calls that may fail. The workflow builder
-- (core/workflow-builder.ts) makes the steps that the workflow engine runs; the progress tracker
-- (core/progress-tracker.ts) watches workflows through events in the store; the hooks (core/hooks) run
-- callbacks when files change. The tier registry (core/tier-registry.ts) ranks the tiers of agents.
-- Agents exchange messages over the bus of core/acp.ts.
--
-- The files:
--   Base                shared names; Base/Tests: Boolean tests; Base/Lists: lists over the native
--                       numbers; Base/Maps: the language's Map<string, V> as its list of entries;
--                       Base/Texts: the language's operations on texts
--   Registry            core/registry.ts: get, getAll, getEscalationChain; Registry/Chain: the chain;
--                       Registry/Index: register, unregister; Registry/Exact, Registry/Registration:
--                       the indexes
--   Escalation          core/escalation.ts: EscalationManager, every operation
--   Escalation/Breaker  the circuit breaker; Escalation/Gates: who can be reached;
--   Escalation/Recovery, Escalation/Restart: the records in memory against the store
--   Pool                core/worker-pool.ts: the data; Pool/Queue: enqueue; Pool/Workers: choosing,
--                       assigning and releasing workers; Pool/Steps: the calls and timers
--   Pool/Accounts, Pool/Tasks: the tasks; Pool/Waiting: waiting tasks and idle workers;
--   Pool/Scaling: the number of workers; Pool/Late: late outcomes, stop
--   Durable             core/durable.ts: checkpoints and topologicalSort; Durable/Run: executeFrom,
--                       run, resume; Durable/Order: the sort; Durable/Resume: a crash
--   StateGraph          core/state-graph.ts: StateGraph and CompiledGraph; StateGraph/Reachable: the
--                       search of compile; StateGraph/Build: graphs made by the builder;
--                       StateGraph/Runs, StateGraph/Limits: run
--   Handoff             core/handoff.ts: handoff, getHandoffContext and the conversation tables;
--                       Handoff/Limit: how many handoffs; Handoff/Chain: who has had a conversation
--   Net                 core/interaction-net.ts: nodes, wires, reductions; Net/Pairs: active pairs and
--                       claims; Net/Factories: the create and build methods; Net/Snapshot:
--                       checkpoint, restore; Net/Claims: who holds a node; Net/Wiring: the wires' ends
--   Codec               protocol/codec.ts: encode, decode, validate, isValid, createMessage;
--                       Codec/Fields, Codec/Validity: what is accepted; Codec/RoundTrip: decoding
--                       an encoding
--   Reaction            core/reaction-engine.ts: rules, conditions, processMessage; Reaction/Firing:
--                       how often and how fast a rule fires
--   Shared              core/shared-state.ts: sessions, updates, edges; Shared/History: the versions;
--                       Shared/Sharing: states handed out before
--   Utils               Utils/Retry: core/utils/retry.ts; Utils/Batch: core/utils/batch.ts;
--                       Utils/Fallback: core/fallback/chain-manager.ts
--   Builder             core/workflow-builder.ts: WorkflowBuilder; Builder/Order: dependencies;
--                       Builder/Ids: ids, build
--   Progress            core/progress-tracker.ts: ProgressTracker; Progress/Hash: simpleHash;
--                       Progress/Loops: detectLoop
--   Hooks               Hooks/Debounce: core/hooks/debounce.ts; Hooks/Single: how often a hook runs;
--                       Hooks/Events: core/hooks/event-bus.ts
--   Tiers               core/tier-registry.ts: TierRegistry; Tiers/Presets: the built-in tiers;
--                       Tiers/Order: the order by rank; Tiers/Checks: validate
--   Acp                 core/acp.ts: ACPBus; Acp/Requests: pending requests and dead letters;
--                       Acp/Acknowledgments: the messages that wait for one
--
-- How it is modelled. Stateful classes are records, and a method is a function to the new record and
-- its result. A clock reading is an argument, in milliseconds. Texts of recommendations and errors
-- are kept as the values that they show. Differences of times stop at 0 here, where the source goes
-- below 0; each such difference is only compared with a bound that is not negative, so the answer is
-- the same. What pause and abort do while a workflow runs is a signal for each step; the store's
-- JSON text is taken to give back the state that it was made from. Edge conditions of a state graph
-- are taken not to throw. Where the order of a query leaves rows of equal rank open, the model takes
-- one order.
--
-- MessagePack, zstd, hexadecimal text and JSON are parameters of the codec. The delays of
-- core/utils/retry.ts are computed exactly, where the source rounds floating-point numbers. The edges
-- of a session's states are addresses in a heap, since successive states share them. An active pair
-- names its nodes by their ids, where the source holds the nodes themselves. A text that
-- is hashed is the list of its UTF-16 code units, and the hash the unsigned form of a 32-bit number.
--
-- Fuel: the walk of the escalation chain has one round for each registered agent and one more, the
-- binary search of enqueue the length of the queue, the sort of a workflow one round for each root
-- and each step, the search for reachable nodes one round for each push that an edge can make,
-- processBatch one round for each item; theorems show that this is enough. The search for cycles of
-- the workflow builder has one round for each root and each dependency, since a step enters its queue
-- at the start or when a dependency is taken off; a search without an end would be a refusal.
--
-- Not modelled: the callback onStepComplete of a workflow, the parsing of a handoff from a model's
-- answer, the registry's queries by capability, input and output, the providers of language models,
-- the command line, the transports, the rate limiter and the routing scores (fractions), and the
-- parts that the project manifest lists as such.
mod Base
pub mod Acp
pub mod Builder
pub mod Codec
pub mod Durable
pub mod Escalation
pub mod Handoff
pub mod Hooks
pub mod Net
pub mod Pool
pub mod Progress
pub mod Reaction
pub mod Registry
pub mod Shared
pub mod StateGraph
pub mod Tiers
pub mod Utils
