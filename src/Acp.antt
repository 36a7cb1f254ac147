-- ===== src/Acp.antt =====
-- core/acp.ts: `ACPBus`. An envelope has the fields that the bus reads; its content is opaque. What
-- publishing on the memory highway gives is an argument, and so are the outcomes of the handlers that
-- an envelope is delivered to. What becomes of the promise of a request is a list of outcomes. A
-- schema that does not fit is only logged by `send`, so that schemas are left out.
use Prim.Native.String.{◌++◌ as text_append}
use ather.Base.{
  leb, ◌==◌, ◌===◌, if◌then◌else◌, length, drop, filter, Map, get, set, delete, has, values, ℕ, ◌+◌,
  ◌-◌, String, Bool, true, false, ◌&&◌, not, Option, none, some, List, [], ◌∷◌, ◌++◌,
}
pub mod Requests
pub mod Acknowledgments
pub mod Tests

pub record AcpConfig : Type 0 where
  pub max_retries : ℕ
  pub max_dead_letters : ℕ
  pub track_acknowledgments : Bool
  pub track_comm_graph : Bool

pub record AcpEnvelope (C : Type 0) : Type 0 where
  pub msg_id : String
  pub sender : String
  pub receiver : String
  pub msg_type : String
  pub content : C
  pub retry_count : ℕ
  pub max_retries : ℕ
  pub parent_msg_id : Option String

pub record DeadLetter (C : Type 0) : Type 0 where
  pub envelope : AcpEnvelope C
  pub reason : String
  pub attempts : ℕ

pub record GraphEdge : Type 0 where
  pub from : String
  pub to : String
  pub msg_type : String
  pub count : ℕ
  pub last_at : ℕ

pub record AcpMetrics : Type 0 where
  pub total_sent : ℕ
  pub total_received : ℕ
  pub total_acknowledged : ℕ
  pub total_dead_lettered : ℕ
  pub pending_requests : ℕ

pub data Outcome (C : Type 0) : Type 0 where
  answered : AcpEnvelope C → Outcome C
  timed_out : Outcome C
  stopped : Outcome C

pub record AcpBus (C : Type 0) : Type 0 where
  pub config : AcpConfig
  pub pending_requests : Map {0} Unit
  pub outcomes : List (String × Outcome C)
  pub comm_edges : Map GraphEdge
  pub unacknowledged : Map (AcpEnvelope C)
  pub dead_letters : List (DeadLetter C)
  pub metrics : AcpMetrics

-- `recordCommEdge`.
abbrev pub edge_key : String → String → String → String
edge_key from to msg_type =
    text_append from (text_append "->" (text_append to (text_append ":" msg_type)))

unfoldable pub record_comm_edge : String → String → String → ℕ → Map GraphEdge → Map GraphEdge
unfolding get set
record_comm_edge from to msg_type now edges = elim (get edges (edge_key from to msg_type)) [
  | some e ↦ set edges (edge_key from to msg_type) (record e { count = e.count + 1; last_at = now })
  | none ↦
      set edges (edge_key from to msg_type)
        (record { from = from; to = to; msg_type = msg_type; count = 1; last_at = now })
]

module _ {C : Type 0} where
  -- `addDeadLetter`: `slice(-limit)` keeps the last letters, and with the limit 0 all of them.
  unfoldable pub add_dead_letter : AcpEnvelope C → String → AcpBus C → AcpBus C
  add_dead_letter e reason b =
      let letter : DeadLetter C = record {
        envelope = e;
        reason = reason;
        attempts = e.retry_count + 1;
      } in
      let longer = b.dead_letters ++ (letter ∷ []) in
      let limit = b.config.max_dead_letters in
      let m = b.metrics in
      record b {
        dead_letters = if limit == 0 then longer else drop (length longer - limit) longer;
        metrics = record m { total_dead_lettered = m.total_dead_lettered + 1 };
      }

  -- What `send` records before it publishes.
  abbrev pub before_publish : AcpEnvelope C → ℕ → AcpBus C → AcpBus C
  before_publish e now b = record b {
    comm_edges =
        (if b.config.track_comm_graph
          then record_comm_edge e.sender e.receiver e.msg_type now b.comm_edges
          else b.comm_edges);
    unacknowledged =
        (if b.config.track_acknowledgments
          then set b.unacknowledged e.msg_id e
          else b.unacknowledged);
  }

  abbrev pub count_sent : AcpBus C → AcpBus C
  count_sent b =
      let m = b.metrics in record b { metrics = record m { total_sent = m.total_sent + 1 } }

  -- `send`, with the envelope as it is made; `some reason` is a highway that throws. It tells whether
  -- the message was published.
  unfoldable pub send : AcpEnvelope C → ℕ → Option String → AcpBus C → AcpBus C × Bool
  unfolding set record_comm_edge add_dead_letter
  send e now published b = elim published [
    | none ↦ (count_sent (before_publish e now b), true)
    | some reason ↦
        if leb e.max_retries e.retry_count
        then (add_dead_letter e reason (before_publish e now b), false)
        else (before_publish e now b, false)
  ]

  -- The promise that `request` makes, before it sends.
  unfoldable pub await_response : String → AcpBus C → AcpBus C
  unfolding set
  await_response id b =
      let m = b.metrics in
      record b {
        pending_requests = set b.pending_requests id tt;
        metrics = record m { pending_requests = m.pending_requests + 1 };
      }

  -- `request`.
  unfoldable pub request : AcpEnvelope C → ℕ → Option String → AcpBus C → AcpBus C × Bool
  unfolding send await_response
  request e now published b = send e now published (await_response e.msg_id b)

  -- A pending request comes to its end: its entry goes, and so does its timer.
  unfoldable pub settle_request : String → Outcome C → AcpBus C → AcpBus C
  unfolding delete
  settle_request id outcome b =
      let m = b.metrics in
      record b {
        pending_requests = delete b.pending_requests id;
        outcomes = b.outcomes ++ ((id, outcome) ∷ []);
        metrics = record m { pending_requests = m.pending_requests - 1 };
      }

  -- The timer of a request; it is cleared where the request is settled.
  unfoldable pub time_out : String → AcpBus C → AcpBus C
  unfolding settle_request get
  time_out id b = if has b.pending_requests id then settle_request id timed_out b else b

  -- The envelope of an acknowledgment: its id and its content are given.
  abbrev pub ack_envelope : String → C → String → Option (AcpEnvelope C) → ℕ → AcpEnvelope C
  ack_envelope id content agent_id acknowledged max_retries = record {
    msg_id = id;
    sender = agent_id;
    receiver = elim acknowledged [ none ↦ "system" | some e ↦ e.sender ];
    msg_type = "ack";
    content = content;
    retry_count = 0;
    max_retries = max_retries;
    parent_msg_id = elim acknowledged [ none ↦ none | some e ↦ e.parent_msg_id ];
  }

  abbrev pub mark_acknowledged : String → AcpBus C → AcpBus C
  mark_acknowledged msg_id b =
      let m = b.metrics in
      if has b.unacknowledged msg_id
      then record b {
        unacknowledged = delete b.unacknowledged msg_id;
        metrics = record m { total_acknowledged = m.total_acknowledged + 1 };
      }
      else b

  -- `acknowledge`: the message is taken off, and an `ack` is sent under an id of its own.
  unfoldable pub acknowledge :
      String → String → String → C → ℕ → Option String → AcpBus C → AcpBus C × Bool
  unfolding send get delete
  acknowledge msg_id agent_id ack_id content now published b =
      send (ack_envelope ack_id content agent_id (get b.unacknowledged msg_id) b.config.max_retries)
        now published (mark_acknowledged msg_id b)

  -- The failures of handlers put the envelope among the dead letters.
  abbrev pub add_failures : AcpEnvelope C → List (Option String) → AcpBus C → AcpBus C
  add_failures e [] b = b
  add_failures e (none ∷ handled) b = add_failures e handled b
  add_failures e (some reason ∷ handled) b = add_failures e handled (add_dead_letter e reason b)

  abbrev pub pending_parent : AcpEnvelope C → AcpBus C → Option String
  pending_parent e b = elim e.parent_msg_id [
    | none ↦ none
    | some id ↦ if not (id === "") && has b.pending_requests id then some id else none
  ]

  abbrev pub count_received : AcpBus C → AcpBus C
  count_received b =
      let m = b.metrics in record b { metrics = record m { total_received = m.total_received + 1 } }

  -- `handleHighwayMessage` for an envelope on an ACP channel, with the outcome of each handler of the
  -- agent; the handlers by type change nothing.
  unfoldable pub handle_highway_message : AcpEnvelope C → List (Option String) → AcpBus C → AcpBus C
  unfolding get settle_request add_dead_letter
  handle_highway_message e handled b = elim (pending_parent e b) [
    | some id ↦ settle_request id (answered e) (count_received b)
    | none ↦ add_failures e handled (count_received b)
  ]

  abbrev stop_all : Map {0} Unit → List (String × Outcome C)
  stop_all [] = []
  stop_all ((id, u) ∷ pending) = (id, stopped) ∷ stop_all pending

  -- `stop`.
  unfoldable pub stop_bus : AcpBus C → AcpBus C
  stop_bus b =
      let m = b.metrics in
      record b {
        pending_requests = [];
        outcomes = b.outcomes ++ stop_all b.pending_requests;
        metrics = record m { pending_requests = 0 };
      }

  -- `findIndex` and `splice` of the dead letter of a message.
  abbrev pub take_letter :
      String → List (DeadLetter C) → Option (DeadLetter C × List (DeadLetter C))
  take_letter msg_id [] = none
  take_letter msg_id (l ∷ letters) =
      let rest = take_letter msg_id letters in
      if l.envelope.msg_id === msg_id
      then some (l, letters)
      else elim rest [ none ↦ none | some found ↦ some (found.0, l ∷ found.1) ]

  abbrev pub retried : AcpEnvelope C → AcpEnvelope C
  retried e = record e { retry_count = e.retry_count + 1 }

  abbrev pub again_dead : AcpEnvelope C → AcpBus C × Bool → AcpBus C × Bool
  again_dead e sent = if sent.1 then sent else (add_dead_letter e "Retry failed" sent.0, false)

  -- `retryDeadLetter`: the envelope is sent again under a new id.
  unfoldable pub retry_dead_letter :
      String → String → ℕ → Option String → AcpBus C → AcpBus C × Bool
  unfolding send add_dead_letter
  retry_dead_letter msg_id new_id now published b = elim (take_letter msg_id b.dead_letters) [
    | none ↦ (b, false)
    | some (l, letters) ↦
        let e = retried l.envelope in
        again_dead e
          (send (record e { msg_id = new_id }) now published (record b { dead_letters = letters }))
  ]

  -- `getAgentEdges`.
  abbrev pub get_agent_edges : String → AcpBus C → List GraphEdge × List GraphEdge
  get_agent_edges agent_id b =
      let edges = values b.comm_edges in
      (filter (λ e. e.to === agent_id) edges, filter (λ e. e.from === agent_id) edges)
