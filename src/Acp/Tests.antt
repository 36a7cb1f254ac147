-- ===== src/Acp/Tests.antt =====
-- core/acp.ts: tests and examples on a request that is answered, and on an acknowledgment.
use ather.Base.{
  length, get, set, delete, ℕ, ◌≤◌, String, ◌≡◌, refl, true, false, Option, none, some, List, [],
  ◌∷◌, arith,
}
use ather.Acp.{
  AcpEnvelope, AcpBus, answered, send, request, await_response, handle_highway_message,
  settle_request, time_out, acknowledge, add_dead_letter, retry_dead_letter,
}
use ather.Acp.Requests.{
  Call, requested, received, expired, step, run, AreFresh, IsCounted, run-IsCounted,
}
use ather.Acp.Acknowledgments.{length-acknowledge}

abbrev empty_bus : AcpBus ℕ
empty_bus = record {
  config = record {
    max_retries = 0;
    max_dead_letters = 5;
    track_acknowledgments = true;
    track_comm_graph = false;
  };
  pending_requests = [];
  outcomes = [];
  comm_edges = [];
  unacknowledged = [];
  dead_letters = [];
  metrics = record {
    total_sent = 0;
    total_received = 0;
    total_acknowledged = 0;
    total_dead_lettered = 0;
    pending_requests = 0;
  };
}

abbrev envelope : String → Option String → AcpEnvelope ℕ
envelope id parent = record {
  msg_id = id;
  sender = "a";
  receiver = "b";
  msg_type = "task";
  content = 1;
  retry_count = 0;
  max_retries = 0;
  parent_msg_id = parent;
}

abbrev bus_calls : List (Call ℕ)
bus_calls =
    requested (envelope "q" none) 10 none ∷ received (envelope "r" (some "q")) [] ∷ expired "q" ∷ []

-- The timer of a request that was answered does nothing.
request_answered :
    (run bus_calls empty_bus).outcomes ≡ ("q", answered (envelope "r" (some "q"))) ∷ []
unfolding run step request await_response send handle_highway_message settle_request time_out get
    set delete
request_answered = refl

-- A dead letter that fails to be published again is kept twice.
letter_doubled :
    length
      (retry_dead_letter "q" "n" 20
        (some "down")
        (send (envelope "q" none) 10 (some "down") empty_bus).0).0.dead_letters
    ≡ 2
unfolding retry_dead_letter send add_dead_letter set
letter_doubled = refl

empty_bus-IsCounted : IsCounted empty_bus
empty_bus-IsCounted = record {
  unique = tt;
  counted = refl;
  limited = omega arith;
  bounded = omega arith;
}

run-IsCounted_example : IsCounted (run bus_calls empty_bus)
unfolding AreFresh get
run-IsCounted_example = run-IsCounted bus_calls empty_bus (refl, (tt, (tt, tt))) empty_bus-IsCounted

abbrev waiting : AcpBus ℕ
waiting = record empty_bus { unacknowledged = ("q", envelope "q" none) ∷ [] }

length-acknowledge_example : 1 ≤ length (acknowledge "q" "b" "k" 0 30 none waiting).0.unacknowledged
unfolding get
length-acknowledge_example = length-acknowledge "q" "b" "k" 0 30 none waiting refl (refl, tt) refl
