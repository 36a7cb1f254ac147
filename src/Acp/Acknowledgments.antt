-- ===== src/Acp/Acknowledgments.antt =====
-- core/acp.ts: the messages that wait for an acknowledgment.
use ather.Base.{
  if_ind, length, get, set, has, get-delete, length-set, IsUnique, length-delete, ℕ, suc, ◌+◌, ◌≤◌,
  String, ◌≡◌, ap, ◌∙◌, true, false, Option, none, some, arith,
}
use ather.Acp.{
  AcpEnvelope, AcpBus, send, mark_acknowledged, acknowledge, ack_envelope, add_dead_letter,
}

module _ {C : Type 0} where
  send-unacknowledged :
      (e : AcpEnvelope C) (now : ℕ) (published : Option String) (b : AcpBus C)
      → b.config.track_acknowledgments ≡ true
      → (send e now published b).0.unacknowledged ≡ set b.unacknowledged e.msg_id e
  unfolding send add_dead_letter
  send-unacknowledged e now none b track = ground (arith, track)
  send-unacknowledged e now (some reason) b track = ground (arith, track)

  mark_acknowledged-le :
      (msg_id : String) (b : AcpBus C)
      → IsUnique b.unacknowledged
      → length b.unacknowledged ≤ length (mark_acknowledged msg_id b).unacknowledged + 1
  mark_acknowledged-le msg_id b u = ground (arith, length-delete b.unacknowledged msg_id u)

  mark_acknowledged-fresh :
      (msg_id ack_id : String) (b : AcpBus C)
      → has b.unacknowledged ack_id ≡ false
      → has (mark_acknowledged msg_id b).unacknowledged ack_id ≡ false
  mark_acknowledged-fresh msg_id ack_id b fresh =
      ground (arith, fresh, get-delete b.unacknowledged msg_id ack_id)

  -- Where acknowledgments are tracked and the `ack` gets a new id, acknowledging a message does not
  -- bring down the number of messages that wait for an acknowledgment: the `ack` waits for one itself.
  pub length-acknowledge :
      (msg_id agent_id ack_id : String) (content : C) (now : ℕ) (published : Option String)
      (b : AcpBus C)
      → b.config.track_acknowledgments ≡ true
      → IsUnique b.unacknowledged
      → has b.unacknowledged ack_id ≡ false
      → length b.unacknowledged
        ≤ length (acknowledge msg_id agent_id ack_id content now published b).0.unacknowledged
  unfolding acknowledge
  length-acknowledge msg_id agent_id ack_id content now published b track u fresh =
      let e =
        ack_envelope ack_id content agent_id (get b.unacknowledged msg_id) b.config.max_retries in
      let m = mark_acknowledged msg_id b in
      let tracked : m.config.track_acknowledgments ≡ true =
        if_ind (λ (c : AcpBus C). c.config.track_acknowledgments ≡ true)
          (has b.unacknowledged msg_id) (λ _. track) (λ _. track) in
      let after = send-unacknowledged e now published m tracked in
      let grown : length (set m.unacknowledged ack_id e) ≡ suc (length m.unacknowledged) = ground (
        arith,
        length-set m.unacknowledged ack_id e,
        mark_acknowledged-fresh msg_id ack_id b fresh,
      ) in
      let count : length
            (acknowledge msg_id agent_id ack_id content now published b).0.unacknowledged
          ≡ suc (length m.unacknowledged) =
        ap length after ∙ grown in
      omega (arith, count, mark_acknowledged-le msg_id b u)
