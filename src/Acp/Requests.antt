-- ===== src/Acp/Requests.antt =====
-- core/acp.ts: the pending requests and the dead letters.
use ather.Base.{
  leb, ◌===◌, Bool-cases, Option-cases, if_ind, length, length-drop, get, has, length-set, IsUnique,
  set-IsUnique, delete-IsUnique, length-delete, ℕ, suc, ◌+◌, ◌-◌, ◌≤◌, String, ◌≡◌, refl, ap, inl,
  inr, Bool, true, false, Option, none, some, List, [], ◌∷◌, ◌++◌, arith,
}
use ather.Acp.{
  ack_envelope, take_letter, mark_acknowledged, answered, add_failures, timed_out, AcpEnvelope,
  AcpBus, DeadLetter, Outcome, pending_parent, count_received, retried, add_dead_letter, send,
  await_response, request, settle_request, time_out, acknowledge, handle_highway_message, stop_bus,
  retry_dead_letter, before_publish,
}

-- What calls the bus: agents, the highway, timers. Publishing fails with a reason or not.
pub data Call (C : Type 0) : Type 0 where
  sent : AcpEnvelope C → ℕ → Option String → Call C
  requested : AcpEnvelope C → ℕ → Option String → Call C
  received : AcpEnvelope C → List (Option String) → Call C
  expired : String → Call C
  acknowledged : String → String → String → C → ℕ → Option String → Call C
  retried_letter : String → String → ℕ → Option String → Call C
  stopped_bus : Call C

module _ {C : Type 0} where
  unfoldable pub step : Call C → AcpBus C → AcpBus C
  unfolding send request handle_highway_message time_out acknowledge retry_dead_letter stop_bus
  step (sent e now published) b = (send e now published b).0
  step (requested e now published) b = (request e now published b).0
  step (received e handled) b = handle_highway_message e handled b
  step (expired id) b = time_out id b
  step (acknowledged msg_id agent_id ack_id content now published) b =
      (acknowledge msg_id agent_id ack_id content now published b).0
  step (retried_letter msg_id new_id now published) b =
      (retry_dead_letter msg_id new_id now published b).0
  step stopped_bus b = stop_bus b

  unfoldable pub run : List (Call C) → AcpBus C → AcpBus C
  unfolding step
  run [] b = b
  run (c ∷ calls) b = run calls (step c b)

  -- The id of a request is new: it is made at random.
  abbrev pub IsFresh : Call C → AcpBus C → Type 0
  IsFresh (requested e now published) b = has b.pending_requests e.msg_id ≡ false
  IsFresh c b = Unit

  unfoldable pub AreFresh : List (Call C) → AcpBus C → Type 0
  unfolding step
  AreFresh [] b = Unit
  AreFresh (c ∷ calls) b = IsFresh c b × AreFresh calls (step c b)

  -- The metric counts the pending requests, and there are at most so many dead letters as configured,
  -- where at least one is.
  pub record IsCounted (b : AcpBus C) : Type 0 where
    pub unique : IsUnique b.pending_requests
    pub counted : b.metrics.pending_requests ≡ length b.pending_requests
    pub limited : 1 ≤ b.config.max_dead_letters
    pub bounded : length b.dead_letters ≤ b.config.max_dead_letters

  add_dead_letter-IsCounted :
      (e : AcpEnvelope C) (reason : String) (b : AcpBus C)
      → IsCounted b
      → IsCounted (add_dead_letter e reason b)
  unfolding add_dead_letter
  add_dead_letter-IsCounted e reason b i =
      let longer =
        b.dead_letters
        ++ (record { envelope = e; reason = reason; attempts = e.retry_count + 1 } ∷ []) in
      record {
        unique = i.unique;
        counted = i.counted;
        limited = i.limited;
        bounded =
            ground
              (arith, i.limited, length-drop (length longer - b.config.max_dead_letters) longer);
      }

  send-IsCounted :
      (e : AcpEnvelope C) (now : ℕ) (published : Option String) (b : AcpBus C)
      → IsCounted b
      → IsCounted (send e now published b).0
  unfolding send
  send-IsCounted e now none b i = record {
    unique = i.unique;
    counted = i.counted;
    limited = i.limited;
    bounded = i.bounded;
  }
  send-IsCounted e now (some reason) b i =
      let before : IsCounted (before_publish e now b) = record {
        unique = i.unique;
        counted = i.counted;
        limited = i.limited;
        bounded = i.bounded;
      } in
      elim (Bool-cases (leb e.max_retries e.retry_count)) [
        | inl h ↦ rw (send, h) (add_dead_letter-IsCounted e reason (before_publish e now b) before)
        | inr h ↦ rw (send, h) before
      ]

  request-IsCounted :
      (e : AcpEnvelope C) (now : ℕ) (published : Option String) (b : AcpBus C)
      → has b.pending_requests e.msg_id ≡ false
      → IsCounted b
      → IsCounted (request e now published b).0
  unfolding request await_response
  request-IsCounted e now published b fresh i =
      send-IsCounted e now published (await_response e.msg_id b) (record {
        unique = set-IsUnique b.pending_requests e.msg_id tt i.unique;
        counted = ground (arith, i.counted, fresh, length-set b.pending_requests e.msg_id tt);
        limited = i.limited;
        bounded = i.bounded;
      })

  settle_request-IsCounted :
      (id : String) (outcome : Outcome C) (b : AcpBus C)
      → has b.pending_requests id ≡ true
      → IsCounted b
      → IsCounted (settle_request id outcome b)
  unfolding settle_request
  settle_request-IsCounted id outcome b there i = record {
    unique = delete-IsUnique b.pending_requests id i.unique;
    counted = ground (arith, i.counted, there, length-delete b.pending_requests id i.unique);
    limited = i.limited;
    bounded = i.bounded;
  }

  time_out-IsCounted : (id : String) (b : AcpBus C) → IsCounted b → IsCounted (time_out id b)
  unfolding time_out
  time_out-IsCounted id b i = elim (Bool-cases (has b.pending_requests id)) [
    | inl h ↦ rw (time_out, h) (settle_request-IsCounted id timed_out b h i)
    | inr h ↦ rw (time_out, h) i
  ]

  add_failures-IsCounted :
      (e : AcpEnvelope C) (handled : List (Option String)) (b : AcpBus C)
      → IsCounted b
      → IsCounted (add_failures e handled b)
  add_failures-IsCounted e [] b i = i
  add_failures-IsCounted e (none ∷ handled) b i = add_failures-IsCounted e handled b i
  add_failures-IsCounted e (some reason ∷ handled) b i =
      add_failures-IsCounted e handled (add_dead_letter e reason b)
        (add_dead_letter-IsCounted e reason b i)

  pending_parent-has :
      (e : AcpEnvelope C) (b : AcpBus C) (id : String)
      → pending_parent e b ≡ some id
      → has b.pending_requests id ≡ true
  pending_parent-has e b id h = ground (arith, h)

  handle_highway_message-IsCounted :
      (e : AcpEnvelope C) (handled : List (Option String)) (b : AcpBus C)
      → IsCounted b
      → IsCounted (handle_highway_message e handled b)
  unfolding handle_highway_message
  handle_highway_message-IsCounted e handled b i =
      let j : IsCounted (count_received b) = record {
        unique = i.unique;
        counted = i.counted;
        limited = i.limited;
        bounded = i.bounded;
      } in
      elim (Option-cases (pending_parent e b)) [
        | inl h ↦
            rw (handle_highway_message, h) (add_failures-IsCounted e handled (count_received b) j)
        | inr (id, h) ↦
            rw (handle_highway_message, h)
              (settle_request-IsCounted id (answered e) (count_received b)
                (pending_parent-has e b id h) j)
      ]

  acknowledge-IsCounted :
      (msg_id agent_id ack_id : String) (content : C) (now : ℕ) (published : Option String)
      (b : AcpBus C)
      → IsCounted b
      → IsCounted (acknowledge msg_id agent_id ack_id content now published b).0
  unfolding acknowledge
  acknowledge-IsCounted msg_id agent_id ack_id content now published b i =
      send-IsCounted
        (ack_envelope ack_id content agent_id (get b.unacknowledged msg_id) b.config.max_retries)
        now published (mark_acknowledged msg_id b)
        (if_ind IsCounted (has b.unacknowledged msg_id)
          (λ _. record {
            unique = i.unique;
            counted = i.counted;
            limited = i.limited;
            bounded = i.bounded;
          })
          (λ _. i))

  rest-eq : (p q : DeadLetter C × List (DeadLetter C)) → some p ≡ some q → length p.1 ≡ length q.1
  rest-eq p q same =
      ap
        (λ (o : Option (DeadLetter C × List (DeadLetter C))). elim o [
          | none ↦ 0
          | some r ↦ length r.1
        ])
        same

  length-take_letter :
      (msg_id : String) (letters : List (DeadLetter C)) (l : DeadLetter C)
      (others : List (DeadLetter C))
      → take_letter msg_id letters ≡ some (l, others)
      → length others ≤ length letters
  length-take_letter msg_id [] l others h = absurd (cc h)
  length-take_letter msg_id (x ∷ letters) l others h =
      let found : DeadLetter C × List (DeadLetter C) = (l, others) in
      elim (Bool-cases (x.envelope.msg_id === msg_id)) [
        | inl e ↦
            let here : DeadLetter C × List (DeadLetter C) = (x, letters) in
            let same : length letters ≡ length others = rest-eq here found (ground (arith, h, e)) in
            omega (arith, same)
        | inr e ↦ elim (Option-cases (take_letter msg_id letters)) [
          | inl gone ↦ absurd (ground (arith, h, e, gone))
          | inr ((y, ys), there) ↦
              let later : DeadLetter C × List (DeadLetter C) = (y, x ∷ ys) in
              let same : suc (length ys) ≡ length others =
                rest-eq later found (ground (arith, h, e, there)) in
              omega (arith, same, length-take_letter msg_id letters y ys there)
        ]
      ]

  retry_dead_letter-IsCounted :
      (msg_id new_id : String) (now : ℕ) (published : Option String) (b : AcpBus C)
      → IsCounted b
      → IsCounted (retry_dead_letter msg_id new_id now published b).0
  unfolding retry_dead_letter
  retry_dead_letter-IsCounted msg_id new_id now published b i =
      elim (Option-cases (take_letter msg_id b.dead_letters)) [
        | inl h ↦ rw (retry_dead_letter, h) i
        | inr ((l, letters), h) ↦
            let e = retried l.envelope in
            let out =
              send (record e { msg_id = new_id }) now published
                (record b { dead_letters = letters }) in
            let sent : IsCounted out.0 =
              send-IsCounted (record e { msg_id = new_id }) now published
                (record b { dead_letters = letters })
                (record {
                  unique = i.unique;
                  counted = i.counted;
                  limited = i.limited;
                  bounded =
                      omega
                        (arith, i.bounded, length-take_letter msg_id b.dead_letters l letters h);
                }) in
            rw (retry_dead_letter, h)
              (if_ind {A = AcpBus C × Bool} (λ o. IsCounted o.0) out.1 (λ _. sent)
                (λ _. add_dead_letter-IsCounted e "Retry failed" out.0 sent))
      ]

  step-IsCounted : (c : Call C) (b : AcpBus C) → IsFresh c b → IsCounted b → IsCounted (step c b)
  unfolding step stop_bus
  step-IsCounted (sent e now published) b fresh i = send-IsCounted e now published b i
  step-IsCounted (requested e now published) b fresh i = request-IsCounted e now published b fresh i
  step-IsCounted (received e handled) b fresh i = handle_highway_message-IsCounted e handled b i
  step-IsCounted (expired id) b fresh i = time_out-IsCounted id b i
  step-IsCounted (acknowledged msg_id agent_id ack_id content now published) b fresh i =
      acknowledge-IsCounted msg_id agent_id ack_id content now published b i
  step-IsCounted (retried_letter msg_id new_id now published) b fresh i =
      retry_dead_letter-IsCounted msg_id new_id now published b i
  step-IsCounted stopped_bus b fresh i = record {
    unique = tt;
    counted = refl;
    limited = i.limited;
    bounded = i.bounded;
  }

  -- Under ids that are new for each request, whatever is sent, requested, received, acknowledged or
  -- retried, and whenever timers run out or the bus stops: the metric of pending requests stays the
  -- number of the pending requests, and there are at most so many dead letters as configured. The
  -- configured limit is at least one, and both hold of the bus at first.
  pub run-IsCounted :
      (calls : List (Call C)) (b : AcpBus C)
      → AreFresh calls b
      → IsCounted b
      → IsCounted (run calls b)
  unfolding run AreFresh
  run-IsCounted [] b fresh i = i
  run-IsCounted (c ∷ calls) b fresh i =
      run-IsCounted calls (step c b) fresh.1 (step-IsCounted c b fresh.0 i)
