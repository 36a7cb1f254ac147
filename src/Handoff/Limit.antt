-- ===== src/Handoff/Limit.antt =====
-- core/handoff.ts: how many handoffs a conversation can have.
use ather.Base.{
  ◌===◌, Bool-cases, Option-cases, ===-eq, or_else, is_some, length, All, length-append, Map, get,
  set, get-set, ℕ, ◌+◌, ◌≤◌, ◌<◌, String, ◌≡◌, refl, sym, ap, subst, ◌∙◌, ◌≢◌, inl, inr, Bool, true,
  false, ◌&&◌, Option, none, some, List, [], ◌∷◌, arith, eq_refl,
}
use ather.Registry.{AgentStatus}
use ather.Handoff.{
  Conversation, Store, HandoffRequest, HandoffResult, chain_of, detect_cycle, present, is_down,
  ConversationState, continued_state, with_participant, active, update_conversation_state,
  create_conversation, write_conversation, transfer, handoff,
}

-- A call of `handoff`.
pub record Call (V : Type 0) : Type 0 where
  pub resolve_agent : String → Option AgentStatus
  pub request : HandoffRequest V
  pub new_id : String
  pub message_id : String
  pub now : ℕ

abbrev one_if : Bool → ℕ
one_if true = 1
one_if false = 0

-- The id that a new conversation gets: an empty one of the request is kept.
started_id-other :
    (o : Option String) (id new_id : String)
    → present o ≡ none
    → id ≢ ""
    → (new_id === id) ≡ false
    → (or_else o new_id === id) ≡ false
started_id-other none id new_id start named fresh = fresh
started_id-other (some k) id new_id start named fresh = elim (Bool-cases (k === id)) [
  | inr other ↦ other
  | inl same ↦
      let empty : k ≡ "" = ===-eq k "" (ground (arith, start)) in
      absurd (named (sym (===-eq k id same) ∙ empty))
]

module _ {V : Type 0} where
  set-other :
      (m : Map (Conversation V)) (k id : String) (c : Conversation V)
      → (k === id) ≡ false
      → get (set m k c) id ≡ get m id
  set-other m k id c other = get-set m k id c ∙ rw other refl

  update-other :
      (m : Map (Conversation V)) (k id : String) (state : ConversationState V)
      → (k === id) ≡ false
      → get (update_conversation_state k state m) id ≡ get m id
  update-other m k id state other = elim (Option-cases (get m k)) [
    | inl nothing ↦ rw (nothing, update_conversation_state) refl
    | inr (c, there) ↦
        rw (there, update_conversation_state) (set-other m k id (record c { state = state }) other)
  ]

  abbrev pub continued : HandoffRequest V → Conversation V → Conversation V
  continued r c = record {
    participants = with_participant c.participants r.to_agent;
    state = continued_state r c;
    status = active;
  }

  pub write_conversation-about :
      (r : HandoffRequest V) (id : String) (m : Map (Conversation V)) (c : Conversation V)
      → present r.conversation_id ≡ some id
      → get m id ≡ some c
      → get (write_conversation r id m) id ≡ some (continued r c)
  unfolding write_conversation create_conversation
  write_conversation-about r id m c about there =
      let left = update_conversation_state id (continued_state r c) m in
      rw (about, write_conversation, there) (get-set left id id (continued r c) ∙ rw eq_refl refl)

  pub write_conversation-other :
      (r : HandoffRequest V) (k id : String) (m : Map (Conversation V))
      → (k === id) ≡ false
      → get (write_conversation r k m) id ≡ get m id
  unfolding write_conversation create_conversation
  write_conversation-other r k id m other = elim (Option-cases (present r.conversation_id)) [
    | inl fresh ↦ rw (fresh, write_conversation) (set-other m k id _ other)
    | inr (j, about) ↦ elim (Option-cases (get m k)) [
      | inl nothing ↦ rw (about, write_conversation, nothing) refl
      | inr (c, there) ↦
          let left = update_conversation_state k (continued_state r c) m in
          rw (about, write_conversation, there)
            (set-other left k id (continued r c) other
              ∙ update-other m k id (continued_state r c) other)
    ]
  ]

  abbrev pub run_call : ℕ → Call V → Store V → Store V × HandoffResult
  run_call limit a st = handoff limit a.resolve_agent a.request a.new_id a.message_id a.now st

  -- Whether the call is about a conversation.
  abbrev pub is_about : String → HandoffRequest V → Bool
  is_about id r = elim (present r.conversation_id) [ none ↦ false | some k ↦ k === id ]

  abbrev pub chain_length : Option (Conversation V) → ℕ
  chain_length none = 0
  chain_length (some c) = length (chain_of c)

  is_some-get :
      (m : Map (Conversation V)) (id : String)
      → is_some (get m id) ≡ true
      → (c : Conversation V) × (get m id ≡ some c)
  is_some-get m id h = elim (Option-cases (get m id)) [
    | inl nothing ↦ absurd (ground (arith, h, nothing))
    | inr found ↦ found
  ]

  -- One call, as the conversation sees it.
  record IsStep (limit : ℕ) (id : String) (a : Call V) (st : Store V)
      (out : Store V × HandoffResult) : Type 0 where
    grown :
        chain_length (get out.0.conversations id)
        ≡ chain_length (get st.conversations id) + one_if (out.1.success && is_about id a.request)
    below :
        (out.1.success && is_about id a.request) ≡ true
        → chain_length (get st.conversations id) < limit
    kept : is_some (get out.0.conversations id) ≡ true

  refused-IsStep :
      (limit : ℕ) (id : String) (a : Call V) (st : Store V) (res : HandoffResult)
      → is_some (get st.conversations id) ≡ true
      → res.success ≡ false
      → IsStep limit id a st (st, res)
  refused-IsStep limit id a st res there failed = record {
    grown = ground (arith, failed);
    below = λ h. absurd (ground (arith, failed, h));
    kept = there;
  }

  other-IsStep :
      (limit : ℕ) (id k : String) (a : Call V) (st : Store V)
      → is_some (get st.conversations id) ≡ true
      → (k === id) ≡ false
      → is_about id a.request ≡ false
      → IsStep limit id a st (transfer a.request k a.message_id a.now st)
  other-IsStep limit id k a st there other not_about =
      let same = write_conversation-other a.request k id st.conversations other in
      record {
        grown = ground (arith, same, not_about);
        below = λ h. absurd (ground (arith, not_about, h));
        kept = ap is_some same ∙ there;
      }

  about-IsStep :
      (limit : ℕ) (id : String) (a : Call V) (st : Store V) (c : Conversation V)
      → get st.conversations id ≡ some c
      → present a.request.conversation_id ≡ some id
      → detect_cycle limit st id a.request.to_agent ≡ false
      → IsStep limit id a st (transfer a.request id a.message_id a.now st)
  unfolding detect_cycle
  about-IsStep limit id a st c there about clear =
      let next = write_conversation-about a.request id st.conversations c about there in
      let room : length (chain_of c) < limit = ground (arith, there, clear) in
      record {
        grown = ground (
          arith,
          next,
          there,
          about,
          eq_refl id,
          length-append (chain_of c) (a.request.from_agent ∷ []),
        );
        below = λ h. ground (arith, there, room);
        kept = ap is_some next;
      }

  run_call-IsStep :
      (limit : ℕ) (id : String) (a : Call V) (st : Store V)
      → is_some (get st.conversations id) ≡ true
      → id ≢ ""
      → (a.new_id === id) ≡ false
      → IsStep limit id a st (run_call limit a st)
  unfolding handoff
  run_call-IsStep limit id a st there named fresh =
      elim (Option-cases (a.resolve_agent a.request.to_agent)) [
        | inl unknown ↦ rw (unknown, handoff) (refused-IsStep limit id a st _ there refl)
        | inr (status, known) ↦ elim (Bool-cases (is_down status)) [
          | inl down ↦ rw (known, handoff, down) (refused-IsStep limit id a st _ there refl)
          | inr up ↦ elim (Option-cases (present a.request.conversation_id)) [
            | inl start ↦
                rw (known, handoff, up, start)
                  (other-IsStep limit id (or_else a.request.conversation_id a.new_id) a st there
                    (started_id-other a.request.conversation_id id a.new_id start named fresh)
                    (rw (start, is_about) refl))
            | inr (k, about) ↦ elim (Bool-cases (detect_cycle limit st k a.request.to_agent)) [
              | inl cycle ↦
                  rw (known, handoff, up, about, cycle) (refused-IsStep limit id a st _ there refl)
              | inr clear ↦
                  rw (known, handoff, up, about, clear)
                    (elim (Bool-cases (k === id)) [
                      | inr other ↦
                          other-IsStep limit id k a st there other (rw (about, is_about) other)
                      | inl same ↦
                          let key : k ≡ id = ===-eq k id same in
                          let (c, here) = is_some-get st.conversations id there in
                          subst
                            (λ j. IsStep limit id a st (transfer a.request j a.message_id a.now st))
                            (sym key)
                            (about-IsStep limit id a st c here (about ∙ ap some key) (
                              ap (λ j. detect_cycle limit st j a.request.to_agent) (sym key)
                              ∙ clear))
                    ])
            ]
          ]
        ]
      ]

  -- The handoffs of a conversation that succeed in a sequence of calls.
  unfoldable pub transfers : ℕ → String → List (Call V) → Store V → ℕ
  transfers limit id [] st = 0
  transfers limit id (a ∷ calls) st =
      let out = run_call limit a st in
      one_if (out.1.success && is_about id a.request) + transfers limit id calls out.0

  -- New conversations get other ids.
  abbrev pub AreFresh : String → List (Call V) → Type 0
  AreFresh id = All (λ a. (a.new_id === id) ≡ false)

  -- In any sequence of calls, about this conversation and others, an existing conversation is handed
  -- on at most so often that its chain reaches the limit; its id is not empty, its chain is not longer
  -- at the start, and new conversations get other ids.
  pub transfers-le :
      (limit : ℕ) (id : String) (calls : List (Call V)) (st : Store V)
      → id ≢ ""
      → is_some (get st.conversations id) ≡ true
      → AreFresh id calls
      → chain_length (get st.conversations id) ≤ limit
      → chain_length (get st.conversations id) + transfers limit id calls st ≤ limit
  unfolding transfers
  transfers-le limit id [] st named there fresh h = omega (arith, h)
  transfers-le limit id (a ∷ calls) st named there fresh h =
      let out = run_call limit a st in
      let one = run_call-IsStep limit id a st there named fresh.0 in
      let rest = transfers-le limit id calls out.0 named one.kept fresh.1 in
      ground (arith, h, one.grown, one.below, rest)
