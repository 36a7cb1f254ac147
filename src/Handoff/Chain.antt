-- ===== src/Handoff/Chain.antt =====
-- core/handoff.ts: who has had a conversation.
use ather.Base.{
  ◌===◌, if◌then◌else◌, Bool-cases, Option-cases, or_else, includes, includes-append, get, get-set,
  ℕ, String, ◌≡◌, refl, ◌∙◌, ◌⊎◌, inl, inr, true, false, none, some, List, [], ◌∷◌, ◌++◌, arith,
  eq_iff, eq_refl,
}
use ather.Handoff.{
  Conversation, Store, chain_of, detect_cycle, present, is_down, transfer, create_conversation,
  write_conversation, handoff, first_state, active,
}
use ather.Handoff.Limit.{Call, run_call, continued, write_conversation-about}

abbrev pub IsDistinct : List String → Type 0
IsDistinct [] = Unit
IsDistinct (x ∷ xs) = (includes xs x ≡ false) × IsDistinct xs

-- An agent that is not yet in a list goes to its end.
IsDistinct-append :
    (xs : List String) (k : String)
    → IsDistinct xs
    → includes xs k ≡ false
    → IsDistinct (xs ++ (k ∷ []))
IsDistinct-append [] k h new = (refl, tt)
IsDistinct-append (x ∷ xs) k h new = (
  ground (arith, h.0, new, includes-append xs (k ∷ []) x, eq_iff x k, eq_iff k x),
  IsDistinct-append xs k h.1 (ground (arith, new)),
)

module _ {V : Type 0} where
  -- Nobody stands twice among those who have handed a conversation on and the one who has it now.
  pub record IsHeld (id owner : String) (st : Store V) : Type 0 where
    pub conversation : Conversation V
    pub there : get st.conversations id ≡ some conversation
    pub distinct : IsDistinct (chain_of conversation ++ (owner ∷ []))

  transfer-IsHeld :
      (limit : ℕ) (a : Call V) (st : Store V) (id : String)
      → present a.request.conversation_id ≡ some id
      → (a.request.from_agent === a.request.to_agent) ≡ false
      → IsHeld id a.request.from_agent st
      → detect_cycle limit st id a.request.to_agent ≡ false
      → IsHeld id a.request.to_agent (transfer a.request id a.message_id a.now st).0
  unfolding detect_cycle
  transfer-IsHeld limit a st id about other held clear =
      let c = held.conversation in
      let new : includes (chain_of c) a.request.to_agent ≡ false =
        ground (arith, held.there, clear) in
      record {
        conversation = continued a.request c;
        there = write_conversation-about a.request id st.conversations c about held.there;
        distinct =
            IsDistinct-append (chain_of c ++ (a.request.from_agent ∷ [])) a.request.to_agent
              held.distinct
              (ground (
                arith,
                new,
                other,
                includes-append (chain_of c) (a.request.from_agent ∷ []) a.request.to_agent,
              ));
      }

  -- An agent who has a conversation, where nobody has had it twice, hands it to another agent: if the
  -- handoff succeeds then the other agent has it, and else the agent keeps it, and still nobody has
  -- had it twice.
  pub handoff-IsHeld :
      (limit : ℕ) (a : Call V) (st : Store V) (id : String)
      → present a.request.conversation_id ≡ some id
      → (a.request.from_agent === a.request.to_agent) ≡ false
      → IsHeld id a.request.from_agent st
      → let out = run_call limit a st in
        IsHeld id (if out.1.success then a.request.to_agent else a.request.from_agent) out.0
  unfolding handoff
  handoff-IsHeld limit a st id about other held =
      elim (Option-cases (a.resolve_agent a.request.to_agent)) [
        | inl unknown ↦ rw (unknown, handoff) held
        | inr (status, known) ↦ elim (Bool-cases (is_down status)) [
          | inl down ↦ rw (known, handoff, down) held
          | inr up ↦ elim (Bool-cases (detect_cycle limit st id a.request.to_agent)) [
            | inl cycle ↦ rw (known, handoff, up, about, cycle) held
            | inr clear ↦
                rw (known, handoff, up, about, clear)
                  (transfer-IsHeld limit a st id about other held clear)
          ]
        ]
      ]

  -- A successful handoff to another agent without a conversation starts one, under the new id (or the
  -- empty one, if the request has that), that
  -- nobody has had twice and that the other agent has. A refused one changes nothing.
  pub handoff_start-IsHeld :
      (limit : ℕ) (a : Call V) (st : Store V)
      → present a.request.conversation_id ≡ none
      → (a.request.from_agent === a.request.to_agent) ≡ false
      → let out = run_call limit a st in
        ((out.1.success ≡ true)
          × IsHeld (or_else a.request.conversation_id a.new_id) a.request.to_agent out.0)
        ⊎ ((out.1.success ≡ false) × (out.0 ≡ st))
  unfolding handoff write_conversation create_conversation
  handoff_start-IsHeld limit a st start other =
      elim (Option-cases (a.resolve_agent a.request.to_agent)) [
        | inl unknown ↦ rw (unknown, handoff) (inr (refl, refl))
        | inr (status, known) ↦ elim (Bool-cases (is_down status)) [
          | inl down ↦ rw (known, handoff, down) (inr (refl, refl))
          | inr up ↦
              let id = or_else a.request.conversation_id a.new_id in
              let c : Conversation V = record {
                participants = a.request.from_agent ∷ a.request.to_agent ∷ [];
                state = first_state a.request;
                status = active;
              } in
              rw (known, handoff, up, start)
                (inl (
                  refl,
                  record {
                    conversation = c;
                    there =
                        rw (start, write_conversation)
                          (get-set st.conversations id id c ∙ rw eq_refl refl);
                    distinct = (
                      ground (
                        arith,
                        other,
                        eq_iff a.request.from_agent a.request.to_agent,
                        eq_iff a.request.to_agent a.request.from_agent,
                      ),
                      (refl, tt),
                    );
                  },
                ))
        ]
      ]
