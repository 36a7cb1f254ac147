-- ===== src/Handoff/Tests.antt =====
-- core/handoff.ts: tests and examples on a conversation that "a" has handed to "b".
use ather.Base.{
  length, get, ℕ, ◌+◌, ◌≤◌, String, ◌≡◌, refl, true, Option, some, List, [], ◌∷◌, map, arith,
}
use ather.Registry.{idle}
use ather.Handoff.{
  Conversation, ConversationStatus, ConversationMessage, Store, handoff, write_conversation,
  trim_conversation_messages, get_conversation_messages,
}
use ather.Handoff.Limit.{Call, run_call, transfers, transfers-le}
use ather.Handoff.Chain.{IsHeld, handoff-IsHeld}

abbrev conversation : Conversation ℕ
conversation = record {
  participants = "a" ∷ "b" ∷ [];
  state = record { handoff_chain = some ("a" ∷ []); task_context = some 1; entries = [] };
  status = ConversationStatus.active;
}

abbrev store : Store ℕ
store = record { conversations = ("conv", conversation) ∷ []; messages = [] }

abbrev call : String → String → Option String → Call ℕ
call from to id = record {
  resolve_agent = λ k. some idle;
  request = record {
    from_agent = from;
    to_agent = to;
    reason = "review";
    conversation_id = id;
    preserve_history = true;
    task_context = 2;
  };
  new_id = "new";
  message_id = "m";
  now = 10;
}

abbrev calls : List (Call ℕ)
calls = call "b" "c" (some "conv") ∷ call "c" "a" (some "conv") ∷ call "c" "d" (some "conv") ∷ []

-- The handoff back to "a" is refused, the other two succeed.
two_succeed : transfers 3 "conv" calls store ≡ 2
unfolding transfers handoff get write_conversation
two_succeed = refl

abbrev message : ℕ → ConversationMessage
message t = record {
  id = "m";
  conversation_id = "conv";
  agent_id = "a";
  to_agent = "b";
  reason = "review";
  preserve_history = true;
  created_at = t;
}

abbrev messages : List ConversationMessage
messages = map message (0 ∷ 1 ∷ 2 ∷ 3 ∷ 4 ∷ 5 ∷ 6 ∷ 7 ∷ [])

-- To keep five messages keeps six, and a context takes the oldest messages.
trims_to_six : length (trim_conversation_messages "conv" 5 messages) ≡ 6
unfolding trim_conversation_messages
trims_to_six = refl

takes_oldest : map (λ m. m.created_at) (get_conversation_messages "conv" 2 messages) ≡ 0 ∷ 1 ∷ []
unfolding get_conversation_messages
takes_oldest = refl

transfers-le_example : 1 + transfers 3 "conv" calls store ≤ 3
unfolding get
transfers-le_example =
    transfers-le 3 "conv" calls store (λ e. absurd (cc e)) refl (refl, (refl, (refl, tt)))
      (omega arith)

abbrev held : IsHeld "conv" "b" store
unfolding get
held = record { conversation = conversation; there = refl; distinct = (refl, (refl, tt)) }

handoff-IsHeld_example : IsHeld "conv" "c" (run_call 3 (call "b" "c" (some "conv")) store).0
unfolding handoff get write_conversation
handoff-IsHeld_example = handoff-IsHeld 3 (call "b" "c" (some "conv")) store "conv" refl refl held
