-- ===== src/Handoff.antt =====
-- core/handoff.ts: `HandoffManager`, with the conversation tables that core/storage/sqlite-store.ts
-- keeps for it. The task context and the other entries of a conversation's state are opaque values.
pub mod Chain
pub mod Limit
pub mod Tests
use mathlib.Core.List.{reverse}
use ather.Base.{
  ltb, leb, ◌===◌, if◌then◌else◌, or_else, is_some, length, get_elem?, take, filter, includes, Map,
  get, set, ℕ, String, Bool, true, false, ◌&&◌, ◌||◌, not, Option, none, some, List, [], ◌∷◌, ◌++◌,
}
use ather.Registry.{AgentStatus, offline, error}

pub data ConversationStatus : Type 0 where
  active paused completed aborted : ConversationStatus

-- The state of a conversation. The two entries that a handoff writes are fields.
pub record ConversationState (V : Type 0) : Type 0 where
  pub handoff_chain : Option (List String)
  pub task_context : Option V
  pub entries : Map V

pub record Conversation (V : Type 0) : Type 0 where
  pub participants : List String
  pub state : ConversationState V
  pub status : ConversationStatus

-- The content of a message is the text that a handoff writes, as the values that it shows.
pub record ConversationMessage : Type 0 where
  pub id : String
  pub conversation_id : String
  pub agent_id : String
  pub to_agent : String
  pub reason : String
  pub preserve_history : Bool
  pub created_at : ℕ

pub record Store (V : Type 0) : Type 0 where
  pub conversations : Map (Conversation V)
  pub messages : List ConversationMessage

pub record HandoffRequest (V : Type 0) : Type 0 where
  pub from_agent : String
  pub to_agent : String
  pub reason : String
  pub conversation_id : Option String
  pub preserve_history : Bool
  pub task_context : V

pub data Reason : Type 0 where
  target_not_found : Reason
  target_is : AgentStatus → Reason
  cycle_detected : Reason
  given : String → Reason

pub record HandoffResult : Type 0 where
  pub success : Bool
  pub from_agent : String
  pub to_agent : String
  pub conversation_id : String
  pub reason : Reason

-- `ORDER BY created_at DESC`. SQLite leaves open how rows of the same time stand to each other.
insert_by_time : ConversationMessage → List ConversationMessage → List ConversationMessage
insert_by_time m [] = m ∷ []
insert_by_time m (n ∷ ms) =
    if ltb m.created_at n.created_at then n ∷ insert_by_time m ms else m ∷ n ∷ ms

newest_first : List ConversationMessage → List ConversationMessage
unfolding insert_by_time
newest_first [] = []
newest_first (m ∷ ms) = insert_by_time m (newest_first ms)

abbrev messages_of : String → List ConversationMessage → List ConversationMessage
messages_of id = filter (λ m. m.conversation_id === id)

-- `trimConversationMessages`. A comparison with the missing row of the inner query deletes nothing.
unfoldable pub trim_conversation_messages :
    String → ℕ → List ConversationMessage → List ConversationMessage
unfolding newest_first
trim_conversation_messages id keep_count messages =
    elim (get_elem? (newest_first (messages_of id messages)) keep_count) [
      | none ↦ messages
      | some last ↦
          filter (λ m. not ((m.conversation_id === id) && ltb m.created_at last.created_at))
            messages
    ]

-- `addConversationMessage`: `INSERT OR REPLACE`.
abbrev pub add_conversation_message :
    ConversationMessage → List ConversationMessage → List ConversationMessage
add_conversation_message m messages = filter (λ n. not (n.id === m.id)) messages ++ (m ∷ [])

-- `getConversationMessages` with a limit: `ORDER BY created_at ASC LIMIT`.
unfoldable pub get_conversation_messages :
    String → ℕ → List ConversationMessage → List ConversationMessage
unfolding newest_first
get_conversation_messages id limit messages =
    take limit (reverse (newest_first (messages_of id messages)))

-- `if (conversationId)`: an empty text counts as none.
abbrev pub present : Option String → Option String
present none = none
present (some id) = if id === "" then none else some id

abbrev pub with_participant : List String → String → List String
with_participant participants to =
    if includes participants to then participants else participants ++ (to ∷ [])

abbrev pub is_down : AgentStatus → Bool
is_down offline = true
is_down error = true
is_down _ = false

module _ {V : Type 0} where
  -- `createConversation`: `INSERT OR REPLACE`.
  unfoldable pub create_conversation :
      String → List String → ConversationState V → Map (Conversation V) → Map (Conversation V)
  unfolding set
  create_conversation id participants state =
      λ m. set m id (record { participants = participants; state = state; status = active })

  -- `updateConversationState`.
  abbrev pub update_conversation_state :
      String → ConversationState V → Map (Conversation V) → Map (Conversation V)
  update_conversation_state id state m = elim (get m id) [
    | none ↦ m
    | some c ↦ set m id (record c { state = state })
  ]

  abbrev pub chain_of : Conversation V → List String
  chain_of c = or_else c.state.handoff_chain []

  -- `detectCycle`.
  unfoldable pub detect_cycle : ℕ → Store V → String → String → Bool
  detect_cycle max_chain_length st id to = elim (get st.conversations id) [
    | none ↦ false
    | some c ↦ leb max_chain_length (length (chain_of c)) || includes (chain_of c) to
  ]

  abbrev pub refuse : HandoffRequest V → Reason → HandoffResult
  refuse r reason = record {
    success = false;
    from_agent = r.from_agent;
    to_agent = r.to_agent;
    conversation_id = or_else r.conversation_id "";
    reason = reason;
  }

  -- The state of a conversation that is handed on.
  abbrev pub continued_state : HandoffRequest V → Conversation V → ConversationState V
  continued_state r c = record c.state {
    handoff_chain = some (chain_of c ++ (r.from_agent ∷ []));
    task_context = some r.task_context;
  }

  abbrev pub first_state : HandoffRequest V → ConversationState V
  first_state r = record {
    handoff_chain = some (r.from_agent ∷ []);
    task_context = some r.task_context;
    entries = [];
  }

  -- "Create or continue conversation".
  unfoldable pub write_conversation :
      HandoffRequest V → String → Map (Conversation V) → Map (Conversation V)
  unfolding create_conversation
  write_conversation r id m = elim (present r.conversation_id) [
    | none ↦ create_conversation id (r.from_agent ∷ r.to_agent ∷ []) (first_state r) m
    | some _ ↦ elim (get m id) [
      | none ↦ m
      | some c ↦
          create_conversation id (with_participant c.participants r.to_agent) (continued_state r c)
            (update_conversation_state id (continued_state r c) m)
    ]
  ]

  -- "Record the handoff event", and the trimming after it.
  unfoldable pub write_messages :
      HandoffRequest V → String → String → ℕ → List ConversationMessage → List ConversationMessage
  unfolding trim_conversation_messages
  write_messages r id message_id now messages =
      let written =
        add_conversation_message
          (record {
            id = message_id;
            conversation_id = id;
            agent_id = r.from_agent;
            to_agent = r.to_agent;
            reason = r.reason;
            preserve_history = r.preserve_history;
            created_at = now;
          })
          messages in
      if not r.preserve_history && is_some (present r.conversation_id)
      then trim_conversation_messages id 5 written
      else written

  -- What `handoff` does when nothing stands against it.
  abbrev pub transfer : HandoffRequest V → String → String → ℕ → Store V → Store V × HandoffResult
  transfer r id message_id now st = (
    record {
      conversations = write_conversation r id st.conversations;
      messages = write_messages r id message_id now st.messages;
    },
    record {
      success = true;
      from_agent = r.from_agent;
      to_agent = r.to_agent;
      conversation_id = id;
      reason = given r.reason;
    },
  )

  -- `handoff`. The agents enter by their status; a new conversation's id, the message's id and the
  -- time are arguments.
  unfoldable pub handoff :
      ℕ
      → (String → Option AgentStatus)
      → HandoffRequest V
      → String
      → String
      → ℕ
      → Store V
      → Store V × HandoffResult
  unfolding detect_cycle write_conversation write_messages
  handoff max_chain_length resolve_agent r new_id message_id now st =
      elim (resolve_agent r.to_agent) [
        | none ↦ (st, refuse r target_not_found)
        | some status ↦ elim (is_down status) [
          | true ↦ (st, refuse r (target_is status))
          | false ↦ elim (present r.conversation_id) [
            | none ↦ transfer r (or_else r.conversation_id new_id) message_id now st
            | some id ↦ elim (detect_cycle max_chain_length st id r.to_agent) [
              | true ↦ (st, refuse r cycle_detected)
              | false ↦ transfer r id message_id now st
            ]
          ]
        ]
      ]

  -- `getHandoffContext`.
  unfoldable pub get_handoff_context :
      String → Store V → List ConversationMessage × Option V × List String
  unfolding get_conversation_messages
  get_handoff_context id st = elim (get st.conversations id) [
    | none ↦ ([], none, [])
    | some c ↦ (get_conversation_messages id 20 st.messages, c.state.task_context, chain_of c)
  ]
