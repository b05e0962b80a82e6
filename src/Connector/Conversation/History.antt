-- ===== src/Connector/Conversation/History.antt =====
-- What the database holds of a chat after any number of transfers.
use whatsapp.Common.{
  ℕ, ◌≡◌, refl, arith, Bool, false, Option, none, some, List, [], ◌∷◌, if◌then◌else◌, ltb, ◌||◌,
  Bool-cases, inl, inr,
}
use whatsapp.Connector.Conversation.{
  Conversation, ConversationKey, Table, same_key, coalesce, later_timestamp, update_row, put,
  put_row,
}

-- What is put, the latest first, and the table that it leaves of an empty one.
abbrev pub Puts : Type 0
Puts = List (ConversationKey × Conversation)

unfoldable pub table_of : Puts → Table
table_of [] k = none
table_of ((key, conv) ∷ puts) k = put key conv (table_of puts) k

-- The latest value that was put in a column of a chat.
abbrev pub latest_value :
    {A : Type 0} → (Conversation → Option A) → ConversationKey → Puts → Option A
latest_value f k [] = none
latest_value f k ((key, conv) ∷ puts) =
    let rest = latest_value f k puts in if same_key key k then coalesce (f conv) rest else rest

-- The largest of two times.
abbrev pub largest : Option ℕ → Option ℕ → Option ℕ
largest none b = b
largest (some a) none = some a
largest (some a) (some b) = if ltb a b then some b else some a

-- The largest time of a message that was put for a chat.
abbrev pub largest_timestamp : ConversationKey → Puts → Option ℕ
largest_timestamp k [] = none
largest_timestamp k ((key, conv) ∷ puts) =
    let rest = largest_timestamp k puts in
    if same_key key k then largest conv.last_message_timestamp rest else rest

abbrev pub is_put : ConversationKey → Puts → Bool
is_put k [] = false
is_put k ((key, conv) ∷ puts) = let rest = is_put k puts in same_key key k || rest

-- The row that a chat should have.
abbrev pub summary : ConversationKey → Puts → Conversation
summary k puts = record {
  last_message_timestamp = largest_timestamp k puts;
  archived = latest_value (λ c. c.archived) k puts;
  pinned = latest_value (λ c. c.pinned) k puts;
  mute_end_time = latest_value (λ c. c.mute_end_time) k puts;
  end_of_history_transfer_type = latest_value (λ c. c.end_of_history_transfer_type) k puts;
  ephemeral_expiration = latest_value (λ c. c.ephemeral_expiration) k puts;
  ephemeral_setting_timestamp = latest_value (λ c. c.ephemeral_setting_timestamp) k puts;
  marked_as_unread = latest_value (λ c. c.marked_as_unread) k puts;
  unread_count = latest_value (λ c. c.unread_count) k puts;
}

later-largest : (old new : Option ℕ) → later_timestamp old new ≡ largest new old
later-largest none none = refl
later-largest none (some b) = refl
later-largest (some a) none = refl
later-largest (some a) (some b) = ground arith

coalesce-none : {A : Type 0} (a : Option A) → coalesce a none ≡ a
coalesce-none none = refl
coalesce-none (some a) = refl

largest-none : (a : Option ℕ) → largest a none ≡ a
largest-none none = refl
largest-none (some a) = refl

latest_value-none :
    {A : Type 0} (f : Conversation → Option A) (k : ConversationKey) (puts : Puts)
    → is_put k puts ≡ false
    → latest_value f k puts ≡ none
latest_value-none f k [] h = refl
latest_value-none f k ((key, conv) ∷ puts) h = ground (arith, latest_value-none f k puts)

largest_timestamp-none :
    (k : ConversationKey) (puts : Puts) → is_put k puts ≡ false → largest_timestamp k puts ≡ none
largest_timestamp-none k [] h = refl
largest_timestamp-none k ((key, conv) ∷ puts) h = ground (arith, largest_timestamp-none k puts)

first_value :
    {A : Type 0} (f : Conversation → Option A) (conv : Conversation) (k : ConversationKey)
    (puts : Puts)
    → is_put k puts ≡ false
    → coalesce (f conv) (latest_value f k puts) ≡ f conv
first_value f conv k puts h = rw (latest_value-none f k puts h) (coalesce-none (f conv))

first_timestamp :
    (conv : Conversation) (k : ConversationKey) (puts : Puts)
    → is_put k puts ≡ false
    → largest conv.last_message_timestamp (largest_timestamp k puts) ≡ conv.last_message_timestamp
first_timestamp conv k puts h =
    rw (largest_timestamp-none k puts h) (largest-none conv.last_message_timestamp)

-- The row of a chat has in each column the latest value that was put, values that were not stated
-- left out, and the largest time of a message; it is there exactly if the chat was put.
pub table_holds_summary :
    (k : ConversationKey) (puts : Puts)
    → table_of puts k ≡ (if is_put k puts then some (summary k puts) else none)
unfolding table_of put put_row update_row
table_holds_summary k [] = refl
table_holds_summary k ((key, conv) ∷ puts) = elim (Bool-cases (same_key key k)) [
  | inl e ↦ elim (Bool-cases (is_put k puts)) [
    | inl f ↦
        rw (e, table_holds_summary k puts, f)
          (rw (later-largest (largest_timestamp k puts) conv.last_message_timestamp))
    | inr f ↦
        rw (e, table_holds_summary k puts, f)
          (rw (
            first_timestamp conv k puts f,
            first_value (λ c. c.archived) conv k puts f,
            first_value (λ c. c.pinned) conv k puts f,
            first_value (λ c. c.mute_end_time) conv k puts f,
            first_value (λ c. c.end_of_history_transfer_type) conv k puts f,
            first_value (λ c. c.ephemeral_expiration) conv k puts f,
            first_value (λ c. c.ephemeral_setting_timestamp) conv k puts f,
            first_value (λ c. c.marked_as_unread) conv k puts f,
            first_value (λ c. c.unread_count) conv k puts f,
          ))
  ]
  | inr e ↦ rw (e, table_holds_summary k puts)
]
