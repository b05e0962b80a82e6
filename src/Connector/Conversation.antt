-- ===== src/Connector/Conversation.antt =====
-- pkg/connector/wadb/conversation.go: the chats of a history transfer in the database. The table is
-- a function of its keys, of one bridge; a time that is zero is `none`.
pub mod History
use whatsapp.Common.{
  ℕ, Bool, true, false, ◌&&◌, Option, none, some, List, [], ◌∷◌, if◌then◌else◌, ltb, not, ◌==◌,
}
use whatsapp.Common.Text.{Str, str_eq}
use whatsapp.Waid.Jid.{Jid, jid_eq}

-- `waHistorySync.Conversation`, with the fields that are read.
pub record WaConversation : Type 0 where
  pub wa_last_msg_timestamp : Option ℕ
  pub wa_archived : Option Bool
  pub wa_pinned : Option ℕ
  pub wa_mute_end_time : Option ℕ
  pub wa_transfer_type : Option ℕ
  pub wa_ephemeral_expiration : Option ℕ
  pub wa_ephemeral_setting_timestamp : Option ℕ
  pub wa_marked_as_unread : Option Bool
  pub wa_unread_count : Option ℕ

-- `Conversation` without the bridge, the login and the chat; also the columns of its row.
pub record Conversation : Type 0 where
  pub last_message_timestamp : Option ℕ
  pub archived : Option Bool
  pub pinned : Option Bool
  pub mute_end_time : Option ℕ
  pub end_of_history_transfer_type : Option ℕ
  pub ephemeral_expiration : Option ℕ
  pub ephemeral_setting_timestamp : Option ℕ
  pub marked_as_unread : Option Bool
  pub unread_count : Option ℕ

-- `parseHistoryTime`, for times below 2 ^ 63, where the conversion to a signed number changes nothing.
abbrev pub parse_history_time : Option ℕ → Option ℕ
parse_history_time none = none
parse_history_time (some ts) = if ts == 0 then none else some ts

-- The first value, or the second where there is none; `COALESCE` too.
abbrev pub coalesce : {A : Type 0} → Option A → Option A → Option A
coalesce (some a) b = some a
coalesce none b = b

abbrev is_positive : Option ℕ → Option Bool
is_positive none = none
is_positive (some n) = some (ltb 0 n)

unfoldable pub new_conversation : WaConversation → Option ℕ → Conversation
new_conversation conv most_recent_message = record {
  last_message_timestamp =
      coalesce (parse_history_time conv.wa_last_msg_timestamp) most_recent_message;
  archived = conv.wa_archived;
  pinned = is_positive conv.wa_pinned;
  mute_end_time = parse_history_time conv.wa_mute_end_time;
  end_of_history_transfer_type = conv.wa_transfer_type;
  ephemeral_expiration = conv.wa_ephemeral_expiration;
  ephemeral_setting_timestamp = conv.wa_ephemeral_setting_timestamp;
  marked_as_unread = conv.wa_marked_as_unread;
  unread_count = conv.wa_unread_count;
}

-- `Scan`: a time that is stored as 0 is read as the zero time.
unfoldable pub scan : Conversation → Conversation
scan row = record row {
  last_message_timestamp = parse_history_time row.last_message_timestamp;
  mute_end_time = parse_history_time row.mute_end_time;
}

-- The `CASE` of the upsert, on the stored and the new value; a comparison with `NULL` does not hold.
abbrev pub later_timestamp : Option ℕ → Option ℕ → Option ℕ
later_timestamp none excluded = excluded
later_timestamp (some old) none = some old
later_timestamp (some old) (some excluded) = if ltb old excluded then some excluded else some old

-- `ON CONFLICT ... DO UPDATE SET`, on the stored row and the new one.
unfoldable pub update_row : Conversation → Conversation → Conversation
update_row old excluded = record {
  last_message_timestamp =
      later_timestamp old.last_message_timestamp excluded.last_message_timestamp;
  archived = coalesce excluded.archived old.archived;
  pinned = coalesce excluded.pinned old.pinned;
  mute_end_time = coalesce excluded.mute_end_time old.mute_end_time;
  end_of_history_transfer_type =
      coalesce excluded.end_of_history_transfer_type old.end_of_history_transfer_type;
  ephemeral_expiration = coalesce excluded.ephemeral_expiration old.ephemeral_expiration;
  ephemeral_setting_timestamp =
      coalesce excluded.ephemeral_setting_timestamp old.ephemeral_setting_timestamp;
  marked_as_unread = coalesce excluded.marked_as_unread old.marked_as_unread;
  unread_count = coalesce excluded.unread_count old.unread_count;
}

pub record ConversationKey : Type 0 where
  pub user_login_id : Str
  pub chat_jid : Jid

abbrev pub same_key : ConversationKey → ConversationKey → Bool
same_key a b = str_eq a.user_login_id b.user_login_id && jid_eq a.chat_jid b.chat_jid

abbrev pub Table : Type 0
Table = ConversationKey → Option Conversation

put_row : Option Conversation → Conversation → Conversation
put_row none conv = conv
put_row (some old) conv = update_row old conv

-- `(*ConversationQuery).Put`
unfoldable pub put : ConversationKey → Conversation → Table → Table
unfolding put_row
put key conv table k = if same_key key k then some (put_row (table k) conv) else table k

scan_row : Option Conversation → Option Conversation
scan_row none = none
scan_row (some row) = some (scan row)

-- `(*ConversationQuery).Get`
unfoldable pub get : ConversationKey → Table → Option Conversation
unfolding scan_row
get key table = scan_row (table key)

-- `(*ConversationQuery).Delete`
unfoldable pub delete : ConversationKey → Table → Table
delete key table k = if same_key key k then none else table k

-- `(*ConversationQuery).DeleteAll`
unfoldable pub delete_all : Str → Table → Table
delete_all login table k = if str_eq login k.user_login_id then none else table k
