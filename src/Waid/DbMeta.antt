-- ===== src/Waid/DbMeta.antt =====
-- pkg/waid/dbmeta.go: what the bridge stores beside logins, messages, reactions and portals.
pub mod Copy
use whatsapp.Common.{ℕ, Bool, true, false, ◌||◌, Option, none, some, List, []}
use whatsapp.Common.Text.{Str}
use whatsapp.Waid.Jid.{Jid}

pub data MessageErrorType : Type 0 where
  no_error decryption_failed media_not_found : MessageErrorType

pub data AddressingMode : Type 0 where
  mode_pn mode_lid : AddressingMode
  mode_unset : AddressingMode

-- `UserLoginMetadata`, times in seconds with 0 for a time that is not set. The push keys and the
-- APNS keys are left out.
pub record UserLoginMetadata : Type 0 where
  pub wa_device_id : ℕ
  pub phone_last_seen : ℕ
  pub phone_last_pinged : ℕ
  pub timezone : Str
  pub logged_in_at : ℕ

pub record GroupInviteMeta : Type 0 where
  pub jid : Jid
  pub code : Str
  pub expiration : ℕ
  pub inviter : Jid
  pub group_name : Str
  pub is_parent_group : Bool

-- `MessageMetadata`; the two raw JSON values are bytes that may be absent.
pub record MessageMetadata : Type 0 where
  pub sender_device_id : ℕ
  pub error : MessageErrorType
  pub broadcast_list_jid : Option Jid
  pub group_invite : Option GroupInviteMeta
  pub failed_media_meta : Option Str
  pub direct_media_meta : Option Str
  pub is_matrix_poll : Bool
  pub edits : List Str

pub record ReactionMetadata : Type 0 where
  pub reaction_sender_device_id : ℕ

pub record PortalMetadata : Type 0 where
  pub disappearing_timer_set_at : ℕ
  pub topic_id : Str
  pub last_sync : ℕ
  pub community_announcement_group : Bool
  pub addressing_mode : AddressingMode
  pub lid_migration_attempted : Bool

-- `if other.F != nil { mm.F = other.F }`
abbrev pub or_kept : {A : Type 0} → Option A → Option A → Option A
or_kept (some a) old = some a
or_kept none old = old

-- `(*MessageMetadata).CopyFrom`: the receiver, then the argument.
unfoldable pub copy_from : MessageMetadata → MessageMetadata → MessageMetadata
copy_from mm other = record mm {
  sender_device_id = other.sender_device_id;
  error = other.error;
  broadcast_list_jid = or_kept other.broadcast_list_jid mm.broadcast_list_jid;
  failed_media_meta = or_kept other.failed_media_meta mm.failed_media_meta;
  direct_media_meta = or_kept other.direct_media_meta mm.direct_media_meta;
  group_invite = or_kept other.group_invite mm.group_invite;
  is_matrix_poll = mm.is_matrix_poll || other.is_matrix_poll;
}
