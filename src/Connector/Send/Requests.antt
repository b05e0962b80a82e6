-- ===== src/Connector/Send/Requests.antt =====
-- What the handlers of settings and chats ask of WhatsApp.
use whatsapp.Common.{ℕ, Bool, Option, if◌then◌else◌}
use whatsapp.Common.Text.{Str}
use whatsapp.Waid.Jid.{Jid, JidApi}
use whatsapp.Waid.Id.{parse_portal_id}
use whatsapp.Connector.Ids.{MessageKey}
use whatsapp.Connector.Send.Steps.{Handled, refuse, parsed, after, bad_portal_id, failed}

pub data ParticipantChange : Type 0 where
  add_participant remove_participant : ParticipantChange

-- What is asked of WhatsApp.
pub data Request : Type 0 where
  send_presence : Request
  -- The chat, whether a message is composed, whether it is audio.
  send_chat_presence : Jid → Bool → Bool → Request
  -- Durations in seconds.
  set_disappearing_timer : Jid → ℕ → ℕ → Request
  update_group_participants : Jid → Jid → ParticipantChange → Request
  set_group_name : Jid → Str → Request
  set_group_topic : Jid → Str → Str → Str → Request
  set_group_photo : Jid → Option Str → Request
  -- `BuildMuteAbs`, with the end in milliseconds.
  mute : Jid → Bool → Option ℕ → Request
  pin : Jid → Bool → Request
  mark_chat_as_read : Jid → Bool → ℕ → Option MessageKey → Request
  leave_group : Jid → Request
  delete_chat : Jid → ℕ → MessageKey → Request

-- `accepts` says whether WhatsApp accepts a request.
module _ (api : JidApi) (accepts : Request → Bool) where
  abbrev pub asked : {A : Type 0} → Request → Handled Request A → Handled Request A
  asked r h = after r (if accepts r then h else refuse failed)

  abbrev pub in_portal : {A : Type 0} → Str → (Jid → Handled Request A) → Handled Request A
  in_portal portal f = parsed bad_portal_id (parse_portal_id api portal) f
