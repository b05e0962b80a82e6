-- ===== src/Connector/Receive/Config.antt =====
-- The configuration that the handlers of WhatsApp events read, and the portal of a message.
use whatsapp.Common.{Bool, true, Option, none, some, if◌then◌else◌}
use whatsapp.Common.Text.{Str}
use whatsapp.Waid.Jid.{Jid, JidApi}
use whatsapp.Waid.Id.{make_message_id}
use whatsapp.Connector.Client.{Client}
use whatsapp.Connector.Ids.{PortalKey, make_wa_portal_key}
use whatsapp.Connector.Reroute.{MessageSource}

pub record Config : Type 0 where
  pub status_broadcast_jid : Jid  -- types.StatusBroadcastJID
  pub enable_status_broadcast : Bool
  pub disable_status_broadcast_send : Bool
  pub backfill_enabled : Bool
  pub manual_history_sync : Bool  -- Client.ManualHistorySyncDownload
  pub call_start_notices : Bool
  pub identity_change_notices : Bool
  pub archive_tag : Str
  pub pinned_tag : Str
  pub send_presence_on_typing : Bool

-- `success` of a handler that queued this, where `queue` says whether the queue took an event.
abbrev pub success {ℓ} : {E : Type ℓ} → (E → Bool) → Option E → Bool
success queue none = true
success queue (some e) = queue e

module _ (api : JidApi) (wa : Client) (is_incoming_broadcast : MessageSource → Bool) where
  -- `getPortalKeyByMessageSource`
  unfoldable pub portal_key_by_source : MessageSource → PortalKey
  portal_key_by_source ms = make_wa_portal_key api wa (
      if is_incoming_broadcast ms
      then (if ms.is_from_me
          then api.to_non_ad ms.broadcast_list_owner
          else api.to_non_ad ms.sender)
      else ms.chat)

  -- `(*MessageInfoWrapper).GetID`
  unfoldable pub source_message_id : MessageSource → Str → Str
  source_message_id ms id = make_message_id api ms.chat ms.sender id
