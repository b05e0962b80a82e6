-- ===== src/Connector/Receive/Receipts.antt =====
-- `handleWAReceipt` and `handleWAChatPresence` of pkg/connector/handlewhatsapp.go, and the sender of
-- a media retry of pkg/connector/events.go.
pub mod Targets
pub mod Sent
use whatsapp.Common.{ℕ, Bool, true, false, ◌&&◌, ◌||◌, not, Option, none, some, List, [], ◌∷◌, map}
use whatsapp.Common.{if◌then◌else◌, ◌==◌}
use whatsapp.Common.Text.{Str}
use whatsapp.Waid.Jid.{Jid, JidApi, server_eq, jid_eq, hidden_user, default_user, group, bot}
use whatsapp.Waid.Id.{make_message_id}
use whatsapp.Connector.Client.{Client}
use whatsapp.Connector.Ids.{make_wa_portal_key, make_event_sender}
use whatsapp.Connector.Reroute.{MessageSource, reroute_wa_message}
use whatsapp.Connector.Receive.Event.{
  RemoteEvent, ReceiptKind, read_receipt, delivery_receipt, receipt, typing, TypingType,
  typing_text, typing_recording_media,
}

-- `types.ReceiptType`: those that the code names, and the rest.
pub data ReceiptType : Type 0 where
  type_read type_read_self type_delivered type_sender type_other : ReceiptType

abbrev pub receipt_kind : ReceiptType → Option ReceiptKind
receipt_kind type_read = some read_receipt
receipt_kind type_read_self = some read_receipt
receipt_kind type_delivered = some delivery_receipt
receipt_kind type_sender = none
receipt_kind type_other = none

-- `events.Receipt`
pub record ReceiptEvent : Type 0 where
  pub source : MessageSource
  pub receipt_type : ReceiptType
  pub message_ids : List Str
  pub message_sender : Jid
  pub timestamp : ℕ

-- What the handler does: whether it records that the phone was seen, and the event.
pub record ReceiptResult : Type 0 where
  pub saw_phone : Bool
  pub queued : Option RemoteEvent

-- `events.ChatPresence`
pub record PresenceEvent : Type 0 where
  pub chat : Jid
  pub sender : Jid
  pub sender_alt : Jid
  pub is_audio : Bool
  pub is_paused : Bool

module _ (api : JidApi) (wa : Client) where
  -- Whose messages the receipt is about: `messageSender`.
  unfoldable pub receipt_message_sender : Jid → MessageSource → Jid
  receipt_message_sender message_sender source =
      if not (api.is_empty message_sender)
      then message_sender
      else if server_eq source.chat.server group && server_eq source.sender.server hidden_user
      then (if not (api.is_empty wa.store_lid) then wa.store_lid else wa.jid)
      else wa.jid

  pub receipt_event : ReceiptEvent → MessageSource → Option ReceiptKind → Option RemoteEvent
  receipt_event evt source none = none
  receipt_event evt source (some kind) =
      let about = receipt_message_sender evt.message_sender source in
      some (
        receipt kind (make_wa_portal_key api wa source.chat)
          (make_event_sender api wa source.sender) evt.timestamp
          (map (make_message_id api source.chat about) evt.message_ids))

  -- `handleWAReceipt`
  unfoldable pub handle_wa_receipt : ReceiptEvent → ReceiptResult
  unfolding receipt_event
  handle_wa_receipt evt =
      let source = reroute_wa_message api wa evt.source in
      record {
        saw_phone = source.is_from_me && source.sender.device == 0;
        queued = receipt_event evt source (receipt_kind evt.receipt_type);
      }

  looked_up : PresenceEvent → PresenceEvent
  looked_up evt =
      if api.is_empty evt.sender_alt
      then record evt { sender_alt = (wa.pn_for_lid evt.sender).0 }
      else evt

  to_phone_number : PresenceEvent → PresenceEvent
  to_phone_number evt =
      if server_eq evt.sender_alt.server default_user
      then record evt {
        chat = api.to_non_ad evt.sender_alt;
        sender = evt.sender_alt;
        sender_alt = evt.sender;
      }
      else evt

  -- The start of `handleWAChatPresence`: hidden addresses become phone numbers.
  unfoldable pub presence_rerouted : PresenceEvent → PresenceEvent
  unfolding looked_up to_phone_number
  presence_rerouted evt =
      if server_eq evt.chat.server hidden_user && jid_eq (api.to_non_ad evt.sender) evt.chat
      then to_phone_number (looked_up evt)
      else evt

  -- `handleWAChatPresence`, with the timeout in seconds.
  unfoldable pub handle_wa_chat_presence : PresenceEvent → RemoteEvent
  unfolding presence_rerouted
  handle_wa_chat_presence evt =
      let moved = presence_rerouted evt in
      typing (make_wa_portal_key api wa moved.chat) (make_event_sender api wa moved.sender)
        (if evt.is_paused then 0 else 15)
        (if evt.is_audio then typing_recording_media else typing_text)

  -- `(*WAMediaRetry).getRealSender`
  unfoldable pub get_real_sender : Jid → Jid → Bool → Jid
  get_real_sender chat sender from_me =
      if from_me
      then api.to_non_ad wa.jid
      else if api.is_empty sender
          && (server_eq chat.server default_user || server_eq chat.server bot)
      then api.to_non_ad chat
      else sender

  -- `(*WAMediaRetry).GetTargetMessage`
  unfoldable pub media_retry_target : Jid → Jid → Bool → Str → Str
  unfolding get_real_sender
  media_retry_target chat sender from_me id =
      make_message_id api chat (get_real_sender chat sender from_me) id
