-- ===== src/Connector/Receive/Messages.antt =====
-- `handleWAMessage` and `handleWAUndecryptableMessage` of pkg/connector/handlewhatsapp.go.
pub mod Queued
use whatsapp.Common.{ℕ, Bool, true, false, ◌&&◌, ◌||◌, not, Option, none, some, if◌then◌else◌}
use whatsapp.Common.Text.{Str}
use whatsapp.Waid.Jid.{JidApi, jid_eq}
use whatsapp.Connector.Client.{Client}
use whatsapp.Connector.Reroute.{MessageSource, reroute_wa_message}
use whatsapp.Connector.WaMessage.{Message, ProtocolMessage, message_edit}
use whatsapp.Connector.MessageType.{get_message_type, is_dropped}
use whatsapp.Connector.Receive.Config.{Config}

-- `messageAssoc.GetAssociationType()`
pub data Association : Type 0 where
  hd_image_dual_upload hd_video_dual_upload motion_photo other_association : Association

-- `events.Message`, as far as the handler reads it.
pub record MessageEvent : Type 0 where
  pub source : MessageSource
  pub id : Str
  pub message : Option Message
  pub history_sync_notification : Bool
  pub association : Association
  pub has_parent_key : Bool

-- The event that is queued: `WAMessageEvent`.
pub record QueuedMessage : Type 0 where
  pub source : MessageSource
  pub id : Str
  pub message : Option Message
  pub parsed_message_type : Str

pub record Handled : Type 0 where
  pub saved_history : Bool
  pub queued : Option QueuedMessage

-- Decryption, which whatsmeow does: the text of a reaction, a comment's message, a secret message
-- as it is after `UnwrapRaw`. `none` is an error.
pub record Decryption : Type 0 where
  pub decrypt_reaction : Message → Option Str
  pub decrypt_comment : Message → Option Message
  pub decrypt_secret : Message → Option Message

-- A message with nothing but an edit.
abbrev pub blank_message : Message
blank_message = record {
  conversation = false;
  extended_text_message = false;
  image_message = none;
  sticker_message = none;
  video_message = none;
  ptv_message = none;
  audio_message = none;
  document_message = none;
  contact_message = false;
  contacts_array_message = false;
  location_message = false;
  live_location_message = false;
  group_invite_message = false;
  group_mentioned_message = false;
  scheduled_call_creation_message = false;
  scheduled_call_edit_message = false;
  reaction_message = none;
  enc_reaction_message = false;
  enc_comment_message = false;
  comment_message = false;
  poll_creation_message = false;
  poll_creation_message_v2 = false;
  poll_creation_message_v3 = false;
  poll_creation_message_v4 = false;
  poll_creation_message_v5 = false;
  poll_update_message = false;
  protocol_message = none;
  buttons_message = false;
  buttons_response_message = false;
  template_message = false;
  highly_structured_message = false;
  template_button_reply_message = false;
  interactive_message = false;
  interactive_response_message = false;
  list_message = false;
  product_message = false;
  list_response_message = false;
  order_message = false;
  invoice_message = false;
  bot_invoke_message = false;
  event_message = false;
  event_cover_image_message = false;
  enc_event_response_message = false;
  newsletter_admin_invite_message = false;
  secret_encrypted_message = false;
  poll_result_snapshot_message = false;
  message_history_bundle_message = false;
  request_phone_number_message = false;
  keep_in_chat_message = false;
  status_mention_message = false;
  sticker_pack_message = false;
  album_message = false;
  send_payment_message = false;
  request_payment_message = false;
  decline_payment_request_message = false;
  cancel_payment_request_message = false;
  payment_invite_message = false;
  call_message = false;
  chat_message = false;
  placeholder_message = false;
  sender_key_distribution_message = false;
  sticker_sync_rmr_message = false;
}

abbrev pub edit_of : Bool → Message
edit_of has_key = record blank_message {
  protocol_message = some (record { protocol_type = message_edit; has_key = has_key });
}

abbrev pub is_hd : Association → Bool
is_hd hd_image_dual_upload = true
is_hd hd_video_dual_upload = true
is_hd _ = false

abbrev is_motion_photo : Association → Bool
is_motion_photo motion_photo = true
is_motion_photo _ = false

-- The three decryption steps in order; `none` is an early return.
with_reaction : Message → Option Str → Option Message
with_reaction m none = none
with_reaction m (some text) = some (record m { reaction_message = some text })

with_comment : Message → Option Message → Message
with_comment m none = m
with_comment m (some decrypted) = record decrypted { enc_comment_message = true }

module _ (dec : Decryption) where
  reaction_step : Message → Option Message
  unfolding with_reaction
  reaction_step m =
      if m.enc_reaction_message then with_reaction m (dec.decrypt_reaction m) else some m

  comment_step : Message → Message
  unfolding with_comment
  comment_step m = if m.enc_comment_message then with_comment m (dec.decrypt_comment m) else m

  with_secret : Option Message → Option (Message × Str)
  with_secret none = none
  with_secret (some m) = some (m, get_message_type (some m))

  secret_step : Str → Message → Option (Message × Str)
  unfolding with_secret
  secret_step parsed m =
      if m.secret_encrypted_message then with_secret (dec.decrypt_secret m) else some (m, parsed)

  after_reaction : Str → Option Message → Option (Message × Str)
  unfolding comment_step secret_step
  after_reaction parsed none = none
  after_reaction parsed (some m) = secret_step parsed (comment_step m)

  -- From `getMessageType` on: the message and its kind, if they are to be queued.
  unfoldable pub convert_message : Option Message → Option (Message × Str)
  unfolding reaction_step after_reaction
  convert_message none = none
  convert_message (some m) =
      let parsed = get_message_type (some m) in
      if is_dropped parsed then none else after_reaction parsed (reaction_step m)

to_queue : MessageSource → Str → Option (Message × Str) → Option QueuedMessage
to_queue source id none = none
to_queue source id (some (m, parsed)) =
    some (record { source = source; id = id; message = some m; parsed_message_type = parsed })

module _ (api : JidApi) (wa : Client) (config : Config) (dec : Decryption) where
  handle_rerouted : MessageEvent → MessageSource → Handled
  unfolding to_queue
  handle_rerouted evt source =
      if jid_eq source.chat config.status_broadcast_jid && not config.enable_status_broadcast
      then record { saved_history = false; queued = none }
      else record {
        saved_history =
            source.is_from_me && evt.history_sync_notification && config.backfill_enabled
            && config.manual_history_sync;
        queued =
            if is_hd evt.association
            then to_queue source evt.id (convert_message dec (some (edit_of evt.has_parent_key)))
            else if is_motion_photo evt.association
            then none
            else to_queue source evt.id (convert_message dec evt.message);
      }

  -- `handleWAMessage`
  unfoldable pub handle_wa_message : MessageEvent → Handled
  unfolding handle_rerouted
  handle_wa_message evt = handle_rerouted evt (reroute_wa_message api wa evt.source)

  -- `handleWAUndecryptableMessage`: the source of the notice that is queued.
  unfoldable pub handle_wa_undecryptable_message : MessageSource → Bool → Option MessageSource
  handle_wa_undecryptable_message info hide =
      let source = reroute_wa_message api wa info in
      if hide
      then none
      else if jid_eq source.chat config.status_broadcast_jid && not config.enable_status_broadcast
      then none
      else some source
