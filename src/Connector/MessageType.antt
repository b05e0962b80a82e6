-- ===== src/Connector/MessageType.antt =====
-- pkg/connector/wamsgtype.go: the kind of a WhatsApp message, and `GetType` of
-- pkg/connector/events.go, the kind of remote event that is made of it.
pub mod Ignored
use whatsapp.Common.{
  ℕ, Bool, true, false, ◌&&◌, ◌||◌, Option, none, some, ◌++◌, if◌then◌else◌, is_some,
}
use whatsapp.Common.Text.{Str, codes, str_eq, has_prefix}
use whatsapp.Waid.Decimal.{format_uint}
use whatsapp.Connector.WaMessage.{
  ProtocolType, ProtocolMessage, Message, MessageType, type_name, revoke_type, message_edit,
  ephemeral_setting, app_state_sync_key_share, history_sync_notification,
  initial_security_notification_setting_sync, other_protocol, ignore, unknown, reaction,
  reaction_remove, revoke, edit, disappearing_timer_change, unknown_protocol, image, sticker, video,
  round_video, audio, document, text, contact, contact_array, location, live_location_start,
  group_invite, group_mention, scheduled_call_create, scheduled_call_edit, encrypted_reaction,
  encrypted_comment, comment, poll_create, poll_create_next, poll_update, buttons, buttons_response,
  template, highly_structured_template, template_button_reply, interactive, interactive_response,
  list_message_type, product, list_response, order, invoice, bot_invoke, event, event_cover_image,
  newsletter_admin_invite, secret_encrypted, poll_result_snapshot, message_history_bundle,
  request_phone_number, keep_in_chat, status_mention, sticker_pack, album, payment, call, chat,
  placeholder,
}

-- The case of a field, where it is set, before the cases that follow.
abbrev case_of : {A : Type 0} → Option A → (A → MessageType) → MessageType → MessageType
case_of (some a) f later = f a
case_of none f later = later

-- The inner `switch` on a protocol message.
protocol_kind : ProtocolType → Bool → MessageType
protocol_kind revoke_type has_key = if has_key then revoke else ignore
protocol_kind message_edit has_key = edit
protocol_kind ephemeral_setting has_key = disappearing_timer_change
protocol_kind app_state_sync_key_share has_key = ignore
protocol_kind history_sync_notification has_key = ignore
protocol_kind initial_security_notification_setting_sync has_key = ignore
protocol_kind (other_protocol n) has_key = unknown_protocol n

rest_kind : Message → MessageType
rest_kind m =
    if m.message_history_bundle_message
    then message_history_bundle
    else if m.request_phone_number_message
    then request_phone_number
    else if m.keep_in_chat_message
    then keep_in_chat
    else if m.status_mention_message
    then status_mention
    else if m.sticker_pack_message
    then sticker_pack
    else if m.album_message
    then album
    else if m.send_payment_message || m.request_payment_message || m.decline_payment_request_message
        || m.cancel_payment_request_message || m.payment_invite_message
    then payment
    else if m.call_message
    then call
    else if m.chat_message
    then chat
    else if m.placeholder_message
    then placeholder
    else if m.sender_key_distribution_message || m.sticker_sync_rmr_message
    then ignore
    else unknown

business_kind : Message → MessageType
business_kind m =
    if m.interactive_message
    then interactive
    else if m.interactive_response_message
    then interactive_response
    else if m.list_message
    then list_message_type
    else if m.product_message
    then product
    else if m.list_response_message
    then list_response
    else if m.order_message
    then order
    else if m.invoice_message
    then invoice
    else if m.bot_invoke_message
    then bot_invoke
    else if m.event_message
    then event
    else if m.event_cover_image_message
    then event_cover_image
    else if m.enc_event_response_message
    then ignore
    else if m.newsletter_admin_invite_message
    then newsletter_admin_invite
    else if m.secret_encrypted_message
    then secret_encrypted
    else if m.poll_result_snapshot_message
    then poll_result_snapshot
    else rest_kind m

social_kind : Message → MessageType
social_kind m =
    if m.scheduled_call_edit_message
    then scheduled_call_edit
    else case_of m.reaction_message (λ t. if str_eq t (codes "") then reaction_remove else reaction)
        (if m.enc_reaction_message
          then encrypted_reaction
          else if m.enc_comment_message
          then encrypted_comment
          else if m.comment_message
          then comment
          else if m.poll_creation_message || m.poll_creation_message_v2
              || m.poll_creation_message_v3
          then poll_create
          else if m.poll_creation_message_v4 || m.poll_creation_message_v5
          then poll_create_next
          else if m.poll_update_message
          then poll_update
          else case_of m.protocol_message (λ p. protocol_kind p.protocol_type p.has_key)
              (if m.buttons_message
                then buttons
                else if m.buttons_response_message
                then buttons_response
                else if m.template_message
                then template
                else if m.highly_structured_message
                then highly_structured_template
                else if m.template_button_reply_message
                then template_button_reply
                else business_kind m))

content_kind : Message → MessageType
content_kind m =
    if m.conversation || m.extended_text_message
    then text
    else case_of m.image_message image (
        case_of m.sticker_message sticker (
          case_of m.video_message video (
            case_of m.ptv_message round_video (
              case_of m.audio_message audio (
                case_of m.document_message document (
                  if m.contact_message
                  then contact
                  else if m.contacts_array_message
                  then contact_array
                  else if m.location_message
                  then location
                  else if m.live_location_message
                  then live_location_start
                  else if m.group_invite_message
                  then group_invite
                  else if m.group_mentioned_message
                  then group_mention
                  else if m.scheduled_call_creation_message
                  then scheduled_call_create
                  else social_kind m))))))

-- `getMessageType`; `none` is the nil message.
unfoldable pub message_kind : Option Message → MessageType
unfolding content_kind social_kind business_kind rest_kind protocol_kind
message_kind none = ignore
message_kind (some m) = content_kind m

unfoldable pub get_message_type : Option Message → Str
get_message_type m = type_name (message_kind m)

pub data RemoteEventType : Type 0 where
  event_unknown event_reaction event_reaction_remove event_edit : RemoteEventType
  event_message_remove event_message_upsert : RemoteEventType

-- `(*WAMessageEvent).GetType`, on the text of the kind.
unfoldable pub get_type : Str → RemoteEventType
get_type parsed =
    if str_eq parsed (codes "reaction") || str_eq parsed (codes "encrypted reaction")
    then event_reaction
    else if str_eq parsed (codes "reaction remove")
    then event_reaction_remove
    else if str_eq parsed (codes "edit")
    then event_edit
    else if str_eq parsed (codes "revoke")
    then event_message_remove
    else if str_eq parsed (codes "ignore")
    then event_unknown
    else event_message_upsert

-- The test by which `handleWAMessage` drops a message.
unfoldable pub is_dropped : Str → Bool
is_dropped parsed = str_eq parsed (codes "ignore") || has_prefix (codes "unknown_protocol_") parsed
