-- ===== src/Connector/WaMessage.antt =====
-- WhatsApp messages (`waE2E.Message`) as pkg/connector/wamsgtype.go reads them, and their kinds.
use whatsapp.Common.{ℕ, Bool, Option, ◌++◌}
use whatsapp.Common.Text.{Str, codes}
use whatsapp.Waid.Decimal.{format_uint}

-- The protocol message types that the code names; `other_protocol` has the number of any other.
pub data ProtocolType : Type 0 where
  revoke_type message_edit ephemeral_setting : ProtocolType
  app_state_sync_key_share history_sync_notification : ProtocolType
  initial_security_notification_setting_sync : ProtocolType
  other_protocol : ℕ → ProtocolType

-- Of a protocol message: its type, and whether it has the key of a message.
pub record ProtocolMessage : Type 0 where
  pub protocol_type : ProtocolType
  pub has_key : Bool

-- `waE2E.Message`: for each field whether it is set, and of some fields what the code reads: the
-- MIME type of media, the text of a reaction, a protocol message.
pub record Message : Type 0 where
  pub conversation : Bool
  pub extended_text_message : Bool
  pub image_message : Option Str
  pub sticker_message : Option Str
  pub video_message : Option Str
  pub ptv_message : Option Str
  pub audio_message : Option Str
  pub document_message : Option Str
  pub contact_message : Bool
  pub contacts_array_message : Bool
  pub location_message : Bool
  pub live_location_message : Bool
  pub group_invite_message : Bool
  pub group_mentioned_message : Bool
  pub scheduled_call_creation_message : Bool
  pub scheduled_call_edit_message : Bool
  pub reaction_message : Option Str
  pub enc_reaction_message : Bool
  pub enc_comment_message : Bool
  pub comment_message : Bool
  pub poll_creation_message : Bool
  pub poll_creation_message_v2 : Bool
  pub poll_creation_message_v3 : Bool
  pub poll_creation_message_v4 : Bool
  pub poll_creation_message_v5 : Bool
  pub poll_update_message : Bool
  pub protocol_message : Option ProtocolMessage
  pub buttons_message : Bool
  pub buttons_response_message : Bool
  pub template_message : Bool
  pub highly_structured_message : Bool
  pub template_button_reply_message : Bool
  pub interactive_message : Bool
  pub interactive_response_message : Bool
  pub list_message : Bool
  pub product_message : Bool
  pub list_response_message : Bool
  pub order_message : Bool
  pub invoice_message : Bool
  pub bot_invoke_message : Bool
  pub event_message : Bool
  pub event_cover_image_message : Bool
  pub enc_event_response_message : Bool
  pub newsletter_admin_invite_message : Bool
  pub secret_encrypted_message : Bool
  pub poll_result_snapshot_message : Bool
  pub message_history_bundle_message : Bool
  pub request_phone_number_message : Bool
  pub keep_in_chat_message : Bool
  pub status_mention_message : Bool
  pub sticker_pack_message : Bool
  pub album_message : Bool
  pub send_payment_message : Bool
  pub request_payment_message : Bool
  pub decline_payment_request_message : Bool
  pub cancel_payment_request_message : Bool
  pub payment_invite_message : Bool
  pub call_message : Bool
  pub chat_message : Bool
  pub placeholder_message : Bool
  pub sender_key_distribution_message : Bool
  pub sticker_sync_rmr_message : Bool

-- What `getMessageType` returns; `type_name` is the text of each kind.
pub data MessageType : Type 0 where
  ignore unknown : MessageType
  reaction reaction_remove revoke edit disappearing_timer_change : MessageType
  unknown_protocol : ℕ → MessageType
  image : Str → MessageType
  sticker : Str → MessageType
  video : Str → MessageType
  round_video : Str → MessageType
  audio : Str → MessageType
  document : Str → MessageType
  text contact contact_array location : MessageType
  live_location_start group_invite group_mention scheduled_call_create : MessageType
  scheduled_call_edit encrypted_reaction encrypted_comment comment : MessageType
  poll_create poll_create_next poll_update buttons : MessageType
  buttons_response template highly_structured_template template_button_reply : MessageType
  interactive interactive_response list_message_type product : MessageType
  list_response order invoice bot_invoke : MessageType
  event event_cover_image newsletter_admin_invite secret_encrypted : MessageType
  poll_result_snapshot message_history_bundle request_phone_number keep_in_chat : MessageType
  status_mention sticker_pack album payment : MessageType
  call chat placeholder : MessageType

unfoldable pub type_name : MessageType → Str
type_name ignore = codes "ignore"
type_name unknown = codes "unknown"
type_name reaction = codes "reaction"
type_name reaction_remove = codes "reaction remove"
type_name revoke = codes "revoke"
type_name edit = codes "edit"
type_name disappearing_timer_change = codes "disappearing timer change"
type_name (unknown_protocol n) = codes "unknown_protocol_" ++ format_uint n
type_name text = codes "text"
type_name (image mime) = codes "image " ++ mime
type_name (sticker mime) = codes "sticker " ++ mime
type_name (video mime) = codes "video " ++ mime
type_name (round_video mime) = codes "round video " ++ mime
type_name (audio mime) = codes "audio " ++ mime
type_name (document mime) = codes "document " ++ mime
type_name contact = codes "contact"
type_name contact_array = codes "contact array"
type_name location = codes "location"
type_name live_location_start = codes "live location start"
type_name group_invite = codes "group invite"
type_name group_mention = codes "group mention"
type_name scheduled_call_create = codes "scheduled call create"
type_name scheduled_call_edit = codes "scheduled call edit"
type_name encrypted_reaction = codes "encrypted reaction"
type_name encrypted_comment = codes "encrypted comment"
type_name comment = codes "comment"
type_name poll_create = codes "poll create"
type_name poll_create_next = codes "poll create (vNext)"
type_name poll_update = codes "poll update"
type_name buttons = codes "buttons"
type_name buttons_response = codes "buttons response"
type_name template = codes "template"
type_name highly_structured_template = codes "highly structured template"
type_name template_button_reply = codes "template button reply"
type_name interactive = codes "interactive"
type_name interactive_response = codes "interactive response"
type_name list_message_type = codes "list"
type_name product = codes "product"
type_name list_response = codes "list response"
type_name order = codes "order"
type_name invoice = codes "invoice"
type_name bot_invoke = codes "bot invoke"
type_name event = codes "event"
type_name event_cover_image = codes "event cover image"
type_name newsletter_admin_invite = codes "newsletter admin invite"
type_name secret_encrypted = codes "secret encrypted"
type_name poll_result_snapshot = codes "poll result snapshot"
type_name message_history_bundle = codes "message history bundle"
type_name request_phone_number = codes "request phone number"
type_name keep_in_chat = codes "keep in chat"
type_name status_mention = codes "status mention"
type_name sticker_pack = codes "sticker pack"
type_name album = codes "album"
type_name payment = codes "payment"
type_name call = codes "call"
type_name chat = codes "chat"
type_name placeholder = codes "placeholder"
