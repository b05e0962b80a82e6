-- ===== src/Connector/Receive/Event.antt =====
-- The events that the handlers of pkg/connector/handlewhatsapp.go queue (`simplevent` of the bridge
-- framework), with the fields that the handlers fill. Times are in seconds.
use whatsapp.Common.{ℕ, Bool, List, Option}
use whatsapp.Common.Text.{Str}
use whatsapp.Connector.Ids.{PortalKey, EventSender}

pub data ReceiptKind : Type 0 where
  read_receipt delivery_receipt : ReceiptKind

pub data TypingType : Type 0 where
  typing_text typing_recording_media : TypingType

-- `time.Time` of a mute: `event.MutedForever`, `bridgev2.Unmuted` or a time.
pub data MutedUntil : Type 0 where
  muted_forever unmuted : MutedUntil
  muted_until : ℕ → MutedUntil

-- `bridgev2.UserLocalPortalInfo`
pub record UserLocalInfo : Type 0 where
  pub muted : Option MutedUntil
  pub tag : Option Str

pub data RemoteEvent : Type 0 where
  receipt : ReceiptKind → PortalKey → EventSender → ℕ → List Str → RemoteEvent
  read_up_to : PortalKey → EventSender → ℕ → RemoteEvent
  typing : PortalKey → EventSender → ℕ → TypingType → RemoteEvent
  -- A message that the bridge makes up: whether it may create the portal, its text and its ID.
  notice : PortalKey → EventSender → ℕ → Bool → Str → Str → RemoteEvent
  -- Whether the chat is deleted for the user only, and with its children.
  chat_delete : PortalKey → ℕ → Bool → Bool → RemoteEvent
  message_remove : PortalKey → ℕ → Str → RemoteEvent
  user_local : PortalKey → ℕ → UserLocalInfo → RemoteEvent
  chat_resync : PortalKey → RemoteEvent
