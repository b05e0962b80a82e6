-- ===== src/Connector/MessageType/Ignored.antt =====
-- Which messages are dropped, and which become edits, reactions and removals.
use whatsapp.Common.{◌≡◌, ◌≢◌, ◌⊎◌, inl, inr, refl, arith, Bool, true, false, ◌||◌, some, sym, ◌∙◌}
use whatsapp.Common.{Option-cases}
use whatsapp.Connector.WaMessage.{
  Message, MessageType, ProtocolMessage, ProtocolType, message_edit, ephemeral_setting, type_name,
}
use whatsapp.Connector.MessageType.{
  RemoteEventType, event_edit, event_message_remove, event_message_upsert, event_unknown,
  event_reaction, event_reaction_remove, message_kind, get_message_type, get_type, is_dropped,
  content_kind, social_kind, business_kind, rest_kind, protocol_kind,
}

-- The kinds that are dropped.
abbrev dropped_kind : MessageType → Bool
dropped_kind MessageType.ignore = true
dropped_kind (MessageType.unknown_protocol n) = true
dropped_kind _ = false

-- The event that each kind becomes.
abbrev kind_event : MessageType → RemoteEventType
kind_event MessageType.reaction = event_reaction
kind_event MessageType.encrypted_reaction = event_reaction
kind_event MessageType.reaction_remove = event_reaction_remove
kind_event MessageType.edit = event_edit
kind_event MessageType.revoke = event_message_remove
kind_event MessageType.ignore = event_unknown
kind_event _ = event_message_upsert

is_dropped-type_name : (t : MessageType) → is_dropped (type_name t) ≡ dropped_kind t
unfolding is_dropped type_name
is_dropped-type_name MessageType.ignore = refl
is_dropped-type_name _ = refl

get_type-type_name : (t : MessageType) → get_type (type_name t) ≡ kind_event t
unfolding get_type type_name
get_type-type_name MessageType.ignore = refl
get_type-type_name _ = refl

-- What a message that is dropped holds.
abbrev pub Droppable : Message → Type 0
Droppable m =
    ((p : ProtocolMessage) × (m.protocol_message ≡ some p)
      × (p.protocol_type ≢ message_edit)
      × (p.protocol_type ≢ ephemeral_setting))
    ⊎ (m.enc_event_response_message ≡ true)
    ⊎ (m.sender_key_distribution_message ≡ true)
    ⊎ (m.sticker_sync_rmr_message ≡ true)

dropped_rest : (m : Message) → dropped_kind (rest_kind m) ≡ true → Droppable m
unfolding rest_kind
dropped_rest m h = ground arith

dropped_business : (m : Message) → dropped_kind (business_kind m) ≡ true → Droppable m
unfolding business_kind
dropped_business m h = ground (arith, dropped_rest m)

dropped_protocol :
    (t : ProtocolType) (has_key : Bool)
    → dropped_kind (protocol_kind t has_key) ≡ true
    → (t ≢ message_edit) × (t ≢ ephemeral_setting)
unfolding protocol_kind
dropped_protocol t has_key h = ground arith

dropped_social : (m : Message) → dropped_kind (social_kind m) ≡ true → Droppable m
unfolding social_kind
dropped_social m h = elim (Option-cases m.protocol_message) [
  | inl e ↦ ground (arith, dropped_business m)
  | inr (p, e) ↦
      let dropped : dropped_kind (protocol_kind p.protocol_type p.has_key) ≡ true = ground arith in
      let (no_edit, no_timer) = dropped_protocol p.protocol_type p.has_key dropped in
      inl (p, e, no_edit, no_timer)
]

dropped_content : (m : Message) → dropped_kind (content_kind m) ≡ true → Droppable m
unfolding content_kind
dropped_content m h = ground (arith, dropped_social m)

-- A message is dropped only if it is a protocol message that is no edit and no timer change, an
-- event response, or carries no content but sender keys or sticker sync.
pub dropped_needs : (m : Message) → is_dropped (get_message_type (some m)) ≡ true → Droppable m
unfolding get_message_type message_kind
dropped_needs m h = dropped_content m (sym (is_dropped-type_name (content_kind m)) ∙ h)

-- A message with a plain or extended text becomes a message event and is not dropped, whatever else
-- it holds.
pub text_first :
    (m : Message)
    → (m.conversation || m.extended_text_message) ≡ true
    → (get_type (get_message_type (some m)) ≡ event_message_upsert)
      × (is_dropped (get_message_type (some m)) ≡ false)
unfolding get_message_type message_kind content_kind
text_first m h = rw h (unfold get_type type_name in refl, unfold is_dropped type_name in refl)

-- The kinds of a protocol message, and no other, are edits and removals.
abbrev IsProtocol : Message → ProtocolType → Type 0
IsProtocol m t = (p : ProtocolMessage) × (m.protocol_message ≡ some p) × (p.protocol_type ≡ t)

edit_rest : (m : Message) → kind_event (rest_kind m) ≢ event_edit
unfolding rest_kind
edit_rest m = λ h. ground arith

edit_business : (m : Message) → kind_event (business_kind m) ≢ event_edit
unfolding business_kind
edit_business m = λ h. ground (arith, edit_rest m)

edit_protocol :
    (t : ProtocolType) (has_key : Bool)
    → kind_event (protocol_kind t has_key) ≡ event_edit
    → t ≡ message_edit
unfolding protocol_kind
edit_protocol t has_key h = ground arith

edit_social : (m : Message) → kind_event (social_kind m) ≡ event_edit → IsProtocol m message_edit
unfolding social_kind
edit_social m h = elim (Option-cases m.protocol_message) [
  | inl e ↦ ground (arith, edit_business m)
  | inr (p, e) ↦
      let edits : kind_event (protocol_kind p.protocol_type p.has_key) ≡ event_edit =
        ground arith in
      (p, e, edit_protocol p.protocol_type p.has_key edits)
]

edit_content : (m : Message) → kind_event (content_kind m) ≡ event_edit → IsProtocol m message_edit
unfolding content_kind
edit_content m h = ground (arith, edit_social m)

-- Only a protocol message of the type for edits becomes an edit.
pub edit_needs :
    (m : Message)
    → get_type (get_message_type (some m)) ≡ event_edit
    → (p : ProtocolMessage) × (m.protocol_message ≡ some p) × (p.protocol_type ≡ message_edit)
unfolding get_message_type message_kind
edit_needs m h = edit_content m (sym (get_type-type_name (content_kind m)) ∙ h)
