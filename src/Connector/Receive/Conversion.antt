-- ===== src/Connector/Receive/Conversion.antt =====
-- pkg/connector/events.go: what the bridge does with a queued message: its edits, messages that
-- could not be decrypted, answers to media retries, and the move of a group to hidden addresses.
pub mod Once
pub mod Retries
pub mod Migration
mod Tests
use whatsapp.Common.{ℕ, Bool, true, false, ◌&&◌, ◌||◌, not, Option, none, some, List, [], ◌∷◌, ◌++◌}
use whatsapp.Common.{map, if◌then◌else◌, Outcome, ok, err, panic, is_some}
use whatsapp.Common.Text.{Str, codes, str_eq}
use whatsapp.Waid.Jid.{Jid, JidApi, Server, default_user, hidden_user, group, server_eq}
use whatsapp.Waid.Id.{IdError, parse_portal_id}
use whatsapp.Waid.DbMeta.{
  MessageMetadata, MessageErrorType, decryption_failed, media_not_found, no_error, PortalMetadata,
  AddressingMode, mode_lid,
}
use whatsapp.Connector.MediaEditCache.{Cache, CacheKey, add_media_edit_cache}
use whatsapp.Connector.MediaRequest.{is_failed_media}
use whatsapp.Connector.Reroute.{MessageSource}

-- Why an event is ignored (`ErrIgnoringRemoteEvent`), and the errors of the answers to retries.
pub data ConvertError : Type 0 where
  edit_already_handled direct_media_retry no_media_error no_media_metadata : ConvertError
  bad_media_metadata lock_failed : ConvertError

-- A message event: its ID, its message, the message that it edits another to, and whether it is the
-- decryptable version of a message that is there already.
pub record MessageEvt (Msg : Type 0) : Type 0 where
  pub id : Str
  pub message : Msg
  pub edited_message : Msg
  pub is_undecryptable_upsert_sub_event : Bool

-- The edited part, and whether clients are told not to show it as edited.
pub record EditPart (Part : Type 0) : Type 0 where
  pub part : Part
  pub dont_render_edited : Bool

-- The metadata of the edited message after the conversion, whether failed media is to be processed
-- after the event, and the result.
pub record Edited (Part : Type 0) : Type 0 where
  pub meta : MessageMetadata
  pub process_failed : Bool
  pub result : Outcome ConvertError (EditPart Part)

abbrev pub contains : Str → List Str → Bool
contains x [] = false
contains x (y ∷ ys) = str_eq x y || contains x ys

-- `to_matrix` is the message converter, which takes the part that a media message was converted to
-- before; `failed_media` is the key of a part's failed media.
module _ {Msg Part : Type 0} (to_matrix : Msg → Option Part → List Part)
    (failed_media : Part → Option Str) where
  first_part : Bool → List Part → Outcome ConvertError (EditPart Part)
  first_part sub [] = panic
  first_part sub (p ∷ ps) = ok (record { part = p; dont_render_edited = sub })

  edited_to : Bool → List Part → MessageMetadata → Edited Part
  unfolding first_part
  edited_to sub parts meta = record {
    meta = meta;
    process_failed = sub && is_failed_media (map failed_media parts);
    result = first_part sub parts;
  }

  -- `(*WAMessageEvent).ConvertEdit`, with the part that the media edit cache has for the target, and
  -- the metadata of the first existing part.
  unfoldable pub convert_edit : MessageEvt Msg → Option Part → MessageMetadata → Edited Part
  unfolding edited_to
  convert_edit evt cached meta =
      if evt.is_undecryptable_upsert_sub_event
      then edited_to true (to_matrix evt.message none) meta
      else if contains evt.id meta.edits
      then record { meta = meta; process_failed = false; result = err edit_already_handled }
      else edited_to false (to_matrix evt.edited_message cached)
          (record meta { edits = meta.edits ++ (evt.id ∷ []) })

  -- `HandleExisting`: the event that is handled as an edit of the existing message, if any.
  unfoldable pub handle_existing : MessageEvt Msg → MessageMetadata → Option (MessageEvt Msg)
  handle_existing evt meta = elim (meta.error) [
    | decryption_failed ↦ some (record evt { is_undecryptable_upsert_sub_event = true })
    | no_error ↦ none
    | media_not_found ↦ none
  ]

  cache_first : (Part → Bool) → (Part → Bool) → ℕ → CacheKey → List Part → Cache Part → Cache Part
  cache_first is_sticker is_media now k [] m = m
  cache_first is_sticker is_media now k (p ∷ ps) m =
      add_media_edit_cache is_sticker is_media now k p m

  -- `(*WAMessageEvent).ConvertMessage`: the parts, whether failed media is to be processed after the
  -- event, and the media edit cache.
  unfoldable pub convert_message_event :
      (Part → Bool)
      → (Part → Bool)
      → ℕ
      → CacheKey
      → MessageEvt Msg
      → Cache Part
      → List Part × Bool × Cache Part
  unfolding cache_first
  convert_message_event is_sticker is_media now k evt m =
      let parts : List Part = to_matrix evt.message none in
      if is_failed_media (map failed_media parts)
      then (parts, true, m)
      else (parts, false, cache_first is_sticker is_media now k parts m)

-- The notices for messages that were not decrypted.
pub data Notice : Type 0 where
  decryption_failed_notice view_once_received view_once_sent : Notice

pub record Undecryptable : Type 0 where
  pub notice : Notice
  pub source_broadcast_list : Option Jid
  pub meta : MessageMetadata

-- `(*WAUndecryptableMessage).ConvertMessage`: whether the message comes over a broadcast list and
-- whether it can only be viewed once.
unfoldable pub convert_undecryptable : Bool → Bool → MessageSource → Undecryptable
convert_undecryptable is_incoming_broadcast is_view_once source =
    let list : Option Jid = (if is_incoming_broadcast then some source.chat else none) in
    record {
      notice =
          if is_view_once
          then (if source.is_from_me then view_once_sent else view_once_received)
          else decryption_failed_notice;
      source_broadcast_list = list;
      meta = record {
        sender_device_id = source.sender.device;
        error = decryption_failed;
        broadcast_list_jid = list;
        group_invite = none;
        failed_media_meta = none;
        direct_media_meta = none;
        is_matrix_poll = false;
        edits = [];
      };
    }

-- `GetResult()` of a media retry notification.
pub data RetryResult : Type 0 where
  retry_success retry_not_found : RetryResult
  retry_other : Str → RetryResult

pub record RetryData : Type 0 where
  pub retry_result : RetryResult
  pub direct_path : Str

-- What an answer to a media retry edits the message to: an error, or the media at the new path.
pub data RetryEdit : Type 0 where
  decryption_error media_not_available : RetryEdit
  phone_error : Str → RetryEdit
  downloaded : Str → RetryEdit

-- What follows from a notification that was decrypted: an error, or the path to download.
retry_outcome : Bool → RetryData → Outcome ConvertError RetryEdit
retry_outcome locked d = elim (d.retry_result) [
  | retry_success ↦ if locked then ok (downloaded d.direct_path) else err lock_failed
  | retry_not_found ↦
      if str_eq d.direct_path []
      then ok media_not_available
      else if locked
      then ok (downloaded d.direct_path)
      else err lock_failed
  | retry_other name ↦
      if str_eq d.direct_path []
      then ok (phone_error name)
      else if locked
      then ok (downloaded d.direct_path)
      else err lock_failed
]

decrypted_outcome : Bool → Option RetryData → Outcome ConvertError RetryEdit
unfolding retry_outcome
decrypted_outcome locked none = ok decryption_error
decrypted_outcome locked (some d) = retry_outcome locked d

-- `Keys` is the media key in the metadata of failed media; `unmarshal` reads it, and `decrypt` is
-- `DecryptMediaRetryNotification`.
module _ {Keys : Type 0} (unmarshal : Str → Option Keys) (decrypt : Keys → Option RetryData) where
  keys_outcome : Bool → Option Keys → Outcome ConvertError RetryEdit
  unfolding decrypted_outcome
  keys_outcome locked none = err bad_media_metadata
  keys_outcome locked (some k) = decrypted_outcome locked (decrypt k)

  failed_outcome : Bool → Option Str → Outcome ConvertError RetryEdit
  unfolding keys_outcome
  failed_outcome locked none = err no_media_metadata
  failed_outcome locked (some text) = keys_outcome locked (unmarshal text)

  abbrev is_media_error : MessageErrorType → Bool
  is_media_error media_not_found = true
  is_media_error _ = false

  -- `(*WAMediaRetry).ConvertEdit`, whether the lock of media retries was taken first.
  unfoldable pub convert_media_retry : Bool → MessageMetadata → Outcome ConvertError RetryEdit
  unfolding failed_outcome
  convert_media_retry locked meta =
      if is_some meta.direct_media_meta
      then err direct_media_retry
      else if not (is_media_error meta.error)
      then err no_media_error
      else failed_outcome locked meta.failed_media_meta

-- What `PreHandle` does: whether it asks WhatsApp for the group, whether it resyncs the group's
-- members, the metadata of the portal and the source of the message.
pub record PreHandled : Type 0 where
  pub asked : Bool
  pub resynced : Bool
  pub meta : PortalMetadata
  pub source : MessageSource

abbrev pub uses_lids : AddressingMode → Bool
uses_lids mode_lid = true
uses_lids _ = false

-- `get_group_info` is the addressing mode of a group, `none` for an error; `update_info` is what
-- `UpdateInfo` of the bridge does to the portal's metadata.
module _ (api : JidApi) (get_group_info : Jid → Option AddressingMode)
    (update_info : PortalMetadata → PortalMetadata) where
  swapped_sender : MessageSource → MessageSource
  swapped_sender s =
      if server_eq s.sender.server default_user && server_eq s.sender_alt.server hidden_user
      then record s { sender = s.sender_alt; sender_alt = s.sender }
      else s

  migrated : PortalMetadata → MessageSource → Option AddressingMode → PreHandled
  unfolding swapped_sender
  migrated meta s (some mode_lid) = record {
    asked = true;
    resynced = true;
    meta = update_info meta;
    source = swapped_sender s;
  }
  migrated meta s _ = record { asked = true; resynced = false; meta = meta; source = s }

  unasked : PortalMetadata → MessageSource → PreHandled
  unasked meta s = record { asked = false; resynced = false; meta = meta; source = s }

  migrate_portal : PortalMetadata → MessageSource → Outcome IdError Jid → PreHandled
  unfolding migrated unasked
  migrate_portal meta s (ok portal_jid) =
      if uses_lids meta.addressing_mode || meta.lid_migration_attempted
      then unasked meta s
      else migrated (record meta { lid_migration_attempted = true }) s (get_group_info portal_jid)
  migrate_portal meta s _ = unasked meta s

  -- `PreHandle`: the ID of the portal, the addressing mode of the message, its source.
  unfoldable pub pre_handle : Str → AddressingMode → MessageSource → PortalMetadata → PreHandled
  unfolding migrate_portal
  pre_handle portal_id mode s meta =
      if not (uses_lids mode) || not (server_eq s.chat.server group)
      then unasked meta s
      else migrate_portal meta s (parse_portal_id api portal_id)
