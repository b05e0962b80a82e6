-- ===== src/Connector/Receive/Conversion/Tests.antt =====
-- Runs of the conversion of messages on concrete data, and its theorems at concrete inputs.
use whatsapp.Common.{◌≤◌}
use whatsapp.Common.{
  true, false, Option, none, some, List, [], ◌∷◌, ok, err, ◌≡◌, ◌≢◌, ◌↔◌, ◌⊎◌, refl,
}
use whatsapp.Common.Text.{Str, codes}
use whatsapp.Waid.DbMeta.{
  MessageMetadata, media_not_found, PortalMetadata, mode_pn, mode_lid, AddressingMode,
}
use whatsapp.Waid.Jid.{Jid}
use whatsapp.Waid.Id.{parse_portal_id}
use whatsapp.Connector.Receive.Conversion.Migration.{asked_once, asks, HandledMessage}
use whatsapp.Waid.Sample.{sample_api, alice, alice_lid}
use whatsapp.Connector.Reroute.{MessageSource}
use whatsapp.Connector.Sample.{from_group}
use whatsapp.Connector.Receive.Conversion.{
  MessageEvt, edit_already_handled, convert_edit, RetryData, retry_success, downloaded,
  convert_media_retry, pre_handle,
}
use whatsapp.Connector.Receive.Conversion.Once.{after_edits, edit_handled_once}
use whatsapp.Connector.Receive.Conversion.Retries.{retry_downloads_iff}

-- Messages and parts are texts here, and no media fails.
abbrev to_matrix : Str → Option Str → List Str
to_matrix m cached = m ∷ []

abbrev failed_media : Str → Option Str
failed_media p = none

abbrev edit : MessageEvt Str
edit = record {
  id = codes "E1";
  message = [];
  edited_message = codes "new";
  is_undecryptable_upsert_sub_event = false;
}

abbrev other_edit : MessageEvt Str
other_edit = record edit { id = codes "E2" }

abbrev meta : MessageMetadata
meta = record {
  sender_device_id = 0;
  error = media_not_found;
  broadcast_list_jid = none;
  group_invite = none;
  failed_media_meta = some (codes "m");
  direct_media_meta = none;
  is_matrix_poll = false;
  edits = [];
}

abbrev both : List (MessageEvt Str × Option Str)
both = (edit, none) ∷ (other_edit, none) ∷ []

edit_handled_once_example :
    convert_edit to_matrix failed_media edit none (after_edits to_matrix failed_media both meta)
    ≡ record {
      meta = after_edits to_matrix failed_media both meta;
      process_failed = false;
      result = err edit_already_handled;
    }
edit_handled_once_example =
    edit_handled_once to_matrix failed_media edit edit none none ((other_edit, none) ∷ []) meta refl
      refl refl

abbrev readable : Str → Option Str
readable t = some t

abbrev success_at : Str → Option RetryData
success_at k = some (record { retry_result = retry_success; direct_path = codes "/v/t" })

retry_downloads_iff_example :
    (convert_media_retry readable success_at true meta ≡ ok (downloaded (codes "/v/t"))) ↔ (
      (text : Str) × (k : Str) × (d : RetryData) × (true ≡ true)
      × (meta.direct_media_meta ≡ none)
      × (meta.error ≡ media_not_found)
      × (meta.failed_media_meta ≡ some text)
      × (readable text ≡ some k)
      × (success_at k ≡ some d)
      × (d.direct_path ≡ codes "/v/t")
      × ((d.retry_result ≡ retry_success) ⊎ (codes "/v/t" ≢ [])))
retry_downloads_iff_example = retry_downloads_iff readable success_at true meta (codes "/v/t")

abbrev portal_meta : PortalMetadata
portal_meta = record {
  disappearing_timer_set_at = 0;
  topic_id = [];
  last_sync = 0;
  community_announcement_group = false;
  addressing_mode = mode_pn;
  lid_migration_attempted = false;
}

abbrev in_lid_mode : Jid → Option AddressingMode
in_lid_mode group_jid = some mode_lid

abbrev set_lid_mode : PortalMetadata → PortalMetadata
set_lid_mode m = record m { addressing_mode = mode_lid }

abbrev alice_in_group : MessageSource
alice_in_group = record from_group { sender = alice; sender_alt = alice_lid }

group_migrates :
    (pre_handle sample_api in_lid_mode set_lid_mode
      (codes "120-363@g.us")
      mode_lid
      alice_in_group
      portal_meta).source
    ≡ record alice_in_group { sender = alice_lid; sender_alt = alice }
unfolding pre_handle parse_portal_id
group_migrates = refl

abbrev group_message : HandledMessage
group_message = record { mode = mode_lid; source = alice_in_group; change = λ m. m }

-- The first of two messages asks.
first_asks :
    asks sample_api in_lid_mode set_lid_mode
      (codes "120-363@g.us")
      (group_message ∷ group_message ∷ [])
      portal_meta
    ≡ 1
unfolding pre_handle parse_portal_id
first_asks = refl

asked_once_example :
    asks sample_api in_lid_mode set_lid_mode
      (codes "120-363@g.us")
      (group_message ∷ group_message ∷ [])
      portal_meta
    ≤ 1
asked_once_example =
    asked_once sample_api in_lid_mode set_lid_mode (codes "120-363@g.us")
      (group_message ∷ group_message ∷ []) portal_meta (λ m. refl) (λ m. refl, (λ m. refl, tt))
