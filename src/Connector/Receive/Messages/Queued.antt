-- ===== src/Connector/Receive/Messages/Queued.antt =====
-- Which messages are queued, and as what.
use whatsapp.Common.{◌≡◌, ◌⊎◌, refl, arith, Bool, true, false, none, some}
use whatsapp.Common.Text.{codes}
use whatsapp.Waid.Jid.{JidApi, jid_eq, jid_eq_refl}
use whatsapp.Connector.Client.{Client}
use whatsapp.Connector.Reroute.{reroute_wa_message}
use whatsapp.Connector.WaMessage.{type_name}
use whatsapp.Connector.MessageType.{
  get_message_type, is_dropped, get_type, event_edit, message_kind,
}
use whatsapp.Connector.Receive.Config.{Config}
use whatsapp.Connector.Receive.Messages.{
  MessageEvent, QueuedMessage, Decryption, hd_image_dual_upload, hd_video_dual_upload,
  handle_wa_message, convert_message, edit_of, is_hd, handle_wa_undecryptable_message,
}

module _ (api : JidApi) (wa : Client) (config : Config) (dec : Decryption) where
  convert_edit :
      (b : Bool) → convert_message dec (some (edit_of b)) ≡ some (edit_of b, codes "edit")
  unfolding convert_message get_message_type message_kind type_name is_dropped
  convert_edit b = refl

  -- While the status broadcast is off, neither handler queues a message of it, and no history
  -- notification in it is saved.
  pub status_off_queues_nothing :
      (evt : MessageEvent) (hide : Bool)
      → config.enable_status_broadcast ≡ false
      → (reroute_wa_message api wa evt.source).chat ≡ config.status_broadcast_jid
      → ((handle_wa_message api wa config dec evt).queued ≡ none)
        × ((handle_wa_message api wa config dec evt).saved_history ≡ false)
        × (handle_wa_undecryptable_message api wa config dec evt.source hide ≡ none)
  unfolding handle_wa_message handle_wa_undecryptable_message
  status_off_queues_nothing evt hide off e = ground (arith, jid_eq_refl config.status_broadcast_jid)

  -- The high-quality version of an earlier upload, outside the status broadcast, is queued as an
  -- edit, with its source rerouted.
  pub hd_becomes_edit :
      (evt : MessageEvent)
      → (evt.association ≡ hd_image_dual_upload) ⊎ (evt.association ≡ hd_video_dual_upload)
      → jid_eq (reroute_wa_message api wa evt.source).chat config.status_broadcast_jid ≡ false
      → (q : QueuedMessage) × ((handle_wa_message api wa config dec evt).queued ≡ some q)
        × (q.source ≡ reroute_wa_message api wa evt.source)
        × (get_type q.parsed_message_type ≡ event_edit)
  unfolding handle_wa_message
  hd_becomes_edit evt hd e =
      let hd_holds : is_hd evt.association ≡ true = ground arith in
      rw (e, hd_holds, convert_edit evt.has_parent_key)
        (
          record {
            source = reroute_wa_message api wa evt.source;
            id = evt.id;
            message = some (edit_of evt.has_parent_key);
            parsed_message_type = codes "edit";
          },
          refl,
          refl,
          unfold get_type in refl,
        )
