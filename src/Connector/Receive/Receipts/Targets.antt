-- ===== src/Connector/Receive/Receipts/Targets.antt =====
-- What receipts and typing notices are about.
use whatsapp.Common.{◌≡◌, ◌↔◌, arith, true, false, none, some, List, [], map}
use whatsapp.Common.{◌⊎◌}
use whatsapp.Common.Text.{Str}
use whatsapp.Waid.Jid.{JidApi, IsJidApi, jid_eq_refl, hidden_user, default_user}
use whatsapp.Waid.Id.{make_message_id}
use whatsapp.Connector.Client.{Client}
use whatsapp.Connector.Reroute.{MessageSource}
use whatsapp.Connector.Receive.Event.{RemoteEvent, receipt}
use whatsapp.Connector.Receive.Receipts.{
  ReceiptEvent, receipt_kind, receipt_message_sender, handle_wa_receipt, PresenceEvent,
  presence_rerouted, receipt_event,
}

-- The message IDs that an event is about.
abbrev pub event_targets : RemoteEvent → List Str
event_targets (receipt kind key sender ts targets) = targets
event_targets _ = []

module _ (api : JidApi) (wa : Client) where
  pub event_targets_of :
      (evt : ReceiptEvent) (source : MessageSource) (e : RemoteEvent)
      → receipt_event api wa evt source (receipt_kind evt.receipt_type) ≡ some e
      → event_targets e
        ≡ map
            (make_message_id api source.chat
              (receipt_message_sender api wa evt.message_sender source))
            evt.message_ids
  unfolding receipt_event
  event_targets_of evt source e q = ground arith

  -- A receipt is queued exactly if it says that messages were read or delivered.
  pub receipt_queued_iff :
      (evt : ReceiptEvent)
      → ((handle_wa_receipt api wa evt).queued ≡ none) ↔ (receipt_kind evt.receipt_type ≡ none)
  unfolding handle_wa_receipt
  receipt_queued_iff evt = (λ h. ground arith, λ h. rw h)

  -- A typing notice in a one-to-one chat at a hidden address shows in the chat of the phone number,
  -- where that is known, from either source.
  pub presence_moves :
      (evt : PresenceEvent)
      → IsJidApi api
      → evt.chat.server ≡ hidden_user
      → api.to_non_ad evt.sender ≡ evt.chat
      → ((api.is_empty evt.sender_alt ≡ false) × (evt.sender_alt.server ≡ default_user))
        ⊎ ((api.is_empty evt.sender_alt ≡ true)
            × ((wa.pn_for_lid evt.sender).0.server ≡ default_user))
      → (presence_rerouted api wa evt).chat.server ≡ default_user
  unfolding presence_rerouted
  presence_moves evt laws hs hc known = ground (
    arith,
    jid_eq_refl evt.chat,
    laws.to_non_ad_lem evt.sender_alt,
    laws.to_non_ad_lem (wa.pn_for_lid evt.sender).0,
  )
