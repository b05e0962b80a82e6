-- ===== src/Connector/Send/Messages/Echo.antt =====
-- What a sent message is stored as, and which echo of it is to be ignored.
use whatsapp.Common.{
  ◌≡◌, ◌≢◌, ◌↔◌, refl, arith, Bool, true, false, ◌&&◌, some, List, [], ◌∷◌, ok, Outcome,
  if◌then◌else◌, Bool-cases, inl, inr,
}
use whatsapp.Common.Text.{Str, str_eq, str_eq_refl, str_eq→eq, codes, has_prefix}
use whatsapp.Waid.Jid.{Jid, JidApi, non_ad, jid_eq}
use whatsapp.Waid.Id.{IdError, parse_portal_id, parse_message_id, make_message_id}
use whatsapp.Waid.Id.RoundTrip.{IsReadable, parse_message_id-make_message_id}
use whatsapp.Connector.Client.{Client}
use whatsapp.Connector.Receive.Config.{Config}
use whatsapp.Connector.Send.Messages.{
  Action, Network, SendResponse, MatrixResponse, add_pending, remove_pending, send_message,
  converted, request_id, sent_as_lid, handle_converted_matrix_message,
}

-- A text without its occurrences in a list.
remove_text : Str → List Str → List Str
remove_text t [] = []
remove_text t (s ∷ ss) = let rest = remove_text t ss in if str_eq s t then rest else s ∷ rest

-- The IDs that are to be ignored after some actions.
unfoldable pub left_pending : {M : Type 0} → List (Action M) → List Str → List Str
unfolding remove_text
left_pending [] ids = ids
left_pending (add_pending t ∷ acts) ids = left_pending acts (t ∷ ids)
left_pending (remove_pending t ∷ acts) ids = left_pending acts (remove_text t ids)
left_pending (send_message chat content id ∷ acts) ids = left_pending acts ids

remove_first : (a b : Str) → a ≢ b → remove_text a (b ∷ a ∷ []) ≡ b ∷ []
unfolding remove_text
remove_first a b ne = ground (arith, str_eq→eq b a, str_eq_refl a)

remove_second : (a b : Str) → a ≢ b → remove_text b (b ∷ a ∷ []) ≡ a ∷ []
unfolding remove_text
remove_second a b ne = ground (arith, str_eq→eq a b, str_eq_refl b)

module _ {M : Type 0} (api : JidApi) (wa : Client) (config : Config) (net : Network M) where
  -- The own address that a sent message is stored with.
  abbrev pub stored_sender : Jid → SendResponse → Jid
  stored_sender chat resp = if sent_as_lid api wa config net chat resp then wa.store_lid else wa.jid

  -- What a message that is sent does, and its result.
  pub sent_lem :
      (txn portal : Str) (m : M) (chat : Jid) (resp : SendResponse)
      → parse_portal_id api portal ≡ ok chat
      → (jid_eq chat config.status_broadcast_jid && config.disable_status_broadcast_send) ≡ false
      → net.answer chat (converted m) (some (request_id api wa config net txn)) ≡ some resp
      → (r : MatrixResponse) × ((handle_converted_matrix_message api wa config net txn portal
            m).result
          ≡ ok r)
        × (r.message_id
            ≡ make_message_id api chat (stored_sender chat resp) (request_id api wa config net txn))
        × (r.pending_id ≡ r.message_id)
        × ((handle_converted_matrix_message api wa config net txn portal m).actions
            ≡ add_pending (make_message_id api chat wa.jid (request_id api wa config net txn))
              ∷ add_pending
                  (make_message_id api chat wa.store_lid (request_id api wa config net txn))
              ∷ send_message chat (converted m) (some (request_id api wa config net txn))
              ∷ remove_pending (
                  make_message_id api chat
                    (if sent_as_lid api wa config net chat resp then wa.jid else wa.store_lid)
                    (request_id api wa config net txn))
              ∷ [])
  unfolding handle_converted_matrix_message
  sent_lem txn portal m chat resp hp hb ha =
      elim (Bool-cases (sent_as_lid api wa config net chat resp)) [
        | inl e ↦ rw (hp, hb, ha, e) (_, refl, refl, refl, refl)
        | inr e ↦ rw (hp, hb, ha, e) (_, refl, refl, refl, refl)
      ]

  -- A message that WhatsApp took is stored under an ID that `ParseMessageID` reads as its chat, one
  -- of the two own addresses, the hidden one exactly if WhatsApp used it outside a chat with a phone
  -- number, and the ID that was sent, under the conditions of reading an ID back.
  pub sent_reads_back :
      (txn portal : Str) (m : M) (chat : Jid) (resp : SendResponse)
      → parse_portal_id api portal ≡ ok chat
      → (jid_eq chat config.status_broadcast_jid && config.disable_status_broadcast_send) ≡ false
      → net.answer chat (converted m) (some (request_id api wa config net txn)) ≡ some resp
      → IsReadable api chat
      → IsReadable api wa.jid
      → IsReadable api wa.store_lid
      → str_eq (api.to_string (api.to_non_ad chat)) (codes "fake") ≡ false
      → has_prefix (codes "FAKE::") (request_id api wa config net txn) ≡ false
      → (r : MatrixResponse) × ((handle_converted_matrix_message api wa config net txn portal
            m).result
          ≡ ok r)
        × (parse_message_id api r.message_id
            ≡ ok (record {
              chat = non_ad chat;
              sender = non_ad (stored_sender chat resp);
              id = request_id api wa config net txn;
            }))
  sent_reads_back txn portal m chat resp hp hb ha rc rj rl nf nm =
      let (r, hr, hid, rest, acts) = sent_lem txn portal m chat resp hp hb ha in
      (
        r,
        hr,
        rw hid (
            parse_message_id-make_message_id api chat (stored_sender chat resp) _ rc
              (stored_readable (sent_as_lid api wa config net chat resp)) nf nm),
      )
    where
      stored_readable : (b : Bool) → IsReadable api (if b then wa.store_lid else wa.jid)
      stored_readable true = rl
      stored_readable false = rj

  -- After a message that WhatsApp took, the ID that it is stored under is the only one whose echo is
  -- to be ignored, if the own two addresses give it different IDs.
  pub pending_is_stored :
      (txn portal : Str) (m : M) (chat : Jid) (resp : SendResponse)
      → parse_portal_id api portal ≡ ok chat
      → (jid_eq chat config.status_broadcast_jid && config.disable_status_broadcast_send) ≡ false
      → net.answer chat (converted m) (some (request_id api wa config net txn)) ≡ some resp
      → make_message_id api chat wa.jid (request_id api wa config net txn)
        ≢ make_message_id api chat wa.store_lid (request_id api wa config net txn)
      → (r : MatrixResponse) × ((handle_converted_matrix_message api wa config net txn portal
            m).result
          ≡ ok r)
        × (r.pending_id ≡ r.message_id)
        × (left_pending (handle_converted_matrix_message api wa config net txn portal m).actions []
            ≡ r.message_id ∷ [])
  unfolding left_pending
  pending_is_stored txn portal m chat resp hp hb ha ne =
      let (r, hr, hid, hpend, hacts) = sent_lem txn portal m chat resp hp hb ha in
      (r, hr, hpend, rw (hacts, hid) (left (sent_as_lid api wa config net chat resp)))
    where
      id_of : Jid → Str
      id_of j = make_message_id api chat j (request_id api wa config net txn)

      left :
          (b : Bool)
          → remove_text
              (id_of (if b then wa.jid else wa.store_lid))
              (id_of wa.store_lid ∷ id_of wa.jid ∷ [])
            ≡ id_of (if b then wa.store_lid else wa.jid) ∷ []
      left true = remove_first _ _ (λ e. ne e)
      left false = remove_second _ _ ne

  -- The chat is not read, or is the status broadcast with sending off.
  abbrev pub refused : Outcome IdError Jid → Bool
  refused (ok chat) =
      jid_eq chat config.status_broadcast_jid && config.disable_status_broadcast_send
  refused _ = true

  -- Nothing is done with a message, not even announced, exactly if the portal's ID is not read as a
  -- chat or the chat is the status broadcast and sending to it is off.
  pub nothing_done_iff :
      (txn portal : Str) (m : M)
      → ((handle_converted_matrix_message api wa config net txn portal m).actions ≡ [])
        ↔ (refused (parse_portal_id api portal) ≡ true)
  unfolding handle_converted_matrix_message
  nothing_done_iff txn portal m = ground arith
