-- ===== src/Connector/Send/Chats/Deletion.antt =====
-- The last message of a chat, and what is asked of WhatsApp when a group is deleted.
use whatsapp.Common.{
  ℕ, ◌≡◌, ◌↔◌, ◌⊎◌, refl, arith, Bool, true, false, ◌||◌, Option, none, some, [], ◌∷◌, ok,
}
use whatsapp.Common.{Bool-cases, inl, inr, err, sym, ap, ◌∙◌}
use whatsapp.Common.Text.{Str, str_eq, codes, has_prefix}
use whatsapp.Waid.Jid.{
  Jid, JidApi, non_ad, jid_eq, group, server_eq, IsJidApi, jid_eq_refl, jid_eq→eq,
}
use whatsapp.Waid.Id.{parse_portal_id, make_message_id}
use whatsapp.Waid.Id.RoundTrip.{IsReadable, parse_message_id-make_message_id}
use whatsapp.Connector.Client.{Client}
use whatsapp.Connector.Ids.{MessageKey}
use whatsapp.Connector.Send.Steps.{after, failed}
use whatsapp.Connector.Send.Requests.{Request, leave_group, delete_chat}
use whatsapp.Connector.Send.Chats.{
  get_last_message_info, handle_matrix_delete_chat, delete_after, delete_rest,
}

own_iff : (a b c : Jid) → (some (jid_eq a b || jid_eq a c) ≡ some true) ↔ ((a ≡ b) ⊎ (a ≡ c))
own_iff a b c =
    (λ h. ground (arith, jid_eq→eq a b, jid_eq→eq a c), λ h. ground (arith, jid_eq_refl a))

module _ (api : JidApi) (wa : Client) (accepts : Request → Bool) where
  after_ok :
      (chat : Jid) (info : ℕ × Option MessageKey)
      → (delete_after api wa accepts chat info).result ≡ ok tt
      → (ts : ℕ) × (key : MessageKey) × ((delete_after api wa accepts chat info).actions
          ≡ delete_chat chat ts key ∷ [])
        × (accepts (delete_chat chat ts key) ≡ true)
  unfolding delete_after
  after_ok chat (ts, none) h = cc
  after_ok chat (ts, some key) h = (ts, key, ground arith, ground arith)

  rest_ok :
      (chat : Jid) (last : Option (Option (Str × ℕ)))
      → (delete_rest api wa accepts chat last).result ≡ ok tt
      → (ts : ℕ) × (key : MessageKey) × ((delete_rest api wa accepts chat last).actions
          ≡ delete_chat chat ts key ∷ [])
        × (accepts (delete_chat chat ts key) ≡ true)
  unfolding delete_rest
  rest_ok chat none h = cc
  rest_ok chat (some message) h =
      after_ok chat (get_last_message_info api wa accepts chat message) h

  -- If the deletion of a group that the user is in succeeds, WhatsApp was asked to leave the group
  -- and then to delete the chat, nothing else, and accepted both.
  pub deleted_group :
      (portal : Str) (chat : Jid) (last : Option (Option (Str × ℕ)))
      → parse_portal_id api portal ≡ ok chat
      → chat.server ≡ group
      → (handle_matrix_delete_chat api wa accepts portal (some true) last).result ≡ ok tt
      → (ts : ℕ) × (key : MessageKey) × ((handle_matrix_delete_chat api wa accepts portal
            (some true)
            last).actions
          ≡ leave_group chat ∷ delete_chat chat ts key ∷ [])
        × (accepts (leave_group chat) ≡ true)
        × (accepts (delete_chat chat ts key) ≡ true)
  deleted_group portal chat last hp hg h = elim (Bool-cases (accepts (leave_group chat))) [
    | inl e ↦
        let left : handle_matrix_delete_chat api wa accepts portal (some true) last
            ≡ after (leave_group chat) (delete_rest api wa accepts chat last) =
          unfold handle_matrix_delete_chat in rw (hp, ap (λ s. server_eq s group) hg, e) in
        let (ts, key, acts, took) = rest_ok chat last (sym (ap (λ x. x.result) left) ∙ h) in
        (ts, key, rw (left, acts), e, took)
    | inr e ↦
        let refused : (handle_matrix_delete_chat api wa accepts portal (some true) last).result
            ≡ err failed =
          unfold handle_matrix_delete_chat in rw (hp, ap (λ s. server_eq s group) hg, e) in
        absurd (cc (sym refused ∙ h))
  ]

  -- The key of the last message, stored under the ID that `MakeMessageID` made, has the ID of the
  -- message, and says that it is the user's own exactly if the sender is one of the own addresses,
  -- devices left out, under the conditions of reading an ID back.
  pub last_key :
      (chat sender : Jid) (id : Str) (ts : ℕ)
      → IsJidApi api
      → IsReadable api chat
      → IsReadable api sender
      → str_eq (api.to_string (api.to_non_ad chat)) (codes "fake") ≡ false
      → has_prefix (codes "FAKE::") id ≡ false
      → (key : MessageKey) × (get_last_message_info api wa accepts chat
            (some (make_message_id api chat sender id, ts))
          ≡ (ts, some key))
        × (key.key_id ≡ id)
        × ((key.from_me ≡ some true)
            ↔ ((non_ad sender ≡ non_ad wa.jid) ⊎ (non_ad sender ≡ non_ad wa.store_lid)))
  unfolding get_last_message_info
  last_key chat sender id ts laws rc rs nf nm =
      rw (parse_message_id-make_message_id api chat sender id rc rs nf nm) (
        _,
        refl,
        refl,
        rw
            (
              laws.to_non_ad_lem (non_ad sender),
              laws.to_non_ad_lem wa.jid,
              laws.to_non_ad_lem wa.store_lid,
            )
            (own_iff (non_ad sender) (non_ad wa.jid) (non_ad wa.store_lid)),
      )
