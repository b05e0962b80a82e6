-- ===== src/Connector/Reroute/Moves.antt =====
-- Where `rerouteWAMessage` moves a message.
use whatsapp.Common.{◌≡◌, ◌≢◌, ◌⊎◌, inl, inr, sym, ◌∙◌, ap, arith, false}
use whatsapp.Common.{Bool-cases}
use whatsapp.Waid.Jid.{
  Server, JidApi, IsJidApi, default_user, hidden_user, server_eq, server_eq→eq, jid_eq_refl,
}
use whatsapp.Connector.Client.{Client, IsPnLookup}
use whatsapp.Connector.Reroute.{
  MessageSource, reroute_wa_message, fill_sender_alt, reroute_filled, own_sender, bot_chat,
}

server_eq_ne : (s t : Server) → s ≢ t → server_eq s t ≡ false
server_eq_ne s t n = elim (Bool-cases (server_eq s t)) [
  | inl e ↦ absurd (n (server_eq→eq s t e))
  | inr e ↦ e
]

module _ (api : JidApi) (wa : Client) where
  filled_other :
      (info : MessageSource)
      → server_eq info.chat.server hidden_user ≡ false
      → reroute_filled api wa info ≡ info
  unfolding reroute_filled
  filled_other info e = ground arith

  -- A message of a chat that is not at a hidden address stays as it is.
  pub reroute_other_server :
      (info : MessageSource)
      → info.chat.server ≢ hidden_user
      → reroute_wa_message api wa info ≡ info
  unfolding reroute_wa_message
  reroute_other_server info n =
      let e = server_eq_ne info.chat.server hidden_user n in rw e (filled_other info e)

  -- In a chat with one hidden address, a message of that user whose phone number comes with it goes
  -- to the chat of the number, with the number as its sender.
  pub reroute_direct :
      (info : MessageSource)
      → info.chat.server ≡ hidden_user
      → api.to_non_ad info.sender ≡ info.chat
      → api.is_empty info.sender_alt ≡ false
      → info.sender_alt.server ≡ default_user
      → reroute_wa_message api wa info ≡ record info {
        chat = api.to_non_ad info.sender_alt;
        sender = info.sender_alt;
        sender_alt = info.sender;
      }
  unfolding reroute_wa_message
  reroute_direct info hs hc he ha = ground (arith, jid_eq_refl info.chat)

  module _ (laws : IsJidApi api) (lookup : IsPnLookup api wa) where
    open laws use {to_non_ad_lem}

    own_sender-chat : (info : MessageSource) → (own_sender api wa info).chat ≡ info.chat
    unfolding own_sender
    own_sender-chat info = ground arith

    own_settles :
        (info : MessageSource)
        → info.recipient_alt.server ≡ default_user
        → (own_sender api wa (record info { chat = api.to_non_ad info.recipient_alt })).chat.server
          ≡ default_user
    own_settles info e =
        ap (λ j. j.server)
          (own_sender-chat (record info { chat = api.to_non_ad info.recipient_alt })
            ∙ to_non_ad_lem info.recipient_alt)
        ∙ e

    bot_settles :
        (info : MessageSource)
        → ((bot_chat api wa info (wa.pn_for_lid info.chat)).chat.server ≡ default_user)
          ⊎ (bot_chat api wa info (wa.pn_for_lid info.chat) ≡ info)
    unfolding bot_chat
    bot_settles info = ground (arith, lookup info.chat)

    filled_settles :
        (info : MessageSource)
        → ((reroute_filled api wa info).chat.server ≡ default_user)
          ⊎ (reroute_filled api wa info ≡ info)
    unfolding reroute_filled
    filled_settles info = ground (
      arith,
      to_non_ad_lem info.sender_alt,
      own_settles info,
      bot_settles info,
      server_eq→eq info.sender_alt.server default_user,
      server_eq→eq info.recipient_alt.server default_user,
    )

    fill_twice :
        (info : MessageSource)
        → fill_sender_alt api wa (fill_sender_alt api wa info) ≡ fill_sender_alt api wa info
    unfolding fill_sender_alt
    fill_twice info = ground arith

    away :
        (info : MessageSource)
        → (reroute_filled api wa (fill_sender_alt api wa info)).chat.server ≡ default_user
        → (reroute_wa_message api wa info).chat.server ≢ hidden_user
    unfolding reroute_wa_message
    away info moved = λ e. cc (sym moved ∙ e)

    left_again :
        (info : MessageSource)
        → reroute_filled api wa (fill_sender_alt api wa info) ≡ fill_sender_alt api wa info
        → reroute_wa_message api wa (reroute_wa_message api wa info)
          ≡ reroute_wa_message api wa info
    left_again info left =
        let once : reroute_wa_message api wa info ≡ fill_sender_alt api wa info =
          unfold reroute_wa_message in left in
        rw once (unfold reroute_wa_message in (rw (fill_twice info) left))

    -- Rerouting a message twice is rerouting it once, if the store's lookup answers with a phone
    -- number or an empty address and `ToNonAD` drops the device.
    pub reroute_idem :
        (info : MessageSource)
        → reroute_wa_message api wa (reroute_wa_message api wa info)
          ≡ reroute_wa_message api wa info
    reroute_idem info = elim (filled_settles (fill_sender_alt api wa info)) [
      | inl moved ↦ reroute_other_server (reroute_wa_message api wa info) (away info moved)
      | inr left ↦ left_again info left
    ]
