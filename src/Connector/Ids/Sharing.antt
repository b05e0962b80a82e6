-- ===== src/Connector/Ids/Sharing.antt =====
-- Which logins share a portal, who a sender is, and when a message key names a participant.
use whatsapp.Common.{
  ◌≡◌, ◌↔◌, ◌⊎◌, inl, inr, refl, arith, Bool, true, false, ◌&&◌, ◌||◌, not, ap, Bool-cases,
}
use whatsapp.Common.{none, some, [], if◌then◌else◌, ◌∙◌, sym}
use whatsapp.Common.Text.{Str, str_eq, str_eq→eq, str_eq_refl}
use whatsapp.Waid.Jid.{
  Server, default_user, hidden_user, bot, group, broadcast, newsletter, messenger, other, Jid,
  JidApi, IsJidApi, non_ad, server_eq,
}
use whatsapp.Waid.Id.{ParsedMessageId, parse_user_id, make_portal_id}
use whatsapp.Waid.Id.RoundTrip.{HasUserId, parse_user_id-make_user_id}
use whatsapp.Connector.Client.{Client}
use whatsapp.Connector.Ids.{key_receiver, make_wa_portal_key, make_event_sender, message_id_to_key}

-- The servers whose chats belong to one login each.
pub data IsPersonal : Server → Type 0 where
  personal_user : IsPersonal default_user
  personal_bot : IsPersonal bot
  personal_lid : IsPersonal hidden_user
  personal_broadcast : IsPersonal broadcast

-- Two receivers of a chat on a server are the same.
abbrev Shared : Server → Client → Client → Type 0
Shared s a b = (a.login_id ≡ b.login_id) ⊎ ((¬ IsPersonal s) × (a.split_portals ≡ false))

abbrev SameReceiver : Server → Client → Client → Type 0
SameReceiver s a b = key_receiver s a ≡ key_receiver s b

personal_receiver :
    (s : Server) (a b : Client)
    → IsPersonal s
    → (key_receiver s a ≡ a.login_id)
    → (key_receiver s b ≡ b.login_id)
    → SameReceiver s a b ↔ Shared s a b
personal_receiver s a b p ea eb =
    (λ e. inl (sym ea ∙ e ∙ eb), elim [ inl e ↦ ea ∙ e ∙ sym eb | inr (n, _) ↦ absurd (n p) ])

abbrev split_receiver : Client → Str
split_receiver a = if a.split_portals then a.login_id else []

Shared-receiver :
    (s : Server) (a b : Client)
    → (¬ IsPersonal s)
    → a.split_portals ≡ b.split_portals
    → (split_receiver a ≡ split_receiver b) ↔ Shared s a b
Shared-receiver s a b n same = elim (Bool-cases a.split_portals) [
  | inl e ↦ rw (← same, e) ((λ h. inl h), elim [ inl h ↦ h | inr (_, f) ↦ cc ])
  | inr e ↦ rw (← same, e) ((λ h. inr (n, refl)), λ h. refl)
]

SameReceiver-iff :
    (s : Server) (a b : Client)
    → a.split_portals ≡ b.split_portals
    → SameReceiver s a b ↔ Shared s a b
unfolding key_receiver
SameReceiver-iff default_user a b e = personal_receiver _ a b personal_user refl refl
SameReceiver-iff bot a b e = personal_receiver _ a b personal_bot refl refl
SameReceiver-iff hidden_user a b e = personal_receiver _ a b personal_lid refl refl
SameReceiver-iff broadcast a b e = personal_receiver _ a b personal_broadcast refl refl
SameReceiver-iff group a b e = Shared-receiver group a b (λ p. elim p [ ]) e
SameReceiver-iff newsletter a b e = Shared-receiver newsletter a b (λ p. elim p [ ]) e
SameReceiver-iff messenger a b e = Shared-receiver messenger a b (λ p. elim p [ ]) e
SameReceiver-iff (other x) a b e = Shared-receiver (other x) a b (λ p. elim p [ ]) e

-- For logins with the same `split_portals` setting, the portals of a chat are the same one exactly
-- when the logins are the same or the setting is off and the chat is on a shared server.
pub shared_portal_iff :
    (api : JidApi) (a b : Client) (chat : Jid)
    → a.split_portals ≡ b.split_portals
    → (make_wa_portal_key api a chat ≡ make_wa_portal_key api b chat)
      ↔ ((a.login_id ≡ b.login_id) ⊎ ((¬ IsPersonal chat.server) × (a.split_portals ≡ false)))
unfolding make_wa_portal_key
shared_portal_iff api a b chat same =
    let (to, from) = SameReceiver-iff chat.server a b same in
    (
      λ e. to (ap (λ k. k.receiver) e),
      λ h. ap (λ r. record { id = make_portal_id api chat; receiver = r }) (from h),
    )

-- The servers whose message keys name no participant: one-to-one chats.
pub data IsDirect : Server → Type 0 where
  direct_messenger : IsDirect messenger
  direct_user : IsDirect default_user
  direct_lid : IsDirect hidden_user
  direct_bot : IsDirect bot

own_user_iff : (u a b : Str) → ((str_eq u a || str_eq u b) ≡ true) ↔ ((u ≡ a) ⊎ (u ≡ b))
own_user_iff u a b = (to, from)
  where
    to : (str_eq u a || str_eq u b) ≡ true → (u ≡ a) ⊎ (u ≡ b)
    to h = ground (arith, str_eq→eq u a, str_eq→eq u b)

    from : (u ≡ a) ⊎ (u ≡ b) → (str_eq u a || str_eq u b) ≡ true
    from h = ground (arith, str_eq_refl u)

some-true_iff : (t : Bool) → ((if t then some true else none) ≡ some true) ↔ (t ≡ true)
some-true_iff t = ground arith

participant_iff :
    (s : Server) (text : Str)
    → ((if not (server_eq s messenger)
            && not (server_eq s default_user)
            && not (server_eq s hidden_user)
            && not (server_eq s bot)
          then some text
          else none)
        ≡ none)
      ↔ IsDirect s
participant_iff messenger text = (λ _. direct_messenger, λ _. refl)
participant_iff default_user text = (λ _. direct_user, λ _. refl)
participant_iff hidden_user text = (λ _. direct_lid, λ _. refl)
participant_iff bot text = (λ _. direct_bot, λ _. refl)
participant_iff group text = (λ e. cc, λ d. elim d [ ])
participant_iff broadcast text = (λ e. cc, λ d. elim d [ ])
participant_iff newsletter text = (λ e. cc, λ d. elim d [ ])
participant_iff (other x) text = (λ e. cc, λ d. elim d [ ])

HasUserId-ne_newsletter : (s : Server) (u : Str) → HasUserId s u → server_eq s newsletter ≡ false
HasUserId-ne_newsletter newsletter u h = absurd h
HasUserId-ne_newsletter _ u h = refl

module _ (api : JidApi) (wa : Client) where
  -- A message key says that the message is the user's own exactly when the sender's user is one of
  -- the login's two addresses.
  pub message_key_from_me :
      (id : ParsedMessageId)
      → ((message_id_to_key api wa id).from_me ≡ some true)
        ↔ ((id.sender.user ≡ wa.store_jid.user) ⊎ (id.sender.user ≡ wa.store_lid.user))
  unfolding message_id_to_key
  message_key_from_me id =
      let (own, own') = own_user_iff id.sender.user wa.store_jid.user wa.store_lid.user in
      let (says, says') =
        some-true_iff
          (str_eq id.sender.user wa.store_jid.user || str_eq id.sender.user wa.store_lid.user) in
      (λ h. own (says h), λ h. says' (own' h))

  -- A message key names the sender exactly when the chat is not direct.
  pub message_key_participant :
      (id : ParsedMessageId)
      → ((message_id_to_key api wa id).participant ≡ none) ↔ IsDirect id.chat.server
  unfolding message_id_to_key
  message_key_participant id = participant_iff id.chat.server (api.to_string id.sender)

  -- The sender of an event, of an address that has a user ID, is read back as the address without
  -- its device; it is the user's own exactly when its user is that of one of the login's two
  -- addresses.
  pub event_sender_reads_back :
      (id : Jid)
      → IsJidApi api
      → HasUserId id.server id.user
      → (parse_user_id api (make_event_sender api wa id).sender ≡ non_ad id)
        × (((make_event_sender api wa id).is_from_me ≡ true)
            ↔ ((id.user ≡ wa.store_jid.user) ⊎ (id.user ≡ wa.store_lid.user)))
  unfolding make_event_sender
  event_sender_reads_back id laws h =
      rw (HasUserId-ne_newsletter id.server id.user h)
        (parse_user_id-make_user_id api laws id h, own_user_iff _ _ _)
