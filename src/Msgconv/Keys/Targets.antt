-- ===== src/Msgconv/Keys/Targets.antt =====
-- pkg/msgconv/wa-poll.go with pkg/connector/id.go: keys that the bridge makes, as it reads them.
use whatsapp.Common.{if_same}
use whatsapp.Common.{
  Bool, true, false, ◌&&◌, ◌||◌, not, Option, none, some, [], ◌∷◌, ◌++◌, if◌then◌else◌, ◌≡◌, ◌≢◌,
  ◌⊎◌, inl, inr, refl, sym, ap, ◌∙◌, arith,
}
use whatsapp.Common.Text.{Str, str_eq}
use whatsapp.Waid.Jid.{
  Server, default_user, hidden_user, bot, group, messenger, Jid, JidApi, IsJidApi, server_eq,
  non_ad,
}
use whatsapp.Waid.Id.{colon, make_message_id}
use whatsapp.Connector.Client.{Client}
use whatsapp.Connector.Ids.{MessageKey, message_id_to_key}
use whatsapp.Msgconv.Keys.{
  key_to_message_id, reroute_message_key, key_sender, other_sender, direct_sender, parsed_sender,
  from_legacy, remote_chat, target_id, legacy_user_server,
}

abbrev pub is_own_user : Client → Str → Bool
is_own_user wa user = str_eq user wa.store_jid.user || str_eq user wa.store_lid.user

-- Text of an address is read back, and is not empty.
abbrev pub ReadsBack : JidApi → Jid → Type 0
ReadsBack api j = (api.parse_jid (api.to_string j) ≡ some j) × (api.to_string j ≢ [])

-- Whom a message in the chat may be from, for the login that reads it with its own address `me`:
-- itself; in a group, someone else whose address reads back and is a phone number only if the own
-- one is no LID; in a direct chat between phone numbers, the other user.
abbrev pub IsSenderIn : JidApi → Client → Jid → Jid → Jid → Type 0
IsSenderIn api wa chat me sender =
    ((is_own_user wa sender.user ≡ true)
      × (non_ad sender ≡ non_ad me)
      × ((server_eq chat.server default_user && server_eq me.server hidden_user) ≡ false))
    ⊎ ((is_own_user wa sender.user ≡ false)
        × (((chat.server ≡ group)
              × ReadsBack api sender
              × ((server_eq sender.server default_user && server_eq me.server hidden_user) ≡ false)
              × (server_eq sender.server legacy_user_server ≡ false))
            ⊎ ((chat.server ≡ default_user) × (non_ad sender ≡ non_ad chat))))

from_me_test : (b : Bool) → elim (if b then some true else none) [ some c ↦ c | none ↦ false ] ≡ b
from_me_test true = refl
from_me_test false = refl

-- The participant of a key, by the server of its chat.
participant_on : Server → Str → Str
participant_on server t =
    elim (if not (server_eq server messenger)
        && not (server_eq server default_user)
        && not (server_eq server hidden_user)
        && not (server_eq server bot)
      then some t
      else none) [ some s ↦ s | none ↦ [] ]

one_server :
    (b : Bool) (s : Server) → (b && server_eq s default_user && server_eq s hidden_user) ≡ false
one_server b s = ground arith

module _ (api : JidApi) (wa : Client) (lid_for_pn : Jid → Jid) where
  remote_same :
      (chat : Jid) (o : Option Jid) → o ≡ some chat → remote_chat api wa lid_for_pn chat o ≡ chat
  unfolding remote_chat
  remote_same chat o h =
      rw h (if_same (not (api.is_empty chat) && server_eq chat.server group) chat)

  no_reroute :
      (chat sender : Jid) (b : Bool)
      → (server_eq chat.server default_user && server_eq sender.server hidden_user) ≡ false
      → (server_eq chat.server group && server_eq sender.server default_user && b) ≡ false
      → reroute_message_key api wa lid_for_pn chat sender b ≡ sender
  unfolding reroute_message_key
  no_reroute chat sender b h k = rw (h, k) refl

  resolves :
      (chat me sender : Jid) (key : MessageKey)
      → api.parse_jid key.remote_jid ≡ some chat
      → key_sender api wa lid_for_pn chat (api.to_non_ad me) key ≡ some sender
      → (server_eq chat.server default_user && server_eq sender.server hidden_user) ≡ false
      → (server_eq chat.server group
          && server_eq sender.server default_user
          && server_eq me.server hidden_user)
        ≡ false
      → key_to_message_id api wa lid_for_pn chat me key ≡ make_message_id api chat sender key.key_id
  unfolding key_to_message_id target_id
  resolves chat me sender key r s h m =
      let lid : Bool = server_eq me.server hidden_user in
      ap
        (λ c.
          target_id api wa lid_for_pn c lid key.key_id
            (key_sender api wa lid_for_pn chat (api.to_non_ad me) key))
        (remote_same chat (api.parse_jid key.remote_jid) r)
      ∙ ap (λ o. target_id api wa lid_for_pn chat lid key.key_id o) s
      ∙ ap (λ j. make_message_id api chat j key.key_id) (no_reroute chat sender lid h m)

  participant_parsed :
      (chat s0 sender : Jid) (t : Str)
      → t ≢ []
      → api.parse_jid t ≡ some sender
      → server_eq sender.server legacy_user_server ≡ false
      → other_sender api wa lid_for_pn chat s0 t ≡ some sender
  unfolding other_sender parsed_sender from_legacy
  participant_parsed chat s0 sender [] n r l = absurd (n refl)
  participant_parsed chat s0 sender (c ∷ t) n r l =
      ap (λ o. parsed_sender api wa lid_for_pn o) r
      ∙ ap (λ b. some (if b then record sender { server = default_user } else sender)) l

  sent_by_other :
      (chat me sender : Jid) (id : Str)
      → is_own_user wa sender.user ≡ false
      → key_sender api wa lid_for_pn chat
          (api.to_non_ad me)
          (message_id_to_key api wa (record { chat = chat; sender = sender; id = id }))
        ≡ other_sender api wa lid_for_pn chat
            (api.to_non_ad me)
            (participant_on chat.server (api.to_string sender))
  unfolding key_sender message_id_to_key participant_on
  sent_by_other chat me sender id o =
      ap
        (λ b.
          if b
          then some (api.to_non_ad me)
          else other_sender api wa lid_for_pn chat (api.to_non_ad me)
              (participant_on chat.server (api.to_string sender)))
        (from_me_test (is_own_user wa sender.user) ∙ o)

  sent_by_me :
      (chat me sender : Jid) (id : Str)
      → is_own_user wa sender.user ≡ true
      → key_sender api wa lid_for_pn chat
          (api.to_non_ad me)
          (message_id_to_key api wa (record { chat = chat; sender = sender; id = id }))
        ≡ some (api.to_non_ad me)
  unfolding key_sender message_id_to_key participant_on
  sent_by_me chat me sender id o =
      ap
        (λ b.
          if b
          then some (api.to_non_ad me)
          else other_sender api wa lid_for_pn chat (api.to_non_ad me)
              (participant_on chat.server (api.to_string sender)))
        (from_me_test (is_own_user wa sender.user) ∙ o)

  in_direct :
      (chat s0 : Jid)
      → chat.server ≡ default_user
      → is_own_user wa s0.user ≡ true
      → other_sender api wa lid_for_pn chat s0 [] ≡ some chat
  unfolding other_sender direct_sender
  in_direct chat s0 g o =
      ap
        (λ s.
          if server_eq s default_user || server_eq s bot
          then (if is_own_user wa s0.user then some chat else some (api.to_non_ad wa.store_jid))
          else none)
        g
      ∙ ap (λ b. if b then some chat else some (api.to_non_ad wa.store_jid)) o

  module _ (laws : IsJidApi api) where
    open laws use {to_non_ad_lem}

    same_non_ad :
        (chat a b : Jid) (id : Str)
        → non_ad a ≡ non_ad b
        → make_message_id api chat a id ≡ make_message_id api chat b id
    unfolding make_message_id
    same_non_ad chat a b id h =
        ap (λ j. api.to_string (api.to_non_ad chat) ++ (colon ∷ (api.to_string j ++ (colon ∷ id))))
          (to_non_ad_lem a ∙ h ∙ sym (to_non_ad_lem b))

    own_target :
        (chat sender me : Jid) (id : Str)
        → ReadsBack api chat
        → is_own_user wa sender.user ≡ true
        → non_ad sender ≡ non_ad me
        → (server_eq chat.server default_user && server_eq me.server hidden_user) ≡ false
        → key_to_message_id api wa lid_for_pn chat me
            (message_id_to_key api wa (record { chat = chat; sender = sender; id = id }))
          ≡ make_message_id api chat sender id
    unfolding message_id_to_key
    own_target chat sender me id rc o n d =
        resolves chat me (api.to_non_ad me)
          (message_id_to_key api wa (record { chat = chat; sender = sender; id = id })) rc.0
          (sent_by_me chat me sender id o)
          (ap (λ j. server_eq chat.server default_user && server_eq j.server hidden_user)
              (to_non_ad_lem me)
            ∙ d)
          (ap
              (λ j.
                server_eq chat.server group
                && server_eq j.server default_user
                && server_eq me.server hidden_user)
              (to_non_ad_lem me)
            ∙ one_server (server_eq chat.server group) me.server)
        ∙ same_non_ad chat (api.to_non_ad me) sender id (ap non_ad (to_non_ad_lem me) ∙ sym n)

    -- A key that the bridge makes for a message leads back to that message's ID, when it is read in
    -- a message of the login's own address `me` in the same chat.
    pub key_target-ReadsBack :
        (chat sender me : Jid) (id : Str)
        → ReadsBack api chat
        → is_own_user wa me.user ≡ true
        → IsSenderIn api wa chat me sender
        → key_to_message_id api wa lid_for_pn chat me
            (message_id_to_key api wa (record { chat = chat; sender = sender; id = id }))
          ≡ make_message_id api chat sender id
    unfolding message_id_to_key participant_on
    key_target-ReadsBack chat sender me id rc w (inl (o, n, d)) =
        own_target chat sender me id rc o n d
    key_target-ReadsBack chat sender me id rc w (inr (o, inl (g, rs, k, l))) =
        resolves chat me sender
          (message_id_to_key api wa (record { chat = chat; sender = sender; id = id })) rc.0
          (sent_by_other chat me sender id o
            ∙ ap
                (λ s.
                  other_sender api wa lid_for_pn chat (api.to_non_ad me)
                    (participant_on s (api.to_string sender)))
                g
            ∙ participant_parsed chat (api.to_non_ad me) sender (api.to_string sender) rs.1 rs.0 l)
          (ap (λ s. server_eq s default_user && server_eq sender.server hidden_user) g)
          (ap
              (λ s.
                server_eq s group
                && server_eq sender.server default_user
                && server_eq me.server hidden_user)
              g
            ∙ k)
    key_target-ReadsBack chat sender me id rc w (inr (o, inr (g, n))) =
        resolves chat me chat
          (message_id_to_key api wa (record { chat = chat; sender = sender; id = id })) rc.0
          (sent_by_other chat me sender id o
            ∙ ap
                (λ s.
                  other_sender api wa lid_for_pn chat (api.to_non_ad me)
                    (participant_on s (api.to_string sender)))
                g
            ∙ in_direct chat (api.to_non_ad me) g
                (ap (λ j. is_own_user wa j.user) (to_non_ad_lem me) ∙ w))
          (ap (λ s. server_eq s default_user && server_eq s hidden_user) g)
          (ap
            (λ s. server_eq s group && server_eq s default_user && server_eq me.server hidden_user)
            g)
        ∙ same_non_ad chat chat sender id (sym n)
