-- ===== src/Msgconv/Keys.antt =====
-- pkg/msgconv/wa-poll.go: the bridge's ID of the message that a WhatsApp key points to.
pub mod Targets
mod Tests
use whatsapp.Common.{
  Bool, true, false, ◌&&◌, ◌||◌, not, Option, none, some, List, [], ◌∷◌, if◌then◌else◌,
}
use whatsapp.Common.Text.{Str, codes, str_eq}
use whatsapp.Waid.Jid.{Server, default_user, hidden_user, bot, group, other, Jid, JidApi, server_eq}
use whatsapp.Waid.Id.{make_message_id}
use whatsapp.Connector.Client.{Client}
use whatsapp.Connector.Ids.{MessageKey}

-- `types.LegacyUserServer`
abbrev pub legacy_user_server : Server
legacy_user_server = other (codes "c.us")

-- `key.GetFromMe()` and `key.GetParticipant()`
abbrev pub get_from_me : MessageKey → Bool
get_from_me key = elim (key.from_me) [ some b ↦ b | none ↦ false ]

abbrev pub get_participant : MessageKey → Str
get_participant key = elim (key.participant) [ some s ↦ s | none ↦ [] ]

-- `lid_for_pn` is the address that `GetLIDForPN` gives, the empty one where it gives none.
module _ (api : JidApi) (wa : Client) (lid_for_pn : Jid → Jid) where
  unless_empty : Jid → Jid → Jid
  unless_empty found sender = if api.is_empty found then sender else found

  -- `rerouteMessageKey`, where there is a store.
  unfoldable pub reroute_message_key : Jid → Jid → Bool → Jid
  unfolding unless_empty
  reroute_message_key chat sender group_lid_addressing =
      if server_eq chat.server default_user && server_eq sender.server hidden_user
      then unless_empty (wa.pn_for_lid sender).0 sender
      else if server_eq chat.server group
          && server_eq sender.server default_user
          && group_lid_addressing
      then unless_empty (lid_for_pn sender) sender
      else sender

  from_legacy : Jid → Jid
  from_legacy j =
      if server_eq j.server legacy_user_server then record j { server = default_user } else j

  -- The sender that a key without a participant points to, in a direct chat; `none` is a key
  -- that cannot be resolved.
  direct_sender : Jid → Jid → Option Jid
  direct_sender chat sender =
      if server_eq chat.server default_user || server_eq chat.server bot
      then (if str_eq sender.user wa.store_jid.user || str_eq sender.user wa.store_lid.user
          then some chat
          else some (api.to_non_ad wa.store_jid))
      else none

  parsed_sender : Option Jid → Option Jid
  unfolding from_legacy
  parsed_sender none = none
  parsed_sender (some j) = some (from_legacy j)

  other_sender : Jid → Jid → Str → Option Jid
  unfolding direct_sender parsed_sender
  other_sender chat sender [] = direct_sender chat sender
  other_sender chat sender (c ∷ participant) = parsed_sender (api.parse_jid (c ∷ participant))

  key_sender : Jid → Jid → MessageKey → Option Jid
  unfolding other_sender
  key_sender chat sender key =
      if get_from_me key then some sender else other_sender chat sender (get_participant key)

  remote_chat : Jid → Option Jid → Jid
  remote_chat chat none = chat
  remote_chat chat (some remote) =
      if not (api.is_empty remote) && server_eq remote.server group then remote else chat

  target_id : Jid → Bool → Str → Option Jid → Str
  unfolding reroute_message_key
  target_id chat group_lid_addressing id none = []
  target_id chat group_lid_addressing id (some sender) =
      make_message_id api chat (reroute_message_key chat sender group_lid_addressing) id

  -- `KeyToMessageID`: the chat and the sender of the message that has the key.
  unfoldable pub key_to_message_id : Jid → Jid → MessageKey → Str
  unfolding target_id remote_chat key_sender
  key_to_message_id chat sender key =
      target_id (remote_chat chat (api.parse_jid key.remote_jid))
        (server_eq sender.server hidden_user) key.key_id
        (key_sender chat (api.to_non_ad sender) key)
