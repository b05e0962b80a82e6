-- ===== src/Connector/Reroute.antt =====
-- `rerouteWAMessage` of pkg/connector/handlewhatsapp.go: messages of hidden-address (LID) chats are
-- moved to the chat of the phone number.
pub mod Moves
use whatsapp.Common.{Bool, true, false, ◌&&◌, not, if◌then◌else◌}
use whatsapp.Waid.Jid.{Jid, JidApi, Server, default_user, hidden_user, bot, server_eq, jid_eq}
use whatsapp.Connector.Client.{Client}

-- The fields of `types.MessageSource` that the code reads.
pub record MessageSource : Type 0 where
  pub chat : Jid
  pub sender : Jid
  pub is_from_me : Bool
  pub sender_alt : Jid
  pub recipient_alt : Jid
  pub broadcast_list_owner : Jid

module _ (api : JidApi) (wa : Client) where
  -- The first `if`: the sender's other address is looked up where the message does not give it.
  fill_sender_alt : MessageSource → MessageSource
  fill_sender_alt info =
      if server_eq info.chat.server hidden_user && api.is_empty info.sender_alt
      then record info { sender_alt = (wa.pn_for_lid info.sender).0 }
      else info

  -- An own message from another device: the sender too may be a hidden address.
  own_sender : MessageSource → MessageSource
  own_sender info =
      if server_eq info.sender.server hidden_user
      then (if api.is_empty info.sender_alt
          then record info {
            sender = record (wa.store_jid) { device = info.sender.device };
            sender_alt = info.sender;
          }
          else record info { sender = info.sender_alt; sender_alt = info.sender })
      else info

  bot_chat : MessageSource → Jid × Bool → MessageSource
  bot_chat info (chat_pn, found) =
      if found && not (api.is_empty chat_pn) then record info { chat = chat_pn } else info

  -- The three branches, on a source whose `sender_alt` has been filled.
  reroute_filled : MessageSource → MessageSource
  reroute_filled info =
      if server_eq info.chat.server hidden_user
        && jid_eq (api.to_non_ad info.sender) info.chat
        && server_eq info.sender_alt.server default_user
      then record info {
        chat = api.to_non_ad info.sender_alt;
        sender = info.sender_alt;
        sender_alt = info.sender;
      }
      else if server_eq info.chat.server hidden_user
          && info.is_from_me
          && server_eq info.recipient_alt.server default_user
      then own_sender (record info { chat = api.to_non_ad info.recipient_alt })
      else if server_eq info.sender.server bot && server_eq info.chat.server hidden_user
      then bot_chat info (wa.pn_for_lid info.chat)
      else info

  unfoldable pub reroute_wa_message : MessageSource → MessageSource
  unfolding fill_sender_alt reroute_filled own_sender bot_chat
  reroute_wa_message info = reroute_filled (fill_sender_alt info)
