-- ===== src/Connector/Ids.antt =====
-- pkg/connector/id.go: portal keys, event senders and WhatsApp message keys.
pub mod Sharing
use whatsapp.Common.{
  ℕ, ◌≡◌, ◌≢◌, ◌↔◌, ◌⊎◌, inl, inr, refl, arith, Bool, true, false, ◌&&◌, ◌||◌, not,
}
use whatsapp.Common.{Option, none, some, [], if◌then◌else◌}
use whatsapp.Common.Text.{Str, str_eq}
use whatsapp.Waid.Jid.{
  Server, default_user, hidden_user, bot, group, broadcast, newsletter, messenger, other, Jid,
  JidApi, empty_jid, server_eq,
}
use whatsapp.Waid.Id.{ParsedMessageId, make_portal_id, make_user_id, make_user_login_id}
use whatsapp.Connector.Client.{Client}

pub record PortalKey : Type 0 where
  pub id : Str
  pub receiver : Str

pub record EventSender : Type 0 where
  pub is_from_me : Bool
  pub sender : Str
  pub sender_login : Str

abbrev pub blank_sender : EventSender
blank_sender = record { is_from_me = false; sender = []; sender_login = [] }

-- The `switch` of `makeWAPortalKey`: the receiver of a chat on this server.
unfoldable pub key_receiver : Server → Client → Str
key_receiver default_user wa = wa.login_id
key_receiver bot wa = wa.login_id
key_receiver hidden_user wa = wa.login_id
key_receiver broadcast wa = wa.login_id
key_receiver _ wa = if wa.split_portals then wa.login_id else []

-- The optional fields of `waCommon.MessageKey`.
pub record MessageKey : Type 0 where
  pub remote_jid : Str
  pub key_id : Str
  pub from_me : Option Bool
  pub participant : Option Str

module _ (api : JidApi) (wa : Client) where
  unfoldable pub make_wa_portal_key : Jid → PortalKey
  make_wa_portal_key chat = record {
    id = make_portal_id api chat;
    receiver = key_receiver chat.server wa;
  }

  pn_or_empty : Jid × Bool → Jid
  pn_or_empty (pn, found) = if found && not (api.is_empty pn) then pn else empty_jid

  -- `senderLoginJID` in `makeEventSender`
  sender_login_jid : Jid → Jid
  unfolding pn_or_empty
  sender_login_jid id =
      if wa.split_portals
      then empty_jid
      else if server_eq id.server default_user
      then id
      else if server_eq id.server hidden_user
      then pn_or_empty (wa.pn_for_lid id)
      else empty_jid

  unfoldable pub make_event_sender : Jid → EventSender
  unfolding sender_login_jid
  make_event_sender id = if server_eq id.server newsletter then blank_sender else record {
    is_from_me = str_eq id.user wa.store_jid.user || str_eq id.user wa.store_lid.user;
    sender = make_user_id id;
    sender_login = make_user_login_id (sender_login_jid id);
  }

  unfoldable pub message_id_to_key : ParsedMessageId → MessageKey
  message_id_to_key id = record {
    remote_jid = api.to_string id.chat;
    key_id = id.id;
    from_me =
        if str_eq id.sender.user wa.store_jid.user || str_eq id.sender.user wa.store_lid.user
        then some true
        else none;
    participant =
        if not (server_eq id.chat.server messenger)
          && not (server_eq id.chat.server default_user)
          && not (server_eq id.chat.server hidden_user)
          && not (server_eq id.chat.server bot)
        then some (api.to_string id.sender)
        else none;
  }
