-- ===== src/Connector/ChatInfo/Chats/Settings.antt =====
-- pkg/connector/chatinfo.go: whose settings of a chat are taken.
use whatsapp.Common.{
  Bool, Option, none, some, ◌≡◌, sym, ap, ◌∙◌, Outcome, ok, err, panic, if◌then◌else◌,
}
use whatsapp.Waid.Jid.{Jid, JidApi}
use whatsapp.Connector.Client.{Client}
use whatsapp.Connector.Conversation.{Conversation}
use whatsapp.Connector.Receive.Event.{UserLocalInfo}
use whatsapp.Connector.ChatInfo.{ChatInfo, blank_info}
use whatsapp.Connector.ChatInfo.Group.{GroupInfo}
use whatsapp.Connector.ChatInfo.Chats.{
  ChatConfig, ChatSettings, Newsletter, InfoError, get_chat_info, with_extras, wrapped_on,
  apply_chat_settings,
}

info_of : Outcome InfoError ChatInfo → ChatInfo
info_of (ok info) = info
info_of _ = blank_info

module _ (api : JidApi) (wa : Client) (config : ChatConfig) where
  -- The user's own settings that the store's settings give.
  abbrev pub own_settings : ChatSettings → UserLocalInfo
  own_settings c = record {
    muted = some c.muted_until_time;
    tag =
        if c.is_pinned
        then some config.pinned_tag
        else if c.is_archived
        then some config.archive_tag
        else none;
  }

  extras_settings :
      (stored : Option Conversation) (c : ChatSettings) (conv : Option Conversation) (is_new : Bool)
      (o : Outcome InfoError ChatInfo) (info : ChatInfo)
      → with_extras api wa config stored (some c) conv is_new o ≡ ok info
      → info.user_local ≡ some (own_settings c)
  unfolding with_extras apply_chat_settings info_of
  extras_settings stored c conv is_new (ok wrapped) info h =
      sym (ap (λ r. (info_of r).user_local) h)
  extras_settings stored c conv is_new (err e) info h = absurd cc
  extras_settings stored c conv is_new panic info h = absurd cc

  -- Where the store has settings of a chat, the mute and the tag of the chat's information are theirs,
  -- whatever the history transfer, the configuration for the status broadcast or a newsletter says.
  pub store_settings_win :
      (get_group : Jid → Option GroupInfo) (get_newsletter : Jid → Option Newsletter)
      (stored : Jid → Option Conversation) (settings : Jid → Option ChatSettings) (j : Jid)
      (conv : Option Conversation) (is_new : Bool) (c : ChatSettings) (info : ChatInfo)
      → settings j ≡ some c
      → get_chat_info api wa config get_group get_newsletter stored settings j conv is_new ≡ ok info
      → info.user_local ≡ some (own_settings c)
  unfolding get_chat_info
  store_settings_win get_group get_newsletter stored settings j conv is_new c info s h =
      extras_settings (stored j) c conv is_new
        (wrapped_on api wa config get_group get_newsletter j j.server) info
        (sym (
            ap
              (λ o.
                with_extras api wa config (stored j) o conv is_new
                  (wrapped_on api wa config get_group get_newsletter j j.server))
              s)
          ∙ h)
