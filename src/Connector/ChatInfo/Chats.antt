-- ===== src/Connector/ChatInfo/Chats.antt =====
-- pkg/connector/chatinfo.go: direct chats, the status broadcast, newsletters, the settings of a
-- chat, and `getChatInfo` over them.
pub mod Settings
use whatsapp.Common.{
  ℕ, zero, suc, Bool, true, false, ◌&&◌, ◌||◌, not, Option, none, some, List, [], ◌∷◌, ◌++◌,
}
use whatsapp.Common.{if◌then◌else◌, ltb, Outcome, ok, err}
use whatsapp.Common.Text.{Str, codes, str_eq}
use whatsapp.Waid.Jid.{
  Server, default_user, hidden_user, bot, group, broadcast, newsletter, messenger, other, Jid,
  JidApi, jid_eq, server_eq,
}
use whatsapp.Waid.Id.{make_user_id}
use whatsapp.Connector.Client.{Client}
use whatsapp.Connector.Ids.{make_event_sender, blank_sender}
use whatsapp.Connector.Conversation.{Conversation}
use whatsapp.Connector.Receive.Event.{
  UserLocalInfo, MutedUntil, muted_forever, unmuted, muted_until,
}
use whatsapp.Connector.ChatInfo.{
  ChatMember, MemberMap, set_member, plain_member, EventType, room_name, room_avatar, room_topic,
  reaction, redaction, disappearing_timer, PowerLevels, no_levels, nobody_pl, super_admin_pl,
  admin_pl, default_pl, ChatMembers, dm_room, default_room, Disappearing,
  update_disappearing_timer_set_at, update_portal_last_sync_at, Avatar, ChatInfo, blank_info,
}
use whatsapp.Connector.ChatInfo.Group.{GroupInfo, wrap_group_info}

-- The configuration that this file reads.
pub record ChatConfig : Type 0 where
  pub pinned_tag : Str
  pub archive_tag : Str
  pub status_broadcast_tag : Str
  pub mute_status_broadcast : Bool
  pub status_broadcast_jid : Jid

-- `types.LocalChatSettings`
pub record ChatSettings : Type 0 where
  pub muted_until_time : MutedUntil
  pub is_pinned : Bool
  pub is_archived : Bool

tag_of : ChatConfig → Bool → Bool → Option Str
tag_of config pinned archived =
    if pinned then some config.pinned_tag else if archived then some config.archive_tag else none

-- `applyChatSettings`, on what the store answers.
unfoldable pub apply_chat_settings : ChatConfig → Option ChatSettings → ChatInfo → ChatInfo
unfolding tag_of
apply_chat_settings config none info = info
apply_chat_settings config (some c) info = record info {
  user_local =
      some
        (record { muted = some c.muted_until_time; tag = tag_of config c.is_pinned c.is_archived });
}

-- `ptr.Val`
abbrev pub val_bool : Option Bool → Bool
val_bool none = false
val_bool (some b) = b

-- The zero time is that of a chat that is not muted.
abbrev pub mute_time : Option ℕ → MutedUntil
mute_time none = unmuted
mute_time (some t) = muted_until t

with_timer : Option Disappearing → Option ℕ → Option ℕ → ChatInfo → ChatInfo
with_timer (some d) expiration set_at info = info
with_timer none none set_at info = info
with_timer none (some zero) set_at info = info
with_timer none (some (suc n)) none info = record info {
  disappear = some (record { after_send = true; timer = suc n });
}
with_timer none (some (suc n)) (some ts) info = record info {
  disappear = some (record { after_send = true; timer = suc n });
  extra_updates = info.extra_updates ++ (update_disappearing_timer_set_at ts ∷ []);
}

-- `applyHistoryInfo`
unfoldable pub apply_history_info : ChatConfig → Option Conversation → ChatInfo → ChatInfo
unfolding tag_of with_timer
apply_history_info config none info = info
apply_history_info config (some conv) info =
    with_timer info.disappear conv.ephemeral_expiration conv.ephemeral_setting_timestamp
      (record info {
        can_backfill = true;
        user_local = some (record {
          muted = some (mute_time conv.mute_end_time);
          tag = tag_of config (val_bool conv.pinned) (val_bool conv.archived);
        });
      })

-- The conversation that is given, or else what the database answers.
stored_or : Option Conversation → Option Conversation → Option Conversation
stored_or (some conv) stored = some conv
stored_or none stored = stored

-- `addExtrasToWrapped`, with what the database has of the chat and its settings in the store.
unfoldable pub add_extras_to_wrapped :
    ChatConfig
    → Option Conversation
    → Option ChatSettings
    → Option Conversation
    → Bool
    → ChatInfo
    → ChatInfo
unfolding apply_chat_settings apply_history_info stored_or
add_extras_to_wrapped config stored settings conv is_new info =
    apply_chat_settings config settings
      (if is_new then apply_history_info config (stored_or conv stored) info else info)

-- `types.NewsletterMetadata`, as far as it is read; a picture is its ID.
pub data Role : Type 0 where
  role_admin role_owner role_other : Role

pub data NewsletterMute : Type 0 where
  mute_on mute_off mute_other : NewsletterMute

pub record Newsletter : Type 0 where
  pub viewer : Option (Role × NewsletterMute)
  pub picture : Option Str
  pub preview : Str
  pub title : Str
  pub description : Str
  pub subscriber_count : ℕ

own_level : Option (Role × NewsletterMute) → ℕ
own_level (some (role_admin, m)) = admin_pl
own_level (some (role_owner, m)) = super_admin_pl
own_level _ = default_pl

own_mute : Option (Role × NewsletterMute) → Option MutedUntil
own_mute (some (r, mute_on)) = some muted_forever
own_mute (some (r, mute_off)) = some unmuted
own_mute _ = none

newsletter_avatar : Option Str → Str → Avatar
newsletter_avatar (some id) preview = record { avatar_id = id; remove = false }
newsletter_avatar none preview =
    if str_eq preview []
    then record { avatar_id = codes "remove"; remove = true }
    else record { avatar_id = preview; remove = false }

newsletter_events : EventType → Option ℕ
newsletter_events room_name = some admin_pl
newsletter_events room_avatar = some admin_pl
newsletter_events room_topic = some admin_pl
newsletter_events reaction = some default_pl
newsletter_events redaction = some default_pl
newsletter_events disappearing_timer = none

direct_events : EventType → Option ℕ
direct_events room_name = some 0
direct_events room_avatar = some 0
direct_events room_topic = some 0
direct_events disappearing_timer = some 0
direct_events _ = none

pub data InfoError : Type 0 where
  broadcast_list_unsupported unsupported_server request_failed : InfoError

module _ (api : JidApi) (wa : Client) (config : ChatConfig) where
  own_member : MemberMap
  own_member = (make_user_id wa.jid, plain_member (make_event_sender api wa wa.jid)) ∷ []

  -- The members of a direct chat; a chat with oneself has the own ghost and the own login.
  unfoldable pub dm_members : Jid → MemberMap
  unfolding set_member own_member
  dm_members jid =
      if jid_eq jid (api.to_non_ad wa.jid)
      then (make_user_id jid, plain_member (record blank_sender { sender = make_user_id jid }))
        ∷ (([], plain_member (record blank_sender { is_from_me = true })) ∷ [])
      else set_member (make_user_id wa.jid) (plain_member (make_event_sender api wa wa.jid))
          ((make_user_id jid, plain_member (make_event_sender api wa jid)) ∷ [])

  -- `wrapDMInfo`
  unfoldable pub wrap_dm_info : Jid → ChatInfo
  unfolding dm_members direct_events
  wrap_dm_info jid = record blank_info {
    topic = some (
        if server_eq jid.server bot
        then codes "WhatsApp chat with a bot"
        else codes "WhatsApp private chat");
    members = some (record {
      is_full = true;
      total_member_count = 2;
      other_user_id = make_user_id jid;
      member_map = dm_members jid;
      power_levels = some (record no_levels { events = direct_events });
    });
    room_type = some dm_room;
  }

  -- `wrapStatusBroadcastInfo`
  unfoldable pub wrap_status_broadcast_info : ChatInfo
  unfolding own_member
  wrap_status_broadcast_info = record blank_info {
    name = some (codes "WhatsApp Status Broadcast");
    topic = some (codes "WhatsApp status updates from your contacts");
    members = some (record {
      is_full = false;
      total_member_count = 0;
      other_user_id = [];
      member_map = own_member;
      power_levels = none;
    });
    room_type = some default_room;
    user_local = some (record {
      muted = if config.mute_status_broadcast then some muted_forever else none;
      tag =
          if str_eq config.status_broadcast_tag [] then none else some config.status_broadcast_tag;
    });
  }

  -- `wrapNewsletterInfo`
  unfoldable pub wrap_newsletter_info : Newsletter → ChatInfo
  unfolding own_level own_mute newsletter_avatar newsletter_events
  wrap_newsletter_info info = record blank_info {
    name = some info.title;
    topic = some info.description;
    avatar = some (newsletter_avatar info.picture info.preview);
    user_local = some (record { muted = own_mute info.viewer; tag = none });
    members = some (record {
      is_full = false;
      total_member_count = info.subscriber_count;
      other_user_id = [];
      member_map =
          (
            make_user_id wa.jid,
            record (plain_member (make_event_sender api wa wa.jid)) {
              power_level = some (own_level info.viewer);
            },
          )
          ∷ [];
      power_levels = some (record {
        events_default = some admin_pl;
        state_default = some nobody_pl;
        ban = some nobody_pl;
        events = newsletter_events;
      });
    });
    room_type = some default_room;
  }

  synced_group : GroupInfo → ChatInfo
  synced_group info =
      let wrapped : ChatInfo = wrap_group_info api wa info in
      record wrapped { extra_updates = wrapped.extra_updates ++ (update_portal_last_sync_at ∷ []) }

  wrapped_or_failed : {A : Type 0} → (A → ChatInfo) → Option A → Outcome InfoError ChatInfo
  wrapped_or_failed f none = err request_failed
  wrapped_or_failed f (some a) = ok (f a)

  -- The `switch` of `getChatInfo`; the two functions are the answers of WhatsApp.
  wrapped_on :
      (Jid → Option GroupInfo)
      → (Jid → Option Newsletter)
      → Jid
      → Server
      → Outcome InfoError ChatInfo
  unfolding wrap_dm_info wrap_status_broadcast_info wrap_newsletter_info synced_group
      wrapped_or_failed
  wrapped_on get_group get_newsletter j default_user = ok (wrap_dm_info j)
  wrapped_on get_group get_newsletter j hidden_user = ok (wrap_dm_info j)
  wrapped_on get_group get_newsletter j bot = ok (wrap_dm_info j)
  wrapped_on get_group get_newsletter j broadcast =
      if jid_eq j config.status_broadcast_jid
      then ok wrap_status_broadcast_info
      else err broadcast_list_unsupported
  wrapped_on get_group get_newsletter j group = wrapped_or_failed synced_group (get_group j)
  wrapped_on get_group get_newsletter j newsletter =
      wrapped_or_failed wrap_newsletter_info (get_newsletter j)
  wrapped_on get_group get_newsletter j messenger = err unsupported_server
  wrapped_on get_group get_newsletter j (other s) = err unsupported_server

  with_extras :
      Option Conversation
      → Option ChatSettings
      → Option Conversation
      → Bool
      → Outcome InfoError ChatInfo
      → Outcome InfoError ChatInfo
  unfolding add_extras_to_wrapped
  with_extras stored settings conv is_new (ok info) =
      ok (add_extras_to_wrapped config stored settings conv is_new info)
  with_extras stored settings conv is_new r = r

  -- `getChatInfo`
  unfoldable pub get_chat_info :
      (Jid → Option GroupInfo)
      → (Jid → Option Newsletter)
      → (Jid → Option Conversation)
      → (Jid → Option ChatSettings)
      → Jid
      → Option Conversation
      → Bool
      → Outcome InfoError ChatInfo
  unfolding wrapped_on with_extras
  get_chat_info get_group get_newsletter stored settings j conv is_new =
      with_extras (stored j) (settings j) conv is_new
        (wrapped_on get_group get_newsletter j j.server)
