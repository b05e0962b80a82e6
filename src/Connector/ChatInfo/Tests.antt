-- ===== src/Connector/ChatInfo/Tests.antt =====
-- Runs of the information about chats on concrete data, and its theorems at concrete inputs.
use whatsapp.Common.{true, false, Option, none, some, [], ◌∷◌, ◌≡◌, ◌↔◌, ◌⊎◌, refl}
use whatsapp.Common.Text.{codes}
use whatsapp.Waid.Jid.{Jid, empty_jid}
use whatsapp.Waid.Id.{make_user_id}
use whatsapp.Waid.DbMeta.{PortalMetadata, mode_lid, mode_pn}
use whatsapp.Waid.Sample.{sample_api, alice}
use whatsapp.Connector.Sample.{client, bob, bob_lid, status_chat}
use whatsapp.Connector.Conversation.{Conversation}
use whatsapp.Connector.Receive.Event.{unmuted}
use whatsapp.Connector.ChatInfo.{
  ChatInfo, ChatMembers, find_member, set_topic_id, Updater, room_name, room_avatar, room_topic,
  disappearing_timer,
}
use whatsapp.Connector.ChatInfo.Group.{
  GroupInfo, Participant, joined, left, wrap_group_info, add_participants, add_participant,
}
use whatsapp.Connector.ChatInfo.Change.{GroupChange}
use whatsapp.Connector.ChatInfo.Change.Levels.{changed_levels, synced_levels}
use whatsapp.Connector.ChatInfo.Change.Levels.{announce_matches_sync_iff, locked_matches_sync}
use whatsapp.Connector.ChatInfo.Chats.{
  ChatConfig, ChatSettings, Newsletter, get_chat_info, wrap_status_broadcast_info,
}
use whatsapp.Connector.ChatInfo.Chats.Settings.{store_settings_win, own_settings}
use whatsapp.Connector.ChatInfo.Picture.{portal_avatar, picture_not_set}
use whatsapp.Connector.ChatInfo.Members.{group_member_joined}

abbrev hidden_bob : Participant
hidden_bob = record { jid = bob_lid; phone_number = bob; is_admin = true; is_super_admin = false }

abbrev plain_alice : Participant
plain_alice = record {
  jid = alice;
  phone_number = empty_jid;
  is_admin = false;
  is_super_admin = true;
}

abbrev community : GroupInfo
community = record {
  name = codes "Friends";
  topic = codes "Topic";
  topic_id = codes "T1";
  is_locked = false;
  is_announce = false;
  is_default_sub_group = false;
  is_incognito = false;
  is_parent = false;
  addressing_mode = mode_lid;
  disappearing_timer = 0;
  linked_parent_jid = empty_jid;
  participants = hidden_bob ∷ plain_alice ∷ [];
}

-- The ghost of the phone number that a participant hides leaves.
phone_leaves :
    find_member (make_user_id bob) (add_participants sample_api client community.participants [])
    ≡ some (left sample_api client bob)
unfolding add_participants add_participant find_member make_user_id
phone_leaves = refl

group_member_joined_example :
    (ms : ChatMembers) × ((wrap_group_info sample_api client community).members ≡ some ms)
    × (find_member (make_user_id bob_lid) ms.member_map
        ≡ some (joined sample_api client hidden_bob))
group_member_joined_example =
    group_member_joined sample_api client community [] (plain_alice ∷ []) hidden_bob refl
      (unfold make_user_id in refl) (unfold make_user_id in ((refl, refl), tt))

abbrev both_on : GroupChange
both_on = record {
  name = none;
  topic = none;
  locked = some true;
  announce = some true;
  ephemeral = none;
  unlink = false;
  link = none;
  joined = [];
  left = [];
  promoted = alice ∷ [];
  demoted = [];
}

abbrev announcing : GroupInfo
announcing = record community { is_announce = true }

abbrev locked_community : GroupInfo
locked_community = record community { is_locked = true }

announce_matches_sync_iff_example :
    ((changed_levels sample_api client both_on).events_default
      ≡ (synced_levels sample_api client announcing).events_default)
    ↔ ((true ≡ false) ⊎ (community.is_default_sub_group ≡ false))
announce_matches_sync_iff_example =
    announce_matches_sync_iff sample_api client both_on community true refl

locked_matches_sync_example :
    ((changed_levels sample_api client both_on).events room_name
      ≡ (synced_levels sample_api client locked_community).events room_name)
    × ((changed_levels sample_api client both_on).events room_avatar
        ≡ (synced_levels sample_api client locked_community).events room_avatar)
    × ((changed_levels sample_api client both_on).events room_topic
        ≡ (synced_levels sample_api client locked_community).events room_topic)
    × ((changed_levels sample_api client both_on).events disappearing_timer ≡ none)
    × ((synced_levels sample_api client locked_community).events disappearing_timer
        ≡ (synced_levels sample_api client locked_community).events room_name)
locked_matches_sync_example = locked_matches_sync sample_api client both_on community true refl

abbrev portal_meta : PortalMetadata
portal_meta = record {
  disappearing_timer_set_at = 0;
  topic_id = [];
  last_sync = 0;
  community_announcement_group = false;
  addressing_mode = mode_pn;
  lid_migration_attempted = false;
}

abbrev topic_update : Updater
topic_update = set_topic_id (codes "T1") (codes "Topic")

abbrev chat_config : ChatConfig
chat_config = record {
  pinned_tag = codes "p";
  archive_tag = codes "a";
  status_broadcast_tag = codes "low";
  mute_status_broadcast = true;
  status_broadcast_jid = status_chat;
}

abbrev stored_settings : ChatSettings
stored_settings = record { muted_until_time = unmuted; is_pinned = false; is_archived = false }

abbrev no_group : Jid → Option GroupInfo
no_group j = none

abbrev no_newsletter : Jid → Option Newsletter
no_newsletter j = none

abbrev no_conversation : Jid → Option Conversation
no_conversation j = none

abbrev settings_of : Jid → Option ChatSettings
settings_of j = some stored_settings

abbrev status_info : ChatInfo
status_info = record (wrap_status_broadcast_info sample_api client chat_config) {
  user_local = some (own_settings sample_api client chat_config stored_settings);
}

-- The configured mute and tag of the status broadcast are not in it.
store_settings_win_example :
    status_info.user_local ≡ some (own_settings sample_api client chat_config stored_settings)
store_settings_win_example =
    store_settings_win sample_api client chat_config no_group no_newsletter no_conversation
      settings_of status_chat none false stored_settings status_info refl
      (unfold get_chat_info wrap_status_broadcast_info make_user_id in refl)

removed_picture :
    portal_avatar (λ id. none) (λ id. picture_not_set) [] (codes "P1")
    ≡ some (record { avatar_id = codes "remove"; remove = true })
unfolding portal_avatar
removed_picture = refl
