-- ===== src/Connector/ChatInfo/Group.antt =====
-- pkg/connector/chatinfo.go: what a group's information becomes (`wrapGroupInfo`).
use whatsapp.Common.{ℕ, Bool, true, ◌&&◌, not, Option, none, some, List, [], ◌∷◌}
use whatsapp.Common.{if◌then◌else◌, length}
use whatsapp.Common.Text.{Str}
use whatsapp.Waid.Jid.{Jid, JidApi, hidden_user, server_eq, empty_jid}
use whatsapp.Waid.Id.{make_user_id, make_portal_id}
use whatsapp.Waid.DbMeta.{AddressingMode}
use whatsapp.Connector.Client.{Client}
use whatsapp.Connector.Ids.{make_event_sender, blank_sender}
use whatsapp.Connector.ChatInfo.{
  ChatMember, MemberMap, set_member, join, leave, unset_membership, EventType, room_name,
  room_avatar, room_topic, reaction, redaction, disappearing_timer, PowerLevels, nobody_pl,
  super_admin_pl, admin_pl, default_pl, space_room, default_room, fetch_avatar,
  set_default_sub_group_flag, set_addressing_mode, set_topic_id, ChatInfo, blank_info,
}

-- `types.GroupParticipant` and `types.GroupInfo`, as far as they are read.
pub record Participant : Type 0 where
  pub jid : Jid
  pub phone_number : Jid
  pub is_admin : Bool
  pub is_super_admin : Bool

pub record GroupInfo : Type 0 where
  pub name : Str
  pub topic : Str
  pub topic_id : Str
  pub is_locked : Bool
  pub is_announce : Bool
  pub is_default_sub_group : Bool
  pub is_incognito : Bool
  pub is_parent : Bool
  pub addressing_mode : AddressingMode
  pub disappearing_timer : ℕ
  pub linked_parent_jid : Jid
  pub participants : List Participant

abbrev pub meta_change_pl : Bool → ℕ
meta_change_pl locked = if locked then admin_pl else default_pl

-- The levels of the types of events in a group where the name, the avatar and the topic have this level.
abbrev pub group_events : ℕ → EventType → Option ℕ
group_events pl room_name = some pl
group_events pl room_avatar = some pl
group_events pl room_topic = some pl
group_events pl reaction = some default_pl
group_events pl redaction = some default_pl
group_events pl disappearing_timer = some pl

abbrev pub group_levels : GroupInfo → PowerLevels
group_levels info = record {
  events_default =
      some (if info.is_announce && not info.is_default_sub_group then admin_pl else default_pl);
  state_default = some nobody_pl;
  ban = some nobody_pl;
  events = group_events (meta_change_pl info.is_locked);
}

abbrev pub level_of : Participant → ℕ
level_of p =
    if p.is_super_admin then super_admin_pl else if p.is_admin then admin_pl else default_pl

module _ (api : JidApi) (wa : Client) where
  abbrev pub joined : Participant → ChatMember
  joined p = record {
    sender = make_event_sender api wa p.jid;
    membership = join;
    power_level = some (level_of p);
    prev_membership = unset_membership;
    exclude_from_timeline = true;
  }

  -- The ghost of the phone number of a participant with a hidden address leaves.
  abbrev pub left : Jid → ChatMember
  left phone = record {
    sender = record blank_sender { sender = make_user_id phone };
    membership = leave;
    power_level = none;
    prev_membership = join;
    exclude_from_timeline = true;
  }

  abbrev pub hides_phone : Participant → Bool
  hides_phone p = server_eq p.jid.server hidden_user && not (api.is_empty p.phone_number)

  -- One round of the loop over the participants.
  unfoldable pub add_participant : Participant → MemberMap → MemberMap
  unfolding set_member
  add_participant p m =
      let with_member : MemberMap = set_member (make_user_id p.jid) (joined p) m in
      if hides_phone p
      then set_member (make_user_id p.phone_number) (left p.phone_number) with_member
      else with_member

  unfoldable pub add_participants : List Participant → MemberMap → MemberMap
  add_participants [] m = m
  add_participants (p ∷ ps) m = add_participants ps (add_participant p m)

  -- `wrapGroupInfo`
  unfoldable pub wrap_group_info : GroupInfo → ChatInfo
  unfolding add_participants
  wrap_group_info info = record blank_info {
    name = some info.name;
    topic = some info.topic;
    members = some (record {
      is_full = not info.is_incognito;
      total_member_count = length info.participants;
      other_user_id = [];
      member_map = add_participants info.participants [];
      power_levels = some (group_levels info);
    });
    room_type = some (if info.is_parent then space_room else default_room);
    parent_id =
        if api.is_empty info.linked_parent_jid
        then none
        else some (make_portal_id api info.linked_parent_jid);
    disappear = some (record { after_send = true; timer = info.disappearing_timer });
    exclude_changes_from_timeline = true;
    extra_updates =
        fetch_avatar [] empty_jid
        ∷ (set_default_sub_group_flag (info.is_default_sub_group && info.is_announce)
            ∷ (set_addressing_mode info.addressing_mode
                ∷ (set_topic_id info.topic_id info.topic ∷ [])));
  }
