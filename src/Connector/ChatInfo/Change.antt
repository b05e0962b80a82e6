-- ===== src/Connector/ChatInfo/Change.antt =====
-- pkg/connector/chatinfo.go: what an event about a group changes (`wrapGroupInfoChange`).
pub mod Levels
use whatsapp.Common.{ℕ, Bool, true, false, ◌||◌, not, Option, none, some, List, [], ◌∷◌}
use whatsapp.Common.{if◌then◌else◌, is_some}
use whatsapp.Common.Text.{Str}
use whatsapp.Waid.Jid.{Jid, JidApi}
use whatsapp.Waid.Id.{make_user_id, make_portal_id}
use whatsapp.Connector.Client.{Client}
use whatsapp.Connector.Ids.{make_event_sender}
use whatsapp.Connector.ChatInfo.{
  ChatMember, MemberMap, set_member, plain_member, leave, EventType, room_name, room_avatar,
  room_topic, reaction, redaction, disappearing_timer, PowerLevels, no_levels, admin_pl, default_pl,
  ChatMembers, Disappearing, set_topic_id, ChatInfo, blank_info,
}
use whatsapp.Connector.ChatInfo.Group.{meta_change_pl}

-- `events.GroupInfo`: what is set. A list that is not empty is one that is not nil.
pub record GroupChange : Type 0 where
  pub name : Option Str
  pub topic : Option (Str × Str)  -- the topic and its ID
  pub locked : Option Bool
  pub announce : Option Bool
  pub ephemeral : Option (Bool × ℕ)  -- whether it is on, and the timer
  pub unlink : Bool
  pub link : Option (Bool × Jid)  -- whether it is the link to the parent, and the group
  pub joined : List Jid
  pub left : List Jid
  pub promoted : List Jid
  pub demoted : List Jid

pub record InfoChange : Type 0 where
  pub chat_info : Option ChatInfo
  pub member_changes : Option ChatMembers

abbrev is_cons : {A : Type 0} → List A → Bool
is_cons [] = false
is_cons (x ∷ xs) = true

with_name : Option Str → ChatInfo → ChatInfo
with_name none info = info
with_name (some n) info = record info { name = some n }

with_topic : Option (Str × Str) → ChatInfo → ChatInfo
with_topic none info = info
with_topic (some (t, id)) info = record info {
  topic = some t;
  extra_updates = set_topic_id id t ∷ [];
}

with_ephemeral : Option (Bool × ℕ) → ChatInfo → ChatInfo
with_ephemeral none info = info
with_ephemeral (some (on, t)) info = record info {
  disappear = some (
      if on
      then record { after_send = true; timer = t }
      else record { after_send = false; timer = 0 });
}

abbrev pub locked_events : Bool → EventType → Option ℕ
locked_events b room_name = some (meta_change_pl b)
locked_events b room_avatar = some (meta_change_pl b)
locked_events b room_topic = some (meta_change_pl b)
locked_events b _ = none

with_announce : Option Bool → PowerLevels → PowerLevels
with_announce none l = l
with_announce (some b) l = record l { events_default = some (if b then admin_pl else default_pl) }

with_locked : Option Bool → PowerLevels → PowerLevels
with_locked none l = l
with_locked (some b) l = record l { events = locked_events b }

module _ (api : JidApi) (wa : Client) where
  with_parent : Bool → Option (Bool × Jid) → ChatInfo → ChatInfo
  with_parent unlink (some (true, j)) info = record info { parent_id = some (make_portal_id api j) }
  with_parent unlink _ info = if unlink then record info { parent_id = some [] } else info

  set_all : (Jid → ChatMember) → List Jid → MemberMap → MemberMap
  set_all f [] m = m
  set_all f (j ∷ js) m = set_all f js (set_member (make_user_id j) (f j) m)

  abbrev member : Jid → ChatMember
  member j = plain_member (make_event_sender api wa j)

  -- The four loops in order.
  changed_members : GroupChange → MemberMap
  unfolding set_all
  changed_members evt =
      set_all (λ j. record (member j) { membership = leave }) evt.left
        (set_all (λ j. record (member j) { power_level = some default_pl }) evt.demoted
          (set_all (λ j. record (member j) { power_level = some admin_pl }) evt.promoted
            (set_all member evt.joined [])))

  info_change : GroupChange → Option ChatInfo
  unfolding with_name with_topic with_ephemeral with_parent
  info_change evt =
      if is_some evt.name
        || is_some evt.topic
        || is_some evt.ephemeral
        || evt.unlink
        || is_some evt.link
      then some (
          with_parent evt.unlink evt.link
            (with_ephemeral evt.ephemeral (with_topic evt.topic (with_name evt.name blank_info))))
      else none

  abbrev blank_members : ChatMembers
  blank_members = record {
    is_full = false;
    total_member_count = 0;
    other_user_id = [];
    member_map = [];
    power_levels = none;
  }

  with_levels : Option Bool → Option Bool → Option ChatMembers → Option ChatMembers
  unfolding with_announce with_locked
  with_levels announce locked m =
      if is_some announce || is_some locked
      then some (record (elim m [ some x ↦ x | none ↦ blank_members ]) {
        power_levels = some (with_locked locked (with_announce announce no_levels));
      })
      else m

  member_list : GroupChange → Option ChatMembers
  unfolding changed_members
  member_list evt =
      if is_cons evt.joined || is_cons evt.left || is_cons evt.promoted || is_cons evt.demoted
      then some (record blank_members { member_map = changed_members evt })
      else none

  member_change : GroupChange → Option ChatMembers
  unfolding member_list with_levels
  member_change evt = with_levels evt.announce evt.locked (member_list evt)

  -- `wrapGroupInfoChange`
  unfoldable pub wrap_group_info_change : GroupChange → InfoChange
  unfolding info_change member_change
  wrap_group_info_change evt = record {
    chat_info = info_change evt;
    member_changes = member_change evt;
  }
