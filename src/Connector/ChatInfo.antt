-- ===== src/Connector/ChatInfo.antt =====
-- pkg/connector/chatinfo.go: what the bridge tells its framework about a chat. A map is an
-- association list; the functions that run on the portal later (`ExtraUpdates`) are values.
pub mod Group
pub mod Change
pub mod Chats
pub mod Picture
pub mod Updates
pub mod Members
mod Tests
use whatsapp.Common.{ℕ, ◌+◌, ◌*◌, Bool, true, false, ◌&&◌, not, Option, none, some, List, [], ◌∷◌}
use whatsapp.Common.{◌++◌, if◌then◌else◌, ltb, ◌==◌}
use whatsapp.Common.Text.{Str, str_eq}
use whatsapp.Waid.Jid.{Jid}
use whatsapp.Waid.DbMeta.{PortalMetadata, AddressingMode, mode_pn, mode_lid, mode_unset}
use whatsapp.Connector.Ids.{EventSender}
use whatsapp.Connector.Receive.Event.{UserLocalInfo}

pub data Membership : Type 0 where
  unset_membership join leave : Membership

-- `bridgev2.ChatMember`; the last field is the mark that keeps the change out of the timeline.
pub record ChatMember : Type 0 where
  pub sender : EventSender
  pub membership : Membership
  pub power_level : Option ℕ
  pub prev_membership : Membership
  pub exclude_from_timeline : Bool

abbrev pub plain_member : EventSender → ChatMember
plain_member s = record {
  sender = s;
  membership = unset_membership;
  power_level = none;
  prev_membership = unset_membership;
  exclude_from_timeline = false;
}

abbrev pub MemberMap : Type 0
MemberMap = List (Str × ChatMember)

-- `m[k] = v`
unfoldable pub set_member : Str → ChatMember → MemberMap → MemberMap
set_member k v [] = (k, v) ∷ []
set_member k v ((j, w) ∷ m) =
    let rest = set_member k v m in if str_eq j k then (k, v) ∷ m else (j, w) ∷ rest

unfoldable pub find_member : Str → MemberMap → Option ChatMember
find_member k [] = none
find_member k ((j, v) ∷ m) = if str_eq j k then some v else find_member k m

-- The types of events that power levels are set for.
pub data EventType : Type 0 where
  room_name room_avatar room_topic reaction redaction disappearing_timer : EventType

pub record PowerLevels : Type 0 where
  pub events_default : Option ℕ
  pub state_default : Option ℕ
  pub ban : Option ℕ
  pub events : EventType → Option ℕ

abbrev pub no_levels : PowerLevels
no_levels = record { events_default = none; state_default = none; ban = none; events = λ e. none }

abbrev pub nobody_pl : ℕ
nobody_pl = 99

abbrev pub super_admin_pl : ℕ
super_admin_pl = 75

abbrev pub admin_pl : ℕ
admin_pl = 50

abbrev pub default_pl : ℕ
default_pl = 0

pub record ChatMembers : Type 0 where
  pub is_full : Bool
  pub total_member_count : ℕ
  pub other_user_id : Str
  pub member_map : MemberMap
  pub power_levels : Option PowerLevels

pub data RoomType : Type 0 where
  dm_room default_room space_room : RoomType

-- `database.DisappearingSetting`, with the timer in seconds.
pub record Disappearing : Type 0 where
  pub after_send : Bool
  pub timer : ℕ

-- What runs on the portal when the information is applied.
pub data Updater : Type 0 where
  fetch_avatar : Str → Jid → Updater
  set_default_sub_group_flag : Bool → Updater
  set_addressing_mode : AddressingMode → Updater
  set_topic_id : Str → Str → Updater
  update_disappearing_timer_set_at : ℕ → Updater
  update_portal_last_sync_at : Updater

pub record Avatar : Type 0 where
  pub avatar_id : Str
  pub remove : Bool

pub record ChatInfo : Type 0 where
  pub name : Option Str
  pub topic : Option Str
  pub avatar : Option Avatar
  pub members : Option ChatMembers
  pub room_type : Option RoomType
  pub parent_id : Option Str
  pub disappear : Option Disappearing
  pub user_local : Option UserLocalInfo
  pub can_backfill : Bool
  pub exclude_changes_from_timeline : Bool
  pub extra_updates : List Updater

abbrev pub blank_info : ChatInfo
blank_info = record {
  name = none;
  topic = none;
  avatar = none;
  members = none;
  room_type = none;
  parent_id = none;
  disappear = none;
  user_local = none;
  can_backfill = false;
  exclude_changes_from_timeline = false;
  extra_updates = [];
}

abbrev pub mode_eq : AddressingMode → AddressingMode → Bool
mode_eq mode_pn mode_pn = true
mode_eq mode_lid mode_lid = true
mode_eq mode_unset mode_unset = true
mode_eq _ _ = false

abbrev pub bool_eq : Bool → Bool → Bool
bool_eq true b = b
bool_eq false b = not b

unless_same : {A : Type 0} → Bool → A → A → A × Bool
unless_same same old new = if same then (old, false) else (new, true)

-- One updater on the metadata of a portal: `updatePortalLastSyncAt`, `updateDisappearingTimerSetAt`,
-- `setDefaultSubGroupFlag`, `setAddressingMode` and `setTopicID`, at a time in seconds, with the
-- portal's topic. The Boolean asks for the portal to be saved. Fetching an avatar leaves the metadata.
unfoldable pub run_updater : ℕ → Str → Updater → PortalMetadata → PortalMetadata × Bool
unfolding unless_same
run_updater now topic (fetch_avatar id sender) meta = (meta, false)
run_updater now topic (set_default_sub_group_flag flag) meta =
    unless_same (bool_eq meta.community_announcement_group flag) meta
      (record meta { community_announcement_group = flag })
run_updater now topic (set_addressing_mode mode) meta =
    unless_same (mode_eq meta.addressing_mode mode) meta (record meta { addressing_mode = mode })
run_updater now topic (set_topic_id id of_topic) meta =
    unless_same (not (not (str_eq meta.topic_id id) && str_eq topic of_topic)) meta
      (record meta { topic_id = id })
run_updater now topic (update_disappearing_timer_set_at ts) meta =
    unless_same (meta.disappearing_timer_set_at == ts) meta
      (record meta { disappearing_timer_set_at = ts })
run_updater now topic update_portal_last_sync_at meta =
    (record meta { last_sync = now }, ltb (meta.last_sync + 24 * 3600) now)

or_save : Bool → PortalMetadata × Bool → PortalMetadata × Bool
or_save saved (meta, save) = (meta, if saved then true else save)

-- `MergeExtraUpdaters` runs them in order and asks for the save if one does.
unfoldable pub run_updaters : ℕ → Str → List Updater → PortalMetadata × Bool → PortalMetadata × Bool
unfolding or_save
run_updaters now topic [] r = r
run_updaters now topic (u ∷ us) (meta, saved) =
    run_updaters now topic us (or_save saved (run_updater now topic u meta))
