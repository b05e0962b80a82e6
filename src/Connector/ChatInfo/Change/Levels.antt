-- ===== src/Connector/ChatInfo/Change/Levels.antt =====
-- pkg/connector/chatinfo.go: the levels after an event about a group, and after a sync of the group.
use whatsapp.Common.{
  ℕ, Bool, true, false, Option, none, some, ◌≡◌, ◌↔◌, ◌⊎◌, refl, ap, ◌∙◌, arith, is_some,
  if◌then◌else◌,
}
use whatsapp.Waid.Jid.{JidApi}
use whatsapp.Connector.Client.{Client}
use whatsapp.Connector.ChatInfo.{
  ChatMembers, PowerLevels, no_levels, EventType, room_name, room_avatar, room_topic,
  disappearing_timer, admin_pl, default_pl,
}
use whatsapp.Connector.ChatInfo.Group.{GroupInfo, wrap_group_info}
use whatsapp.Connector.ChatInfo.Change.{member_list, locked_events}
use whatsapp.Connector.ChatInfo.Change.{
  GroupChange, wrap_group_info_change, with_levels, member_change,
}

-- The levels that are set, if any are.
abbrev pub levels_of : Option ChatMembers → PowerLevels
levels_of none = no_levels
levels_of (some m) = elim (m.power_levels) [ some l ↦ l | none ↦ no_levels ]

after_announce : Option Bool → Option ℕ
after_announce none = none
after_announce (some b) = some (if b then admin_pl else default_pl)

after_locked : Option Bool → EventType → Option ℕ
after_locked none = λ e. none
after_locked (some b) = locked_events b

announce_levels :
    (api : JidApi) (wa : Client) (announce locked : Option Bool) (m : Option ChatMembers)
    → is_some announce ≡ true
    → (levels_of (with_levels api wa announce locked m)).events_default ≡ after_announce announce
unfolding with_levels after_announce
announce_levels api wa none locked m h = absurd cc
announce_levels api wa (some b) none m h = refl
announce_levels api wa (some b) (some c) m h = refl

locked_levels :
    (api : JidApi) (wa : Client) (announce locked : Option Bool) (m : Option ChatMembers)
    → is_some locked ≡ true
    → (levels_of (with_levels api wa announce locked m)).events ≡ after_locked locked
unfolding with_levels after_locked
locked_levels api wa announce none m h = absurd cc
locked_levels api wa none (some c) m h = refl
locked_levels api wa (some b) (some c) m h = refl

module _ (api : JidApi) (wa : Client) where
  -- The levels that an event and a sync set.
  abbrev pub changed_levels : GroupChange → PowerLevels
  changed_levels evt = levels_of (wrap_group_info_change api wa evt).member_changes

  abbrev pub synced_levels : GroupInfo → PowerLevels
  synced_levels info = levels_of (wrap_group_info api wa info).members

  -- The level for sending messages after an event that turns announcements on or off is the one that
  -- a sync of the group sets, exactly if the group is no default subgroup or they are turned off.
  pub announce_matches_sync_iff :
      (evt : GroupChange) (info : GroupInfo) (b : Bool)
      → evt.announce ≡ some b
      → ((changed_levels evt).events_default
          ≡ (synced_levels (record info { is_announce = b })).events_default)
        ↔ ((b ≡ false) ⊎ (info.is_default_sub_group ≡ false))
  unfolding wrap_group_info_change member_change wrap_group_info after_announce
  announce_matches_sync_iff evt info b h =
      let set : (levels_of (wrap_group_info_change api wa evt).member_changes).events_default
          ≡ some (if b then admin_pl else default_pl) =
        announce_levels api wa evt.announce evt.locked (member_list api wa evt) (ap is_some h)
        ∙ ap after_announce h in
      rw set (ground arith)

  -- After an event that locks or unlocks a group, the levels for its name, avatar and topic are the
  -- ones that a sync of the group sets, and no level for the disappearing timer is set, while a sync
  -- sets the level of the name.
  pub locked_matches_sync :
      (evt : GroupChange) (info : GroupInfo) (b : Bool)
      → evt.locked ≡ some b
      → ((changed_levels evt).events room_name
          ≡ (synced_levels (record info { is_locked = b })).events room_name)
        × ((changed_levels evt).events room_avatar
            ≡ (synced_levels (record info { is_locked = b })).events room_avatar)
        × ((changed_levels evt).events room_topic
            ≡ (synced_levels (record info { is_locked = b })).events room_topic)
        × ((changed_levels evt).events disappearing_timer ≡ none)
        × ((synced_levels (record info { is_locked = b })).events disappearing_timer
            ≡ (synced_levels (record info { is_locked = b })).events room_name)
  unfolding wrap_group_info_change member_change wrap_group_info after_locked
  locked_matches_sync evt info b h =
      let set : (levels_of (wrap_group_info_change api wa evt).member_changes).events
          ≡ locked_events b =
        locked_levels api wa evt.announce evt.locked (member_list api wa evt) (ap is_some h)
        ∙ ap after_locked h in
      (
        ap (λ f. f room_name) set,
        ap (λ f. f room_avatar) set,
        ap (λ f. f room_topic) set,
        ap (λ f. f disappearing_timer) set,
        refl,
      )
