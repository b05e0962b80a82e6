-- ===== src/Connector/ChatInfo/Updates.antt =====
-- pkg/connector/chatinfo.go: updates of a portal's metadata settle.
use whatsapp.Common.{ℕ, Bool, true, false, not, ◌&&◌, ◌≡◌, ◌≢◌, refl, ◌==◌, ==_refl, if_split, ap}
use whatsapp.Common.Text.{Str, str_eq, str_eq_refl}
use whatsapp.Waid.DbMeta.{PortalMetadata, AddressingMode, mode_pn, mode_lid, mode_unset}
use whatsapp.Connector.ChatInfo.{
  Updater, fetch_avatar, set_default_sub_group_flag, set_addressing_mode, set_topic_id,
  update_disappearing_timer_set_at, update_portal_last_sync_at, run_updater, unless_same, mode_eq,
  bool_eq,
}

mode_eq_refl : (m : AddressingMode) → mode_eq m m ≡ true
mode_eq_refl mode_pn = refl
mode_eq_refl mode_lid = refl
mode_eq_refl mode_unset = refl

bool_eq_refl : (b : Bool) → bool_eq b b ≡ true
bool_eq_refl true = refl
bool_eq_refl false = refl

-- A setting whose test holds of what it sets.
settled :
    (same : PortalMetadata → Bool) (set : PortalMetadata → PortalMetadata) (meta : PortalMetadata)
    → same (set meta) ≡ true
    → unless_same
        (same (unless_same (same meta) meta (set meta)).0)
        (unless_same (same meta) meta (set meta)).0
        (set (unless_same (same meta) meta (set meta)).0)
      ≡ ((unless_same (same meta) meta (set meta)).0, false)
unfolding unless_same
settled same set meta h =
    if_split (λ (r : PortalMetadata × Bool). unless_same (same r.0) r.0 (set r.0) ≡ (r.0, false))
      (same meta) _ _ (λ e. ap (λ b. unless_same b meta (set meta)) e)
      (λ e. ap (λ b. unless_same b (set meta) (set (set meta))) h)

-- Every updater but that of the last sync changes nothing and asks for no save when it runs again on
-- the metadata that it left, for the same topic of the portal.
pub updater_settles :
    (now later : ℕ) (topic : Str) (u : Updater) (meta : PortalMetadata)
    → u ≢ update_portal_last_sync_at
    → run_updater later topic u (run_updater now topic u meta).0
      ≡ ((run_updater now topic u meta).0, false)
unfolding run_updater
updater_settles now later topic (fetch_avatar id s) meta n = refl
updater_settles now later topic (set_default_sub_group_flag b) meta n =
    settled (λ m. bool_eq m.community_announcement_group b)
      (λ m. record m { community_announcement_group = b }) meta (bool_eq_refl b)
updater_settles now later topic (set_addressing_mode mode) meta n =
    settled (λ m. mode_eq m.addressing_mode mode) (λ m. record m { addressing_mode = mode }) meta
      (mode_eq_refl mode)
updater_settles now later topic (set_topic_id id t) meta n =
    settled (λ m. not (not (str_eq m.topic_id id) && str_eq topic t))
      (λ m. record m { topic_id = id }) meta
      (ap (λ b. not (not b && str_eq topic t)) (str_eq_refl id))
updater_settles now later topic (update_disappearing_timer_set_at ts) meta n =
    settled (λ m. m.disappearing_timer_set_at == ts)
      (λ m. record m { disappearing_timer_set_at = ts }) meta (==_refl ts)
updater_settles now later topic update_portal_last_sync_at meta n = absurd (n refl)
