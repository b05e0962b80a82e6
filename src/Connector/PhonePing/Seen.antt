-- ===== src/Connector/PhonePing/Seen.antt =====
-- pkg/connector/phoneping.go: the warning about an offline phone, and pings.
use whatsapp.Common.{ℕ, ◌+◌, ◌*◌, ◌≤◌, ◌≡◌, ◌≢◌, ◌↔◌, arith, Bool, true, false, none}
use whatsapp.Waid.DbMeta.{UserLoginMetadata}
use whatsapp.Connector.PhonePing.{
  BridgeState, StateError, phone_offline, state_connected, no_state_error, plain_state,
  phone_recently_seen, starts_ping, fill_bridge_state, phone_seen, send_hacky_phone_ping, day,
}

-- A connected state is reported as a phone that is offline exactly when the phone was last seen
-- twelve days ago or earlier, and was seen at all.
pub fill_bridge_state_offline :
    (now : ℕ) (meta : UserLoginMetadata)
    → ((fill_bridge_state now meta (plain_state state_connected no_state_error)).state_error
        ≡ phone_offline)
      ↔ ((meta.phone_last_seen ≢ 0) × (meta.phone_last_seen + 12 * day ≤ now))
unfolding fill_bridge_state phone_recently_seen
fill_bridge_state_offline now meta = (λ h. ground arith, λ h. ground arith)

-- Filling a state twice is filling it once.
pub fill_bridge_state_idem :
    (now : ℕ) (meta : UserLoginMetadata) (state : BridgeState)
    → fill_bridge_state now meta (fill_bridge_state now meta state)
      ≡ fill_bridge_state now meta state
unfolding fill_bridge_state
fill_bridge_state_idem now meta state = ground arith

-- From a sighting of the phone until an hour less than twelve days later no state is turned into an
-- offline warning, also where the sighting is not stored because a recent one is.
pub phone_seen_clears :
    (now ts : ℕ) (prev : StateError) (connected : Bool) (meta : UserLoginMetadata) (s : BridgeState)
    → now + 3600 ≤ ts + 12 * day
    → fill_bridge_state now (phone_seen now ts prev connected meta).meta s ≡ s
unfolding fill_bridge_state phone_seen phone_recently_seen
phone_seen_clears now ts prev connected meta s h = ground arith

-- The time that the phone was last seen never goes back.
pub phone_seen_grows :
    (now ts : ℕ) (prev : StateError) (connected : Bool) (meta : UserLoginMetadata)
    → meta.phone_last_seen ≤ (phone_seen now ts prev connected meta).meta.phone_last_seen
unfolding phone_seen
phone_seen_grows now ts prev connected meta = ground arith

-- A ping that got no answer is not followed by another one within a day, if the time is not zero.
pub ping_paused :
    (now later : ℕ) (meta : UserLoginMetadata)
    → now ≢ 0
    → later ≤ now + day
    → starts_ping later true (send_hacky_phone_ping now none meta) ≡ false
unfolding starts_ping send_hacky_phone_ping
ping_paused now later meta n h = ground arith
