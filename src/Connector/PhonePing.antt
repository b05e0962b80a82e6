-- ===== src/Connector/PhonePing.antt =====
-- pkg/connector/phoneping.go: whether the phone was seen lately, and the bridge state that says so.
-- Times are in seconds, 0 for a time that is not set; `time.Since(t) > d` is `t + d < now`.
pub mod Seen
use whatsapp.Common.{ℕ, ◌+◌, ◌*◌, Bool, true, false, ◌&&◌, ◌||◌, not, Option, none, some, []}
use whatsapp.Common.{if◌then◌else◌, ltb, leb, ◌==◌, List, ◌∷◌}
use whatsapp.Waid.DbMeta.{UserLoginMetadata}

pub data StateEvent : Type 0 where
  state_connected transient_disconnect bad_credentials unknown_error : StateEvent

-- The error codes of pkg/connector/handlewhatsapp.go, and none.
pub data StateError : Type 0 where
  no_state_error not_logged_in logged_out main_device_gone unknown_logout not_connected : StateError
  connecting keepalive_timeout phone_offline connection_failed disconnected : StateError
  stream_replaced stream_error client_outdated temporary_ban : StateError
  connect_failure : ℕ → StateError

pub record BridgeState : Type 0 where
  pub state_event : StateEvent
  pub state_error : StateError
  pub open_native : Bool  -- UserAction is UserActionOpenNative

abbrev pub plain_state : StateEvent → StateError → BridgeState
plain_state e x = record { state_event = e; state_error = x; open_native = false }

abbrev pub day : ℕ
day = 24 * 3600

abbrev pub phone_disconnect_warning_time : ℕ
phone_disconnect_warning_time = 12 * day

abbrev pub phone_disconnect_ping_time : ℕ
phone_disconnect_ping_time = 10 * day

abbrev pub phone_min_ping_interval : ℕ
phone_min_ping_interval = day

-- `PhoneRecentlySeen`: its answer, and whether it starts a ping.
unfoldable pub phone_recently_seen : ℕ → Bool → UserLoginMetadata → Bool
phone_recently_seen now do_ping meta =
    meta.phone_last_seen == 0 || ltb now (meta.phone_last_seen + phone_disconnect_warning_time)

unfoldable pub starts_ping : ℕ → Bool → UserLoginMetadata → Bool
starts_ping now do_ping meta =
    do_ping
    && not (meta.phone_last_seen == 0)
    && ltb (meta.phone_last_seen + phone_disconnect_ping_time) now
    && (meta.phone_last_pinged == 0 || ltb (meta.phone_last_pinged + phone_min_ping_interval) now)

abbrev is_connected_event : StateEvent → Bool
is_connected_event state_connected = true
is_connected_event _ = false

-- `FillBridgeState`
unfoldable pub fill_bridge_state : ℕ → UserLoginMetadata → BridgeState → BridgeState
fill_bridge_state now meta state =
    if not (phone_recently_seen now false meta) && is_connected_event state.state_event
    then record {
      state_event = transient_disconnect;
      state_error = phone_offline;
      open_native = true;
    }
    else state

-- `sendHackyPhonePing` on the metadata: the ping is recorded before the request is sent, and
-- again with the server's time if it succeeds (`some`).
unfoldable pub send_hacky_phone_ping : ℕ → Option ℕ → UserLoginMetadata → UserLoginMetadata
send_hacky_phone_ping now none meta = record meta { phone_last_pinged = now }
send_hacky_phone_ping now (some timestamp) meta = record meta { phone_last_pinged = timestamp }

abbrev pub is_phone_offline : StateError → Bool
is_phone_offline phone_offline = true
is_phone_offline _ = false

-- `phoneSeen`: the new metadata, whether it is saved, and the bridge states that are sent. The
-- inputs are the time now, the time that the phone was seen, the error of the previous state, and
-- whether the client is logged in and connected.
pub record SeenResult : Type 0 where
  pub meta : UserLoginMetadata
  pub saved : Bool
  pub sent : List BridgeState

unfoldable pub phone_seen : ℕ → ℕ → StateError → Bool → UserLoginMetadata → SeenResult
phone_seen now ts prev_error is_connected meta =
    if not (meta.phone_last_seen == 0) && ltb ts (meta.phone_last_seen + 3600)
    then record { meta = meta; saved = false; sent = [] }
    else record {
      meta = record meta { phone_last_seen = ts };
      saved = true;
      sent =
          if not (phone_recently_seen now false meta)
            && (is_phone_offline prev_error && is_connected)
          then plain_state state_connected no_state_error ∷ []
          else [];
    }
