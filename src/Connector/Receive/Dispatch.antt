-- ===== src/Connector/Receive/Dispatch.antt =====
-- The connection events of `handleWAEvent` in pkg/connector/handlewhatsapp.go: bridge states, the
-- waiter of the offline sync, and logging out.
pub mod States
use whatsapp.Common.{
  ℕ, Bool, true, false, ◌&&◌, ◌||◌, not, Option, none, some, List, [], ◌∷◌, if◌then◌else◌, ltb,
  length,
}
use whatsapp.Common.Text.{Str}
use whatsapp.Waid.Jid.{Jid, empty_jid}
use whatsapp.Waid.DbMeta.{UserLoginMetadata}
use whatsapp.Connector.PhonePing.{
  BridgeState, StateEvent, StateError, plain_state, state_connected, transient_disconnect,
  bad_credentials, unknown_error, no_state_error, logged_out, main_device_gone, unknown_logout,
  keepalive_timeout, phone_offline, disconnected, stream_replaced, stream_error, client_outdated,
  temporary_ban, connect_failure, phone_recently_seen, starts_ping, send_hacky_phone_ping,
  fill_bridge_state, is_phone_offline,
}

-- `events.ConnectFailureReason` of a logout: the two that the code names, and the rest.
pub data LogoutReason : Type 0 where
  reason_logged_out reason_main_device_gone reason_other : LogoutReason

-- The events of the connection.
pub data ConnectionEvent : Type 0 where
  connected offline_sync_completed disconnected_event : ConnectionEvent
  keep_alive_timeout keep_alive_restored stream_replaced_event : ConnectionEvent
  client_outdated_event temporary_ban_event stream_error_event : ConnectionEvent
  logged_out_event : LogoutReason → ConnectionEvent
  connect_failure_event : ℕ → ConnectionEvent

-- What the waiter of the offline sync is told: nothing went wrong, or an error.
pub data Notification : Type 0 where
  synced failed : Notification

-- The parts of the client that connection events change. The states are those sent, the latest
-- first; `phone_answer` is what a ping that is started now gets, the server's time or an error.
pub record Connection : Type 0 where
  pub has_client : Bool
  pub jid : Jid
  pub meta : UserLoginMetadata
  pub states : List BridgeState
  pub notified : List Notification

-- `BridgeState.Send`: the framework lets the client fill the state in (`FillBridgeState`), and keeps
-- it as the previous one.
abbrev pub send : ℕ → BridgeState → Connection → Connection
send now state c = record c { states = fill_bridge_state now c.meta state ∷ c.states }

abbrev pub notify : Notification → Connection → Connection
notify n c = record c { notified = n ∷ c.notified }

-- `BridgeState.GetPrev().Error`
abbrev pub prev_error : List BridgeState → StateError
prev_error [] = no_state_error
prev_error (s ∷ ss) = s.state_error

abbrev pub logout_error : LogoutReason → StateError
logout_error reason_logged_out = logged_out
logout_error reason_main_device_gone = main_device_gone
logout_error reason_other = unknown_logout

-- `handleWALogout`
unfoldable pub handle_wa_logout : ℕ → LogoutReason → Connection → Connection
handle_wa_logout now reason c =
    send now (plain_state bad_credentials (logout_error reason)) (record c {
      has_client = false;
      jid = empty_jid;
      meta = record (c.meta) { wa_device_id = 0 };
    })

-- `PhoneRecentlySeen(true)` starts a ping if one is due.
unfoldable pub ping_if_due : ℕ → Option ℕ → Connection → Connection
ping_if_due now answer c =
    if starts_ping now true c.meta
    then record c { meta = send_hacky_phone_ping now answer c.meta }
    else c

handle_disconnected : ℕ → Connection → Connection
handle_disconnected now c =
    if not (is_phone_offline (prev_error c.states)) && phone_recently_seen now false c.meta
    then send now (plain_state transient_disconnect disconnected) c
    else c

-- The cases of `handleWAEvent` for these events.
unfoldable pub handle_connection_event : ℕ → Option ℕ → ConnectionEvent → Connection → Connection
unfolding handle_disconnected
handle_connection_event now answer connected c =
    send now (plain_state state_connected no_state_error) c
handle_connection_event now answer offline_sync_completed c =
    notify synced (send now (plain_state state_connected no_state_error) (ping_if_due now answer c))
handle_connection_event now answer (logged_out_event reason) c =
    notify failed (handle_wa_logout now reason c)
handle_connection_event now answer disconnected_event c = notify failed (handle_disconnected now c)
handle_connection_event now answer stream_error_event c =
    notify failed (send now (plain_state unknown_error stream_error) c)
handle_connection_event now answer stream_replaced_event c =
    notify failed (send now (plain_state unknown_error stream_replaced) c)
handle_connection_event now answer keep_alive_timeout c =
    send now (plain_state transient_disconnect keepalive_timeout) c
handle_connection_event now answer keep_alive_restored c =
    send now (plain_state state_connected no_state_error) c
handle_connection_event now answer (connect_failure_event reason) c =
    notify failed (send now (plain_state unknown_error (connect_failure reason)) c)
handle_connection_event now answer client_outdated_event c =
    notify failed (send now (plain_state unknown_error client_outdated) c)
handle_connection_event now answer temporary_ban_event c =
    notify failed (send now (plain_state bad_credentials temporary_ban) c)

-- Events one after the other, each with its time and the answer to a ping started at it.
unfoldable pub handle_connection_events :
    List (ℕ × Option ℕ × ConnectionEvent) → Connection → Connection
handle_connection_events [] c = c
handle_connection_events ((now, answer, e) ∷ es) c =
    handle_connection_events es (handle_connection_event now answer e c)
