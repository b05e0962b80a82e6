-- ===== src/Connector/Session.antt =====
-- pkg/connector/client.go: connecting and disconnecting, the background loops, and the profile of
-- the login. Requests to WhatsApp answer with whether they succeed.
pub mod Loops
mod Tests
use whatsapp.Common.{ℕ, suc, Bool, true, false, ◌&&◌, ◌||◌, not, Option, none, some, List, [], ◌∷◌}
use whatsapp.Common.{if◌then◌else◌, ◌==◌}
use whatsapp.Common.Text.{Str, str_eq}

-- The bridge states that `Connect` sends.
pub data SentState : Type 0 where
  not_logged_in_state connecting_state connection_failed_state : SentState

-- `loops` are the contexts of the loops that run, by a number; `stop_loops` is the one that the
-- client can cancel. `waiter` is the channel of a background connection: the value that is in it.
pub record Session : Type 0 where
  pub has_client : Bool
  pub is_connected : Bool
  pub loops : List ℕ
  pub stop_loops : Option ℕ
  pub next_context : ℕ
  pub waiter : Option (Option Bool)
  pub sent : List SentState

abbrev pub send : SentState → Session → Session
send x s = record s { sent = x ∷ s.sent }

-- `cancel()` of a context: its loops end.
remove_loop : ℕ → List ℕ → List ℕ
remove_loop n [] = []
remove_loop n (m ∷ ms) = let rest = remove_loop n ms in if m == n then rest else m ∷ rest

stopped : Option ℕ → List ℕ → List ℕ
unfolding remove_loop
stopped none ms = ms
stopped (some n) ms = remove_loop n ms

-- `startLoops`
unfoldable pub start_loops : Session → Session
unfolding stopped
start_loops s = record s {
  loops = s.next_context ∷ stopped s.stop_loops s.loops;
  stop_loops = some s.next_context;
  next_context = suc s.next_context;
}

-- `Connect`: whether the context is still alive, and whether the client connects.
unfoldable pub connect : Bool → Bool → Session → Session
unfolding start_loops
connect alive connects s =
    if s.has_client
    then (if alive
        then (if connects
            then record (start_loops (send connecting_state s)) { is_connected = true }
            else send connection_failed_state (start_loops (send connecting_state s)))
        else send connecting_state s)
    else send not_logged_in_state s

-- `Disconnect`
unfoldable pub disconnect : Session → Session
unfolding stopped
disconnect s = record s {
  loops = stopped s.stop_loops s.loops;
  stop_loops = none;
  is_connected = if s.has_client then false else s.is_connected;
}

-- `LogoutRemote`
unfoldable pub logout_remote : Session → Session
unfolding disconnect
logout_remote s = record (disconnect s) { has_client = false }

-- `notifyOfflineSyncWaiter`: the Boolean is whether there is no error. A full channel drops it.
channel_after : Bool → Option (Option Bool) → Option (Option Bool)
channel_after value none = none
channel_after value (some none) = some (some value)
channel_after value (some (some old)) = some (some old)

unfoldable pub notify_offline_sync_waiter : Bool → Session → Session
unfolding channel_after
notify_offline_sync_waiter value s = record s { waiter = channel_after value s.waiter }

-- `ConnectBackground` in two halves: up to the `select`, and after it.
unfoldable pub begin_background : Bool → Session → Session × Bool
begin_background connects s =
    if s.has_client
    then (if connects
        then (record s { waiter = some none; is_connected = true }, true)
        else (record s { waiter = none }, false))
    else (s, false)

unfoldable pub end_background : Session → Session
unfolding disconnect
end_background s = record (disconnect s) { waiter = none }

-- `RemoteProfile` of the login: its name and avatar.
pub record Profile : Type 0 where
  pub name : Str
  pub avatar : Str

pub record Ghost : Type 0 where
  pub id : Str
  pub avatar_mxc : Str

synced_profile : Str → Str → Profile → Profile × Bool
synced_profile name avatar p =
    if str_eq name [] || (str_eq p.name name && str_eq p.avatar avatar)
    then (p, false)
    else (record { name = name; avatar = avatar }, true)

profile_of : Str → Str → Option Ghost → Profile → Profile × Bool
unfolding synced_profile
profile_of own_id name none p = (p, false)
profile_of own_id name (some g) p =
    if str_eq g.id own_id then synced_profile name g.avatar_mxc p else (p, false)

-- `syncRemoteProfile`: the own ID, the business name, the push name and the ghost; whether the login
-- is saved.
unfoldable pub sync_remote_profile : Str → Str → Str → Option Ghost → Profile → Profile × Bool
unfolding profile_of
sync_remote_profile own_id business push g p =
    profile_of own_id (if str_eq business [] then push else business) g p
