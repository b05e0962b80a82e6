-- ===== src/Connector/Login.antt =====
-- pkg/connector/login.go: the process of a login, its QR codes and the events that it handles.
-- Times are in nanoseconds. The client of whatsmeow is two flags: whether the process handles its
-- events, and whether it is connected.
pub mod Wait
pub mod Codes
mod Tests
use whatsapp.Common.{
  ℕ, zero, suc, ◌+◌, ◌-◌, ◌*◌, Bool, true, false, Option, none, some, List, [], ◌∷◌,
}
use whatsapp.Common.{if◌then◌else◌, ltb, ◌++◌, Outcome, ok, err, panic}
use whatsapp.Common.Text.{Str, codes}
use whatsapp.Waid.Jid.{Jid}

-- The errors of a login: those of the source's list, then that of a pairing, the two that `Wait`
-- makes, and that of a context or of the network.
pub data LoginError : Type 0 where
  client_outdated multidevice_not_enabled login_timeout unexpected_disconnect : LoginError
  phone_number_too_short phone_number_is_not_international rate_limited : LoginError
  pair_failed : Str → LoginError
  no_515 not_created failed : LoginError

-- `events.PairSuccess`
pub record PairSuccess : Type 0 where
  pub id : Jid
  pub business_name : Str

-- The events that `handleEvent` tells apart.
pub data LoginEvent : Type 0 where
  qr : List Str → LoginEvent
  scanned_without_multidevice outdated : LoginEvent
  pair_success : PairSuccess → LoginEvent
  pair_error : Str → LoginEvent
  disconnected connected connect_failure logged_out temporary_ban : LoginEvent
  manual_login_reconnect other : LoginEvent

pub record WaLogin : Type 0 where
  pub phone_code : Bool
  pub timezone : Str
  pub qrs : List Str
  pub start_time : ℕ
  pub login_error : Option LoginError
  pub login_success : Option PairSuccess
  pub wait_for_qrs : Bool
  pub login_complete : Bool
  pub received_515 : Bool
  pub prev_qr_index : ℕ  -- never negative: `Wait` stores indices of codes only
  pub closed : Bool
  pub has_handler : Bool
  pub is_connected : Bool

-- `CreateLogin`: whether the flow is that of a pairing code, and the time zone.
abbrev pub create_login : Bool → Str → WaLogin
create_login phone_code timezone = record {
  phone_code = phone_code;
  timezone = timezone;
  qrs = [];
  start_time = 0;
  login_error = none;
  login_success = none;
  wait_for_qrs = false;
  login_complete = false;
  received_515 = false;
  prev_qr_index = 0;
  closed = false;
  has_handler = false;
  is_connected = false;
}

abbrev pub second : ℕ
second = 1000000000

-- `qrIntervals`
abbrev pub qr_intervals : List ℕ
qr_intervals =
    60 * second ∷ 20 * second ∷ 20 * second ∷ 20 * second ∷ 20 * second ∷ 20 * second ∷ []

-- The loop of `getQRIndex` from the index `i`; no index stands for -1.
qr_index_from : ℕ → ℕ → ℕ → List ℕ → Option ℕ × ℕ
qr_index_from since i sum [] = (none, 0)
qr_index_from since i sum (interval ∷ rest) =
    if ltb (sum + interval) since
    then qr_index_from since (suc i) (sum + interval) rest
    else (some i, interval - (since - sum))

-- `getQRIndex`, the time since the start first.
unfoldable pub get_qr_index : ℕ → Option ℕ × ℕ
unfolding qr_index_from
get_qr_index since = qr_index_from since 0 0 qr_intervals

abbrev failing : LoginError → WaLogin → WaLogin
failing e wl = record wl { login_error = some e; login_complete = true }

abbrev handle_open : ℕ → LoginEvent → WaLogin → WaLogin
handle_open now (qr cs) wl = record wl { qrs = cs; start_time = now; wait_for_qrs = true }
handle_open now scanned_without_multidevice wl = failing multidevice_not_enabled wl
handle_open now outdated wl = failing client_outdated wl
handle_open now (pair_success s) wl = record wl { login_success = some s; login_complete = true }
handle_open now (pair_error e) wl = failing (pair_failed e) wl
handle_open now disconnected wl = failing login_timeout wl
handle_open now connected wl = failing unexpected_disconnect wl
handle_open now connect_failure wl = failing unexpected_disconnect wl
handle_open now logged_out wl = failing unexpected_disconnect wl
handle_open now temporary_ban wl = failing unexpected_disconnect wl
handle_open now manual_login_reconnect wl = record wl { received_515 = true; login_complete = true }
handle_open now other wl = wl

-- `handleEvent`
unfoldable pub handle_event : ℕ → LoginEvent → WaLogin → WaLogin
handle_event now e wl = if wl.closed then wl else handle_open now e wl

-- Events in the order of their arrival, each with its time.
unfoldable pub handle_events : List (ℕ × LoginEvent) → WaLogin → WaLogin
handle_events [] wl = wl
handle_events ((now, e) ∷ rest) wl = handle_events rest (handle_event now e wl)

-- `Cancel`
unfoldable pub cancel : WaLogin → WaLogin
cancel wl = record wl { closed = true; has_handler = false; is_connected = false }

pub data LoginStep : Type 0 where
  phone_number_step : LoginStep
  qr_step code_step : Str → LoginStep
  complete_step : Str → LoginStep  -- with the ID of the new login

abbrev pub Stepped : Type 0
Stepped = WaLogin × Outcome LoginError LoginStep

-- `makeQRStep(wl.QRs[i])`
abbrev pub qr_at : ℕ → List Str → Outcome LoginError LoginStep
qr_at i [] = panic
qr_at zero (c ∷ cs) = ok (qr_step c)
qr_at (suc i) (c ∷ cs) = qr_at i cs

after_qr_wait : WaLogin → Stepped
after_qr_wait wl = if wl.wait_for_qrs then (wl, qr_at 0 wl.qrs) else (cancel wl, err failed)

-- `Start`: whether the proxy could be set, whether the client connects, and the events until the
-- wait for the first QR code ends.
unfoldable pub start : Bool → Bool → List (ℕ × LoginEvent) → WaLogin → Stepped
unfolding after_qr_wait
start proxy_set connects es wl =
    let attached : WaLogin = record wl { has_handler = true } in
    if proxy_set
    then (if wl.phone_code
        then (attached, ok phone_number_step)
        else (if connects
            then after_qr_wait (handle_events es (record attached { is_connected = true }))
            else (attached, err failed)))
    else (attached, err failed)

-- What `PairPhone` of whatsmeow answers.
pub data PairAnswer : Type 0 where
  pairing_code : Str → PairAnswer
  too_short not_international over_limit other_failure : PairAnswer

paired : PairAnswer → Outcome LoginError LoginStep
paired (pairing_code c) = ok (code_step c)
paired too_short = err phone_number_too_short
paired not_international = err phone_number_is_not_international
paired over_limit = err rate_limited
paired other_failure = err failed

after_connection_wait : (Str → PairAnswer) → Str → WaLogin → Stepped
after_connection_wait pair_phone phone_number wl =
    if wl.wait_for_qrs then (wl, paired (pair_phone phone_number)) else (wl, err failed)

-- `SubmitUserInput`: what `PairPhone` answers for a phone number, whether the client connects, the
-- events until the wait for the connection ends, and the number.
unfoldable pub submit_user_input :
    (Str → PairAnswer) → Bool → List (ℕ × LoginEvent) → Str → WaLogin → Stepped
unfolding paired after_connection_wait
submit_user_input pair_phone connects es phone_number wl =
    if connects
    then after_connection_wait pair_phone phone_number
        (handle_events es (record wl { is_connected = true }))
    else (wl, err failed)

override_step : (Str → PairAnswer) → Bool → List (ℕ × LoginEvent) → Option Str → Stepped → Stepped
override_step pair_phone connects es (some old) (wl, ok phone_number_step) =
    submit_user_input pair_phone connects es (codes "+" ++ old) wl
override_step pair_phone connects es old step = step

-- `StartWithOverride`: the same, with the ID of the old login if there is one.
unfoldable pub start_with_override :
    (Str → PairAnswer) → Bool → Bool → List (ℕ × LoginEvent) → Option Str → WaLogin → Stepped
unfolding start submit_user_input override_step
start_with_override pair_phone proxy_set connects es old wl =
    override_step pair_phone connects es old (start proxy_set connects es wl)
