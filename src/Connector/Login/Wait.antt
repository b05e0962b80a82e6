-- ===== src/Connector/Login/Wait.antt =====
-- pkg/connector/login.go: one call of `Wait`, with the events that arrive while it waits.
pub mod Ending
pub mod Made
pub mod Calm
pub mod Pairing
use whatsapp.Common.{ℕ, suc, ◌+◌, ◌-◌, Bool, true, false, Option, none, some, List, [], ◌∷◌}
use whatsapp.Common.{if◌then◌else◌, ltb, leb, ◌++◌, length, Outcome, ok, err, panic}
use whatsapp.Common.Text.{Str, codes}
use whatsapp.Waid.Id.{make_user_login_id}
use whatsapp.Connector.Login.{
  WaLogin, LoginError, login_timeout, no_515, not_created, failed, PairSuccess, LoginEvent,
  LoginStep, complete_step, qr_at, get_qr_index, handle_events, cancel,
}

-- The login that `Wait` asks the bridge to make. It is new, and the portals of its history transfer
-- are still to be made.
pub record NewLogin : Type 0 where
  pub login_id : Str
  pub remote_name : Str
  pub name : Str
  pub device : ℕ
  pub timezone : Str

pub record Waited : Type 0 where
  pub login : WaLogin
  pub result : Outcome LoginError LoginStep
  pub created : Option NewLogin  -- made and connected

-- The case of the `select` that is taken; in the flow of a pairing code there is no timer.
pub data Wake : Type 0 where
  timer_fired context_done completed : Wake

abbrev pub ended : WaLogin → LoginError → Waited
ended wl e = record { login = cancel wl; result = err e; created = none }

-- What happens during the call: which case of the `select` is taken, the events before it, the
-- events during the wait for the 515, and whether the bridge can make a login.
pub record Around : Type 0 where
  pub wake : Wake
  pub before : List (ℕ × LoginEvent)
  pub later : List (ℕ × LoginEvent)
  pub can_create : NewLogin → Bool

new_login : WaLogin → PairSuccess → NewLogin
new_login wl s = record {
  login_id = make_user_login_id s.id;
  remote_name = codes "+" ++ s.id.user;
  name = s.business_name;
  device = s.id.device;
  timezone = wl.timezone;
}

create : (NewLogin → Bool) → WaLogin → Option PairSuccess → Waited
create can_create wl none = record { login = wl; result = panic; created = none }
create can_create wl (some s) =
    let n : NewLogin = new_login wl s in
    if can_create n
    then record { login = wl; result = ok (complete_step n.login_id); created = some n }
    else record { login = wl; result = err not_created; created = none }

after_515 : (NewLogin → Bool) → WaLogin → Waited
after_515 can_create wl =
    if wl.received_515 then create can_create (cancel wl) wl.login_success else ended wl no_515

-- The end of `Wait`, after the login has completed.
complete_from : Around → Option LoginError → WaLogin → Waited
complete_from a (some e) wl = ended wl e
complete_from a none wl = after_515 a.can_create (handle_events a.later wl)

show_code : ℕ → WaLogin → Waited
show_code i wl = record {
  login = record wl { prev_qr_index = i };
  result = qr_at i wl.qrs;
  created = none;
}

-- The `select` and what follows it; the index is the next one.
after_select : Around → Wake → ℕ → WaLogin → Waited
after_select a timer_fired next wl =
    if leb (length wl.qrs) next then ended wl login_timeout else show_code next wl
after_select a context_done next wl = ended wl failed
after_select a completed next wl = complete_from a wl.login_error wl

wait_for_pairing : Around → Wake → WaLogin → Waited
wait_for_pairing a context_done wl = ended wl failed
wait_for_pairing a _ wl = complete_from a wl.login_error wl

-- `wait_for_code` at the index that `getQRIndex` gives.
wait_for_code : Around → Option ℕ → WaLogin → Waited
wait_for_code a none wl = after_select a a.wake 0 (handle_events a.before wl)
wait_for_code a (some current) wl =
    if ltb wl.prev_qr_index current
    then show_code current wl
    else after_select a a.wake (suc current) (handle_events a.before wl)

-- `Wait` at the time `now`.
unfoldable pub wait : ℕ → Around → WaLogin → Waited
unfolding wait_for_code wait_for_pairing after_select show_code complete_from after_515 create
    new_login
wait now a wl =
    if wl.phone_code
    then wait_for_pairing a a.wake (handle_events a.before wl)
    else wait_for_code a (get_qr_index (now - wl.start_time)).0 wl
