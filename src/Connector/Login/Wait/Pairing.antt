-- ===== src/Connector/Login/Wait/Pairing.antt =====
-- pkg/connector/login.go: the pairing that a login is made of.
use whatsapp.Connector.Login.{qr}
use whatsapp.Common.{ℕ, ◌≡◌, refl, ap}
use whatsapp.Common.{Bool, true, false, Option, some, List, [], ◌∷◌, ◌++◌}
use whatsapp.Common.{if◌then◌else◌, is_some, ◌∙◌}
use whatsapp.Connector.Login.{
  WaLogin, LoginEvent, PairSuccess, pair_success, manual_login_reconnect, handle_event,
  handle_events, handle_open,
}

abbrev pairing_after : Option PairSuccess → LoginEvent → Option PairSuccess
pairing_after o (pair_success s) = some s
pairing_after o _ = o

abbrev is_reconnect : LoginEvent → Bool
is_reconnect manual_login_reconnect = true
is_reconnect _ = false

-- The last pairing of a list of events, or else the one before them.
abbrev pub latest_pairing : Option PairSuccess → List (ℕ × LoginEvent) → Option PairSuccess
latest_pairing o [] = o
latest_pairing o ((now, e) ∷ es) = latest_pairing (pairing_after o e) es

-- The wish to reconnect comes only after a pairing.
abbrev pub InOrder : Option PairSuccess → List (ℕ × LoginEvent) → Type 0
InOrder o [] = Unit
InOrder o ((now, e) ∷ es) =
    (is_reconnect e ≡ true → is_some o ≡ true) × InOrder (pairing_after o e) es

-- A login that was asked to reconnect has a pairing.
abbrev pub IsPairedFirst : WaLogin → Type 0
IsPairedFirst wl = wl.received_515 ≡ true → is_some wl.login_success ≡ true

handled_open :
    (now : ℕ) (e : LoginEvent) (wl : WaLogin)
    → wl.closed ≡ false
    → handle_event now e wl ≡ handle_open now e wl
unfolding handle_event
handled_open now e wl h = ap (λ b. if b then wl else handle_open now e wl) h

open-closed : (now : ℕ) (e : LoginEvent) (wl : WaLogin) → (handle_open now e wl).closed ≡ wl.closed
open-closed now (qr cs) wl = refl
open-closed now _ wl = refl

open-success :
    (now : ℕ) (e : LoginEvent) (wl : WaLogin)
    → (handle_open now e wl).login_success ≡ pairing_after wl.login_success e
open-success now (pair_success s) wl = refl
open-success now _ wl = refl

open-IsPairedFirst :
    (now : ℕ) (e : LoginEvent) (wl : WaLogin)
    → IsPairedFirst wl
    → (is_reconnect e ≡ true → is_some wl.login_success ≡ true)
    → IsPairedFirst (handle_open now e wl)
open-IsPairedFirst now (pair_success s) wl p r = λ h. refl
open-IsPairedFirst now manual_login_reconnect wl p r = λ h. r refl
open-IsPairedFirst now _ wl p r = p

-- What a list of events leaves of an open login.
pub record After (es : List (ℕ × LoginEvent)) (wl wl' : WaLogin) : Type 0 where
  pub still_open : wl'.closed ≡ false
  pub success : wl'.login_success ≡ latest_pairing wl.login_success es
  pub kept_order : IsPairedFirst wl → InOrder wl.login_success es → IsPairedFirst wl'

pub events-After :
    (es : List (ℕ × LoginEvent)) (wl : WaLogin)
    → wl.closed ≡ false
    → After es wl (handle_events es wl)
unfolding handle_events
events-After [] wl h = record { still_open = h; success = refl; kept_order = λ p o. p }
events-After ((now, e) ∷ es) wl h =
    let wl' : WaLogin = handle_open now e wl in
    let rest : After es wl' (handle_events es wl') =
      events-After es wl' (open-closed now e wl ∙ h) in
    rw (handled_open now e wl h) (record {
      still_open = rest.still_open;
      success = rest.success ∙ ap (λ o. latest_pairing o es) (open-success now e wl);
      kept_order = λ p o.
          rest.kept_order (open-IsPairedFirst now e wl p o.0) (rw (open-success now e wl) o.1);
    })

pub InOrder-append :
    (o : Option PairSuccess) (es fs : List (ℕ × LoginEvent))
    → InOrder o (es ++ fs)
    → InOrder o es × InOrder (latest_pairing o es) fs
InOrder-append o [] fs h = (tt, h)
InOrder-append o ((now, e) ∷ es) fs h =
    let rest : InOrder (pairing_after o e) es × InOrder (latest_pairing (pairing_after o e) es) fs =
      InOrder-append (pairing_after o e) es fs h.1 in
    ((h.0, rest.0), rest.1)

pub latest_pairing-append :
    (o : Option PairSuccess) (es fs : List (ℕ × LoginEvent))
    → latest_pairing o (es ++ fs) ≡ latest_pairing (latest_pairing o es) fs
latest_pairing-append o [] fs = refl
latest_pairing-append o ((now, e) ∷ es) fs = latest_pairing-append (pairing_after o e) es fs
