-- ===== src/Connector/Login/Wait/Ending.antt =====
-- pkg/connector/login.go: how a call of `Wait` ends, and what it needs to end well.
use whatsapp.Common.{if_both}
use whatsapp.Common.{ℕ, zero, suc, ◌-◌, ◌≡◌, ◌≢◌, ◌⊎◌, inl, inr, refl, ap}
use whatsapp.Common.{◌∙◌, Bool, true, false, Option, none, some, List, [], ◌∷◌, ltb, leb}
use whatsapp.Common.{length, if◌then◌else◌, ok, panic}
use whatsapp.Common.Text.{Str}
use whatsapp.Connector.Login.{
  WaLogin, LoginError, login_timeout, qr_step, qr_at, get_qr_index, LoginEvent, PairSuccess,
  handle_event, handle_events, handle_open, cancel,
}
use whatsapp.Connector.Login.{failed}
use whatsapp.Connector.Login.Wait.{
  Waited, Wake, Around, NewLogin, timer_fired, context_done, completed, wait, ended, show_code,
  create, new_login, after_515, complete_from, after_select, wait_for_pairing, wait_for_code,
  no_515,
}

-- The login has been cancelled: its client is disconnected, and it handles no event any more.
abbrev pub IsOver : WaLogin → Type 0
IsOver wl =
    (wl.closed ≡ true)
    × (wl.has_handler ≡ false)
    × (wl.is_connected ≡ false)
    × ((es : List (ℕ × LoginEvent)) → handle_events es wl ≡ wl)

ignored : (now : ℕ) (e : LoginEvent) (wl : WaLogin) → wl.closed ≡ true → handle_event now e wl ≡ wl
unfolding handle_event
ignored now e wl h = ap (λ b. if b then wl else handle_open now e wl) h

deaf : (es : List (ℕ × LoginEvent)) (wl : WaLogin) → wl.closed ≡ true → handle_events es wl ≡ wl
unfolding handle_events handle_event
deaf [] wl h = refl
deaf ((now, e) ∷ es) wl h = ap (λ x. handle_events es x) (ignored now e wl h) ∙ deaf es wl h

cancel-IsOver : (wl : WaLogin) → IsOver (cancel wl)
unfolding cancel
cancel-IsOver wl = (refl, refl, refl, λ es. deaf es (cancel wl) refl)

-- What a call may return: a code, with the login going on, or anything else, with the login over.
abbrev pub GoesOn : Waited → Type 0
GoesOn w = (c : Str) × (w.result ≡ ok (qr_step c))

shown_at :
    (i : ℕ) (cs : List Str) → ((c : Str) × (qr_at i cs ≡ ok (qr_step c))) ⊎ (qr_at i cs ≡ panic)
shown_at i [] = inr refl
shown_at zero (c ∷ cs) = inl (c, refl)
shown_at (suc i) (c ∷ cs) = shown_at i cs

abbrev Ends : Waited → Type 0
Ends w = GoesOn w ⊎ ((w.result ≡ panic) ⊎ IsOver w.login)

ended-Ends : (wl : WaLogin) (e : LoginError) → Ends (ended wl e)
ended-Ends wl e = inr (inr (cancel-IsOver wl))

show_code-Ends : (i : ℕ) (wl : WaLogin) → Ends (show_code i wl)
unfolding show_code
show_code-Ends i wl = elim (shown_at i wl.qrs) [ inl s ↦ inl s | inr p ↦ inr (inl p) ]

create-Ends :
    (can_create : NewLogin → Bool) (wl : WaLogin) (s : Option PairSuccess)
    → IsOver wl
    → Ends (create can_create wl s)
unfolding create
create-Ends can_create wl none o = inr (inl refl)
create-Ends can_create wl (some s) o =
    if_both Ends (can_create (new_login wl s)) _ _ (inr (inr o)) (inr (inr o))

after_515-Ends : (can_create : NewLogin → Bool) (wl : WaLogin) → Ends (after_515 can_create wl)
unfolding after_515
after_515-Ends can_create wl =
    if_both Ends wl.received_515 _ _
      (create-Ends can_create (cancel wl) wl.login_success (cancel-IsOver wl))
      (ended-Ends wl no_515)

complete_from-Ends :
    (a : Around) (e : Option LoginError) (wl : WaLogin) → Ends (complete_from a e wl)
unfolding complete_from
complete_from-Ends a (some e) wl = ended-Ends wl e
complete_from-Ends a none wl = after_515-Ends a.can_create (handle_events a.later wl)

after_select-Ends :
    (a : Around) (w : Wake) (next : ℕ) (wl : WaLogin) → Ends (after_select a w next wl)
unfolding after_select
after_select-Ends a timer_fired next wl =
    if_both Ends (leb (length wl.qrs) next) _ _ (ended-Ends wl login_timeout)
      (show_code-Ends next wl)
after_select-Ends a context_done next wl = ended-Ends wl failed
after_select-Ends a completed next wl = complete_from-Ends a wl.login_error wl

pairing-Ends : (a : Around) (w : Wake) (wl : WaLogin) → Ends (wait_for_pairing a w wl)
unfolding wait_for_pairing
pairing-Ends a timer_fired wl = complete_from-Ends a wl.login_error wl
pairing-Ends a context_done wl = ended-Ends wl failed
pairing-Ends a completed wl = complete_from-Ends a wl.login_error wl

code-Ends : (a : Around) (i : Option ℕ) (wl : WaLogin) → Ends (wait_for_code a i wl)
unfolding wait_for_code
code-Ends a none wl = after_select-Ends a a.wake 0 (handle_events a.before wl)
code-Ends a (some i) wl =
    if_both Ends (ltb wl.prev_qr_index i) _ _ (show_code-Ends i wl)
      (after_select-Ends a a.wake (suc i) (handle_events a.before wl))

wait-Ends : (now : ℕ) (a : Around) (wl : WaLogin) → Ends (wait now a wl)
unfolding wait
wait-Ends now a wl =
    if_both Ends wl.phone_code _ _ (pairing-Ends a a.wake (handle_events a.before wl))
      (code-Ends a (get_qr_index (now - wl.start_time)).0 wl)

-- Every call of `Wait` that does not panic shows a QR code or leaves the login over: cancelled, its
-- client disconnected, and deaf to every later event.
pub wait_shows_or_ends :
    (now : ℕ) (a : Around) (wl : WaLogin)
    → (wait now a wl).result ≢ panic
    → GoesOn (wait now a wl) ⊎ IsOver (wait now a wl).login
wait_shows_or_ends now a wl h = elim (wait-Ends now a wl) [
  | inl g ↦ inl g
  | inr (inl p) ↦ absurd (h p)
  | inr (inr o) ↦ inr o
]
