-- ===== src/Connector/Login/Wait/Calm.antt =====
-- pkg/connector/login.go: what `Wait` needs so as not to panic.
use whatsapp.Common.{if_split}
use whatsapp.Common.{ℕ, zero, suc, ◌-◌, ◌≤◌, ◌<◌, ◌≡◌, ◌≢◌, ◌⊎◌, refl}
use whatsapp.Common.{arith, Bool, true, false, Option, none, some, List, [], ◌∷◌, ◌++◌, ltb, leb}
use whatsapp.Common.{length, panic, if_both, is_some}
use whatsapp.Common.Text.{Str}
use whatsapp.Connector.Login.{
  WaLogin, LoginError, login_timeout, qr_at, get_qr_index, PairSuccess, handle_events, cancel,
  no_515, failed,
}
use whatsapp.Connector.Login.Wait.{
  Waited, Wake, Around, NewLogin, timer_fired, context_done, completed, wait, ended, show_code,
  create, new_login, after_515, complete_from, after_select, wait_for_pairing, wait_for_code,
}
use whatsapp.Connector.Login.Wait.Pairing.{
  latest_pairing, InOrder, IsPairedFirst, After, events-After, InOrder-append,
}

Calm : Waited → Type 0
Calm w = w.result ≢ panic

qr_at-in_range : (i : ℕ) (cs : List Str) → i < length cs → qr_at i cs ≢ panic
qr_at-in_range i [] h e = absurd (omega (arith, h))
qr_at-in_range zero (c ∷ cs) h e = cc
qr_at-in_range (suc i) (c ∷ cs) h e = qr_at-in_range i cs (omega (arith, h)) e

show_code-Calm : (i : ℕ) (wl : WaLogin) → i < length wl.qrs → Calm (show_code i wl)
unfolding show_code Calm
show_code-Calm i wl h = qr_at-in_range i wl.qrs h

ended-Calm : (wl : WaLogin) (e : LoginError) → Calm (ended wl e)
unfolding Calm
ended-Calm wl e h = cc

create-Calm :
    (can_create : NewLogin → Bool) (wl : WaLogin) (o : Option PairSuccess)
    → is_some o ≡ true
    → Calm (create can_create wl o)
unfolding create Calm
create-Calm can_create wl none h = absurd cc
create-Calm can_create wl (some s) h =
    if_both Calm (can_create (new_login wl s)) _ _ (λ x. cc) (λ x. cc)

after_515-Calm :
    (can_create : NewLogin → Bool) (wl : WaLogin)
    → IsPairedFirst wl
    → Calm (after_515 can_create wl)
unfolding after_515 cancel
after_515-Calm can_create wl p =
    if_split Calm wl.received_515 _ _
      (λ e. create-Calm can_create (cancel wl) wl.login_success (p e)) (λ e. ended-Calm wl no_515)

later-IsPairedFirst :
    (a : Around) (wl wl' : WaLogin)
    → After a.before wl wl'
    → IsPairedFirst wl
    → InOrder wl.login_success (a.before ++ a.later)
    → IsPairedFirst (handle_events a.later wl')
later-IsPairedFirst a wl wl' h p o =
    let parts : InOrder wl.login_success a.before
        × InOrder (latest_pairing wl.login_success a.before) a.later =
      InOrder-append wl.login_success a.before a.later o in
    (events-After a.later wl' h.still_open).kept_order (h.kept_order p parts.0)
      (rw h.success parts.1)

module _ (a : Around) (wl : WaLogin) (p : IsPairedFirst wl)
    (o : InOrder wl.login_success (a.before ++ a.later)) where
  complete_from-Calm :
      (e : Option LoginError) (wl' : WaLogin) → After a.before wl wl' → Calm (complete_from a e wl')
  unfolding complete_from
  complete_from-Calm (some e) wl' h = ended-Calm wl' e
  complete_from-Calm none wl' h =
      after_515-Calm a.can_create (handle_events a.later wl') (later-IsPairedFirst a wl wl' h p o)

  select-Calm :
      (w : Wake) (next : ℕ) (wl' : WaLogin)
      → After a.before wl wl'
      → Calm (after_select a w next wl')
  unfolding after_select
  select-Calm timer_fired next wl' h =
      if_split Calm (leb (length wl'.qrs) next) _ _ (λ e. ended-Calm wl' login_timeout)
        (λ e. show_code-Calm next wl' (ground (arith, e)))
  select-Calm context_done next wl' h = ended-Calm wl' failed
  select-Calm completed next wl' h = complete_from-Calm wl'.login_error wl' h

  pairing-Calm :
      (w : Wake) (wl' : WaLogin) → After a.before wl wl' → Calm (wait_for_pairing a w wl')
  unfolding wait_for_pairing
  pairing-Calm timer_fired wl' h = complete_from-Calm wl'.login_error wl' h
  pairing-Calm context_done wl' h = ended-Calm wl' failed
  pairing-Calm completed wl' h = complete_from-Calm wl'.login_error wl' h

  code-Calm :
      (i : Option ℕ)
      → ((j : ℕ) → i ≡ some j → j < length wl.qrs)
      → wl.closed ≡ false
      → Calm (wait_for_code a i wl)
  unfolding wait_for_code
  code-Calm none r h = select-Calm a.wake 0 (handle_events a.before wl) (events-After a.before wl h)
  code-Calm (some i) r h =
      if_both Calm (ltb wl.prev_qr_index i) _ _ (show_code-Calm i wl (r i refl))
        (select-Calm a.wake (suc i) (handle_events a.before wl) (events-After a.before wl h))

current_below_six : (t j : ℕ) → (get_qr_index t).0 ≡ some j → j < 6
unfolding get_qr_index
current_below_six t j h = ground arith

-- `Wait` on an open login does not panic if the wish to reconnect comes only after a pairing, before
-- and during the call, and if WhatsApp sent six QR codes or more, or the flow is that of a pairing code.
pub wait_calm :
    (now : ℕ) (a : Around) (wl : WaLogin)
    → wl.closed ≡ false
    → IsPairedFirst wl
    → InOrder wl.login_success (a.before ++ a.later)
    → (wl.phone_code ≡ true) ⊎ (6 ≤ length wl.qrs)
    → (wait now a wl).result ≢ panic
unfolding wait Calm
wait_calm now a wl h p o q =
    if_split Calm wl.phone_code _ _
      (λ e. pairing-Calm a wl p o a.wake (handle_events a.before wl) (events-After a.before wl h))
      (λ e.
        code-Calm a wl p o (get_qr_index (now - wl.start_time)).0
          (λ j i. ground (arith, q, current_below_six (now - wl.start_time) j i)) h)
