-- ===== src/Connector/Login/Wait/Made.antt =====
-- pkg/connector/login.go: the login that `Wait` makes at its end.
use whatsapp.Common.{ℕ, zero, suc, ◌-◌, ◌≡◌, ◌≢◌, refl, sym, ap}
use whatsapp.Common.{Bool, false, Option, none, some, List, [], ◌∷◌, ◌++◌, ltb, leb}
use whatsapp.Common.{length, Outcome, ok, if_both, ◌∙◌}
use whatsapp.Common.Text.{Str}
use whatsapp.Waid.Id.{make_user_login_id}
use whatsapp.Connector.Login.{
  WaLogin, LoginError, login_timeout, LoginStep, complete_step, qr_at, get_qr_index, PairSuccess,
  handle_events, cancel, no_515, failed,
}
use whatsapp.Connector.Login.Wait.{
  Waited, Wake, Around, NewLogin, timer_fired, context_done, completed, wait, ended, show_code,
  create, new_login, after_515, complete_from, after_select, wait_for_pairing, wait_for_code,
}
use whatsapp.Connector.Login.Wait.Pairing.{
  latest_pairing, After, events-After, latest_pairing-append,
}

-- A call that completes the login does so with this pairing, of which it makes the login.
record MadeOf (o : Option PairSuccess) (w : Waited) : Type 0 where
  made_of :
      (login_id : Str)
      → w.result ≡ ok (complete_step login_id)
      → (s : PairSuccess) × (n : NewLogin) × (o ≡ some s)
        × (login_id ≡ make_user_login_id s.id)
        × (w.created ≡ some n)
        × (n.login_id ≡ login_id)

result_id : Outcome LoginError LoginStep → Str
result_id (ok (complete_step x)) = x
result_id _ = []

not_made :
    (o : Option PairSuccess) (w : Waited)
    → ((x : Str) → w.result ≢ ok (complete_step x))
    → MadeOf o w
not_made o w h = record { made_of = λ x e. absurd (h x e) }

shown-not_complete : (i : ℕ) (cs : List Str) (x : Str) → qr_at i cs ≢ ok (complete_step x)
shown-not_complete i [] x h = cc
shown-not_complete zero (c ∷ cs) x h = cc
shown-not_complete (suc i) (c ∷ cs) x h = shown-not_complete i cs x h

show_code-MadeOf : (o : Option PairSuccess) (i : ℕ) (wl : WaLogin) → MadeOf o (show_code i wl)
unfolding show_code
show_code-MadeOf o i wl = not_made o (show_code i wl) (shown-not_complete i wl.qrs)

ended-MadeOf : (o : Option PairSuccess) (wl : WaLogin) (e : LoginError) → MadeOf o (ended wl e)
ended-MadeOf o wl e = not_made o (ended wl e) (λ x h. cc)

create-MadeOf :
    (can_create : NewLogin → Bool) (wl : WaLogin) (o : Option PairSuccess)
    → MadeOf o (create can_create wl o)
unfolding create new_login result_id
create-MadeOf can_create wl none = not_made none (create can_create wl none) (λ x h. cc)
create-MadeOf can_create wl (some s) =
    if_both (MadeOf (some s)) (can_create (new_login wl s)) _ _
      (record {
        made_of = λ x h. (s, new_login wl s, refl, sym (ap result_id h), refl, ap result_id h);
      })
      (not_made (some s) _ (λ x h. cc))

after_515-MadeOf :
    (can_create : NewLogin → Bool) (wl : WaLogin) (o : Option PairSuccess)
    → wl.login_success ≡ o
    → MadeOf o (after_515 can_create wl)
unfolding after_515 cancel
after_515-MadeOf can_create wl o h =
    if_both (MadeOf o) wl.received_515 _ _
      (rw (sym h) (create-MadeOf can_create (cancel wl) wl.login_success))
      (ended-MadeOf o wl no_515)

later_pairing :
    (a : Around) (wl wl' : WaLogin)
    → After a.before wl wl'
    → (handle_events a.later wl').login_success
      ≡ latest_pairing wl.login_success (a.before ++ a.later)
later_pairing a wl wl' h =
    (events-After a.later wl' h.still_open).success
    ∙ ap (λ o. latest_pairing o a.later) h.success
    ∙ sym (latest_pairing-append wl.login_success a.before a.later)

module _ (a : Around) (wl : WaLogin) where
  made : Option PairSuccess
  made = latest_pairing wl.login_success (a.before ++ a.later)

  complete_from-MadeOf :
      (e : Option LoginError) (wl' : WaLogin)
      → After a.before wl wl'
      → MadeOf made (complete_from a e wl')
  unfolding complete_from made
  complete_from-MadeOf (some e) wl' h = ended-MadeOf made wl' e
  complete_from-MadeOf none wl' h =
      after_515-MadeOf a.can_create (handle_events a.later wl') made (later_pairing a wl wl' h)

  select-MadeOf :
      (w : Wake) (next : ℕ) (wl' : WaLogin)
      → After a.before wl wl'
      → MadeOf made (after_select a w next wl')
  unfolding after_select
  select-MadeOf timer_fired next wl' h =
      if_both (MadeOf made) (leb (length wl'.qrs) next) _ _ (ended-MadeOf made wl' login_timeout)
        (show_code-MadeOf made next wl')
  select-MadeOf context_done next wl' h = ended-MadeOf made wl' failed
  select-MadeOf completed next wl' h = complete_from-MadeOf wl'.login_error wl' h

  pairing-MadeOf :
      (w : Wake) (wl' : WaLogin) → After a.before wl wl' → MadeOf made (wait_for_pairing a w wl')
  unfolding wait_for_pairing
  pairing-MadeOf timer_fired wl' h = complete_from-MadeOf wl'.login_error wl' h
  pairing-MadeOf context_done wl' h = ended-MadeOf made wl' failed
  pairing-MadeOf completed wl' h = complete_from-MadeOf wl'.login_error wl' h

  code-MadeOf : (i : Option ℕ) → wl.closed ≡ false → MadeOf made (wait_for_code a i wl)
  unfolding wait_for_code
  code-MadeOf none h =
      select-MadeOf a.wake 0 (handle_events a.before wl) (events-After a.before wl h)
  code-MadeOf (some i) h =
      if_both (MadeOf made) (ltb wl.prev_qr_index i) _ _ (show_code-MadeOf made i wl)
        (select-MadeOf a.wake (suc i) (handle_events a.before wl) (events-After a.before wl h))

  wait-MadeOf : (now : ℕ) → wl.closed ≡ false → MadeOf made (wait now a wl)
  unfolding wait
  wait-MadeOf now h =
      if_both (MadeOf made) wl.phone_code _ _
        (pairing-MadeOf a.wake (handle_events a.before wl) (events-After a.before wl h))
        (code-MadeOf (get_qr_index (now - wl.start_time)).0 h)

-- A call of `Wait` on an open login that completes has made the login of the last pairing that
-- arrived before or during the call.
pub completes_with_pairing :
    (now : ℕ) (a : Around) (wl : WaLogin) (login_id : Str)
    → wl.closed ≡ false
    → (wait now a wl).result ≡ ok (complete_step login_id)
    → (s : PairSuccess) × (n : NewLogin) × (latest_pairing wl.login_success (a.before ++ a.later)
        ≡ some s)
      × (login_id ≡ make_user_login_id s.id)
      × ((wait now a wl).created ≡ some n)
      × (n.login_id ≡ login_id)
unfolding made
completes_with_pairing now a wl login_id h e = (wait-MadeOf a wl now h).made_of login_id e
