-- ===== src/Connector/Session/Loops.antt =====
-- pkg/connector/client.go: how many sets of background loops run.
use whatsapp.Common.{
  ℕ, ◌≡◌, ap, ◌∙◌, Bool, Option, none, some, List, [], ◌∷◌, if◌then◌else◌, ==_refl, if_both,
}
use whatsapp.Connector.Session.{
  Session, send, remove_loop, stopped, start_loops, connect, disconnect, logout_remote,
  notify_offline_sync_waiter, begin_background, end_background, connecting_state,
}

-- The contexts that the client can cancel.
abbrev pub cancellable : Option ℕ → List ℕ
cancellable none = []
cancellable (some n) = n ∷ []

-- Exactly the loops run that the client can cancel: one set of them, or none.
abbrev pub IsControlled : Session → Type 0
IsControlled s = s.loops ≡ cancellable s.stop_loops

stopped-cancellable : (o : Option ℕ) (loops : List ℕ) → loops ≡ cancellable o → stopped o loops ≡ []
unfolding stopped remove_loop
stopped-cancellable none loops h = h
stopped-cancellable (some n) loops h =
    ap (λ l. remove_loop n l) h ∙ ap (λ b. if b then [] else n ∷ []) (==_refl n)

start_loops-IsControlled : (s : Session) → IsControlled s → IsControlled (start_loops s)
unfolding start_loops
start_loops-IsControlled s h =
    ap (λ l. s.next_context ∷ l) (stopped-cancellable s.stop_loops s.loops h)

disconnect-none : (s : Session) → IsControlled s → (disconnect s).loops ≡ []
unfolding disconnect
disconnect-none s h = stopped-cancellable s.stop_loops s.loops h

pub data Call : Type 0 where
  connecting : Bool → Bool → Call
  disconnecting logging_out background_end : Call
  notifying background_begin : Bool → Call

abbrev pub run_call : Call → Session → Session
run_call (connecting alive connects) s = connect alive connects s
run_call disconnecting s = disconnect s
run_call logging_out s = logout_remote s
run_call background_end s = end_background s
run_call (notifying value) s = notify_offline_sync_waiter value s
run_call (background_begin connects) s = (begin_background connects s).0

abbrev pub run_calls : List Call → Session → Session
run_calls [] s = s
run_calls (c ∷ cs) s = run_calls cs (run_call c s)

call-IsControlled : (c : Call) (s : Session) → IsControlled s → IsControlled (run_call c s)
unfolding connect disconnect logout_remote end_background notify_offline_sync_waiter
    begin_background
call-IsControlled (connecting alive connects) s h =
    if_both IsControlled s.has_client _ _
      (if_both IsControlled alive _ _
        (if_both IsControlled connects _ _ (start_loops-IsControlled (send connecting_state s) h)
          (start_loops-IsControlled (send connecting_state s) h))
        h)
      h
call-IsControlled disconnecting s h = disconnect-none s h
call-IsControlled logging_out s h = disconnect-none s h
call-IsControlled background_end s h = disconnect-none s h
call-IsControlled (notifying value) s h = h
call-IsControlled (background_begin connects) s h =
    if_both {A = Session × Bool} (λ r. IsControlled r.0) s.has_client _ _
      (if_both {A = Session × Bool} (λ r. IsControlled r.0) connects _ _ h h) h

-- After any calls on a session whose running loops are the ones it can cancel, this is so again, and
-- after a disconnect no loop runs.
pub calls-IsControlled :
    (cs : List Call) (s : Session)
    → IsControlled s
    → IsControlled (run_calls cs s) × ((disconnect (run_calls cs s)).loops ≡ [])
calls-IsControlled [] s h = (h, disconnect-none s h)
calls-IsControlled (c ∷ cs) s h = calls-IsControlled cs (run_call c s) (call-IsControlled c s h)
