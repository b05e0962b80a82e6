-- ===== src/Connector/Session/Tests.antt =====
-- Runs of a session on concrete data, and the theorem about it at a concrete input.
use whatsapp.Common.{true, false, none, some, List, [], ◌∷◌, ◌≡◌, refl}
use whatsapp.Common.Text.{codes}
use whatsapp.Connector.Session.{
  Session, disconnect, sync_remote_profile, notify_offline_sync_waiter,
}
use whatsapp.Connector.Session.Loops.{
  Call, connecting, background_begin, notifying, run_calls, IsControlled, calls-IsControlled,
}

abbrev fresh : Session
fresh = record {
  has_client = true;
  is_connected = false;
  loops = [];
  stop_loops = none;
  next_context = 0;
  waiter = none;
  sent = [];
}

abbrev reconnects : List Call
reconnects =
    connecting true true ∷ connecting true false ∷ background_begin true ∷ notifying true ∷ []

calls-IsControlled_example :
    IsControlled (run_calls reconnects fresh)
    × ((disconnect (run_calls reconnects fresh)).loops ≡ [])
calls-IsControlled_example = calls-IsControlled reconnects fresh refl

-- The channel of a background connection holds one value.
second_dropped :
    (notify_offline_sync_waiter false
      (notify_offline_sync_waiter true (record fresh { waiter = some none }))).waiter
    ≡ some (some true)
unfolding notify_offline_sync_waiter
second_dropped = refl

push_name_taken :
    sync_remote_profile
      (codes "1")
      []
      (codes "Al")
      (some (record { id = codes "1"; avatar_mxc = codes "mxc" }))
      (record { name = []; avatar = [] })
    ≡ (record { name = codes "Al"; avatar = codes "mxc" }, true)
unfolding sync_remote_profile
push_name_taken = refl
