-- ===== src/Connector/Receive/Tests.antt =====
-- Runs of the handlers of WhatsApp events, and their theorems at concrete inputs.
use whatsapp.Common.{ℕ, true, Option}
use whatsapp.Common.{none, some, List, [], ◌∷◌}
use whatsapp.Waid.Sample.{alice_phone}
use whatsapp.Connector.Receive.Dispatch.{
  Connection, ConnectionEvent, connected, logged_out_event, offline_sync_completed,
  reason_logged_out, handle_connection_events,
}
use whatsapp.Connector.Receive.Dispatch.States.{IsConsistent, events-IsConsistent}
use whatsapp.Connector.Sample.{login}

abbrev connection : Connection
connection = record {
  has_client = true;
  jid = alice_phone;
  meta = login;
  states = [];
  notified = [];
}

abbrev evening : List (ℕ × Option ℕ × ConnectionEvent)
evening =
    (2000000, none, connected)
    ∷ (2000001, some 2000001, offline_sync_completed)
    ∷ (2000002, none, logged_out_event reason_logged_out)
    ∷ []

events-IsConsistent_example : IsConsistent (handle_connection_events evening connection)
events-IsConsistent_example =
    events-IsConsistent evening connection (record { gone_jid = λ e. cc; gone_device = λ e. cc })
