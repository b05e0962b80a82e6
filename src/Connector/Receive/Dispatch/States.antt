-- ===== src/Connector/Receive/Dispatch/States.antt =====
-- What connection events do to the reported state, the credentials and the waiter.
use whatsapp.Common.{ℕ, ◌≡◌, ◌≢◌, ◌↔◌, arith, true, false, Option, List, [], ◌∷◌}
use whatsapp.Common.{length, ap, if◌then◌else◌}
use whatsapp.Waid.Jid.{empty_jid}
use whatsapp.Connector.PhonePing.{
  disconnected, plain_state, phone_recently_seen, send_hacky_phone_ping, transient_disconnect,
  fill_bridge_state, is_phone_offline,
}
use whatsapp.Connector.Receive.Dispatch.{
  Connection, ConnectionEvent, disconnected_event, offline_sync_completed, handle_connection_event,
  handle_connection_events, handle_wa_logout, synced, prev_error, ping_if_due,
}

-- The client is there, with its own address and device, or it is gone with both.
pub record IsConsistent (c : Connection) : Type 0 where
  pub gone_jid : c.has_client ≡ false → c.jid ≡ empty_jid
  pub gone_device : c.has_client ≡ false → c.meta.wa_device_id ≡ 0

-- Every event keeps the address and the device in step with the client.
pub event-IsConsistent :
    (now : ℕ) (answer : Option ℕ) (e : ConnectionEvent) (c : Connection)
    → IsConsistent c
    → IsConsistent (handle_connection_event now answer e c)
unfolding handle_connection_event handle_wa_logout ping_if_due send_hacky_phone_ping
event-IsConsistent now answer e c h = ground arith

-- Over any sequence of connection events, a login that has no client has no address and no device.
pub events-IsConsistent :
    (es : List (ℕ × Option ℕ × ConnectionEvent)) (c : Connection)
    → IsConsistent c
    → IsConsistent (handle_connection_events es c)
unfolding handle_connection_events
events-IsConsistent [] c h = h
events-IsConsistent ((now, answer, e) ∷ es) c h =
    events-IsConsistent es (handle_connection_event now answer e c)
      (event-IsConsistent now answer e c h)

ne-cons : {A : Type 0} (x : A) (xs : List A) → xs ≢ x ∷ xs
ne-cons x xs e = absurd (omega (arith, ap length e))

-- While the phone was seen in the last twelve days, a lost connection adds no state over the report
-- that the phone is offline, and a plain transient disconnect over any other.
pub disconnected_states :
    (now : ℕ) (answer : Option ℕ) (c : Connection)
    → phone_recently_seen now false c.meta ≡ true
    → (handle_connection_event now answer disconnected_event c).states ≡ (
        if is_phone_offline (prev_error c.states)
        then c.states
        else plain_state transient_disconnect disconnected ∷ c.states)
unfolding handle_connection_event fill_bridge_state
disconnected_states now answer c h = ground arith

-- The waiter of the offline sync is told of success by the event that completes it and by no other.
pub synced_iff :
    (now : ℕ) (answer : Option ℕ) (e : ConnectionEvent) (c : Connection)
    → ((handle_connection_event now answer e c).notified ≡ synced ∷ c.notified)
      ↔ (e ≡ offline_sync_completed)
unfolding handle_connection_event handle_wa_logout ping_if_due
synced_iff now answer e c = (λ h. ground (arith, ne-cons synced c.notified), λ h. ground arith)
