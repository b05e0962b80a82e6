-- ===== src/Connector/Receive/Chats/Calls.antt =====
-- Notices of calls and identity changes, and what a deletion or a new group does.
use whatsapp.Common.{ℕ, ◌+◌, ◌≤◌, ◌≡◌, ◌≢◌, ◌↔◌, refl, arith, true, false, Option, none, some, All}
use whatsapp.Common.{◌++◌, err, ok}
use whatsapp.Common.Text.{Str, codes, str_eq, has_prefix}
use whatsapp.Waid.Jid.{Jid, JidApi, non_ad}
use whatsapp.Waid.Id.{IdError, colon, parse_message_id, make_fake_message_id}
use whatsapp.Waid.Id.RoundTrip.{
  IsReadable, parse_message_id-make_fake_message_id, parse_message_id-make_message_id,
}
use whatsapp.Connector.Client.{Client}
use whatsapp.Connector.Receive.Config.{Config}
use whatsapp.Connector.Receive.Event.{RemoteEvent, message_remove, notice}
use whatsapp.Connector.Receive.Chats.{
  handle_wa_call_start, handle_wa_delete_for_me, call_event_max_age, caller, call_chat,
}

-- The message ID of an event that has one.
abbrev pub event_id : RemoteEvent → Option Str
event_id (notice k s ts c t id) = some id
event_id (message_remove k ts id) = some id
event_id _ = none

module _ (api : JidApi) (wa : Client) (config : Config) where
  -- A call is announced exactly when notices are on and it started at most fifteen minutes ago.
  pub call_announced_iff :
      (now : ℕ) (group sender sender_alt : Jid) (id call_type : Str) (ts : ℕ)
      → (handle_wa_call_start api wa config now group sender sender_alt id call_type ts ≢ none)
        ↔ ((config.call_start_notices ≡ true) × (now ≤ ts + call_event_max_age))
  unfolding handle_wa_call_start
  call_announced_iff now group sender sender_alt id call_type ts =
      (λ h. ground arith, λ h e. ground arith)

  -- The ID of a notice of a call is refused by `ParseMessageID` as fake, if the chat prints
  -- without colons.
  pub call_id_fake :
      (now : ℕ) (group sender sender_alt : Jid) (id call_type : Str) (ts : ℕ) (e : RemoteEvent)
      → All
          (λ c. c ≢ colon)
          (api.to_string (api.to_non_ad (call_chat api wa config group sender sender_alt)))
      → handle_wa_call_start api wa config now group sender sender_alt id call_type ts ≡ some e
      → (t : Str) × (event_id e ≡ some t) × (parse_message_id api t ≡ err IdError.fake_message_id)
  unfolding handle_wa_call_start
  call_id_fake now group sender sender_alt id call_type ts e text h =
      let chat = call_chat api wa config group sender sender_alt in
      let from = caller api wa config sender sender_alt in
      (
        make_fake_message_id api chat from (codes "call-" ++ id),
        ground arith,
        parse_message_id-make_fake_message_id api chat from (codes "call-" ++ id) text,
      )

  -- A message that was deleted on another device is removed by its own ID.
  pub delete_for_me_target :
      (chat sender : Jid) (id : Str) (ts : ℕ)
      → IsReadable api chat
      → IsReadable api sender
      → str_eq (api.to_string (api.to_non_ad chat)) (codes "fake") ≡ false
      → has_prefix (codes "FAKE::") id ≡ false
      → (t : Str) × (event_id (handle_wa_delete_for_me api wa config chat sender id ts) ≡ some t)
        × (parse_message_id api t
            ≡ ok (record { chat = non_ad chat; sender = non_ad sender; id = id }))
  unfolding handle_wa_delete_for_me
  delete_for_me_target chat sender id ts rc rs nf nm =
      (_, refl, parse_message_id-make_message_id api chat sender id rc rs nf nm)
