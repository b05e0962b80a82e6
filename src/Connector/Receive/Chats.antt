-- ===== src/Connector/Receive/Chats.antt =====
-- The handlers of pkg/connector/handlewhatsapp.go for calls, identity changes, deletions and the
-- settings of a chat.
pub mod Calls
use whatsapp.Common.{
  ℕ, zero, suc, ◌+◌, ◌*◌, Bool, true, false, ◌&&◌, ◌||◌, not, Option, none, some, List, [],
}
use whatsapp.Common.{◌∷◌, ◌++◌, if◌then◌else◌, ltb}
use whatsapp.Common.Text.{Str, codes, str_eq}
use whatsapp.Waid.Jid.{Jid, JidApi, server_eq, hidden_user, default_user}
use whatsapp.Waid.Id.{make_message_id, make_fake_message_id}
use whatsapp.Waid.Decimal.{format_uint}
use whatsapp.Connector.Client.{Client}
use whatsapp.Connector.Ids.{PortalKey, EventSender, make_wa_portal_key, make_event_sender}
use whatsapp.Connector.Receive.Config.{Config}
use whatsapp.Connector.Receive.Event.{
  RemoteEvent, notice, chat_delete, message_remove, user_local, chat_resync, read_up_to,
  UserLocalInfo, MutedUntil, muted_forever, unmuted, muted_until,
}

abbrev pub call_event_max_age : ℕ
call_event_max_age = 15 * 60

-- `convertCallStart`: the text of the notice.
unfoldable pub convert_call_start : Str → Str
convert_call_start call_type =
    if not (str_eq call_type [])
    then codes "Incoming " ++ (call_type ++ codes " call. Use the WhatsApp app to answer.")
    else codes "Incoming call. Use the WhatsApp app to answer."

-- `convertIdentityChange`: the text of the notice about the ghost with this name.
unfoldable pub convert_identity_change : Str → Bool → ℕ → Str
convert_identity_change name implicit device =
    if implicit
    then codes "Your security code with "
      ++ (name ++ (codes " (device #" ++ (format_uint device ++ codes ") changed.")))
    else codes "Your security code with " ++ (name ++ codes " changed.")

-- A protobuf `int64`: not negative, or minus `n + 1`.
pub data ℤ : Type 0 where
  pos : ℕ → ℤ
  negsuc : ℕ → ℤ

abbrev end_time : ℤ → MutedUntil
end_time (pos zero) = muted_forever
end_time (pos (suc n)) = muted_until (suc n)
end_time (negsuc n) = muted_forever

module _ (api : JidApi) (wa : Client) (config : Config) where
  caller : Jid → Jid → Jid
  caller sender sender_alt =
      if server_eq sender.server hidden_user && server_eq sender_alt.server default_user
      then sender_alt
      else sender

  -- The chat of a call: its group, or the caller.
  unfoldable pub call_chat : Jid → Jid → Jid → Jid
  unfolding caller
  call_chat group sender sender_alt = if api.is_empty group then caller sender sender_alt else group

  call_notice : Jid → Jid → Str → Str → ℕ → RemoteEvent
  call_notice chat sender id call_type ts =
      notice (make_wa_portal_key api wa chat) (make_event_sender api wa sender) ts true
        (convert_call_start call_type) (make_fake_message_id api chat sender (codes "call-" ++ id))

  -- `handleWACallStart`
  unfoldable pub handle_wa_call_start : ℕ → Jid → Jid → Jid → Str → Str → ℕ → Option RemoteEvent
  unfolding caller call_chat call_notice
  handle_wa_call_start now group sender sender_alt id call_type ts =
      if not config.call_start_notices || ltb (ts + call_event_max_age) now
      then none
      else some (
          call_notice (call_chat group sender sender_alt) (caller sender sender_alt) id call_type
            ts)

  -- `handleWAIdentityChange`; the ID has the time in milliseconds, the ghost's name is given.
  unfoldable pub handle_wa_identity_change : Jid → Bool → Str → ℕ → ℕ → Option RemoteEvent
  handle_wa_identity_change jid implicit name ts millis =
      if not config.identity_change_notices
      then none
      else some (
          notice (make_wa_portal_key api wa jid) (make_event_sender api wa jid) ts false
            (convert_identity_change name implicit jid.device)
            (make_fake_message_id api jid jid (codes "idchange-" ++ format_uint millis)))

  unfoldable pub handle_wa_delete_chat : Jid → ℕ → RemoteEvent
  handle_wa_delete_chat jid ts = chat_delete (make_wa_portal_key api wa jid) ts true true

  unfoldable pub handle_wa_delete_for_me : Jid → Jid → Str → ℕ → RemoteEvent
  handle_wa_delete_for_me chat sender id ts =
      message_remove (make_wa_portal_key api wa chat) ts (make_message_id api chat sender id)

  unfoldable pub handle_wa_mark_chat_as_read : Jid → ℕ → RemoteEvent
  handle_wa_mark_chat_as_read jid ts =
      read_up_to (make_wa_portal_key api wa jid) (make_event_sender api wa wa.jid) ts

  unfoldable pub handle_wa_user_local_portal_info : Jid → ℕ → UserLocalInfo → RemoteEvent
  handle_wa_user_local_portal_info chat ts info =
      user_local (make_wa_portal_key api wa chat) ts info

  unfoldable pub handle_wa_mute : Jid → ℕ → Bool → ℤ → RemoteEvent
  unfolding handle_wa_user_local_portal_info
  handle_wa_mute jid ts muted mute_end =
      handle_wa_user_local_portal_info jid ts
        (record { muted = some (if muted then end_time mute_end else unmuted); tag = none })

  unfoldable pub handle_wa_archive : Jid → ℕ → Bool → RemoteEvent
  unfolding handle_wa_user_local_portal_info
  handle_wa_archive jid ts archived =
      handle_wa_user_local_portal_info jid ts
        (record { muted = none; tag = some (if archived then config.archive_tag else []) })

  unfoldable pub handle_wa_pin : Jid → ℕ → Bool → RemoteEvent
  unfolding handle_wa_user_local_portal_info
  handle_wa_pin jid ts pinned =
      handle_wa_user_local_portal_info jid ts
        (record { muted = none; tag = some (if pinned then config.pinned_tag else []) })

  -- `handleWAJoinedGroup`: `pop` takes a key out of the groups that are being created here, and
  -- says whether it was there; other groups are resynced.
  unfoldable pub handle_wa_joined_group :
      {S : Type 0} → (Str → S → Bool × S) → Str → Jid → S → S × Option RemoteEvent
  handle_wa_joined_group pop create_key jid creating =
      let (found, rest) = pop create_key creating in
      (rest, if found then none else some (chat_resync (make_wa_portal_key api wa jid)))

  -- `handleWANewsletterLeave`, which gives no time.
  unfoldable pub handle_wa_newsletter_leave : Jid → RemoteEvent
  handle_wa_newsletter_leave id = chat_delete (make_wa_portal_key api wa id) 0 true false
