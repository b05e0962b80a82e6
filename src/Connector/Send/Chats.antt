-- ===== src/Connector/Send/Chats.antt =====
-- Mutes, tags, unread marks and deletions of chats in pkg/connector/handlematrix.go.
pub mod Deletion
use whatsapp.Common.{
  ℕ, ◌*◌, Bool, true, false, ◌&&◌, ◌||◌, not, Option, none, some, List, [], ◌∷◌, if◌then◌else◌, ltb,
  ◌==◌, Outcome, ok, err, panic, zero, suc,
}
use whatsapp.Common.Text.{Str, str_eq, codes}
use whatsapp.Waid.Jid.{Jid, JidApi, server_eq, jid_eq, group}
use whatsapp.Waid.Id.{
  IdError, ParsedMessageId, parse_portal_id, parse_message_id, parse_user_id, make_user_id,
}
use whatsapp.Connector.Client.{Client}
use whatsapp.Connector.Ids.{MessageKey}
use whatsapp.Connector.Receive.Event.{TypingType, typing_text, typing_recording_media}
use whatsapp.Connector.Receive.Config.{Config}
use whatsapp.Connector.Send.Steps.{
  SendError, Handled, refuse, return, parsed, given, after, bad_portal_id, failed, bad_timer,
  invite_to_dm, name_of_dm, topic_of_dm, avatar_of_dm, bad_avatar, unknown_target, no_participants,
  no_last_message, participant_refused,
}
use whatsapp.Connector.Send.Requests.{
  Request, ParticipantChange, asked, in_portal, add_participant, remove_participant, send_presence,
  send_chat_presence, set_disappearing_timer, update_group_participants, set_group_name,
  set_group_topic, set_group_photo, mute, pin, mark_chat_as_read, leave_group, delete_chat,
}

module _ (api : JidApi) (wa : Client) (accepts : Request → Bool) where
  -- `HandleMute`; times in milliseconds, `forever` is the time that stands for a mute without end.
  unfoldable pub handle_mute : ℕ → ℕ → Str → ℕ → Handled Request Unit
  handle_mute now forever portal muted_until = in_portal api accepts portal λ chat.
      let muted = ltb now muted_until in
      asked api accepts
        (mute chat muted (if not muted || muted_until == forever then none else some muted_until))
        (return tt)

  -- `HandleRoomTag`
  unfoldable pub handle_room_tag : Str → Bool → Handled Request Unit
  handle_room_tag portal is_favorite =
      in_portal api accepts portal λ chat. asked api accepts (pin chat is_favorite) (return tt)

  message_key : Jid → Outcome IdError ParsedMessageId → Option MessageKey
  message_key chat (ok p) = some (record {
    remote_jid = api.to_string chat;
    key_id = p.id;
    from_me = some (
        jid_eq (api.to_non_ad p.sender) (api.to_non_ad wa.jid)
        || jid_eq (api.to_non_ad p.sender) (api.to_non_ad wa.store_lid));
    participant = if server_eq chat.server group then some (api.to_string p.sender) else none;
  })
  message_key chat _ = none

  -- `getLastMessageInfo`, on the last message of the portal, if there is one: its ID and time.
  unfoldable pub get_last_message_info : Jid → Option (Str × ℕ) → ℕ × Option MessageKey
  unfolding message_key
  get_last_message_info chat none = (0, none)
  get_last_message_info chat (some (id, ts)) = (ts, message_key chat (parse_message_id api id))

  -- `HandleMarkedUnread`; the outer `none` is an error of the database.
  unfoldable pub handle_marked_unread :
      Str → Bool → Option (Option (Str × ℕ)) → Handled Request Unit
  handle_marked_unread portal unread last = in_portal api accepts portal λ chat.
      given failed last λ message.
        let info = get_last_message_info chat message in
        asked api accepts (mark_chat_as_read chat unread info.0 info.1) (return tt)

  delete_after : Jid → ℕ × Option MessageKey → Handled Request Unit
  delete_after chat (ts, none) = refuse no_last_message
  delete_after chat (ts, some key) = asked api accepts (delete_chat chat ts key) (return tt)

  delete_rest : Jid → Option (Option (Str × ℕ)) → Handled Request Unit
  unfolding delete_after
  delete_rest chat last =
      given failed last λ message. delete_after chat (get_last_message_info chat message)

  -- `HandleMatrixDeleteChat`; `joined` says whether the user is in the room, `none` is an error.
  unfoldable pub handle_matrix_delete_chat :
      Str → Option Bool → Option (Option (Str × ℕ)) → Handled Request Unit
  unfolding delete_rest
  handle_matrix_delete_chat portal joined last = in_portal api accepts portal λ chat.
      if server_eq chat.server group
      then given failed joined (λ is_in.
        if is_in
        then asked api accepts (leave_group chat) (delete_rest chat last)
        else delete_rest chat last)
      else delete_rest chat last
