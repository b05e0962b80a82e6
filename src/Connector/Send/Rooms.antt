-- ===== src/Connector/Send/Rooms.antt =====
-- Room settings and members in pkg/connector/handlematrix.go.
pub mod Settings
use whatsapp.Common.{
  ℕ, ◌*◌, Bool, true, false, ◌&&◌, ◌||◌, not, Option, none, some, List, [], ◌∷◌, if◌then◌else◌, ltb,
  ◌==◌, Outcome, ok, err, panic, zero, suc,
}
use whatsapp.Common.Text.{Str, str_eq, codes}
use whatsapp.Waid.Jid.{Jid, JidApi, server_eq, jid_eq, group}
use whatsapp.Waid.Id.{
  IdError, ParsedMessageId, parse_portal_id, parse_message_id, parse_user_id, make_user_id,
}
use whatsapp.Connector.Client.{Client}
use whatsapp.Connector.Ids.{MessageKey}
use whatsapp.Connector.Receive.Event.{TypingType, typing_text, typing_recording_media}
use whatsapp.Connector.Receive.Config.{Config}
use whatsapp.Connector.Send.Steps.{
  SendError, Handled, refuse, return, parsed, given, after, bad_portal_id, failed, bad_timer,
  invite_to_dm, name_of_dm, topic_of_dm, avatar_of_dm, bad_avatar, unknown_target, no_participants,
  no_last_message, participant_refused,
}
use whatsapp.Connector.Send.Requests.{
  Request, ParticipantChange, asked, in_portal, add_participant, remove_participant, send_presence,
  send_chat_presence, set_disappearing_timer, update_group_participants, set_group_name,
  set_group_topic, set_group_photo, mute, pin, mark_chat_as_read, leave_group, delete_chat,
}

pub data DisappearingType : Type 0 where
  timer_none timer_after_send : DisappearingType

-- What the handlers read and change of a portal; the hash of the avatar is left out.
pub record Room : Type 0 where
  pub portal_id : Str
  pub is_dm : Bool
  pub name : Str
  pub name_set : Bool
  pub topic : Str
  pub topic_set : Bool
  pub topic_id : Str
  pub avatar_mxc : Str
  pub avatar_id : Str
  pub avatar_set : Bool
  pub timer_type : DisappearingType
  pub timer : ℕ
  pub timer_set_at : ℕ

pub data MembershipChange : Type 0 where
  invite leave kick other_change : MembershipChange

-- A ghost by its ID, a login by the ID of its ghost (`none` if it is not found), or something else.
pub data Target : Type 0 where
  ghost : Str → Target
  login : Option Str → Target
  other_target : Target

-- The four durations that WhatsApp knows, in seconds.
abbrev pub is_known_timer : ℕ → Bool
is_known_timer d = d == 0 || d == 24 * 3600 || d == 7 * (24 * 3600) || d == 90 * (24 * 3600)

-- A handler that changes the room returns the room that it leaves; a room is left as it was by a
-- handler that fails. `accepts` says whether WhatsApp accepts a request.
module _ (api : JidApi) (wa : Client) (accepts : Request → Bool) where
  -- `HandleMatrixTyping`; no kind stands for an upload. That the presence is refused is ignored.
  unfoldable pub handle_matrix_typing :
      Config → Str → Bool → Option TypingType → Handled Request Unit
  handle_matrix_typing config portal is_typing none = in_portal api accepts portal λ chat. return tt
  handle_matrix_typing config portal is_typing (some kind) = in_portal api accepts portal λ chat.
      let sent =
        asked api accepts (send_chat_presence chat is_typing (is_audio kind)) (return tt) in
      if config.send_presence_on_typing then after send_presence sent else sent
    where
      is_audio : TypingType → Bool
      is_audio typing_text = false
      is_audio typing_recording_media = true

  -- `HandleMatrixDisappearingTimer`, with the time of the event in seconds.
  unfoldable pub handle_matrix_disappearing_timer : Room → ℕ → ℕ → Handled Request Room
  handle_matrix_disappearing_timer room duration ts = in_portal api accepts room.portal_id λ chat.
      if not (is_known_timer duration)
      then refuse bad_timer
      else asked api accepts (set_disappearing_timer chat duration ts) (
          return (record room {
            timer_set_at = ts;
            timer = duration;
            timer_type = if duration == 0 then timer_none else timer_after_send;
          }))

  change_participant :
      Option (List (Jid × ℕ)) → Jid → Jid → ParticipantChange → Handled Request (Option Str)
  change_participant none chat target change =
      after (update_group_participants chat target change) (refuse failed)
  change_participant (some []) chat target change =
      after (update_group_participants chat target change) (refuse no_participants)
  change_participant (some ((jid, code) ∷ more)) chat target change =
      after (update_group_participants chat target change)
        (if code == 0 then return (some (make_user_id jid)) else refuse (participant_refused code))

  change_target :
      (Request → Option (List (Jid × ℕ)))
      → Jid
      → Target
      → ParticipantChange
      → Handled Request (Option Str)
  unfolding change_participant
  change_target answer chat (ghost id) change =
      let jid = parse_user_id api id in
      change_participant (answer (update_group_participants chat jid change)) chat jid change
  change_target answer chat (login none) change = refuse failed
  change_target answer chat (login (some id)) change =
      let jid = parse_user_id api id in
      change_participant (answer (update_group_participants chat jid change)) chat jid change
  change_target answer chat other_target change = refuse unknown_target

  change_members :
      (Request → Option (List (Jid × ℕ)))
      → Bool
      → Jid
      → MembershipChange
      → Target
      → Handled Request (Option Str)
  unfolding change_target
  change_members answer true chat invite target = refuse invite_to_dm
  change_members answer true chat change target = return none
  change_members answer false chat invite target = change_target answer chat target add_participant
  change_members answer false chat leave target =
      change_target answer chat target remove_participant
  change_members answer false chat kick target = change_target answer chat target remove_participant
  change_members answer false chat other_change target = return none

  -- `HandleMatrixMembership`: the user that the change is redirected to, if any. `answer` is what
  -- `UpdateGroupParticipants` returns: addresses with error codes, or an error.
  unfoldable pub handle_matrix_membership :
      (Request → Option (List (Jid × ℕ)))
      → Room
      → MembershipChange
      → Target
      → Handled Request (Option Str)
  unfolding change_members
  handle_matrix_membership answer room change target =
      in_portal api accepts room.portal_id
        λ chat. change_members answer room.is_dm chat change target

  -- `HandleMatrixRoomName`
  unfoldable pub handle_matrix_room_name : Room → Str → Handled Request Room
  handle_matrix_room_name room name = in_portal api accepts room.portal_id λ chat.
      if room.is_dm
      then refuse name_of_dm
      else asked api accepts (set_group_name chat name)
          (return (record room { name = name; name_set = true }))

  -- `HandleMatrixRoomTopic`; `new_id` is the ID that is generated.
  unfoldable pub handle_matrix_room_topic : Room → Str → Str → Handled Request Room
  handle_matrix_room_topic room new_id topic = in_portal api accepts room.portal_id λ chat.
      if room.is_dm
      then refuse topic_of_dm
      else asked api accepts (set_group_topic chat room.topic_id new_id topic)
          (return (record room { topic = topic; topic_set = true; topic_id = new_id }))

  set_photo : Room → Str → Jid → Option Str → Str → Handled Request Room
  set_photo room url chat none new_id =
      asked api accepts (set_group_photo chat none)
        (return (record room { avatar_mxc = url; avatar_id = codes "remove"; avatar_set = true }))
  set_photo room url chat (some bytes) new_id =
      asked api accepts (set_group_photo chat (some bytes))
        (return (record room { avatar_mxc = url; avatar_id = new_id; avatar_set = true }))

  -- `HandleMatrixRoomAvatar`; `converted` is the image at the address after `convertRoomAvatar`,
  -- where both go well, and `new_id` the ID that WhatsApp gives it.
  unfoldable pub handle_matrix_room_avatar : Room → Str → Option Str → Str → Handled Request Room
  unfolding set_photo
  handle_matrix_room_avatar room url converted new_id = in_portal api accepts room.portal_id λ chat.
      if room.is_dm
      then refuse avatar_of_dm
      else if str_eq url []
      then set_photo room url chat none new_id
      else given bad_avatar converted (λ bytes. set_photo room url chat (some bytes) new_id)
