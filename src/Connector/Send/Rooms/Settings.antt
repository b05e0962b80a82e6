-- ===== src/Connector/Send/Rooms/Settings.antt =====
-- What the handlers of room settings ask of WhatsApp.
use whatsapp.Common.{ℕ, ◌≡◌, ◌↔◌, ◌⊎◌, arith, Bool, true, Option, List, [], ok}
use whatsapp.Common.Text.{Str}
use whatsapp.Waid.Jid.{Jid, JidApi}
use whatsapp.Connector.Client.{Client}
use whatsapp.Connector.Send.Requests.{Request}
use whatsapp.Connector.Send.Rooms.{
  Room, MembershipChange, Target, timer_none, handle_matrix_disappearing_timer,
  handle_matrix_membership, handle_matrix_room_name, handle_matrix_room_topic,
  handle_matrix_room_avatar,
}

module _ (api : JidApi) (wa : Client) (accepts : Request → Bool) where
  -- A room's timer is changed only to one of the four durations that WhatsApp knows; then the room
  -- has that duration, set at the time of the event, and no timer exactly if the duration is zero.
  pub timer_changed :
      (room new : Room) (duration ts : ℕ)
      → (handle_matrix_disappearing_timer api wa accepts room duration ts).result ≡ ok new
      → ((duration ≡ 0) ⊎ (duration ≡ 86400) ⊎ (duration ≡ 604800) ⊎ (duration ≡ 7776000))
        × (new.timer ≡ duration)
        × (new.timer_set_at ≡ ts)
        × ((new.timer_type ≡ timer_none) ↔ (duration ≡ 0))
  unfolding handle_matrix_disappearing_timer
  timer_changed room new duration ts h = ground arith

  -- In a direct chat nothing is asked of WhatsApp for a change of the name, the topic, the avatar or
  -- the members.
  pub direct_untouched :
      (answer : Request → Option (List (Jid × ℕ))) (room : Room) (change : MembershipChange)
      (target : Target) (text new_id : Str) (image : Option Str)
      → room.is_dm ≡ true
      → ((handle_matrix_membership api wa accepts answer room change target).actions ≡ [])
        × ((handle_matrix_room_name api wa accepts room text).actions ≡ [])
        × ((handle_matrix_room_topic api wa accepts room new_id text).actions ≡ [])
        × ((handle_matrix_room_avatar api wa accepts room text image new_id).actions ≡ [])
  unfolding handle_matrix_membership handle_matrix_room_name handle_matrix_room_topic
      handle_matrix_room_avatar
  direct_untouched answer room change target text new_id image dm = ground arith
