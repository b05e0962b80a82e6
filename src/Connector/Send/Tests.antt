-- ===== src/Connector/Send/Tests.antt =====
-- Runs of the handlers of Matrix events, and their theorems at concrete inputs.
use whatsapp.Waid.Jid.{empty_jid}
use whatsapp.Connector.Sample.{from_group}
use whatsapp.Connector.Receive.Receipts.{ReceiptEvent, type_read}
use whatsapp.Common.{ℕ, ◌≤◌, ◌≡◌, ◌≢◌, ◌↔◌, refl, arith, Bool, true, false}
use whatsapp.Common.{Option, none, some, List, [], ◌∷◌, ok}
use whatsapp.Common.Text.{Str, codes, str_eq_iff}
use whatsapp.Waid.Jid.{Jid}
use whatsapp.Waid.Id.{parse_message_id, make_message_id, parse_portal_id}
use whatsapp.Waid.Id.RoundTrip.{IsReadable}
use whatsapp.Waid.Sample.{sample_api, alice_phone, alice_lid, friends}
use whatsapp.Connector.Sample.{bob, client, config}
use whatsapp.Connector.Send.Messages.{Network, MatrixResponse, handle_converted_matrix_message}
use whatsapp.Connector.Send.Messages.Echo.{
  left_pending, sent_reads_back, pending_is_stored, nothing_done_iff,
}
use whatsapp.Connector.Send.ReadReceipts.{ReadReceipt, handle_matrix_read_receipt}
use whatsapp.Connector.Send.ReadReceipts.Grouped.{calls_of, OneEach, marked_by_sender}
use whatsapp.Connector.Send.Avatar.{square_crop}
use whatsapp.Connector.Send.Avatar.Crop.{width_of, height_of, square_crop_bounds}
use whatsapp.Connector.Send.Requests.{Request}
use whatsapp.Connector.Send.Rooms.{Room, timer_none, timer_after_send}

-- WhatsApp takes every message, under the own hidden address.
abbrev network : Network Str
network = record {
  web_prefix = codes "3EB0";
  generated_id = codes "3EB0AB";
  answer = λ chat content id. some (record { sender = alice_lid; timestamp = 1700000000 });
  encrypt_reaction = λ id key emoji ts. none;
}

abbrev group_portal : Str
group_portal = codes "120-363@g.us"

group_portal_lem : parse_portal_id sample_api group_portal ≡ ok friends
unfolding parse_portal_id
group_portal_lem = refl

friends-IsReadable : IsReadable sample_api friends
friends-IsReadable = record { parses = refl; no_colon = omega arith }

phone-IsReadable : IsReadable sample_api alice_phone
phone-IsReadable = record { parses = refl; no_colon = omega arith }

lid-IsReadable : IsReadable sample_api alice_lid
lid-IsReadable = record { parses = refl; no_colon = omega arith }

sent_reads_back_example :
    (r : MatrixResponse) × ((handle_converted_matrix_message sample_api client config network []
        group_portal
        (codes "hello")).result
      ≡ ok r)
    × (parse_message_id sample_api r.message_id
        ≡ ok (record { chat = friends; sender = alice_lid; id = codes "3EB0AB" }))
sent_reads_back_example =
    sent_reads_back sample_api client config network [] group_portal (codes "hello") friends
      (record { sender = alice_lid; timestamp = 1700000000 }) group_portal_lem refl refl
      friends-IsReadable phone-IsReadable lid-IsReadable refl refl

abbrev stored_as : Jid → Str
stored_as own = make_message_id sample_api friends own (codes "3EB0AB")

ids_differ : stored_as alice_phone ≢ stored_as alice_lid
unfolding make_message_id
ids_differ e =
    let same : false ≡ true = (str_eq_iff (stored_as alice_phone) (stored_as alice_lid)).1 e in
    cc same

-- Bob reads the message in the group, at his hidden address.
abbrev group_receipt : ReceiptEvent
group_receipt = record {
  source = record from_group { sender_alt = empty_jid };
  receipt_type = type_read;
  message_ids = codes "3EB0AB" ∷ [];
  message_sender = empty_jid;
  timestamp = 1700000100;
}

pending_is_stored_example :
    (r : MatrixResponse) × ((handle_converted_matrix_message sample_api client config network []
        group_portal
        (codes "hello")).result
      ≡ ok r)
    × (r.pending_id ≡ r.message_id)
    × (left_pending
          (handle_converted_matrix_message sample_api client config network [] group_portal
            (codes "hello")).actions
          []
        ≡ r.message_id ∷ [])
pending_is_stored_example =
    pending_is_stored sample_api client config network [] group_portal (codes "hello") friends
      (record { sender = alice_lid; timestamp = 1700000000 }) group_portal_lem refl refl ids_differ

nothing_done_iff_example :
    ((handle_converted_matrix_message sample_api client config network []
        (codes "status@broadcast")
        (codes "hello")).actions
      ≡ [])
    ↔ (true ≡ true)
unfolding parse_portal_id
nothing_done_iff_example =
    nothing_done_iff sample_api client config network [] (codes "status@broadcast") (codes "hello")

abbrev read_event : ReadReceipt
read_event = record { portal_id = group_portal; last_read = 10; read_up_to = 20; timestamp = 21 }

abbrev stored_ids : List Str
stored_ids =
    codes "120-363@g.us:15559999@s.whatsapp.net:A"
    ∷ codes "120-363@g.us:15551234@s.whatsapp.net:B"
    ∷ codes "120-363@g.us:15559999@s.whatsapp.net:C"
    ∷ []

marked_by_sender_example :
    (calls_of bob
        (handle_matrix_read_receipt sample_api client
          (λ c. true)
          (λ a b. some stored_ids)
          read_event).actions
      ≡ codes "A" ∷ codes "C" ∷ [])
    × OneEach
        (handle_matrix_read_receipt sample_api client
          (λ c. true)
          (λ a b. some stored_ids)
          read_event).actions
unfolding parse_message_id
marked_by_sender_example =
    marked_by_sender sample_api client (λ c. true) (λ a b. some stored_ids) read_event friends
      stored_ids bob refl group_portal_lem refl

square_crop_bounds_example :
    ((square_crop 800 301).left ≤ (square_crop 800 301).right)
    × ((square_crop 800 301).right ≤ 800)
    × ((square_crop 800 301).top ≤ (square_crop 800 301).bottom)
    × ((square_crop 800 301).bottom ≤ 301)
    × (301 ≤ width_of (square_crop 800 301))
    × (301 ≤ height_of (square_crop 800 301))
    × (width_of (square_crop 800 301) ≤ 302)
    × (height_of (square_crop 800 301) ≤ 302)
square_crop_bounds_example = square_crop_bounds 800 301

abbrev room : Room
room = record {
  portal_id = group_portal;
  is_dm = false;
  name = [];
  name_set = false;
  topic = [];
  topic_set = false;
  topic_id = [];
  avatar_mxc = [];
  avatar_id = [];
  avatar_set = false;
  timer_type = timer_none;
  timer = 0;
  timer_set_at = 0;
}

abbrev accept_all : Request → Bool
accept_all r = true

abbrev timed_room : Room
timed_room = record room { timer_type = timer_after_send; timer = 86400; timer_set_at = 5 }

abbrev one_day : ℕ
one_day = 86400

abbrev direct_room : Room
direct_room = record room { is_dm = true }

abbrev last_message : Option (Option (Str × ℕ))
last_message = some (some (codes "120-363@g.us:15559999@s.whatsapp.net:A", 9))
