-- ===== src/Waid/Tests.antt =====
-- Runs of package waid on concrete IDs, and its theorems at concrete inputs.
use whatsapp.Common.{◌≡◌, ◌≢◌, refl, arith, ok, panic, some, none, [], ◌∷◌, inl, true}
use whatsapp.Common.{◌>>=◌}
use whatsapp.Common.Text.{codes}
use whatsapp.Waid.Sample.{sample_api, sample_laws, alice, alice_phone, alice_lid, friends}
use whatsapp.Waid.Id.{make_user_id, make_message_id}
use whatsapp.Waid.Id.{parse_user_login_id, parse_message_id}
use whatsapp.Waid.Id.RoundTrip.{IsReadable, parse_message_id-make_message_id}
use whatsapp.Waid.Decimal.{parse_uint}
use whatsapp.Waid.MediaId.{make_media_id, parse_media_id, compact_jid}
use whatsapp.Waid.MediaId.Compact.{IsCompact, numeric, of_group}
use whatsapp.Waid.MediaId.RoundTrip.{parse_media_id-make_media_id}
use whatsapp.Waid.MediaId.Panics.{make_media_id_calm}
use whatsapp.Waid.DbMeta.{MessageMetadata, no_error, media_not_found}

lid_user : make_user_id alice_lid ≡ codes "lid-9876"
unfolding make_user_id
lid_user = refl

big_user : parse_uint (codes "18446744073709551616") ≡ none
unfolding parse_uint
big_user = refl

alice-IsReadable : IsReadable sample_api alice
alice-IsReadable = record { parses = refl; no_colon = omega arith }

friends-IsReadable : IsReadable sample_api friends
friends-IsReadable = record { parses = refl; no_colon = omega arith }

parse_message_id-make_message_id_example :
    parse_message_id sample_api (make_message_id sample_api friends alice (codes "3EB0"))
    ≡ ok (record { chat = friends; sender = alice; id = codes "3EB0" })
parse_message_id-make_message_id_example =
    parse_message_id-make_message_id sample_api friends alice (codes "3EB0") friends-IsReadable
      alice-IsReadable refl refl

alice-IsCompact : IsCompact sample_api alice
unfolding parse_uint
alice-IsCompact = numeric 15551234 refl refl (record { reads = refl; no_leading_zero = inl refl })

friends-IsCompact : IsCompact sample_api friends
friends-IsCompact = of_group refl refl (omega arith)

parse_media_id-make_media_id_example :
    (make_media_id sample_api
        (record { chat = friends; sender = alice; id = codes "3EB0" })
        []
        (codes "15551234")
      >>= parse_media_id sample_api)
    ≡ ok (record {
      message = some (record { chat = friends; sender = alice; id = codes "3EB0" });
      avatar = none;
      user_login = codes "15551234";
    })
unfolding parse_user_login_id
parse_media_id-make_media_id_example =
    parse_media_id-make_media_id sample_api sample_laws
      (record { chat = friends; sender = alice; id = codes "3EB0" }) [] (codes "15551234")
      friends-IsCompact alice-IsCompact alice-IsCompact (omega arith)

-- A number with a device is what the slice is too short for.
device_panics : compact_jid sample_api alice_phone ≡ panic
unfolding compact_jid parse_uint
device_panics = refl

make_media_id_calm_example :
    make_media_id sample_api
      (record { chat = friends; sender = alice_phone; id = codes "3EB0" })
      []
      (codes "15551234")
    ≢ panic
make_media_id_calm_example =
    make_media_id_calm sample_api sample_laws
      (record { chat = friends; sender = alice_phone; id = codes "3EB0" }) [] (codes "15551234")

abbrev old_meta : MessageMetadata
old_meta = record {
  sender_device_id = 1;
  error = media_not_found;
  broadcast_list_jid = none;
  group_invite = none;
  failed_media_meta = some (codes "x");
  direct_media_meta = none;
  is_matrix_poll = true;
  edits = codes "E" ∷ [];
}

abbrev new_meta : MessageMetadata
new_meta = record old_meta { sender_device_id = 2; error = no_error; failed_media_meta = none }
