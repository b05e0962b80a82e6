-- ===== src/Msgconv/Keys/Tests.antt =====
-- Keys of messages on concrete data, and the theorem about them at a concrete input.
use whatsapp.Common.{◌≡◌, refl, inl, inr, []}
use whatsapp.Common.Text.{Str, codes}
use whatsapp.Waid.Jid.{Jid}
use whatsapp.Waid.Id.{make_message_id}
use whatsapp.Waid.Sample.{sample_api, sample_laws, alice_phone, friends}
use whatsapp.Connector.Ids.{message_id_to_key}
use whatsapp.Connector.Sample.{client, bob, bob_lid}
use whatsapp.Msgconv.Keys.{key_to_message_id}
use whatsapp.Msgconv.Keys.Targets.{key_target-ReadsBack}

abbrev no_lid : Jid → Jid
no_lid j = bob_lid

abbrev some_id : Str
some_id = codes "3EB0"

key_target-ReadsBack_example :
    key_to_message_id sample_api client no_lid friends alice_phone
      (message_id_to_key sample_api client (record { chat = friends; sender = bob; id = some_id }))
    ≡ make_message_id sample_api friends bob some_id
key_target-ReadsBack_example =
    key_target-ReadsBack sample_api client no_lid sample_laws friends bob alice_phone some_id
      (refl, λ h. cc) refl (inr (refl, inl (refl, (refl, λ h. cc), refl, refl)))

-- In the chat of a LID a key of the other user's message leads to no message.
lid_chat_key :
    key_to_message_id sample_api client no_lid bob_lid alice_phone (
      message_id_to_key sample_api client
        (record { chat = bob_lid; sender = bob_lid; id = some_id }))
    ≡ []
unfolding key_to_message_id message_id_to_key
lid_chat_key = refl
