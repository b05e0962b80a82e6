-- ===== src/Connector/Tests.antt =====
-- Runs of package connector on concrete data, and its theorems at concrete inputs.
use whatsapp.Common.{ℕ, ◌≡◌, ◌↔◌, ◌⊎◌, inl, refl, arith, true, false}
use whatsapp.Common.{none, some, List, [], ◌∷◌}
use whatsapp.Common.Text.{codes}
use whatsapp.Waid.Id.{ParsedMessageId}
use whatsapp.Waid.Sample.{sample_api, sample_laws, alice, friends}
use whatsapp.Connector.Client.{IsPnLookup}
use whatsapp.Connector.Ids.{make_wa_portal_key}
use whatsapp.Connector.Ids.Sharing.{IsPersonal, shared_portal_iff}
use whatsapp.Connector.Reroute.{reroute_wa_message}
use whatsapp.Connector.Reroute.Moves.{reroute_idem}
use whatsapp.Connector.MediaEditCache.{get_media_edit_cache}
use whatsapp.Connector.MediaEditCache.History.{Call, add, expire, run_calls, latest, get-run_calls}
use whatsapp.Connector.Sample.{client, other_client, from_bob_lid}
use whatsapp.Connector.Conversation.{Conversation, ConversationKey}
use whatsapp.Connector.Conversation.History.{Puts, table_of, table_holds_summary}
use whatsapp.Waid.Sample.{friends}
use whatsapp.Common.{some, none, true, false, [], ◌∷◌, ◌≡◌}
use whatsapp.Common.Text.{codes}

shared_portal_iff_example :
    (make_wa_portal_key sample_api client friends
      ≡ make_wa_portal_key sample_api other_client friends)
    ↔ ((client.login_id ≡ other_client.login_id)
        ⊎ ((¬ IsPersonal friends.server) × (client.split_portals ≡ false)))
shared_portal_iff_example = shared_portal_iff sample_api client other_client friends refl

abbrev in_group : ParsedMessageId
in_group = record { chat = friends; sender = alice; id = codes "3EB0" }

bob_lookup : IsPnLookup sample_api client
bob_lookup lid = inl refl

reroute_idem_example :
    reroute_wa_message sample_api client (reroute_wa_message sample_api client from_bob_lid)
    ≡ reroute_wa_message sample_api client from_bob_lid
reroute_idem_example = reroute_idem sample_api client sample_laws bob_lookup from_bob_lid

abbrev history : List (Call ℕ)
history =
    expire 400
    ∷ add 300 (record { message_id = codes "m"; portal_mxid = codes "r" }) 5
    ∷ add 100 (record { message_id = codes "m"; portal_mxid = codes "r" }) 4
    ∷ []

get-run_calls_example :
    get_media_edit_cache 500
      (record { message_id = codes "m"; portal_mxid = codes "r" })
      (run_calls (λ _. false) (λ _. true) history)
    ≡ latest
        (λ _. false)
        (λ _. true)
        500
        (record { message_id = codes "m"; portal_mxid = codes "r" })
        history
get-run_calls_example =
    get-run_calls (λ _. false) (λ _. true) 500
      (record { message_id = codes "m"; portal_mxid = codes "r" }) history (omega arith, tt)

abbrev chat_key : ConversationKey
chat_key = record { user_login_id = codes "15551234"; chat_jid = friends }

abbrev first_transfer : Conversation
first_transfer = record {
  last_message_timestamp = some 50;
  archived = some true;
  pinned = none;
  mute_end_time = none;
  end_of_history_transfer_type = none;
  ephemeral_expiration = some 86400;
  ephemeral_setting_timestamp = none;
  marked_as_unread = none;
  unread_count = some 3;
}

abbrev second_transfer : Conversation
second_transfer = record first_transfer {
  last_message_timestamp = some 40;
  archived = none;
  unread_count = some 0;
}

abbrev transfers : Puts
transfers = (chat_key, second_transfer) ∷ (chat_key, first_transfer) ∷ []

table_holds_summary_example :
    table_of transfers chat_key ≡ some (record first_transfer { unread_count = some 0 })
table_holds_summary_example = table_holds_summary chat_key transfers
