-- ===== src/Connector/UserInfo/Tests.antt =====
-- Runs of user information and of the resync queue on concrete data, and the theorems about them.
use whatsapp.Waid.Id.{parse_user_id}
use whatsapp.Common.{◌*◌, arith}
use whatsapp.Common.{ℕ, true, false, some, List, [], ◌∷◌, ◌≡◌, refl, if◌then◌else◌}
use whatsapp.Common.Text.{codes}
use whatsapp.Waid.Jid.{jid_eq}
use whatsapp.Waid.Sample.{sample_api, alice, alice_lid, friends}
use whatsapp.Connector.Ids.{PortalKey}
use whatsapp.Connector.UserInfo.{
  Contact, NamedJids, ContactStore, contact_for, phone_for, avatar_expiry,
}
use whatsapp.Connector.UserInfo.Names.{both_named_alike}
use whatsapp.Connector.UserInfo.Queue.Viewing.{
  Viewed, ghost_found, handle_matrix_viewing_chat, viewed_ghost_dropped,
}
use whatsapp.Connector.UserInfo.Queue.{
  LastSync, portal, State, do_ghost_resync, rotate_resync_queue,
}
use whatsapp.Connector.UserInfo.Queue.Fresh.{
  Call, add_ghost, add_portal, run_calls, Distinct, IsStale, round_asks_once,
}

abbrev alice_contact : Contact
alice_contact = record {
  first_name = codes "Alice";
  full_name = codes "Alice A.";
  push_name = codes "alice";
  business_name = [];
}

abbrev lid_contact : Contact
lid_contact = record {
  first_name = [];
  full_name = [];
  push_name = codes "alice2";
  business_name = codes "Shop";
}

abbrev store : ContactStore
store = record {
  get_alt_jid = λ j. if jid_eq j alice then some alice_lid else some alice;
  get_contact = λ j. if jid_eq j alice then some alice_contact else some lid_contact;
}

abbrev names : NamedJids
names = record { meta_ai = friends; legacy_psa = friends; psa = friends }

both_named_alike_example :
    (contact_for sample_api store names alice alice_contact
      ≡ contact_for sample_api store names alice_lid lid_contact)
    × (phone_for sample_api store alice ≡ phone_for sample_api store alice_lid)
both_named_alike_example =
    both_named_alike sample_api store names alice alice_lid alice_contact lid_contact refl refl
      (refl, refl) (refl, refl) refl refl refl refl refl refl (refl, refl)

expiry_in_path : avatar_expiry 5 (codes "/v/t?oe=1F&x") ≡ 31
unfolding avatar_expiry
expiry_in_path = refl

abbrev never : LastSync
never = record { of_ghost = λ id. 0; of_portal = λ key. 0 }

abbrev group_portal : PortalKey
group_portal = record { id = codes "120-363@g.us"; receiver = [] }

abbrev calls : List Call
calls =
    add_ghost never 1000000 (codes "15551234")
    ∷ add_ghost never 1000001 (codes "15551234")
    ∷ add_portal never 1000002 friends group_portal false
    ∷ []

abbrev empty_queue : State
empty_queue = record { queue = []; next_resync = 0 }

round_asks_once_example :
    Distinct
      (do_ghost_resync true never 1000003
        (rotate_resync_queue 1000003 (run_calls sample_api calls empty_queue)).1).ghosts
    × IsStale never 1000003 (
        do_ghost_resync true never 1000003
          (rotate_resync_queue 1000003 (run_calls sample_api calls empty_queue)).1)
round_asks_once_example = round_asks_once sample_api calls 0 true never 1000003

abbrev alice_portal : Viewed
alice_portal = record {
  key = record { id = codes "15551234@s.whatsapp.net"; receiver = codes "1" };
  jid = alice;
  other_user_id = codes "15551234";
  synced = 0;
}

abbrev one_year : ℕ
one_year = 365 * 86400

viewed_ghost_dropped_example :
    handle_matrix_viewing_chat sample_api one_year ghost_found (some alice_portal) empty_queue
    ≡ (record empty_queue { queue = (alice, portal alice_portal.key) ∷ [] }, true)
viewed_ghost_dropped_example =
    viewed_ghost_dropped sample_api one_year alice_portal empty_queue (omega arith) refl
      (unfold parse_user_id in refl) refl
