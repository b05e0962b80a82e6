-- ===== src/Connector/Login/Tests.antt =====
-- Runs of a login on concrete data, and its theorems at concrete inputs.
use whatsapp.Common.{ℕ, ◌*◌, ◌≡◌, ◌≢◌, ◌⊎◌, inr, refl, arith, true, false}
use whatsapp.Common.{none, some, List, [], ◌∷◌, ◌++◌, ok, err, panic}
use whatsapp.Common.Text.{Str, codes}
use whatsapp.Waid.Id.{make_user_login_id}
use whatsapp.Waid.Sample.{alice}
use whatsapp.Connector.Login.{handle_event}
use whatsapp.Connector.Login.{
  WaLogin, create_login, qr, pair_success, manual_login_reconnect, PairSuccess, start, second,
  get_qr_index, qr_step, code_step, login_timeout, handle_events, pairing_code, start_with_override,
}
use whatsapp.Connector.Login.Codes.{late_wait, codes_in_order, run_waits, quiet}
use whatsapp.Connector.Login.Wait.{Around, wait, completed, NewLogin}
use whatsapp.Connector.Login.Wait.Ending.{wait_shows_or_ends, IsOver, GoesOn}
use whatsapp.Connector.Login.Wait.Pairing.{latest_pairing}
use whatsapp.Connector.Login.Wait.Made.{completes_with_pairing}
use whatsapp.Connector.Login.Wait.Calm.{wait_calm}

abbrev one : Str
one = codes "1"

abbrev two : Str
two = codes "2"

abbrev three : Str
three = codes "3"

abbrev six_codes : List Str
six_codes = one ∷ two ∷ three ∷ codes "4" ∷ codes "5" ∷ codes "6" ∷ []

abbrev waiting : WaLogin
waiting = record (create_login false []) {
  qrs = six_codes;
  start_time = 1000;
  wait_for_qrs = true;
  has_handler = true;
  is_connected = true;
}

start_shows_first :
    start true true ((1000, qr six_codes) ∷ []) (create_login false [])
    ≡ (waiting, ok (qr_step one))
unfolding start handle_events handle_event
start_shows_first = refl

override_submits :
    (start_with_override
      (λ n. pairing_code n)
      true
      true
      ((5, qr []) ∷ [])
      (some two)
      (create_login true [])).1
    ≡ ok (code_step (codes "+2"))
unfolding start_with_override start handle_events handle_event
override_submits = refl

abbrev fifty_seconds : ℕ
fifty_seconds = 50 * second

abbrev very_late : ℕ
very_late = 200 * second

late_wait_example :
    ((wait very_late quiet waiting).result ≡ ok (qr_step one))
    × ((wait very_late quiet waiting).login ≡ record waiting { prev_qr_index = 0 })
late_wait_example =
    late_wait very_late waiting one (two ∷ three ∷ codes "4" ∷ codes "5" ∷ codes "6" ∷ []) refl refl
      (omega arith)

abbrev three_codes : WaLogin
three_codes = record waiting { qrs = one ∷ two ∷ three ∷ [] }

abbrev calls : List ℕ
calls = 2000 ∷ 61 * second ∷ 81 * second ∷ []

codes_in_order_example :
    run_waits calls three_codes ≡ ok (qr_step two) ∷ ok (qr_step three) ∷ err login_timeout ∷ []
codes_in_order_example =
    codes_in_order calls one (two ∷ three ∷ []) three_codes refl refl refl refl
      (unfold get_qr_index in (refl, (refl, (refl, tt))))

abbrev alice_pairs : PairSuccess
alice_pairs = record { id = alice; business_name = [] }

abbrev pairing_call : Around
pairing_call = record {
  wake = completed;
  before = (5000, pair_success alice_pairs) ∷ [];
  later = (6000, manual_login_reconnect) ∷ [];
  can_create = λ n. true;
}

wait_shows_or_ends_example :
    GoesOn (wait 4000 pairing_call waiting) ⊎ IsOver (wait 4000 pairing_call waiting).login
wait_shows_or_ends_example =
    wait_shows_or_ends 4000 pairing_call waiting
      (unfold wait handle_events handle_event get_qr_index make_user_login_id in λ h. cc)

completes_with_pairing_example :
    (s : PairSuccess) × (n : NewLogin) × (latest_pairing none
        (pairing_call.before ++ pairing_call.later)
      ≡ some s)
    × (codes "15551234" ≡ make_user_login_id s.id)
    × ((wait 4000 pairing_call waiting).created ≡ some n)
    × (n.login_id ≡ codes "15551234")
completes_with_pairing_example =
    completes_with_pairing 4000 pairing_call waiting (codes "15551234") refl
      (unfold wait handle_events handle_event get_qr_index make_user_login_id in refl)

wait_calm_example : (wait 4000 pairing_call waiting).result ≢ panic
wait_calm_example =
    wait_calm 4000 pairing_call waiting refl (λ h. cc) ((λ h. cc), ((λ h. refl), tt))
      (inr (omega arith))
