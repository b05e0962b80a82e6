-- ===== src/Connector/DirectMedia/Tests.antt =====
-- Runs of direct media requests on concrete data, and the theorems about them.
use whatsapp.Common.{true, false, Option, none, some, List, [], ◌∷◌, ◌≡◌, refl}
use whatsapp.Common.Text.{Str, codes}
use whatsapp.Connector.Receive.Conversion.{RetryData, retry_success, retry_not_found}
use whatsapp.Connector.DirectMedia.{
  FailedMediaKeys, State, new_retry, on_answer, new_path, not_on_phone, Call, request, receive,
  run_calls, request_and_wait_direct_media, receive_direct_media_retry, read_answer, answered_retry,
  data_of, answer_with,
}
use whatsapp.Connector.DirectMedia.Asked.{IsRecorded, requests-IsRecorded}
use whatsapp.Connector.DirectMedia.Final.{answer_is_final}

-- Keys whose metadata is their path.
abbrev read_keys : Str → Option FailedMediaKeys
read_keys [] = none
read_keys (c ∷ s) = some (record {
  key = codes "k";
  size = 1;
  media_type = codes "image";
  sha256 = [];
  enc_sha256 = [];
  path = c ∷ s;
  mime_type = codes "image/png";
})

abbrev write_keys : FailedMediaKeys → Option Str
write_keys k = some k.path

abbrev gone : Str → Option RetryData
gone key = some (record { retry_result = retry_not_found; direct_path = [] })

abbrev uploaded : Str → Option RetryData
uploaded key = some (record { retry_result = retry_success; direct_path = codes "/new" })

abbrev no_state : State
no_state = record { retries = []; sent = [] }

abbrev asked_state : State
asked_state = record {
  retries = (codes "m1", record new_retry { requested = true }) ∷ [];
  sent = codes "m1" ∷ [];
}

abbrev some_calls : List Call
some_calls =
    request false (codes "m1")
    ∷ request true (codes "m1")
    ∷ request true (codes "m2")
    ∷ receive (codes "m1") (codes "/old") uploaded
    ∷ request true (codes "m1")
    ∷ []

answered_wait :
    (request_and_wait_direct_media read_keys write_keys true
      (codes "m1")
      (receive (codes "m1") (codes "/old") uploaded ∷ [])
      on_answer
      no_state).0
    ≡ some (new_path (codes "/new"))
unfolding request_and_wait_direct_media
answered_wait = refl

stored_path :
    (receive_direct_media_retry read_keys write_keys
      (codes "m1")
      (codes "/old")
      uploaded
      no_state).1
    ≡ some (codes "/new")
unfolding receive_direct_media_retry
stored_path = refl

requests-IsRecorded_example : IsRecorded (run_calls read_keys write_keys some_calls no_state)
requests-IsRecorded_example = requests-IsRecorded read_keys write_keys some_calls

answer_is_final_example :
    request_and_wait_direct_media read_keys write_keys true (codes "m1") [] on_answer (
      run_calls read_keys write_keys
        (request true (codes "m2") ∷ [])
        (receive_direct_media_retry read_keys write_keys
          (codes "m1")
          (codes "/old")
          gone
          asked_state).0)
    ≡ (
      some not_on_phone,
      run_calls read_keys write_keys
          (request true (codes "m2") ∷ [])
          (receive_direct_media_retry read_keys write_keys
            (codes "m1")
            (codes "/old")
            gone
            asked_state).0,
    )
unfolding read_answer answered_retry data_of answer_with
answer_is_final_example =
    answer_is_final read_keys write_keys (codes "m1") (codes "/old") gone
      (record new_retry { requested = true }) asked_state (request true (codes "m2") ∷ []) true refl
      refl (tt, tt)
