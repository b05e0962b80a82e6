-- ===== src/Connector/DirectMedia.antt =====
-- pkg/connector/directmedia.go: the requests for direct media that a phone has to upload again, with
-- `FailedMediaKeys` of pkg/msgconv/wa-media.go. A file is downloaded again after such a request.
use whatsapp.Common.{
  ℕ, Bool, true, false, ◌||◌, not, Option, none, some, List, [], ◌∷◌, if◌then◌else◌,
}
use whatsapp.Common.Text.{Str, str_eq, codes}
use whatsapp.Connector.Receive.Conversion.{
  RetryResult, RetryData, retry_success, retry_not_found, retry_other,
}
pub mod Asked
pub mod Final
mod Tests

pub record FailedMediaKeys : Type 0 where
  pub key : Str
  pub size : ℕ
  pub media_type : Str
  pub sha256 : Str
  pub enc_sha256 : Str
  pub path : Str
  pub mime_type : Str

-- `directMediaRetry`; `wait_set` says whether the event `wait` is set.
pub record DirectMediaRetry : Type 0 where
  pub result_url : Str
  pub wait_set : Bool
  pub requested : Bool
  pub result_type : RetryResult

-- What a new retry is. The zero value of a result is a general error.
abbrev pub new_retry : DirectMediaRetry
new_retry = record {
  result_url = [];
  wait_set = false;
  requested = false;
  result_type = retry_other (codes "GENERAL_ERROR");
}

-- `directMediaRetries`, by the ID of the message.
abbrev pub Retries : Type 0
Retries = List (Str × DirectMediaRetry)

-- The retries, and the messages whose media WhatsApp was asked for, the last first.
pub record State : Type 0 where
  pub retries : Retries
  pub sent : List Str

abbrev pub find : Str → Retries → Option DirectMediaRetry
find id [] = none
find id ((k, r) ∷ rs) = if str_eq k id then some r else find id rs

-- What a write through the pointer to a retry does to the map.
abbrev pub put : Str → DirectMediaRetry → Retries → Retries
put id r [] = (id, r) ∷ []
put id r ((k, q) ∷ rs) =
    let rest : Retries = put id r rs in if str_eq k id then (k, r) ∷ rs else (k, q) ∷ rest

found_retry : Str → Bool → State → Option DirectMediaRetry → Option DirectMediaRetry × State
found_retry id create s (some r) = (some r, s)
found_retry id true s none = (some new_retry, record s { retries = put id new_retry s.retries })
found_retry id false s none = (none, s)

unfoldable pub get_direct_media_retry_state : Str → Bool → State → Option DirectMediaRetry × State
unfolding found_retry
get_direct_media_retry_state id create s = found_retry id create s (find id s.retries)

-- The rest of `requestDirectMedia`, for the retry in the map; whether the request could be sent.
request_of : Bool → Str → Option DirectMediaRetry × State → Option DirectMediaRetry × State
request_of sends id (none, s) = (none, s)
request_of sends id (some r, s) =
    if r.requested
    then (some r, s)
    else if sends
    then (
      some (record r { requested = true }),
      record s { retries = put id (record r { requested = true }) s.retries; sent = id ∷ s.sent },
    )
    else (none, s)

-- The retry to wait for, or none if the request failed.
unfoldable pub request_direct_media : Bool → Str → State → Option DirectMediaRetry × State
unfolding get_direct_media_retry_state request_of
request_direct_media sends id s = request_of sends id (get_direct_media_retry_state id true s)

-- What `requestAndWaitDirectMedia` ends with: a path, or one of its errors.
pub data WaitResult : Type 0 where
  new_path : Str → WaitResult
  not_on_phone error_response timed_out cancelled request_failed : WaitResult

-- The case of the `select`.
pub data SelectCase : Type 0 where
  on_answer on_timeout on_cancel : SelectCase

unfoldable pub read_answer : DirectMediaRetry → WaitResult
read_answer r =
    if str_eq r.result_url []
    then elim (r.result_type) [ retry_not_found ↦ not_on_phone | _ ↦ error_response ]
    else new_path r.result_url

-- An answer can be selected only if it came: none stands for a wait that goes on.
select_case : SelectCase → Option DirectMediaRetry → Option WaitResult
unfolding read_answer
select_case c none = none
select_case on_answer (some r) = if r.wait_set then some (read_answer r) else none
select_case on_timeout (some r) = some timed_out
select_case on_cancel (some r) = some cancelled

-- The answer, where the media can be downloaded from its path.
unfoldable pub has_media : RetryData → Bool
has_media d = elim (d.retry_result) [ retry_success ↦ true | _ ↦ not (str_eq d.direct_path []) ]

-- What the answer does to the retry; none is one that could not be read or decrypted.
unfoldable pub answered_retry : Option RetryData → DirectMediaRetry → DirectMediaRetry
unfolding has_media
answered_retry none r = record r { wait_set = true }
answered_retry (some d) r = record r {
  wait_set = true;
  result_type = d.retry_result;
  result_url = if has_media d then d.direct_path else r.result_url;
}

settle_found : Str → Option RetryData → State → Option DirectMediaRetry → State
unfolding answered_retry
settle_found id answer s none = s
settle_found id answer s (some r) = record s {
  retries = put id (answered_retry answer r) s.retries;
}

-- The answer that `decrypt` (`DecryptMediaRetryNotification`) gives, with the keys.
unfoldable pub answer_with :
    (Str → Option RetryData) → Option FailedMediaKeys → Option (FailedMediaKeys × RetryData)
answer_with decrypt none = none
answer_with decrypt (some k) = elim (decrypt k.key) [ none ↦ none | some d ↦ some (k, d) ]

unfoldable pub data_of : Option (FailedMediaKeys × RetryData) → Option RetryData
data_of none = none
data_of (some (k, d)) = some d

-- What other goroutines call.
pub data Call : Type 0 where
  request : Bool → Str → Call
  receive : Str → Str → (Str → Option RetryData) → Call

-- `marshal` and `unmarshal` write and read the keys in the metadata of a message.
module _ (unmarshal : Str → Option FailedMediaKeys) (marshal : FailedMediaKeys → Option Str) where
  -- The metadata that the message is stored with, or none if it is not stored.
  stored_meta : Option (FailedMediaKeys × RetryData) → Option Str
  unfolding has_media
  stored_meta none = none
  stored_meta (some (k, d)) =
      if has_media d then marshal (record k { path = d.direct_path }) else none

  -- The message's ID and its metadata are the arguments, with the decryption of the answer.
  unfoldable pub receive_direct_media_retry :
      Str → Str → (Str → Option RetryData) → State → State × Option Str
  unfolding answer_with data_of stored_meta settle_found get_direct_media_retry_state
  receive_direct_media_retry id meta decrypt s =
      let answer : Option (FailedMediaKeys × RetryData) = answer_with decrypt (unmarshal meta) in
      (
        settle_found id (data_of answer) s (get_direct_media_retry_state id false s).0,
        stored_meta answer,
      )

  unfoldable pub run_call : Call → State → State
  unfolding request_direct_media receive_direct_media_retry
  run_call (request sends id) s = (request_direct_media sends id s).1
  run_call (receive id meta decrypt) s = (receive_direct_media_retry id meta decrypt s).0

  unfoldable pub run_calls : List Call → State → State
  unfolding run_call
  run_calls [] s = s
  run_calls (c ∷ cs) s = run_calls cs (run_call c s)

  -- The calls given are those that others make during the wait.
  waited_with :
      Str → List Call → SelectCase → Option DirectMediaRetry × State → Option WaitResult × State
  unfolding run_calls select_case
  waited_with id others c (none, s) = (some request_failed, s)
  waited_with id others c (some r, s) =
      let after : State = run_calls others s in (select_case c (find id after.retries), after)

  unfoldable pub request_and_wait_direct_media :
      Bool → Str → List Call → SelectCase → State → Option WaitResult × State
  unfolding waited_with request_direct_media
  request_and_wait_direct_media sends id others c s =
      waited_with id others c (request_direct_media sends id s)
