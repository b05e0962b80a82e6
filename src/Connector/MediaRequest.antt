-- ===== src/Connector/MediaRequest.antt =====
-- pkg/connector/mediarequest.go and pkg/connector/wadb/mediarequest.go: requests for media that a
-- phone has to upload again. The table holds the rows of one bridge.
pub mod Sent
mod Tests
use whatsapp.Common.{Bool, true, false, ◌&&◌, not, Option, none, some, List, [], ◌∷◌, ◌++◌, map}
use whatsapp.Common.{if◌then◌else◌, Outcome, ok, err, panic}
use whatsapp.Common.Text.{Str, str_eq}
use whatsapp.Waid.Jid.{Jid, JidApi, default_user, bot, server_eq}
use whatsapp.Waid.Id.{IdError, ParsedMessageId, parse_message_id}
use whatsapp.Waid.DbMeta.{MessageErrorType, media_not_found}
use whatsapp.Connector.Client.{Client}
use whatsapp.Connector.Ids.{PortalKey}

-- `MediaBackfillRequestStatus`
pub data RequestStatus : Type 0 where
  not_requested requested request_failed request_skipped : RequestStatus

abbrev pub is_not_requested : RequestStatus → Bool
is_not_requested not_requested = true
is_not_requested _ = false

pub record MediaRequest : Type 0 where
  pub user_login_id : Str
  pub message_id : Str
  pub portal_key : PortalKey
  pub media_key : Str
  pub status : RequestStatus
  pub error : Str

abbrev pub Table : Type 0
Table = List MediaRequest

abbrev pub same_key : MediaRequest → MediaRequest → Bool
same_key a b = str_eq a.user_login_id b.user_login_id && str_eq a.message_id b.message_id

abbrev pub any_row : (MediaRequest → Bool) → Table → Bool
any_row p [] = false
any_row p (r ∷ t) = if p r then true else any_row p t

abbrev pub filter_rows : (MediaRequest → Bool) → Table → Table
filter_rows p [] = []
filter_rows p (r ∷ t) = if p r then r ∷ filter_rows p t else filter_rows p t

-- The `DO UPDATE` of the upsert on the row `r`.
abbrev pub update_row : MediaRequest → MediaRequest → MediaRequest
update_row q r =
    if same_key r q
    then record r { media_key = q.media_key; status = q.status; error = q.error }
    else r

-- `Put`
unfoldable pub put : MediaRequest → Table → Table
put q t = if any_row (λ r. same_key r q) t then map (update_row q) t else t ++ (q ∷ [])

-- `Delete`
unfoldable pub delete : Str → Str → Table → Table
delete login_id message_id t =
    filter_rows (λ r. not (str_eq r.user_login_id login_id && str_eq r.message_id message_id)) t

abbrev pub is_unrequested : Str → MediaRequest → Bool
is_unrequested login_id r = str_eq r.user_login_id login_id && is_not_requested r.status

-- `GetUnrequestedForUserLogin`
unfoldable pub get_unrequested : Str → Table → Table
get_unrequested login_id t = filter_rows (is_unrequested login_id) t

-- The part of a message in the bridge's database, where the query succeeds.
pub data Lookup : Type 0 where
  lookup_failed not_found : Lookup
  found : MessageErrorType → Lookup

-- `types.MessageInfo` as `sendMediaRequestDirect` fills it.
pub record RetryInfo : Type 0 where
  pub id : Str
  pub is_from_me : Bool
  pub is_group : Bool
  pub sender : Jid
  pub chat : Jid

-- What the database and WhatsApp answer: the target message, the error of a retry receipt if there is one,
-- and whether a row can be written.
pub record Answers : Type 0 where
  pub get_part : Str → Lookup
  pub send_receipt : RetryInfo → Str → Option Str
  pub can_put : MediaRequest → Bool

-- The table, and the receipts that were sent, the last one first.
pub record State : Type 0 where
  pub table : Table
  pub receipts : List (RetryInfo × Str)

-- A media message that failed to convert: the key of its `PreparedMedia`, if it has one.
abbrev pub first_failed : List (Option Str) → Option Str
first_failed [] = none
first_failed (p ∷ ps) = p

-- `isFailedMedia`, on the failed media of the parts of a converted message.
unfoldable pub is_failed_media : List (Option Str) → Bool
is_failed_media [] = false
is_failed_media (none ∷ ps) = false
is_failed_media (some key ∷ ps) = true

module _ (api : JidApi) (wa : Client) (ans : Answers) where
  unfoldable pub retry_info : ParsedMessageId → RetryInfo
  retry_info m = record {
    id = m.id;
    is_from_me = str_eq m.sender.user wa.jid.user;
    is_group = not (server_eq m.chat.server default_user) && not (server_eq m.chat.server bot);
    sender = m.sender;
    chat = m.chat;
  }

  -- The request and the receipt that was sent, by the error of `SendMediaRetryReceipt`.
  receipt_sent : MediaRequest → RetryInfo → Option Str → MediaRequest × List (RetryInfo × Str)
  receipt_sent q i none = (record q { status = requested }, (i, q.media_key) ∷ [])
  receipt_sent q i (some e) =
      (record q { status = request_failed; error = e }, (i, q.media_key) ∷ [])

  -- `sendMediaRequestDirect` and the status that follows from its result; `id_error` is the text of
  -- the error of an ID. Parsing does not panic; if it did, the request would be put back as it is.
  send_direct :
      (IdError → Str)
      → MediaRequest
      → Outcome IdError ParsedMessageId
      → MediaRequest × List (RetryInfo × Str)
  unfolding retry_info receipt_sent
  send_direct id_error q (ok m) =
      receipt_sent q (retry_info m) (ans.send_receipt (retry_info m) q.media_key)
  send_direct id_error q (err e) = (record q { status = request_failed; error = id_error e }, [])
  send_direct id_error q panic = (q, [])

  skipped : MediaRequest → MediaRequest × List (RetryInfo × Str)
  skipped q = (record q { status = request_skipped }, [])

  requested_from : (IdError → Str) → MediaRequest → Lookup → MediaRequest × List (RetryInfo × Str)
  unfolding send_direct skipped
  requested_from id_error q lookup_failed = skipped q
  requested_from id_error q not_found = skipped q
  requested_from id_error q (found media_not_found) =
      send_direct id_error q (parse_message_id api q.message_id)
  requested_from id_error q (found _) = skipped q

  -- The deferred `Put`, whose error is only logged.
  try_put : MediaRequest → Table → Table
  try_put q t = if ans.can_put q then put q t else t

  put_after : MediaRequest × List (RetryInfo × Str) → State → State
  unfolding try_put
  put_after (q, sent) s = record { table = try_put q s.table; receipts = sent ++ s.receipts }

  -- `sendMediaRequest`
  unfoldable pub send_media_request : (IdError → Str) → MediaRequest → State → State
  unfolding requested_from put_after
  send_media_request id_error q s =
      put_after (requested_from id_error q (ans.get_part q.message_id)) s

  send_each : (IdError → Str) → Table → State → State
  unfolding send_media_request
  send_each id_error [] s = s
  send_each id_error (q ∷ qs) s = send_each id_error qs (send_media_request id_error q s)

  -- `sendMediaRequests`, whether the query succeeds first.
  unfoldable pub send_media_requests : Bool → (IdError → Str) → State → State
  unfolding send_each
  send_media_requests queried id_error s =
      if queried then send_each id_error (get_unrequested wa.login_id s.table) s else s

  new_request : PortalKey → Str → Str → MediaRequest
  new_request portal_key message_id key = record {
    user_login_id = wa.login_id;
    message_id = message_id;
    portal_key = portal_key;
    media_key = key;
    status = not_requested;
    error = [];
  }

  saved_request : (IdError → Str) → Bool → MediaRequest → State → State
  unfolding try_put send_media_request
  saved_request id_error immediately q s =
      let saved : State = record s { table = try_put q s.table } in
      if immediately then send_media_request id_error q saved else saved

  -- `processFailedMedia`: the media key of the first part if that is a failed medium, whether requests
  -- are sent at once, and whether the message is of a backfill. The request that is sent at once
  -- runs on its own; the state is the one after its end.
  unfoldable pub process_failed_media :
      (IdError → Str)
      → Bool
      → Bool
      → PortalKey
      → Str
      → Option Str
      → State
      → State × Option MediaRequest
  unfolding saved_request new_request
  process_failed_media id_error immediately is_backfill portal_key message_id none s = (s, none)
  process_failed_media id_error immediately is_backfill portal_key message_id (some key) s =
      if is_backfill
      then (s, some (new_request portal_key message_id key))
      else (saved_request id_error immediately (new_request portal_key message_id key) s, none)
