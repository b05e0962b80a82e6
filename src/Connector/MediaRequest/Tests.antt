-- ===== src/Connector/MediaRequest/Tests.antt =====
-- Runs of media requests on concrete data, and the theorem about them at a concrete input.
use whatsapp.Common.{◌≡◌, refl, none, some, [], ◌∷◌, true, false}
use whatsapp.Common.Text.{Str, codes}
use whatsapp.Waid.Id.{IdError, parse_message_id}
use whatsapp.Waid.DbMeta.{media_not_found}
use whatsapp.Waid.Sample.{sample_api}
use whatsapp.Connector.Ids.{PortalKey}
use whatsapp.Connector.Sample.{client}
use whatsapp.Connector.MediaRequest.{
  Answers, State, MediaRequest, not_requested, requested, found, get_unrequested, put,
  send_media_requests, process_failed_media,
}
use whatsapp.Connector.MediaRequest.Sent.{all_requested}

abbrev answers : Answers
answers = record {
  get_part = λ id. found media_not_found;
  send_receipt = λ i key. none;
  can_put = λ r. true;
}

abbrev portal : PortalKey
portal = record { id = codes "15559999@s.whatsapp.net"; receiver = codes "15551234" }

abbrev message_id : Str
message_id = codes "15559999@s.whatsapp.net:15559999@s.whatsapp.net:3EB0"

abbrev id_error : IdError → Str
id_error e = codes "bad ID"

abbrev request : MediaRequest
request = record {
  user_login_id = client.login_id;
  message_id = message_id;
  portal_key = portal;
  media_key = codes "key";
  status = not_requested;
  error = [];
}

abbrev before : State
before = record { table = request ∷ []; receipts = [] }

saved_without_auto_request :
    process_failed_media sample_api client answers id_error false false portal message_id
      (some (codes "key"))
      (record { table = []; receipts = [] })
    ≡ (before, none)
unfolding process_failed_media put
saved_without_auto_request = refl

request_is_sent :
    (send_media_requests sample_api client answers true id_error before).table
    ≡ record request { status = requested } ∷ []
unfolding send_media_requests get_unrequested put parse_message_id
request_is_sent = refl

all_requested_example :
    (get_unrequested client.login_id
        (send_media_requests sample_api client answers true id_error before).table
      ≡ [])
    × (send_media_requests sample_api client answers true id_error
          (send_media_requests sample_api client answers true id_error before)
        ≡ send_media_requests sample_api client answers true id_error before)
all_requested_example = all_requested sample_api client answers id_error before (λ r. refl)
