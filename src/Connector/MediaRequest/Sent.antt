-- ===== src/Connector/MediaRequest/Sent.antt =====
-- pkg/connector/mediarequest.go: what a round of media requests leaves in the table.
use whatsapp.Common.{if-eq_false}
use whatsapp.Common.{bool_clash}
use whatsapp.Common.{
  Bool, true, false, ◌&&◌, Option, none, some, [], ◌∷◌, map, ◌≡◌, ◌≢◌, refl, sym, ap, ◌∙◌, arith,
  if◌then◌else◌, Bool-cases, inl, inr, Outcome, ok, err, panic, All, All-append, if_split,
}
use whatsapp.Common.Text.{Str, str_eq, str_eq_refl}
use whatsapp.Waid.Jid.{JidApi}
use whatsapp.Waid.Id.{IdError, ParsedMessageId, parse_message_id}
use whatsapp.Waid.Id.RoundTrip.{parse_message_id_calm}
use whatsapp.Waid.DbMeta.{media_not_found, no_error, decryption_failed}
use whatsapp.Connector.Client.{Client}
use whatsapp.Connector.MediaRequest.{
  MediaRequest, is_not_requested, Table, same_key, any_row, filter_rows, update_row, put,
  is_unrequested, get_unrequested, Lookup, lookup_failed, not_found, found, RetryInfo, Answers,
  State, receipt_sent, send_direct, requested_from, send_media_request, send_each,
  send_media_requests, skipped, put_after, try_put, retry_info,
}

-- Every row of the login that is not requested has its key in the list.
Covered : Str → Table → Table → Type 0
Covered login_id todo t =
    All (λ r. is_unrequested login_id r ≡ true → any_row (λ q. same_key r q) todo ≡ true) t

-- A processed request: the same key, and any status but the first.
record IsProcessed (q q' : MediaRequest) : Type 0 where
  same_login : q'.user_login_id ≡ q.user_login_id
  same_message : q'.message_id ≡ q.message_id
  done : is_not_requested q'.status ≡ false

and-false : (b : Bool) → (b && false) ≡ false
and-false true = refl
and-false false = refl

same_key_refl : (r : MediaRequest) → same_key r r ≡ true
same_key_refl r = ground (arith, str_eq_refl r.user_login_id, str_eq_refl r.message_id)

if-true : (b : Bool) → (if b then true else true) ≡ true
if-true true = refl
if-true false = refl

weaken-Covered :
    (login_id : Str) (q : MediaRequest) (todo t : Table)
    → Covered login_id todo t
    → Covered login_id (q ∷ todo) t
unfolding Covered
weaken-Covered login_id q todo [] c = tt
weaken-Covered login_id q todo (r ∷ t) c = (
  λ h. ap (λ b. if same_key r q then true else b) (c.0 h) ∙ if-true (same_key r q),
  weaken-Covered login_id q todo t c.1,
)

filter-Covered :
    (login_id : Str) (t : Table) → Covered login_id (filter_rows (is_unrequested login_id) t) t
unfolding Covered
filter-Covered login_id [] = tt
filter-Covered login_id (r ∷ t) =
    let rest : Table = filter_rows (is_unrequested login_id) t in
    if_split (λ u. Covered login_id u (r ∷ t)) (is_unrequested login_id r) _ _
      (λ e. (
        (λ h. ap (λ b. if b then true else any_row (λ q. same_key r q) rest) (same_key_refl r)),
        weaken-Covered login_id r rest t (filter-Covered login_id t),
      ))
      (λ e. ((λ h. absurd (bool_clash (sym e ∙ h))), filter-Covered login_id t))

RowCovered : Str → Table → MediaRequest → Type 0
RowCovered login_id todo r =
    is_unrequested login_id r ≡ true → any_row (λ q. same_key r q) todo ≡ true

not_unrequested :
    (login_id : Str) (r : MediaRequest)
    → is_not_requested r.status ≡ false
    → is_unrequested login_id r ≡ true
    → ⊥
not_unrequested login_id r d h = ground (arith, d, and-false (str_eq r.user_login_id login_id))

module _ (login_id : Str) (q q' : MediaRequest) (p : IsProcessed q q') (todo : Table) where
  same_key-processed : (r : MediaRequest) → same_key r q ≡ same_key r q'
  same_key-processed r = sym (
      ap (λ l. str_eq r.user_login_id l && str_eq r.message_id q'.message_id) p.same_login
      ∙ ap (λ m. str_eq r.user_login_id q.user_login_id && str_eq r.message_id m) p.same_message)

  unkeyed-row :
      (r : MediaRequest)
      → same_key r q' ≡ false
      → RowCovered login_id (q ∷ todo) r
      → RowCovered login_id todo r
  unfolding RowCovered
  unkeyed-row r e c h =
      sym
        (ap (λ b. if b then true else any_row (λ x. same_key r x) todo) (same_key-processed r ∙ e))
      ∙ c h

  row-put :
      (r : MediaRequest)
      → RowCovered login_id (q ∷ todo) r
      → RowCovered login_id todo (update_row q' r)
  unfolding RowCovered
  row-put r c =
      if_split (RowCovered login_id todo) (same_key r q') _ _
        (λ e h. absurd (
          not_unrequested login_id
            (record r { media_key = q'.media_key; status = q'.status; error = q'.error }) p.done h))
        (λ e. unkeyed-row r e c)

  rows-put :
      (t : Table) → Covered login_id (q ∷ todo) t → Covered login_id todo (map (update_row q') t)
  unfolding Covered RowCovered
  rows-put [] c = tt
  rows-put (r ∷ t) c = (row-put r c.0, rows-put t c.1)

  other-rows :
      (t : Table)
      → any_row (λ r. same_key r q') t ≡ false
      → Covered login_id (q ∷ todo) t
      → Covered login_id todo t
  unfolding Covered RowCovered
  other-rows [] n c = tt
  other-rows (r ∷ t) n c =
      let parts : (same_key r q' ≡ false) × (any_row (λ x. same_key x q') t ≡ false) =
        if-eq_false (same_key r q') (any_row (λ x. same_key x q') t) n in
      (unkeyed-row r parts.0 c.0, other-rows t parts.1 c.1)

  put-Covered : (t : Table) → Covered login_id (q ∷ todo) t → Covered login_id todo (put q' t)
  unfolding put Covered RowCovered
  put-Covered t c =
      if_split (Covered login_id todo) (any_row (λ r. same_key r q') t) _ _ (λ e. rows-put t c)
        (λ e.
          All-append _ t (q' ∷ []) (other-rows t e c)
            ((λ h. absurd (not_unrequested login_id q' p.done h)), tt))

module _ (api : JidApi) (wa : Client) (ans : Answers) (id_error : IdError → Str) where
  receipt_sent-IsProcessed :
      (q : MediaRequest) (i : RetryInfo) (e : Option Str)
      → IsProcessed q (receipt_sent api wa ans q i e).0
  unfolding receipt_sent
  receipt_sent-IsProcessed q i none = record { same_login = refl; same_message = refl; done = refl }
  receipt_sent-IsProcessed q i (some e) = record {
    same_login = refl;
    same_message = refl;
    done = refl;
  }

  send_direct-IsProcessed :
      (q : MediaRequest) (o : Outcome IdError ParsedMessageId)
      → o ≢ panic
      → IsProcessed q (send_direct api wa ans id_error q o).0
  unfolding send_direct
  send_direct-IsProcessed q (ok m) h =
      receipt_sent-IsProcessed q (retry_info api wa ans m)
        (ans.send_receipt (retry_info api wa ans m) q.media_key)
  send_direct-IsProcessed q (err e) h = record {
    same_login = refl;
    same_message = refl;
    done = refl;
  }
  send_direct-IsProcessed q panic h = absurd (h refl)

  requested_from-IsProcessed :
      (q : MediaRequest) (l : Lookup) → IsProcessed q (requested_from api wa ans id_error q l).0
  unfolding requested_from skipped
  requested_from-IsProcessed q lookup_failed = record {
    same_login = refl;
    same_message = refl;
    done = refl;
  }
  requested_from-IsProcessed q not_found = record {
    same_login = refl;
    same_message = refl;
    done = refl;
  }
  requested_from-IsProcessed q (found no_error) = record {
    same_login = refl;
    same_message = refl;
    done = refl;
  }
  requested_from-IsProcessed q (found decryption_failed) = record {
    same_login = refl;
    same_message = refl;
    done = refl;
  }
  requested_from-IsProcessed q (found media_not_found) =
      send_direct-IsProcessed q (parse_message_id api q.message_id)
        (parse_message_id_calm api q.message_id)

  -- One request of the list is processed.
  step-Covered :
      (q : MediaRequest) (todo : Table) (s : State)
      → ((r : MediaRequest) → ans.can_put r ≡ true)
      → Covered wa.login_id (q ∷ todo) s.table
      → Covered wa.login_id todo (send_media_request api wa ans id_error q s).table
  unfolding send_media_request put_after try_put
  step-Covered q todo s w c =
      let q' : MediaRequest =
        (requested_from api wa ans id_error q (ans.get_part q.message_id)).0 in
      if_split (Covered wa.login_id todo) (ans.can_put q') _ _
        (λ e.
          put-Covered wa.login_id q q' (requested_from-IsProcessed q (ans.get_part q.message_id))
            todo s.table c)
        (λ e. absurd (bool_clash (sym e ∙ w q')))

  all-Covered :
      (todo : Table) (s : State)
      → ((r : MediaRequest) → ans.can_put r ≡ true)
      → Covered wa.login_id todo s.table
      → Covered wa.login_id [] (send_each api wa ans id_error todo s).table
  unfolding send_each
  all-Covered [] s w c = c
  all-Covered (q ∷ todo) s w c =
      all-Covered todo (send_media_request api wa ans id_error q s) w (step-Covered q todo s w c)

  none-unrequested : (t : Table) → Covered wa.login_id [] t → get_unrequested wa.login_id t ≡ []
  unfolding Covered get_unrequested
  none-unrequested [] c = refl
  none-unrequested (r ∷ t) c = elim (Bool-cases (is_unrequested wa.login_id r)) [
    | inl e ↦ absurd (bool_clash (c.0 e))
    | inr e ↦
        ap
          (λ b.
            if b
            then r ∷ filter_rows (is_unrequested wa.login_id) t
            else filter_rows (is_unrequested wa.login_id) t)
          e
        ∙ none-unrequested t c.1
  ]

  -- If every row can be written, no request of the login is left unrequested by a round that could
  -- read the table, and a second round sends nothing and changes nothing.
  pub all_requested :
      (s : State)
      → ((r : MediaRequest) → ans.can_put r ≡ true)
      → (get_unrequested wa.login_id (send_media_requests api wa ans true id_error s).table ≡ [])
        × (send_media_requests api wa ans true id_error
              (send_media_requests api wa ans true id_error s)
            ≡ send_media_requests api wa ans true id_error s)
  unfolding send_media_requests send_each get_unrequested
  all_requested s w =
      let first : State = send_each api wa ans id_error (get_unrequested wa.login_id s.table) s in
      let none_left : get_unrequested wa.login_id first.table ≡ [] = none-unrequested first.table (
        all-Covered (get_unrequested wa.login_id s.table) s w
          (filter-Covered wa.login_id s.table)) in
      (none_left, ap (λ todo. send_each api wa ans id_error todo first) none_left)
