-- ===== src/Connector/DirectMedia/Asked.antt =====
-- pkg/connector/directmedia.go: how often a phone is asked.
use whatsapp.Common.{
  Bool, true, false, Option, none, some, List, [], ◌∷◌, if◌then◌else◌, ◌≡◌, refl, sym, ap, ◌∙◌, inl,
  inr, Bool-cases, if_both, if_split,
}
use whatsapp.Common.Text.{Str, str_eq, str_eq_refl, str_eq→eq}
use whatsapp.Connector.Receive.Conversion.{RetryData}
use whatsapp.Connector.DirectMedia.{
  FailedMediaKeys, DirectMediaRetry, new_retry, Retries, State, find, put, found_retry, request_of,
  get_direct_media_retry_state, request_direct_media, answered_retry, settle_found, answer_with,
  data_of, receive_direct_media_retry, Call, request, receive, run_call, run_calls,
}

pub put-find_same :
    (id : Str) (r : DirectMediaRetry) (rs : Retries) → find id (put id r rs) ≡ some r
put-find_same id r [] = ap (λ b. if b then some r else none) (str_eq_refl id)
put-find_same id r ((k, q) ∷ rs) = elim (Bool-cases (str_eq k id)) [
  | inl e ↦ rw e (rw e refl)
  | inr e ↦ rw e (rw e (put-find_same id r rs))
]

pub put-find_other :
    (id other : Str) (r : DirectMediaRetry) (rs : Retries)
    → str_eq id other ≡ false
    → find other (put id r rs) ≡ find other rs
put-find_other id other r [] h = rw h refl
put-find_other id other r ((k, q) ∷ rs) h = elim (Bool-cases (str_eq k id)) [
  | inl e ↦
      let same : k ≡ id = str_eq→eq k id e in
      let clash : str_eq k other ≡ false = rw same h in rw e (rw clash refl)
  | inr e ↦ rw e (ap (λ x. if str_eq k other then some q else x) (put-find_other id other r rs h))
]

-- Whether the retry has been requested.
abbrev requested_of : Option DirectMediaRetry → Bool
requested_of none = false
requested_of (some r) = r.requested

abbrev pub member : Str → List Str → Bool
member id [] = false
member id (k ∷ ks) = if str_eq k id then true else member id ks

-- No message is in the list twice.
abbrev pub Unique : List Str → Type 0
Unique [] = Unit
Unique (k ∷ ks) = (member k ks ≡ false) × Unique ks

-- The messages that were asked for are those whose retry says so.
abbrev pub IsRecorded : State → Type 0
IsRecorded s = Unique s.sent × ((id : Str) → member id s.sent ≡ requested_of (find id s.retries))

put-requested_of :
    (id other : Str) (r : DirectMediaRetry) (rs : Retries)
    → r.requested ≡ requested_of (find id rs)
    → requested_of (find other (put id r rs)) ≡ requested_of (find other rs)
put-requested_of id other r rs h = elim (Bool-cases (str_eq id other)) [
  | inl e ↦
      let same : id ≡ other = str_eq→eq id other e in
      ap (λ k. requested_of (find k (put id r rs))) (sym same)
      ∙ ap requested_of (put-find_same id r rs)
      ∙ h
      ∙ ap (λ k. requested_of (find k rs)) same
  | inr e ↦ ap requested_of (put-find_other id other r rs e)
]

put-IsRecorded :
    (id : Str) (r : DirectMediaRetry) (s : State)
    → r.requested ≡ requested_of (find id s.retries)
    → IsRecorded s
    → IsRecorded (record s { retries = put id r s.retries })
put-IsRecorded id r s h i =
    (i.0, λ other. i.1 other ∙ sym (put-requested_of id other r s.retries h))

sent-IsRecorded :
    (id : Str) (r : DirectMediaRetry) (s : State)
    → find id s.retries ≡ some r
    → r.requested ≡ false
    → IsRecorded s
    → IsRecorded (record s {
      retries = put id (record r { requested = true }) s.retries;
      sent = id ∷ s.sent;
    })
sent-IsRecorded id r s f h i = (
  (i.1 id ∙ ap requested_of f ∙ h, i.0),
  λ other. elim (Bool-cases (str_eq id other)) [
    | inl e ↦
        let same : id ≡ other = str_eq→eq id other e in
        ap (λ b. if b then true else member other s.sent) e
        ∙ sym (
            ap (λ k. requested_of (find k (put id (record r { requested = true }) s.retries)))
              (sym same)
            ∙ ap requested_of (put-find_same id (record r { requested = true }) s.retries))
    | inr e ↦
        ap (λ b. if b then true else member other s.sent) e
        ∙ i.1 other
        ∙ sym
            (ap requested_of (put-find_other id other (record r { requested = true }) s.retries e))
  ],
)

request_of-IsRecorded :
    (sends : Bool) (id : Str) (r : DirectMediaRetry) (s : State)
    → find id s.retries ≡ some r
    → IsRecorded s
    → IsRecorded (request_of sends id (some r, s)).1
unfolding request_of
request_of-IsRecorded sends id r s f i =
    if_split {A = Option DirectMediaRetry × State} (λ x. IsRecorded x.1) r.requested _ _ (λ e. i)
      (λ e.
        if_both {A = Option DirectMediaRetry × State} (λ x. IsRecorded x.1) sends _ _
          (sent-IsRecorded id r s f e i) i)

found-IsRecorded :
    (sends : Bool) (id : Str) (s : State) (o : Option DirectMediaRetry)
    → find id s.retries ≡ o
    → IsRecorded s
    → IsRecorded (request_of sends id (found_retry id true s o)).1
unfolding found_retry
found-IsRecorded sends id s (some r) f i = request_of-IsRecorded sends id r s f i
found-IsRecorded sends id s none f i =
    request_of-IsRecorded sends id new_retry (record s { retries = put id new_retry s.retries })
      (put-find_same id new_retry s.retries)
      (put-IsRecorded id new_retry s (sym (ap requested_of f)) i)

settle-IsRecorded :
    (id : Str) (answer : Option RetryData) (s : State) (o : Option DirectMediaRetry)
    → find id s.retries ≡ o
    → IsRecorded s
    → IsRecorded (settle_found id answer s (found_retry id false s o).0)
unfolding settle_found answered_retry found_retry
settle-IsRecorded id answer s none f i = i
settle-IsRecorded id none s (some r) f i = put-IsRecorded id _ s (sym (ap requested_of f)) i
settle-IsRecorded id (some d) s (some r) f i = put-IsRecorded id _ s (sym (ap requested_of f)) i

module _ (unmarshal : Str → Option FailedMediaKeys) (marshal : FailedMediaKeys → Option Str) where
  call-IsRecorded :
      (c : Call) (s : State) → IsRecorded s → IsRecorded (run_call unmarshal marshal c s)
  unfolding run_call request_direct_media receive_direct_media_retry get_direct_media_retry_state
  call-IsRecorded (request sends id) s i = found-IsRecorded sends id s (find id s.retries) refl i
  call-IsRecorded (receive id meta decrypt) s i =
      settle-IsRecorded id (data_of (answer_with decrypt (unmarshal meta))) s (find id s.retries)
        refl i

  calls-IsRecorded :
      (cs : List Call) (s : State) → IsRecorded s → IsRecorded (run_calls unmarshal marshal cs s)
  unfolding run_calls
  calls-IsRecorded [] s i = i
  calls-IsRecorded (c ∷ cs) s i = calls-IsRecorded cs _ (call-IsRecorded c s i)

-- Over any requests and answers, from no retries at all, WhatsApp is asked for the media of a message
-- once at most, and the messages that it was asked for are those whose retry is marked as requested.
pub requests-IsRecorded :
    (unmarshal : Str → Option FailedMediaKeys) (marshal : FailedMediaKeys → Option Str)
    (cs : List Call)
    → IsRecorded (run_calls unmarshal marshal cs (record { retries = []; sent = [] }))
requests-IsRecorded unmarshal marshal cs = calls-IsRecorded unmarshal marshal cs _ (tt, λ id. refl)
