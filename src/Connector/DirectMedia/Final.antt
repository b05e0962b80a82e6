-- ===== src/Connector/DirectMedia/Final.antt =====
-- pkg/connector/directmedia.go: what the answer of a phone settles.
use whatsapp.Common.{
  Bool, true, false, Option, none, some, List, [], ◌∷◌, All, ◌≡◌, refl, ap, ◌∙◌, inl, inr,
  Bool-cases, if_both,
}
use whatsapp.Common.Text.{Str, str_eq, str_eq→eq}
use whatsapp.Connector.Receive.Conversion.{RetryData}
use whatsapp.Connector.DirectMedia.{
  FailedMediaKeys, DirectMediaRetry, new_retry, State, find, found_retry, request_of,
  get_direct_media_retry_state, request_direct_media, on_answer, read_answer, select_case,
  answered_retry, settle_found, answer_with, data_of, receive_direct_media_retry, Call, request,
  receive, run_call, run_calls, waited_with, request_and_wait_direct_media,
}
use whatsapp.Connector.DirectMedia.Asked.{put-find_same, put-find_other}

-- A request that was made before is not made again.
request_found :
    (sends : Bool) (id : Str) (r : DirectMediaRetry) (s : State)
    → find id s.retries ≡ some r
    → r.requested ≡ true
    → request_direct_media sends id s ≡ (some r, s)
unfolding request_direct_media get_direct_media_retry_state request_of found_retry
request_found sends id r s f h = rw f (rw h refl)

module _ (id other : Str) (d : str_eq id other ≡ false) where
  of_other :
      (sends : Bool) (r : DirectMediaRetry) (s : State)
      → find other (request_of sends id (some r, s)).1.retries ≡ find other s.retries
  unfolding request_of
  of_other sends r s =
      if_both {A = Option DirectMediaRetry × State}
        (λ x. find other x.1.retries ≡ find other s.retries) r.requested _ _ refl
        (if_both {A = Option DirectMediaRetry × State}
          (λ x. find other x.1.retries ≡ find other s.retries) sends _ _
          (put-find_other id other _ s.retries d) refl)

  found_other :
      (sends : Bool) (s : State) (o : Option DirectMediaRetry)
      → find other (request_of sends id (found_retry id true s o)).1.retries ≡ find other s.retries
  unfolding found_retry
  found_other sends s (some r) = of_other sends r s
  found_other sends s none =
      of_other sends new_retry _ ∙ put-find_other id other new_retry s.retries d

  settle_other :
      (answer : Option RetryData) (s : State) (o : Option DirectMediaRetry)
      → find other (settle_found id answer s (found_retry id false s o).0).retries
        ≡ find other s.retries
  unfolding settle_found found_retry
  settle_other answer s none = refl
  settle_other answer s (some r) = put-find_other id other _ s.retries d

-- Among the calls is no answer for the message.
abbrev pub IsOther : Str → Call → Type 0
IsOther id (request sends k) = Unit
IsOther id (receive k meta decrypt) = str_eq k id ≡ false

module _ (unmarshal : Str → Option FailedMediaKeys) (marshal : FailedMediaKeys → Option Str) where
  call_keeps :
      (id : Str) (r : DirectMediaRetry) (c : Call) (s : State)
      → r.requested ≡ true
      → IsOther id c
      → find id s.retries ≡ some r
      → find id (run_call unmarshal marshal c s).retries ≡ some r
  unfolding run_call request_direct_media receive_direct_media_retry get_direct_media_retry_state
  call_keeps id r (request sends k) s h o f = elim (Bool-cases (str_eq k id)) [
    | inl e ↦
        let same : k ≡ id = str_eq→eq k id e in
        ap (λ x. find id (request_direct_media sends x s).1.retries) same
        ∙ ap (λ (x : Option DirectMediaRetry × State). find id x.1.retries)
            (request_found sends id r s f h)
        ∙ f
    | inr e ↦ found_other k id e sends s (find k s.retries) ∙ f
  ]
  call_keeps id r (receive k meta decrypt) s h o f =
      settle_other k id o (data_of (answer_with decrypt (unmarshal meta))) s (find k s.retries) ∙ f

  calls_keep :
      (id : Str) (r : DirectMediaRetry) (cs : List Call) (s : State)
      → r.requested ≡ true
      → All (IsOther id) cs
      → find id s.retries ≡ some r
      → find id (run_calls unmarshal marshal cs s).retries ≡ some r
  unfolding run_calls
  calls_keep id r [] s h o f = f
  calls_keep id r (c ∷ cs) s h o f =
      calls_keep id r cs (run_call unmarshal marshal c s) h o.1 (call_keeps id r c s h o.0 f)

  received :
      (id meta : Str) (decrypt : Str → Option RetryData) (r : DirectMediaRetry) (s : State)
      → find id s.retries ≡ some r
      → find id (receive_direct_media_retry unmarshal marshal id meta decrypt s).0.retries
        ≡ some (answered_retry (data_of (answer_with decrypt (unmarshal meta))) r)
  unfolding receive_direct_media_retry get_direct_media_retry_state found_retry settle_found
  received id meta decrypt r s f = rw f (put-find_same id _ s.retries)

  wait_ends :
      (sends : Bool) (id : Str) (r : DirectMediaRetry) (s : State)
      → find id s.retries ≡ some r
      → r.requested ≡ true
      → r.wait_set ≡ true
      → request_and_wait_direct_media unmarshal marshal sends id [] on_answer s
        ≡ (some (read_answer r), s)
  unfolding request_and_wait_direct_media waited_with run_calls select_case
  wait_ends sends id r s f h a = rw (request_found sends id r s f h) (rw f (rw a refl))

answered_retry_flags :
    (answer : Option RetryData) (r : DirectMediaRetry)
    → r.requested ≡ true
    → ((answered_retry answer r).requested ≡ true) × ((answered_retry answer r).wait_set ≡ true)
unfolding answered_retry
answered_retry_flags none r h = (h, refl)
answered_retry_flags (some d) r h = (h, refl)

-- After the answer about a message that was asked for, and after any other calls, none of them an
-- answer about it, a wait for the message's media that is not cancelled is given that answer at once,
-- and WhatsApp is not asked.
pub answer_is_final :
    (unmarshal : Str → Option FailedMediaKeys) (marshal : FailedMediaKeys → Option Str)
    (id meta : Str) (decrypt : Str → Option RetryData) (r : DirectMediaRetry) (s : State)
    (cs : List Call) (sends : Bool)
    → find id s.retries ≡ some r
    → r.requested ≡ true
    → All (IsOther id) cs
    → request_and_wait_direct_media unmarshal marshal sends id [] on_answer (
        run_calls unmarshal marshal cs
          (receive_direct_media_retry unmarshal marshal id meta decrypt s).0)
      ≡ (
        some (read_answer (answered_retry (data_of (answer_with decrypt (unmarshal meta))) r)),
        run_calls unmarshal marshal cs
            (receive_direct_media_retry unmarshal marshal id meta decrypt s).0,
      )
answer_is_final unmarshal marshal id meta decrypt r s cs sends f h o =
    let flags = answered_retry_flags (data_of (answer_with decrypt (unmarshal meta))) r h in
    wait_ends unmarshal marshal sends id _ _
      (calls_keep unmarshal marshal id _ cs _ flags.0 o
        (received unmarshal marshal id meta decrypt r s f))
      flags.0 flags.1
