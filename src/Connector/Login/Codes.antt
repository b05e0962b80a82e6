-- ===== src/Connector/Login/Codes.antt =====
-- pkg/connector/login.go: which QR code is shown when, over the calls of `Wait`.
use whatsapp.Common.{◌∙◌}
use whatsapp.Common.{ℕ, suc, ◌+◌, ◌-◌, ◌*◌, ◌≤◌, ◌<◌, ◌≡◌, refl, sym, ap, arith}
use whatsapp.Common.{true, false, none, some, List, [], ◌∷◌, ◌++◌, map, ltb, leb, length}
use whatsapp.Common.{if◌then◌else◌, Outcome, ok, err, length-append}
use whatsapp.Common.Text.{Str}
use whatsapp.Connector.Login.{
  WaLogin, LoginError, login_timeout, LoginStep, qr_step, qr_at, get_qr_index, qr_index_from,
  second, handle_events,
}
use whatsapp.Connector.Login.Wait.{Around, timer_fired, wait}

-- The code of index `i` is shown until 60 seconds and 20 more for each code before it.
abbrev pub shown_until : ℕ → ℕ
shown_until i = (60 + 20 * i) * second

shown_index : ℕ → ℕ
shown_index t =
    if leb t (shown_until 0)
    then 0
    else if leb t (shown_until 1)
    then 1
    else if leb t (shown_until 2)
    then 2
    else if leb t (shown_until 3)
    then 3
    else if leb t (shown_until 4)
    then 4
    else 5

-- Up to 160 seconds after the codes came, the index is below 6 and the time given is the rest of
-- that code's time, of which no part of an earlier code's is left.
pub get_qr_index_bounds :
    (t : ℕ)
    → t ≤ 160 * second
    → (i : ℕ) × (d : ℕ) × (get_qr_index t ≡ (some i, d))
      × (i < 6)
      × (t + d ≡ shown_until i)
      × (d ≤ (if leb i 0 then 60 else 20) * second)
unfolding get_qr_index qr_index_from
get_qr_index_bounds t h = (
  shown_index t,
  shown_until (shown_index t) - t,
  unfold shown_index in ground arith,
  unfold shown_index in ground arith,
  unfold shown_index in ground arith,
  unfold shown_index in ground arith,
)

pub get_qr_index_late : (t : ℕ) → 160 * second < t → get_qr_index t ≡ (none, 0)
unfolding get_qr_index qr_index_from
get_qr_index_late t h = ground arith

-- A call of `Wait` during which nothing arrives until the timer fires.
abbrev pub quiet : Around
quiet = record { wake = timer_fired; before = []; later = []; can_create = λ n. true }

-- A `Wait` that starts more than 160 seconds after the codes came does not time out when its timer
-- fires: it shows the first code again, and the login goes on.
pub late_wait :
    (now : ℕ) (wl : WaLogin) (c : Str) (cs : List Str)
    → wl.phone_code ≡ false
    → wl.qrs ≡ c ∷ cs
    → wl.start_time + 160 * second < now
    → (wait now quiet wl).result ≡ ok (qr_step c)
      × ((wait now quiet wl).login ≡ record wl { prev_qr_index = 0 })
unfolding wait handle_events
late_wait now wl c cs p q h =
    rw (p, get_qr_index_late (now - wl.start_time) (omega (arith, h)), q) (ground arith)

-- The results of quiet waits one after the other, at the given times.
abbrev pub run_waits : List ℕ → WaLogin → List (Outcome LoginError LoginStep)
run_waits [] wl = []
run_waits (t ∷ ts) wl = (wait t quiet wl).result ∷ run_waits ts (wait t quiet wl).login

-- The first time is one at which the code `i` is current, the next one at which the code `i + 1` is, and so on.
abbrev pub OnTime : ℕ → ℕ → List ℕ → Type 0
OnTime start i [] = Unit
OnTime start i (t ∷ ts) = ((get_qr_index (t - start)).0 ≡ some i) × OnTime start (suc i) ts

ltb_refl : (n : ℕ) → ltb n n ≡ false
ltb_refl n = ground arith

shows_next :
    (t i : ℕ) (wl : WaLogin)
    → wl.phone_code ≡ false
    → (get_qr_index (t - wl.start_time)).0 ≡ some i
    → wl.prev_qr_index ≡ i
    → leb (length wl.qrs) (suc i) ≡ false
    → wait t quiet wl ≡ record {
      login = record wl { prev_qr_index = suc i };
      result = qr_at (suc i) wl.qrs;
      created = none;
    }
unfolding wait handle_events
shows_next t i wl p e q l = rw (p, e, q, ltb_refl i, l) refl

times_out :
    (t i : ℕ) (wl : WaLogin)
    → wl.phone_code ≡ false
    → (get_qr_index (t - wl.start_time)).0 ≡ some i
    → wl.prev_qr_index ≡ i
    → leb (length wl.qrs) (suc i) ≡ true
    → (wait t quiet wl).result ≡ err login_timeout
unfolding wait handle_events
times_out t i wl p e q l = rw (p, e, q, ltb_refl i, l) refl

length-snoc : (xs : List Str) (c : Str) → length (xs ++ (c ∷ [])) ≡ suc (length xs)
length-snoc xs c = omega (arith, length-append xs (c ∷ []))

snoc : (xs ys : List Str) (c d : Str) → xs ++ (c ∷ (d ∷ ys)) ≡ (xs ++ (c ∷ [])) ++ (d ∷ ys)
snoc [] ys c d = refl
snoc (x ∷ xs) ys c d = ap (λ r. x ∷ r) (snoc xs ys c d)

last_code :
    (xs : List Str) (c : Str) (cs : List Str)
    → cs ≡ xs ++ (c ∷ [])
    → leb (length cs) (suc (length xs)) ≡ true
last_code xs c cs q = rw q (ground (arith, length-snoc xs c))

more_codes :
    (xs ys : List Str) (c d : Str) (cs : List Str)
    → cs ≡ xs ++ (c ∷ (d ∷ ys))
    → leb (length cs) (suc (length xs)) ≡ false
more_codes xs ys c d cs q = rw q (ground (arith, length-append xs (c ∷ (d ∷ ys))))

next_code :
    (xs ys : List Str) (c d : Str) (cs : List Str)
    → cs ≡ xs ++ (c ∷ (d ∷ ys))
    → qr_at (suc (length xs)) cs ≡ ok (qr_step d)
next_code [] ys c d cs q = rw q refl
next_code (x ∷ xs) ys c d cs q = rw q (next_code xs ys c d (xs ++ (c ∷ (d ∷ ys))) refl)

codes_from :
    (ts : List ℕ) (shown rest : List Str) (c : Str) (wl : WaLogin)
    → wl.phone_code ≡ false
    → wl.qrs ≡ shown ++ (c ∷ rest)
    → wl.prev_qr_index ≡ length shown
    → length ts ≡ suc (length rest)
    → OnTime wl.start_time (length shown) ts
    → run_waits ts wl ≡ map (λ d. ok (qr_step d)) rest ++ (err login_timeout ∷ [])
codes_from [] shown rest c wl p q e n o = absurd (omega (arith, n))
codes_from (t ∷ []) shown [] c wl p q e n o =
    ap (λ r. r ∷ []) (times_out t (length shown) wl p o.0 e (last_code shown c wl.qrs q))
codes_from (t ∷ (u ∷ ts)) shown [] c wl p q e n o = absurd (omega (arith, n))
codes_from (t ∷ ts) shown (d ∷ rest) c wl p q e n o =
    rw (shows_next t (length shown) wl p o.0 e (more_codes shown rest c d wl.qrs q)) (
      rw (next_code shown rest c d wl.qrs q) (
        ap (λ r. ok (qr_step d) ∷ r)
          (codes_from ts (shown ++ (c ∷ [])) rest d
            (record wl { prev_qr_index = suc (length shown) }) p (q ∙ snoc shown rest c d)
            (sym (length-snoc shown c)) (omega (arith, n)) (rw (length-snoc shown c) o.1))))

-- Quiet waits, each called while the code that was shown last is current, show the codes one after
-- the other, and the wait after the last code times out.
pub codes_in_order :
    (ts : List ℕ) (c : Str) (rest : List Str) (wl : WaLogin)
    → wl.phone_code ≡ false
    → wl.qrs ≡ c ∷ rest
    → wl.prev_qr_index ≡ 0
    → length ts ≡ suc (length rest)
    → OnTime wl.start_time 0 ts
    → run_waits ts wl ≡ map (λ d. ok (qr_step d)) rest ++ (err login_timeout ∷ [])
codes_in_order ts c rest wl = codes_from ts [] rest c wl
