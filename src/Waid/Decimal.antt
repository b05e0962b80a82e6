-- ===== src/Waid/Decimal.antt =====
-- `strconv.ParseUint(s, 10, 64)` and `strconv.FormatUint(n, 10)`, which pkg/waid/mediaid.go uses.
use whatsapp.Common.{ℕ, zero, suc, ◌+◌, ◌-◌, ◌*◌, ◌/◌, ◌%◌, ◌^◌, ◌≤◌, ◌<◌, ◌≡◌, refl, ◌∙◌, ap}
use whatsapp.Common.{Bool, true, false, ◌&&◌, Option, none, some, [], ◌∷◌, ◌++◌, arith, ltb, leb}
use whatsapp.Common.{if◌then◌else◌, ◌==◌, lt→ltb, Bool-cases, inl, inr, ◌⊎◌, length, length-append}
use whatsapp.Common.Text.{Str, has_prefix}
use mathlib.Core.List.{append_assoc, append-nil}

abbrev pub is_digit : ℕ → Bool
is_digit c = leb b'0' c && leb c b'9'

-- The value of a text of digits read after the digits that are worth `acc`.
pub digits_value : ℕ → Str → Option ℕ
digits_value acc [] = some acc
digits_value acc (c ∷ s) =
    let rest = digits_value (acc * 10 + (c - b'0')) s in if is_digit c then rest else none

in_u64 : Option ℕ → Option ℕ
in_u64 none = none
in_u64 (some n) = if ltb n (2 ^ 64) then some n else none

-- `none` on an empty text, on any byte that is no digit, and out of range.
unfoldable pub parse_uint : Str → Option ℕ
unfolding digits_value in_u64
parse_uint [] = none
parse_uint (c ∷ s) = in_u64 (digits_value 0 (c ∷ s))

-- Each round takes a digit off, so `n` rounds are more than enough for `n`.
format_digits : ℕ → ℕ → Str
format_digits zero n = (n + b'0') ∷ []
format_digits (suc k) n =
    let more = format_digits k (n / 10) in
    if ltb n 10 then (n + b'0') ∷ [] else more ++ ((n % 10 + b'0') ∷ [])

unfoldable pub format_uint : ℕ → Str
unfolding format_digits
format_uint n = format_digits n n

digits_value-append :
    (acc n : ℕ) (s : Str) (c : ℕ)
    → digits_value acc s ≡ some n
    → is_digit c ≡ true
    → digits_value acc (s ++ (c ∷ [])) ≡ some (n * 10 + (c - b'0'))
unfolding digits_value
digits_value-append acc n [] c h d = ground arith
digits_value-append acc n (x ∷ s) c h d =
    ground (arith, digits_value-append (acc * 10 + (x - b'0')) n s c)

format_digits-value : (k n : ℕ) → n ≤ k → digits_value 0 (format_digits k n) ≡ some n
unfolding format_digits
format_digits-value zero n h = unfold digits_value in ground arith
format_digits-value (suc k) n h = elim (Bool-cases (ltb n 10)) [
  | inl e ↦ rw e (unfold digits_value in ground arith)
  | inr e ↦ rw e (
      ground (
        arith,
        digits_value-append 0 (n / 10) (format_digits k (n / 10)) (n % 10 + b'0'),
        format_digits-value k (n / 10) (ground arith),
      ))
]

format_digits_fuel : (k j n : ℕ) → n ≤ k → n ≤ j → format_digits k n ≡ format_digits j n
unfolding format_digits
format_digits_fuel zero zero n h g = refl
format_digits_fuel zero (suc j) n h g = ground arith
format_digits_fuel (suc k) zero n h g = ground arith
format_digits_fuel (suc k) (suc j) n h g = elim (Bool-cases (ltb n 10)) [
  | inl e ↦ rw e
  | inr e ↦ rw (e, format_digits_fuel k j (n / 10) (ground arith) (ground arith))
]

format_uint-suc : (n : ℕ) → 10 ≤ n → format_uint n ≡ format_uint (n / 10) ++ ((n % 10 + b'0') ∷ [])
unfolding format_uint
format_uint-suc zero h = ground arith
format_uint-suc (suc k) h = elim (Bool-cases (ltb (suc k) 10)) [
  | inl e ↦ ground arith
  | inr e ↦ rw (e, format_digits_fuel k (suc k / 10) (suc k / 10) (omega arith) (omega arith))
]

length-format_digits_pos : (k n : ℕ) → 0 < length (format_digits k n)
unfolding format_digits
length-format_digits_pos zero n = omega arith
length-format_digits_pos (suc k) n = elim (Bool-cases (ltb n 10)) [
  | inl e ↦ rw e (omega arith)
  | inr e ↦ rw (e, length-append (format_digits k (n / 10)) _) (omega arith)
]

parse_uint_value :
    (s : Str) (n : ℕ)
    → n < 2 ^ 64
    → 0 < length s
    → digits_value 0 s ≡ some n
    → parse_uint s ≡ some n
unfolding parse_uint
parse_uint_value [] n h l e = absurd (omega arith)
parse_uint_value (c ∷ s) n h l e = rw e (rw (lt→ltb n (2 ^ 64) h))

-- A `uint64` that was printed is read back.
pub parse_uint-format_uint : (n : ℕ) → n < 2 ^ 64 → parse_uint (format_uint n) ≡ some n
unfolding format_uint
parse_uint-format_uint n h =
    parse_uint_value (format_digits n n) n h (length-format_digits_pos n n)
      (format_digits-value n n (omega arith))

digit_back :
    (c acc : ℕ) (s : Str)
    → is_digit c ≡ true
    → format_uint ((acc * 10 + (c - b'0')) / 10) ++ (((acc * 10 + (c - b'0')) % 10 + b'0') ∷ s)
      ≡ format_uint acc ++ (c ∷ s)
digit_back c acc s d =
    let quotient : (acc * 10 + (c - b'0')) / 10 ≡ acc = ground arith in
    let digit : (acc * 10 + (c - b'0')) % 10 + b'0' ≡ c = ground arith in rw (quotient, digit)

-- Digits read after a positive number print as that number and the digits.
format_uint-digits_value :
    (s : Str) (acc n : ℕ)
    → 0 < acc
    → digits_value acc s ≡ some n
    → format_uint n ≡ format_uint acc ++ s
unfolding digits_value
format_uint-digits_value [] acc n p e = ground (arith, append-nil (format_uint acc))
format_uint-digits_value (c ∷ s) acc n p e = elim (Bool-cases (is_digit c)) [
  | inl d ↦
      format_uint-digits_value s (acc * 10 + (c - b'0')) n (omega arith) (rw d at e)
      ∙ ap (λ t. t ++ s) (format_uint-suc (acc * 10 + (c - b'0')) (omega arith))
      ∙ append_assoc (format_uint ((acc * 10 + (c - b'0')) / 10)) _ s
      ∙ digit_back c acc s d
  | inr d ↦ ground arith
]

-- The texts that `FormatUint` writes: digits that are in range, with no leading zero but for `0`.
pub record IsCanonical (s : Str) (n : ℕ) : Type 0 where
  pub reads : parse_uint s ≡ some n
  pub no_leading_zero : (has_prefix (b'0' ∷ []) s ≡ false) ⊎ (s ≡ b'0' ∷ [])

in_u64-eq : (o : Option ℕ) (n : ℕ) → in_u64 o ≡ some n → (o ≡ some n) × (n < 2 ^ 64)
unfolding in_u64
in_u64-eq none n h = cc
in_u64-eq (some m) n h = ground arith

pub parse_uint_in_range : (s : Str) (n : ℕ) → parse_uint s ≡ some n → n < 2 ^ 64
unfolding parse_uint
parse_uint_in_range [] n h = cc
parse_uint_in_range (c ∷ s) n h = (in_u64-eq (digits_value 0 (c ∷ s)) n h).1

format_uint_small : (n : ℕ) → n < 10 → format_uint n ≡ (n + b'0') ∷ []
unfolding format_uint
format_uint_small zero h = refl
format_uint_small (suc k) h = rw (lt→ltb (suc k) 10 h)

format_uint_digit : (c : ℕ) → is_digit c ≡ true → format_uint (c - b'0') ≡ c ∷ []
format_uint_digit c d =
    let back : c - b'0' + b'0' ≡ c = ground arith in
    format_uint_small (c - b'0') (ground arith) ∙ ap (λ t. t ∷ []) back

format_canonical :
    (c : ℕ) (s : Str) (n : ℕ)
    → (c == b'0') ≡ false
    → digits_value 0 (c ∷ s) ≡ some n
    → format_uint n ≡ c ∷ s
unfolding digits_value
format_canonical c s n z e = elim (Bool-cases (is_digit c)) [
  | inl d ↦
      format_uint-digits_value s (0 * 10 + (c - b'0')) n (ground arith) (rw d at e)
      ∙ ap (λ t. format_uint t ++ s) (omega arith)
      ∙ ap (λ t. t ++ s) (format_uint_digit c d)
  | inr d ↦ ground arith
]

zero_lem : (s : Str) (n : ℕ) → s ≡ b'0' ∷ [] → parse_uint s ≡ some n → format_uint n ≡ s
unfolding parse_uint format_uint
zero_lem s n e h = rw e (let z : n ≡ 0 = cc (rw e at h) in rw z)

-- A canonical text that was read is printed back.
pub format_uint-parse_uint : (s : Str) (n : ℕ) → IsCanonical s n → format_uint n ≡ s
unfolding parse_uint
format_uint-parse_uint [] n h = cc h.reads
format_uint-parse_uint (c ∷ s) n h = elim h.no_leading_zero [
  | inl z ↦ format_canonical c s n (ground arith) (in_u64-eq (digits_value 0 (c ∷ s)) n h.reads).0
  | inr z ↦ zero_lem (c ∷ s) n z h.reads
]
