-- ===== src/Waid/Binary.antt =====
-- `binary.BigEndian` and `encoding/hex`, as far as pkg/waid/mediaid.go uses them.
use whatsapp.Common.{ℕ, zero, suc, ◌+◌, ◌-◌, ◌*◌, ◌/◌, ◌%◌, ◌^◌, ◌≤◌, ◌<◌, ◌≡◌, refl, ◌∙◌}
use whatsapp.Common.{Bool, true, ◌&&◌, ◌||◌, Option, none, some, [], ◌∷◌, ◌++◌, arith, ltb, leb}
use whatsapp.Common.{if◌then◌else◌, Bool-cases, inl, inr, length, length-append, map, and-eq_true}
use whatsapp.Common.Text.{Str}
use native.Mathlib.Nat.{pow-suc}

-- The lowest `k` bytes of a number, highest first: `AppendUint64` is 8 of them, `AppendUint16` 2.
unfoldable pub be_bytes : ℕ → ℕ → Str
be_bytes zero n = []
be_bytes (suc k) n = be_bytes k (n / 256) ++ ((n % 256) ∷ [])

-- `Uint64` and `Uint16` on as many bytes as they read.
unfoldable pub be_value : ℕ → Str → ℕ
be_value acc [] = acc
be_value acc (b ∷ s) = be_value (acc * 256 + b) s

be_value-append : (acc b : ℕ) (s : Str) → be_value acc (s ++ (b ∷ [])) ≡ be_value acc s * 256 + b
unfolding be_value
be_value-append acc b [] = refl
be_value-append acc b (c ∷ s) = be_value-append (acc * 256 + c) b s

pub length-be_bytes : (k n : ℕ) → length (be_bytes k n) ≡ k
unfolding be_bytes
length-be_bytes zero n = refl
length-be_bytes (suc k) n =
    length-append (be_bytes k (n / 256)) _ ∙ omega (arith, length-be_bytes k (n / 256))

-- `k` bytes hold every number below 256 to the power of `k`.
pub be_value-be_bytes : (k n : ℕ) → n < 256 ^ k → be_value 0 (be_bytes k n) ≡ n
unfolding be_bytes
be_value-be_bytes zero n h = unfold be_value in omega arith
be_value-be_bytes (suc k) n h =
    be_value-append 0 (n % 256) (be_bytes k (n / 256))
    ∙ omega (arith, be_value-be_bytes k (n / 256) (omega (arith, pow-suc 256 k)))

-- The digits that `hex.EncodeToString` writes, in lower case.
hex_digit : ℕ → ℕ
hex_digit n = if ltb n 10 then n + b'0' else n - 10 + b'a'

unfoldable pub hex_encode : Str → Str
unfolding hex_digit
hex_encode [] = []
hex_encode (b ∷ s) = hex_digit (b / 16) ∷ (hex_digit (b % 16) ∷ hex_encode s)

-- `strings.ToUpper` on one ASCII byte.
upper : ℕ → ℕ
upper c = if leb b'a' c && leb c b'z' then c - 32 else c

unfoldable pub to_upper : Str → Str
unfolding upper
to_upper = map upper

hex_value : ℕ → Option ℕ
hex_value c =
    if leb b'0' c && leb c b'9'
    then some (c - b'0')
    else if leb b'a' c && leb c b'f'
    then some (c - b'a' + 10)
    else if leb b'A' c && leb c b'F'
    then some (c - b'A' + 10)
    else none

hex_pair : Option ℕ → Option ℕ → Option Str → Option Str
hex_pair (some a) (some b) (some s) = some ((a * 16 + b) ∷ s)
hex_pair _ _ _ = none

-- `hex.AppendDecode`: `none` on a byte that is no hexadecimal digit and on an odd length.
unfoldable pub hex_decode : Str → Option Str
unfolding hex_pair hex_value
hex_decode [] = some []
hex_decode (a ∷ []) = none
hex_decode (a ∷ b ∷ s) = hex_pair (hex_value a) (hex_value b) (hex_decode s)

-- `isUpperHex`; a byte of a longer rune fails the test as the rune does.
is_upper_hex_digit : ℕ → Bool
is_upper_hex_digit c = (leb b'0' c && leb c b'9') || (leb b'A' c && leb c b'F')

unfoldable pub is_upper_hex : Str → Bool
unfolding is_upper_hex_digit
is_upper_hex [] = true
is_upper_hex (c ∷ s) = is_upper_hex_digit c && is_upper_hex s

-- An upper-case digit has a value, and is what that value prints as in upper case.
hex_digit_back :
    (c : ℕ)
    → is_upper_hex_digit c ≡ true
    → (n : ℕ) × (hex_value c ≡ some n) × (n < 16) × (upper (hex_digit n) ≡ c)
unfolding is_upper_hex_digit hex_value upper hex_digit
hex_digit_back c h = elim (Bool-cases (leb b'0' c && leb c b'9')) [
  | inl e ↦ (c - b'0', ground arith, ground arith, ground arith)
  | inr e ↦ (c - b'A' + 10, ground arith, ground arith, ground arith)
]

hex_decode-pair :
    (a b : ℕ) (s t : Str)
    → is_upper_hex_digit a ≡ true
    → is_upper_hex_digit b ≡ true
    → hex_decode s ≡ some t
    → (x : ℕ) × (hex_decode (a ∷ b ∷ s) ≡ some (x ∷ t))
      × (to_upper (hex_encode (x ∷ t)) ≡ a ∷ b ∷ to_upper (hex_encode t))
unfolding hex_decode hex_encode to_upper
hex_decode-pair a b s t ha hb e =
    let (m, em, lm, um) = hex_digit_back a ha in
    let (n, en, ln, un) = hex_digit_back b hb in
    let high : (m * 16 + n) / 16 ≡ m = omega arith in
    let low : (m * 16 + n) % 16 ≡ n = omega arith in
    (m * 16 + n, rw (em, en, e), rw (high, low, um, un))

-- An upper-case text of whole bytes is decoded, and encoded back to itself.
pub hex_round_trip :
    (s : Str)
    → is_upper_hex s ≡ true
    → length s % 2 ≡ 0
    → (t : Str) × (hex_decode s ≡ some t) × (to_upper (hex_encode t) ≡ s) × (length t ≤ length s)
unfolding is_upper_hex
hex_round_trip [] h l = unfold hex_decode hex_encode to_upper in ([], refl, refl, omega arith)
hex_round_trip (a ∷ []) h l = absurd (omega arith)
hex_round_trip (a ∷ b ∷ s) h l =
    let (ha, more) =
      and-eq_true (is_upper_hex_digit a) (is_upper_hex_digit b && is_upper_hex s) h in
    let (hb, hs) = and-eq_true (is_upper_hex_digit b) (is_upper_hex s) more in
    let (t, decoded, encoded, shorter) = hex_round_trip s hs (omega arith) in
    let (x, decoded', encoded') = hex_decode-pair a b s t ha hb decoded in
    (x ∷ t, decoded', rw (encoded', encoded), omega arith)
