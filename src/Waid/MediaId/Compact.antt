-- ===== src/Waid/MediaId/Compact.antt =====
-- pkg/waid/mediaid.go: reading the compact forms of JIDs and message IDs, and a part with its length.
use whatsapp.Common.{ℕ, zero, suc, ◌+◌, ◌%◌, ◌<◌, ◌^◌, ◌≡◌, refl, ◌≢◌, ap, arith, inl, inr}
use whatsapp.Common.{false, ◌&&◌, none, some, [], ◌∷◌, ◌++◌, Outcome, ok}
use whatsapp.Common.{length, length-append, take-append, drop-append, take, ltb, ◌==◌, Bool-cases}
use whatsapp.Common.{and-eq_true}
use whatsapp.Common.Text.{Str}
use whatsapp.Waid.Jid.{default_user, group, Jid, JidApi, server_eq→eq}
use whatsapp.Waid.Decimal.{parse_uint, IsCanonical, format_uint-parse_uint}
use whatsapp.Waid.Decimal.{parse_uint_in_range}
use mathlib.Core.List.{append-nil}
use whatsapp.Waid.Binary.{be_bytes, is_upper_hex, length-be_bytes, be_value-be_bytes}
use whatsapp.Waid.Binary.{hex_round_trip}
use whatsapp.Waid.MediaId.{CompactError, with_length, compact_jid, parse_compact_jid}
use whatsapp.Waid.MediaId.{compact_msg_id, parse_compact_msg_id, read_compact}

-- The JIDs with no device whose compact form fits a length byte and keeps all of them: a number
-- with no leading zero, a group, or a text that `types.ParseJID` reads back.
pub data IsCompact (api : JidApi) (j : Jid) : Type 0 where
  numeric :
      (n : ℕ) → j.server ≡ default_user → j.device ≡ 0 → IsCanonical j.user n → IsCompact api j
  of_group : j.server ≡ group → j.device ≡ 0 → length j.user < 255 → IsCompact api j
  raw :
      (j.server ≡ default_user → parse_uint j.user ≡ none)
      → j.server ≢ group
      → api.parse_jid (api.to_string j) ≡ some j
      → length (api.to_string j) < 255
      → IsCompact api j

-- A compact form of `j`: what `compactJID` writes, read back, and short enough.
pub record IsFormOf (api : JidApi) (j : Jid) (b : Str) : Type 0 where
  pub written : compact_jid api j ≡ ok b
  pub read : parse_compact_jid api b ≡ ok j
  pub fits : length b < 256

module _ (api : JidApi) where
  take_self : (s : Str) (n : ℕ) → length s ≡ n → take n s ≡ s
  take_self [] zero e = refl
  take_self [] (suc n) e = refl
  take_self (x ∷ s) zero e = absurd (omega arith)
  take_self (x ∷ s) (suc n) e = ap (λ t. x ∷ t) (take_self s n (omega arith))

  read_numeric :
      (j : Jid) (n : ℕ)
      → j.server ≡ default_user
      → j.device ≡ 0
      → IsCanonical j.user n
      → parse_compact_jid api (1 ∷ be_bytes 8 n) ≡ ok j
  unfolding parse_compact_jid
  read_numeric j n es ed h =
      let fits : n < 256 ^ 8 = parse_uint_in_range j.user n h.reads in
      let whole : take 8 (be_bytes 8 n) ≡ be_bytes 8 n = take_self _ 8 (length-be_bytes 8 n) in
      rw (length-be_bytes 8 n, whole, be_value-be_bytes 8 n fits, format_uint-parse_uint j.user n h)
        (ground arith)

  pub compact_form : (j : Jid) → IsCompact api j → (b : Str) × IsFormOf api j b
  unfolding compact_jid
  compact_form j (numeric n es ed h) = (
    1 ∷ be_bytes 8 n,
    record {
      written = ground (arith, h.reads);
      read = read_numeric j n es ed h;
      fits = omega (arith, length-be_bytes 8 n);
    },
  )
  compact_form j (of_group es ed h) = (
    3 ∷ j.user,
    record {
      written = ground arith;
      read = unfold parse_compact_jid in ground arith;
      fits = omega arith;
    },
  )
  compact_form j (raw not_number not_group reads h) = (
    0 ∷ api.to_string j,
    record {
      written = ground (arith, server_eq→eq j.server default_user, server_eq→eq j.server group);
      read = unfold parse_compact_jid in rw reads;
      fits = omega arith;
    },
  )

-- `readCompact` takes a part with its length off the front, and leaves what follows.
pub read_compact-with_length :
    {A : Type 0} (fn : Str → Outcome CompactError A) (b rest : Str) (a : A)
    → length b < 256
    → fn b ≡ ok a
    → read_compact fn (with_length b ++ rest) ≡ ok (a, rest)
unfolding read_compact
read_compact-with_length fn b rest a h e =
    let whole : length b % 256 ≡ length b = omega arith in
    let enough : ltb (length (b ++ rest) + 1) (length b + 1) ≡ false =
      ground (arith, length-append b rest) in
    rw (whole, enough, take-append b rest, drop-append b rest, e)

-- A message ID is kept by its compact form, and the form of a short one fits a length byte.
pub parse_compact_msg_id-compact_msg_id :
    (id : Str) → parse_compact_msg_id (compact_msg_id id) ≡ ok id
unfolding parse_compact_msg_id compact_msg_id
parse_compact_msg_id-compact_msg_id id = elim (Bool-cases (is_upper_hex id && length id % 2 == 0)) [
  | inl e ↦
      let (h, l) = and-eq_true (is_upper_hex id) (length id % 2 == 0) e in
      let (t, decoded, encoded, _) = hex_round_trip id h (ground arith) in rw (e, decoded, encoded)
  | inr e ↦ rw e
]

pub length-compact_msg_id : (id : Str) → length id < 255 → length (compact_msg_id id) < 256
unfolding compact_msg_id
length-compact_msg_id id h = elim (Bool-cases (is_upper_hex id && length id % 2 == 0)) [
  | inl e ↦
      let (x, l) = and-eq_true (is_upper_hex id) (length id % 2 == 0) e in
      let (t, decoded, _, shorter) = hex_round_trip id x (ground arith) in
      rw (e, decoded) (omega arith)
  | inr e ↦ rw e (omega arith)
]

pub read_compact_last :
    {A : Type 0} (fn : Str → Outcome CompactError A) (b : Str) (a : A)
    → length b < 256
    → fn b ≡ ok a
    → read_compact fn (with_length b) ≡ ok (a, [])
read_compact_last fn b a h e = rw append-nil at (read_compact-with_length fn b [] a h e)
