-- ===== src/Common/Text.antt =====
-- Strings as lists of bytes: `==`, `strings.HasPrefix`, `strings.TrimPrefix`, `strings.SplitN`.
use Prim.Native.Nat.{ℕ, zero, suc}
use Prim.Native.Char.{code}
use Prim.Native.String.{String}
use mathlib.Core.Path.{◌≡◌, refl}
use mathlib.Core.Logic.{◌↔◌, ◌≢◌, inl, inr}
use mathlib.Core.Bool.{Bool, true, false, ◌&&◌}
use mathlib.Core.List.{List, [], ◌∷◌, ◌++◌}
use native.Mathlib.Omega.{arith}
use whatsapp.Common.Tests.{◌==◌, if◌then◌else◌, ==_iff, ==_refl, Bool-cases}
use whatsapp.Common.Lists.{length, drop, drop-append, All}

abbrev pub Str : Type 0
Str = List ℕ

-- The bytes of an ASCII literal.
abbrev pub codes : String → Str
codes String.[] = []
codes (String.◌∷◌ c s) = code c ∷ codes s

abbrev pub str_eq : Str → Str → Bool
str_eq [] [] = true
str_eq (a ∷ s) (b ∷ t) = (a == b) && str_eq s t
str_eq _ _ = false

pub str_eq_refl : (s : Str) → str_eq s s ≡ true
str_eq_refl [] = refl
str_eq_refl (a ∷ s) = ground (arith, str_eq_refl s)

pub str_eq→eq : (s t : Str) → str_eq s t ≡ true → s ≡ t
str_eq→eq [] [] h = refl
str_eq→eq [] (b ∷ t) h = cc
str_eq→eq (a ∷ s) [] h = cc
str_eq→eq (a ∷ s) (b ∷ t) h = ground (arith, str_eq→eq s t)

pub str_eq_iff : (s t : Str) → (str_eq s t ≡ true) ↔ (s ≡ t)
str_eq_iff s t = (str_eq→eq s t, λ e. rw e (str_eq_refl t))

-- `strings.HasPrefix(s, p)`, the prefix first.
abbrev pub has_prefix : Str → Str → Bool
has_prefix [] s = true
has_prefix (a ∷ p) [] = false
has_prefix (a ∷ p) (b ∷ s) = (a == b) && has_prefix p s

-- `strings.TrimPrefix(s, p)`
abbrev pub trim_prefix : Str → Str → Str
trim_prefix p s = if has_prefix p s then drop (length p) s else s

pub has_prefix-append : (p s : Str) → has_prefix p (p ++ s) ≡ true
has_prefix-append [] s = refl
has_prefix-append (a ∷ p) s = ground (arith, has_prefix-append p s)

pub trim_prefix-append : (p s : Str) → trim_prefix p (p ++ s) ≡ s
trim_prefix-append p s = rw (has_prefix-append p s) (drop-append p s)

-- The text before the first byte `c` and the text after it, if there is one.
abbrev pub cut_rest : ℕ → ℕ → Str × Str × Bool → Str × Str × Bool
cut_rest c a (before, after, found) = (a ∷ before, after, found)

abbrev pub cut : ℕ → Str → Str × Str × Bool
cut c [] = ([], [], false)
cut c (a ∷ s) = if a == c then ([], s, true) else cut_rest c a (cut c s)

-- `strings.SplitN(s, c, n)` for a positive `n` and a separator of one byte.
abbrev pub split_more : (Str → List Str) → Str × Str × Bool → List Str
split_more more (before, after, true) = before ∷ more after
split_more more (before, after, false) = before ∷ []

abbrev pub split_n : ℕ → ℕ → Str → List Str
split_n c zero s = []
split_n c (suc zero) s = s ∷ []
split_n c (suc (suc n)) s = split_more (split_n c (suc n)) (cut c s)

pub cut-append : (c : ℕ) (p s : Str) → All (λ a. a ≢ c) p → cut c (p ++ (c ∷ s)) ≡ (p, s, true)
cut-append c [] s h = rw (==_refl c)
cut-append c (a ∷ p) s h = elim (Bool-cases (a == c)) [
  | inl e ↦ absurd (h.0 ((==_iff a c).0 e))
  | inr e ↦ rw (e, cut-append c p s h.1)
]
