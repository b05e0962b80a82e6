-- ===== src/Msgconv/Line/Safety.antt =====
-- pkg/msgconv/wa-text.go: the tags in the HTML of a line are those of the formatting.
use whatsapp.Common.{All, if_both}
use whatsapp.Common.{
  ℕ, ◌≡◌, refl, ◌∙◌, arith, Bool, true, false, not, ◌&&◌, ◌||◌, List, [], ◌∷◌, ◌++◌, if◌then◌else◌,
  ◌==◌, length, if_split, Bool-cases, inl, inr, and-eq_true,
}
use whatsapp.Common.Text.{Str, codes, has_prefix}
use whatsapp.Msgconv.Line.{
  escape_byte, escape_string, Mark, italic, bold, strikethrough, inline_code, marker, start_tag,
  end_tag, replace_all, replace_each,
}
use whatsapp.Msgconv.Line.Tagged.{Tagged, done, kept, started, ended, replace-Tagged}

-- The tags of the formatting.
abbrev pub tag_texts : List Str
tag_texts =
    codes "<em>"
    ∷ codes "</em>"
    ∷ codes "<strong>"
    ∷ codes "</strong>"
    ∷ codes "<del>"
    ∷ codes "</del>"
    ∷ codes "<code>"
    ∷ codes "</code>"
    ∷ codes "<a href=\""
    ∷ codes "</a>"
    ∷ []

abbrev pub starts_one : List Str → Str → Bool
starts_one [] s = false
starts_one (p ∷ ps) s = let later : Bool = starts_one ps s in if has_prefix p s then true else later

abbrev pub starts_tag : Str → Bool
starts_tag s = starts_one tag_texts s

-- Every `<` in the text starts a tag of the formatting.
abbrev pub tags_only : Str → Bool
tags_only [] = true
tags_only (a ∷ s) =
    let rest : Bool = tags_only s in (if a == b'<' then starts_tag (a ∷ s) else true) && rest

-- A tag has no marker in it.
abbrev is_marker : ℕ → Bool
is_marker a = a == b'_' || (a == b'*' || (a == b'~' || a == b'`'))

abbrev plain : Str → Bool
plain [] = true
plain (a ∷ s) = not (is_marker a) && plain s

no_marker : (m : Mark) (c : ℕ) (p : Str) → (c == marker m) ≡ true → plain (c ∷ p) ≡ true → ⊥
no_marker italic c p h k = ground arith
no_marker bold c p h k = ground arith
no_marker strikethrough c p h k = ground arith
no_marker inline_code c p h k = ground arith

keeps_prefix :
    (p : Str) {s t : Str}
    → plain p ≡ true
    → Tagged s t
    → has_prefix p s ≡ true
    → has_prefix p t ≡ true
keeps_prefix [] k g h = refl
keeps_prefix (c ∷ p) k done h = cc
keeps_prefix (c ∷ p) k (kept a g) h =
    let (same, rest) = and-eq_true (c == a) _ h in
    rw (same, keeps_prefix p (and-eq_true (not (is_marker c)) (plain p) k).1 g rest)
keeps_prefix (c ∷ p) k (started m g) h =
    absurd (no_marker m c p (and-eq_true (c == marker m) _ h).0 k)
keeps_prefix (c ∷ p) k (ended m g) h =
    absurd (no_marker m c p (and-eq_true (c == marker m) _ h).0 k)

keeps_tag :
    (ps : List Str) {s t : Str}
    → All (λ p. plain p ≡ true) ps
    → Tagged s t
    → starts_one ps s ≡ true
    → starts_one ps t ≡ true
keeps_tag [] k g h = h
keeps_tag (p ∷ ps) {s} {t} k g h = elim (Bool-cases (has_prefix p s)) [
  | inl e ↦ rw (keeps_prefix p k.0 g e) refl
  | inr e ↦
      let later : starts_one ps s ≡ true = rw e at h in
      or_later (has_prefix p t) _ (keeps_tag ps k.1 g later)
]
  where
    or_later : (a b : Bool) → b ≡ true → (if a then true else b) ≡ true
    or_later true b q = refl
    or_later false b q = q

start_only : (m : Mark) (t : Str) → tags_only (start_tag m ++ t) ≡ tags_only t
start_only italic t = refl
start_only bold t = refl
start_only strikethrough t = refl
start_only inline_code t = refl

end_only : (m : Mark) (t : Str) → tags_only (end_tag m ++ t) ≡ tags_only t
end_only italic t = refl
end_only bold t = refl
end_only strikethrough t = refl
end_only inline_code t = refl

-- Tags in the place of markers leave no other `<`.
Tagged-tags_only : {s t : Str} → Tagged s t → tags_only s ≡ true → tags_only t ≡ true
Tagged-tags_only done h = h
Tagged-tags_only (kept a {s} {t} g) h =
    let (here, later) =
      and-eq_true (if a == b'<' then starts_tag (a ∷ s) else true) (tags_only s) h in
    rw (Tagged-tags_only g later, still (a == b'<') here)
  where
    still :
        (b : Bool)
        → (if b then starts_tag (a ∷ s) else true) ≡ true
        → (if b then starts_tag (a ∷ t) else true) ≡ true
    still true q =
        keeps_tag tag_texts
          (refl, (refl, (refl, (refl, (refl, (refl, (refl, (refl, (refl, (refl, tt))))))))))
          (kept a g) q
    still false q = refl
Tagged-tags_only (started m {s} {t} g) h =
    start_only m t ∙ Tagged-tags_only g (and-eq_true _ (tags_only s) h).1
Tagged-tags_only (ended m {s} {t} g) h =
    end_only m t ∙ Tagged-tags_only g (and-eq_true _ (tags_only s) h).1

each-tags_only :
    (order : List Mark) (s : Str) → tags_only s ≡ true → tags_only (replace_each order s) ≡ true
unfolding replace_each replace_all
each-tags_only [] s h = h
each-tags_only (m ∷ ms) s h =
    each-tags_only ms _ (Tagged-tags_only (replace-Tagged m (length s) true s) h)

other_byte : (a : ℕ) (s : Str) → (a == b'<') ≡ false → tags_only s ≡ true → tags_only (a ∷ s) ≡ true
other_byte a s e h = rw (e, h) refl

escape_byte-tags_only :
    (a : ℕ) (s : Str) → tags_only s ≡ true → tags_only (escape_byte a ++ s) ≡ true
escape_byte-tags_only a s h = if_both P (a == b'&') _ _ h (
    if_both P (a == 39) _ _ h (
      if_split P (a == b'<') _ _ (λ e. h)
        (λ e. if_both P (a == b'>') _ _ h (if_both P (a == 34) _ _ h (other_byte a s e h)))))
  where
    P : Str → Type 0
    P e = tags_only (e ++ s) ≡ true

escape-tags_only : (s : Str) → tags_only (escape_string s) ≡ true
unfolding escape_string
escape-tags_only [] = refl
escape-tags_only (a ∷ s) = escape_byte-tags_only a (escape_string s) (escape-tags_only s)

-- The line with its tags, before links are replaced.
pub formatted-tags_only :
    (order : List Mark) (line : Str) → tags_only (replace_each order (escape_string line)) ≡ true
formatted-tags_only order line = each-tags_only order (escape_string line) (escape-tags_only line)
