-- ===== src/Msgconv/Line/Tagged.antt =====
-- pkg/msgconv/wa-text.go: the replacement of a regular expression puts tags in the place of markers.
use whatsapp.Common.{
  ℕ, zero, suc, ◌≡◌, refl, ap, Bool, false, Option, none, some, [], ◌∷◌, ◌++◌, ◌==◌, ==_iff,
  if_split,
}
use whatsapp.Common.Text.{Str}
use whatsapp.Msgconv.Line.{with_first, round}
use whatsapp.Msgconv.Line.{
  Mark, marker, start_tag, end_tag, third_group, RegexGroups, with_byte, or_on, second_group,
  after_marker, at_marker, find_match, replaced, replace_from, may_precede, is_alphanumeric,
}

-- The second text is the first one with tags in the place of some markers.
pub data Tagged : Str → Str → Type 0 where
  done : Tagged [] []
  kept : (a : ℕ) {s t : Str} → Tagged s t → Tagged (a ∷ s) (a ∷ t)
  started : (m : Mark) {s t : Str} → Tagged s t → Tagged (marker m ∷ s) (start_tag m ++ t)
  ended : (m : Mark) {s t : Str} → Tagged s t → Tagged (marker m ∷ s) (end_tag m ++ t)

kept_all : (p : Str) {s t : Str} → Tagged s t → Tagged (p ++ s) (p ++ t)
kept_all [] h = h
kept_all (a ∷ p) h = kept a (kept_all p h)

self_tagged : (s : Str) → Tagged s s
self_tagged [] = done
self_tagged (a ∷ s) = kept a (self_tagged s)

-- What the groups of a match are the parts of.
WrittenAs : Mark → Str → Option RegexGroups → Type 0
WrittenAs m s none = Unit
WrittenAs m s (some (body, last, rest)) = s ≡ body ++ (marker m ∷ (last ++ rest))

Last : Str → Option (Str × Str) → Type 0
Last s none = Unit
Last s (some (last, rest)) = s ≡ last ++ rest

third-Last : (s : Str) → Last s (third_group s)
unfolding third_group Last
third-Last [] = refl
third-Last (a ∷ s) = if_split (Last (a ∷ s)) (is_alphanumeric a) _ _ (λ e. tt) (λ e. refl)

with_byte-WrittenAs :
    (m : Mark) (a : ℕ) (s : Str) (o : Option RegexGroups)
    → WrittenAs m s o
    → WrittenAs m (a ∷ s) (with_byte a o)
unfolding WrittenAs
with_byte-WrittenAs m a s none h = tt
with_byte-WrittenAs m a s (some (body, last, rest)) h = ap (λ x. a ∷ x) h

or_on-WrittenAs :
    (m : Mark) (a : ℕ) (s : Str) (o : Option (Str × Str)) (later : Option RegexGroups)
    → a ≡ marker m
    → Last s o
    → WrittenAs m s later
    → WrittenAs m (a ∷ s) (or_on a o later)
unfolding WrittenAs Last
or_on-WrittenAs m a s (some (last, rest)) later e l w = cc (e, l)
or_on-WrittenAs m a s none later e l w = with_byte-WrittenAs m a s later w

second-WrittenAs : (m : Mark) (s : Str) → WrittenAs m s (second_group m s)
unfolding second_group WrittenAs
second-WrittenAs m [] = tt
second-WrittenAs m (a ∷ s) =
    if_split (WrittenAs m (a ∷ s)) (a == marker m) _ _
      (λ e.
        or_on-WrittenAs m a s (third_group s) (second_group m s) ((==_iff a (marker m)).0 e)
          (third-Last s) (second-WrittenAs m s))
      (λ e.
        if_split (WrittenAs m (a ∷ s)) (a == 10) _ _ (λ n. tt)
          (λ n. with_byte-WrittenAs m a s (second_group m s) (second-WrittenAs m s)))

after-WrittenAs : (m : Mark) (s : Str) → WrittenAs m s (after_marker m s)
unfolding after_marker WrittenAs
after-WrittenAs m [] = tt
after-WrittenAs m (a ∷ s) =
    if_split (WrittenAs m (a ∷ s)) (a == 10) _ _ (λ n. tt)
      (λ n. with_byte-WrittenAs m a s (second_group m s) (second-WrittenAs m s))

-- The groups with the first group's character and the marker before them.
unfoldable pub MatchOf : Mark → Str → Option (Str × RegexGroups) → Type 0
MatchOf m s none = Unit
MatchOf m s (some (first, (body, last, rest))) =
    s ≡ first ++ (marker m ∷ (body ++ (marker m ∷ (last ++ rest))))

marked-MatchOf :
    (m : Mark) (a : ℕ) (s : Str) (o : Option RegexGroups)
    → a ≡ marker m
    → WrittenAs m s o
    → MatchOf m (a ∷ s) (with_first [] o)
unfolding MatchOf WrittenAs
marked-MatchOf m a s none e h = tt
marked-MatchOf m a s (some (body, last, rest)) e h = cc (e, h)

at-MatchOf : (m : Mark) (s : Str) → MatchOf m s (with_first [] (at_marker m s))
unfolding at_marker MatchOf
at-MatchOf m [] = tt
at-MatchOf m (a ∷ s) =
    if_split (λ o. MatchOf m (a ∷ s) (with_first [] o)) (a == marker m) _ _
      (λ e.
        marked-MatchOf m a s (after_marker m s) ((==_iff a (marker m)).0 e) (after-WrittenAs m s))
      (λ e. tt)

preceded-MatchOf :
    (m : Mark) (a : ℕ) (s : Str) (o : Option RegexGroups)
    → MatchOf m s (with_first [] o)
    → MatchOf m (a ∷ s) (with_first (a ∷ []) o)
unfolding MatchOf
preceded-MatchOf m a s none h = tt
preceded-MatchOf m a s (some (body, last, rest)) h = ap (λ x. a ∷ x) h

pub find-MatchOf : (m : Mark) (at_start : Bool) (s : Str) → MatchOf m s (find_match m at_start s)
unfolding find_match MatchOf
find-MatchOf m at_start [] = tt
find-MatchOf m at_start (a ∷ s) =
    if_split (MatchOf m (a ∷ s)) (may_precede m a) _ _
      (λ e. preceded-MatchOf m a s (at_marker m s) (at-MatchOf m s))
      (λ e. if_split (MatchOf m (a ∷ s)) at_start _ _ (λ f. at-MatchOf m (a ∷ s)) (λ f. tt))

replaced-Tagged :
    (m : Mark) (first body last rest more : Str)
    → Tagged rest more
    → Tagged
        (first ++ (marker m ∷ (body ++ (marker m ∷ (last ++ rest)))))
        (replaced m (first, (body, last, rest)) more)
replaced-Tagged m first body last rest more h =
    kept_all first (started m (kept_all body (ended m (kept_all last h))))

round-Tagged :
    (m : Mark) (n : ℕ) (a : ℕ) (s : Str) (o : Option (Str × RegexGroups))
    → MatchOf m (a ∷ s) o
    → ((at_start : Bool) (t : Str) → Tagged t (replace_from m n at_start t))
    → Tagged (a ∷ s) (round m a s (replace_from m n false) o)
unfolding MatchOf round
round-Tagged m n a s none h more = kept a (more false s)
round-Tagged m n a s (some (first, (body, last, rest))) h more =
    rw h (replaced-Tagged m first body last rest (replace_from m n false rest) (more false rest))

pub replace-Tagged :
    (m : Mark) (n : ℕ) (at_start : Bool) (s : Str) → Tagged s (replace_from m n at_start s)
unfolding replace_from
replace-Tagged m zero at_start s = self_tagged s
replace-Tagged m (suc n) at_start [] = done
replace-Tagged m (suc n) at_start (a ∷ s) =
    round-Tagged m n a s (find_match m at_start (a ∷ s)) (find-MatchOf m at_start (a ∷ s))
      (replace-Tagged m n)
