-- ===== src/Msgconv/Line/Links.antt =====
-- pkg/msgconv/wa-text.go: links bring in no other tags either.
use whatsapp.Common.{
  ℕ, zero, suc, ◌≡◌, refl, sym, ap, ◌∙◌, arith, Bool, true, false, not, ◌&&◌, Option, none, some,
  List, [], ◌∷◌, ◌++◌, if◌then◌else◌, ◌==◌, length, All, Bool-cases, inl, inr, and-eq_true,
}
use whatsapp.Common.Text.{Str, codes, has_prefix}
use whatsapp.Msgconv.Link.{
  LinkParts, link_at, link_html, link_round, replace_links_from, replace_links,
}
use whatsapp.Msgconv.Link.Written.{LinkOf, link_at-LinkOf}
use whatsapp.Msgconv.Line.{Mark, parse_wa_sub_formatting_line_to_html, replace_each, escape_string}
use whatsapp.Msgconv.Line.Safety.{tag_texts, starts_one, starts_tag, tags_only, formatted-tags_only}

lacks : ℕ → Str → Bool
lacks c [] = true
lacks c (a ∷ p) = not (a == c) && lacks c p

cut_prefix :
    (p x : Str) (c : ℕ) (r : Str)
    → lacks c p ≡ true
    → has_prefix p (x ++ (c ∷ r)) ≡ true
    → has_prefix p x ≡ true
unfolding lacks
cut_prefix [] x c r l h = refl
cut_prefix (a ∷ p) [] c r l h = absurd (ground arith)
cut_prefix (a ∷ p) (b ∷ x) c r l h =
    let (same, rest) = and-eq_true (a == b) _ h in
    rw (same, cut_prefix p x c r (and-eq_true (not (a == c)) (lacks c p) l).1 rest)

grow_prefix : (p x y : Str) → has_prefix p x ≡ true → has_prefix p (x ++ y) ≡ true
grow_prefix [] x y h = refl
grow_prefix (a ∷ p) [] y h = absurd cc
grow_prefix (a ∷ p) (b ∷ x) y h =
    let (same, rest) = and-eq_true (a == b) _ h in rw (same, grow_prefix p x y rest)

-- What a tag at the start of one text makes of another, tag by tag.
any_tag :
    (ps : List Str) (x y : Str)
    → All (λ p. has_prefix p x ≡ true → has_prefix p y ≡ true) ps
    → starts_one ps x ≡ true
    → starts_one ps y ≡ true
any_tag [] x y k h = h
any_tag (p ∷ ps) x y k h = elim (Bool-cases (has_prefix p x)) [
  | inl e ↦ rw (k.0 e) refl
  | inr e ↦
      let later : starts_one ps x ≡ true = rw e at h in
      or_later (has_prefix p y) (starts_one ps y) (any_tag ps x y k.1 later)
]
  where
    or_later : (a b : Bool) → b ≡ true → (if a then true else b) ≡ true
    or_later true b q = refl
    or_later false b q = q

All-map : (P Q : Str → Type 0) (ps : List Str) → ((p : Str) → P p → Q p) → All P ps → All Q ps
All-map P Q [] f h = tt
All-map P Q (p ∷ ps) f h = (f p h.0, All-map P Q ps f h.1)

guarded :
    (b : Bool) (x y : Bool)
    → (x ≡ true → y ≡ true)
    → (if b then x else true) ≡ true
    → (if b then y else true) ≡ true
guarded true x y f h = f h
guarded false x y f h = refl

-- The text before a character that stands in no tag.
left-tags_only :
    (x : Str) (c : ℕ) (r : Str)
    → All (λ p. lacks c p ≡ true) tag_texts
    → tags_only (x ++ (c ∷ r)) ≡ true
    → tags_only x ≡ true
left-tags_only [] c r l h = refl
left-tags_only (a ∷ x) c r l h =
    let (here, later) =
      and-eq_true (if a == b'<' then starts_tag (a ∷ (x ++ (c ∷ r))) else true) _ h in
    rw (
      guarded (a == b'<') (starts_tag (a ∷ (x ++ (c ∷ r)))) (starts_tag (a ∷ x))
          (any_tag tag_texts (a ∷ (x ++ (c ∷ r))) (a ∷ x)
            (All-map (λ p. lacks c p ≡ true) _ tag_texts (λ p. cut_prefix p (a ∷ x) c r) l))
          here,
      left-tags_only x c r l later,
    )

right-tags_only : (x y : Str) → tags_only (x ++ y) ≡ true → tags_only y ≡ true
right-tags_only [] y h = h
right-tags_only (a ∷ x) y h =
    right-tags_only x y
      (and-eq_true (if a == b'<' then starts_tag (a ∷ (x ++ y)) else true) (tags_only (x ++ y)) h).1

grow_each :
    (x y : Str) (ps : List Str) → All (λ p. has_prefix p x ≡ true → has_prefix p (x ++ y) ≡ true) ps
grow_each x y [] = tt
grow_each x y (p ∷ ps) = (grow_prefix p x y, grow_each x y ps)

append-tags_only : (x y : Str) → tags_only x ≡ true → tags_only y ≡ true → tags_only (x ++ y) ≡ true
append-tags_only [] y h k = k
append-tags_only (a ∷ x) y h k =
    let (here, later) = and-eq_true (if a == b'<' then starts_tag (a ∷ x) else true) _ h in
    rw (
      guarded (a == b'<') (starts_tag (a ∷ x)) (starts_tag (a ∷ (x ++ y)))
          (any_tag tag_texts (a ∷ x) (a ∷ (x ++ y)) (grow_each (a ∷ x) y tag_texts)) here,
      append-tags_only x y later k,
    )

-- No link starts inside a tag.
links-prefix :
    (n : ℕ) (p s : Str)
    → lacks b'[' p ≡ true
    → has_prefix p s ≡ true
    → has_prefix p (replace_links_from n s) ≡ true
unfolding replace_links_from link_at link_round lacks
links-prefix zero p s l h = h
links-prefix (suc n) [] s l h = refl
links-prefix (suc n) (c ∷ p) [] l h = absurd cc
links-prefix (suc n) (c ∷ p) (a ∷ s) l h =
    let (same, rest) = and-eq_true (c == a) (has_prefix p s) h in
    let (other, lack) = and-eq_true (not (c == b'[')) (lacks b'[' p) l in
    let no_link : (a == b'[') ≡ false = ground arith in
    rw (no_link, same, links-prefix n p s lack rest) refl

one_more :
    (n a : ℕ) (s p : Str)
    → lacks b'[' p ≡ true
    → has_prefix p (a ∷ s) ≡ true
    → has_prefix p (a ∷ replace_links_from n s) ≡ true
unfolding lacks
one_more n a s [] l h = refl
one_more n a s (c ∷ p) l h =
    let (same, rest) = and-eq_true (c == a) (has_prefix p s) h in
    rw (same, links-prefix n p s (and-eq_true (not (c == b'[')) (lacks b'[' p) l).1 rest) refl

abbrev Lacking : ℕ → Type 0
Lacking c = All (λ p. lacks c p ≡ true) tag_texts

no_bracket : Lacking b'['
unfolding lacks
no_bracket = (refl, (refl, (refl, (refl, (refl, (refl, (refl, (refl, (refl, (refl, tt))))))))))

no_end_bracket : Lacking b']'
unfolding lacks
no_end_bracket = (refl, (refl, (refl, (refl, (refl, (refl, (refl, (refl, (refl, (refl, tt))))))))))

no_parenthesis : Lacking b')'
unfolding lacks
no_parenthesis = (refl, (refl, (refl, (refl, (refl, (refl, (refl, (refl, (refl, (refl, tt))))))))))

link-tags_only :
    (label url rest more : Str)
    → tags_only (b'[' ∷ (label ++ (b']' ∷ (b'(' ∷ (url ++ (b')' ∷ rest)))))) ≡ true
    → (tags_only rest ≡ true → tags_only more ≡ true)
    → tags_only (link_html (label, url, rest) more) ≡ true
unfolding link_html
link-tags_only label url rest more inside k =
    let address : tags_only (url ++ (b')' ∷ rest)) ≡ true =
      right-tags_only label (b']' ∷ (b'(' ∷ (url ++ (b')' ∷ rest)))) inside in
    append-tags_only url (codes "\">" ++ (label ++ (codes "</a>" ++ more)))
      (left-tags_only url b')' rest no_parenthesis address)
      (append-tags_only label (codes "</a>" ++ more)
        (left-tags_only label b']' (b'(' ∷ (url ++ (b')' ∷ rest))) no_end_bracket inside)
        (k (right-tags_only url (b')' ∷ rest) address)))

round-tags_only :
    (n a : ℕ) (s : Str) (o : Option LinkParts)
    → LinkOf (a ∷ s) o
    → tags_only (a ∷ s) ≡ true
    → ((t : Str) → tags_only t ≡ true → tags_only (replace_links_from n t) ≡ true)
    → tags_only (link_round a s (replace_links_from n) o) ≡ true
unfolding link_round LinkOf
round-tags_only n a s none l h k =
    let (here, later) =
      and-eq_true (if a == b'<' then starts_tag (a ∷ s) else true) (tags_only s) h in
    rw (
      guarded (a == b'<') (starts_tag (a ∷ s)) (starts_tag (a ∷ replace_links_from n s))
          (any_tag tag_texts (a ∷ s) (a ∷ replace_links_from n s)
            (All-map (λ p. lacks b'[' p ≡ true) _ tag_texts (one_more n a s) no_bracket))
          here,
      k s later,
    )
round-tags_only n a s (some (label, url, rest)) l h k =
    link-tags_only label url rest (replace_links_from n rest) (sym (ap tags_only l) ∙ h) (k rest)

links-tags_only : (n : ℕ) (s : Str) → tags_only s ≡ true → tags_only (replace_links_from n s) ≡ true
unfolding replace_links_from
links-tags_only zero s h = h
links-tags_only (suc n) [] h = refl
links-tags_only (suc n) (a ∷ s) h =
    round-tags_only n a s (link_at (a ∷ s)) (link_at-LinkOf (a ∷ s)) h (links-tags_only n)

-- In the HTML of any line, in whatever order the regular expressions are replaced, with links or
-- without, every `<` starts one of the eight tags of the formatting, a link or the end of one: a line
-- brings in no other tag, whatever it says.
pub line-tags_only :
    (allow_inline_url : Bool) (order : List Mark) (line : Str)
    → tags_only (parse_wa_sub_formatting_line_to_html allow_inline_url order line) ≡ true
unfolding parse_wa_sub_formatting_line_to_html replace_links
line-tags_only true order line =
    let text : Str = replace_each order (escape_string line) in
    links-tags_only (length text) text (formatted-tags_only order line)
line-tags_only false order line = formatted-tags_only order line
