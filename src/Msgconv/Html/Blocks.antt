-- ===== src/Msgconv/Html/Blocks.antt =====
-- pkg/msgconv/wa-text.go: which block tags stand in the bytes that are written.
use whatsapp.Common.{Bool}
use whatsapp.Common.{
  ℕ, ◌≡◌, refl, ap, ◌∙◌, arith, true, false, Option, none, some, List, [], ◌∷◌, ◌++◌, if◌then◌else◌,
  ◌==◌, ◌⊎◌, length, drop, All, Bool-cases, inl, inr, and-eq_true, ==_iff,
}
use whatsapp.Common.Text.{Str, codes, has_prefix}
use whatsapp.Msgconv.Text.{Tag, ul, ol, li, blockquote, Piece, open_tag, close_tag, br, formatted}
use whatsapp.Msgconv.Line.{Mark, parse_wa_sub_formatting_line_to_html}
use whatsapp.Msgconv.Line.Safety.{tag_texts, starts_one, tags_only}
use whatsapp.Msgconv.Line.Links.{line-tags_only}
use whatsapp.Msgconv.Html.{tag_with, write_piece}

-- The start or the end of a list, an item or a quote.
pub data BlockTag : Type 0 where
  starts ends : Tag → BlockTag

-- The block tag that a text starts with.
abbrev pub block_tag_at : Str → Option BlockTag
block_tag_at s =
    if has_prefix (codes "<ul") s
    then some (starts ul)
    else if has_prefix (codes "<ol") s
    then some (starts ol)
    else if has_prefix (codes "<li") s
    then some (starts li)
    else if has_prefix (codes "<blockquote") s
    then some (starts blockquote)
    else if has_prefix (codes "</ul") s
    then some (ends ul)
    else if has_prefix (codes "</ol") s
    then some (ends ol)
    else if has_prefix (codes "</li") s
    then some (ends li)
    else if has_prefix (codes "</blockquote") s
    then some (ends blockquote)
    else none

abbrev pub with_tag : Option BlockTag → List BlockTag → List BlockTag
with_tag none tags = tags
with_tag (some t) tags = t ∷ tags

-- The block tags of a text, in their order.
abbrev pub block_tags : Str → List BlockTag
block_tags [] = []
block_tags (a ∷ s) = let rest : List BlockTag = block_tags s in with_tag (block_tag_at (a ∷ s)) rest

prefix_parts : (p s : Str) → has_prefix p s ≡ true → s ≡ p ++ drop (length p) s
prefix_parts [] s h = refl
prefix_parts (c ∷ p) [] h = absurd cc
prefix_parts (c ∷ p) (a ∷ s) h =
    let (same, rest) = and-eq_true (c == a) (has_prefix p s) h in
    let e : c ≡ a = (==_iff c a).0 same in cc (e, prefix_parts p s rest)

-- No block tag starts where a tag of a line does.
inline_tag :
    (ps : List Str) (x s : Str)
    → All (λ p. (r t : Str) → block_tag_at ((p ++ r) ++ t) ≡ none) ps
    → starts_one ps x ≡ true
    → block_tag_at (x ++ s) ≡ none
inline_tag [] x s k h = absurd cc
inline_tag (p ∷ ps) x s k h = elim (Bool-cases (has_prefix p x)) [
  | inl e ↦ ap (λ y. block_tag_at (y ++ s)) (prefix_parts p x e) ∙ k.0 (drop (length p) x) s
  | inr e ↦ let later : starts_one ps x ≡ true = rw e at h in inline_tag ps x s k.1 later
]

other_byte : (a : ℕ) (s : Str) → (a == b'<') ≡ false → block_tag_at (a ∷ s) ≡ none
other_byte a s e = let e' : (b'<' == a) ≡ false = ground arith in rw e' refl

-- A text with the tags of a line only brings in no block tag.
pub tags_only-block_tags : (x s : Str) → tags_only x ≡ true → block_tags (x ++ s) ≡ block_tags s
tags_only-block_tags [] s h = refl
tags_only-block_tags (a ∷ x) s h =
    let (here, later) =
      and-eq_true (if a == b'<' then starts_one tag_texts (a ∷ x) else true) (tags_only x) h in
    ap (λ o. with_tag o (block_tags (x ++ s))) (no_tag (Bool-cases (a == b'<')) here)
    ∙ tags_only-block_tags x s later
  where
    no_tag :
        ((a == b'<') ≡ true) ⊎ ((a == b'<') ≡ false)
        → (if a == b'<' then starts_one tag_texts (a ∷ x) else true) ≡ true
        → block_tag_at (a ∷ (x ++ s)) ≡ none
    no_tag (inl e) q =
        let q' : starts_one tag_texts (a ∷ x) ≡ true = rw e at q in
        inline_tag tag_texts (a ∷ x) s
          (
            λ r t. refl,
            (
              λ r t. refl,
              (
                λ r t. refl,
                (
                  λ r t. refl,
                  (
                    λ r t. refl,
                    (λ r t. refl, (λ r t. refl, (λ r t. refl, (λ r t. refl, (λ r t. refl, tt))))),
                  ),
                ),
              ),
            ),
          )
          q'
    no_tag (inr e) q = other_byte a (x ++ s) e

abbrev pub piece_tags : Piece → List BlockTag
piece_tags (open_tag t a) = starts t ∷ []
piece_tags (close_tag t) = ends t ∷ []
piece_tags br = []
piece_tags (formatted s) = []

-- The value of an attribute brings in no tag.
abbrev pub CleanValue : Piece → Type 0
CleanValue (open_tag t (some v)) = tags_only v ≡ true
CleanValue _ = Unit

append_assoc : (x y z : Str) → (x ++ y) ++ z ≡ x ++ (y ++ z)
append_assoc [] y z = refl
append_assoc (a ∷ x) y z = ap (λ t. a ∷ t) (append_assoc x y z)

with-block_tags : (t : Tag) (s : Str) → block_tags (tag_with t ++ s) ≡ starts t ∷ block_tags s
with-block_tags ul s = refl
with-block_tags ol s = refl
with-block_tags li s = refl
with-block_tags blockquote s = refl

pub write_piece-block_tags :
    (links : Bool) (order : List Mark) (p : Piece) (s : Str)
    → CleanValue p
    → block_tags (write_piece links order p ++ s) ≡ piece_tags p ++ block_tags s
unfolding write_piece
write_piece-block_tags links order (open_tag ul none) s c = refl
write_piece-block_tags links order (open_tag ol none) s c = refl
write_piece-block_tags links order (open_tag li none) s c = refl
write_piece-block_tags links order (open_tag blockquote none) s c = refl
write_piece-block_tags links order (open_tag t (some v)) s c =
    ap block_tags (append_assoc (tag_with t) (v ++ codes "\">") s)
    ∙ with-block_tags t ((v ++ codes "\">") ++ s)
    ∙ ap (λ x. starts t ∷ block_tags x) (append_assoc v (codes "\">") s)
    ∙ ap (λ x. starts t ∷ x) (tags_only-block_tags v (codes "\">" ++ s) c)
write_piece-block_tags links order (close_tag ul) s c = refl
write_piece-block_tags links order (close_tag ol) s c = refl
write_piece-block_tags links order (close_tag li) s c = refl
write_piece-block_tags links order (close_tag blockquote) s c = refl
write_piece-block_tags links order br s c = refl
write_piece-block_tags links order (formatted line) s c =
    tags_only-block_tags (parse_wa_sub_formatting_line_to_html links order line) s
      (line-tags_only links order line)
