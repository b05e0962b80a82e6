-- ===== src/Msgconv/Html/Nested.antt =====
-- pkg/msgconv/wa-text.go: the nesting of the block tags in the bytes of the HTML.
use whatsapp.Common.{
  ℕ, ◌≡◌, refl, ap, ◌∙◌, arith, Bool, true, false, ◌&&◌, ◌||◌, Option, none, some, List, [], ◌∷◌,
  ◌++◌, ◌+◌, if◌then◌else◌, ◌==◌, All, All-append, if_both, if_split, and-eq_true,
}
use whatsapp.Common.Text.{Str, codes, has_prefix}
use whatsapp.Waid.Decimal.{is_digit}
use whatsapp.Msgconv.Text.{
  Tag, ul, ol, li, Piece, open_tag, close_tag, br, formatted, Line, bullet, item, quote, plain,
  ordered_item, or_item, line_of, index_of, ListState, start_state, close_lists, item_pieces,
  line_step, line_break, lines_to_html, parse_wa_sub_formatting_to_html, in_ordered_list,
}
use whatsapp.Msgconv.Text.Nesting.{tag_eq, in_list, fits, open_after, html_pieces_nested}
use whatsapp.Msgconv.Line.{Mark}
use whatsapp.Msgconv.Line.Safety.{tags_only}
use whatsapp.Msgconv.Html.{write_pieces, sub_html}
use whatsapp.Msgconv.Html.Blocks.{
  BlockTag, starts, ends, block_tags, piece_tags, CleanValue, write_piece-block_tags,
}

-- The tags that are open after some block tags, the last one first; `none` if a tag is closed that is
-- not the last one opened, if an item stands outside a list, or anything else directly in one.
unfoldable pub open_tags : List BlockTag → List Tag → Option (List Tag)
open_tags [] tags = some tags
open_tags (starts t ∷ bs) tags =
    let rest = open_tags bs (t ∷ tags) in if fits t tags then rest else none
open_tags (ends t ∷ bs) [] = none
open_tags (ends t ∷ bs) (u ∷ tags) =
    let rest = open_tags bs tags in if tag_eq t u then rest else none

abbrev all_tags : List Piece → List BlockTag
all_tags [] = []
all_tags (p ∷ ps) = piece_tags p ++ all_tags ps

in_branch :
    (b : Bool) (x y : Option (List Tag)) (r : List Tag)
    → (x ≡ some r → y ≡ some r)
    → (if b then x else none) ≡ some r
    → (if b then y else none) ≡ some r
in_branch true x y r f h = f h
in_branch false x y r f h = absurd cc

no_branch :
    (b : Bool) (x : Option (List Tag)) (r : List Tag)
    → (if b then none else x) ≡ some r
    → x ≡ some r
no_branch true x r h = absurd cc
no_branch false x r h = h

tags_open :
    (ps : List Piece) (tags r : List Tag)
    → open_after ps tags ≡ some r
    → open_tags (all_tags ps) tags ≡ some r
unfolding open_after open_tags
tags_open [] tags r h = h
tags_open (open_tag t a ∷ ps) tags r h =
    in_branch (fits t tags) (open_after ps (t ∷ tags)) _ r (tags_open ps (t ∷ tags) r) h
tags_open (close_tag t ∷ ps) [] r h = absurd cc
tags_open (close_tag t ∷ ps) (u ∷ tags) r h =
    in_branch (tag_eq t u) (open_after ps tags) _ r (tags_open ps tags r) h
tags_open (br ∷ ps) tags r h =
    tags_open ps tags r (no_branch (in_list tags) (open_after ps tags) r h)
tags_open (formatted s ∷ ps) tags r h =
    tags_open ps tags r (no_branch (in_list tags) (open_after ps tags) r h)

write-block_tags :
    (links : Bool) (order : List Mark) (ps : List Piece)
    → All CleanValue ps
    → block_tags (write_pieces links order ps) ≡ all_tags ps
unfolding write_pieces
write-block_tags links order [] c = refl
write-block_tags links order (p ∷ ps) c =
    write_piece-block_tags links order p (write_pieces links order ps) c.0
    ∙ ap (λ bs. piece_tags p ++ bs) (write-block_tags links order ps c.1)

-- The digits of an item have no tag in them.
CleanLine : Line → Type 0
CleanLine (item digits rest) = tags_only digits ≡ true
CleanLine _ = Unit

CleanItem : Option (Str × Str) → Type 0
CleanItem none = Unit
CleanItem (some (digits, rest)) = tags_only digits ≡ true

digit_byte : (a : ℕ) → is_digit a ≡ true → (a == b'<') ≡ false
digit_byte a h = ground arith

one_digit : (a : ℕ) → is_digit a ≡ true → tags_only (a ∷ []) ≡ true
one_digit a h = rw (digit_byte a h) refl

two_digits : (a b : ℕ) → is_digit a ≡ true → is_digit b ≡ true → tags_only (a ∷ b ∷ []) ≡ true
two_digits a b h k = rw (digit_byte a h, digit_byte b k) refl

ordered-CleanItem : (line : Str) → CleanItem (ordered_item line)
unfolding CleanItem
ordered-CleanItem [] = tt
ordered-CleanItem (a ∷ []) = tt
ordered-CleanItem (a ∷ b ∷ []) = tt
ordered-CleanItem (a ∷ b ∷ c ∷ []) =
    if_split CleanItem (is_digit a && (b == b'.' && c == b' ')) _ _
      (λ e. one_digit a (and-eq_true (is_digit a) _ e).0) (λ e. tt)
ordered-CleanItem (a ∷ b ∷ c ∷ d ∷ rest) =
    if_split CleanItem (is_digit a && (b == b'.' && c == b' ')) _ _
      (λ e. one_digit a (and-eq_true (is_digit a) _ e).0)
      (λ f.
        if_split CleanItem (is_digit a && (is_digit b && (c == b'.' && d == b' '))) _ _
          (λ e.
            let (da, more) = and-eq_true (is_digit a) _ e in
            two_digits a b da (and-eq_true (is_digit b) _ more).0)
          (λ e. tt))

or_item-CleanLine : (line : Str) (o : Option (Str × Str)) → CleanItem o → CleanLine (or_item line o)
unfolding CleanLine CleanItem
or_item-CleanLine line (some (digits, rest)) h = h
or_item-CleanLine line none h = if_both CleanLine (has_prefix (codes "> ") line) _ _ tt tt

line_of-CleanLine : (line : Str) → CleanLine (line_of line)
unfolding line_of CleanLine
line_of-CleanLine line =
    if_both CleanLine (has_prefix (codes "* ") line || has_prefix (codes "- ") line) _ _ tt
      (or_item-CleanLine line (ordered_item line) (ordered-CleanItem line))

close-CleanValue : (s : ListState) → All CleanValue (close_lists s)
unfolding close_lists
close-CleanValue s =
    if_both (All CleanValue) (in_ordered_list s.ordered_list_idx) _ _ (tt, tt)
      (if_both (All CleanValue) s.in_bulleted_list _ _ (tt, tt) tt)

attribute :
    (b : Bool) (t : Tag) (v : Str)
    → tags_only v ≡ true
    → CleanValue (open_tag t (if b then none else some v))
attribute true t v h = tt
attribute false t v h = h

item-CleanValue :
    (i : Option ℕ) (digits rest : Str)
    → tags_only digits ≡ true
    → All CleanValue (item_pieces i digits rest)
unfolding item_pieces
item-CleanValue none digits rest h =
    (attribute (index_of digits == 1) ol digits h, (tt, (tt, (tt, tt))))
item-CleanValue (some idx) digits rest h =
    (attribute (idx + 1 == index_of digits) li digits h, (tt, (tt, tt)))

step-CleanValue : (s : ListState) (l : Line) → CleanLine l → All CleanValue (line_step s l).1
unfolding line_step CleanLine
step-CleanValue s (bullet rest) h =
    All-append CleanValue (if in_ordered_list s.ordered_list_idx then close_tag ol ∷ [] else []) _
      (if_both (All CleanValue) (in_ordered_list s.ordered_list_idx) _ _ (tt, tt) tt)
      (All-append CleanValue (if s.in_bulleted_list then [] else open_tag ul none ∷ []) _
        (if_both (All CleanValue) s.in_bulleted_list _ _ tt (tt, tt)) (tt, (tt, (tt, tt))))
step-CleanValue s (item digits rest) h =
    All-append CleanValue (if s.in_bulleted_list then close_tag ul ∷ [] else []) _
      (if_both (All CleanValue) s.in_bulleted_list _ _ (tt, tt) tt)
      (item-CleanValue s.ordered_list_idx digits rest h)
step-CleanValue s (quote rest) h =
    All-append CleanValue (close_lists s) _ (close-CleanValue s) (tt, (tt, (tt, tt)))
step-CleanValue s (plain rest) h =
    All-append CleanValue (close_lists s) _ (close-CleanValue s) (tt, tt)

lines-CleanValue :
    (is_first : Bool) (s : ListState) (lines : List Str)
    → All CleanValue (lines_to_html is_first s lines)
unfolding lines_to_html
lines-CleanValue is_first s [] = close-CleanValue s
lines-CleanValue is_first s (line ∷ lines) =
    All-append CleanValue (line_break is_first s) _
      (if_both (All CleanValue) _ (br ∷ []) [] (tt, tt) tt)
      (All-append CleanValue (line_step s (line_of line)).1 _
        (step-CleanValue s (line_of line) (line_of-CleanLine line))
        (lines-CleanValue false (line_step s (line_of line)).0 lines))

-- In the bytes that `parseWASubFormattingToHTML` writes for any lines, in whatever order the
-- formatting of a line is replaced, with links or without, the lists, items and quotes that are opened
-- are closed in the opposite order; items stand only in lists, and a list holds neither a list nor a
-- quote directly. Nothing is said of the tags inside a line, which may overlap.
pub html_nested :
    (links : Bool) (order : List Mark) (lines : List Str)
    → open_tags (block_tags (sub_html links order lines)) [] ≡ some []
unfolding sub_html parse_wa_sub_formatting_to_html
html_nested links order lines =
    ap (λ bs. open_tags bs [])
      (write-block_tags links order _ (lines-CleanValue true start_state lines))
    ∙ tags_open (lines_to_html true start_state lines) [] [] (html_pieces_nested lines)
