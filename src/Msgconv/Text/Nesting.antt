-- ===== src/Msgconv/Text/Nesting.antt =====
-- pkg/msgconv/wa-text.go: the nesting of the tags in the HTML of a text.
use whatsapp.Common.{
  ℕ, ◌≡◌, refl, Bool, true, false, ◌&&◌, not, Option, none, some, List, [], ◌∷◌, ◌++◌, ◌∙◌,
  if◌then◌else◌,
}
use whatsapp.Common.Text.{Str}
use whatsapp.Msgconv.Text.{
  Tag, ul, ol, li, blockquote, Piece, open_tag, close_tag, br, formatted, Line, bullet, item, quote,
  plain, ListState, start_state, close_lists, line_step, line_break, line_of, lines_to_html,
  parse_wa_sub_formatting_to_html, item_pieces, in_ordered_list,
}

abbrev pub tag_eq : Tag → Tag → Bool
tag_eq ul ul = true
tag_eq ol ol = true
tag_eq li li = true
tag_eq blockquote blockquote = true
tag_eq _ _ = false

-- Whether the innermost tag is a list.
abbrev pub in_list : List Tag → Bool
in_list (ul ∷ tags) = true
in_list (ol ∷ tags) = true
in_list _ = false

-- A list holds items only, and items stand only in lists.
abbrev pub fits : Tag → List Tag → Bool
fits li tags = in_list tags
fits _ tags = not (in_list tags)

-- The tags that are open after some pieces, the last one first; `none` if a tag is closed that is
-- not the last one opened, if an item stands outside a list, or anything else directly in one.
unfoldable pub open_after : List Piece → List Tag → Option (List Tag)
open_after [] tags = some tags
open_after (open_tag t a ∷ ps) tags =
    let rest = open_after ps (t ∷ tags) in if fits t tags then rest else none
open_after (close_tag t ∷ ps) [] = none
open_after (close_tag t ∷ ps) (u ∷ tags) =
    let rest = open_after ps tags in if tag_eq t u then rest else none
open_after (br ∷ ps) tags = let rest = open_after ps tags in if in_list tags then none else rest
open_after (formatted s ∷ ps) tags =
    let rest = open_after ps tags in if in_list tags then none else rest

-- The list that is open in a state.
abbrev list_of : ListState → List Tag
list_of s =
    if in_ordered_list s.ordered_list_idx
    then ol ∷ []
    else if s.in_bulleted_list
    then ul ∷ []
    else []

-- At most one list is open.
abbrev OneList : ListState → Type 0
OneList s = (in_ordered_list s.ordered_list_idx && s.in_bulleted_list) ≡ false

line_step-OneList : (s : ListState) (l : Line) → OneList (line_step s l).0
unfolding line_step
line_step-OneList s (bullet rest) = refl
line_step-OneList s (item digits rest) = refl
line_step-OneList s (quote rest) = refl
line_step-OneList s (plain rest) = refl

abbrev state_of : Option ℕ → Bool → Bool → ListState
state_of i b q = record { ordered_list_idx = i; in_bulleted_list = b; was_block_quote = q }

br_lem :
    (is_first : Bool) (i : Option ℕ) (b q : Bool) (ps : List Piece)
    → open_after (line_break is_first (state_of i b q) ++ ps) (list_of (state_of i b q))
      ≡ open_after ps (list_of (state_of i b q))
unfolding open_after
br_lem true i b q ps = refl
br_lem false (some n) b q ps = refl
br_lem false none true q ps = refl
br_lem false none false true ps = refl
br_lem false none false false ps = refl

step_lem :
    (i : Option ℕ) (b q : Bool) (l : Line) (ps : List Piece)
    → OneList (state_of i b q)
    → open_after ((line_step (state_of i b q) l).1 ++ ps) (list_of (state_of i b q))
      ≡ open_after ps (list_of (line_step (state_of i b q) l).0)
unfolding open_after line_step close_lists item_pieces
step_lem (some n) true q l ps h = absurd (cc h)
step_lem (some n) false q (bullet rest) ps h = refl
step_lem (some n) false q (item digits rest) ps h = refl
step_lem (some n) false q (quote rest) ps h = refl
step_lem (some n) false q (plain rest) ps h = refl
step_lem none true q (bullet rest) ps h = refl
step_lem none true q (item digits rest) ps h = refl
step_lem none true q (quote rest) ps h = refl
step_lem none true q (plain rest) ps h = refl
step_lem none false q (bullet rest) ps h = refl
step_lem none false q (item digits rest) ps h = refl
step_lem none false q (quote rest) ps h = refl
step_lem none false q (plain rest) ps h = refl

close_lem :
    (i : Option ℕ) (b q : Bool)
    → OneList (state_of i b q)
    → open_after (close_lists (state_of i b q)) (list_of (state_of i b q)) ≡ some []
unfolding open_after close_lists
close_lem (some n) true q h = absurd (cc h)
close_lem (some n) false q h = refl
close_lem none true q h = refl
close_lem none false q h = refl

open_after-lines_to_html :
    (is_first : Bool) (s : ListState) (lines : List Str)
    → OneList s
    → open_after (lines_to_html is_first s lines) (list_of s) ≡ some []
unfolding lines_to_html
open_after-lines_to_html is_first s [] h =
    close_lem s.ordered_list_idx s.in_bulleted_list s.was_block_quote h
open_after-lines_to_html is_first s (line ∷ lines) h =
    br_lem is_first s.ordered_list_idx s.in_bulleted_list s.was_block_quote _
    ∙ (step_lem s.ordered_list_idx s.in_bulleted_list s.was_block_quote (line_of line) _ h
        ∙ open_after-lines_to_html false (line_step s (line_of line)).0 lines
            (line_step-OneList s (line_of line)))

-- The lists, items and quotes that the HTML of any text opens are closed in the opposite order; items
-- stand only in lists, and lists hold nothing but items, no line breaks either. The formatting inside
-- a line, whose tags may overlap, is one piece here.
pub html_pieces_nested :
    (lines : List Str) → open_after (parse_wa_sub_formatting_to_html lines) [] ≡ some []
unfolding parse_wa_sub_formatting_to_html
html_pieces_nested lines = open_after-lines_to_html true start_state lines refl
