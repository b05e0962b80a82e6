-- ===== src/Msgconv/Text.antt =====
-- `parseWASubFormattingToHTML` of pkg/msgconv/wa-text.go: lists and quotes of a WhatsApp text.
pub mod Nesting
mod Runs
use whatsapp.Common.{
  ℕ, suc, ◌+◌, ◌-◌, ◌*◌, Bool, true, false, ◌&&◌, ◌||◌, not, Option, none, some, List, [], ◌∷◌,
  ◌++◌, if◌then◌else◌, ◌==◌, drop,
}
use whatsapp.Common.Text.{Str, codes, has_prefix}
use whatsapp.Waid.Decimal.{is_digit}

pub data Tag : Type 0 where
  ul ol li blockquote : Tag

-- What is written to the output: tags, the start tags with the value of their one attribute, where
-- they have it, `<br>`, and the text of a line.
pub data Piece : Type 0 where
  open_tag : Tag → Option Str → Piece
  close_tag : Tag → Piece
  br : Piece
  formatted : Str → Piece

-- A line by its start: a bullet, the digits of an ordered item, a quote, or any other; with the rest.
pub data Line : Type 0 where
  bullet : Str → Line
  item : Str → Str → Line
  quote : Str → Line
  plain : Str → Line

-- `orderedListItemRegex`: one or two digits, a full stop and a space. The digits and the rest.
abbrev pub ordered_item : Str → Option (Str × Str)
ordered_item (a ∷ b ∷ c ∷ d ∷ rest) =
    if is_digit a && (b == b'.' && c == b' ')
    then some (a ∷ [], d ∷ rest)
    else if is_digit a && (is_digit b && (c == b'.' && d == b' '))
    then some (a ∷ b ∷ [], rest)
    else none
ordered_item (a ∷ b ∷ c ∷ []) =
    if is_digit a && (b == b'.' && c == b' ') then some (a ∷ [], []) else none
ordered_item _ = none

abbrev pub or_item : Str → Option (Str × Str) → Line
or_item line (some (digits, rest)) = item digits rest
or_item line none = if has_prefix (codes "> ") line then quote (drop 2 line) else plain line

-- The conditions of the loop's branches, in their order.
unfoldable pub line_of : Str → Line
line_of line =
    if has_prefix (codes "* ") line || has_prefix (codes "- ") line
    then bullet (drop 2 line)
    else or_item line (ordered_item line)

-- `strconv.Atoi` of one or two digits.
abbrev pub index_of : Str → ℕ
index_of (a ∷ b ∷ _) = (a - b'0') * 10 + (b - b'0')
index_of (a ∷ []) = a - b'0'
index_of [] = 0

-- The variables of the loop. An index below 0 is `none`.
pub record ListState : Type 0 where
  pub ordered_list_idx : Option ℕ
  pub in_bulleted_list : Bool
  pub was_block_quote : Bool

abbrev pub start_state : ListState
start_state = record { ordered_list_idx = none; in_bulleted_list = false; was_block_quote = false }

abbrev pub in_ordered_list : Option ℕ → Bool
in_ordered_list none = false
in_ordered_list (some n) = true

-- The end of the list that is open, where one is.
unfoldable pub close_lists : ListState → List Piece
close_lists s =
    if in_ordered_list s.ordered_list_idx
    then close_tag ol ∷ []
    else if s.in_bulleted_list
    then close_tag ul ∷ []
    else []

-- The start of an ordered list, and the item; `value` stands where the index is not the next one.
unfoldable pub item_pieces : Option ℕ → Str → Str → List Piece
item_pieces none digits rest =
    open_tag ol (if index_of digits == 1 then none else some digits)
    ∷ open_tag li none
    ∷ formatted rest
    ∷ close_tag li
    ∷ []
item_pieces (some idx) digits rest =
    open_tag li (if idx + 1 == index_of digits then none else some digits)
    ∷ formatted rest
    ∷ close_tag li
    ∷ []

-- The body of the loop after the line break: the new variables and what is written.
unfoldable pub line_step : ListState → Line → ListState × List Piece
unfolding close_lists item_pieces
line_step s (bullet rest) = (
  record { ordered_list_idx = none; in_bulleted_list = true; was_block_quote = false },
  (if in_ordered_list s.ordered_list_idx then close_tag ol ∷ [] else [])
      ++ ((if s.in_bulleted_list then [] else open_tag ul none ∷ [])
          ++ (open_tag li none ∷ formatted rest ∷ close_tag li ∷ [])),
)
line_step s (item digits rest) = (
  record {
    ordered_list_idx = some (index_of digits);
    in_bulleted_list = false;
    was_block_quote = false;
  },
  (if s.in_bulleted_list then close_tag ul ∷ [] else [])
      ++ item_pieces s.ordered_list_idx digits rest,
)
line_step s (quote rest) = (
  record { ordered_list_idx = none; in_bulleted_list = false; was_block_quote = true },
  close_lists s ++ (open_tag blockquote none ∷ formatted rest ∷ close_tag blockquote ∷ []),
)
line_step s (plain rest) = (
  record { ordered_list_idx = none; in_bulleted_list = false; was_block_quote = false },
  close_lists s ++ (formatted rest ∷ []),
)

-- `<br>` before every line but the first, outside lists and not after a quote.
abbrev pub line_break : Bool → ListState → List Piece
line_break is_first s =
    if not is_first
      && (not (in_ordered_list s.ordered_list_idx)
          && (not s.in_bulleted_list && not s.was_block_quote))
    then br ∷ []
    else []

-- The loop, then the end of the list that is left open.
unfoldable pub lines_to_html : Bool → ListState → List Str → List Piece
lines_to_html is_first s [] = close_lists s
lines_to_html is_first s (line ∷ lines) =
    let (next_state, pieces) = line_step s (line_of line) in
    line_break is_first s ++ (pieces ++ lines_to_html false next_state lines)

-- `parseWASubFormattingToHTML`, on the lines of the text.
unfoldable pub parse_wa_sub_formatting_to_html : List Str → List Piece
parse_wa_sub_formatting_to_html lines = lines_to_html true start_state lines
