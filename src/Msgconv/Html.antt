-- ===== src/Msgconv/Html.antt =====
-- pkg/msgconv/wa-text.go: what `parseWASubFormattingToHTML` writes for the pieces of Msgconv/Text, as
-- bytes.
pub mod Blocks
pub mod Nested
mod Tests
use whatsapp.Common.{Bool}
use whatsapp.Common.{Option, none, some, List, [], ◌∷◌, ◌++◌}
use whatsapp.Common.Text.{Str, codes}
use whatsapp.Msgconv.Text.{
  Tag, ul, ol, li, blockquote, Piece, open_tag, close_tag, br, formatted,
  parse_wa_sub_formatting_to_html,
}
use whatsapp.Msgconv.Line.{Mark, parse_wa_sub_formatting_line_to_html}

-- The start of a tag with an attribute, which only ordered lists and items have.
abbrev pub tag_with : Tag → Str
tag_with ul = codes "<ul value=\""
tag_with ol = codes "<ol start=\""
tag_with li = codes "<li value=\""
tag_with blockquote = codes "<blockquote value=\""

abbrev pub tag_alone : Tag → Str
tag_alone ul = codes "<ul>"
tag_alone ol = codes "<ol>"
tag_alone li = codes "<li>"
tag_alone blockquote = codes "<blockquote>"

abbrev pub tag_end : Tag → Str
tag_end ul = codes "</ul>"
tag_end ol = codes "</ol>"
tag_end li = codes "</li>"
tag_end blockquote = codes "</blockquote>"

-- Whether links are allowed stands first. The marks are given in the order in which the formatting of a line walks its map.
unfoldable pub write_piece : Bool → List Mark → Piece → Str
write_piece links order (open_tag t none) = tag_alone t
write_piece links order (open_tag t (some value)) = tag_with t ++ (value ++ codes "\">")
write_piece links order (close_tag t) = tag_end t
write_piece links order br = codes "<br>"
write_piece links order (formatted line) = parse_wa_sub_formatting_line_to_html links order line

unfoldable pub write_pieces : Bool → List Mark → List Piece → Str
unfolding write_piece
write_pieces links order [] = []
write_pieces links order (p ∷ ps) = write_piece links order p ++ write_pieces links order ps

-- The output of `parseWASubFormattingToHTML`.
unfoldable pub sub_html : Bool → List Mark → List Str → Str
unfolding write_pieces
sub_html links order lines = write_pieces links order (parse_wa_sub_formatting_to_html lines)
