-- ===== src/Msgconv/Line.antt =====
-- `parseWASubFormattingLineToHTML` of pkg/msgconv/wa-text.go: a line is escaped,
-- then each of four regular expressions is replaced, in the order in which Go walks a map.
pub mod Tagged
pub mod Safety
pub mod Links
pub mod Rounds
mod Tests
use whatsapp.Common.{
  ℕ, zero, suc, Bool, true, false, ◌&&◌, ◌||◌, Option, none, some, List, [], ◌∷◌, ◌++◌,
  if◌then◌else◌, ◌==◌, leb, length,
}
use whatsapp.Common.Text.{Str, codes}
use whatsapp.Msgconv.Link.{replace_links}

-- `html.EscapeString`
abbrev pub escape_byte : ℕ → Str
escape_byte a =
    if a == b'&'
    then codes "&amp;"
    else if a == 39
    then codes "&#39;"
    else if a == b'<'
    then codes "&lt;"
    else if a == b'>'
    then codes "&gt;"
    else if a == 34
    then codes "&#34;"
    else a ∷ []

unfoldable pub escape_string : Str → Str
escape_string [] = []
escape_string (a ∷ s) = escape_byte a ++ escape_string s

-- The regular expressions, by what they format.
pub data Mark : Type 0 where
  italic bold strikethrough inline_code : Mark

abbrev pub marker : Mark → ℕ
marker italic = b'_'
marker bold = b'*'
marker strikethrough = b'~'
marker inline_code = b'`'

abbrev pub start_tag : Mark → Str
start_tag italic = codes "<em>"
start_tag bold = codes "<strong>"
start_tag strikethrough = codes "<del>"
start_tag inline_code = codes "<code>"

abbrev pub end_tag : Mark → Str
end_tag italic = codes "</em>"
end_tag bold = codes "</strong>"
end_tag strikethrough = codes "</del>"
end_tag inline_code = codes "</code>"

-- `\s` and `>`, which stand in the first group of all four.
abbrev is_break : ℕ → Bool
is_break a = (a == 9 || (a == 10 || (a == 12 || (a == 13 || a == b' ')))) || a == b'>'

-- The class of the first group.
unfoldable pub may_precede : Mark → ℕ → Bool
may_precede italic a = is_break a || (a == b'~' || a == b'*')
may_precede bold a = is_break a || (a == b'_' || a == b'~')
may_precede strikethrough a = is_break a || (a == b'_' || a == b'*')
may_precede inline_code a = is_break a || (a == b'_' || (a == b'*' || a == b'~'))

abbrev is_alphanumeric : ℕ → Bool
is_alphanumeric a =
    (leb b'a' a && leb a b'z') || ((leb b'A' a && leb a b'Z') || (leb b'0' a && leb a b'9'))

-- The third group, and the text after it: a character that is no letter or digit, or nothing at the
-- end. Of a character of several bytes the first is enough, since no group can start with the others.
unfoldable pub third_group : Str → Option (Str × Str)
third_group [] = some ([], [])
third_group (a ∷ s) = if is_alphanumeric a then none else some (a ∷ [], s)

-- The second group, the third one and the text after them.
abbrev pub RegexGroups : Type 0
RegexGroups = Str × Str × Str

abbrev pub with_byte : ℕ → Option RegexGroups → Option RegexGroups
with_byte a none = none
with_byte a (some (body, last, rest)) = some (a ∷ body, last, rest)

abbrev pub or_on : ℕ → Option (Str × Str) → Option RegexGroups → Option RegexGroups
or_on a (some (last, rest)) later = some ([], last, rest)
or_on a none later = with_byte a later

-- The rest of `(.+?)` after its first character, the marker and the third group: the marker ends the
-- second group where it can, since that is lazy, and belongs to it where it cannot.
unfoldable pub second_group : Mark → Str → Option RegexGroups
unfolding third_group
second_group m [] = none
second_group m (a ∷ s) =
    let later : Option RegexGroups = second_group m s in
    if a == marker m
    then or_on a (third_group s) later
    else if a == 10
    then none
    else with_byte a later

unfoldable pub after_marker : Mark → Str → Option RegexGroups
unfolding second_group
after_marker m [] = none
after_marker m (a ∷ s) = if a == 10 then none else with_byte a (second_group m s)

unfoldable pub at_marker : Mark → Str → Option RegexGroups
unfolding after_marker
at_marker m [] = none
at_marker m (a ∷ s) = if a == marker m then after_marker m s else none

abbrev pub with_first : Str → Option RegexGroups → Option (Str × RegexGroups)
with_first first none = none
with_first first (some groups) = some (first, groups)

-- A match at the start of the text, with the first group. The character before the marker is no marker
-- of the same kind, so that only one of the two alternatives of the first group can match.
unfoldable pub find_match : Mark → Bool → Str → Option (Str × RegexGroups)
unfolding at_marker may_precede
find_match m at_start [] = none
find_match m at_start (a ∷ s) =
    if may_precede m a
    then with_first (a ∷ []) (at_marker m s)
    else if at_start
    then with_first [] (at_marker m (a ∷ s))
    else none

-- What the template makes of a match.
abbrev pub replaced : Mark → Str × RegexGroups → Str → Str
replaced m (first, (body, last, rest)) more =
    first ++ (start_tag m ++ (body ++ (end_tag m ++ (last ++ more))))

-- One round: the match is replaced, or the character is left.
unfoldable pub round : Mark → ℕ → Str → (Str → Str) → Option (Str × RegexGroups) → Str
round m a s more none = a ∷ more s
round m a s more (some (first, (body, last, rest))) =
    replaced m (first, (body, last, rest)) (more rest)

-- `ReplaceAllString`: `^` holds at the start of the line only. Each round takes a byte off or more.
unfoldable pub replace_from : Mark → ℕ → Bool → Str → Str
unfolding find_match round
replace_from m zero at_start s = s
replace_from m (suc n) at_start [] = []
replace_from m (suc n) at_start (a ∷ s) =
    round m a s (replace_from m n false) (find_match m at_start (a ∷ s))

unfoldable pub replace_all : Mark → Str → Str
unfolding replace_from
replace_all m s = replace_from m (length s) true s

unfoldable pub replace_each : List Mark → Str → Str
unfolding replace_all
replace_each [] s = s
replace_each (m ∷ ms) s = replace_each ms (replace_all m s)

-- The marks are given in the order of the walk; whether links are allowed stands first.
unfoldable pub parse_wa_sub_formatting_line_to_html : Bool → List Mark → Str → Str
unfolding escape_string replace_each
parse_wa_sub_formatting_line_to_html allow_inline_url order line =
    let text : Str = replace_each order (escape_string line) in
    if allow_inline_url then replace_links text else text
