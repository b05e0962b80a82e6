-- ===== src/Msgconv/Code.antt =====
-- `parseWAFormattingToHTML` of pkg/msgconv/wa-text.go: the code blocks of a WhatsApp text. The rest of
-- the text from `codeBlockPtr` on stands for that index.
pub mod Kept
pub mod Content
mod Tests
use whatsapp.Common.{ℕ, zero, suc, ◌+◌, Bool, true, false, ◌&&◌, ◌||◌, not, Option, none, some}
use whatsapp.Common.{List, [], ◌∷◌, ◌++◌, if◌then◌else◌, ◌==◌, leb, drop, length}
use whatsapp.Common.Text.{Str, codes, has_prefix, str_eq, split_n}
use whatsapp.Msgconv.Line.{escape_string}
use whatsapp.Msgconv.Text.{Piece, parse_wa_sub_formatting_to_html}

abbrev pub fence : Str
fence = codes "```"

-- `strings.Index(s, "```")` with the texts before and after it.
put_before : ℕ → Option (Str × Str) → Option (Str × Str)
put_before a none = none
put_before a (some (before, after)) = some (a ∷ before, after)

unfoldable pub cut_fence : Str → Option (Str × Str)
unfolding put_before
cut_fence [] = none
cut_fence (a ∷ s) =
    let rest = cut_fence s in
    if has_prefix fence (a ∷ s) then some ([], drop 3 (a ∷ s)) else put_before a rest

-- How much of the encoding of a white space character has been read.
pub data Reading : Type 0 where
  at_start after_c2 after_e1 after_e1_9a after_e2 after_e2_80 after_e2_81 after_e3 : Reading
  after_e3_80 : Reading

abbrev between : ℕ → ℕ → ℕ → Bool
between low high a = leb low a && leb a high

abbrev goes_to : Reading → Bool → Option Reading
goes_to r b = if b then some r else none

-- The white space of Go's `unicode.IsSpace` in UTF-8.
read_byte : Reading → ℕ → Option Reading
read_byte at_start a =
    if between 9 13 a || a == 32
    then some at_start
    else if a == 194
    then some after_c2
    else if a == 225
    then some after_e1
    else if a == 226
    then some after_e2
    else goes_to after_e3 (a == 227)
read_byte after_c2 a = goes_to at_start (a == 133 || a == 160)
read_byte after_e1 a = goes_to after_e1_9a (a == 154)
read_byte after_e1_9a a = goes_to at_start (a == 128)
read_byte after_e2 a = if a == 128 then some after_e2_80 else goes_to after_e2_81 (a == 129)
read_byte after_e2_80 a = goes_to at_start (between 128 138 a || (a == 168 || a == 169) || a == 175)
read_byte after_e2_81 a = goes_to at_start (a == 159)
read_byte after_e3 a = goes_to after_e3_80 (a == 128)
read_byte after_e3_80 a = goes_to at_start (a == 128)

is_at_start : Reading → Bool
is_at_start at_start = true
is_at_start _ = false

reads_blank : Option Reading → Str → Bool
unfolding read_byte is_at_start
reads_blank none s = false
reads_blank (some r) [] = is_at_start r
reads_blank (some r) (a ∷ s) = reads_blank (read_byte r a) s

-- `strings.TrimSpace(s) == ""`
unfoldable pub is_blank : Str → Bool
unfolding reads_blank
is_blank s = reads_blank (some at_start) s

-- The prefix, the content of the code block and the rest.
pub record Block : Type 0 where
  pub prefix : Str
  pub content : Str
  pub rest : Str

-- The second search, where there is no content up to the first closing fence.
second_close : Str → Str → Option (Str × Str) → Option Block
second_close prefix body none = none
second_close prefix body (some (more, after)) =
    some (record { prefix = prefix; content = body ++ (fence ++ more); rest = after })

first_close : Str → Option (Str × Str) → Option Block
unfolding second_close
first_close prefix none = none
first_close prefix (some (body, after)) =
    if is_blank body
    then second_close prefix body (cut_fence after)
    else some (record { prefix = prefix; content = body; rest = after })

opened : Option (Str × Str) → Option Block
unfolding first_close
opened none = none
opened (some (prefix, after)) = first_close prefix (cut_fence after)

-- One round of the loop up to the assignment of `codeBlockPtr`; `none` is a `break`.
unfoldable pub next_block : Str → Option Block
unfolding opened
next_block text = opened (cut_fence text)

-- What is written: text with the formatting of lists and quotes, or code in one or more lines.
pub data Segment : Type 0 where
  formatted_text code pre_code : Str → Segment

abbrev pub has_line_break : Str → Bool
has_line_break [] = false
has_line_break (a ∷ s) = a == 10 || has_line_break s

text_segment : Str → List Segment
text_segment [] = []
text_segment (a ∷ s) = formatted_text (a ∷ s) ∷ []

code_segment : Str → Segment
code_segment content = if has_line_break content then pre_code content else code content

add_block : Block → List Segment × Str → List Segment × Str
unfolding text_segment code_segment
add_block b (segments, end) = (text_segment b.prefix ++ (code_segment b.content ∷ segments), end)

-- A round, with the rest of the loop.
loop_on : (Str → List Segment × Str) → Str → Option Block → List Segment × Str
unfolding add_block
loop_on more text none = ([], text)
loop_on more text (some b) = add_block b (more b.rest)

-- The loop, with the rest of the text at its end.
unfoldable pub blocks_loop : ℕ → Str → List Segment × Str
unfolding loop_on
blocks_loop zero text = ([], text)
blocks_loop (suc n) text = loop_on (blocks_loop n) text (next_block text)

-- The segments of the text: as many rounds as it has bytes.
unfoldable pub segments_of : Str → List Segment
unfolding blocks_loop text_segment
segments_of text =
    let (segments, end) = blocks_loop (length text) text in segments ++ text_segment end

-- The output of a segment: pieces of HTML, or a text that is HTML.
pub data Html : Type 0 where
  pieces : List Piece → Html
  raw : Str → Html

segment_html : Segment → Html
segment_html (formatted_text t) =
    pieces (parse_wa_sub_formatting_to_html (split_n 10 (suc (length t)) t))
segment_html (code t) = raw (codes "<code>" ++ (escape_string t ++ codes "</code>"))
segment_html (pre_code t) = raw (codes "<pre><code>" ++ (escape_string t ++ codes "</code></pre>"))

segments_html : List Segment → List Html
unfolding segment_html
segments_html [] = []
segments_html (x ∷ xs) = segment_html x ∷ segments_html xs

-- `parseWAFormattingToHTML`
unfoldable pub parse_wa_formatting_to_html : Str → List Html
unfolding segments_html
parse_wa_formatting_to_html text = segments_html (segments_of text)
