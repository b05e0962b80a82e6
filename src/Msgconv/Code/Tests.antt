-- ===== src/Msgconv/Code/Tests.antt =====
-- Runs of the loop over code blocks, and its theorems at concrete inputs.
use whatsapp.Common.{◌≡◌, refl, arith, none, [], ◌∷◌, All}
use whatsapp.Common.Text.{Str, codes}
use whatsapp.Msgconv.Code.{
  formatted_text, code, segments_of, blocks_loop, next_block, cut_fence, is_blank,
}
use whatsapp.Msgconv.Code.Kept.{written_all, segments-written, loop_breaks}
use whatsapp.Msgconv.Code.Content.{IsFilled, segments-IsFilled}

abbrev message : Str
message = codes "a ```b``` c"

-- Three fences in a row around one space are no code block of their own.
abbrev nested : Str
nested = codes "``` ```x```"

message_segments :
    segments_of message
    ≡ formatted_text (codes "a ") ∷ code (codes "b") ∷ formatted_text (codes " c") ∷ []
unfolding segments_of blocks_loop next_block cut_fence is_blank
message_segments = refl

nested_segments : segments_of nested ≡ code (codes " ```x") ∷ []
unfolding segments_of blocks_loop next_block cut_fence is_blank
nested_segments = refl

loop_breaks_example : next_block (blocks_loop 11 message).1 ≡ none
loop_breaks_example = loop_breaks 11 message (omega arith)

segments-written_example : written_all (segments_of nested) ≡ nested
segments-written_example = segments-written nested

segments-IsFilled_example : All IsFilled (segments_of nested)
segments-IsFilled_example = segments-IsFilled nested
