-- ===== src/Msgconv/Code/Content.antt =====
-- pkg/msgconv/wa-text.go: what stands in code blocks.
use whatsapp.Common.{ℕ, zero, suc, ◌≡◌, refl, false, Option, none, some}
use whatsapp.Common.{List, [], ◌∷◌, ◌++◌, length, if_split, All, All-append}
use whatsapp.Common.Text.{Str}
use whatsapp.Msgconv.Code.{
  fence, cut_fence, Block, next_block, opened, first_close, second_close, Segment, formatted_text,
  code, pre_code, text_segment, code_segment, blocks_loop, segments_of, has_line_break, is_blank,
  reads_blank, read_byte, Reading, at_start, after_c2, after_e1, after_e1_9a, after_e2, after_e2_80,
  after_e2_81, after_e3, after_e3_80, add_block, loop_on,
}

-- A fence is no white space, wherever it stands.
reading-fence : (r : Reading) (s : Str) → reads_blank (some r) (fence ++ s) ≡ false
unfolding reads_blank read_byte
reading-fence at_start s = refl
reading-fence after_c2 s = refl
reading-fence after_e1 s = refl
reading-fence after_e1_9a s = refl
reading-fence after_e2 s = refl
reading-fence after_e2_80 s = refl
reading-fence after_e2_81 s = refl
reading-fence after_e3 s = refl
reading-fence after_e3_80 s = refl

blank-fence : (o : Option Reading) (s t : Str) → reads_blank o (s ++ (fence ++ t)) ≡ false
unfolding reads_blank
blank-fence none s t = refl
blank-fence (some r) [] t = reading-fence r t
blank-fence (some r) (a ∷ s) t = blank-fence (read_byte r a) s t

HasContent : Option Block → Type 0
HasContent none = Unit
HasContent (some b) = is_blank b.content ≡ false

second-HasContent :
    (prefix body : Str) (o : Option (Str × Str)) → HasContent (second_close prefix body o)
unfolding second_close HasContent is_blank
second-HasContent prefix body none = tt
second-HasContent prefix body (some (more, after)) = blank-fence (some at_start) body more

first-HasContent : (prefix : Str) (o : Option (Str × Str)) → HasContent (first_close prefix o)
unfolding first_close HasContent
first-HasContent prefix none = tt
first-HasContent prefix (some (body, after)) =
    if_split HasContent (is_blank body) _ _ (λ e. second-HasContent prefix body (cut_fence after))
      (λ e. e)

opened-HasContent : (o : Option (Str × Str)) → HasContent (opened o)
unfolding opened HasContent
opened-HasContent none = tt
opened-HasContent (some (prefix, after)) = first-HasContent prefix (cut_fence after)

next-HasContent : (s : Str) → HasContent (next_block s)
unfolding next_block
next-HasContent s = opened-HasContent (cut_fence s)

-- Code has something in it that is no white space; text is any text.
abbrev pub IsFilled : Segment → Type 0
IsFilled (formatted_text t) = Unit
IsFilled (code t) = is_blank t ≡ false
IsFilled (pre_code t) = is_blank t ≡ false

text-IsFilled : (t : Str) → All IsFilled (text_segment t)
unfolding text_segment
text-IsFilled [] = tt
text-IsFilled (a ∷ t) = (tt, tt)

code-IsFilled : (t : Str) → is_blank t ≡ false → IsFilled (code_segment t)
unfolding code_segment
code-IsFilled t h = if_split IsFilled (has_line_break t) _ _ (λ e. h) (λ e. h)

on-IsFilled :
    (more : Str → List Segment × Str) (s : Str) (o : Option Block)
    → ((t : Str) → All IsFilled (more t).0)
    → HasContent o
    → All IsFilled (loop_on more s o).0
unfolding loop_on add_block HasContent
on-IsFilled more s none m h = tt
on-IsFilled more s (some b) m h =
    All-append IsFilled (text_segment b.prefix) (code_segment b.content ∷ (more b.rest).0)
      (text-IsFilled b.prefix) (code-IsFilled b.content h, m b.rest)

loop-IsFilled : (n : ℕ) (s : Str) → All IsFilled (blocks_loop n s).0
unfolding blocks_loop
loop-IsFilled zero s = tt
loop-IsFilled (suc n) s =
    on-IsFilled (blocks_loop n) s (next_block s) (loop-IsFilled n) (next-HasContent s)

-- In any text no code segment is white space only.
pub segments-IsFilled : (text : Str) → All IsFilled (segments_of text)
unfolding segments_of
segments-IsFilled text =
    All-append IsFilled (blocks_loop (length text) text).0
      (text_segment (blocks_loop (length text) text).1) (loop-IsFilled (length text) text)
      (text-IsFilled (blocks_loop (length text) text).1)
