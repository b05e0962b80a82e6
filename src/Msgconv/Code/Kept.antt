-- ===== src/Msgconv/Code/Kept.antt =====
-- pkg/msgconv/wa-text.go: the loop over code blocks ends by itself, and loses no text.
use whatsapp.Common.{ℕ, zero, suc, ◌≤◌, ◌≡◌, refl, sym, ap, ◌∙◌, arith, true, Option, none, some}
use whatsapp.Common.{List, [], ◌∷◌, ◌++◌, drop, length, length-append, if_split}
use whatsapp.Common.Text.{Str, has_prefix}
use whatsapp.Msgconv.Code.{add_block, loop_on}
use whatsapp.Msgconv.Code.{
  fence, cut_fence, put_before, Block, next_block, opened, first_close, second_close, Segment,
  formatted_text, code, pre_code, text_segment, code_segment, blocks_loop, segments_of,
  has_line_break, is_blank,
}

append_assoc : {A : Type 0} (xs ys zs : List A) → (xs ++ ys) ++ zs ≡ xs ++ (ys ++ zs)
append_assoc [] ys zs = refl
append_assoc (x ∷ xs) ys zs = ap (λ r. x ∷ r) (append_assoc xs ys zs)

append-nil : (xs : Str) → xs ++ [] ≡ xs
append-nil [] = refl
append-nil (x ∷ xs) = ap (λ r. x ∷ r) (append-nil xs)

no_block : next_block [] ≡ none
unfolding next_block cut_fence
no_block = refl

prefix-drop : (p s : Str) → has_prefix p s ≡ true → p ++ drop (length p) s ≡ s
prefix-drop [] s h = refl
prefix-drop (a ∷ p) [] h = absurd cc
prefix-drop (a ∷ p) (b ∷ s) h = ground (arith, prefix-drop p s)

-- What a search finds, put together again.
Joins : Str → Option (Str × Str) → Type 0
Joins s none = Unit
Joins s (some (before, after)) = before ++ (fence ++ after) ≡ s

put_before-Joins :
    (a : ℕ) (s : Str) (o : Option (Str × Str)) → Joins s o → Joins (a ∷ s) (put_before a o)
unfolding put_before Joins
put_before-Joins a s none h = tt
put_before-Joins a s (some (before, after)) h = ap (λ r. a ∷ r) h

cut_fence-Joins : (s : Str) → Joins s (cut_fence s)
unfolding cut_fence
cut_fence-Joins [] = unfold Joins in tt
cut_fence-Joins (a ∷ s) =
    if_split (Joins (a ∷ s)) (has_prefix fence (a ∷ s)) _ _
      (λ e. unfold Joins in prefix-drop fence (a ∷ s) e)
      (λ e. put_before-Joins a s (cut_fence s) (cut_fence-Joins s))

-- The text that a block was read from.
written_block : Block → Str
written_block b = b.prefix ++ (fence ++ (b.content ++ (fence ++ b.rest)))

BlockJoins : Str → Option Block → Type 0
BlockJoins s none = Unit
BlockJoins s (some b) = written_block b ≡ s

second-BlockJoins :
    (s prefix body after : Str) (o : Option (Str × Str))
    → Joins after o
    → prefix ++ (fence ++ (body ++ (fence ++ after))) ≡ s
    → BlockJoins s (second_close prefix body o)
unfolding second_close BlockJoins written_block Joins
second-BlockJoins s prefix body after none j h = tt
second-BlockJoins s prefix body after (some (more, after')) j h =
    ap (λ r. prefix ++ (fence ++ r))
      (append_assoc body (fence ++ more) (fence ++ after')
        ∙ ap (λ r. body ++ r) (append_assoc fence more (fence ++ after'))
        ∙ ap (λ r. body ++ (fence ++ r)) j)
    ∙ h

first-BlockJoins :
    (s prefix after : Str) (o : Option (Str × Str))
    → Joins after o
    → prefix ++ (fence ++ after) ≡ s
    → BlockJoins s (first_close prefix o)
unfolding first_close BlockJoins written_block Joins
first-BlockJoins s prefix after none j h = tt
first-BlockJoins s prefix after (some (body, after')) j h =
    let whole : prefix ++ (fence ++ (body ++ (fence ++ after'))) ≡ s =
      ap (λ r. prefix ++ (fence ++ r)) j ∙ h in
    if_split (BlockJoins s) (is_blank body) _ _
      (λ e.
        second-BlockJoins s prefix body after' (cut_fence after') (cut_fence-Joins after') whole)
      (λ e. whole)

opened-BlockJoins : (s : Str) (o : Option (Str × Str)) → Joins s o → BlockJoins s (opened o)
unfolding opened BlockJoins Joins
opened-BlockJoins s none j = tt
opened-BlockJoins s (some (prefix, after)) j =
    first-BlockJoins s prefix after (cut_fence after) (cut_fence-Joins after) j

next-BlockJoins : (s : Str) → BlockJoins s (next_block s)
unfolding next_block
next-BlockJoins s = opened-BlockJoins s (cut_fence s) (cut_fence-Joins s)

-- The text that a segment was read from.
abbrev pub written : Segment → Str
written (formatted_text t) = t
written (code t) = fence ++ (t ++ fence)
written (pre_code t) = fence ++ (t ++ fence)

abbrev pub written_all : List Segment → Str
written_all [] = []
written_all (x ∷ xs) = written x ++ written_all xs

written-text :
    (t : Str) (xs : List Segment) → written_all (text_segment t ++ xs) ≡ t ++ written_all xs
unfolding text_segment
written-text [] xs = refl
written-text (a ∷ t) xs = refl

one_text : (t : Str) → written_all (text_segment t) ≡ t
unfolding text_segment
one_text [] = refl
one_text (a ∷ t) = append-nil (a ∷ t)

written-code : (t : Str) → written (code_segment t) ≡ fence ++ (t ++ fence)
unfolding code_segment
written-code t =
    if_split (λ x. written x ≡ fence ++ (t ++ fence)) (has_line_break t) _ _ (λ e. refl) (λ e. refl)

written-append : (xs ys : List Segment) → written_all (xs ++ ys) ≡ written_all xs ++ written_all ys
written-append [] ys = refl
written-append (x ∷ xs) ys =
    ap (λ r. written x ++ r) (written-append xs ys)
    ∙ sym (append_assoc (written x) (written_all xs) (written_all ys))

written-add :
    (b : Block) (r : List Segment × Str)
    → written_all r.0 ++ r.1 ≡ b.rest
    → written_all (add_block b r).0 ++ (add_block b r).1 ≡ written_block b
unfolding add_block written_block
written-add b (segments, end) h =
    ap (λ x. x ++ end) (written-text b.prefix (code_segment b.content ∷ segments))
    ∙ append_assoc b.prefix (written_all (code_segment b.content ∷ segments)) end
    ∙ ap (λ x. b.prefix ++ x)
        (ap (λ x. (x ++ written_all segments) ++ end) (written-code b.content)
          ∙ append_assoc (fence ++ (b.content ++ fence)) (written_all segments) end
          ∙ ap (λ x. (fence ++ (b.content ++ fence)) ++ x) h
          ∙ ap (λ x. fence ++ x) (append_assoc b.content fence b.rest))

written-on :
    (more : Str → List Segment × Str) (s : Str) (o : Option Block)
    → ((t : Str) → written_all (more t).0 ++ (more t).1 ≡ t)
    → BlockJoins s o
    → written_all (loop_on more s o).0 ++ (loop_on more s o).1 ≡ s
unfolding loop_on BlockJoins
written-on more s none h j = refl
written-on more s (some b) h j = written-add b (more b.rest) (h b.rest) ∙ j

written-loop : (n : ℕ) (s : Str) → written_all (blocks_loop n s).0 ++ (blocks_loop n s).1 ≡ s
unfolding blocks_loop
written-loop zero s = refl
written-loop (suc n) s =
    written-on (blocks_loop n) s (next_block s) (written-loop n) (next-BlockJoins s)

rest-shorter :
    (b : Block) (s : Str) (n : ℕ) → written_block b ≡ s → length s ≤ suc n → length b.rest ≤ n
unfolding written_block
rest-shorter b s n w h = omega (
  arith,
  ap length w,
  h,
  length-append b.prefix (fence ++ (b.content ++ (fence ++ b.rest))),
  length-append b.content (fence ++ b.rest),
)

ends-on :
    (more : Str → List Segment × Str) (n : ℕ) (s : Str) (o : Option Block)
    → next_block s ≡ o
    → BlockJoins s o
    → length s ≤ suc n
    → ((t : Str) → length t ≤ n → next_block (more t).1 ≡ none)
    → next_block (loop_on more s o).1 ≡ none
unfolding loop_on BlockJoins add_block
ends-on more n s none e j h m = e
ends-on more n s (some b) e j h m = m b.rest (rest-shorter b s n j h)

loop-ends : (n : ℕ) (s : Str) → length s ≤ n → next_block (blocks_loop n s).1 ≡ none
unfolding blocks_loop
loop-ends zero [] h = no_block
loop-ends zero (a ∷ s) h = absurd (omega (arith, h))
loop-ends (suc n) s h =
    ends-on (blocks_loop n) n s (next_block s) refl (next-BlockJoins s) h (loop-ends n)

-- As many rounds as the text has bytes, or more, are enough: where the loop stops, the code itself
-- leaves the loop, since there is no further code block.
pub loop_breaks : (n : ℕ) (text : Str) → length text ≤ n → next_block (blocks_loop n text).1 ≡ none
loop_breaks n text h = loop-ends n text h

-- The segments of any text, written one after the other with the fences around code, are the text:
-- nothing is lost and nothing is written twice.
pub segments-written : (text : Str) → written_all (segments_of text) ≡ text
unfolding segments_of
segments-written text =
    written-append (blocks_loop (length text) text).0
      (text_segment (blocks_loop (length text) text).1)
    ∙ ap (λ r. written_all (blocks_loop (length text) text).0 ++ r)
        (one_text (blocks_loop (length text) text).1)
    ∙ written-loop (length text) text
