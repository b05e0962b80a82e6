-- ===== src/Msgconv/Text/Runs.antt =====
-- Runs on concrete texts.
use whatsapp.Common.{◌≡◌, refl, some, none, [], ◌∷◌}
use whatsapp.Common.Text.{codes}
use whatsapp.Msgconv.Text.{
  parse_wa_sub_formatting_to_html, lines_to_html, line_of, line_step, close_lists, open_tag,
  close_tag, formatted, br, ol, li, blockquote,
}

-- An ordered list that starts at 3 and skips a number, then a quote, then a line.
list_and_quote :
    parse_wa_sub_formatting_to_html
      (codes "3. a" ∷ codes "5. b" ∷ codes "> q" ∷ codes "c" ∷ codes "d" ∷ [])
    ≡ open_tag ol (some (codes "3"))
      ∷ open_tag li none
      ∷ formatted (codes "a")
      ∷ close_tag li
      ∷ open_tag li (some (codes "5"))
      ∷ formatted (codes "b")
      ∷ close_tag li
      ∷ close_tag ol
      ∷ open_tag blockquote none
      ∷ formatted (codes "q")
      ∷ close_tag blockquote
      ∷ formatted (codes "c")
      ∷ br
      ∷ formatted (codes "d")
      ∷ []
unfolding parse_wa_sub_formatting_to_html lines_to_html line_of line_step close_lists
list_and_quote = refl
