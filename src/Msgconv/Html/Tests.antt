-- ===== src/Msgconv/Html/Tests.antt =====
-- Runs of the HTML of lines, and the theorem about it.
use whatsapp.Msgconv.Link.{replace_links}
use whatsapp.Common.{true}
use whatsapp.Common.{◌≡◌, refl, some, [], ◌∷◌}
use whatsapp.Common.Text.{codes}
use whatsapp.Msgconv.Text.{
  lines_to_html, line_of, line_step, close_lists, parse_wa_sub_formatting_to_html,
}
use whatsapp.Msgconv.Line.{italic, bold, parse_wa_sub_formatting_line_to_html}
use whatsapp.Msgconv.Html.{sub_html}
use whatsapp.Msgconv.Html.Blocks.{block_tags}
use whatsapp.Msgconv.Html.Nested.{open_tags, html_nested}

list_html :
    sub_html true (italic ∷ bold ∷ []) (codes "3. *a*" ∷ codes "4. </ol>" ∷ codes "> q" ∷ [])
    ≡ codes
        "<ol start=\"3\"><li><strong>a</strong></li><li>&lt;/ol&gt;</li></ol><blockquote>q</blockquote>"
unfolding sub_html parse_wa_sub_formatting_to_html lines_to_html line_of line_step close_lists
    parse_wa_sub_formatting_line_to_html replace_links
list_html = refl

html_nested_example :
    open_tags
      (block_tags
        (sub_html true (italic ∷ bold ∷ []) (codes "* _*a_*" ∷ codes "1. b" ∷ codes "c" ∷ [])))
      []
    ≡ some []
html_nested_example =
    html_nested true (italic ∷ bold ∷ []) (codes "* _*a_*" ∷ codes "1. b" ∷ codes "c" ∷ [])
