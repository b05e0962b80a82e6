-- ===== src/Msgconv/Line/Tests.antt =====
-- Runs of the formatting of a line.
use whatsapp.Msgconv.Link.{replace_links}
use whatsapp.Common.{◌≡◌, refl, [], ◌∷◌}
use whatsapp.Common.Text.{codes}
use whatsapp.Common.{true}
use whatsapp.Msgconv.Line.Safety.{tags_only}
use whatsapp.Msgconv.Line.Links.{line-tags_only}
use whatsapp.Msgconv.Line.{
  italic, bold, strikethrough, inline_code, parse_wa_sub_formatting_line_to_html, escape_string,
}

formatted_line :
    parse_wa_sub_formatting_line_to_html true
      (bold ∷ italic ∷ inline_code ∷ strikethrough ∷ [])
      (codes "a *b* _c d_ x_y_ `<`")
    ≡ codes "a <strong>b</strong> <em>c d</em> x_y_ <code>&lt;</code>"
unfolding parse_wa_sub_formatting_line_to_html replace_links
formatted_line = refl

-- Markers that overlap make tags that overlap.
overlapping_tags :
    parse_wa_sub_formatting_line_to_html true (italic ∷ bold ∷ []) (codes "_*a_*")
    ≡ codes "<em><strong>a</em></strong>"
unfolding parse_wa_sub_formatting_line_to_html replace_links
overlapping_tags = refl

escaped : escape_string (codes "<&") ≡ codes "&lt;&amp;"
unfolding escape_string
escaped = refl

line-tags_only_example :
    tags_only (
      parse_wa_sub_formatting_line_to_html true
        (italic ∷ bold ∷ inline_code ∷ [])
        (codes "_*<script>_* `<em>`"))
    ≡ true
line-tags_only_example =
    line-tags_only true (italic ∷ bold ∷ inline_code ∷ []) (codes "_*<script>_* `<em>`")

link_line :
    parse_wa_sub_formatting_line_to_html true (bold ∷ []) (codes "see [x](http://y) [z]")
    ≡ codes "see <a href=\"http://y\">x</a> [z]"
unfolding parse_wa_sub_formatting_line_to_html replace_links
link_line = refl
