-- ===== src/Msgconv/Link/Tests.antt =====
-- Runs of the replacement of links.
use whatsapp.Common.{◌≡◌, refl}
use whatsapp.Common.Text.{codes}
use whatsapp.Msgconv.Link.{replace_links}

-- A bracket inside the label, and a link that is not closed.
two_links : replace_links (codes "[a]b](c) [d](e") ≡ codes "<a href=\"c\">a]b</a> [d](e"
unfolding replace_links
two_links = refl
