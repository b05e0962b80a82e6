-- ===== src/Msgconv/Link.antt =====
-- `inlineURLRegex` of pkg/msgconv/wa-text.go, a label in brackets and an address in parentheses, and
-- its replacement by a link.
pub mod Written
mod Tests
use whatsapp.Common.{
  ℕ, zero, suc, Bool, true, false, Option, none, some, List, [], ◌∷◌, ◌++◌, if◌then◌else◌, ◌==◌,
  length,
}
use whatsapp.Common.Text.{Str, codes}

abbrev pub onto_url : ℕ → Option (Str × Str) → Option (Str × Str)
onto_url a none = none
onto_url a (some (url, rest)) = some (a ∷ url, rest)

-- The address from its second character on, up to the first closing parenthesis, and what follows.
unfoldable pub url_from : Str → Option (Str × Str)
url_from [] = none
url_from (a ∷ s) =
    let later : Option (Str × Str) = url_from s in
    if a == b')' then some ([], s) else if a == 10 then none else onto_url a later

unfoldable pub url_at : Str → Option (Str × Str)
unfolding url_from
url_at [] = none
url_at (a ∷ s) = if a == 10 then none else onto_url a (url_from s)

unfoldable pub parenthesis_at : Str → Option (Str × Str)
unfolding url_at
parenthesis_at [] = none
parenthesis_at (a ∷ s) = if a == b'(' then url_at s else none

-- The label, the address and the text after the match.
abbrev pub LinkParts : Type 0
LinkParts = Str × Str × Str

abbrev pub onto_label : ℕ → Option LinkParts → Option LinkParts
onto_label a none = none
onto_label a (some (label, url, rest)) = some (a ∷ label, url, rest)

abbrev pub label_ends : ℕ → Option (Str × Str) → Option LinkParts → Option LinkParts
label_ends a (some (url, rest)) later = some ([], url, rest)
label_ends a none later = onto_label a later

-- The label from its second character on: a bracket ends it where an address follows.
unfoldable pub label_from : Str → Option LinkParts
unfolding parenthesis_at
label_from [] = none
label_from (a ∷ s) =
    let later : Option LinkParts = label_from s in
    if a == b']'
    then label_ends a (parenthesis_at s) later
    else if a == 10
    then none
    else onto_label a later

unfoldable pub label_at : Str → Option LinkParts
unfolding label_from
label_at [] = none
label_at (a ∷ s) = if a == 10 then none else onto_label a (label_from s)

unfoldable pub link_at : Str → Option LinkParts
unfolding label_at
link_at [] = none
link_at (a ∷ s) = if a == b'[' then label_at s else none

unfoldable pub link_html : LinkParts → Str → Str
link_html (label, url, rest) more =
    codes "<a href=\"" ++ (url ++ (codes "\">" ++ (label ++ (codes "</a>" ++ more))))

unfoldable pub link_round : ℕ → Str → (Str → Str) → Option LinkParts → Str
unfolding link_html
link_round a s more none = a ∷ more s
link_round a s more (some (label, url, rest)) = link_html (label, url, rest) (more rest)

-- `ReplaceAllStringFunc`. Each round takes a byte off or more.
unfoldable pub replace_links_from : ℕ → Str → Str
unfolding link_at link_round
replace_links_from zero s = s
replace_links_from (suc n) [] = []
replace_links_from (suc n) (a ∷ s) = link_round a s (replace_links_from n) (link_at (a ∷ s))

unfoldable pub replace_links : Str → Str
unfolding replace_links_from
replace_links s = replace_links_from (length s) s
