-- ===== src/Msgconv/Link/Written.antt =====
-- pkg/msgconv/wa-text.go: the parts of a link are the text that was matched, and as many rounds as a
-- text has bytes are enough to replace all links.
use whatsapp.Common.{ℕ, ◌≡◌, ap, Option, none, some, [], ◌∷◌, ◌++◌, ◌==◌, ==_iff, if_split}
use whatsapp.Common.Text.{Str}
use whatsapp.Msgconv.Link.{
  onto_url, url_from, url_at, parenthesis_at, LinkParts, onto_label, label_ends, label_from,
  label_at, link_at,
}

UrlOf : Str → Option (Str × Str) → Type 0
UrlOf s none = Unit
UrlOf s (some (url, rest)) = s ≡ url ++ (b')' ∷ rest)

onto-UrlOf : (a : ℕ) (s : Str) (o : Option (Str × Str)) → UrlOf s o → UrlOf (a ∷ s) (onto_url a o)
unfolding UrlOf
onto-UrlOf a s none h = tt
onto-UrlOf a s (some (url, rest)) h = ap (λ x. a ∷ x) h

url_from-UrlOf : (s : Str) → UrlOf s (url_from s)
unfolding url_from UrlOf
url_from-UrlOf [] = tt
url_from-UrlOf (a ∷ s) =
    if_split (UrlOf (a ∷ s)) (a == b')') _ _ (λ e. ap (λ c. c ∷ s) ((==_iff a b')').0 e))
      (λ e.
        if_split (UrlOf (a ∷ s)) (a == 10) _ _ (λ n. tt)
          (λ n. onto-UrlOf a s (url_from s) (url_from-UrlOf s)))

url_at-UrlOf : (s : Str) → UrlOf s (url_at s)
unfolding url_at UrlOf
url_at-UrlOf [] = tt
url_at-UrlOf (a ∷ s) =
    if_split (UrlOf (a ∷ s)) (a == 10) _ _ (λ n. tt)
      (λ n. onto-UrlOf a s (url_from s) (url_from-UrlOf s))

InParentheses : Str → Option (Str × Str) → Type 0
InParentheses s none = Unit
InParentheses s (some (url, rest)) = s ≡ b'(' ∷ (url ++ (b')' ∷ rest))

opened-InParentheses :
    (a : ℕ) (s : Str) (o : Option (Str × Str)) → a ≡ b'(' → UrlOf s o → InParentheses (a ∷ s) o
unfolding InParentheses UrlOf
opened-InParentheses a s none e h = tt
opened-InParentheses a s (some (url, rest)) e h = cc (e, h)

parenthesis-InParentheses : (s : Str) → InParentheses s (parenthesis_at s)
unfolding parenthesis_at InParentheses
parenthesis-InParentheses [] = tt
parenthesis-InParentheses (a ∷ s) =
    if_split (InParentheses (a ∷ s)) (a == b'(') _ _
      (λ e. opened-InParentheses a s (url_at s) ((==_iff a b'(').0 e) (url_at-UrlOf s)) (λ e. tt)

LabelOf : Str → Option LinkParts → Type 0
LabelOf s none = Unit
LabelOf s (some (label, url, rest)) = s ≡ label ++ (b']' ∷ (b'(' ∷ (url ++ (b')' ∷ rest))))

onto-LabelOf :
    (a : ℕ) (s : Str) (o : Option LinkParts) → LabelOf s o → LabelOf (a ∷ s) (onto_label a o)
unfolding LabelOf
onto-LabelOf a s none h = tt
onto-LabelOf a s (some (label, url, rest)) h = ap (λ x. a ∷ x) h

ends-LabelOf :
    (a : ℕ) (s : Str) (o : Option (Str × Str)) (later : Option LinkParts)
    → a ≡ b']'
    → InParentheses s o
    → LabelOf s later
    → LabelOf (a ∷ s) (label_ends a o later)
unfolding LabelOf InParentheses
ends-LabelOf a s (some (url, rest)) later e h l = cc (e, h)
ends-LabelOf a s none later e h l = onto-LabelOf a s later l

label_from-LabelOf : (s : Str) → LabelOf s (label_from s)
unfolding label_from LabelOf
label_from-LabelOf [] = tt
label_from-LabelOf (a ∷ s) =
    if_split (LabelOf (a ∷ s)) (a == b']') _ _
      (λ e.
        ends-LabelOf a s (parenthesis_at s) (label_from s) ((==_iff a b']').0 e)
          (parenthesis-InParentheses s) (label_from-LabelOf s))
      (λ e.
        if_split (LabelOf (a ∷ s)) (a == 10) _ _ (λ n. tt)
          (λ n. onto-LabelOf a s (label_from s) (label_from-LabelOf s)))

label_at-LabelOf : (s : Str) → LabelOf s (label_at s)
unfolding label_at LabelOf
label_at-LabelOf [] = tt
label_at-LabelOf (a ∷ s) =
    if_split (LabelOf (a ∷ s)) (a == 10) _ _ (λ n. tt)
      (λ n. onto-LabelOf a s (label_from s) (label_from-LabelOf s))

-- The text is the parts of a link, as they stand in it.
unfoldable pub LinkOf : Str → Option LinkParts → Type 0
LinkOf s none = Unit
LinkOf s (some (label, url, rest)) = s ≡ b'[' ∷ (label ++ (b']' ∷ (b'(' ∷ (url ++ (b')' ∷ rest)))))

bracket-LinkOf :
    (a : ℕ) (s : Str) (o : Option LinkParts) → a ≡ b'[' → LabelOf s o → LinkOf (a ∷ s) o
unfolding LinkOf LabelOf
bracket-LinkOf a s none e h = tt
bracket-LinkOf a s (some (label, url, rest)) e h = cc (e, h)

pub link_at-LinkOf : (s : Str) → LinkOf s (link_at s)
unfolding link_at LinkOf
link_at-LinkOf [] = tt
link_at-LinkOf (a ∷ s) =
    if_split (LinkOf (a ∷ s)) (a == b'[') _ _
      (λ e. bracket-LinkOf a s (label_at s) ((==_iff a b'[').0 e) (label_at-LabelOf s)) (λ e. tt)
