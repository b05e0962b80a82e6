-- ===== src/Connector/Receive/Conversion/Retries.antt =====
-- pkg/connector/events.go: which answers to media retries lead to a download.
use whatsapp.Common.{ℕ}
use whatsapp.Common.{
  Bool, true, false, not, Option, none, some, [], ◌∷◌, if◌then◌else◌, Outcome, ok, err, is_some,
  ◌≡◌, ◌≢◌, ◌↔◌, ◌⊎◌, inl, inr, refl, sym, ap, ◌∙◌,
}
use whatsapp.Common.Text.{Str}
use whatsapp.Waid.DbMeta.{
  MessageMetadata, MessageErrorType, decryption_failed, media_not_found, no_error,
}
use whatsapp.Connector.Receive.Conversion.{
  ConvertError, RetryData, RetryResult, retry_success, retry_not_found, retry_other, RetryEdit,
  downloaded, convert_media_retry, retry_outcome, decrypted_outcome, keys_outcome, failed_outcome,
  is_media_error, direct_media_retry, no_media_error,
}

edit_path : Outcome ConvertError RetryEdit → Str
edit_path (ok (downloaded p)) = p
edit_path _ = []

not_nil : (c : ℕ) (t path : Str) → c ∷ t ≡ path → path ≢ []
not_nil c t path e p = cc

data_forward :
    (locked : Bool) (r : RetryResult) (t path : Str)
    → retry_outcome locked (record { retry_result = r; direct_path = t }) ≡ ok (downloaded path)
    → (locked ≡ true) × (t ≡ path) × ((r ≡ retry_success) ⊎ (path ≢ []))
unfolding retry_outcome
data_forward true retry_success t path h = unfold edit_path in (refl, ap edit_path h, inl refl)
data_forward false retry_success t path h = absurd cc
data_forward locked retry_not_found [] path h = absurd cc
data_forward true retry_not_found (c ∷ t) path h =
    unfold edit_path in (refl, ap edit_path h, inr (not_nil c t path (ap edit_path h)))
data_forward false retry_not_found (c ∷ t) path h = absurd cc
data_forward locked (retry_other name) [] path h = absurd cc
data_forward true (retry_other name) (c ∷ t) path h =
    unfold edit_path in (refl, ap edit_path h, inr (not_nil c t path (ap edit_path h)))
data_forward false (retry_other name) (c ∷ t) path h = absurd cc

data_back :
    (locked : Bool) (r : RetryResult) (t path : Str)
    → locked ≡ true
    → t ≡ path
    → (r ≡ retry_success) ⊎ (path ≢ [])
    → retry_outcome locked (record { retry_result = r; direct_path = t }) ≡ ok (downloaded path)
unfolding retry_outcome
data_back false r t path l e h = absurd cc
data_back true retry_success t path l e h = ap (λ q. ok (downloaded q)) e
data_back true retry_not_found [] path l e (inl h) = absurd cc
data_back true retry_not_found [] path l e (inr h) = absurd (h (sym e))
data_back true retry_not_found (c ∷ t) path l e h = ap (λ q. ok (downloaded q)) e
data_back true (retry_other name) [] path l e (inl h) = absurd cc
data_back true (retry_other name) [] path l e (inr h) = absurd (h (sym e))
data_back true (retry_other name) (c ∷ t) path l e h = ap (λ q. ok (downloaded q)) e

module _ {Keys : Type 0} (unmarshal : Str → Option Keys) (decrypt : Keys → Option RetryData)
    (locked : Bool) (path : Str) where
  -- What the data must be like.
  IsDownload : RetryData → Type 0
  IsDownload d =
      (locked ≡ true) × (d.direct_path ≡ path) × ((d.retry_result ≡ retry_success) ⊎ (path ≢ []))

  decrypted_forward :
      (o : Option RetryData)
      → decrypted_outcome locked o ≡ ok (downloaded path)
      → (d : RetryData) × (o ≡ some d) × IsDownload d
  unfolding decrypted_outcome IsDownload
  decrypted_forward none h = absurd cc
  decrypted_forward (some d) h = (d, refl, data_forward locked d.retry_result d.direct_path path h)

  keys_forward :
      (o : Option Keys)
      → keys_outcome unmarshal decrypt locked o ≡ ok (downloaded path)
      → (k : Keys) × (d : RetryData) × (o ≡ some k) × (decrypt k ≡ some d) × IsDownload d
  unfolding keys_outcome
  keys_forward none h = absurd cc
  keys_forward (some k) h = let (d, e, i) = decrypted_forward (decrypt k) h in (k, d, refl, e, i)

  failed_forward :
      (o : Option Str)
      → failed_outcome unmarshal decrypt locked o ≡ ok (downloaded path)
      → (text : Str) × (k : Keys) × (d : RetryData) × (o ≡ some text)
        × (unmarshal text ≡ some k)
        × (decrypt k ≡ some d)
        × IsDownload d
  unfolding failed_outcome
  failed_forward none h = absurd cc
  failed_forward (some text) h =
      let (k, d, e, f, i) = keys_forward (unmarshal text) h in (text, k, d, refl, e, f, i)

  guards :
      (dm : Option Str) (e : MessageErrorType) (rest : Outcome ConvertError RetryEdit)
      → (if is_some dm
          then err direct_media_retry
          else if not (is_media_error unmarshal decrypt e)
          then err no_media_error
          else rest)
        ≡ ok (downloaded path)
      → (dm ≡ none) × (e ≡ media_not_found) × (rest ≡ ok (downloaded path))
  guards (some t) e rest h = absurd cc
  guards none media_not_found rest h = (refl, refl, h)
  guards none no_error rest h = absurd cc
  guards none decryption_failed rest h = absurd cc

  failed_back :
      (o : Option Str) (text : Str) (k : Keys) (d : RetryData)
      → o ≡ some text
      → unmarshal text ≡ some k
      → decrypt k ≡ some d
      → IsDownload d
      → failed_outcome unmarshal decrypt locked o ≡ ok (downloaded path)
  unfolding failed_outcome keys_outcome decrypted_outcome IsDownload
  failed_back o text k d h u c (l, p, r) =
      ap (failed_outcome unmarshal decrypt locked) h
      ∙ ap (keys_outcome unmarshal decrypt locked) u
      ∙ ap (decrypted_outcome locked) c
      ∙ data_back locked d.retry_result d.direct_path path l p r

-- An answer to a media retry leads to a download from a path exactly when the lock could be taken,
-- the message is no direct media but has the media error and readable metadata, and the answer can be
-- decrypted and has the path, or is a success.
pub retry_downloads_iff :
    {Keys : Type 0} (unmarshal : Str → Option Keys) (decrypt : Keys → Option RetryData)
    (locked : Bool) (meta : MessageMetadata) (path : Str)
    → (convert_media_retry unmarshal decrypt locked meta ≡ ok (downloaded path)) ↔ (
        (text : Str) × (k : Keys) × (d : RetryData) × (locked ≡ true)
        × (meta.direct_media_meta ≡ none)
        × (meta.error ≡ media_not_found)
        × (meta.failed_media_meta ≡ some text)
        × (unmarshal text ≡ some k)
        × (decrypt k ≡ some d)
        × (d.direct_path ≡ path)
        × ((d.retry_result ≡ retry_success) ⊎ (path ≢ [])))
unfolding convert_media_retry IsDownload
retry_downloads_iff unmarshal decrypt locked meta path = (
  λ h.
      let (dm, e, rest) =
        guards unmarshal decrypt locked path meta.direct_media_meta meta.error
          (failed_outcome unmarshal decrypt locked meta.failed_media_meta) h in
      let (text, k, d, f, u, c, (l, p, r)) =
        failed_forward unmarshal decrypt locked path meta.failed_media_meta rest in
      (text, k, d, l, dm, e, f, u, c, p, r),
  λ (text, k, d, l, dm, e, f, u, c, p, r).
      ap
        (λ o.
          if is_some o
          then err direct_media_retry
          else if not (is_media_error unmarshal decrypt meta.error)
          then err no_media_error
          else failed_outcome unmarshal decrypt locked meta.failed_media_meta)
        dm
      ∙ ap
          (λ x.
            if not (is_media_error unmarshal decrypt x)
            then err no_media_error
            else failed_outcome unmarshal decrypt locked meta.failed_media_meta)
          e
      ∙ failed_back unmarshal decrypt locked path meta.failed_media_meta text k d f u c (l, p, r),
)
