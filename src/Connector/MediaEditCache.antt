-- ===== src/Connector/MediaEditCache.antt =====
-- pkg/connector/mediaeditcache.go: the converted parts of recent media messages, by message and
-- room, for edits of their captions. Times are in seconds. The map is an association list.
pub mod Expiry
pub mod History
use whatsapp.Common.{ℕ, ◌+◌, ◌*◌, Bool, true, false, ◌&&◌, not, Option, none, some, List, [], ◌∷◌}
use whatsapp.Common.{if◌then◌else◌, ltb}
use whatsapp.Common.Text.{Str, str_eq}

pub record CacheKey : Type 0 where
  pub message_id : Str
  pub portal_mxid : Str

unfoldable pub key_eq : CacheKey → CacheKey → Bool
key_eq a b = str_eq a.message_id b.message_id && str_eq a.portal_mxid b.portal_mxid

-- `EditMaxAge`, in seconds.
abbrev pub edit_max_age : ℕ
edit_max_age = 15 * 60

pub record CacheValue (Part : Type 0) : Type 0 where
  pub part : Part
  pub expiry : ℕ

abbrev pub Cache : Type 0 → Type 0
Cache Part = List (CacheKey × CacheValue Part)

module _ {Part : Type 0} where
  unfoldable pub find : CacheKey → Cache Part → Option (CacheValue Part)
  find k [] = none
  find k ((j, v) ∷ m) = if key_eq j k then some v else find k m

  unfoldable pub insert : CacheKey → CacheValue Part → Cache Part → Cache Part
  insert k v [] = (k, v) ∷ []
  insert k v ((j, w) ∷ m) = if key_eq j k then (k, v) ∷ m else (j, w) ∷ insert k v m

  -- `time.Until(value.Expiry) < 0`
  abbrev pub is_expired : ℕ → CacheValue Part → Bool
  is_expired now v = ltb v.expiry now

  -- `AddMediaEditCache` on the room `portal_mxid`; the two tests are those of the content's type.
  unfoldable pub add_media_edit_cache :
      (Part → Bool) → (Part → Bool) → ℕ → CacheKey → Part → Cache Part → Cache Part
  unfolding insert
  add_media_edit_cache is_sticker is_media now k converted m =
      if not (is_sticker converted) && not (is_media converted)
      then m
      else insert k (record { part = converted; expiry = now + (edit_max_age + 5 * 60) }) m

  unless_expired : ℕ → Option (CacheValue Part) → Option Part
  unless_expired now none = none
  unless_expired now (some v) = if is_expired now v then none else some v.part

  -- `GetMediaEditCache`
  unfoldable pub get_media_edit_cache : ℕ → CacheKey → Cache Part → Option Part
  unfolding find unless_expired
  get_media_edit_cache now k m = unless_expired now (find k m)

  -- `expireMediaEditCache`
  unfoldable pub expire_media_edit_cache : ℕ → Cache Part → Cache Part
  expire_media_edit_cache now [] = []
  expire_media_edit_cache now ((k, v) ∷ m) =
      let rest = expire_media_edit_cache now m in if is_expired now v then rest else (k, v) ∷ rest
