-- ===== src/Connector/MediaEditCache/Expiry.antt =====
-- pkg/connector/mediaeditcache.go: one addition and one clearing, as a reader sees them.
use whatsapp.Common.{
  ℕ, ◌+◌, ◌*◌, ◌≤◌, ◌≡◌, refl, arith, Bool, true, false, not, ◌&&◌, ◌||◌, Option, none, some,
}
use whatsapp.Common.{[], ◌∷◌, if◌then◌else◌, Bool-cases, inl, inr, ltb}
use whatsapp.Common.Text.{str_eq_refl, str_eq→eq}
use whatsapp.Connector.MediaEditCache.{
  CacheKey, CacheValue, Cache, key_eq, find, insert, is_expired, add_media_edit_cache,
  get_media_edit_cache, expire_media_edit_cache, unless_expired,
}

key_eq_refl : (k : CacheKey) → key_eq k k ≡ true
unfolding key_eq
key_eq_refl k = ground (arith, str_eq_refl k.message_id, str_eq_refl k.portal_mxid)

key_eq→eq : (j k : CacheKey) → key_eq j k ≡ true → j ≡ k
unfolding key_eq
key_eq→eq j k h =
    ground (arith, str_eq→eq j.message_id k.message_id, str_eq→eq j.portal_mxid k.portal_mxid)

media_test : (a b : Bool) → (a || b) ≡ true → (not a && not b) ≡ false
media_test true b h = refl
media_test false true h = refl
media_test false false h = cc

module _ {Part : Type 0} where
  find-insert :
      (k j : CacheKey) (v : CacheValue Part) (m : Cache Part)
      → find j (insert k v m) ≡ (if key_eq k j then some v else find j m)
  unfolding find insert
  find-insert k j v [] = refl
  find-insert k j v ((i, w) ∷ m) = elim (Bool-cases (key_eq i k)) [
    | inl e ↦ ground (arith, key_eq→eq i k e)
    | inr e ↦
        rw (e, find-insert k j v m) (ground (arith, key_eq→eq i j, key_eq→eq k j, key_eq_refl k))
  ]

  -- After a part was added, it is what a reader of its key gets until twenty minutes have passed,
  -- and nothing is after that; readers of other keys get what they got before.
  pub get-add :
      (is_sticker is_media : Part → Bool) (now later : ℕ) (k j : CacheKey) (p : Part)
      (m : Cache Part)
      → (is_sticker p || is_media p) ≡ true
      → get_media_edit_cache later j (add_media_edit_cache is_sticker is_media now k p m) ≡ (
          if key_eq k j
          then (if ltb (now + 20 * 60) later then none else some p)
          else get_media_edit_cache later j m)
  unfolding get_media_edit_cache add_media_edit_cache
  get-add is_sticker is_media now later k j p m h =
      rw (media_test (is_sticker p) (is_media p) h)
        (rw (find-insert k j (record { part = p; expiry = now + 20 * 60 }) m) (ground arith))

  -- No key stands twice in the list.
  abbrev pub Distinct : Cache Part → Type 0
  Distinct [] = Unit
  Distinct ((k, v) ∷ m) = (find k m ≡ none) × Distinct m

  unless_expired_value : ℕ → Option (CacheValue Part) → Option (CacheValue Part)
  unless_expired_value now none = none
  unless_expired_value now (some v) = if is_expired now v then none else some v

  find-expire_none :
      (now : ℕ) (k : CacheKey) (m : Cache Part)
      → find k m ≡ none
      → find k (expire_media_edit_cache now m) ≡ none
  unfolding find expire_media_edit_cache
  find-expire_none now k [] h = refl
  find-expire_none now k ((j, v) ∷ m) h = ground (arith, find-expire_none now k m)

  pub expire-Distinct :
      (now : ℕ) (m : Cache Part) → Distinct m → Distinct (expire_media_edit_cache now m)
  unfolding expire_media_edit_cache
  expire-Distinct now [] d = tt
  expire-Distinct now ((k, v) ∷ m) d = elim (Bool-cases (is_expired now v)) [
    | inl e ↦ rw e (expire-Distinct now m d.1)
    | inr e ↦ rw e (find-expire_none now k m d.0, expire-Distinct now m d.1)
  ]

  find-expire :
      (now : ℕ) (k : CacheKey) (m : Cache Part)
      → Distinct m
      → find k (expire_media_edit_cache now m) ≡ unless_expired_value now (find k m)
  unfolding find expire_media_edit_cache unless_expired_value
  find-expire now k [] d = refl
  find-expire now k ((j, v) ∷ m) d =
      ground (arith, key_eq→eq j k, find-expire now k m d.1, find-expire_none now j m d.0)

  expired_later :
      (now later : ℕ) (o : Option (CacheValue Part))
      → now ≤ later
      → unless_expired later (unless_expired_value now o) ≡ unless_expired later o
  unfolding unless_expired unless_expired_value
  expired_later now later none h = refl
  expired_later now later (some v) h = ground arith

  -- Clearing the cache changes nothing for a reader at that time or later.
  pub get-expire :
      (now later : ℕ) (k : CacheKey) (m : Cache Part)
      → Distinct m
      → now ≤ later
      → get_media_edit_cache later k (expire_media_edit_cache now m)
        ≡ get_media_edit_cache later k m
  unfolding get_media_edit_cache
  get-expire now later k m d h = rw (find-expire now k m d) (expired_later now later (find k m) h)

  insert-Distinct :
      (k : CacheKey) (v : CacheValue Part) (m : Cache Part) → Distinct m → Distinct (insert k v m)
  unfolding insert
  insert-Distinct k v [] d = unfold find in (refl, tt)
  insert-Distinct k v ((j, w) ∷ m) d = elim (Bool-cases (key_eq j k)) [
    | inl e ↦ rw e (rw (key_eq→eq j k e) at d)
    | inr e ↦ rw e (
      rw (find-insert k j v m) (ground (arith, key_eq→eq k j, key_eq_refl k)),
      insert-Distinct k v m d.1,
    )
  ]

  pub add-Distinct :
      (is_sticker is_media : Part → Bool) (now : ℕ) (k : CacheKey) (p : Part) (m : Cache Part)
      → Distinct m
      → Distinct (add_media_edit_cache is_sticker is_media now k p m)
  unfolding add_media_edit_cache
  add-Distinct is_sticker is_media now k p m d =
      ground (arith, d, insert-Distinct k (record { part = p; expiry = now + 20 * 60 }) m d)
