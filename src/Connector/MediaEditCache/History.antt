-- ===== src/Connector/MediaEditCache/History.antt =====
-- What the cache answers after any history of additions and clearings.
use whatsapp.Common.{
  ℕ, ◌+◌, ◌*◌, ◌≤◌, ◌≡◌, refl, arith, Bool, false, ◌&&◌, ◌||◌, Option, none, some,
}
use whatsapp.Common.{List, [], ◌∷◌, if◌then◌else◌, Bool-cases, inl, inr, ltb, ◌∙◌}
use whatsapp.Connector.MediaEditCache.{
  CacheKey, Cache, key_eq, add_media_edit_cache, get_media_edit_cache, expire_media_edit_cache,
}
use whatsapp.Connector.MediaEditCache.Expiry.{
  Distinct, get-add, get-expire, add-Distinct, expire-Distinct,
}

-- The calls that change the cache, with their times.
pub data Call (Part : Type 0) : Type 0 where
  add : ℕ → CacheKey → Part → Call Part
  expire : ℕ → Call Part

module _ {Part : Type 0} (is_sticker is_media : Part → Bool) where
  apply_call : Call Part → Cache Part → Cache Part
  apply_call (add now k p) m = add_media_edit_cache is_sticker is_media now k p m
  apply_call (expire now) m = expire_media_edit_cache now m

  -- The cache after a history, the latest call first.
  pub run_calls : List (Call Part) → Cache Part
  unfolding apply_call
  run_calls [] = []
  run_calls (c ∷ cs) = apply_call c (run_calls cs)

  -- The answer that a reader should get: of the latest addition of media under the key.
  pub latest : ℕ → CacheKey → List (Call Part) → Option Part
  latest later k [] = none
  latest later k (expire now ∷ cs) = latest later k cs
  latest later k (add now j p ∷ cs) =
      if (is_sticker p || is_media p) && key_eq j k
      then (if ltb (now + 20 * 60) later then none else some p)
      else latest later k cs

  -- No clearing happened after this time.
  abbrev pub ClearedBy : ℕ → List (Call Part) → Type 0
  ClearedBy later [] = Unit
  ClearedBy later (add now k p ∷ cs) = ClearedBy later cs
  ClearedBy later (expire now ∷ cs) = (now ≤ later) × ClearedBy later cs

  run_calls-Distinct : (cs : List (Call Part)) → Distinct (run_calls cs)
  unfolding run_calls
  run_calls-Distinct [] = tt
  run_calls-Distinct (add now k p ∷ cs) =
      add-Distinct is_sticker is_media now k p _ (run_calls-Distinct cs)
  run_calls-Distinct (expire now ∷ cs) = expire-Distinct now _ (run_calls-Distinct cs)

  add_other :
      (now : ℕ) (k : CacheKey) (p : Part) (m : Cache Part)
      → (is_sticker p || is_media p) ≡ false
      → add_media_edit_cache is_sticker is_media now k p m ≡ m
  unfolding add_media_edit_cache
  add_other now k p m h = ground arith

  -- After any history of additions and clearings, with no clearing later than the reader, the
  -- reader gets the latest media added under the key, unless more than twenty minutes have passed.
  pub get-run_calls :
      (later : ℕ) (k : CacheKey) (cs : List (Call Part))
      → ClearedBy later cs
      → get_media_edit_cache later k (run_calls cs) ≡ latest later k cs
  unfolding run_calls latest
  get-run_calls later k [] h = unfold get_media_edit_cache in refl
  get-run_calls later k (expire now ∷ cs) h =
      get-expire now later k (run_calls cs) (run_calls-Distinct cs) h.0
      ∙ get-run_calls later k cs h.1
  get-run_calls later k (add now j p ∷ cs) h = elim (Bool-cases (is_sticker p || is_media p)) [
    | inl e ↦
        get-add is_sticker is_media now later j k p (run_calls cs) e
        ∙ rw (e, get-run_calls later k cs h)
    | inr e ↦ rw (e, add_other now j p (run_calls cs) e) (get-run_calls later k cs h)
  ]
