-- ===== src/Waid/MediaId/Panics.antt =====
-- Which calls on media IDs and compact JIDs panic.
use whatsapp.Common.{ℕ, ◌+◌, ◌≤◌, ◌≡◌, ◌≢◌, refl, arith, Bool, true, false}
use whatsapp.Common.{
  [], ◌∷◌, length, take, drop, Outcome, ok, err, panic, ◌>>=◌, wrap_err, Bool-cases, inl, inr, ◌↔◌,
  ltb,
}
use whatsapp.Common.Text.{Str}
use whatsapp.Waid.Jid.{Jid, JidApi, IsJidApi, non_ad}
use whatsapp.Waid.Id.{ParsedMessageId, parse_user_login_id}
use whatsapp.Waid.MediaId.{CompactError, MediaIdError, compact_jid, parse_compact_jid, parse_string}
use whatsapp.Waid.MediaId.{
  parse_compact_msg_id, read_compact, read_tail, make_media_id, parse_media_id,
}
use whatsapp.Waid.MediaId.{parse_message_media, parse_avatar_media, parse_media_type, type_message}

-- The value is no panic, whatever it is.
abbrev Calm : {E A : Type 0} → Outcome E A → Type 0
Calm (ok a) = Unit {0}
Calm (err e) = Unit {0}
Calm panic = ⊥

Calm-ne_panic : {E A : Type 0} (o : Outcome E A) → Calm o → o ≢ panic
Calm-ne_panic (ok a) c = λ e. cc
Calm-ne_panic (err x) c = λ e. cc
Calm-ne_panic panic c = absurd c

Calm-bind :
    {E A B : Type 0} (o : Outcome E A) (f : A → Outcome E B)
    → Calm o
    → ((a : A) → Calm (f a))
    → Calm (o >>= f)
Calm-bind (ok a) f c g = g a
Calm-bind (err e) f c g = tt
Calm-bind panic f c g = c

Calm-wrap_err : {E F A : Type 0} (w : E → F) (o : Outcome E A) → Calm o → Calm (wrap_err w o)
Calm-wrap_err w (ok a) c = tt
Calm-wrap_err w (err e) c = tt
Calm-wrap_err w panic c = c

Calm-read_tail :
    {A : Type 0} (rest : Str) (o : Outcome CompactError A) → Calm o → Calm (read_tail rest o)
unfolding read_tail
Calm-read_tail rest (ok a) c = tt
Calm-read_tail rest (err e) c = tt
Calm-read_tail rest panic c = c

Calm-read_compact :
    {A : Type 0} (fn : Str → Outcome CompactError A)
    → ((s : Str) → Calm (fn s))
    → (s : Str) → Calm (read_compact fn s)
unfolding read_compact
Calm-read_compact fn calm [] = tt
Calm-read_compact fn calm (len ∷ rest) = elim (Bool-cases (ltb (length rest + 1) (len + 1))) [
  | inl e ↦ rw e tt
  | inr e ↦ rw e (Calm-read_tail (drop len rest) (fn (take len rest)) (calm (take len rest)))
]

Calm-parse_compact_msg_id : (s : Str) → Calm (parse_compact_msg_id s)
unfolding parse_compact_msg_id
Calm-parse_compact_msg_id [] = tt
Calm-parse_compact_msg_id (kind ∷ id) = ground arith

Calm-parse_string : (s : Str) → Calm (parse_string s)
unfolding parse_string
Calm-parse_string s = tt

login_device : (receiver : Str) → (parse_user_login_id receiver 0).device ≡ 0
unfolding parse_user_login_id
login_device receiver = ground arith

module _ (api : JidApi) where
  Calm-parse_compact_jid : (s : Str) → Calm (parse_compact_jid api s)
  unfolding parse_compact_jid
  Calm-parse_compact_jid [] = tt
  Calm-parse_compact_jid (kind ∷ rest) = ground arith

  jid_part :
      (w : CompactError → MediaIdError) (s : Str)
      → Calm (wrap_err w (read_compact (parse_compact_jid api) s))
  jid_part w s = Calm-wrap_err w _ (Calm-read_compact _ Calm-parse_compact_jid s)

  Calm-parse_message_media : (s : Str) → Calm (parse_message_media api s)
  unfolding parse_message_media
  Calm-parse_message_media s =
      Calm-bind (wrap_err MediaIdError.chat_jid (read_compact (parse_compact_jid api) s)) _
        (jid_part _ s)
        λ (a, r). Calm-bind _ _ (jid_part _ r) λ (b, t). Calm-bind _ _ (jid_part _ t) λ (c, u).
          Calm-bind _ _ (Calm-wrap_err _ _ (Calm-read_compact _ Calm-parse_compact_msg_id u))
            λ _. tt

  Calm-parse_avatar_media : (community : Bool) (s : Str) → Calm (parse_avatar_media api community s)
  unfolding parse_avatar_media
  Calm-parse_avatar_media community s =
      Calm-bind (wrap_err MediaIdError.target_jid (read_compact (parse_compact_jid api) s)) _
        (jid_part _ s)
        λ (a, r).
          Calm-bind _ _ (Calm-wrap_err _ _ (Calm-read_compact _ Calm-parse_string r))
            λ (b, t). Calm-bind _ _ (jid_part _ t) λ _. tt

  Calm-parse_media_type : (kind : ℕ) (s : Str) → Calm (parse_media_type api kind s)
  unfolding parse_media_type
  Calm-parse_media_type kind s = ground (
    arith,
    Calm-parse_message_media s,
    Calm-parse_avatar_media true s,
    Calm-parse_avatar_media false s,
  )

  -- `ParseMediaID` panics on the empty ID and on no other.
  pub parse_media_id_panics : (s : Str) → (parse_media_id api s ≡ panic) ↔ (s ≡ [])
  unfolding parse_media_id
  parse_media_id_panics [] = (λ _. refl, λ _. refl)
  parse_media_id_panics (x ∷ s) = (λ e. absurd (Calm-ne_panic _ (calm x s) e), λ e. cc)
    where
      calm : (x : ℕ) (s : Str) → Calm (parse_media_id api (x ∷ s))
      calm x s = elim (Bool-cases (ltb 127 x)) [
        | inl e ↦ rw e (Calm-parse_media_type x s)
        | inr e ↦ rw e (Calm-parse_media_type 255 (x ∷ s))
      ]

  -- An ID whose first byte is at most 127 is read as the same ID behind the byte for messages.
  pub parse_media_id_legacy :
      (first : ℕ) (rest : Str)
      → first ≤ 127
      → parse_media_id api (first ∷ rest) ≡ parse_media_id api (type_message ∷ (first ∷ rest))
  unfolding parse_media_id
  parse_media_id_legacy first rest h = ground arith

  Calm-compact_jid : (j : Jid) → j.device ≡ 0 → Calm (compact_jid api j)
  unfolding compact_jid
  Calm-compact_jid j e = ground arith

  module _ (laws : IsJidApi api) where
    open laws use {to_non_ad_lem}

    -- `MakeMediaID` panics on no chat, sender, ID and login, those with a device included, if `ToNonAD`
    -- drops the device.
    pub make_media_id_calm :
        (info : ParsedMessageId) (id_override receiver : Str)
        → make_media_id api info id_override receiver ≢ panic
    unfolding make_media_id
    make_media_id_calm info id_override receiver = Calm-ne_panic _ (
        rw (to_non_ad_lem info.chat, to_non_ad_lem info.sender)
          (Calm-bind _ _ (Calm-compact_jid (non_ad info.chat) refl) λ c.
            Calm-bind _ _ (Calm-compact_jid (non_ad info.sender) refl)
              λ s. Calm-bind _ _ (Calm-compact_jid _ (login_device receiver)) λ l. tt))
