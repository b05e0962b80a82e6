-- ===== src/Waid/Id/RoundTrip.antt =====
-- pkg/waid/id.go: reading IDs that were made, for each kind of ID.
use whatsapp.Common.{panic, Option, none, List}
use whatsapp.Waid.Id.{or_err, parse_parts}
use whatsapp.Common.{ℕ, ◌≡◌, refl, ◌≢◌, true, false, some, [], ◌∷◌, ◌++◌, All}
use whatsapp.Common.{ok, err, arith, Bool-cases, inl, inr, drop, length}
use whatsapp.Common.Text.{Str, codes, str_eq, has_prefix, split_n}
use whatsapp.Common.Text.{cut-append, str_eq→eq}
use whatsapp.Waid.Jid.{Server, Jid, JidApi, IsJidApi, default_user, hidden_user, bot, non_ad}
use whatsapp.Waid.Id.{IdError, lid_prefix, bot_prefix, colon, make_user_id, parse_user_id}
use whatsapp.Waid.Id.{make_message_id, make_fake_message_id, parse_message_id}
use whatsapp.Waid.Id.{make_user_login_id, parse_user_login_id}
use whatsapp.Waid.Id.{make_portal_id, parse_portal_id}

-- The users that have an ID: on one of three servers, and not named like another server's.
abbrev pub HasUserId : Server → Str → Type 0
HasUserId default_user user =
    (has_prefix lid_prefix user ≡ false) × (has_prefix bot_prefix user ≡ false)
HasUserId hidden_user user = Unit
HasUserId bot user = Unit
HasUserId _ user = ⊥

module _ (api : JidApi) (laws : IsJidApi api) where
  open laws use {new_jid_lem, to_non_ad_lem}

  parse_user_id_on :
      (server : Server) (user : Str) (device : ℕ)
      → HasUserId server user
      → parse_user_id api (make_user_id (record { user = user; server = server; device = device }))
        ≡ record { user = user; server = server; device = 0 }
  unfolding parse_user_id make_user_id
  parse_user_id_on default_user user device h = ground (arith, new_jid_lem user default_user)
  parse_user_id_on hidden_user user device h = new_jid_lem user hidden_user
  parse_user_id_on bot user device h = new_jid_lem user bot
  parse_user_id_on _ user device h = absurd h

  -- `ParseUserID` reads back the address that `MakeUserID` was given, without its device, for a
  -- server and a user that have a user ID.
  pub parse_user_id-make_user_id :
      (j : Jid) → HasUserId j.server j.user → parse_user_id api (make_user_id j) ≡ non_ad j
  parse_user_id-make_user_id j h = parse_user_id_on j.server j.user j.device h

-- A text that starts with a prefix is the prefix and the rest.
prefix_rest : (p s : Str) → has_prefix p s ≡ true → p ++ drop (length p) s ≡ s
prefix_rest [] s h = refl
prefix_rest (a ∷ p) [] h = cc
prefix_rest (a ∷ p) (b ∷ s) h = ground (arith, prefix_rest p s)

module _ (api : JidApi) (laws : IsJidApi api) where
  open laws use {new_jid_lem}

  -- Every text is a user ID that `ParseUserID` reads without loss.
  pub make_user_id-parse_user_id : (u : Str) → make_user_id (parse_user_id api u) ≡ u
  unfolding make_user_id parse_user_id
  make_user_id-parse_user_id u = elim (Bool-cases (has_prefix lid_prefix u)) [
    | inl l ↦ rw (l, new_jid_lem _ hidden_user) (prefix_rest lid_prefix u l)
    | inr l ↦ elim (Bool-cases (has_prefix bot_prefix u)) [
      | inl b ↦ rw (l, b, new_jid_lem _ bot) (prefix_rest bot_prefix u b)
      | inr b ↦ rw (l, b, new_jid_lem _ default_user)
    ]
  ]

-- `ParseUserLoginID` reads back the address on the default server that `MakeUserLoginID` was
-- given, with the device that comes beside the ID.
pub parse_user_login_id-make_user_login_id :
    (j : Jid) (device_id : ℕ)
    → j.server ≡ default_user
    → j.user ≢ []
    → parse_user_login_id (make_user_login_id j) device_id ≡ record j { device = device_id }
unfolding parse_user_login_id make_user_login_id
parse_user_login_id-make_user_login_id j d e n = ground (arith, str_eq→eq j.user [])

pub make_user_login_id-parse_user_login_id :
    (u : Str) (d : ℕ) → make_user_login_id (parse_user_login_id u d) ≡ u
unfolding parse_user_login_id make_user_login_id
make_user_login_id-parse_user_login_id u d = ground (arith, str_eq→eq u [])

-- What the round trips of portal and message IDs need of a JID: its text is read back.
pub record IsReadable (api : JidApi) (j : Jid) : Type 0 where
  pub parses : api.parse_jid (api.to_string (api.to_non_ad j)) ≡ some (non_ad j)
  pub no_colon : All (λ c. c ≢ colon) (api.to_string (api.to_non_ad j))

module _ (api : JidApi) where
  -- `ParsePortalID` reads back the chat that `MakePortalID` was given, without its device, if
  -- whatsmeow reads the address that it prints.
  pub parse_portal_id-make_portal_id :
      (j : Jid) → IsReadable api j → parse_portal_id api (make_portal_id api j) ≡ ok (non_ad j)
  unfolding parse_portal_id make_portal_id
  parse_portal_id-make_portal_id j r = rw r.parses

  -- Three fields with no colon in the first two are split back.
  split_three :
      (a b c : Str)
      → All (λ x. x ≢ colon) a
      → All (λ x. x ≢ colon) b
      → split_n colon 3 (a ++ (colon ∷ (b ++ (colon ∷ c)))) ≡ a ∷ b ∷ c ∷ []
  split_three a b c ha hb = rw (cut-append colon a (b ++ (colon ∷ c)) ha, cut-append colon b c hb)

  -- The split of a fake ID starts with `fake`.
  split_fake :
      (b c : Str)
      → All (λ x. x ≢ colon) b
      → split_n colon 3 (codes "fake:" ++ (b ++ (colon ∷ c))) ≡ codes "fake" ∷ b ∷ c ∷ []
  split_fake b c hb = rw (cut-append colon b c hb)

  -- `ParseMessageID` reads back the chat, the sender and the ID that `MakeMessageID` was given,
  -- the devices left out, if whatsmeow reads the addresses that it prints, the chat does not
  -- print as `fake`, and the ID does not start with `FAKE::`.
  pub parse_message_id-make_message_id :
      (chat sender : Jid) (id : Str)
      → IsReadable api chat
      → IsReadable api sender
      → str_eq (api.to_string (api.to_non_ad chat)) (codes "fake") ≡ false
      → has_prefix (codes "FAKE::") id ≡ false
      → parse_message_id api (make_message_id api chat sender id)
        ≡ ok (record { chat = non_ad chat; sender = non_ad sender; id = id })
  unfolding parse_message_id make_message_id
  parse_message_id-make_message_id chat sender id rc rs not_fake no_mark =
      rw (split_three _ _ id rc.no_colon rs.no_colon, not_fake, no_mark, rc.parses, rs.parses)

  -- An ID that `MakeFakeMessageID` made for a chat that prints without colons is refused as fake.
  pub parse_message_id-make_fake_message_id :
      (chat sender : Jid) (text : Str)
      → All (λ c. c ≢ colon) (api.to_string (api.to_non_ad chat))
      → parse_message_id api (make_fake_message_id api chat sender text)
        ≡ err IdError.fake_message_id
  unfolding parse_message_id make_fake_message_id
  parse_message_id-make_fake_message_id chat sender text h = rw (split_fake _ _ h)

or_err_calm : (e : IdError) (o : Option Jid) → or_err e o ≢ panic
or_err_calm e none h = cc
or_err_calm e (some j) h = cc

parse_parts_calm : (api : JidApi) (parts : List Str) → parse_parts api parts ≢ panic
unfolding parse_parts
parse_parts_calm api [] h = cc
parse_parts_calm api (a ∷ []) h = cc
parse_parts_calm api (a ∷ (b ∷ [])) h = cc
parse_parts_calm api (a ∷ (b ∷ (c ∷ []))) h = ground arith
parse_parts_calm api (a ∷ (b ∷ (c ∷ (d ∷ ps)))) h = cc

-- Parsing a message ID does not panic.
pub parse_message_id_calm : (api : JidApi) (s : Str) → parse_message_id api s ≢ panic
unfolding parse_message_id
parse_message_id_calm api s h = parse_parts_calm api (split_n colon 3 s) h
