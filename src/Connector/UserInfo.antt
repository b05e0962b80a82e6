-- ===== src/Connector/UserInfo.antt =====
-- pkg/connector/userinfo.go: what the bridge tells its framework about a user.
pub mod Names
pub mod Queue
mod Tests
use whatsapp.Common.{
  ℕ, zero, suc, ◌+◌, ◌-◌, ◌*◌, ◌^◌, Bool, true, false, ◌&&◌, ◌||◌, not, Option, none,
}
use whatsapp.Common.{some, List, [], ◌∷◌, ◌++◌, if◌then◌else◌, ltb, leb, ◌==◌}
use whatsapp.Common.Text.{Str, codes, str_eq, has_prefix}
use whatsapp.Waid.Jid.{Server, default_user, hidden_user, bot, Jid, JidApi, jid_eq, server_eq}
use whatsapp.Waid.Id.{make_user_id}
use whatsapp.Connector.ChatInfo.{Avatar}
use whatsapp.Connector.ChatInfo.Picture.{PictureAnswer, portal_avatar}

-- `types.ContactInfo`
pub record Contact : Type 0 where
  pub first_name : Str
  pub full_name : Str
  pub push_name : Str
  pub business_name : Str

-- The addresses with names of their own: `types.MetaAIJID`, `LegacyPSAJID`, `PSAJID`.
pub record NamedJids : Type 0 where
  pub meta_ai : Jid
  pub legacy_psa : Jid
  pub psa : Jid

-- The store: `GetAltJID` and `GetContact`, `none` for an error.
pub record ContactStore : Type 0 where
  pub get_alt_jid : Jid → Option Jid
  pub get_contact : Jid → Option Contact

-- `bridgev2.UserInfo`, with the last flag for the fetching of the avatar.
pub record UserInfo : Type 0 where
  pub name : Str
  pub is_bot : Bool
  pub identifiers : Option (List Str)
  pub fetches_avatar : Bool

named_contact : NamedJids → Jid → Contact → Contact
named_contact names jid c =
    if jid_eq jid names.meta_ai && str_eq c.push_name jid.user
    then record c { push_name = codes "Meta AI" }
    else if jid_eq jid names.legacy_psa || jid_eq jid names.psa
    then record c { push_name = codes "WhatsApp" }
    else c

abbrev pub filled : Str → Str → Str
filled own other = if str_eq own [] then other else own

-- The name of a user that has one under each address: the one of the phone number.
abbrev pub agreed : Bool → Str → Str → Str
agreed alt_is_phone own other =
    if not (str_eq own []) && not (str_eq other []) && not (str_eq own other) && alt_is_phone
    then other
    else own

-- The contact with what the one of the other address adds.
unfoldable pub merged_contact : Bool → Contact → Contact → Contact
merged_contact alt_is_phone c extra = record {
  first_name = if alt_is_phone then filled c.first_name extra.first_name else c.first_name;
  full_name = if alt_is_phone then filled c.full_name extra.full_name else c.full_name;
  push_name = agreed alt_is_phone (filled c.push_name extra.push_name) extra.push_name;
  business_name =
      agreed alt_is_phone (filled c.business_name extra.business_name) extra.business_name;
}

abbrev pub is_phone : Server → Bool
is_phone s = server_eq s default_user

merged_with : Bool → Contact → Option Contact → Contact
unfolding merged_contact
merged_with alt_is_phone c none = c
merged_with alt_is_phone c (some extra) = merged_contact alt_is_phone c extra

module _ (api : JidApi) (store : ContactStore) where
  -- `altJID`, where there is one.
  alt_jid : Jid → Option Jid
  alt_jid jid =
      if is_phone jid.server || server_eq jid.server hidden_user
      then store.get_alt_jid jid
      else none

  merged_by : Contact → Option Jid → Contact
  unfolding merged_with
  merged_by c none = c
  merged_by c (some alt) =
      if api.is_empty alt then c else merged_with (is_phone alt.server) c (store.get_contact alt)

  -- The contact that the name is made of.
  unfoldable pub contact_for : NamedJids → Jid → Contact → Contact
  unfolding named_contact alt_jid merged_by
  contact_for names jid c = merged_by (named_contact names jid c) (alt_jid jid)

  phone_of_alt : Option Jid → Str
  phone_of_alt none = []
  phone_of_alt (some alt) = if is_phone alt.server then codes "+" ++ alt.user else []

  unfoldable pub phone_for : Jid → Str
  unfolding alt_jid phone_of_alt
  phone_for jid = if is_phone jid.server then codes "+" ++ jid.user else phone_of_alt (alt_jid jid)

  identifiers_of : Server → Str → Option (List Str)
  identifiers_of server phone =
      if server_eq server bot
      then some []
      else if str_eq phone []
      then none
      else some ((codes "tel:" ++ phone) ∷ [])

  -- `contactToUserInfo`; the display name is made by the configuration's template, and `is_bot` is
  -- `JID.IsBot`.
  unfoldable pub contact_to_user_info :
      (Jid → Str → Contact → Str) → (Jid → Bool) → NamedJids → Jid → Contact → Bool → UserInfo
  unfolding contact_for phone_for identifiers_of
  contact_to_user_info format_displayname is_bot names jid c get_avatar = record {
    name = format_displayname jid (phone_for jid) (contact_for names jid c);
    is_bot = is_bot jid;
    identifiers = identifiers_of jid.server (phone_for jid);
    fetches_avatar = get_avatar;
  }

-- `fetchGhostAvatar`, up to the update: the same as a portal's, with no ID from an event.
unfoldable pub fetch_ghost_avatar :
    (Str → Option Avatar) → (Str → PictureAnswer) → Str → Option Avatar
unfolding portal_avatar
fetch_ghost_avatar wrap get existing_id = portal_avatar wrap get [] existing_id

abbrev hex_digit : ℕ → Option ℕ
hex_digit a =
    if leb 48 a && leb a 57
    then some (a - 48)
    else if leb 65 a && leb a 70
    then some (a - 55)
    else if leb 97 a && leb a 102
    then some (a - 87)
    else none

-- The number that hexadecimal digits write from here on, up to the first other byte.
hex_from : ℕ → Str → ℕ
hex_from n [] = n
hex_from n (a ∷ s) = elim (hex_digit a) [ none ↦ n | some d ↦ hex_from (n * 16 + d) s ]

-- The first match of `expiryRegex`: after `oe=`, with one digit or more.
digits_after : Str → Option ℕ
unfolding hex_from
digits_after (o ∷ e ∷ q ∷ a ∷ s) =
    if o == b'o' && (e == b'e' && q == b'=')
    then elim (hex_digit a) [ none ↦ none | some d ↦ some (hex_from d s) ]
    else none
digits_after _ = none

abbrev first_of : Option ℕ → Option ℕ → Option ℕ
first_of (some n) o = some n
first_of none o = o

find_expiry : Str → Option ℕ
unfolding digits_after
find_expiry [] = none
find_expiry (a ∷ s) = first_of (digits_after (a ∷ s)) (find_expiry s)

-- The expiry in `avatarInfoToCacheEntry`: a number that fits into 63 bits, or else a day from now.
unfoldable pub avatar_expiry : ℕ → Str → ℕ
unfolding find_expiry
avatar_expiry now direct_path = elim (find_expiry direct_path) [
  | none ↦ now + 24 * 3600
  | some n ↦ if ltb n (2 ^ 63) then n else now + 24 * 3600
]
