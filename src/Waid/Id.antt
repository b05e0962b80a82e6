-- ===== src/Waid/Id.antt =====
-- pkg/waid/id.go: portal, user, login and message IDs.
pub mod RoundTrip
use whatsapp.Common.{ℕ, Bool, true, false, ◌||◌, Option, none, some, List, [], ◌∷◌, ◌++◌}
use whatsapp.Common.{Outcome, ok, err, ◌>>=◌, if◌then◌else◌}
use whatsapp.Common.Text.{Str, codes, str_eq, has_prefix, trim_prefix, split_n}
use whatsapp.Waid.Jid.{Server, Jid, JidApi, default_user, hidden_user, bot, empty_jid, server_eq}

-- The errors that the functions of the file return; `bad_jid` is that of `types.ParseJID`.
pub data IdError : Type 0 where
  invalid_portal_id bad_jid fake_message_id invalid_message_id : IdError

abbrev pub lid_prefix : Str
lid_prefix = codes "lid-"

abbrev pub bot_prefix : Str
bot_prefix = codes "bot-"

abbrev pub colon : ℕ
colon = b':'

-- `MakeUserID`, by the server.
abbrev user_id_on : Server → Str → Str
user_id_on default_user user = user
user_id_on bot user = bot_prefix ++ user
user_id_on hidden_user user = lid_prefix ++ user
user_id_on _ user = []

unfoldable pub make_user_id : Jid → Str
make_user_id j = user_id_on j.server j.user

-- `none` stands for an error of the library.
abbrev or_err : IdError → Option Jid → Outcome IdError Jid
or_err e none = err e
or_err e (some j) = ok j

pub record ParsedMessageId : Type 0 where
  pub chat : Jid
  pub sender : Jid
  pub id : Str

module _ (api : JidApi) where
  open api use {new_jid, to_non_ad, to_string, parse_jid}

  unfoldable pub make_portal_id : Jid → Str
  make_portal_id jid = to_string (to_non_ad jid)

  unfoldable pub parse_portal_id : Str → Outcome IdError Jid
  parse_portal_id portal = or_err IdError.invalid_portal_id (parse_jid portal)

  unfoldable pub parse_user_id : Str → Jid
  parse_user_id user =
      if has_prefix lid_prefix user
      then new_jid (trim_prefix lid_prefix user) hidden_user
      else if has_prefix bot_prefix user
      then new_jid (trim_prefix bot_prefix user) bot
      else new_jid user default_user

  unfoldable pub make_message_id : Jid → Jid → Str → Str
  make_message_id chat sender id =
      to_string (to_non_ad chat) ++ (colon ∷ (to_string (to_non_ad sender) ++ (colon ∷ id)))

  unfoldable pub make_fake_message_id : Jid → Jid → Str → Str
  make_fake_message_id chat sender text =
      codes "fake:"
      ++ (to_string (to_non_ad chat) ++ (colon ∷ (to_string (to_non_ad sender) ++ (colon ∷ text))))

  -- `(*ParsedMessageID).String`
  unfoldable pub message_id_string : ParsedMessageId → Str
  unfolding make_message_id
  message_id_string pmi = make_message_id pmi.chat pmi.sender pmi.id

  parse_parts : List Str → Outcome IdError ParsedMessageId
  parse_parts (chat_text ∷ (sender_text ∷ (id ∷ []))) =
      if str_eq chat_text (codes "fake") || has_prefix (codes "FAKE::") id
      then err IdError.fake_message_id
      else do
        chat ← or_err IdError.bad_jid (parse_jid chat_text)
        sender ← or_err IdError.bad_jid (parse_jid sender_text)
        ok (record { chat = chat; sender = sender; id = id })
  parse_parts _ = err IdError.invalid_message_id

  unfoldable pub parse_message_id : Str → Outcome IdError ParsedMessageId
  unfolding parse_parts
  parse_message_id message_id = parse_parts (split_n colon 3 message_id)

unfoldable pub make_user_login_id : Jid → Str
make_user_login_id j = if server_eq j.server default_user then j.user else []

unfoldable pub parse_user_login_id : Str → ℕ → Jid
parse_user_login_id user device_id =
    if str_eq user []
    then empty_jid
    else record { user = user; server = default_user; device = device_id }
