-- ===== src/Waid/MediaId.antt =====
-- pkg/waid/mediaid.go: media IDs, and the compact forms of JIDs and message IDs inside them. A
-- result `panic` stands for an index out of range.
pub mod Compact
pub mod RoundTrip
pub mod Panics
use whatsapp.Common.{
  ℕ, zero, suc, ◌+◌, ◌%◌, Bool, true, false, ◌&&◌, Option, none, some, List, [], ◌∷◌,
}
use whatsapp.Common.{◌++◌, Outcome, ok, err, panic, ◌>>=◌, wrap_err, if◌then◌else◌, ◌==◌, ltb, not}
use whatsapp.Common.{length, take, drop}
use whatsapp.Common.Text.{Str, str_eq}
use whatsapp.Waid.Jid.{Server, default_user, group, Jid, JidApi, server_eq}
use whatsapp.Waid.Id.{ParsedMessageId, parse_user_login_id, make_user_login_id}
use whatsapp.Waid.Decimal.{parse_uint, format_uint}
use whatsapp.Waid.Binary.{be_bytes, be_value, hex_encode, hex_decode, to_upper, is_upper_hex}

abbrev pub type_message : ℕ
type_message = 255

abbrev pub type_avatar : ℕ
type_avatar = 254

abbrev pub type_community_avatar : ℕ
type_community_avatar = 253

-- The first byte of a compact JID, and of a compact message ID.
abbrev pub jid_raw_string : ℕ
jid_raw_string = 0

abbrev pub jid_user_int : ℕ
jid_user_int = 1

abbrev pub jid_user_device : ℕ
jid_user_device = 2

abbrev pub jid_group_string : ℕ
jid_group_string = 3

abbrev pub msg_id_raw_string : ℕ
msg_id_raw_string = 0

abbrev pub msg_id_upper_hex : ℕ
msg_id_upper_hex = 1

pub data CompactError : Type 0 where
  no_length too_short : CompactError
  empty_jid_data bad_jid bad_user_length bad_device_length bad_jid_type : CompactError
  empty_msg_id bad_msg_id_type : CompactError

pub data MediaIdError : Type 0 where
  chat_jid sender_jid receiver_jid message_id target_jid avatar_id : CompactError → MediaIdError
  unknown_type : ℕ → MediaIdError

pub record AvatarMediaInfo : Type 0 where
  pub target_jid : Jid
  pub avatar_id : Str
  pub community : Bool

pub record ParsedMediaId : Type 0 where
  pub message : Option ParsedMessageId
  pub avatar : Option AvatarMediaInfo
  pub user_login : Str

-- `byte(len(s))` and the bytes: the low byte of the length stands first.
abbrev pub with_length : Str → Str
with_length s = (length s % 256) ∷ s

-- `compactMsgID`
decoded_or_raw : Str → Option Str → Str
decoded_or_raw id (some bytes) = msg_id_upper_hex ∷ bytes
decoded_or_raw id none = msg_id_raw_string ∷ id

unfoldable pub compact_msg_id : Str → Str
unfolding decoded_or_raw
compact_msg_id id =
    if is_upper_hex id && length id % 2 == 0
    then decoded_or_raw id (hex_decode id)
    else msg_id_raw_string ∷ id

unfoldable pub parse_compact_msg_id : Str → Outcome CompactError Str
parse_compact_msg_id [] = err CompactError.empty_msg_id
parse_compact_msg_id (kind ∷ id) =
    if kind == msg_id_raw_string
    then ok id
    else if kind == msg_id_upper_hex
    then ok (to_upper (hex_encode id))
    else err CompactError.bad_msg_id_type

unfoldable pub parse_string : Str → Outcome CompactError Str
parse_string bytes = ok bytes

-- `data[i] = b`, which panics where the index is not below the length.
set_index : {E : Type 0} → ℕ → ℕ → Str → Outcome E Str
set_index i b [] = panic
set_index zero b (a ∷ bytes) = ok (b ∷ bytes)
set_index (suc i) b (a ∷ bytes) = set_index i b bytes >>= λ rest. ok (a ∷ rest)

module _ (api : JidApi) where
  raw_jid : Jid → Outcome MediaIdError Str
  raw_jid jid = ok (jid_raw_string ∷ api.to_string jid)

  -- The numeric user, if there is one. With a device, the slice has one byte and room for ten more,
  -- the byte for the kind is written to index 1, and the user and the device are appended.
  user_int : Jid → Option ℕ → Outcome MediaIdError Str
  unfolding raw_jid set_index
  user_int jid none = raw_jid jid
  user_int jid (some n) =
      if jid.device == 0
      then ok (jid_user_int ∷ be_bytes 8 n)
      else (set_index 1 jid_user_device (0 ∷ []) >>= λ bytes.
          ok (bytes ++ (be_bytes 8 n ++ be_bytes 2 jid.device)))

  -- `compactJID`
  unfoldable pub compact_jid : Jid → Outcome MediaIdError Str
  unfolding user_int raw_jid
  compact_jid jid =
      if server_eq jid.server default_user
      then user_int jid (parse_uint jid.user)
      else if server_eq jid.server group
      then ok (jid_group_string ∷ jid.user)
      else raw_jid jid

  or_bad_jid : Option Jid → Outcome CompactError Jid
  or_bad_jid none = err CompactError.bad_jid
  or_bad_jid (some jid) = ok jid

  -- `parseCompactJID`; the lengths count the first byte too.
  unfoldable pub parse_compact_jid : Str → Outcome CompactError Jid
  unfolding or_bad_jid
  parse_compact_jid [] = err CompactError.empty_jid_data
  parse_compact_jid (kind ∷ rest) =
      if kind == jid_raw_string
      then or_bad_jid (api.parse_jid rest)
      else if kind == jid_user_int
      then (if not (length rest + 1 == 9)
          then err CompactError.bad_user_length
          else ok (record {
            user = format_uint (be_value 0 (take 8 rest));
            server = default_user;
            device = 0;
          }))
      else if kind == jid_user_device
      then (if not (length rest + 1 == 11)
          then err CompactError.bad_device_length
          else ok (record {
            user = format_uint (be_value 0 (take 8 rest));
            server = default_user;
            device = be_value 0 (take 2 (drop 8 rest));
          }))
      else if kind == jid_group_string
      then ok (record { user = rest; server = group; device = 0 })
      else err CompactError.bad_jid_type

  -- `MakeMediaID` of a message's chat, sender and ID.
  unfoldable pub make_media_id : ParsedMessageId → Str → Str → Outcome MediaIdError Str
  make_media_id info id_override receiver = do
    chat ← compact_jid (api.to_non_ad info.chat)
    sender ← compact_jid (api.to_non_ad info.sender)
    login ← compact_jid (parse_user_login_id receiver 0)
    let id = compact_msg_id (if not (str_eq id_override []) then id_override else info.id)
    ok (
        type_message
        ∷ (with_length chat ++ (with_length sender ++ (with_length login ++ with_length id))))

  -- `MakeAvatarMediaID`
  unfoldable pub make_avatar_media_id : Jid → Str → Str → Bool → Outcome MediaIdError Str
  make_avatar_media_id target id receiver community = do
    compact_target ← compact_jid (api.to_non_ad target)
    login ← compact_jid (parse_user_login_id receiver 0)
    ok (
        (if community then type_community_avatar else type_avatar)
        ∷ (with_length compact_target ++ (with_length id ++ with_length login)))

-- `readCompact`: the value that `fn` reads, and the bytes that follow it.
read_tail : {A : Type 0} → Str → Outcome CompactError A → Outcome CompactError (A × Str)
read_tail rest (ok a) = ok (a, rest)
read_tail rest (err e) = err e
read_tail rest panic = panic

unfoldable pub read_compact :
    {A : Type 0} → (Str → Outcome CompactError A) → Str → Outcome CompactError (A × Str)
unfolding read_tail
read_compact fn [] = err CompactError.no_length
read_compact fn (len ∷ rest) =
    if ltb (length rest + 1) (len + 1)
    then err CompactError.too_short
    else read_tail (drop len rest) (fn (take len rest))

module _ (api : JidApi) where
  parse_message_media : Str → Outcome MediaIdError ParsedMediaId
  parse_message_media bytes = do
    (chat, rest) ← wrap_err MediaIdError.chat_jid (read_compact (parse_compact_jid api) bytes)
    (sender, rest) ← wrap_err MediaIdError.sender_jid (read_compact (parse_compact_jid api) rest)
    (login, rest) ← wrap_err MediaIdError.receiver_jid (read_compact (parse_compact_jid api) rest)
    (id, rest) ← wrap_err MediaIdError.message_id (read_compact parse_compact_msg_id rest)
    ok (record {
      message = some (record { chat = chat; sender = sender; id = id });
      avatar = none;
      user_login = make_user_login_id login;
    })

  parse_avatar_media : Bool → Str → Outcome MediaIdError ParsedMediaId
  parse_avatar_media community bytes = do
    (target, rest) ← wrap_err MediaIdError.target_jid (read_compact (parse_compact_jid api) bytes)
    (avatar, rest) ← wrap_err MediaIdError.avatar_id (read_compact parse_string rest)
    (login, rest) ← wrap_err MediaIdError.receiver_jid (read_compact (parse_compact_jid api) rest)
    ok (record {
      message = none;
      avatar = some (record { target_jid = target; avatar_id = avatar; community = community });
      user_login = make_user_login_id login;
    })

  parse_media_type : ℕ → Str → Outcome MediaIdError ParsedMediaId
  unfolding parse_message_media parse_avatar_media
  parse_media_type kind bytes =
      if kind == type_message
      then parse_message_media bytes
      else if kind == type_avatar
      then parse_avatar_media false bytes
      else if kind == type_community_avatar
      then parse_avatar_media true bytes
      else err (MediaIdError.unknown_type kind)

  -- `ParseMediaID`: an ID with no type byte is an old message ID; an empty one panics.
  unfoldable pub parse_media_id : Str → Outcome MediaIdError ParsedMediaId
  unfolding parse_media_type
  parse_media_id [] = panic
  parse_media_id (first ∷ rest) =
      if ltb 127 first
      then parse_media_type first rest
      else parse_media_type type_message (first ∷ rest)
