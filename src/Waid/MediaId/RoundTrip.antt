-- ===== src/Waid/MediaId/RoundTrip.antt =====
-- pkg/waid/mediaid.go: reading a media ID that was made.
use whatsapp.Common.{◌<◌, ◌≡◌, refl, Bool, true, false, not, none, some}
use whatsapp.Common.{[], ◌∷◌, ◌++◌, length, ok, if◌then◌else◌, ◌>>=◌}
use whatsapp.Common.Text.{Str, str_eq}
use whatsapp.Waid.Jid.{Jid, JidApi, IsJidApi, non_ad}
use whatsapp.Waid.Id.{ParsedMessageId, parse_user_login_id, make_user_login_id}
use whatsapp.Waid.Id.RoundTrip.{make_user_login_id-parse_user_login_id}
use whatsapp.Waid.MediaId.{with_length}
use whatsapp.Waid.MediaId.{make_media_id, make_avatar_media_id, parse_media_id, parse_string}
use whatsapp.Waid.MediaId.{
  parse_message_media, parse_avatar_media, compact_msg_id, type_avatar, type_community_avatar,
}
use whatsapp.Waid.MediaId.Compact.{
  IsCompact, IsFormOf, compact_form, read_compact-with_length, read_compact_last,
}
use whatsapp.Waid.MediaId.Compact.{parse_compact_msg_id-compact_msg_id, length-compact_msg_id}

-- The message ID that goes into a media ID.
abbrev pub chosen_id : Str → Str → Str
chosen_id id_override id = if not (str_eq id_override []) then id_override else id

module _ (api : JidApi) where
  parse_parts :
      (chat sender login : Jid) (c s l id : Str)
      → IsFormOf api chat c
      → IsFormOf api sender s
      → IsFormOf api login l
      → length id < 255
      → parse_message_media api
          (with_length c ++ (with_length s ++ (with_length l ++ with_length (compact_msg_id id))))
        ≡ ok (record {
          message = some (record { chat = chat; sender = sender; id = id });
          avatar = none;
          user_login = make_user_login_id login;
        })
  unfolding parse_message_media
  parse_parts chat sender login c s l id fc fs fl short =
      rw (read_compact-with_length _ c _ chat fc.fits fc.read) (
        rw (read_compact-with_length _ s _ sender fs.fits fs.read) (
          rw (
            read_compact-with_length _ l _ login fl.fits fl.read,
            read_compact_last _ _ id (length-compact_msg_id id short)
                (parse_compact_msg_id-compact_msg_id id),
          )))

  parse_avatar_parts :
      (community : Bool) (target login : Jid) (t l id : Str)
      → IsFormOf api target t
      → IsFormOf api login l
      → length id < 256
      → parse_avatar_media api community (with_length t ++ (with_length id ++ with_length l))
        ≡ ok (record {
          message = none;
          avatar = some (record { target_jid = target; avatar_id = id; community = community });
          user_login = make_user_login_id login;
        })
  unfolding parse_avatar_media
  parse_avatar_parts community target login t l id ft fl short =
      rw (read_compact-with_length _ t _ target ft.fits ft.read) (
        rw (
          read_compact-with_length parse_string id _ id short (unfold parse_string in refl),
          read_compact_last _ l login fl.fits fl.read,
        ))

  -- The type byte of an avatar ID says whether the avatar is a community's.
  avatar_typed :
      (community : Bool) (rest : Str)
      → parse_media_id api ((if community then type_community_avatar else type_avatar) ∷ rest)
        ≡ parse_avatar_media api community rest
  unfolding parse_media_id
  avatar_typed true rest = refl
  avatar_typed false rest = refl

  module _ (laws : IsJidApi api) where
    open laws use {to_non_ad_lem}

    -- `ParseMediaID` reads back the chat, sender, message ID and login of a message's media ID, for
    -- addresses with a compact form and a message ID shorter than 255 bytes.
    pub parse_media_id-make_media_id :
        (info : ParsedMessageId) (id_override receiver : Str)
        → IsCompact api (non_ad info.chat)
        → IsCompact api (non_ad info.sender)
        → IsCompact api (parse_user_login_id receiver 0)
        → length (chosen_id id_override info.id) < 255
        → (make_media_id api info id_override receiver >>= parse_media_id api)
          ≡ ok (record {
            message = some (record {
              chat = non_ad info.chat;
              sender = non_ad info.sender;
              id = chosen_id id_override info.id;
            });
            avatar = none;
            user_login = receiver;
          })
    unfolding make_media_id parse_media_id
    parse_media_id-make_media_id info id_override receiver cc cs cl short =
        let (c, fc) = compact_form api _ cc in
        let (s, fs) = compact_form api _ cs in
        let (l, fl) = compact_form api _ cl in
        rw (to_non_ad_lem info.chat, to_non_ad_lem info.sender)
          (rw (fc.written, fs.written, fl.written)
            (rw (parse_parts _ _ _ c s l _ fc fs fl short)
              (rw (make_user_login_id-parse_user_login_id receiver 0))))

    -- `ParseMediaID` reads back the target, avatar ID, kind and login of an avatar's media ID, for
    -- addresses with a compact form and an avatar ID shorter than 256 bytes.
    pub parse_media_id-make_avatar_media_id :
        (target : Jid) (id receiver : Str) (community : Bool)
        → IsCompact api (non_ad target)
        → IsCompact api (parse_user_login_id receiver 0)
        → length id < 256
        → (make_avatar_media_id api target id receiver community >>= parse_media_id api)
          ≡ ok (record {
            message = none;
            avatar =
                some (record { target_jid = non_ad target; avatar_id = id; community = community });
            user_login = receiver;
          })
    unfolding make_avatar_media_id
    parse_media_id-make_avatar_media_id target id receiver community ct cl short =
        let (t, ft) = compact_form api _ ct in
        let (l, fl) = compact_form api _ cl in
        rw (to_non_ad_lem target, ft.written, fl.written)
          (rw (avatar_typed community _, parse_avatar_parts community _ _ t l id ft fl short)
            (rw (make_user_login_id-parse_user_login_id receiver 0)))
