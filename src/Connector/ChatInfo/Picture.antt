-- ===== src/Connector/ChatInfo/Picture.antt =====
-- pkg/connector/chatinfo.go: the avatar of a portal (`makePortalAvatarFetcher`), up to the upload.
use whatsapp.Common.{Bool, true, ◌&&◌, ◌||◌, not, Option, none, some, [], if◌then◌else◌}
use whatsapp.Common.Text.{Str, codes, str_eq}
use whatsapp.Connector.ChatInfo.{Avatar}

-- What `GetProfilePictureInfo` answers: one of its two errors, another error, nothing for a picture
-- that has not changed, or the ID of a picture.
pub data PictureAnswer : Type 0 where
  picture_not_set picture_unauthorized picture_failed picture_unchanged : PictureAnswer
  picture : Str → PictureAnswer

abbrev pub is_placeholder : Str → Bool
is_placeholder id = str_eq id (codes "remove") || str_eq id (codes "unauthorized")

-- The avatar of an answer; `wrap` makes that of a picture, which may fail with direct media.
answered : (Str → Option Avatar) → PictureAnswer → Option Avatar
answered wrap picture_not_set = some (record { avatar_id = codes "remove"; remove = true })
answered wrap picture_unauthorized =
    some (record { avatar_id = codes "unauthorized"; remove = true })
answered wrap picture_failed = none
answered wrap picture_unchanged = none
answered wrap (picture id) = wrap id

-- The avatar that the portal is updated with, if any: the ID of the event, and that of the portal.
-- `get` answers for the ID that the portal has.
unfoldable pub portal_avatar :
    (Str → Option Avatar) → (Str → PictureAnswer) → Str → Str → Option Avatar
unfolding answered
portal_avatar wrap get avatar_id existing_id =
    if not (str_eq avatar_id []) && str_eq avatar_id existing_id
    then none
    else answered wrap (get (if is_placeholder existing_id then [] else existing_id))
