-- ===== src/Connector/Send/Avatar.antt =====
-- `convertRoomAvatar` of pkg/connector/handlematrix.go, on what is decoded of the image.
pub mod Crop
use whatsapp.Common.{
  ℕ, ◌-◌, ◌*◌, ◌/◌, Bool, true, false, ◌&&◌, ◌||◌, not, Option, none, some, if◌then◌else◌, ltb,
  ◌==◌,
}

abbrev pub avatar_max_size : ℕ
avatar_max_size = 720

abbrev pub avatar_min_size : ℕ
avatar_min_size = 190

-- The two built-ins of Go.
abbrev pub max : ℕ → ℕ → ℕ
max a b = if ltb a b then b else a

abbrev pub min : ℕ → ℕ → ℕ
min a b = if ltb b a then b else a

-- `image.Rectangle`
pub record Rectangle : Type 0 where
  pub left : ℕ
  pub top : ℕ
  pub right : ℕ
  pub bottom : ℕ

-- What becomes of an avatar: it is sent as it is, it is too large, it is encoded anew, or a part of
-- it is scaled to a square with this side.
pub data Conversion : Type 0 where
  as_it_is too_large encoded_anew : Conversion
  cropped : Rectangle → ℕ → Conversion

abbrev pub is_correct_size : ℕ → ℕ → Bool
is_correct_size width height =
    width == height && (ltb avatar_min_size width && ltb width avatar_max_size)

unfoldable pub square_crop : ℕ → ℕ → Rectangle
square_crop width height =
    if ltb height width
    then (let offset = (width - height) / 2 in
        record { left = offset; top = 0; right = width - offset; bottom = height })
    else (let offset = (height - width) / 2 in
        record { left = 0; top = offset; right = width; bottom = height - offset })

unfoldable pub destination_size : ℕ → ℕ → ℕ
destination_size width height =
    max avatar_min_size (min (if ltb height width then height else width) avatar_max_size)

-- The width, the height, whether the type is `jpeg`, and the number of bytes.
unfoldable pub convert_room_avatar : ℕ → ℕ → Bool → ℕ → Conversion
convert_room_avatar width height is_jpeg size =
    if is_correct_size width height && is_jpeg
    then as_it_is
    else if ltb (10 * (1024 * 1024)) size || (ltb 12000 width || ltb 12000 height)
    then too_large
    else if is_correct_size width height
    then encoded_anew
    else cropped (square_crop width height) (destination_size width height)
