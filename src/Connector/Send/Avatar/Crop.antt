-- ===== src/Connector/Send/Avatar/Crop.antt =====
-- `convertRoomAvatar` of pkg/connector/handlematrix.go: the part of an avatar that is kept.
use whatsapp.Common.{ℕ, ◌+◌, ◌-◌, ◌%◌, ◌≤◌, ◌<◌, ◌≡◌, ◌↔◌, arith, Bool, true}
use whatsapp.Connector.Send.Avatar.{
  Rectangle, cropped, as_it_is, square_crop, destination_size, convert_room_avatar, min,
}

-- The width and the height of a rectangle.
abbrev pub width_of : Rectangle → ℕ
width_of r = r.right - r.left

abbrev pub height_of : Rectangle → ℕ
height_of r = r.bottom - r.top

-- The kept part of an avatar lies inside the image and has its shorter side in full; it is a square
-- if the sides of the image differ by an even number, and has at most one row or column more if not.
pub square_crop_bounds :
    (width height : ℕ)
    → ((square_crop width height).left ≤ (square_crop width height).right)
      × ((square_crop width height).right ≤ width)
      × ((square_crop width height).top ≤ (square_crop width height).bottom)
      × ((square_crop width height).bottom ≤ height)
      × (min width height ≤ width_of (square_crop width height))
      × (min width height ≤ height_of (square_crop width height))
      × (width_of (square_crop width height) ≤ min width height + (width + height) % 2)
      × (height_of (square_crop width height) ≤ min width height + (width + height) % 2)
unfolding square_crop
square_crop_bounds width height = ground arith

-- An avatar is sent to WhatsApp unchanged exactly if it is a square JPEG with a side strictly between
-- the two bounds.
pub as_it_is_iff :
    (width height size : ℕ) (is_jpeg : Bool)
    → (convert_room_avatar width height is_jpeg size ≡ as_it_is)
      ↔ ((is_jpeg ≡ true) × (width ≡ height) × (190 < width) × (width < 720))
unfolding convert_room_avatar
as_it_is_iff width height size is_jpeg = ground arith

-- The side of an avatar that is scaled is between the two bounds, and it is only scaled up if the
-- shorter side of the image is below the lower bound.
pub cropped_size :
    (width height size side : ℕ) (is_jpeg : Bool) (part : Rectangle)
    → convert_room_avatar width height is_jpeg size ≡ cropped part side
    → (190 ≤ side) × (side ≤ 720) × (190 < side → side ≤ width) × (190 < side → side ≤ height)
unfolding convert_room_avatar destination_size
cropped_size width height size side is_jpeg part h = ground arith
