-- ===== src/Waid/DbMeta/Copy.antt =====
-- `CopyFrom` of message metadata: what is taken, what is kept, and how copies compose.
use whatsapp.Common.{◌≡◌, arith}
use whatsapp.Waid.DbMeta.{MessageMetadata, copy_from}

-- Copying two metadata records one after the other is copying the second over the first and then
-- copying the result.
pub copy_from_assoc :
    (a b c : MessageMetadata) → copy_from (copy_from a b) c ≡ copy_from a (copy_from b c)
unfolding copy_from
copy_from_assoc a b c = ground arith

-- Copying the same metadata twice is copying it once.
pub copy_from_idem : (a b : MessageMetadata) → copy_from (copy_from a b) b ≡ copy_from a b
unfolding copy_from
copy_from_idem a b = ground arith
