-- ===== src/SegmentId.antt =====
-- segidlist.h, and SEGIDGEN of ccnetevt.h and mkccnetsegment.c: the number of a segment, packed from
-- what was read out, where, of which detector and by which module.
pub mod Places
pub mod Detectors
pub mod Modules
pub mod Packing
use p42018_vmedaq.Common.{ℕ, ◌*◌, ◌^◌, bit_or}

-- A shift to the left is a multiplication; the codes are small enough for it to fit an int.
unfoldable pub mksegid : ℕ → ℕ → ℕ → ℕ → ℕ
mksegid device focal detector kind =
    bit_or (bit_or (bit_or (device * 2 ^ 6) focal * 2 ^ 6) detector * 2 ^ 8) kind
