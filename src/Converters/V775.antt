-- ===== src/Converters/V775.antt =====
-- v775.c and v792.c, which differ in the prefix of their names alone, down to their header files.
use p42018_vmedaq.Common.{ℕ, ◌+◌, ◌*◌, Bool, ◌==◌, bit_and, add32}
use p42018_vmedaq.Device.{Device}
use p42018_vmedaq.Daq.{M}
use p42018_vmedaq.Converters.Loop.{read_event, read_segment}

-- v775.h
abbrev pub v775_outbuff : ℕ
v775_outbuff = 0x0000

abbrev pub v775_is_header : ℕ → Bool
v775_is_header w = bit_and w 0x0600 == 0x0200

abbrev pub v775_is_data : ℕ → Bool
v775_is_data w = bit_and w 0x0600 == 0x0000

-- v792.h
abbrev pub v792_outbuff : ℕ
v792_outbuff = 0x0000

abbrev pub v792_is_header : ℕ → Bool
v792_is_header w = bit_and w 0x0600 == 0x0200

abbrev pub v792_is_data : ℕ → Bool
v792_is_data w = bit_and w 0x0600 == 0x0000

module _ (dev : Device) where
  -- All the long words come from one address.
  unfoldable pub v775_segdata : ℕ → M ℕ
  v775_segdata maddr = read_event dev (λ _. add32 maddr v775_outbuff) v775_is_header v775_is_data 33

  -- Here the address moves on with `wordcnt`.
  unfoldable pub v775_segmod : ℕ → ℕ → M ℕ
  v775_segmod segid maddr =
      read_segment dev (λ wordcnt. add32 maddr (v775_outbuff + wordcnt * 32)) v775_is_header
        v775_is_data 33 segid

  unfoldable pub v792_segdata : ℕ → M ℕ
  v792_segdata maddr = read_event dev (λ _. add32 maddr v792_outbuff) v792_is_header v792_is_data 33

  unfoldable pub v792_segmod : ℕ → ℕ → M ℕ
  v792_segmod segid maddr =
      read_segment dev (λ wordcnt. add32 maddr (v792_outbuff + wordcnt * 32)) v792_is_header
        v792_is_data 33 segid
