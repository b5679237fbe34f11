-- ===== src/Rpv130.antt =====
-- rpv130.c: an I/O register in the short address space, for which each access sets the bridge's
-- address modifier and sets it back.
pub mod Modifier
use p42018_vmedaq.Common.{
  ℕ, ◌+◌, ◌≡◌, refl, Bool, true, false, ◌&&◌, ◌==◌, List, [], ◌∷◌, ◌++◌, add32, bit_or,
}
use p42018_vmedaq.Device.{Device, Call, History, read16, read32, write16, write32, set_amsr}
use p42018_vmedaq.Daq.{
  Daq, M, ◌>>=◌, ◌>>◌, pure, gets, call, load_word, store_word, vread16, vwrite16, advance,
}

-- rpv130.h
abbrev pub rpv130_pulse : ℕ
rpv130_pulse = 0x8

abbrev pub rpv130_ctl1 : ℕ
rpv130_ctl1 = 0xc

abbrev pub rpv130_ctl2 : ℕ
rpv130_ctl2 = 0xe

abbrev pub rpv130_mask1or2 : ℕ
rpv130_mask1or2 = 0x08

abbrev pub rpv130_clear1or2 : ℕ
rpv130_clear1or2 = 0x02

abbrev pub rpv130_clear3 : ℕ
rpv130_clear3 = 0x01

unfoldable pub rpv130_write : ℕ → ℕ → M ℕ
rpv130_write maddr val = do call (set_amsr 0x29); vwrite16 maddr val; call (set_amsr 0x09); pure 1

unfoldable pub rpv130_output : ℕ → ℕ → M ℕ
rpv130_output maddr val = do
  call (set_amsr 0x29)
  _ ← rpv130_write (add32 maddr rpv130_pulse) val
  call (set_amsr 0x09)
  pure 1

unfoldable pub rpv130_clear : ℕ → M ℕ
rpv130_clear maddr = do
  let sval = bit_or (bit_or rpv130_clear1or2 rpv130_clear3) rpv130_mask1or2
  call (set_amsr 0x29)
  vwrite16 (add32 maddr rpv130_ctl1) sval
  vwrite16 (add32 maddr rpv130_ctl2) sval
  call (set_amsr 0x09)
  pure 1

module _ (dev : Device) where
  -- vread16(maddr + mode, data + mp)
  unfoldable pub read_at_mp : ℕ → M (Unit {0})
  read_at_mp addr = do v ← vread16 dev addr; i ← gets (λ d. d.mp); store_word i v

  unfoldable pub rpv130_segdata : ℕ → ℕ → M ℕ
  rpv130_segdata maddr mode = do
    call (set_amsr 0x29)
    read_at_mp (add32 maddr mode)
    call (set_amsr 0x09)
    advance 1
    gets (λ d. d.segmentsize)

  -- The first component is the word copied to `sval`.
  unfoldable pub rpv130_segdata_v : ℕ → ℕ → M (ℕ × ℕ)
  rpv130_segdata_v maddr mode = do
    call (set_amsr 0x29)
    read_at_mp (add32 maddr mode)
    call (set_amsr 0x09)
    i ← gets (λ d. d.mp)
    sval ← load_word i
    advance 1
    size ← gets (λ d. d.segmentsize)
    pure (sval, size)
