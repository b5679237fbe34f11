-- ===== src/Converters/V767.antt =====
-- v767.c: the V767 TDC, whose event may be 256 long words.
use p42018_vmedaq.Common.{
  ℕ, ◌+◌, ◌-◌, ◌*◌, ◌≤◌, ◌≡◌, arith, Bool, ◌==◌, bit_and, add32, length, ◌∷◌,
}
use p42018_vmedaq.Device.{Device, read32}
use p42018_vmedaq.Daq.{Daq, M, vwrite16, took}
use p42018_vmedaq.Daq.Readout.{words_of, history_after, length-longs_while}
use p42018_vmedaq.Converters.Loop.{read_event, read_segment, event_longs, read_event_lem}

-- v767.h, and V767_MAXEVT of v767.c
abbrev pub v767_outbuff : ℕ
v767_outbuff = 0x0000

abbrev pub v767_reset_adr : ℕ
v767_reset_adr = 0x0018

abbrev pub v767_is_header : ℕ → Bool
v767_is_header w = bit_and w 0x0060 == 0x0040

abbrev pub v767_is_data : ℕ → Bool
v767_is_data w = bit_and w 0x0060 == 0x0000

abbrev pub v767_maxevt : ℕ
v767_maxevt = 256

unfoldable pub v767_reset : ℕ → M (Unit {0})
v767_reset maddr = vwrite16 (add32 maddr v767_reset_adr) 1

module _ (dev : Device) where
  unfoldable pub v767_segdata : ℕ → M ℕ
  v767_segdata maddr =
      read_event dev (λ _. add32 maddr v767_outbuff) v767_is_header v767_is_data (v767_maxevt - 1)

  -- Here the address moves on with `wordcnt`.
  unfoldable pub v767_segmod : ℕ → ℕ → M ℕ
  v767_segmod segid maddr =
      read_segment dev (λ wordcnt. add32 maddr (v767_outbuff + wordcnt * 32)) v767_is_header
        v767_is_data (v767_maxevt - 1) segid

  -- `v767_segdata` adds the long words of one event to the segment, at least one and at most 256,
  -- and returns the segment's new size.
  pub v767_segdata_lem :
      (maddr : ℕ) (d : Daq)
      → let addr = λ (_ : ℕ). add32 maddr v767_outbuff in
        let vs = event_longs dev addr v767_is_header v767_is_data (v767_maxevt - 1) d.calls in
        (v767_segdata maddr d ≡ (
          d.segmentsize + length (words_of vs),
          took (words_of vs) (history_after addr (length vs) 0 d.calls) d,
        ))
        × (1 ≤ length vs)
        × (length vs ≤ v767_maxevt)
  unfolding v767_segdata event_longs
  v767_segdata_lem maddr d =
      let addr = λ (_ : ℕ). add32 maddr v767_outbuff in
      (
        read_event_lem dev addr v767_is_header v767_is_data (v767_maxevt - 1) d,
        ground (
          arith,
          length-longs_while dev addr v767_is_data (v767_maxevt - 1) 1 (read32 (addr 0) ∷ d.calls),
        ),
        ground (
          arith,
          length-longs_while dev addr v767_is_data (v767_maxevt - 1) 1 (read32 (addr 0) ∷ d.calls),
        ),
      )
