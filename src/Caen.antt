-- ===== src/Caen.antt =====
-- babirldrvcaen.c: readout and control of the CAEN V775/V785/V792 converters (V7XX), the
-- V1190/V1290 TDCs (V1X90) and the V560 scaler. The UNIV variants are in Univ.
pub mod Registers
pub mod Readout
pub mod Kept
pub mod Tdc
pub mod Scaler
unfoldable pub use Registers.*
use p42018_vmedaq.Common.{
  ℕ, zero, suc, ◌+◌, ◌-◌, ◌*◌, Bool, true, false, not, ◌==◌, if◌then◌else◌, bit_and, add32,
}
use p42018_vmedaq.Device.{Device}
use p42018_vmedaq.Daq.{
  M, ◌>>=◌, ◌>>◌, pure, gets, modify, load_word, push_word, vwrite16, vread16, vread32,
  vread32_at_mp, advance, low_word, high_word,
}
use p42018_vmedaq.Daq.Readout.{take_long, take_test, take_while}
use p42018_vmedaq.Bbrl.{half}

unfoldable pub v7xx_clear : ℕ → M (Unit {0})
v7xx_clear maddr = do
  vwrite16 (add32 maddr v7xx_bit_set2) 0x04
  vwrite16 (add32 maddr v7xx_bit_cle2) 0x04

unfoldable pub v1x90_cnt_reg : ℕ → ℕ → M (Unit {0})
v1x90_cnt_reg maddr sval = vwrite16 (add32 maddr v1x90_reg_cnt) sval

unfoldable pub v1x90_int_level : ℕ → ℕ → M (Unit {0})
v1x90_int_level maddr sval = vwrite16 (add32 maddr v1x90_reg_int_level) sval

unfoldable pub v1x90_evt_reset : ℕ → M (Unit {0})
v1x90_evt_reset maddr = vwrite16 (add32 maddr v1x90_reg_evt_reset) 0x1

unfoldable pub v1x90_almost_full : ℕ → ℕ → M (Unit {0})
v1x90_almost_full maddr sval = vwrite16 (add32 maddr v1x90_reg_almost_full) sval

unfoldable pub v1x90_soft_clear : ℕ → ℕ → M (Unit {0})
v1x90_soft_clear maddr sval = vwrite16 (add32 maddr v1x90_reg_soft_clear) sval

unfoldable pub v560_scaler_clear : ℕ → M (Unit {0})
v560_scaler_clear maddr = vwrite16 (add32 maddr v560_sca_cle) 1

module _ (dev : Device) where
  -- The body of the `while(wordcnt < 34)` loops of the V7XX, from `wordcnt` 1 on.
  abbrev pub v7xx_while : ℕ → M (Unit {0})
  v7xx_while maddr = take_while dev (λ _. add32 maddr v7xx_outbuff) is_data 33 1

  unfoldable pub v7xx_segdata : ℕ → M ℕ
  v7xx_segdata maddr = do
    w ← take_test dev (add32 maddr v7xx_outbuff)
    if is_header w then v7xx_while maddr else pure tt
    gets (λ d. d.segmentsize)

  -- The first long word is read into a local, and kept only if it is a header.
  unfoldable pub v7xx_segdata2 : ℕ → M ℕ
  v7xx_segdata2 maddr = do
    tdata ← vread32 dev (add32 maddr v7xx_outbuff)
    let kept = (do
      push_word (low_word tdata)
      push_word (high_word tdata)
      modify (λ d. record d { segmentsize = d.segmentsize + 2 })
      v7xx_while maddr
      gets (λ d. d.segmentsize))
    if bit_and tdata 0x06000000 == 0x02000000 then kept else pure 0

  -- while((data[mp-1] & 0xf800) != 0x8000), by the rounds that are left before `wordcnt > 10000`
  unfoldable pub v1x90_while : ℕ → ℕ → M (Unit {0})
  v1x90_while maddr zero = pure tt
  v1x90_while maddr (suc rounds) = do
    i ← gets (λ d. d.mp)
    w ← load_word (i - 1)
    let body = (do take_long dev (add32 maddr v1x90_out_buff); v1x90_while maddr rounds)
    if is_trailer w then pure tt else body

  -- The event count at 0x1020 serves a message only.
  unfoldable pub v1x90_segdata : ℕ → M ℕ
  v1x90_segdata maddr = do
    nev ← vread16 dev (add32 maddr 0x1020)
    w ← take_test dev (add32 maddr v1x90_out_buff)
    if is_global_header w then v1x90_while maddr 10000 else pure tt
    gets (λ d. d.segmentsize)

  -- for(i = 0; i < V560_NCH; i++), counting the long words in the segment
  unfoldable pub v560_counters : ℕ → ℕ → ℕ → M (Unit {0})
  v560_counters maddr i zero = pure tt
  v560_counters maddr i (suc left) = do
    take_long dev (add32 maddr (v560_counter_0 + i * 4))
    v560_counters maddr (i + 1) left

  unfoldable pub v560_read_scaler32 : ℕ → M (Unit {0})
  v560_read_scaler32 maddr = v560_counters maddr 0 v560_nch

  unfoldable pub v560_segdata : ℕ → M ℕ
  v560_segdata maddr = do v560_counters maddr 0 v560_nch; gets (λ d. d.segmentsize)

  -- The same loop without the segment count.
  unfoldable pub v560_counters_mod : ℕ → ℕ → ℕ → M (Unit {0})
  v560_counters_mod maddr i zero = pure tt
  v560_counters_mod maddr i (suc left) = do
    vread32_at_mp dev (add32 maddr (v560_counter_0 + i * 4))
    modify (λ d. record d { mp = d.mp + 2 })
    v560_counters_mod maddr (i + 1) left

  -- The counters go to the last words of the block.
  unfoldable pub v560_read_scaler32_mod : ℕ → M (Unit {0})
  v560_read_scaler32_mod maddr = do
    modify (λ d. record d { mp = half - v560_nch * 2 })
    v560_counters_mod maddr 0 v560_nch
