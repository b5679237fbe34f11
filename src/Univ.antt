-- ===== src/Univ.antt =====
-- The routines under #ifdef UNIV of babirldrvcaen.c and madc32.c, and univfunc.c: access through the
-- windows of the Universe bridge, by an offset and the window's number.
pub mod Window
pub mod Dma
use p42018_vmedaq.Common.{
  ℕ, zero, suc, ◌+◌, ◌*◌, ◌/◌, ◌-◌, List, ◌∷◌, Bool, if◌then◌else◌, add32, u16, bit_and,
  write_words,
}
use p42018_vmedaq.Device.{History, Call, map_read16, map_read32, map_write16, univ_dma_read}
use p42018_vmedaq.Daq.{
  Daq, M, ◌>>=◌, ◌>>◌, pure, gets, modify, call, load_word, store_long, advance,
}
use p42018_vmedaq.Caen.Registers.{
  v7xx_outbuff, v7xx_bit_set2, v7xx_bit_cle2, v1x90_reg_soft_clear, v1x90_reg_int_level,
  v1x90_reg_almost_full, is_header, is_data,
}
use p42018_vmedaq.Madc32.Registers.{
  reg_data, reg_buffer_data_length, reg_readout_reset, reg_start_acq, reg_irq_level,
  reg_adc_resolution, reg_input_range, reg_module_id,
}

-- What the bridge's functions answer: univ_map_read16 and univ_map_read32 by the offset and the
-- window, and univ_dma_read, with the words that it stores, by the size in bytes and the number.
pub record Univ : Type 0 where
  pub map_read16_reply : History → ℕ → ℕ → ℕ
  pub map_read32_reply : History → ℕ → ℕ → ℕ
  pub dma_words : History → ℕ → ℕ → List ℕ

-- babirldrvcaen.h, V1X90_EVT_FIFO
abbrev pub v1x90_evt_fifo : ℕ
v1x90_evt_fifo = 0x1038

-- univ_map_write16(off, &val, n)
abbrev pub univ_map_write16 : ℕ → ℕ → ℕ → M (Unit {0})
univ_map_write16 off val n = call (map_write16 off (u16 val) n)

unfoldable pub v7xx_multi_map_clear : ℕ → ℕ → M (Unit {0})
v7xx_multi_map_clear moff n = do
  univ_map_write16 (add32 moff v7xx_bit_set2) 0x04 n
  univ_map_write16 (add32 moff v7xx_bit_cle2) 0x04 n

unfoldable pub v7xx_map_clear : ℕ → M (Unit {0})
v7xx_map_clear n = v7xx_multi_map_clear 0 n

-- The value is the register's offset.
unfoldable pub v1x90_multi_map_clear : ℕ → ℕ → M (Unit {0})
v1x90_multi_map_clear moff n =
    univ_map_write16 (add32 moff v1x90_reg_soft_clear) v1x90_reg_soft_clear n

unfoldable pub v1x90_map_clear : ℕ → M (Unit {0})
v1x90_map_clear n = v1x90_multi_map_clear 0 n

unfoldable pub v1x90_multi_map_intlevel : ℕ → ℕ → ℕ → M (Unit {0})
v1x90_multi_map_intlevel level moff n = univ_map_write16 (add32 moff v1x90_reg_int_level) level n

unfoldable pub v1x90_map_intlevel : ℕ → ℕ → M (Unit {0})
v1x90_map_intlevel level n = v1x90_multi_map_intlevel level 0 n

unfoldable pub v1x90_multi_map_almostfull : ℕ → ℕ → ℕ → M (Unit {0})
v1x90_multi_map_almostfull val moff n = univ_map_write16 (add32 moff v1x90_reg_almost_full) val n

unfoldable pub v1x90_map_almostfull : ℕ → ℕ → M (Unit {0})
v1x90_map_almostfull val n = v1x90_multi_map_almostfull val 0 n

unfoldable pub madc32_map_clear : ℕ → M (Unit {0})
madc32_map_clear n = univ_map_write16 reg_readout_reset 1 n

unfoldable pub madc32_map_start_acq : ℕ → M (Unit {0})
madc32_map_start_acq n = univ_map_write16 reg_start_acq 1 n

unfoldable pub madc32_map_stop_acq : ℕ → M (Unit {0})
madc32_map_stop_acq n = univ_map_write16 reg_start_acq 0 n

unfoldable pub madc32_map_irq_level : ℕ → ℕ → M (Unit {0})
madc32_map_irq_level val n = univ_map_write16 reg_irq_level val n

unfoldable pub madc32_map_resol_8khires : ℕ → M (Unit {0})
madc32_map_resol_8khires n = univ_map_write16 reg_adc_resolution 4 n

unfoldable pub madc32_map_input_range : ℕ → ℕ → M (Unit {0})
madc32_map_input_range val n = univ_map_write16 reg_input_range val n

unfoldable pub madc32_map_module_id : ℕ → ℕ → M (Unit {0})
madc32_map_module_id val n = univ_map_write16 reg_module_id val n

module _ (univ : Univ) where
  -- univ_map_read16(off, &x, n) and univ_map_read32(off, &x, n), as the value read
  abbrev pub univ_map_read16 : ℕ → ℕ → M ℕ
  univ_map_read16 off n d =
      (u16 (univ.map_read16_reply d.calls off n), record d { calls = map_read16 off n ∷ d.calls })

  abbrev pub univ_map_read32 : ℕ → ℕ → M ℕ
  univ_map_read32 off n d =
      (univ.map_read32_reply d.calls off n, record d { calls = map_read32 off n ∷ d.calls })

  -- univ_map_read32(off, data + mp, n), and the counting that follows
  unfoldable pub map_take_long : ℕ → ℕ → M (Unit {0})
  map_take_long off n = do
    v ← univ_map_read32 off n
    i ← gets (λ d. d.mp)
    store_long i v
    advance 2

  -- The same, with data[mp - 1] after it.
  unfoldable pub map_take_test : ℕ → ℕ → M ℕ
  map_take_test off n = do map_take_long off n; i ← gets (λ d. d.mp); load_word (i - 1)

  -- The loop, by the rounds left.
  unfoldable pub v7xx_map_while : ℕ → ℕ → ℕ → M (Unit {0})
  v7xx_map_while off n zero = pure tt
  v7xx_map_while off n (suc rounds) = do
    w ← map_take_test off n
    let rest = v7xx_map_while off n rounds
    if is_data w then rest else pure tt

  unfoldable pub v7xx_multi_map_segdata : ℕ → ℕ → M ℕ
  v7xx_multi_map_segdata moff n = do
    w ← map_take_test (add32 moff v7xx_outbuff) n
    if is_header w then v7xx_map_while (add32 moff v7xx_outbuff) n 33 else pure tt
    gets (λ d. d.segmentsize)

  unfoldable pub v7xx_map_segdata : ℕ → M ℕ
  v7xx_map_segdata n = v7xx_multi_map_segdata 0 n

  -- univfunc.c
  unfoldable pub univ_dma_segdata : ℕ → ℕ → M ℕ
  univ_dma_segdata size n = do
    ws ← gets (λ d. univ.dma_words d.calls size n)
    call (univ_dma_read size n)
    modify (λ d. record d { mem = write_words d.mem (d.base + d.mp) ws })
    advance (size / 2)
    gets (λ d. d.segmentsize)

  unfoldable pub v1x90_multi_map_dma_segdata : ℕ → ℕ → M ℕ
  v1x90_multi_map_dma_segdata dman n = do
    dmacnt ← univ_map_read32 v1x90_evt_fifo n
    univ_dma_segdata (bit_and dmacnt 0xffff * 4) dman

  unfoldable pub v1x90_map_dma_segdata : ℕ → M ℕ
  v1x90_map_dma_segdata n = v1x90_multi_map_dma_segdata n n

  -- for(i = 0; i < cnt; i++), by the rounds left
  unfoldable pub madc32_map_take : ℕ → ℕ → M (Unit {0})
  madc32_map_take n zero = pure tt
  madc32_map_take n (suc left) = do map_take_long reg_data n; madc32_map_take n left

  unfoldable pub madc32_map_segdata : ℕ → M ℕ
  madc32_map_segdata n = do
    cnt ← univ_map_read16 reg_buffer_data_length n
    madc32_map_take n (bit_and cnt 0x3fff)
    gets (λ d. d.segmentsize)
