-- ===== src/Univ/Window.antt =====
-- Access through a window against direct access: the same routines, on a device that answers as the
-- window does.
use p42018_vmedaq.Common.{
  ℕ, zero, suc, ◌+◌, ◌≡◌, refl, ap, ◌∙◌, [], ◌∷◌, false, Bool-cases, inl, inr, add32, bit_and, u16,
}
use p42018_vmedaq.Device.{
  Device, History, Call, read16, read32, write16, map_read16, map_read32, map_write16,
}
use p42018_vmedaq.Daq.{Daq}
use p42018_vmedaq.Daq.Readout.{take_long, take_test, take_while}
use p42018_vmedaq.Caen.{v7xx_segdata, v7xx_clear, v1x90_soft_clear}
use p42018_vmedaq.Caen.Registers.{v7xx_outbuff, v1x90_reg_soft_clear, is_data, is_header}
use p42018_vmedaq.Madc32.{madc32_take, madc32_segdata, madc32_readout_reset}
use p42018_vmedaq.Madc32.Registers.{reg_data, reg_buffer_data_length}
use p42018_vmedaq.Univ.{
  Univ, map_take_long, map_take_test, v7xx_map_while, v7xx_multi_map_segdata, v7xx_multi_map_clear,
  v1x90_multi_map_clear, madc32_map_take, madc32_map_segdata, madc32_map_clear,
}

-- A direct call as the call through the window `n`, and a history of them.
abbrev pub translate : ℕ → Call → Call
translate n (read16 addr) = map_read16 addr n
translate n (read32 addr) = map_read32 addr n
translate n (write16 addr val) = map_write16 addr val n
translate n c = c

abbrev pub translate_all : ℕ → History → History
translate_all n [] = []
translate_all n (c ∷ cs) = translate n c ∷ translate_all n cs

abbrev pub through : ℕ → Daq → Daq
through n d = record d { calls = translate_all n d.calls }

-- A device that answers as the window does; nothing else of it is used.
abbrev pub window_device : Univ → ℕ → Device
window_device univ n = record {
  read16_reply = λ cs addr. univ.map_read16_reply (translate_all n cs) addr n;
  read32_reply = λ cs addr. univ.map_read32_reply (translate_all n cs) addr n;
  interrupt_reply = λ cs. 0;
  dma_done = λ cs. false;
  dma_longs = λ cs k. 0;
}

module _ (univ : Univ) (n : ℕ) where
  take_long-through :
      (addr : ℕ) (d : Daq)
      → (map_take_long univ addr n (through n d)).1
        ≡ through n (take_long (window_device univ n) addr d).1
  unfolding map_take_long take_long
  take_long-through addr d = refl

  take_test-through :
      (addr : ℕ) (d : Daq)
      → let r = take_test (window_device univ n) addr d in
        map_take_test univ addr n (through n d) ≡ (r.0, through n r.1)
  unfolding map_take_test take_test map_take_long take_long
  take_test-through addr d = refl

  while_through :
      (addr rounds wordcnt : ℕ) (d : Daq)
      → (v7xx_map_while univ addr n rounds (through n d)).1
        ≡ through n (take_while (window_device univ n) (λ _. addr) is_data rounds wordcnt d).1
  unfolding v7xx_map_while take_while
  while_through addr zero wordcnt d = refl
  while_through addr (suc rounds) wordcnt d =
      let r = take_test (window_device univ n) addr d in
      rw (take_test-through addr d) (elim (Bool-cases (is_data r.0)) [
        | inl go ↦ rw go (while_through addr rounds (wordcnt + 1) r.1)
        | inr stop ↦ rw stop refl
      ])

  v7xx_through :
      (moff : ℕ) (d : Daq)
      → let r = v7xx_segdata (window_device univ n) moff d in
        v7xx_multi_map_segdata univ moff n (through n d) ≡ (r.0, through n r.1)
  unfolding v7xx_multi_map_segdata v7xx_segdata
  v7xx_through moff d =
      let addr = add32 moff v7xx_outbuff in
      let r = take_test (window_device univ n) addr d in
      rw (take_test-through addr d) (elim (Bool-cases (is_header r.0)) [
        | inl header ↦
            rw header (ap (λ (x : Daq). (x.segmentsize, x)) (while_through addr 33 1 r.1))
        | inr other ↦ rw other refl
      ])

  madc32_take-through :
      (left : ℕ) (d : Daq)
      → (madc32_map_take univ n left (through n d)).1
        ≡ through n (madc32_take (window_device univ n) 0 left d).1
  unfolding madc32_map_take madc32_take
  madc32_take-through zero d = refl
  madc32_take-through (suc left) d =
      ap (λ (x : Daq). (madc32_map_take univ n left x).1) (take_long-through reg_data d)
      ∙ madc32_take-through left (take_long (window_device univ n) reg_data d).1

  madc32_through :
      (d : Daq)
      → let r = madc32_segdata (window_device univ n) 0 d in
        madc32_map_segdata univ n (through n d) ≡ (r.0, through n r.1)
  unfolding madc32_map_segdata madc32_segdata
  madc32_through d =
      let cnt = u16 (univ.map_read16_reply (translate_all n d.calls) reg_buffer_data_length n) in
      let d' : Daq = record d { calls = read16 reg_buffer_data_length ∷ d.calls } in
      ap (λ (x : Daq). (x.segmentsize, x)) (madc32_take-through (bit_and cnt 0x3fff) d')

  -- Where the history up to now is one of calls through the window `n`, the V7XX readout at an
  -- offset, the MADC-32 readout, and the V7XX and V1X90 clears through that window leave what the
  -- direct routines leave, with their results, on a device that answers as the window does, each
  -- call being made through the window. The MADC-32 clear through it leaves what a readout reset
  -- leaves, without the FIFO reset of the direct clear.
  pub window_lem :
      (moff : ℕ) (d : Daq)
      → let dev = window_device univ n in
        let r = v7xx_segdata dev moff d in
        let q = madc32_segdata dev 0 d in
        (v7xx_multi_map_segdata univ moff n (through n d) ≡ (r.0, through n r.1))
        × (madc32_map_segdata univ n (through n d) ≡ (q.0, through n q.1))
        × ((v7xx_multi_map_clear moff n (through n d)).1 ≡ through n (v7xx_clear moff d).1)
        × ((v1x90_multi_map_clear moff n (through n d)).1
            ≡ through n (v1x90_soft_clear moff v1x90_reg_soft_clear d).1)
        × ((madc32_map_clear n (through n d)).1 ≡ through n (madc32_readout_reset 0 1 d).1)
  unfolding v7xx_multi_map_clear v7xx_clear v1x90_multi_map_clear v1x90_soft_clear madc32_map_clear
      madc32_readout_reset
  window_lem moff d = (v7xx_through moff d, madc32_through d, refl, refl, refl)
