-- ===== src/Madc32/Readout.antt =====
-- What madc32_segdata takes.
use p42018_vmedaq.Common.{
  ℕ, zero, suc, ◌+◌, ◌≡◌, refl, ap, ◌∙◌, sym, List, [], ◌∷◌, length, bit_and, add32, u16,
}
use p42018_vmedaq.Device.{Device, History, read16, read32}
use p42018_vmedaq.Daq.{Daq, took}
use p42018_vmedaq.Daq.Readout.{words_of, took-nil, take_long_lem, drained, drained-cons}
use p42018_vmedaq.Madc32.Registers.{reg_data, reg_buffer_data_length}
use p42018_vmedaq.Madc32.{madc32_take, madc32_segdata}

-- The next `n` answers of the data register.
unfoldable pub answers : Device → ℕ → ℕ → History → List ℕ
answers dev addr zero cs = []
answers dev addr (suc n) cs = dev.read32_reply cs addr ∷ answers dev addr n (read32 addr ∷ cs)

-- What the length register says, in 14 bits.
abbrev pub buffer_length : Device → ℕ → History → ℕ
buffer_length dev addr cs = bit_and (u16 (dev.read16_reply cs addr)) 0x3fff

module _ (dev : Device) where
  pub length-answers : (addr n : ℕ) (cs : History) → length (answers dev addr n cs) ≡ n
  unfolding answers
  length-answers addr zero cs = refl
  length-answers addr (suc n) cs = ap suc (length-answers addr n (read32 addr ∷ cs))

  take_lem :
      (maddr n : ℕ) (d : Daq)
      → let addr = add32 maddr reg_data in
        (madc32_take dev maddr n d).1 ≡ drained addr (answers dev addr n d.calls) d
  unfolding madc32_take answers words_of
  take_lem maddr zero d = sym (took-nil d)
  take_lem maddr (suc n) d =
      let addr = add32 maddr reg_data in
      let v = dev.read32_reply d.calls addr in
      let cs = read32 addr ∷ d.calls in
      ap (λ e. (madc32_take dev maddr n e).1) (take_long_lem dev addr d)
      ∙ take_lem maddr n (took (words_of (v ∷ [])) cs d)
      ∙ drained-cons addr v (answers dev addr n cs) d

  -- `madc32_segdata` reads the length, takes as many long words as its lower 14 bits say, and no
  -- other, and returns the segment's new size.
  pub madc32_segdata_lem :
      (maddr : ℕ) (d : Daq)
      → let at_len = add32 maddr reg_buffer_data_length in
        let d' = record d { calls = read16 at_len ∷ d.calls } in
        let addr = add32 maddr reg_data in
        let vs = answers dev addr (buffer_length dev at_len d.calls) d'.calls in
        madc32_segdata dev maddr d ≡ (d.segmentsize + length (words_of vs), drained addr vs d')
  unfolding madc32_segdata
  madc32_segdata_lem maddr d =
      let at_len = add32 maddr reg_buffer_data_length in
      let d' = record d { calls = read16 at_len ∷ d.calls } in
      let p = take_lem maddr (buffer_length dev at_len d.calls) d' in λ i. ((p i).segmentsize, p i)
