-- ===== src/Caen/Kept.antt =====
-- babirldrvcaen.c, v7XX_segdata2: the readout that keeps nothing but whole events.
use p42018_vmedaq.Common.{
  ℕ, ◌+◌, ◌≡◌, ◌==◌, arith, [], ◌∷◌, add32, u16, ap, if◌then◌else◌, write_words, update, Bool-cases,
  inl, inr,
}
use p42018_vmedaq.Device.{Device, read32}
use p42018_vmedaq.Daq.{Daq, took, low_word, high_word, push_word, ◌>>◌, modify}
use p42018_vmedaq.Daq.Readout.{words_of, take_test_lem}
use p42018_vmedaq.Caen.Registers.{v7xx_outbuff}
use p42018_vmedaq.Caen.{v7xx_while, v7xx_segdata, v7xx_segdata2}
use p42018_vmedaq.Caen.Readout.{word_type, is_header-high_word, header_mask}

-- The two stores of the local copy are what one readout step stores.
pushed :
    (v : ℕ) (d : Daq)
    → ((push_word (low_word v)
          >> push_word (high_word v)
          >> modify (λ e. record e { segmentsize = e.segmentsize + 2 }))
        d).1
      ≡ took (words_of (v ∷ [])) d.calls d
unfolding words_of write_words
pushed v d =
    let low : u16 (low_word v) ≡ low_word v = omega arith in
    let high : u16 (high_word v) ≡ high_word v = omega arith in
    let next : d.base + (d.mp + 1) ≡ d.base + d.mp + 1 = omega arith in
    let after : d.mp + 1 + 1 ≡ d.mp + 2 = omega arith in
    λ i. record d {
      mem = update (update d.mem (d.base + d.mp) (low i)) (next i) (high i);
      mp = after i;
      segmentsize = d.segmentsize + 2;
    }

module _ (dev : Device) where
  -- Where the first long word is a header, `v7XX_segdata2` does what `v7XX_segdata` does; otherwise
  -- it returns 0, and its one read is all that it leaves.
  pub v7xx_segdata2_lem :
      (maddr : ℕ) (d : Daq)
      → let addr = add32 maddr v7xx_outbuff in
        v7xx_segdata2 dev maddr d ≡ (
          if word_type (dev.read32_reply d.calls addr) == 1
          then v7xx_segdata dev maddr d
          else (0, record d { calls = read32 addr ∷ d.calls }))
  unfolding v7xx_segdata2 v7xx_segdata
  v7xx_segdata2_lem maddr d =
      let addr = add32 maddr v7xx_outbuff in
      let v = dev.read32_reply d.calls addr in
      rw (take_test_lem dev addr d, header_mask v, is_header-high_word v)
        (elim (Bool-cases (word_type v == 1)) [
          | inl header ↦ rw header (
              ap (λ e. ((v7xx_while dev maddr e).1.segmentsize, (v7xx_while dev maddr e).1))
                (pushed v (record d { calls = read32 addr ∷ d.calls })))
          | inr other ↦ rw other
        ])
