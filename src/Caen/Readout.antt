-- ===== src/Caen/Readout.antt =====
-- What the readout routines of babirldrvcaen.c take, in terms of the answers of the module alone.
use p42018_vmedaq.Common.{
  ℕ, zero, suc, ◌+◌, ◌/◌, ◌%◌, ◌^◌, ◌≤◌, ◌≡◌, refl, ap, ◌∙◌, ◌==◌, arith, Bool, if◌then◌else◌, inl,
  inr, Bool-cases, List, [], ◌∷◌, ◌++◌, length, replicate, replicate-append_self, bit_and-0x600,
  bit_and-0x06000000, bit_and, add32,
}
use p42018_vmedaq.Device.{Device, History, read32}
use p42018_vmedaq.Daq.{Daq, took, high_word}
use p42018_vmedaq.Daq.Readout.{
  length-words_of, words_of, take_test_lem, take_while_lem, longs_while, history_after, drained,
  drained-cons, length-longs_while, take_while,
}
use p42018_vmedaq.Caen.Registers.{is_header, is_data, v7xx_outbuff}
use p42018_vmedaq.Caen.{v7xx_segdata}

-- Bits 25 and 26 of a long word: 0 data, 1 header, 2 end of block, 3 error.
abbrev pub word_type : ℕ → ℕ
word_type v = v / 2 ^ 25 % 4

pub is_header-high_word : (v : ℕ) → is_header (high_word v) ≡ (word_type v == 1)
is_header-high_word v = rw (bit_and-0x600 (high_word v)) (ground arith)

pub header_mask : (v : ℕ) → (bit_and v 0x06000000 == 0x02000000) ≡ (word_type v == 1)
header_mask v = rw (bit_and-0x06000000 v) (ground arith)

-- The long words of one event: the first one, and after a header the following ones up to and with
-- the first that is no data word, 34 in all at most.
unfoldable pub v7xx_longs : Device → ℕ → History → List ℕ
v7xx_longs dev addr cs =
    let v = dev.read32_reply cs addr in
    let rest = longs_while dev (λ _. addr) is_data 33 1 (read32 addr ∷ cs) in
    v ∷ (if word_type v == 1 then rest else [])

history_after-const :
    (addr n wordcnt : ℕ) (cs : History)
    → history_after (λ _. addr) n wordcnt cs ≡ replicate n (read32 addr) ++ cs
unfolding history_after
history_after-const addr zero wordcnt cs = refl
history_after-const addr (suc n) wordcnt cs =
    history_after-const addr n (wordcnt + 1) (read32 addr ∷ cs)
    ∙ replicate-append_self n (read32 addr) cs

module _ (dev : Device) where
  -- The loop behind a first word that was taken.
  pub while-drained :
      (addr v rounds wordcnt : ℕ) (more : ℕ → Bool) (d : Daq)
      → let d' = took (words_of (v ∷ [])) (read32 addr ∷ d.calls) d in
        let rest = longs_while dev (λ _. addr) more rounds wordcnt (read32 addr ∷ d.calls) in
        (take_while dev (λ _. addr) more rounds wordcnt d').1 ≡ drained addr (v ∷ rest) d
  unfolding words_of
  while-drained addr v rounds wordcnt more d =
      let cs = read32 addr ∷ d.calls in
      let d' = took (words_of (v ∷ [])) cs d in
      let rest = longs_while dev (λ _. addr) more rounds wordcnt cs in
      take_while_lem dev (λ _. addr) more rounds wordcnt d'
      ∙ ap (λ h. took (words_of rest) h d') (history_after-const addr (length rest) wordcnt cs)
      ∙ drained-cons addr v rest d

  -- `v7XX_segdata` takes exactly the long words of one event: the first one, and behind a header
  -- those up to the first that is no data word, 34 in all at most. It returns the segment's new
  -- size.
  pub v7xx_segdata_lem :
      (maddr : ℕ) (d : Daq)
      → let addr = add32 maddr v7xx_outbuff in
        let vs = v7xx_longs dev addr d.calls in
        v7xx_segdata dev maddr d ≡ (d.segmentsize + length (words_of vs), drained addr vs d)
  unfolding v7xx_segdata v7xx_longs
  v7xx_segdata_lem maddr d =
      let addr = add32 maddr v7xx_outbuff in
      let v = dev.read32_reply d.calls addr in
      rw (take_test_lem dev addr d, is_header-high_word v)
        (elim (Bool-cases (word_type v == 1)) [
          | inl header ↦ rw (header, while-drained addr v 33 1 is_data d)
          | inr other ↦ rw other
        ])

  -- It takes at least one long word and at most 34.
  pub length-v7xx_longs :
      (addr : ℕ) (cs : History)
      → (1 ≤ length (v7xx_longs dev addr cs)) × (length (v7xx_longs dev addr cs) ≤ 34)
  unfolding v7xx_longs
  length-v7xx_longs addr cs =
      ground (arith, length-longs_while dev (λ _. addr) is_data 33 1 (read32 addr ∷ cs))

  -- Whatever the module answers, `v7XX_segdata` adds at least two and at most 68 words to the
  -- buffer, and as many to the segment's size, which it returns.
  pub v7xx_segdata-bounded :
      (maddr : ℕ) (d : Daq)
      → let r = v7xx_segdata dev maddr d in
        (r.0 ≡ r.1.segmentsize)
        × (d.mp + r.0 ≡ r.1.mp + d.segmentsize)
        × (d.mp + 2 ≤ r.1.mp)
        × (r.1.mp ≤ d.mp + 68)
  v7xx_segdata-bounded maddr d =
      let addr = add32 maddr v7xx_outbuff in
      let (low, high) = length-v7xx_longs addr d.calls in
      let e = length-words_of (v7xx_longs dev addr d.calls) in
      rw (v7xx_segdata_lem maddr d)
        (refl, omega arith, omega (arith, e, low), omega (arith, e, high))
