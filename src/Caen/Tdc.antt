-- ===== src/Caen/Tdc.antt =====
-- babirldrvcaen.c, v1X90_segdata: from a global header to the trailer.
use p42018_vmedaq.Common.{
  ℕ, zero, suc, ◌+◌, ◌/◌, ◌%◌, ◌^◌, ◌≤◌, ◌≡◌, refl, ap, ◌∙◌, ◌==◌, arith, sym, if◌then◌else◌, inl,
  inr, Bool-cases, List, [], ◌∷◌, ◌++◌, length, replicate, bit_and-0xf800, add32,
}
use p42018_vmedaq.Device.{Device, History, read16, read32}
use p42018_vmedaq.Daq.{Daq, took, high_word}
use p42018_vmedaq.Daq.Readout.{
  length-words_of, words_of, took-nil, take_test_lem, drained, drained-cons, take_long_lem,
  last_word,
}
use p42018_vmedaq.Caen.Registers.{is_global_header, is_trailer, v1x90_out_buff}
use p42018_vmedaq.Caen.{v1x90_segdata, v1x90_while}

-- The top five bits of a long word: 8 global header, 16 global trailer.
abbrev pub tdc_type : ℕ → ℕ
tdc_type v = v / 2 ^ 27 % 32

is_global_header-high_word : (v : ℕ) → is_global_header (high_word v) ≡ (tdc_type v == 8)
is_global_header-high_word v = rw (bit_and-0xf800 (high_word v)) (ground arith)

is_trailer-high_word : (v : ℕ) → is_trailer (high_word v) ≡ (tdc_type v == 16)
is_trailer-high_word v = rw (bit_and-0xf800 (high_word v)) (ground arith)

-- The long words behind `last`, up to and with a trailer, `rounds` at most.
unfoldable pub until_trailer : Device → ℕ → ℕ → ℕ → History → List ℕ
until_trailer dev addr zero last cs = []
until_trailer dev addr (suc rounds) last cs =
    let v = dev.read32_reply cs addr in
    let rest = v ∷ until_trailer dev addr rounds v (read32 addr ∷ cs) in
    if tdc_type last == 16 then [] else rest

-- The long words of one event of the TDC.
unfoldable pub v1x90_longs : Device → ℕ → History → List ℕ
v1x90_longs dev addr cs =
    let v = dev.read32_reply cs addr in
    let rest = until_trailer dev addr 10000 v (read32 addr ∷ cs) in
    v ∷ (if tdc_type v == 8 then rest else [])

module _ (dev : Device) where
  while_lem :
      (maddr rounds v : ℕ) (cs : History) (d : Daq)
      → let addr = add32 maddr v1x90_out_buff in
        let d' = took (words_of (v ∷ [])) cs d in
        let vs = until_trailer dev addr rounds v cs in
        (v1x90_while dev maddr rounds d').1
        ≡ took (words_of vs) (replicate (length vs) (read32 addr) ++ cs) d'
  unfolding v1x90_while until_trailer words_of
  while_lem maddr zero v cs d = sym (took-nil (took (words_of (v ∷ [])) cs d))
  while_lem maddr (suc rounds) v cs d =
      let addr = add32 maddr v1x90_out_buff in
      let d' = took (words_of (v ∷ [])) cs d in
      let next = dev.read32_reply cs addr in
      let bs = read32 addr ∷ cs in
      let rest = until_trailer dev addr rounds next bs in
      rw (last_word dev v cs d, is_trailer-high_word v)
        (elim (Bool-cases (tdc_type v == 16)) [
          | inl done ↦ rw done (sym (took-nil d'))
          | inr more ↦ rw more (
              ap (λ e. (v1x90_while dev maddr rounds e).1) (take_long_lem dev addr d')
              ∙ while_lem maddr rounds next bs d'
              ∙ drained-cons addr next rest d')
        ])

  -- `v1X90_segdata` reads the event count and then takes exactly the long words of one event: the
  -- first one, and behind a global header those up to a trailer, 10000 more at most. It returns
  -- the segment's new size.
  pub v1x90_segdata_lem :
      (maddr : ℕ) (d : Daq)
      → let addr = add32 maddr v1x90_out_buff in
        let d' = record d { calls = read16 (add32 maddr 0x1020) ∷ d.calls } in
        let vs = v1x90_longs dev addr d'.calls in
        v1x90_segdata dev maddr d ≡ (d.segmentsize + length (words_of vs), drained addr vs d')
  unfolding v1x90_segdata v1x90_longs
  v1x90_segdata_lem maddr d =
      let addr = add32 maddr v1x90_out_buff in
      let d' = record d { calls = read16 (add32 maddr 0x1020) ∷ d.calls } in
      let v = dev.read32_reply d'.calls addr in
      let cs = read32 addr ∷ d'.calls in
      let rest = until_trailer dev addr 10000 v cs in
      rw (take_test_lem dev addr d', is_global_header-high_word v)
        (elim (Bool-cases (tdc_type v == 8)) [
          | inl header ↦
              let p = while_lem maddr 10000 v cs d' ∙ drained-cons addr v rest d' in
              rw header (λ i. ((p i).segmentsize, p i))
          | inr other ↦ rw other
        ])

  length-until_trailer :
      (addr rounds last : ℕ) (cs : History)
      → length (until_trailer dev addr rounds last cs) ≤ rounds
  unfolding until_trailer
  length-until_trailer addr zero last cs = omega arith
  length-until_trailer addr (suc rounds) last cs =
      let v = dev.read32_reply cs addr in
      ground (arith, length-until_trailer addr rounds v (read32 addr ∷ cs))

  -- Whatever the module answers, the readout ends after at most 10001 long words.
  pub length-v1x90_longs :
      (addr : ℕ) (cs : History)
      → (1 ≤ length (v1x90_longs dev addr cs)) × (length (v1x90_longs dev addr cs) ≤ 10001)
  unfolding v1x90_longs
  length-v1x90_longs addr cs =
      let v = dev.read32_reply cs addr in
      ground (arith, length-until_trailer addr 10000 v (read32 addr ∷ cs))

  -- Whatever the module answers, `v1X90_segdata` ends: it adds at least two and at most 20002 words
  -- to the buffer, and as many to the segment's size, which it returns.
  pub v1x90_segdata-bounded :
      (maddr : ℕ) (d : Daq)
      → let r = v1x90_segdata dev maddr d in
        (r.0 ≡ r.1.segmentsize)
        × (d.mp + r.0 ≡ r.1.mp + d.segmentsize)
        × (d.mp + 2 ≤ r.1.mp)
        × (r.1.mp ≤ d.mp + 20002)
  v1x90_segdata-bounded maddr d =
      let addr = add32 maddr v1x90_out_buff in
      let cs = read16 (add32 maddr 0x1020) ∷ d.calls in
      let (low, high) = length-v1x90_longs addr cs in
      let e = length-words_of (v1x90_longs dev addr cs) in
      rw (v1x90_segdata_lem maddr d)
        (refl, omega arith, omega (arith, e, low), omega (arith, e, high))
