-- ===== src/Converters/Loop.antt =====
-- The two shapes of readout of v785.c, v775.c, v792.c and v767.c, which differ in the addresses, in
-- the bits that mark a header and a data word, and in the bound on the long words.
use p42018_vmedaq.Common.{
  ℕ, zero, suc, ◌+◌, ◌-◌, ◌*◌, ◌≡◌, ap, ◌∙◌, sym, Bool, if◌then◌else◌, List, [], ◌∷◌, length,
  Bool-cases, inl, inr, arith, write_words,
}
use p42018_vmedaq.Device.{Device, History, read32}
use p42018_vmedaq.Daq.{
  Daq, M, ◌>>=◌, ◌>>◌, pure, gets, modify, load_word, push_word, vread32_at_mp, took, high_word,
}
use p42018_vmedaq.Daq.Readout.{
  words_of, take_test, take_test_lem, take_while, take_while_lem, longs_while, history_after,
  last_word, took-took, took-nil,
}
use p42018_vmedaq.Caen.Scaler.{placed}

module _ (dev : Device) (addr : ℕ → ℕ) (header more : ℕ → Bool) where
  -- The first long word and, behind a header, the loop; `rounds` is the bound on `wordcnt` less 1.
  unfoldable pub read_event : ℕ → M ℕ
  read_event rounds = do
    w ← take_test dev (addr 0)
    if header w then take_while dev addr more rounds 1 else pure tt
    gets (λ d. d.segmentsize)

  -- vread32(addr, data+mp); mp += 2; and the word `data[mp-1]` that the caller then tests
  unfoldable pub place_test : ℕ → M ℕ
  place_test at = do
    vread32_at_mp dev at
    modify (λ d. record d { mp = d.mp + 2 })
    i ← gets (λ d. d.mp)
    load_word (i - 1)

  -- The loop of the `segmod` routines, with the final `wordcnt`.
  unfoldable pub place_while : ℕ → ℕ → M ℕ
  place_while zero wordcnt = pure wordcnt
  place_while (suc rounds) wordcnt = do
    w ← place_test (addr wordcnt)
    let rest = place_while rounds (wordcnt + 1)
    if more w then rest else pure (wordcnt + 1)

  -- The `segmod` routines write a whole segment, its two header words last.
  unfoldable pub read_segment : ℕ → ℕ → M ℕ
  read_segment rounds segid = do
    tmp ← gets (λ d. d.mp)
    modify (λ d. record d { mp = d.mp + 2 })
    w ← place_test (addr 0)
    wordcnt ← (if header w then place_while rounds 1 else pure 1)
    modify (λ d. record d { mp = tmp })
    push_word (wordcnt * 2 + 2)
    push_word segid
    modify (λ d. record d { mp = d.mp + wordcnt * 2; eventsize = d.eventsize + (wordcnt * 2 + 2) })
    pure (wordcnt * 2 + 2)

  -- The long words of one event, in terms of the answers alone.
  unfoldable pub event_longs : ℕ → History → List ℕ
  event_longs rounds cs =
      let v = dev.read32_reply cs (addr 0) in
      let rest = longs_while dev addr more rounds 1 (read32 (addr 0) ∷ cs) in
      v ∷ (if header (high_word v) then rest else [])

  pub read_event_lem :
      (rounds : ℕ) (d : Daq)
      → let vs = event_longs rounds d.calls in
        read_event rounds d ≡ (
          d.segmentsize + length (words_of vs),
          took (words_of vs) (history_after addr (length vs) 0 d.calls) d,
        )
  unfolding read_event event_longs history_after words_of
  read_event_lem rounds d =
      let v = dev.read32_reply d.calls (addr 0) in
      let cs = read32 (addr 0) ∷ d.calls in
      let rest = longs_while dev addr more rounds 1 cs in
      rw (take_test_lem dev (addr 0) d) (elim (Bool-cases (header (high_word v))) [
        | inl go ↦ rw go (
            ap (λ (e : Daq). (e.segmentsize, e))
              (take_while_lem dev addr more rounds 1 (took (words_of (v ∷ [])) cs d)
                ∙ took-took (words_of (v ∷ [])) (words_of rest) cs
                    (history_after addr (length rest) 1 cs) d))
        | inr other ↦ rw other
      ])

  pub place_test_lem :
      (at : ℕ) (d : Daq)
      → let v = dev.read32_reply d.calls at in
        place_test at d ≡ (high_word v, placed (words_of (v ∷ [])) (read32 at ∷ d.calls) d)
  unfolding place_test words_of write_words
  place_test_lem at d =
      let v = dev.read32_reply d.calls at in
      let next : d.base + (d.mp + 1) ≡ d.base + d.mp + 1 = omega arith in
      rw next (λ i. (
        last_word dev v (read32 at ∷ d.calls) d i,
        placed (words_of (v ∷ [])) (read32 at ∷ d.calls) d,
      ))

  pub place_while_lem :
      (rounds wordcnt : ℕ) (d : Daq)
      → let vs = longs_while dev addr more rounds wordcnt d.calls in
        place_while rounds wordcnt d ≡ (
          wordcnt + length vs,
          placed (words_of vs) (history_after addr (length vs) wordcnt d.calls) d,
        )
  unfolding place_while longs_while history_after words_of
  place_while_lem zero wordcnt d =
      let e : wordcnt ≡ wordcnt + 0 = omega arith in
      λ i. (e i, record (sym (took-nil d) i) { segmentsize = d.segmentsize })
  place_while_lem (suc rounds) wordcnt d =
      let at = addr wordcnt in
      let v = dev.read32_reply d.calls at in
      let cs = read32 at ∷ d.calls in
      let d' = placed (words_of (v ∷ [])) cs d in
      let rest = longs_while dev addr more rounds (wordcnt + 1) cs in
      let n : wordcnt + 1 + length rest ≡ wordcnt + suc (length rest) = omega arith in
      let one : wordcnt + 1 ≡ wordcnt + suc zero = omega arith in
      rw (place_test_lem at d) (elim (Bool-cases (more (high_word v))) [
        | inl go ↦ rw go (
            place_while_lem rounds (wordcnt + 1) d' ∙ (λ i. (
              n i,
              record (took-took (words_of (v ∷ [])) (words_of rest) cs
                  (history_after addr (length rest) (wordcnt + 1) cs) d i) {
                    segmentsize = d.segmentsize;
                  },
            )))
        | inr stop ↦ rw stop (λ i. (one i, d'))
      ])
