-- ===== src/Bbrl/Dma.antt =====
-- bbrl.c, dmasegdata and dmasegdata_i: what a readout by DMA adds to the block.
use p42018_vmedaq.Common.{
  ℕ, zero, suc, ◌+◌, ◌*◌, ◌^◌, ◌<◌, ◌≡◌, refl, ap, ◌∙◌, Bool, true, false, ◌&&◌, ◌||◌, ltb, leb,
  if◌then◌else◌, Option, none, some, List, [], ◌∷◌, length, Bool-cases, inl, inr, update,
  write_words, arith,
}
use mathlib.Core.Path.{ap₂}
use p42018_vmedaq.Device.{
  Device, Call, History, dma_start, dma_store, dma_start_i, dma_store_i, delay,
}
use p42018_vmedaq.Daq.{Daq, took, low_word, high_word}
use p42018_vmedaq.Daq.Readout.{words_of, length-words_of}
use p42018_vmedaq.Bbrl.{
  dma_wait, copy_dmadata, dma_finish, dma_read, dmasegdata, dmasegdata_i, dmadelaymax, dmamax,
}

-- The long words from `k` on.
unfoldable pub longs_from : (ℕ → ℕ) → ℕ → ℕ → List ℕ
longs_from f k zero = []
longs_from f k (suc n) = f k ∷ longs_from f (k + 1) n

length-longs_from : (f : ℕ → ℕ) (k n : ℕ) → length (longs_from f k n) ≡ n
unfolding longs_from
length-longs_from f k zero = refl
length-longs_from f k (suc n) = omega (arith, length-longs_from f (k + 1) n)

longs_ext :
    (f g : ℕ → ℕ) (k n : ℕ)
    → ((j : ℕ) → j < k + n → f j ≡ g j)
    → longs_from f k n ≡ longs_from g k n
unfolding longs_from
longs_ext f g k zero h = refl
longs_ext f g k (suc n) h =
    ap₂ (λ v vs. v ∷ vs) (h k (omega arith))
      (longs_ext f g (k + 1) n (λ j small. h j (omega arith)))

-- `dmadata` after a transfer.
abbrev pub filled : (ℕ → ℕ) → (ℕ → ℕ) → ℕ → ℕ → ℕ
filled longs old csize k = if ltb (k * 4) csize then longs k else old k

module _ (dev : Device) where
  copy_lem :
      (n k i : ℕ) (d : Daq)
      → (copy_dmadata dev n k i d).1
        ≡ record d { mem = write_words d.mem (d.base + i) (words_of (longs_from d.dmadata k n)) }
  unfolding copy_dmadata longs_from words_of write_words
  copy_lem zero k i d = refl
  copy_lem (suc n) k i d =
      let v = d.dmadata k in
      let at_high : d.base + (i + 1) ≡ d.base + i + 1 = omega arith in
      let at_next : d.base + (i + 2) ≡ d.base + i + 1 + 1 = omega arith in
      let low = update d.mem (d.base + i) (low_word v) in
      let next : Daq = record d { mem = update low (d.base + (i + 1)) (high_word v) } in
      let put : ℕ → ℕ → Daq = λ a b. record d {
        mem =
            write_words (update low a (high_word v)) b (words_of (longs_from d.dmadata (k + 1) n));
      } in
      copy_lem n (k + 1) (i + 2) next ∙ ap₂ put at_high at_next

  -- The answer of the first poll that has one, and the history after it; none if `rounds` polls
  -- have none.
  unfoldable pub polled : Call → ℕ → History → Option (ℕ → ℕ) × History
  polled store zero cs = (none, cs)
  polled store (suc rounds) cs =
      let later = polled store rounds (delay ∷ store ∷ cs) in
      if dev.dma_done cs then (some (dev.dma_longs cs), store ∷ cs) else later

  -- What a readout adds, by the answer: the `rsize` long words, or the mark of a time-out with the
  -- number of polls.
  unfoldable pub added : ℕ → Daq → Option (ℕ → ℕ) × History → Daq
  added rsize d (some longs, cs) = record (took (words_of (longs_from longs 0 rsize)) cs d) {
    dmadata = filled longs d.dmadata (rsize * 4);
  }
  added rsize d (none, cs) = took (0xfeee ∷ dmadelaymax ∷ []) cs d

  -- The polling loop, by the answer.
  abbrev waited : ℕ → Daq → Option (ℕ → ℕ) × History → (Bool × ℕ) × Daq
  waited csize d (some longs, cs) =
      ((true, dmadelaymax + 101), record d { calls = cs; dmadata = filled longs d.dmadata csize })
  waited csize d (none, cs) = ((false, dmadelaymax), record d { calls = cs })

  wait_lem :
      (store : Call) (csize rounds : ℕ) (d : Daq)
      → dma_wait dev store csize rounds d ≡ waited csize d (polled store rounds d.calls)
  unfolding dma_wait polled
  wait_lem store csize zero d = refl
  wait_lem store csize (suc rounds) d =
      let again : Daq = record d { calls = delay ∷ store ∷ d.calls } in
      elim (Bool-cases (dev.dma_done d.calls)) [
        | inl done ↦ rw done refl
        | inr busy ↦ rw busy (wait_lem store csize rounds again)
      ]

  finish_lem :
      (rsize : ℕ) (d : Daq) (p : Option (ℕ → ℕ) × History)
      → let w = waited (rsize * 4) d p in
        dma_finish dev rsize w.0 w.1 ≡ ((added rsize d p).segmentsize, added rsize d p)
  unfolding dma_finish added write_words
  finish_lem rsize d (some longs, cs) =
      let all = filled longs d.dmadata (rsize * 4) in
      let w : Daq = record d { calls = cs; dmadata = all } in
      let ws = words_of (longs_from longs 0 rsize) in
      let same : longs_from all 0 rsize ≡ longs_from longs 0 rsize =
        longs_ext all longs 0 rsize (λ j small. ground arith) in
      let size : rsize * 2 ≡ length ws =
        omega
          (arith, length-words_of (longs_from longs 0 rsize), length-longs_from longs 0 rsize) in
      let counted : Daq → ℕ → ℕ × Daq =
        λ x k. (x.segmentsize + k, record x { mp = x.mp + k; segmentsize = x.segmentsize + k }) in
      ap (λ (x : Daq). counted x (rsize * 2)) (copy_lem rsize 0 w.mp w)
      ∙ ap₂ (λ vs k. counted (record w { mem = write_words w.mem (w.base + w.mp) (words_of vs) }) k)
          same size
  finish_lem rsize d (none, cs) =
      let at : d.base + (d.mp + 1) ≡ d.base + d.mp + 1 = omega arith in
      let next : d.mp + 1 + 1 ≡ d.mp + 2 = omega arith in
      λ i. (
        d.segmentsize + 2,
        record d {
          mem = update (update d.mem (d.base + d.mp) 0xfeee) (at i) dmadelaymax;
          mp = next i;
          segmentsize = d.segmentsize + 2;
          calls = cs;
        },
      )

  -- What a readout leaves, with the segment's size, by the answer: nothing defined where the bridge
  -- has stored more long words than `dmadata` has.
  unfoldable pub outcome : ℕ → Daq → Option (ℕ → ℕ) × History → Option (ℕ × Daq)
  unfolding added
  outcome rsize d (some longs, cs) =
      let e = added rsize d (some longs, cs) in
      if ltb dmamax rsize then none else some (e.segmentsize, e)
  outcome rsize d (none, cs) = let e = added rsize d (none, cs) in some (e.segmentsize, e)

  finish : ℕ → (Bool × ℕ) × Daq → Option (ℕ × Daq)
  finish rsize r =
      if leb (2 ^ 31) (rsize * 4) || (r.0.0 && ltb dmamax rsize)
      then none
      else some (dma_finish dev rsize r.0 r.1)

  outcome_lem :
      (rsize : ℕ) (d : Daq) (p : Option (ℕ → ℕ) × History)
      → rsize < 2 ^ 29
      → finish rsize (waited (rsize * 4) d p) ≡ outcome rsize d p
  unfolding outcome finish
  outcome_lem rsize d (some longs, cs) small =
      let whole : leb (2 ^ 31) (rsize * 4) ≡ false = ground arith in
      ap
        (λ b.
          if b || ltb dmamax rsize
          then none
          else some (
              dma_finish dev rsize (waited (rsize * 4) d (some longs, cs)).0
                (waited (rsize * 4) d (some longs, cs)).1))
        whole
      ∙ ap (λ x. if ltb dmamax rsize then none else some x) (finish_lem rsize d (some longs, cs))
  outcome_lem rsize d (none, cs) small =
      let whole : leb (2 ^ 31) (rsize * 4) ≡ false = ground arith in
      ap
        (λ b.
          if b || false
          then none
          else some (
              dma_finish dev rsize (waited (rsize * 4) d (none, cs)).0
                (waited (rsize * 4) d (none, cs)).1))
        whole
      ∙ ap (λ x. some x) (finish_lem rsize d (none, cs))

  dma_read_lem :
      (start store : Call) (rsize : ℕ) (d : Daq)
      → rsize < 2 ^ 29
      → dma_read dev start store rsize d
        ≡ outcome rsize d (polled store dmadelaymax (delay ∷ start ∷ d.calls))
  unfolding dma_read finish
  dma_read_lem start store rsize d small =
      let begun : Daq = record d { calls = delay ∷ start ∷ d.calls } in
      let p = polled store dmadelaymax begun.calls in
      ap (finish rsize) (wait_lem store (rsize * 4) dmadelaymax begun) ∙ outcome_lem rsize d p small

  -- Whatever the bridge answers, `dmasegdata` polls it 10000 times at most, and `dmasegdata_i` does so
  -- on the engine of that number. With the first answer the `rsize` long words that were stored
  -- stand behind the block's other words, low half first; without one the mark of a time-out does,
  -- with the number of polls. The words are counted in the block and in the segment, whose new size
  -- is the result. Where the bridge answers and `rsize` is above DMAMAX, the store overruns `dmadata`,
  -- and there is no result. The int `csize`, four times `rsize`, is below 2 ^ 31.
  pub dmasegdata_lem :
      (maddr rsize dn : ℕ) (d : Daq)
      → rsize < 2 ^ 29
      → let start = dma_start maddr (rsize * 4) in
        let start_i = dma_start_i maddr (rsize * 4) dn in
        (dmasegdata dev maddr rsize d
          ≡ outcome rsize d (polled (dma_store (rsize * 4)) dmadelaymax (delay ∷ start ∷ d.calls)))
        × (dmasegdata_i dev maddr rsize dn d
            ≡ outcome rsize d
                (polled (dma_store_i (rsize * 4) dn) dmadelaymax (delay ∷ start_i ∷ d.calls)))
  unfolding dmasegdata dmasegdata_i
  dmasegdata_lem maddr rsize dn d small = (
    dma_read_lem (dma_start maddr (rsize * 4)) (dma_store (rsize * 4)) rsize d small,
    dma_read_lem (dma_start_i maddr (rsize * 4) dn) (dma_store_i (rsize * 4) dn) rsize d small,
  )
