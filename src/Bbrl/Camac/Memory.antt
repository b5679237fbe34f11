-- ===== src/Bbrl/Camac/Memory.antt =====
-- bbrl.c, read_segmemmod: the readout of a memory module, whose word count is a signed short.
use p42018_vmedaq.Common.{
  ℕ, suc, ◌+◌, ◌<◌, ◌≤◌, ◌≡◌, refl, ap, ◌∙◌, ◌==◌, if◌then◌else◌, Option, none, some, List, [], ◌∷◌,
  length, u16, write_words, Bool-cases, inl, inr, arith, ℤ, pos, ◌+ℤ◌, short, index,
}
use mathlib.Core.Path.{ap₂}
use p42018_vmedaq.Device.{History, camac_read16, camac_write16, camac_block16}
use p42018_vmedaq.Daq.{Daq, M, ◌>>=◌, ◌>>◌, pure, gets, call, push_word}
use p42018_vmedaq.Bbrl.Camac.{Camac, camac_block_at_mp, write_data}
use p42018_vmedaq.Caen.Scaler.{placed}

short_sum : (w : ℕ) → w < 0x8000 → short w +ℤ pos 3 ≡ pos (w + 3)
short_sum w small = ground arith

index-short : (a w : ℕ) → w < 0x8000 → index (pos a +ℤ short w) ≡ some (a + w)
index-short a w small = ground arith

index-short_sum : (a w : ℕ) → w < 0x8000 → index (pos a +ℤ (short w +ℤ pos 3)) ≡ some (a + (w + 3))
index-short_sum a w small = ground arith

-- A count that is negative as a short, and reaches back to before the data.
index-negative :
    (a w : ℕ) → w < 65536 → 0x8000 ≤ w → a + w < 65536 → index (pos a +ℤ short w) ≡ none
index-negative a w word negative back = ground arith

module _ (cam : Camac) where
  -- read_segmemmod up to the block read; the result is `wordcnt`, as a word.
  unfoldable pub memory_header : ℕ → ℕ → ℕ → M ℕ
  memory_header segid c n = do
    write_data cam c n 1 17 0x0001
    wordcnt ← gets (λ d. u16 (cam.word_reply d.calls (cam.cnafgen c n 0 1)))
    call (camac_read16 (cam.cnafgen c n 0 1))
    write_data cam c n 0 17 0x0000
    push_word (wordcnt + 3)
    push_word segid
    push_word wordcnt
    let block = (do
      _ ← camac_block_at_mp cam (camac_block16 cam.qignore (cam.cnafgen c n 0 0) wordcnt)
      pure tt)
    if wordcnt == 0 then pure tt else block
    pure wordcnt

  -- The rest of it, by `mp` and `eventsize` after the signed count was added: there is no result
  -- where one of them would be negative.
  unfoldable pub memory_trailer : ℕ → ℕ → ℕ → Daq → Option ℕ → Option ℕ → Option (ℤ × Daq)
  memory_trailer wordcnt c n d (some mp) (some eventsize) =
      let e = (write_data cam c n 1 17 0x0003 (record d { mp = mp })).1 in
      some (short wordcnt +ℤ pos 3, record e { eventsize = eventsize })
  memory_trailer wordcnt c n d (some mp) none = none
  memory_trailer wordcnt c n d none eventsize = none

  unfoldable pub read_segmemmod : ℕ → ℕ → ℕ → Daq → Option (ℤ × Daq)
  read_segmemmod segid c n d =
      let (wordcnt, e) = memory_header segid c n d in
      memory_trailer wordcnt c n e (index (pos e.mp +ℤ short wordcnt))
        (index (pos e.eventsize +ℤ (short wordcnt +ℤ pos 3)))

  -- What the module answers: its word count, its words, and the history after its readout, in
  -- which it is set to CAMAC mode, asked for the count and the words, and set back to ECL mode.
  abbrev pub memory_count : ℕ → ℕ → History → ℕ
  memory_count c n cs =
      u16 (cam.word_reply (camac_write16 (cam.cnafgen c n 1 17) 1 ∷ cs) (cam.cnafgen c n 0 1))

  abbrev pub memory_asked : ℕ → ℕ → History → History
  memory_asked c n cs =
      camac_write16 (cam.cnafgen c n 0 17) 0
      ∷ camac_read16 (cam.cnafgen c n 0 1)
      ∷ camac_write16 (cam.cnafgen c n 1 17) 1
      ∷ cs

  abbrev pub memory_words : ℕ → ℕ → History → List ℕ
  memory_words c n cs =
      let count = memory_count c n cs in
      let block = camac_block16 cam.qignore (cam.cnafgen c n 0 0) count in
      if count == 0 then [] else cam.block_words (memory_asked c n cs) block

  abbrev pub memory_history : ℕ → ℕ → History → History
  memory_history c n cs =
      let count = memory_count c n cs in
      let block = camac_block16 cam.qignore (cam.cnafgen c n 0 0) count in
      let asked = memory_asked c n cs in
      camac_write16 (cam.cnafgen c n 1 17) 3 ∷ (if count == 0 then asked else block ∷ asked)

  -- The state before the words are counted.
  abbrev headed : ℕ → ℕ → ℕ → Daq → Daq
  headed segid c n d =
      let count = memory_count c n d.calls in
      let block = camac_block16 cam.qignore (cam.cnafgen c n 0 0) count in
      let asked = memory_asked c n d.calls in
      record d {
        mem =
            write_words d.mem (d.base + d.mp)
              (u16 (count + 3) ∷ u16 segid ∷ u16 count ∷ memory_words c n d.calls);
        mp = d.mp + 1 + 1 + 1;
        calls = if count == 0 then asked else block ∷ asked;
      }

  header_lem :
      (segid c n : ℕ) (d : Daq)
      → memory_header segid c n d ≡ (memory_count c n d.calls, headed segid c n d)
  unfolding memory_header write_data write_words
  header_lem segid c n d =
      let one : d.base + (d.mp + 1) ≡ d.base + d.mp + 1 = omega arith in
      let two : d.base + (d.mp + 1 + 1) ≡ d.base + d.mp + 1 + 1 = omega arith in
      let three : d.base + (d.mp + 1 + 1 + 1) ≡ d.base + d.mp + 1 + 1 + 1 = omega arith in
      elim (Bool-cases (memory_count c n d.calls == 0)) [
        | inl none_there ↦ rw (none_there, one, two) refl
        | inr some_there ↦ rw (some_there, one, two, three) refl
      ]

  -- A module that counts less than 0x8000 words, and gives as many, is read out as a segment: the
  -- number of its words and the segment's, and behind the count the module's words. They are
  -- counted in the event, the result is their number, and the module is back in ECL mode.
  pub read_segmemmod_lem :
      (segid c n : ℕ) (d : Daq)
      → let count = memory_count c n d.calls in
        let words = memory_words c n d.calls in
        count < 0x8000
        → length words ≡ count
        → read_segmemmod segid c n d
          ≡ some (
            pos (count + 3),
            record (placed
                ((count + 3) ∷ u16 segid ∷ count ∷ words)
                (memory_history c n d.calls)
                d) { eventsize = d.eventsize + (count + 3) },
          )
  unfolding read_segmemmod memory_trailer write_data
  read_segmemmod_lem segid c n d small whole =
      let count = memory_count c n d.calls in
      let words = memory_words c n d.calls in
      let h = headed segid c n d in
      let rest : ℕ × Daq → Option (ℤ × Daq) = λ r.
        memory_trailer r.0 c n r.1 (index (pos r.1.mp +ℤ short r.0))
          (index (pos r.1.eventsize +ℤ (short r.0 +ℤ pos 3))) in
      let size : u16 (count + 3) ≡ count + 3 = omega arith in
      let same : u16 count ≡ count = omega arith in
      let end : d.mp + 1 + 1 + 1 + count ≡ d.mp + suc (suc (suc (length words))) =
        omega (arith, whole) in
      ap rest (header_lem segid c n d)
      ∙ ap₂ (memory_trailer count c n h) (index-short h.mp count small)
          (index-short_sum h.eventsize count small)
      ∙ λ i. some (
        short_sum count small i,
        record d {
          mem = write_words d.mem (d.base + d.mp) (size i ∷ u16 segid ∷ same i ∷ words);
          mp = end i;
          eventsize = d.eventsize + (count + 3);
          calls = memory_history c n d.calls;
        },
      )

  -- A count of 0x8000 words and more is negative as a short, and moves `mp` back: before the data,
  -- unless as many words stand there.
  pub read_segmemmod-negative :
      (segid c n : ℕ) (d : Daq)
      → let count = memory_count c n d.calls in
        0x8000 ≤ count → d.mp + 3 + count < 65536 → read_segmemmod segid c n d ≡ none
  unfolding read_segmemmod memory_trailer
  read_segmemmod-negative segid c n d negative back =
      let count = memory_count c n d.calls in
      let h = headed segid c n d in
      let rest : ℕ × Daq → Option (ℤ × Daq) = λ r.
        memory_trailer r.0 c n r.1 (index (pos r.1.mp +ℤ short r.0))
          (index (pos r.1.eventsize +ℤ (short r.0 +ℤ pos 3))) in
      ap rest (header_lem segid c n d)
      ∙ ap (λ mp. memory_trailer count c n h mp (index (pos h.eventsize +ℤ (short count +ℤ pos 3))))
          (index-negative h.mp count (omega arith) negative (omega (arith, back)))
