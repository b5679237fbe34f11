-- ===== src/Converters/Frame.antt =====
-- A `segmod` routine against the framing of bbrl.c: init_segment, the readout, end_segment.
use p42018_vmedaq.Common.{
  ℕ, suc, ◌+◌, ◌*◌, ◌≡◌, ap, ◌∙◌, sym, Bool, if◌then◌else◌, List, [], ◌∷◌, length, Bool-cases, inl,
  inr, arith, write_words, update, Memory, u16, update-write_words,
}
use p42018_vmedaq.Device.{Device, read32}
use p42018_vmedaq.Daq.{Daq, ◌>>=◌, ◌>>◌, pure, high_word}
use p42018_vmedaq.Daq.Readout.{words_of, length-words_of, longs_while, history_after, took-took}
use p42018_vmedaq.Bbrl.{init_segment, end_segment}
use p42018_vmedaq.Bbrl.Segment.{segment, segment_lem}
use p42018_vmedaq.Caen.Scaler.{placed}
use p42018_vmedaq.Converters.Loop.{
  read_event, read_segment, event_longs, read_event_lem, place_while, place_while_lem,
  place_test_lem,
}

-- The header words of a segment may be written after its payload.
late_header :
    (m : Memory) (b p size id : ℕ) (ws : List ℕ)
    → update (update (write_words m (b + (p + 2)) ws) (b + p) size) (b + (p + 1)) id
      ≡ write_words m (b + p) (size ∷ id ∷ ws)
unfolding write_words
late_header m b p size id ws =
    let at_id : b + (p + 1) ≡ b + p + 1 = omega arith in
    let at_ws : b + (p + 2) ≡ b + p + 1 + 1 = omega arith in
    rw (at_id, at_ws)
      (ap (λ (k : Memory). update k (b + p + 1) id)
          (update-write_words ws m (b + p) (b + p + 1 + 1) size (omega arith))
        ∙ update-write_words ws (update m (b + p) size) (b + p + 1) (b + p + 1 + 1) id
            (omega arith))

-- The same state, but for the variables that only the framing functions use.
abbrev pub unframed : Daq → Daq → Daq
unframed d e = record e { segmenthmp = d.segmenthmp; segmentsize = d.segmentsize }

module _ (dev : Device) (addr : ℕ → ℕ) (header more : ℕ → Bool) where
  taken_lem :
      (rounds : ℕ) (d : Daq)
      → let v = dev.read32_reply d.calls (addr 0) in
        let vs = event_longs dev addr header more rounds d.calls in
        (if header (high_word v) then place_while dev addr header more rounds 1 else pure 1)
          (placed (words_of (v ∷ [])) (read32 (addr 0) ∷ d.calls) d)
        ≡ (length vs, placed (words_of vs) (history_after addr (length vs) 0 d.calls) d)
  unfolding event_longs history_after words_of
  taken_lem rounds d =
      let v = dev.read32_reply d.calls (addr 0) in
      let cs = read32 (addr 0) ∷ d.calls in
      let d' = placed (words_of (v ∷ [])) cs d in
      let rest = longs_while dev addr more rounds 1 cs in
      let n : 1 + length rest ≡ suc (length rest) = omega arith in
      elim (Bool-cases (header (high_word v))) [
        | inl go ↦ rw go (
            place_while_lem dev addr header more rounds 1 d' ∙ (λ i. (
              n i,
              record (took-took (words_of (v ∷ [])) (words_of rest) cs
                  (history_after addr (length rest) 1 cs) d i) { segmentsize = d.segmentsize },
            )))
        | inr other ↦ rw other
      ]

  -- What `read_segment` makes of its readout.
  abbrev finish : ℕ → Daq → ℕ × Daq → ℕ × Daq
  finish segid d r =
      let n = r.0 in
      let b = r.1.base in
      (
        n * 2 + 2,
        record r.1 {
          mem = update (update r.1.mem (b + d.mp) (u16 (n * 2 + 2))) (b + (d.mp + 1)) (u16 segid);
          mp = d.mp + 1 + 1 + n * 2;
          eventsize = r.1.eventsize + (n * 2 + 2);
        },
      )

  read_segment_lem :
      (rounds segid : ℕ) (d : Daq)
      → let vs = event_longs dev addr header more rounds d.calls in
        let s = segment segid (words_of vs) (history_after addr (length vs) 0 d.calls) d in
        read_segment dev addr header more rounds segid d ≡ (2 + length (words_of vs), unframed d s)
  unfolding read_segment
  read_segment_lem rounds segid d =
      let vs = event_longs dev addr header more rounds d.calls in
      let cs = history_after addr (length vs) 0 d.calls in
      let n : length vs * 2 + 2 ≡ 2 + length (words_of vs) = omega (arith, length-words_of vs) in
      let end : d.mp + 1 + 1 + length vs * 2 ≡ d.mp + (2 + length (words_of vs)) =
        omega (arith, length-words_of vs) in
      let opened : Daq = record d { mp = d.mp + 2 } in
      rw (place_test_lem dev addr header more (addr 0) opened) (
        ap (finish segid d) (taken_lem rounds opened) ∙ (λ i. (
          n i,
          record d {
            mem =
                (ap
                      (λ k.
                        update
                          (update (write_words d.mem (d.base + (d.mp + 2)) (words_of vs))
                            (d.base + d.mp) (u16 k))
                          (d.base + (d.mp + 1)) (u16 segid))
                      n
                    ∙ late_header d.mem d.base d.mp (u16 (2 + length (words_of vs))) (u16 segid)
                        (words_of vs))
                  i;
            mp = end i;
            eventsize = d.eventsize + n i;
            calls = cs;
          },
        )))

  -- A `segmod` routine leaves the words, the event's size and the calls that the framing functions
  -- leave around the readout of one event, and returns the segment's size.
  pub read_segment-framed :
      (rounds segid : ℕ) (d : Daq)
      → let framed =
          (init_segment segid >> read_event dev addr header more rounds >>= λ _. end_segment) d in
        read_segment dev addr header more rounds segid d
        ≡ (framed.1.segmentsize, unframed d framed.1)
  unfolding init_segment
  read_segment-framed rounds segid d =
      let vs = event_longs dev addr header more rounds d.calls in
      let cs = history_after addr (length vs) 0 d.calls in
      let begun = (init_segment segid d).1 in
      let e =
        segment_lem segid (read_event dev addr header more rounds) (words_of vs) cs d
          (ap (λ (r : ℕ × Daq). r.1) (read_event_lem dev addr header more rounds begun)) in
      read_segment_lem rounds segid d ∙ sym (ap (λ (f : Daq). (f.segmentsize, unframed d f)) e)
