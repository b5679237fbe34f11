-- ===== src/Handlers/Format.antt =====
-- evt.c against a reader of the format: the three segments come back.
use p42018_vmedaq.Common.{
  ℕ, ◌+◌, ◌-◌, ◌≡◌, sym, ap, ◌∙◌, List, [], ◌∷◌, ◌++◌, length, u16, arith, append_assoc, append-nil,
  slice, slice-write_words, write_words, update, bit_and-le, add32, bit_or,
}
use mathlib.Core.Path.{ap₂}
use p42018_vmedaq.Device.{Device, History, read16}
use p42018_vmedaq.Daq.{Daq}
use p42018_vmedaq.Daq.Readout.{words_of, length-words_of}
use p42018_vmedaq.Bbrl.Segment.{segment_words}
use p42018_vmedaq.Bbrl.Format.{parse_segments, parse-segment_words, IsSized, Segment}
use p42018_vmedaq.Caen.Registers.{v1x90_out_buff}
use p42018_vmedaq.Caen.Tdc.{length-v1x90_longs}
use p42018_vmedaq.Madc32.Registers.{reg_data, reg_buffer_data_length}
use p42018_vmedaq.Madc32.Readout.{length-answers, buffer_length}
use p42018_vmedaq.Handlers.{evt, madc32adr, madc32p2adr, v1190_adr}
use p42018_vmedaq.Handlers.Event.{
  madc_longs, tdc_longs, reset_history, evt_body, evt_lem, after_evt,
}

-- What a reader of the event behind its header should find.
module _ (dev : Device) where
  abbrev pub evt_segments : History → List Segment
  evt_segments cs =
      let cs1 = reset_history dev madc32adr cs in
      let cs2 = reset_history dev madc32p2adr cs1 in
      (1, words_of (madc_longs dev madc32adr cs))
      ∷ (1, words_of (madc_longs dev madc32p2adr cs1))
      ∷ (2, words_of (tdc_longs dev cs2))
      ∷ []

  madc-IsSized : (maddr : ℕ) (cs : History) → IsSized (1, words_of (madc_longs dev maddr cs))
  unfolding madc_longs
  madc-IsSized maddr cs =
      let at_len = add32 maddr reg_buffer_data_length in
      let n = buffer_length dev at_len cs in
      (
        omega arith,
        omega (
          arith,
          length-words_of (madc_longs dev maddr cs),
          length-answers dev (add32 maddr reg_data) n (read16 at_len ∷ cs),
          bit_and-le (u16 (dev.read16_reply cs at_len)) 0x3fff,
        ),
      )

  tdc-IsSized : (cs : History) → IsSized (2, words_of (tdc_longs dev cs))
  unfolding tdc_longs
  tdc-IsSized cs =
      let bs = read16 (add32 v1190_adr 0x1020) ∷ cs in
      (
        omega arith,
        omega (
          arith,
          length-words_of (tdc_longs dev cs),
          (length-v1x90_longs dev (add32 v1190_adr v1x90_out_buff) bs).1,
        ),
      )

  pub parse-evt_body : (cs : History) → parse_segments 3 (evt_body dev cs) ≡ evt_segments cs
  unfolding evt_body parse_segments
  parse-evt_body cs =
      let cs1 = reset_history dev madc32adr cs in
      let cs2 = reset_history dev madc32p2adr cs1 in
      let w1 = words_of (madc_longs dev madc32adr cs) in
      let w2 = words_of (madc_longs dev madc32p2adr cs1) in
      let w3 = words_of (tdc_longs dev cs2) in
      ap (parse_segments 3)
        (append_assoc (segment_words 1 w1) (segment_words 1 w2) (segment_words 2 w3))
      ∙ parse-segment_words 2 (1, w1) (segment_words 1 w2 ++ segment_words 2 w3)
          (madc-IsSized madc32adr cs)
      ∙ ap (◌∷◌ (1, w1)) (
          parse-segment_words 1 (1, w2) (segment_words 2 w3) (madc-IsSized madc32p2adr cs1)
          ∙ ap (◌∷◌ (1, w2)) (
              ap (parse_segments 1) (sym (append-nil (segment_words 2 w3)))
              ∙ parse-segment_words 0 (2, w3) [] (tdc-IsSized cs2)))

  event_slice :
      (d : Daq) (n : ℕ)
      → n ≡ length (evt_body dev d.calls)
      → slice (after_evt dev d).mem (d.base + d.mp + 3) n ≡ evt_body dev d.calls
  unfolding write_words
  event_slice d n e =
      let body = evt_body dev d.calls in
      let a = d.base + d.mp in
      let size = u16 (bit_or (3 + length body) 0x8000) in
      let m =
        update (update (update d.mem a size) (a + 1) (u16 1)) (a + 1 + 1) (u16 (d.eventid + 1)) in
      let at : a + 3 ≡ a + 1 + 1 + 1 = omega arith in
      ap₂ (λ x k. slice (write_words m (a + 1 + 1 + 1) body) x k) at e
      ∙ slice-write_words body m (a + 1 + 1 + 1)

  -- The words that `evt` puts behind the header of its event are taken apart again into the two
  -- MADC-32 segments and the V1190 segment, with exactly the long words that the modules answered,
  -- whatever those are.
  pub parse-evt :
      (d : Daq)
      → let t = (evt dev d).1 in
        parse_segments 3 (slice t.mem (d.base + d.mp + 3) (t.mp - (d.mp + 3)))
        ≡ evt_segments d.calls
  parse-evt d =
      ap (λ (t : Daq). parse_segments 3 (slice t.mem (d.base + d.mp + 3) (t.mp - (d.mp + 3))))
        (evt_lem dev d)
      ∙ ap (parse_segments 3)
          (event_slice d (d.mp + (3 + length (evt_body dev d.calls)) - (d.mp + 3)) (omega arith))
      ∙ parse-evt_body d.calls
