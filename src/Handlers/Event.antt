-- ===== src/Handlers/Event.antt =====
-- evt.c: one trigger's event, from the answers of the modules to the words in the buffer.
use p42018_vmedaq.Common.{
  ℕ, ◌+◌, ◌≡◌, refl, ap, ◌∙◌, List, [], ◌∷◌, ◌++◌, length, replicate, not, ltb, if◌then◌else◌,
  add32, Bool-cases, inl, inr,
}
use p42018_vmedaq.Device.{Device, History, Call, read16, read32, write16}
use p42018_vmedaq.Daq.{Daq, ◌>>=◌, ◌>>◌, took, pure}
use p42018_vmedaq.Daq.Readout.{words_of}
use p42018_vmedaq.Bbrl.{init_event, init_segment, end_event, end_segment, maxbuff}
use p42018_vmedaq.Bbrl.Segment.{segment, segment_words, segment_lem}
use p42018_vmedaq.Bbrl.Event.{
  in_event, after_event, init_event_lem, segment-in_event, end_event_lem,
}
use p42018_vmedaq.Caen.Registers.{v1x90_out_buff}
use p42018_vmedaq.Caen.{v1x90_segdata}
use p42018_vmedaq.Caen.Tdc.{v1x90_longs, v1x90_segdata_lem}
use p42018_vmedaq.Madc32.Registers.{reg_data, reg_buffer_data_length, reg_readout_reset}
use p42018_vmedaq.Madc32.{madc32_segdata, madc32_readout_reset}
use p42018_vmedaq.Madc32.Readout.{answers, buffer_length, madc32_segdata_lem}
use p42018_vmedaq.Lupo.{lupo_pout, lupo_io_pout, lupo_io_busycl}
use p42018_vmedaq.Handlers.{evt, busy_clear, madc32adr, madc32p2adr, v1190_adr, lupo_adr}

-- The write that releases the busy state.
abbrev pub busycl : Call
busycl = write16 (add32 lupo_adr lupo_io_pout) lupo_io_busycl

-- The reads of `n` long words from one address, in front of a history.
abbrev pub reads : ℕ → ℕ → History → History
reads addr n cs = replicate n (read32 addr) ++ cs

-- The rest of `evt` behind its third segment.
abbrev evt3 : Daq → Daq
evt3 d = ((busy_clear >> end_event >>= λ _. pure (tt {0})) d).1

module _ (dev : Device) where
  -- What a MADC-32 answers after the history `cs`, and the history after its readout and reset.
  unfoldable pub madc_longs : ℕ → History → List ℕ
  madc_longs maddr cs =
      let at_len = add32 maddr reg_buffer_data_length in
      answers dev (add32 maddr reg_data) (buffer_length dev at_len cs) (read16 at_len ∷ cs)

  unfoldable pub madc_history : ℕ → History → History
  madc_history maddr cs =
      reads (add32 maddr reg_data) (length (madc_longs maddr cs))
        (read16 (add32 maddr reg_buffer_data_length) ∷ cs)

  unfoldable pub reset_history : ℕ → History → History
  reset_history maddr cs = write16 (add32 maddr reg_readout_reset) 1 ∷ madc_history maddr cs

  -- The same for the V1190.
  unfoldable pub tdc_longs : History → List ℕ
  tdc_longs cs =
      v1x90_longs dev (add32 v1190_adr v1x90_out_buff) (read16 (add32 v1190_adr 0x1020) ∷ cs)

  unfoldable pub tdc_history : History → History
  tdc_history cs =
      reads (add32 v1190_adr v1x90_out_buff) (length (tdc_longs cs))
        (read16 (add32 v1190_adr 0x1020) ∷ cs)

  -- The segments of the event that is read out after the history `cs`.
  unfoldable pub evt_body : History → List ℕ
  evt_body cs =
      let cs1 = reset_history madc32adr cs in
      let cs2 = reset_history madc32p2adr cs1 in
      (segment_words 1 (words_of (madc_longs madc32adr cs))
        ++ segment_words 1 (words_of (madc_longs madc32p2adr cs1)))
      ++ segment_words 2 (words_of (tdc_longs cs2))

  unfoldable pub evt_history : History → History
  evt_history cs = tdc_history (reset_history madc32p2adr (reset_history madc32adr cs))

  -- Readouts in the form that `segment_lem` takes.
  madc_took :
      (maddr : ℕ) (d : Daq)
      → (madc32_segdata dev maddr d).1
        ≡ took (words_of (madc_longs maddr d.calls)) (madc_history maddr d.calls) d
  unfolding madc_longs madc_history
  madc_took maddr d i = (madc32_segdata_lem dev maddr d i).1

  tdc_took :
      (d : Daq)
      → (v1x90_segdata dev v1190_adr d).1
        ≡ took (words_of (tdc_longs d.calls)) (tdc_history d.calls) d
  unfolding tdc_longs tdc_history
  tdc_took d i = (v1x90_segdata_lem dev v1190_adr d i).1

  -- The rest of `evt` behind its second and first segment.
  abbrev evt2 : Daq → Daq
  evt2 d =
      evt3
        ((madc32_readout_reset madc32p2adr 1
            >> init_segment 2
            >> v1x90_segdata dev v1190_adr
            >>= λ _. end_segment)
          d).1

  abbrev evt1 : Daq → Daq
  evt1 d =
      evt2
        ((madc32_readout_reset madc32adr 1
            >> init_segment 1
            >> madc32_segdata dev madc32p2adr
            >>= λ _. end_segment)
          d).1

  evt_parts :
      (d : Daq)
      → (evt dev d).1
        ≡ evt1
            ((init_segment 1 >> madc32_segdata dev madc32adr >>= λ _. end_segment)
              (init_event 1 d).1).1
  unfolding evt
  evt_parts d = refl

  madc_segment :
      (id maddr : ℕ) (d : Daq)
      → ((init_segment id >> madc32_segdata dev maddr >>= λ _. end_segment) d).1
        ≡ segment id (words_of (madc_longs maddr d.calls)) (madc_history maddr d.calls) d
  unfolding init_segment
  madc_segment id maddr d =
      segment_lem id (madc32_segdata dev maddr) (words_of (madc_longs maddr d.calls))
        (madc_history maddr d.calls) d (madc_took maddr (init_segment id d).1)

  tdc_segment :
      (id : ℕ) (d : Daq)
      → ((init_segment id >> v1x90_segdata dev v1190_adr >>= λ _. end_segment) d).1
        ≡ segment id (words_of (tdc_longs d.calls)) (tdc_history d.calls) d
  unfolding init_segment
  tdc_segment id d =
      segment_lem id (v1x90_segdata dev v1190_adr) (words_of (tdc_longs d.calls))
        (tdc_history d.calls) d (tdc_took (init_segment id d).1)

  -- A MADC-32 segment read out in an event is appended to it, and likewise the V1190's.
  madc-in_event :
      (maddr : ℕ) (body : List ℕ) (h s : ℕ) (bs : History) (d : Daq)
      → let ws = words_of (madc_longs maddr bs) in
        ((init_segment 1 >> madc32_segdata dev maddr >>= λ _. end_segment)
          (in_event 1 body h s bs d)).1
        ≡ in_event 1
            (body ++ segment_words 1 ws)
            (d.mp + (3 + length body))
            (2 + length ws)
            (madc_history maddr bs)
            d
  madc-in_event maddr body h s bs d =
      madc_segment 1 maddr (in_event 1 body h s bs d)
      ∙ segment-in_event 1 body h s bs 1 (words_of (madc_longs maddr bs)) (madc_history maddr bs) d

  tdc-in_event :
      (body : List ℕ) (h s : ℕ) (bs : History) (d : Daq)
      → let ws = words_of (tdc_longs bs) in
        ((init_segment 2 >> v1x90_segdata dev v1190_adr >>= λ _. end_segment)
          (in_event 1 body h s bs d)).1
        ≡ in_event 1
            (body ++ segment_words 2 ws)
            (d.mp + (3 + length body))
            (2 + length ws)
            (tdc_history bs)
            d
  tdc-in_event body h s bs d =
      tdc_segment 2 (in_event 1 body h s bs d)
      ∙ segment-in_event 1 body h s bs 2 (words_of (tdc_longs bs)) (tdc_history bs) d

-- The busy clear of evt.c: the state it leaves in `mpflag`, and its write where it does not wait.
abbrev pub busy_cleared : Daq → Daq
busy_cleared d = record d {
  mpflag = not (ltb d.mp maxbuff);
  calls = if ltb d.mp maxbuff then busycl ∷ d.calls else d.calls;
}

busy_clear_lem : (d : Daq) → (busy_clear d).1 ≡ busy_cleared d
unfolding busy_clear lupo_pout
busy_clear_lem d = elim (Bool-cases (ltb d.mp maxbuff)) [ inl h ↦ rw h | inr h ↦ rw h ]

module _ (dev : Device) where
  -- The words of the event that are written before its last segment.
  pub evt_front : History → List ℕ
  evt_front cs =
      segment_words 1 (words_of (madc_longs dev madc32adr cs))
      ++ segment_words 1 (words_of (madc_longs dev madc32p2adr (reset_history dev madc32adr cs)))

  pub evt_last : History → List ℕ
  evt_last cs =
      words_of (tdc_longs dev (reset_history dev madc32p2adr (reset_history dev madc32adr cs)))

  -- The state after `evt`, in terms of the state before it.
  abbrev pub after_evt : Daq → Daq
  after_evt d =
      let body = evt_body dev d.calls in
      let room = ltb (d.mp + (3 + length body)) maxbuff in
      let cs = evt_history dev d.calls in
      after_event 1 body (d.mp + (3 + length (evt_front d.calls))) (2 + length (evt_last d.calls))
        (if room then busycl ∷ cs else cs) (record d { mpflag = not room })

  -- `evt` leaves the state `after_evt`: one closed event with exactly the three segments that the
  -- modules' answers make, the calls that read them, and the busy state released, or `mpflag` set
  -- where the event ends at MAXBUFF or past it.
  pub evt_lem : (d : Daq) → (evt dev d).1 ≡ after_evt d
  unfolding evt_body evt_history reset_history madc32_readout_reset evt_front evt_last
  evt_lem d =
      let cs0 = d.calls in
      let cs1 = reset_history dev madc32adr cs0 in
      let cs2 = reset_history dev madc32p2adr cs1 in
      let ws1 = words_of (madc_longs dev madc32adr cs0) in
      let ws2 = words_of (madc_longs dev madc32p2adr cs1) in
      let s1 = segment_words 1 ws1 in
      let s2 = segment_words 1 ws2 in
      let h1 = d.mp + (3 + length {A = ℕ} []) in
      let h2 = d.mp + (3 + length s1) in
      let h3 = d.mp + (3 + length (s1 ++ s2)) in
      let s3 = 2 + length (evt_last cs0) in
      let e3 = in_event 1 (evt_body dev cs0) h3 s3 (evt_history dev cs0) d in
      let d' = record d { mpflag = not (ltb e3.mp maxbuff) } in
      evt_parts dev d
      ∙ ap
          (λ e.
            evt1 dev ((init_segment 1 >> madc32_segdata dev madc32adr >>= λ _. end_segment) e).1)
          (init_event_lem 1 d)
      ∙ ap (evt1 dev) (madc-in_event dev madc32adr [] d.segmenthmp d.segmentsize cs0 d)
      ∙ ap (evt2 dev) (madc-in_event dev madc32p2adr s1 h1 (2 + length ws1) cs1 d)
      ∙ ap evt3 (tdc-in_event dev (s1 ++ s2) h2 (2 + length ws2) cs2 d)
      ∙ ap (λ e. (end_event e).1) (busy_clear_lem e3)
      ∙ (λ i. (end_event_lem 1 (evt_body dev cs0) h3 s3 (busy_cleared e3).calls d' i).1)
