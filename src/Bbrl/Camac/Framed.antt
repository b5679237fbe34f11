-- ===== src/Bbrl/Camac/Framed.antt =====
-- read_segmod against the framing of bbrl.c: init_segment, read_segndata, end_segment.
use p42018_vmedaq.Common.{
  ℕ, zero, suc, ◌+◌, ◌≡◌, refl, sym, ap, ◌∙◌, List, [], ◌∷◌, length, u16, update, Memory,
  write_words, arith,
}
use p42018_vmedaq.Device.{History, camac_read16}
use p42018_vmedaq.Daq.{Daq, ◌>>=◌, ◌>>◌, took}
use p42018_vmedaq.Daq.Readout.{took-took, took-nil}
use p42018_vmedaq.Bbrl.{init_segment, end_segment}
use p42018_vmedaq.Bbrl.Segment.{segment, segment_lem}
use p42018_vmedaq.Bbrl.Camac.{Camac, segndata_loop, read_segndata, segmod_loop, read_segmod}
use p42018_vmedaq.Caen.Scaler.{placed}
use p42018_vmedaq.Converters.Frame.{unframed}

-- The header words of a segment, written before its payload.
early_header :
    (m : Memory) (b p size id : ℕ) (ws : List ℕ)
    → write_words (update (update m (b + p) size) (b + (p + 1)) id) (b + (p + 1 + 1)) ws
      ≡ write_words m (b + p) (size ∷ id ∷ ws)
unfolding write_words
early_header m b p size id ws =
    let at_id : b + (p + 1) ≡ b + p + 1 = omega arith in
    let at_ws : b + (p + 1 + 1) ≡ b + p + 1 + 1 = omega arith in rw (at_id, at_ws)

module _ (cam : Camac) (c n f : ℕ) where
  -- What `len` reads from the subaddress `a` on answer, and the history after them.
  unfoldable pub camac_words : ℕ → ℕ → History → List ℕ
  camac_words zero a cs = []
  camac_words (suc len) a cs =
      let cnaf = cam.cnafgen c n a f in
      u16 (cam.word_reply cs cnaf) ∷ camac_words len (a + 1) (camac_read16 cnaf ∷ cs)

  unfoldable pub camac_history : ℕ → ℕ → History → History
  camac_history zero a cs = cs
  camac_history (suc len) a cs = camac_history len (a + 1) (camac_read16 (cam.cnafgen c n a f) ∷ cs)

  pub length-camac_words : (len a : ℕ) (cs : History) → length (camac_words len a cs) ≡ len
  unfolding camac_words
  length-camac_words zero a cs = refl
  length-camac_words (suc len) a cs =
      ap suc (length-camac_words len (a + 1) (camac_read16 (cam.cnafgen c n a f) ∷ cs))

  pub segndata_lem :
      (len a : ℕ) (d : Daq)
      → (segndata_loop cam len c n a f d).1
        ≡ took (camac_words len a d.calls) (camac_history len a d.calls) d
  unfolding segndata_loop camac_words camac_history write_words
  segndata_lem zero a d = sym (took-nil d)
  segndata_lem (suc len) a d =
      let cnaf = cam.cnafgen c n a f in
      let w = u16 (cam.word_reply d.calls cnaf) in
      let cs = camac_read16 cnaf ∷ d.calls in
      segndata_lem len (a + 1) (took (w ∷ []) cs d)
      ∙ took-took (w ∷ []) (camac_words len (a + 1) cs) cs (camac_history len (a + 1) cs) d

  segmod_lem :
      (len a : ℕ) (d : Daq)
      → (segmod_loop cam len c n a f d).1
        ≡ placed (camac_words len a d.calls) (camac_history len a d.calls) d
  unfolding segmod_loop camac_words camac_history write_words
  segmod_lem zero a d = λ i. record (sym (took-nil d) i) { segmentsize = d.segmentsize }
  segmod_lem (suc len) a d =
      let cnaf = cam.cnafgen c n a f in
      let w = u16 (cam.word_reply d.calls cnaf) in
      let cs = camac_read16 cnaf ∷ d.calls in
      segmod_lem len (a + 1) (placed (w ∷ []) cs d) ∙ (λ i.
        record (took-took (w ∷ []) (camac_words len (a + 1) cs) cs (camac_history len (a + 1) cs) d
          i) { segmentsize = d.segmentsize })

  read_segmod_lem :
      (len segid a : ℕ) (d : Daq)
      → let s = segment segid (camac_words len a d.calls) (camac_history len a d.calls) d in
        read_segmod cam len segid c n a f d ≡ (s.segmentsize, unframed d s)
  unfolding read_segmod write_words
  read_segmod_lem len segid a d =
      let ws = camac_words len a d.calls in
      let cs = camac_history len a d.calls in
      let opened : Daq = record d {
        mem =
            update (update d.mem (d.base + d.mp) (u16 (len + 2))) (d.base + (d.mp + 1)) (u16 segid);
        mp = d.mp + 1 + 1;
      } in
      let size : len + 2 ≡ 2 + length ws = omega (arith, length-camac_words len a d.calls) in
      let end : d.mp + 1 + 1 + length ws ≡ d.mp + (2 + length ws) = omega arith in
      ap (λ (e : Daq). (len + 2, record e { eventsize = e.eventsize + (len + 2) }))
        (segmod_lem len a opened)
      ∙ (λ i. (
        size i,
        record d {
          mem =
              (early_header d.mem d.base d.mp (u16 (len + 2)) (u16 segid) ws
                  ∙ ap (λ k. write_words d.mem (d.base + d.mp) (u16 k ∷ u16 segid ∷ ws)) size)
                i;
          mp = end i;
          eventsize = d.eventsize + size i;
          calls = cs;
        },
      ))

  -- `read_segmod` leaves the words, the event's size and the calls that `init_segment`,
  -- `read_segndata` and `end_segment` leave, and returns the size of that segment; it keeps the
  -- variables of the segment's framing as they were.
  pub read_segmod-framed :
      (len segid a : ℕ) (d : Daq)
      → let framed = (init_segment segid >> read_segndata cam len c n a f >>= λ _. end_segment) d in
        read_segmod cam len segid c n a f d ≡ (framed.1.segmentsize, unframed d framed.1)
  unfolding init_segment read_segndata
  read_segmod-framed len segid a d =
      let ws = camac_words len a d.calls in
      let cs = camac_history len a d.calls in
      let begun = (init_segment segid d).1 in
      let e =
        segment_lem segid (read_segndata cam len c n a f) ws cs d (segndata_lem len a begun) in
      read_segmod_lem len segid a d ∙ sym (ap (λ (e : Daq). (e.segmentsize, unframed d e)) e)
