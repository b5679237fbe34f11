-- ===== src/Bbrl/Segment.antt =====
-- What bbrl.c's init_segment and end_segment make of a readout between them, and likewise
-- init_event and end_event.
use p42018_vmedaq.Common.{
  ℕ, ◌+◌, ◌≡◌, List, ◌∷◌, arith, length, u16, update, patch-write_words, write_words, Memory,
}
use p42018_vmedaq.Device.{History}
use p42018_vmedaq.Daq.{Daq, M, ◌>>=◌, ◌>>◌, took}
use p42018_vmedaq.Bbrl.{init_segment, end_segment}

-- A segment on the wire: its size in words, header included, its identifier, and its payload.
abbrev pub segment_words : ℕ → List ℕ → List ℕ
segment_words segid ws = u16 (2 + length ws) ∷ u16 segid ∷ ws

-- The state after a segment with that payload.
abbrev pub segment : ℕ → List ℕ → History → Daq → Daq
segment segid ws cs d = record d {
  mem = write_words d.mem (d.base + d.mp) (segment_words segid ws);
  mp = d.mp + (2 + length ws);
  segmenthmp = d.mp;
  segmentsize = 2 + length ws;
  eventsize = d.eventsize + (2 + length ws);
  calls = cs;
}

-- The size word is written last, before the rest of the segment.
patched :
    (m : Memory) (b p id : ℕ) (ws : List ℕ) (size : ℕ)
    → update (write_words (update m (b + (p + 1)) id) (b + (p + 1 + 1)) ws) (b + p) size
      ≡ write_words m (b + p) (size ∷ id ∷ ws)
unfolding write_words
patched m b p id ws size =
    let at_id : b + (p + 1) ≡ b + p + 1 = omega arith in
    let at_ws : b + (p + 1 + 1) ≡ b + p + 1 + 1 = omega arith in
    rw (at_id, at_ws) (patch-write_words (id ∷ ws) m (b + p) size)

-- A readout that takes the words `ws` in an open segment, framed by `init_segment` and
-- `end_segment`, leaves a segment: its size, its identifier and `ws`, counted in the event.
pub segment_lem :
    (segid : ℕ) (body : M ℕ) (ws : List ℕ) (cs : History) (d : Daq)
    → (body (init_segment segid d).1).1 ≡ took ws cs (init_segment segid d).1
    → ((init_segment segid >> body >>= λ _. end_segment) d).1 ≡ segment segid ws cs d
unfolding init_segment end_segment
segment_lem segid body ws cs d h =
    let e : d.mp + 1 + 1 + length ws ≡ d.mp + (2 + length ws) = omega arith in
    rw h (λ i. record d {
      mem = patched d.mem d.base d.mp (u16 segid) ws (u16 (2 + length ws)) i;
      mp = e i;
      segmenthmp = d.mp;
      segmentsize = 2 + length ws;
      eventsize = d.eventsize + (2 + length ws);
      calls = cs;
    })
