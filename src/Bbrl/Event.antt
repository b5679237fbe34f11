-- ===== src/Bbrl/Event.antt =====
-- What bbrl.c's init_event and end_event make of the segments written between them.
use p42018_vmedaq.Common.{
  ℕ, ◌+◌, ◌≡◌, List, [], ◌∷◌, ◌++◌, arith, length, length-append, u16, bit_or, update,
  patch-write_words, write_words, write_words_at, write_words-append, ◌∙◌,
}
use p42018_vmedaq.Device.{History}
use p42018_vmedaq.Daq.{Daq}
use p42018_vmedaq.Bbrl.{init_event, end_event}
use p42018_vmedaq.Bbrl.Segment.{segment, segment_words}

-- An event on the wire: its size in words with the top bit set, the function identifier, the event
-- number, and its segments.
abbrev pub event_words : ℕ → ℕ → List ℕ → List ℕ
event_words fid id body = u16 (bit_or (3 + length body) 0x8000) ∷ u16 fid ∷ u16 id ∷ body

-- In an event that began at `d`, with the words `body` behind its header; the size is not yet there.
abbrev pub in_event : ℕ → List ℕ → ℕ → ℕ → History → Daq → Daq
in_event fid body segmenthmp segmentsize cs d = record d {
  mem = write_words d.mem (d.base + d.mp + 1) (u16 fid ∷ u16 (d.eventid + 1) ∷ body);
  mp = d.mp + (3 + length body);
  eventid = d.eventid + 1;
  eventhmp = d.mp;
  eventsize = 3 + length body;
  segmenthmp = segmenthmp;
  segmentsize = segmentsize;
  calls = cs;
}

-- The same event when it is closed.
abbrev pub after_event : ℕ → List ℕ → ℕ → ℕ → History → Daq → Daq
after_event fid body segmenthmp segmentsize cs d =
    record (in_event fid body segmenthmp segmentsize cs d) {
      mem = write_words d.mem (d.base + d.mp) (event_words fid (d.eventid + 1) body);
    }

pub init_event_lem :
    (fid : ℕ) (d : Daq)
    → (init_event fid d).1 ≡ in_event fid [] d.segmenthmp d.segmentsize d.calls d
unfolding init_event write_words
init_event_lem fid d =
    let at_fid : d.base + (d.mp + 1) ≡ d.base + d.mp + 1 = omega arith in
    let at_id : d.base + (d.mp + 1 + 1) ≡ d.base + d.mp + 1 + 1 = omega arith in
    let end : d.mp + 1 + 1 + 1 ≡ d.mp + 3 = omega arith in
    λ i. record d {
      mem = update (update d.mem (at_fid i) (u16 fid)) (at_id i) (u16 (d.eventid + 1));
      mp = end i;
      eventid = d.eventid + 1;
      eventhmp = d.mp;
      eventsize = 3;
    }

-- A segment written in an event is appended to the event's words.
pub segment-in_event :
    (fid : ℕ) (body : List ℕ) (h s : ℕ) (bs : History) (id : ℕ) (ws : List ℕ) (cs : History)
    (d : Daq)
    → segment id ws cs (in_event fid body h s bs d)
      ≡ in_event fid (body ++ segment_words id ws) (d.mp + (3 + length body)) (2 + length ws) cs d
segment-in_event fid body h s bs id ws cs d =
    let head = u16 fid ∷ u16 (d.eventid + 1) ∷ body in
    let more = segment_words id ws in
    let m = write_words d.mem (d.base + d.mp + 1) head in
    let at : d.base + (d.mp + (3 + length body)) ≡ d.base + d.mp + 1 + length head = omega arith in
    let size : 3 + length body + (2 + length ws) ≡ 3 + length (body ++ more) =
      omega (arith, length-append body more) in
    let end : d.mp + (3 + length body) + (2 + length ws) ≡ d.mp + (3 + length (body ++ more)) =
      omega (arith, length-append body more) in
    λ i. record d {
      mem = (write_words_at m more at ∙ write_words-append head more d.mem (d.base + d.mp + 1)) i;
      mp = end i;
      eventid = d.eventid + 1;
      eventhmp = d.mp;
      eventsize = size i;
      segmenthmp = d.mp + (3 + length body);
      segmentsize = 2 + length ws;
      calls = cs;
    }

-- At the end of an event's segments `end_event` writes the event's size into its header, which
-- completes the event, and returns the index behind it.
pub end_event_lem :
    (fid : ℕ) (body : List ℕ) (h s : ℕ) (cs : History) (d : Daq)
    → end_event (in_event fid body h s cs d)
      ≡ (d.mp + (3 + length body), after_event fid body h s cs d)
unfolding end_event
end_event_lem fid body h s cs d =
    let head = u16 fid ∷ u16 (d.eventid + 1) ∷ body in
    let size = u16 (bit_or (3 + length body) 0x8000) in
    λ i. (
      d.mp + (3 + length body),
      record (in_event fid body h s cs d) {
        mem = patch-write_words head d.mem (d.base + d.mp) size i;
      },
    )
