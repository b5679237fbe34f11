-- ===== src/Bbrl/Format.antt =====
-- The babirl format as its readers take it apart: an event's segments, one after another, each by
-- the size in its header.
use p42018_vmedaq.Common.{
  ℕ, zero, suc, ◌+◌, ◌-◌, ◌<◌, ◌≡◌, ◌∙◌, List, [], ◌∷◌, ◌++◌, length, take, drop, u16, arith,
  take-length-append, drop-length-append,
}
use mathlib.Core.Path.{ap₂}
use p42018_vmedaq.Bbrl.Segment.{segment_words}

-- A segment's identifier and its payload.
abbrev pub Segment : Type 0
Segment = ℕ × List ℕ

-- At most `n` segments from the front of the words.
unfoldable pub parse_segments : ℕ → List ℕ → List Segment
parse_segments zero ws = []
parse_segments (suc n) [] = []
parse_segments (suc n) (size ∷ []) = []
parse_segments (suc n) (size ∷ segid ∷ ws) =
    (segid, take (size - 2) ws) ∷ parse_segments n (drop (size - 2) ws)

-- Segments whose identifier and size fit their words.
abbrev pub IsSized : Segment → Type 0
IsSized s = (s.0 < 65536) × (2 + length s.1 < 65536)

-- A segment that the framing has written comes back first, and then what stands behind it.
pub parse-segment_words :
    (n : ℕ) (s : Segment) (rest : List ℕ)
    → IsSized s
    → parse_segments (suc n) (segment_words s.0 s.1 ++ rest) ≡ s ∷ parse_segments n rest
unfolding parse_segments
parse-segment_words n s rest (id_fits, size_fits) =
    let size : u16 (2 + length s.1) - 2 ≡ length s.1 = omega arith in
    let id : u16 s.0 ≡ s.0 = omega arith in
    ap₂ (λ i k. (i, take k (s.1 ++ rest)) ∷ parse_segments n (drop k (s.1 ++ rest))) id size
    ∙ ap₂ (λ ws vs. (s.0, ws) ∷ parse_segments n vs) (take-length-append s.1 rest)
        (drop-length-append s.1 rest)
