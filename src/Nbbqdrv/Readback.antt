-- ===== src/Nbbqdrv/Readback.antt =====
-- A full block as its readers take it apart: its events, one after another, each by the size in its
-- header.
use p42018_vmedaq.Common.{
  ℕ, zero, suc, ◌+◌, ◌-◌, ◌*◌, ◌≤◌, ◌<◌, slice, ◌≡◌, refl, ap, ◌∙◌, List, [], ◌∷◌, ◌++◌, arith,
  length, length-append, take, drop, take-length-append, drop-length-append, append_assoc, u16,
  bit_or, bit_or-0x8000,
}
use mathlib.Core.Path.{ap₂}
use p42018_vmedaq.Device.{Device}
use p42018_vmedaq.Daq.{Daq}
use p42018_vmedaq.Bbrl.{half}
use p42018_vmedaq.Caen.Registers.{v560_nch}
use p42018_vmedaq.Nbbqdrv.Interrupt.{closed}
use p42018_vmedaq.Nbbqdrv.Content.{events, Holds, take-drop-slice}
use p42018_vmedaq.Nbbqdrv.Filled.{closed_words}

-- At most `n` events from the front of the words: their numbers and their segments.
unfoldable pub parse_events : ℕ → List ℕ → List (ℕ × List ℕ)
parse_events zero ws = []
parse_events (suc n) [] = []
parse_events (suc n) (size ∷ []) = []
parse_events (suc n) (size ∷ fid ∷ []) = []
parse_events (suc n) (size ∷ fid ∷ id ∷ ws) =
    let k = size - 0x8003 in (id, take k ws) ∷ parse_events n (drop k ws)

-- Events counted from `n + 1` on.
unfoldable pub numbered : ℕ → List (List ℕ) → List (ℕ × List ℕ)
numbered n [] = []
numbered n (body ∷ bodies) = (n + 1, body) ∷ numbered (n + 1) bodies

pub length-event_words :
    (n : ℕ) (body : List ℕ) (bodies : List (List ℕ))
    → length (events n (body ∷ bodies)) ≡ 3 + length body + length (events (n + 1) bodies)
unfolding events
length-event_words n body bodies = omega (arith, length-append body (events (n + 1) bodies))

parse-events :
    (n : ℕ) (bodies : List (List ℕ)) (rest : List ℕ)
    → n + length (events n bodies) < 0x8000
    → parse_events (length bodies) (events n bodies ++ rest) ≡ numbered n bodies
unfolding parse_events numbered events
parse-events n [] rest small = refl
parse-events n (body ∷ bodies) rest small =
    let total = length-event_words n body bodies in
    let more = events (n + 1) bodies ++ rest in
    let size : u16 (bit_or (3 + length body) 0x8000) - 0x8003 ≡ length body =
      omega (arith, bit_or-0x8000 (3 + length body) (omega (arith, total, small)), total, small) in
    let id : u16 (n + 1) ≡ n + 1 = omega (arith, total, small) in
    ap
      (λ ws.
        let k = u16 (bit_or (3 + length body) 0x8000) - 0x8003 in
        (u16 (n + 1), take k ws) ∷ parse_events (length bodies) (drop k ws))
      (append_assoc body (events (n + 1) bodies) rest)
    ∙ ap₂ (λ i k. (i, take k (body ++ more)) ∷ parse_events (length bodies) (drop k (body ++ more)))
        id size
    ∙ ap₂ (λ xs ys. (n + 1, xs) ∷ parse_events (length bodies) ys) (take-length-append body more)
        (drop-length-append body more)
    ∙ ap (◌∷◌ (n + 1, body)) (parse-events (n + 1) bodies rest (omega (arith, total, small)))

pub take-append-drop : (k : ℕ) (ws : List ℕ) → ws ≡ take k ws ++ drop k ws
take-append-drop zero ws = refl
take-append-drop (suc k) [] = refl
take-append-drop (suc k) (w ∷ ws) = ap (◌∷◌ w) (take-append-drop k ws)

-- A block that holds exactly these events behind its header, and then the end marker, and that is
-- read back into them.
abbrev pub IsBlockOf : List (List ℕ) → List ℕ → Type 0
IsBlockOf bodies block =
    let ws = events 0 bodies in
    (take (length ws + 2) (drop 4 block) ≡ ws ++ 0xffff ∷ 0xffff ∷ [])
    × (parse_events (length bodies) (drop 4 block) ≡ numbered 0 bodies)

pub block_IsBlockOf :
    (bodies : List (List ℕ)) (block : List ℕ)
    → let ws = events 0 bodies in
      take (length ws + 2) (drop 4 block) ≡ ws ++ 0xffff ∷ 0xffff ∷ []
      → length ws < 0x8000
      → IsBlockOf bodies block
block_IsBlockOf bodies block e small =
    let ws = events 0 bodies in
    let body = drop 4 block in
    let rest = drop (length ws + 2) body in
    (
      e,
      ap (parse_events (length bodies)) (
            take-append-drop (length ws + 2) body
            ∙ ap (λ xs. xs ++ rest) e
            ∙ append_assoc ws (0xffff ∷ 0xffff ∷ []) rest)
          ∙ parse-events 0 bodies (0xffff ∷ 0xffff ∷ rest) (omega (arith, small)),
    )

-- The half in which an open block is closed holds its events.
pub closed-IsBlockOf :
    (dev : Device) (bodies : List (List ℕ)) (d : Daq)
    → Holds (events 0 bodies) (length bodies) d
    → d.mp + 2 ≤ half - v560_nch * 2
    → IsBlockOf bodies (slice (closed dev d).mem d.base half)
closed-IsBlockOf dev bodies d h fits =
    let ws = events 0 bodies in
    block_IsBlockOf bodies (slice (closed dev d).mem d.base half)
      (take-drop-slice (closed dev d).mem d.base (length ws + 2) half (omega (arith, h.mp, fits))
        ∙ closed_words dev ws (length bodies) d h fits)
      (omega (arith, h.mp, fits))
