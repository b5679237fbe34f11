-- ===== src/Nbbqdrv/Decode.antt =====
-- The user's side of a block: its events are taken apart up to the end marker, with no count of them.
use p42018_vmedaq.Common.{
  ℕ, zero, suc, ◌+◌, ◌-◌, ◌≤◌, ◌<◌, ◌≡◌, refl, ap, ◌∙◌, false, ◌==◌, if◌then◌else◌, List, [], ◌∷◌,
  ◌++◌, arith, length, length-append, take, drop, take-length-append, drop-length-append,
  append_assoc, u16, bit_or, bit_or-0x8000,
}
use mathlib.Core.Path.{ap₂}
use p42018_vmedaq.Bbrl.{half}
use p42018_vmedaq.Nbbqdrv.Content.{events}
use p42018_vmedaq.Nbbqdrv.Readback.{numbered, length-event_words, take-append-drop, IsBlockOf}
use p42018_vmedaq.Nbbqdrv.Delivery.{AllBlocksOf}

-- The events in front of the end marker: their numbers and their segments.
unfoldable pub decode_events : ℕ → List ℕ → List (ℕ × List ℕ)
decode_events zero ws = []
decode_events (suc fuel) [] = []
decode_events (suc fuel) (size ∷ []) = []
decode_events (suc fuel) (size ∷ fid ∷ []) = []
decode_events (suc fuel) (size ∷ fid ∷ id ∷ ws) =
    let k = size - 0x8003 in
    let rest = decode_events fuel (drop k ws) in
    if size == 0xffff then [] else (id, take k ws) ∷ rest

-- A block has more words than events.
abbrev pub decode : List ℕ → List (ℕ × List ℕ)
decode block = decode_events (length block) (drop 4 block)

unfoldable pub decode_all : List (List ℕ) → List (ℕ × List ℕ)
decode_all [] = []
decode_all (block ∷ blocks) = decode block ++ decode_all blocks

-- The events of groups of triggers, each group numbered from 1.
unfoldable pub numbered_all : List (List (List ℕ)) → List (ℕ × List ℕ)
numbered_all [] = []
numbered_all (bodies ∷ groups) = numbered 0 bodies ++ numbered_all groups

decode-marker : (fuel : ℕ) (rest : List ℕ) → decode_events fuel (0xffff ∷ 0xffff ∷ rest) ≡ []
unfolding decode_events
decode-marker zero rest = refl
decode-marker (suc fuel) [] = refl
decode-marker (suc fuel) (w ∷ rest) = refl

decode-events :
    (fuel n : ℕ) (bodies : List (List ℕ)) (rest : List ℕ)
    → length bodies ≤ fuel
    → n + length (events n bodies) < 0x7ff0
    → decode_events fuel (events n bodies ++ 0xffff ∷ 0xffff ∷ rest) ≡ numbered n bodies
unfolding decode_events numbered events
decode-events fuel n [] rest enough small = decode-marker fuel rest
decode-events zero n (body ∷ bodies) rest enough small = absurd (omega (arith, enough))
decode-events (suc fuel) n (body ∷ bodies) rest enough small =
    let total = length-event_words n body bodies in
    let tail = 0xffff ∷ 0xffff ∷ rest in
    let more = events (n + 1) bodies ++ tail in
    let word = u16 (bit_or (3 + length body) 0x8000) in
    let size : word ≡ 0x8003 + length body =
      omega (arith, bit_or-0x8000 (3 + length body) (omega (arith, total, small)), total, small) in
    let excess : word - 0x8003 ≡ length body = omega (arith, size) in
    let other : (word == 0xffff) ≡ false = ground (arith, size, total, small) in
    let id : u16 (n + 1) ≡ n + 1 = omega (arith, total, small) in
    let one : ℕ → List ℕ → List (ℕ × List ℕ) =
      λ k ws. (u16 (n + 1), take k ws) ∷ decode_events fuel (drop k ws) in
    ap (λ b. if b then [] else one (word - 0x8003) ((body ++ events (n + 1) bodies) ++ tail)) other
    ∙ ap₂ one excess (append_assoc body (events (n + 1) bodies) tail)
    ∙ ap₂ (λ xs ys. (u16 (n + 1), xs) ∷ decode_events fuel ys) (take-length-append body more)
        (drop-length-append body more)
    ∙ ap₂ (λ i es. (i, body) ∷ es) id
        (decode-events fuel (n + 1) bodies rest (omega (arith, enough))
          (omega (arith, total, small)))

length-bodies : (n : ℕ) (bodies : List (List ℕ)) → length bodies ≤ length (events n bodies)
unfolding events
length-bodies n [] = omega arith
length-bodies n (body ∷ bodies) =
    omega (arith, length-event_words n body bodies, length-bodies (n + 1) bodies)

length-take : (k : ℕ) (ws : List ℕ) → length (take k ws) ≤ length ws
length-take zero ws = omega arith
length-take (suc k) [] = omega arith
length-take (suc k) (w ∷ ws) = omega (arith, length-take k ws)

length-drop : (k : ℕ) (ws : List ℕ) → length (drop k ws) ≤ length ws
length-drop zero ws = omega arith
length-drop (suc k) [] = omega arith
length-drop (suc k) (w ∷ ws) = omega (arith, length-drop k ws)

-- The block is decoded with no other knowledge of what it holds.
pub decode_lem :
    (bodies : List (List ℕ)) (block : List ℕ)
    → IsBlockOf bodies block
    → length block < 0x7ff0
    → decode block ≡ numbered 0 bodies
decode_lem bodies block (e, _) small =
    let ws = events 0 bodies in
    let body = drop 4 block in
    let end : List ℕ = 0xffff ∷ 0xffff ∷ [] in
    let rest = drop (length ws + 2) body in
    let size = ap length e in
    let held = length-take (length ws + 2) body in
    let within = length-drop 4 block in
    let fits : length ws + 2 ≤ length block =
      omega (arith, size, held, within, length-append ws end) in
    ap (decode_events (length block))
      (take-append-drop (length ws + 2) body ∙ ap (λ xs. xs ++ rest) e ∙ append_assoc ws end rest)
    ∙ decode-events (length block) 0 bodies rest (omega (arith, fits, length-bodies 0 bodies))
        (omega (arith, fits, small))

-- What a read gives is a half of the memory.
abbrev pub AllHalf : List (List ℕ) → Type 0
AllHalf [] = Unit
AllHalf (block ∷ blocks) = (length block ≡ half) × AllHalf blocks

pub decode_all_lem :
    (groups : List (List (List ℕ))) (blocks : List (List ℕ))
    → AllBlocksOf groups blocks
    → AllHalf blocks
    → decode_all blocks ≡ numbered_all groups
unfolding decode_all numbered_all
decode_all_lem [] [] h small = refl
decode_all_lem [] (b ∷ blocks) h small = absurd h
decode_all_lem (g ∷ groups) [] h small = absurd h
decode_all_lem (g ∷ groups) (b ∷ blocks) (h, hs) (s, ss) =
    ap₂ (λ xs ys. xs ++ ys) (decode_lem g b h (omega (arith, s)))
      (decode_all_lem groups blocks hs ss)
