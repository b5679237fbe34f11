-- ===== src/Nbbqdrv/Complete.antt =====
-- A whole session seen by the user: what is decoded of all the blocks that were read.
use p42018_vmedaq.Common.{
  ℕ, ◌*◌, ◌≡◌, refl, sym, ap, ◌∙◌, Bool, true, false, if◌then◌else◌, List, [], ◌∷◌, ◌++◌,
  append_assoc, append-nil, length, Bool-cases, inl, inr, arith, Memory, slice, length-slice,
}
use mathlib.Core.Path.{subst, ap₂}
use p42018_vmedaq.Device.{Device}
use p42018_vmedaq.Bbrl.{half}
use p42018_vmedaq.Nbbqdrv.{Driver, open_driver, read, poll, stop_daq, block_at}
use p42018_vmedaq.Nbbqdrv.Interrupt.{entered, closed}
use p42018_vmedaq.Nbbqdrv.Invariant.{IsValid, open-IsValid}
use p42018_vmedaq.Nbbqdrv.Fifo.{waiting}
use p42018_vmedaq.Nbbqdrv.Stop.{stop_fifo, stop_parts, masked}
use p42018_vmedaq.Nbbqdrv.Session.{Rest, rest_lem, stop-IsStopped, waiting-none}
use p42018_vmedaq.Nbbqdrv.Content.{events, Holds, Holds-same}
use p42018_vmedaq.Nbbqdrv.Readback.{IsBlockOf, closed-IsBlockOf, numbered}
use p42018_vmedaq.Nbbqdrv.Delivery.{Run, AllBlocksOf, snoc-AllBlocksOf, run-AllBlocksOf}
use p42018_vmedaq.Nbbqdrv.Decode.{decode_all, numbered_all, AllHalf, decode_all_lem}

pub append-AllHalf : (bs cs : List (List ℕ)) → AllHalf bs → AllHalf cs → AllHalf (bs ++ cs)
append-AllHalf [] cs h k = k
append-AllHalf (b ∷ bs) cs (h, hs) k = (h, append-AllHalf bs cs hs k)

read-half : (t : Driver) → length (read t).0 ≡ half
unfolding read
read-half t = length-slice half t.daq.mem (half * t.drn)

-- No event stands in a block that is not open.
pub idle_bodies :
    (bodies : List (List ℕ)) (t : Driver)
    → Holds (events 0 bodies) (length bodies) (entered t).daq
    → t.chkblk ≡ false
    → bodies ≡ []
idle_bodies [] t h idle = refl
idle_bodies (b ∷ bodies) t h idle = let n = h.number in absurd (ground (arith, idle, n))

pub numbered_all_idle :
    (groups : List (List (List ℕ))) → numbered_all groups ≡ numbered_all (groups ++ ([] ∷ []))
unfolding numbered_all numbered
numbered_all_idle [] = refl
numbered_all_idle (g ∷ groups) = ap (λ es. numbered 0 g ++ es) (numbered_all_idle groups)

-- The blocks that were read before a stop and after it.
read_blocks :
    (going : Bool) (fetched rest waits left stopped : List (List ℕ)) (last : List ℕ)
    → left ≡ []
    → rest ++ left ≡ stopped
    → stopped ≡ (if going then waits ++ (last ∷ []) else waits)
    → fetched ++ rest ≡ (if going then (fetched ++ waits) ++ (last ∷ []) else fetched ++ waits)
read_blocks going fetched rest waits left stopped last none e f =
    let all : rest ≡ (if going then waits ++ (last ∷ []) else waits) =
      sym (append-nil rest) ∙ ap (λ b. rest ++ b) (sym none) ∙ e ∙ f in
    elim (Bool-cases going) [
      | inl h ↦
          rw h (ap (λ b. fetched ++ b) (rw h at all) ∙ sym (append_assoc fetched waits (last ∷ [])))
      | inr h ↦ rw h (ap (λ b. fetched ++ b) (rw h at all))
    ]

-- The groups of the blocks that are complete when a stop has closed the open one.
abbrev stopped_groups : Bool → List (List (List ℕ)) → List (List ℕ) → List (List (List ℕ))
stopped_groups going groups bodies = if going then groups ++ (bodies ∷ []) else groups

closing-AllBlocksOf :
    (going : Bool) (bodies : List (List ℕ)) (groups : List (List (List ℕ))) (blocks : List (List ℕ))
    (last : List ℕ)
    → AllBlocksOf groups blocks
    → (going ≡ true → IsBlockOf bodies last)
    → AllBlocksOf
        (stopped_groups going groups bodies)
        (if going then blocks ++ (last ∷ []) else blocks)
closing-AllBlocksOf true bodies groups blocks last all b =
    snoc-AllBlocksOf groups blocks bodies last all (b refl)
closing-AllBlocksOf false bodies groups blocks last all b = all

module _ (dev : Device) where
  run-AllHalf :
      {s t : Driver} {fetched : List (List ℕ)} {groups : List (List (List ℕ))}
      {bodies : List (List ℕ)}
      → Run dev s fetched groups bodies t
      → AllHalf fetched
  run-AllHalf Run.begin = tt
  run-AllHalf (Run.trigger r _ _ _) = run-AllHalf r
  run-AllHalf (Run.fill r _ _ _ _) = run-AllHalf r
  run-AllHalf (Run.foreign r _ _) = run-AllHalf r
  run-AllHalf (Run.fetch {fetched} {groups} {bodies} {t} r _) =
      append-AllHalf fetched ((read t).0 ∷ []) (run-AllHalf r) (read-half t, tt)

  Rest-AllHalf : {s t : Driver} {rest : List (List ℕ)} → Rest dev s rest t → AllHalf rest
  Rest-AllHalf Rest.begin = tt
  Rest-AllHalf (Rest.fetch {fetched} {t} r _) =
      append-AllHalf fetched ((read t).0 ∷ []) (Rest-AllHalf r) (read-half t, tt)
  Rest-AllHalf (Rest.late r _) = Rest-AllHalf r

  -- The block that a stop closes holds the events since the last full one.
  stop-IsBlockOf :
      (bodies : List (List ℕ)) (t : Driver)
      → IsValid t
      → Holds (events 0 bodies) (length bodies) (entered t).daq
      → t.chkblk ≡ true
      → IsBlockOf bodies (block_at (stop_daq dev t).1.daq t.daq.dn)
  stop-IsBlockOf bodies t v h going =
      let ws = events 0 bodies in
      let d = masked t.daq in
      let e : (entered t).daq ≡ t.daq = rw going refl in
      let k = Holds-same ws (length bodies) t.daq d.calls (subst (Holds ws (length bodies)) e h) in
      let high = v.open_high going in
      let base : half * t.daq.dn ≡ d.base = sym v.at_half in
      let mem : (stop_daq dev t).1.daq.mem ≡ (closed dev d).mem =
        (stop_parts dev t).mem ∙ ap (λ b. if b then (closed dev d).mem else t.daq.mem) going in
      subst (IsBlockOf bodies) (sym (ap₂ (λ (m : Memory) b. slice m b half) mem base))
        (closed-IsBlockOf dev bodies d k (omega (arith, high)))

  stopped_events :
      (bodies : List (List ℕ)) (groups : List (List (List ℕ))) (t : Driver)
      → Holds (events 0 bodies) (length bodies) (entered t).daq
      → numbered_all (stopped_groups t.chkblk groups bodies)
        ≡ numbered_all (groups ++ (bodies ∷ []))
  unfolding numbered_all numbered
  stopped_events bodies groups t h = elim (Bool-cases t.chkblk) [
    | inl going ↦ rw going refl
    | inr idle ↦ rw (idle, idle_bodies bodies t h idle) (numbered_all_idle groups)
  ]

  -- A whole session, opened, run under the user's protocol, stopped and read until `poll` says that
  -- nothing is left: the blocks that the user read, decoded with no other knowledge of them, give
  -- the events of all the triggers, each once and with the segments that the modules answered, in
  -- order; the events of a block are numbered from 1.
  pub session-decoded :
      (before : Driver) {t u : Driver} {fetched rest : List (List ℕ)}
      {groups : List (List (List ℕ))} {bodies : List (List ℕ)}
      → Run dev (open_driver false before).1 fetched groups bodies t
      → Rest dev (stop_daq dev t).1 rest u
      → (poll u).0 ≡ false
      → decode_all (fetched ++ rest) ≡ numbered_all (groups ++ (bodies ∷ []))
  unfolding poll open_driver
  session-decoded before {t} {u} {fetched} {rest} {groups} {bodies} run after done =
      let (v, h, all) = run-AllBlocksOf dev (open-IsValid before).1 refl refl run in
      let t' = (stop_daq dev t).1 in
      let last = block_at t'.daq t.daq.dn in
      let (_, rested, _, _) = rest_lem dev true (stop-IsStopped dev t) after in
      let empty : u.chkbuff ≡ 0 = ground arith in
      let same : fetched ++ rest
          ≡ (if t.chkblk then (fetched ++ waiting t) ++ (last ∷ []) else fetched ++ waiting t) =
        read_blocks t.chkblk fetched rest (waiting t) (waiting u) (waiting t') last
          (waiting-none u empty) rested (stop_fifo dev t v).1 in
      decode_all_lem (stopped_groups t.chkblk groups bodies) (fetched ++ rest)
        (subst (AllBlocksOf (stopped_groups t.chkblk groups bodies)) (sym same) (
          closing-AllBlocksOf t.chkblk bodies groups (fetched ++ waiting t) last all
            (stop-IsBlockOf bodies t v h)))
        (append-AllHalf fetched rest (run-AllHalf run) (Rest-AllHalf after))
      ∙ stopped_events bodies groups t h
