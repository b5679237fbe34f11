-- ===== src/Nbbqdrv/Fifo.antt =====
-- The two halves of `databuff` as a queue of full blocks: a trigger that fills a block appends it, a
-- read removes the oldest, and nothing else changes a block that waits.
use p42018_vmedaq.Common.{
  ℕ, zero, suc, ◌+◌, ◌-◌, ◌*◌, ◌%◌, ◌≤◌, ◌<◌, ◌≡◌, ◌⊎◌, refl, ap, ◌∙◌, sym, Bool, true, false, ◌==◌,
  ltb, if◌then◌else◌, List, [], ◌∷◌, ◌++◌, Bool-cases, inl, inr, arith, length, Memory, slice,
  slice_ext, write_words, write_words_outside,
}
use mathlib.Core.Path.{subst, ap₂}
use p42018_vmedaq.Device.{Device}
use p42018_vmedaq.Daq.{Daq}
use p42018_vmedaq.Daq.Readout.{words_of, length-words_of}
use p42018_vmedaq.Bbrl.{half, maxbuff}
use p42018_vmedaq.Bbrl.Event.{event_words}
use p42018_vmedaq.Caen.Registers.{v560_nch}
use p42018_vmedaq.Caen.Scaler.{counts, length-counts}
use p42018_vmedaq.Handlers.{v560_adr, clear}
use p42018_vmedaq.Handlers.Event.{evt_body}
use p42018_vmedaq.Lupo.{lupo_pout}
use p42018_vmedaq.Nbbqdrv.{Driver, interrupt, read, block_at}
use p42018_vmedaq.Nbbqdrv.Interrupt.{
  after_interrupt, interrupt_lem, IsAsserted, recorded, triggered, finished, entered, closed,
}
use p42018_vmedaq.Nbbqdrv.Calls.{irq_enabled}
use p42018_vmedaq.Nbbqdrv.Invariant.{IsValid}

-- The half behind a half.
abbrev pub other_half : ℕ → ℕ
other_half n = if n + 1 == 2 then 0 else n + 1

-- `k` blocks from half `n` on, the oldest first.
abbrev pub blocks : Memory → ℕ → ℕ → List (List ℕ)
blocks m n zero = []
blocks m n (suc k) = slice m (half * n) half ∷ blocks m (other_half n) k

-- The blocks that wait for the user.
abbrev pub waiting : Driver → List (List ℕ)
waiting s = blocks s.daq.mem s.drn s.chkbuff

blocks_pos :
    (m : Memory) (n k : ℕ)
    → 0 < k
    → blocks m n k ≡ slice m (half * n) half ∷ blocks m (other_half n) (k - 1)
blocks_pos m n zero h = absurd (omega arith)
blocks_pos m n (suc k) h =
    ap (λ j. slice m (half * n) half ∷ blocks m (other_half n) j) (omega arith)

-- What a read returns, and what it makes of the indices.
record ReadParts (s : Driver) : Type 0 where
  block : (read s).0 ≡ block_at s.daq s.drn
  mem : (read s).1.daq.mem ≡ s.daq.mem
  drn : (read s).1.drn ≡ other_half s.drn
  chkbuff : (read s).1.chkbuff ≡ s.chkbuff - 1

read_parts : (s : Driver) → ReadParts s
unfolding read clear lupo_pout
read_parts s = ground arith

-- A read with a block waiting returns the oldest one and leaves the others, in their order.
pub read_fifo : (s : Driver) → 0 < s.chkbuff → (read s).0 ∷ waiting (read s).1 ≡ waiting s
read_fifo s h =
    let p = read_parts s in
    rw (p.block, p.mem, p.drn, p.chkbuff) (sym (blocks_pos s.daq.mem s.drn s.chkbuff h))

-- What lies outside the half at `base`.
abbrev pub IsOutside : ℕ → ℕ → Type 0
IsOutside base x = (x < base) ⊎ (base + half ≤ x)

-- A run within the half writes nothing outside it.
outside_run :
    (base n len x : ℕ) → IsOutside base x → n + len ≤ half → (x < base + n) ⊎ (base + n + len ≤ x)
outside_run base n len x h fits = ground arith

-- The halves do not meet.
apart :
    (n dn x : ℕ)
    → n < 2
    → (n + 1) % 2 ≡ dn
    → half * n ≤ x
    → x < half * n + half
    → IsOutside (half * dn) x
apart zero dn x hn turn low high = inl (omega arith)
apart (suc zero) dn x hn turn low high = inr (omega arith)
apart (suc (suc n)) dn x hn turn low high = absurd (omega arith)

-- Filling one half leaves the blocks in the other, and puts the new one behind them.
pub blocks-fill :
    (m k : Memory) (n c dn : ℕ)
    → n < 2
    → c < 2
    → (n + c) % 2 ≡ dn
    → ((x : ℕ) → IsOutside (half * dn) x → k x ≡ m x)
    → (blocks k n c ≡ blocks m n c)
      × (blocks k n (c + 1) ≡ blocks m n c ++ (slice k (half * dn) half ∷ []))
blocks-fill m k n zero dn hn hc turn same =
    let e : n ≡ dn = omega arith in (refl, ap (λ j. slice k (half * j) half ∷ []) e)
blocks-fill m k n (suc zero) dn hn hc turn same =
    let e : other_half n ≡ dn = ground arith in
    let old : slice k (half * n) half ≡ slice m (half * n) half =
      slice_ext half k m (half * n) (λ x p q. same x (apart n dn x hn (omega arith) p q)) in
    (ap (λ b. b ∷ []) old, ap₂ (λ b j. b ∷ slice k (half * j) half ∷ []) old e)
blocks-fill m k n (suc (suc c)) dn hn hc turn same = absurd (omega arith)

pub queue_step :
    (full : Bool) (m k : Memory) (n c dn : ℕ) {n' c' : ℕ}
    → n' ≡ n
    → c' ≡ (if full then c + 1 else c)
    → (blocks k n c ≡ blocks m n c)
      × (blocks k n (c + 1) ≡ blocks m n c ++ (slice k (half * dn) half ∷ []))
    → blocks k n' c'
      ≡ (if full then blocks m n c ++ (slice k (half * dn) half ∷ []) else blocks m n c)
queue_step true m k n c dn p q fill = ap₂ (λ i j. blocks k i j) p q ∙ fill.1
queue_step false m k n c dn p q fill = ap₂ (λ i j. blocks k i j) p q ∙ fill.0

pub outside-entered :
    (s : Driver) (x : ℕ)
    → IsOutside s.daq.base x
    → ((entered s).daq.mem x ≡ s.daq.mem x) × ((entered s).daq.base ≡ s.daq.base)
outside-entered s x h = ground arith

pub entered_indices : (s : Driver) → ((entered s).drn ≡ s.drn) × ((entered s).chkbuff ≡ s.chkbuff)
entered_indices s = ground arith

module _ (dev : Device) where
  -- The event and the end of block leave room for the scaler's counters, which end the block.
  abbrev pub Fits : Driver → Type 0
  Fits s = (recorded dev s).daq.mp + 2 ≤ half - v560_nch * 2

  outside-recorded :
      (s : Driver) (x : ℕ)
      → IsOutside s.daq.base x
      → Fits s
      → (recorded dev s).daq.mem x ≡ s.daq.mem x
  outside-recorded s x h fits =
      let t = (triggered s).daq in
      let (e, b) = outside-entered s x h in
      let body = evt_body dev t.calls in
      write_words_outside (event_words 1 (t.eventid + 1) body) t.mem (t.base + t.mp) x (
        outside_run t.base t.mp (length (event_words 1 (t.eventid + 1) body)) x
          (subst (λ k. IsOutside k x) (sym b) h) (omega arith))
      ∙ e

  pub outside-closed :
      (d : Daq) (x : ℕ)
      → IsOutside d.base x
      → d.mp + 2 ≤ half - v560_nch * 2
      → (closed dev d).mem x ≡ d.mem x
  outside-closed d x h fits =
      let m = write_words d.mem (d.base + d.mp) (0xffff ∷ 0xffff ∷ []) in
      let vs = counts dev v560_adr 0 v560_nch d.calls in
      write_words_outside (words_of vs) m (d.base + (half - v560_nch * 2)) x (
        outside_run d.base (half - v560_nch * 2) (length (words_of vs)) x h
          (omega (arith, length-words_of vs, length-counts dev v560_adr 0 v560_nch d.calls)))
      ∙ write_words_outside (0xffff ∷ 0xffff ∷ []) d.mem (d.base + d.mp) x
          (outside_run d.base d.mp 2 x h (omega arith))

  -- What the handler makes of the memory and the indices after the readout.
  pub record FinishedParts (r : Driver) : Type 0 where
    pub mem :
        (finished dev r).daq.mem
        ≡ (if ltb maxbuff r.daq.mp then (closed dev r.daq).mem else r.daq.mem)
    pub drn : (finished dev r).drn ≡ r.drn
    pub chkbuff :
        (finished dev r).chkbuff ≡ (if ltb maxbuff r.daq.mp then r.chkbuff + 1 else r.chkbuff)

  pub finished_parts : (r : Driver) → FinishedParts r
  finished_parts r = ground arith

  outside-interrupt :
      (s : Driver) (x : ℕ)
      → IsOutside s.daq.base x
      → Fits s
      → (after_interrupt dev s).daq.mem x ≡ s.daq.mem x
  outside-interrupt s x h fits =
      let r = recorded dev s in
      let p = finished_parts r in
      let old = outside-recorded s x h fits in
      let b = (outside-entered s x h).1 in
      let outside = subst (λ k. IsOutside k x) (sym b) h in
      ap (λ (m : Memory). m x) p.mem ∙ elim (Bool-cases (ltb maxbuff r.daq.mp)) [
        | inl full ↦ rw full (outside-closed r.daq x outside fits ∙ old)
        | inr room ↦ rw room old
      ]

  -- A trigger leaves the waiting blocks as they are, and puts the block behind them that it fills,
  -- exactly where its event ends past MAXBUFF.
  pub after_interrupt_fifo :
      (s : Driver)
      → IsValid s
      → s.chkbuff < 2
      → Fits s
      → let t = after_interrupt dev s in
        waiting t ≡ (
          if ltb maxbuff (recorded dev s).daq.mp
          then waiting s ++ (block_at t.daq s.daq.dn ∷ [])
          else waiting s)
  after_interrupt_fifo s v free fits =
      let r = recorded dev s in
      let t = after_interrupt dev s in
      let p = finished_parts r in
      let fill =
        blocks-fill s.daq.mem t.daq.mem s.drn s.chkbuff s.daq.dn v.drn_bit free v.turn
          (λ x h. outside-interrupt s x (subst (λ b. IsOutside b x) (sym v.at_half) h) fits) in
      let n = p.drn ∙ (entered_indices s).0 in
      let c = (entered_indices s).1 in
      queue_step (ltb maxbuff r.daq.mp) s.daq.mem t.daq.mem s.drn s.chkbuff s.daq.dn n
        (p.chkbuff ∙ ap (λ k. if ltb maxbuff r.daq.mp then k + 1 else k) c) fill

  -- From a valid state, a trigger that the bridge lets through, and whose event with the end of
  -- its block leaves room for the scaler's counters, leaves the blocks that wait as they are, and
  -- puts the block behind them that it fills, exactly where its event ends past MAXBUFF.
  pub interrupt_fifo :
      (s : Driver)
      → IsValid s
      → irq_enabled s.daq.calls ≡ true
      → IsAsserted dev s
      → Fits s
      → let t = (interrupt dev true s).1 in
        waiting t ≡ (
          if ltb maxbuff (recorded dev s).daq.mp
          then waiting s ++ (block_at t.daq s.daq.dn ∷ [])
          else waiting s)
  interrupt_fifo s v enabled asserted fits =
      let free : s.chkbuff < 2 = ground (arith, v.irq) in
      rw (interrupt_lem dev s v.started asserted) (after_interrupt_fifo s v free fits)
