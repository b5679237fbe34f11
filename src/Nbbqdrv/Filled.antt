-- ===== src/Nbbqdrv/Filled.antt =====
-- What stands in a block that a trigger fills: its events and the end marker.
use p42018_vmedaq.Common.{
  ℕ, ◌+◌, ◌-◌, ◌*◌, ◌≤◌, ◌≡◌, refl, sym, ap, ◌∙◌, true, false, ◌==◌, ltb, List, [], ◌∷◌, ◌++◌,
  Bool-cases, inl, inr, arith, length, length-append, take, drop, Memory, slice,
  slice-write_words_outside, write_words,
}
use mathlib.Core.Path.{ap₂}
use p42018_vmedaq.Device.{Device}
use p42018_vmedaq.Daq.{Daq}
use p42018_vmedaq.Daq.Readout.{words_of}
use p42018_vmedaq.Bbrl.{half, maxbuff}
use p42018_vmedaq.Caen.Registers.{v560_nch}
use p42018_vmedaq.Caen.Scaler.{counts}
use p42018_vmedaq.Handlers.{v560_adr}
use p42018_vmedaq.Nbbqdrv.{Driver, IrqReturn, interrupt, block_at}
use p42018_vmedaq.Nbbqdrv.Interrupt.{
  after_interrupt, interrupt_lem, IsAsserted, recorded, finished, entered, closed,
}
use p42018_vmedaq.Nbbqdrv.Invariant.{IsValid}
use p42018_vmedaq.Nbbqdrv.Fifo.{Fits, finished_parts}
use p42018_vmedaq.Nbbqdrv.Content.{
  events, slice_extended, take-drop-slice, Holds, body_of, recorded-Holds, base-entered,
}

module _ (dev : Device) where
  closes : (r : Driver) → ltb maxbuff r.daq.mp ≡ true → (finished dev r).chkblk ≡ false
  closes r full = elim (Bool-cases (r.chkbuff + 1 == 2)) [
    | inl both ↦ rw (full, both) refl
    | inr one ↦ rw (full, one) refl
  ]

  -- The memory of a block that was just closed.
  pub closed_words :
      (ws : List ℕ) (n : ℕ) (d : Daq)
      → Holds ws n d
      → d.mp + 2 ≤ half - v560_nch * 2
      → slice (closed dev d).mem (d.base + 4) (length ws + 2) ≡ ws ++ 0xffff ∷ 0xffff ∷ []
  closed_words ws n d h fits =
      let end : List ℕ = 0xffff ∷ 0xffff ∷ [] in
      let at : d.base + 4 + length ws ≡ d.base + d.mp = omega (arith, h.mp) in
      let m = write_words d.mem (d.base + d.mp) end in
      let vs = words_of (counts dev v560_adr 0 v560_nch d.calls) in
      let size : length ws + 2 ≡ length (ws ++ end) = omega (arith, length-append ws end) in
      slice-write_words_outside (length ws + 2) vs m (d.base + 4) (d.base + (half - v560_nch * 2))
        (inl (omega (arith, h.mp, fits)))
      ∙ ap₂ (λ k a. slice (write_words d.mem a end) (d.base + 4) k) size (sym at)
      ∙ slice_extended d.mem (d.base + 4) ws end h.words

  -- The block that a trigger fills: the events of the open block, its own, and the end marker.
  pub block_content :
      (bodies : List (List ℕ)) (t : Driver)
      → IsValid t
      → Holds (events 0 bodies) (length bodies) (entered t).daq
      → IsAsserted dev t
      → Fits dev t
      → ltb maxbuff (recorded dev t).daq.mp ≡ true
      → let ws = events 0 (bodies ++ (body_of dev t ∷ [])) in
        (take (length ws + 2) (drop 4 (block_at (interrupt dev true t).1.daq t.daq.dn))
          ≡ ws ++ 0xffff ∷ 0xffff ∷ [])
        × (length ws + 6 ≤ half - v560_nch * 2)
  block_content bodies t w h asserted fits full =
      let r = recorded dev t in
      let k = recorded-Holds dev bodies t h in
      let ws = events 0 (bodies ++ (body_of dev t ∷ [])) in
      let base : half * t.daq.dn ≡ r.daq.base = sym w.at_half ∙ sym (base-entered t) in
      let mem : (after_interrupt dev t).daq.mem ≡ (closed dev r.daq).mem =
        (finished_parts dev r).mem ∙ rw full refl in
      (
        ap (λ (x : IrqReturn × Driver). take (length ws + 2) (drop 4 (block_at x.1.daq t.daq.dn)))
              (interrupt_lem dev t w.started asserted)
            ∙ ap₂ (λ (m : Memory) b. take (length ws + 2) (drop 4 (slice m b half))) mem base
            ∙ take-drop-slice (closed dev r.daq).mem r.daq.base (length ws + 2) half
                (omega (arith, k.mp, fits))
            ∙ closed_words ws (length bodies + 1) r.daq k fits,
        omega (arith, fits, k.mp),
      )

  -- Behind a full block nothing is open.
  pub chkblk-interrupt :
      (t : Driver)
      → t.startflag ≡ true
      → IsAsserted dev t
      → ltb maxbuff (recorded dev t).daq.mp ≡ true
      → (interrupt dev true t).1.chkblk ≡ false
  chkblk-interrupt t started asserted full =
      ap (λ (x : IrqReturn × Driver). x.1.chkblk) (interrupt_lem dev t started asserted)
      ∙ closes (recorded dev t) full
