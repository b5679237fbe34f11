-- ===== src/Nbbqdrv/Invariant.antt =====
-- What holds of a started driver between two calls, and that a trigger, a read and a poll keep it.
use p42018_vmedaq.Common.{
  ℕ, ◌+◌, ◌*◌, ◌%◌, ◌≤◌, ◌<◌, ◌≡◌, refl, ap, Bool, true, false, not, ◌==◌, ltb, ◌∷◌, Bool-cases,
  inl, inr, arith,
}
use p42018_vmedaq.Device.{Device, check_interrupt}
use p42018_vmedaq.Bbrl.{half, maxbuff, init_mem, chmem}
use p42018_vmedaq.Caen.Registers.{v560_nch}
use p42018_vmedaq.Caen.Scaler.{counter}
use p42018_vmedaq.Handlers.{v560_adr, clear}
use p42018_vmedaq.Handlers.Startup.{startup-OnlyCalls}
use p42018_vmedaq.Nbbqdrv.{
  Driver, IrqReturn, irq_handled, irq_none, opened, open_driver, interrupt, read,
}
use p42018_vmedaq.Lupo.{lupo_pout}
use mathlib.Core.Path.{subst, sym}
use p42018_vmedaq.Nbbqdrv.Interrupt.{
  after_interrupt, interrupt_lem, foreign_lem, IsAsserted, recorded, triggered, finished, entered,
}
use p42018_vmedaq.Nbbqdrv.Calls.{irq_enabled, seen-evt_history, seen-history_after}

-- Indices of a started driver. `turn` says which half is being filled: the one behind the full ones.
pub record IsValid (s : Driver) : Type 0 where
  pub started : s.startflag ≡ true
  pub running : s.stopflag ≡ false
  pub dn_bit : s.daq.dn < 2
  pub drn_bit : s.drn < 2
  pub at_half : s.daq.base ≡ half * s.daq.dn
  pub at_most_two : s.chkbuff ≤ 2
  pub turn : (s.drn + s.chkbuff) % 2 ≡ s.daq.dn
  pub open_low : s.chkblk ≡ true → 4 ≤ s.daq.mp
  pub open_high : s.chkblk ≡ true → s.daq.mp ≤ maxbuff
  pub open_free : s.chkblk ≡ true → s.chkbuff < 2
  pub irq : irq_enabled s.daq.calls ≡ not (s.chkbuff == 2)
  pub held : s.chkbuff ≡ 2 → s.daq.mpflag ≡ true

-- The same at the end of a readout, before the handler has decided on the block.
record IsRecorded (s : Driver) : Type 0 where
  started : s.startflag ≡ true
  running : s.stopflag ≡ false
  dn_bit : s.daq.dn < 2
  drn_bit : s.drn < 2
  at_half : s.daq.base ≡ half * s.daq.dn
  turn : (s.drn + s.chkbuff) % 2 ≡ s.daq.dn
  low : 4 ≤ s.daq.mp
  block : s.chkblk ≡ true
  free : s.chkbuff < 2
  masked : irq_enabled s.daq.calls ≡ false
  waits : s.daq.mpflag ≡ not (ltb s.daq.mp maxbuff)

pub entered-IsValid :
    (s : Driver) → IsValid s → s.chkbuff < 2 → IsValid (entered s) × ((entered s).chkblk ≡ true)
entered-IsValid s v free = ground arith

check-IsValid :
    (s : Driver)
    → IsValid s
    → IsValid (record s { daq = record s.daq { calls = check_interrupt ∷ s.daq.calls } })
check-IsValid s v = ground arith

module _ (dev : Device) where
  pub irq-recorded : (s : Driver) → irq_enabled (recorded dev s).daq.calls ≡ false
  irq-recorded s =
      let d = (triggered s).daq in
      let e = seen-evt_history dev d.calls in
      elim (Bool-cases (ltb (recorded dev s).daq.mp maxbuff)) [
        | inl room ↦ rw room (ap (λ (p : Bool × ℕ). p.0) e)
        | inr full ↦ rw full (ap (λ (p : Bool × ℕ). p.0) e)
      ]

  recorded_lem : (s : Driver) → IsValid s → s.chkbuff < 2 → IsRecorded (recorded dev s)
  recorded_lem s v free =
      let (w, block) = entered-IsValid s v free in
      record {
        started = w.started;
        running = w.running;
        dn_bit = w.dn_bit;
        drn_bit = w.drn_bit;
        at_half = w.at_half;
        turn = w.turn;
        low = omega (arith, w.open_low block);
        block = block;
        free = w.open_free block;
        masked = irq-recorded s;
        waits = refl;
      }

  finished-IsValid : (s : Driver) → IsRecorded s → IsValid (finished dev s)
  finished-IsValid s v =
      let e = seen-history_after (counter v560_adr) v560_nch 0 s.daq.calls in
      ground (arith, ap (λ (p : Bool × ℕ). p.0) e)

  -- A trigger keeps the invariant.
  after_interrupt-IsValid :
      (s : Driver) → IsValid s → s.chkbuff < 2 → IsValid (after_interrupt dev s)
  after_interrupt-IsValid s v free =
      let w = finished-IsValid (recorded dev s) (recorded_lem s v free) in
      record {
        started = w.started;
        running = w.running;
        dn_bit = w.dn_bit;
        drn_bit = w.drn_bit;
        at_half = w.at_half;
        at_most_two = w.at_most_two;
        turn = w.turn;
        open_low = w.open_low;
        open_high = w.open_high;
        open_free = w.open_free;
        irq = w.irq;
        held = w.held;
      }

  -- In a valid state, a trigger that the bridge lets through is handled, and the invariant holds
  -- again.
  pub interrupt-IsValid :
      (s : Driver)
      → IsValid s
      → irq_enabled s.daq.calls ≡ true
      → IsAsserted dev s
      → ((interrupt dev true s).0 ≡ irq_handled) × IsValid (interrupt dev true s).1
  interrupt-IsValid s v enabled asserted =
      let free : s.chkbuff < 2 = ground (arith, v.irq) in
      let e = interrupt_lem dev s v.started asserted in
      (
        ap (λ (r : IrqReturn × Driver). r.0) e,
        subst (λ (r : IrqReturn × Driver). IsValid r.1) (sym e) (after_interrupt-IsValid s v free),
      )

  -- In a valid state with a half free, an interrupt of another device on the line is passed on,
  -- and the invariant holds again.
  pub foreign-IsValid :
      (s : Driver)
      → IsValid s
      → s.chkbuff < 2
      → (dev.interrupt_reply s.daq.calls == 0) ≡ true
      → ((interrupt dev true s).0 ≡ irq_none) × IsValid (interrupt dev true s).1
  foreign-IsValid s v free other =
      let e = foreign_lem dev s v.started other in
      let (w, block) = entered-IsValid s v free in
      (
        ap (λ (r : IrqReturn × Driver). r.0) e,
        subst (λ (r : IrqReturn × Driver). IsValid r.1) (sym e) (check-IsValid (entered s) w),
      )

-- In a valid state with a full block waiting, a read keeps the invariant.
pub read-IsValid : (s : Driver) → IsValid s → 0 < s.chkbuff → IsValid (read s).1
unfolding read clear lupo_pout
read-IsValid s v full = ground arith

-- Opening a device that is not in use succeeds and establishes the invariant, whatever state it
-- was left in.
pub open-IsValid :
    (s : Driver) → ((open_driver false s).0 ≡ opened) × IsValid (open_driver false s).1
unfolding open_driver init_mem chmem
open-IsValid s = (refl, rw startup-OnlyCalls (ground arith))
