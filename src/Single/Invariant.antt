-- ===== src/Single/Invariant.antt =====
-- What holds of the driver with one buffer between two calls, and that every call keeps it.
use p42018_vmedaq.Common.{
  ℕ, ◌≤◌, ◌<◌, ◌≡◌, sym, ap, Bool, true, false, ◌==◌, if◌then◌else◌, List, [], ◌∷◌, arith,
}
use mathlib.Core.Path.{subst}
use p42018_vmedaq.Device.{Device}
use p42018_vmedaq.Bbrl.{maxbuff}
use p42018_vmedaq.Caen.Registers.{v560_nch}
use p42018_vmedaq.Caen.Scaler.{counter}
use p42018_vmedaq.Lupo.{lupo_pout}
use p42018_vmedaq.Handlers.{v560_adr, clear}
use p42018_vmedaq.Nbbqdrv.{Driver, IrqReturn, block_at}
use p42018_vmedaq.Nbbqdrv.Calls.{irq_enabled, seen-history_after}
use p42018_vmedaq.Nbbqdrv.Interrupt.{entered, recorded, IsAsserted}
use p42018_vmedaq.Nbbqdrv.Invariant.{irq-recorded}
use p42018_vmedaq.Nbbqdrv.Content.{chkblk-entered}
use p42018_vmedaq.Single.{read_single, give_back, interrupt_single}
use p42018_vmedaq.Single.Handler.{
  finished_single, after_single, interrupt_single_lem, foreign_single_lem,
}

-- Between two calls: where a block waits no block is open, and no trigger is let through.
pub record IsSingle (s : Driver) : Type 0 where
  pub started : s.startflag ≡ true
  pub at_start : s.daq.base ≡ 0
  pub open_high : s.chkblk ≡ true → s.daq.mp ≤ maxbuff
  pub open_free : s.chkblk ≡ true → s.chkbuff ≡ 0
  pub at_most_one : s.chkbuff < 2
  pub irq : irq_enabled s.daq.calls ≡ true → s.chkbuff ≡ 0

-- The block that waits for the user.
abbrev pub held : Driver → List (List ℕ)
held s = if s.chkbuff == 1 then block_at s.daq 0 ∷ [] else []

pub entered-IsSingle : (s : Driver) → IsSingle s → s.chkbuff ≡ 0 → IsSingle (entered s)
entered-IsSingle s v free = ground arith

pub read-IsSingle : (s : Driver) → IsSingle s → IsSingle (read_single s).1
unfolding read_single
read-IsSingle s v = ground arith

pub give_back-IsSingle : (s : Driver) → IsSingle s → s.chkbuff ≡ 0 → IsSingle (give_back s).1
unfolding give_back clear lupo_pout
give_back-IsSingle s v free = ground arith

module _ (dev : Device) where
  finished-IsSingle :
      (s : Driver)
      → s.startflag ≡ true
      → s.daq.base ≡ 0
      → s.chkblk ≡ true
      → s.chkbuff ≡ 0
      → irq_enabled s.daq.calls ≡ false
      → IsSingle (finished_single dev s)
  finished-IsSingle s started at_start block free masked =
      let e = seen-history_after (counter v560_adr) v560_nch 0 s.daq.calls in
      ground (arith, ap (λ (p : Bool × ℕ). p.0) e)

  after_single-IsSingle : (s : Driver) → IsSingle s → s.chkbuff ≡ 0 → IsSingle (after_single dev s)
  after_single-IsSingle s v free =
      let e = entered-IsSingle s v free in
      let w =
        finished-IsSingle (recorded dev s) e.started e.at_start (chkblk-entered s)
          (e.open_free (chkblk-entered s)) (irq-recorded dev s) in
      record {
        started = w.started;
        at_start = w.at_start;
        open_high = w.open_high;
        open_free = w.open_free;
        at_most_one = w.at_most_one;
        irq = w.irq;
      }

  pub interrupt-IsSingle :
      (s : Driver)
      → IsSingle s
      → irq_enabled s.daq.calls ≡ true
      → IsAsserted dev s
      → IsSingle (interrupt_single dev true s).1
  interrupt-IsSingle s v enabled asserted =
      subst (λ (r : IrqReturn × Driver). IsSingle r.1)
        (sym (interrupt_single_lem dev s v.started asserted))
        (after_single-IsSingle s v (v.irq enabled))

  pub foreign-IsSingle :
      (s : Driver)
      → IsSingle s
      → s.chkbuff ≡ 0
      → (dev.interrupt_reply s.daq.calls == 0) ≡ true
      → IsSingle (interrupt_single dev true s).1
  foreign-IsSingle s v free other =
      let w = entered-IsSingle s v free in
      subst (λ (r : IrqReturn × Driver). IsSingle r.1)
        (sym (foreign_single_lem dev s v.started other))
        (record {
          started = w.started;
          at_start = w.at_start;
          open_high = w.open_high;
          open_free = w.open_free;
          at_most_one = w.at_most_one;
          irq = w.irq;
        })
