-- ===== src/Nbbqdrv/Busy.antt =====
-- The trigger's busy state: every trigger is released exactly once, by evt.c, by clear.c in the
-- handler, or, while both halves are full, by clear.c in the read that frees one; and the runs of a
-- started driver.
use p42018_vmedaq.Common.{
  ℕ, suc, ◌+◌, ◌<◌, ◌≡◌, refl, ap, ◌∙◌, Bool, true, false, not, ◌==◌, ltb, if◌then◌else◌,
  Bool-cases, inl, inr, arith,
}
use p42018_vmedaq.Device.{Device}
use p42018_vmedaq.Bbrl.{maxbuff}
use p42018_vmedaq.Caen.Registers.{v560_nch}
use p42018_vmedaq.Caen.Scaler.{counter}
use p42018_vmedaq.Handlers.{v560_adr, clear}
use p42018_vmedaq.Lupo.{lupo_pout}
use p42018_vmedaq.Nbbqdrv.{Driver, IrqReturn, interrupt, read}
use p42018_vmedaq.Nbbqdrv.Interrupt.{
  interrupt_lem, foreign_lem, IsAsserted, recorded, triggered, finished, entered, calls-entered,
}
use p42018_vmedaq.Nbbqdrv.Calls.{irq_enabled, releases, seen-evt_history, seen-history_after}
use p42018_vmedaq.Nbbqdrv.Invariant.{IsValid, interrupt-IsValid, foreign-IsValid, read-IsValid}

-- Releases made, with the one that is held back while both halves are full.
abbrev pub ledger : Driver → ℕ
ledger s = releases s.daq.calls + (if s.chkbuff == 2 then 1 else 0)

-- In a valid state with a block waiting, a read leaves the releases as they are, counting the one
-- that is held back: it makes that one where both halves were full, and none elsewhere.
pub ledger-read : (s : Driver) → IsValid s → 0 < s.chkbuff → ledger (read s).1 ≡ ledger s
unfolding read clear lupo_pout
ledger-read s v h = ground arith

one_release :
    (room : Bool) {n m : ℕ} → n ≡ (if room then suc m else m) → (if room then n else suc n) ≡ suc m
one_release true e = e
one_release false e = ap suc e

unheld : (s : Driver) → s.chkbuff < 2 → suc (releases s.daq.calls) ≡ ledger s + 1
unheld s free = ground arith

chkbuff-entered : (s : Driver) → (entered s).chkbuff ≡ s.chkbuff
chkbuff-entered s = ground arith

module _ (dev : Device) where
  releases-recorded :
      (s : Driver)
      → releases (recorded dev s).daq.calls ≡ (
          if ltb (recorded dev s).daq.mp maxbuff
          then suc (releases s.daq.calls)
          else releases s.daq.calls)
  releases-recorded s =
      let e =
        ap (λ (p : Bool × ℕ). p.1) (seen-evt_history dev (triggered s).daq.calls)
        ∙ ap releases (calls-entered dev s) in
      elim (Bool-cases (ltb (recorded dev s).daq.mp maxbuff)) [
        | inl room ↦ rw room (ap suc e)
        | inr full ↦ rw full e
      ]

  ledger-finished :
      (r : Driver)
      → r.chkbuff < 2
      → r.daq.mpflag ≡ not (ltb r.daq.mp maxbuff)
      → ledger (finished dev r)
        ≡ (if ltb r.daq.mp maxbuff then releases r.daq.calls else suc (releases r.daq.calls))
  ledger-finished r free waits =
      let e = seen-history_after (counter v560_adr) v560_nch 0 r.daq.calls in
      ground (arith, ap (λ (p : Bool × ℕ). p.1) e)

  -- In a valid state, a trigger that the bridge lets through adds one to the releases of the busy
  -- state, counting the one that is held back while both halves are full.
  pub ledger-interrupt :
      (s : Driver)
      → IsValid s
      → irq_enabled s.daq.calls ≡ true
      → IsAsserted dev s
      → ledger (interrupt dev true s).1 ≡ ledger s + 1
  ledger-interrupt s v enabled asserted =
      let free : s.chkbuff < 2 = ground (arith, v.irq) in
      let r = recorded dev s in
      let c : r.chkbuff ≡ s.chkbuff = (chkbuff-entered s) in
      ap (λ (p : IrqReturn × Driver). ledger p.1) (interrupt_lem dev s v.started asserted)
      ∙ ledger-finished r (omega (arith, c)) refl
      ∙ one_release (ltb r.daq.mp maxbuff) (releases-recorded s)
      ∙ unheld s free

  ledger-foreign :
      (s : Driver)
      → IsValid s
      → (dev.interrupt_reply s.daq.calls == 0) ≡ true
      → ledger (interrupt dev true s).1 ≡ ledger s
  ledger-foreign s v other = rw (foreign_lem dev s v.started other) (ground arith)

  -- The runs of a started driver under the user's protocol, a read only where `poll` says so, by
  -- the number of triggers. Other devices on the line interrupt while a half is free.
  pub data Run (s : Driver) : ℕ → Driver → Type 0 where
    begin : Run s 0 s
    trigger :
        {n : ℕ} {t : Driver}
        → Run s n t
        → irq_enabled t.daq.calls ≡ true
        → IsAsserted dev t
        → Run s (suc n) (interrupt dev true t).1
    foreign :
        {n : ℕ} {t : Driver}
        → Run s n t
        → t.chkbuff < 2
        → (dev.interrupt_reply t.daq.calls == 0) ≡ true
        → Run s n (interrupt dev true t).1
    fetch : {n : ℕ} {t : Driver} → Run s n t → 0 < t.chkbuff → Run s n (read t).1

  -- Along every run from a valid state, of triggers that the bridge lets through, reads that find
  -- a block waiting and interrupts of other devices while a half is free, the invariant holds, and
  -- the releases of the busy state, with the one that is held back while both halves are full,
  -- have grown by one for each trigger.
  pub run_lem :
      {s t : Driver} {n : ℕ} → IsValid s → Run s n t → IsValid t × (ledger t ≡ ledger s + n)
  run_lem v begin = (v, omega arith)
  run_lem v (trigger {t = t} r enabled asserted) =
      let (w, e) = run_lem v r in
      (
        (interrupt-IsValid dev t w enabled asserted).1,
        omega (arith, e, ledger-interrupt t w enabled asserted),
      )
  run_lem v (foreign {t = t} r free other) =
      let (w, e) = run_lem v r in
      ((foreign-IsValid dev t w free other).1, ledger-foreign t w other ∙ e)
  run_lem v (fetch {t = t} r h) =
      let (w, e) = run_lem v r in (read-IsValid t w h, ledger-read t w h ∙ e)
