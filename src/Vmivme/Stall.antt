-- ===== src/Vmivme/Stall.antt =====
-- The bridge's interrupt with VMIVME: when the handler lets the next trigger through, and that a read
-- does not.
use p42018_vmedaq.Common.{
  ℕ, ◌+◌, ◌-◌, ◌<◌, ◌≡◌, refl, sym, ap, ◌∙◌, Bool, true, false, not, ◌==◌, ltb, [], ◌∷◌, Bool-cases,
  inl, inr, arith,
}
use mathlib.Core.Path.{subst}
use p42018_vmedaq.Device.{Device, History, vme_interrupt_enable, vme_interrupt_disable}
use p42018_vmedaq.Bbrl.{maxbuff}
use p42018_vmedaq.Caen.Registers.{v560_nch}
use p42018_vmedaq.Caen.Scaler.{counter}
use p42018_vmedaq.Lupo.{lupo_pout}
use p42018_vmedaq.Handlers.{clear, v560_adr}
use p42018_vmedaq.Handlers.Event.{evt_history}
use p42018_vmedaq.Daq.Readout.{history_after}
use p42018_vmedaq.Nbbqdrv.{Driver, IrqReturn}
use p42018_vmedaq.Nbbqdrv.Calls.{kept-history_after, kept-evt_history}
use p42018_vmedaq.Nbbqdrv.Interrupt.{IsAsserted, calls-entered, entered}
use p42018_vmedaq.Nbbqdrv.Fifo.{entered_indices}
use p42018_vmedaq.Vmivme.{read_vmivme, interrupt_vmivme}
use p42018_vmedaq.Vmivme.Handler.{
  asked_vmivme, triggered_vmivme, recorded_vmivme, finished_vmivme, interrupt_vmivme_lem,
  foreign_vmivme_lem,
}

-- The last of vme_interrupt_enable and vme_interrupt_disable decides.
abbrev pub irq_on : History → Bool
irq_on [] = false
irq_on (vme_interrupt_enable ∷ cs) = true
irq_on (vme_interrupt_disable ∷ cs) = false
irq_on (_ ∷ cs) = irq_on cs

irq_on-history_after :
    (addr : ℕ → ℕ) (n k : ℕ) (cs : History) → irq_on (history_after addr n k cs) ≡ irq_on cs
irq_on-history_after = kept-history_after irq_on (λ a cs. refl) (λ a cs. refl)

read-irq_on :
    (s : Driver)
    → (irq_on (read_vmivme s).1.daq.calls ≡ irq_on s.daq.calls)
      × ((read_vmivme s).1.chkbuff ≡ s.chkbuff - 1)
      × ((read_vmivme s).1.startflag ≡ s.startflag)
unfolding read_vmivme clear lupo_pout
read-irq_on s = ground arith

startflag-entered : (s : Driver) → (entered s).startflag ≡ s.startflag
startflag-entered s = ground arith

module _ (dev : Device) where
  finished_indices :
      (r : Driver)
      → ltb maxbuff r.daq.mp ≡ true
      → ((finished_vmivme dev r).chkbuff ≡ r.chkbuff + 1)
        × ((finished_vmivme dev r).startflag ≡ r.startflag)
  finished_indices r full = ground (arith, full)

  irq_on-evt_history : (cs : History) → irq_on (evt_history dev cs) ≡ irq_on cs
  irq_on-evt_history cs =
      kept-evt_history irq_on (λ a ds. refl) (λ a ds. refl) dev cs (λ ds. (refl, refl))

  irq_on-recorded : (s : Driver) → irq_on (recorded_vmivme dev s).daq.calls ≡ false
  irq_on-recorded s =
      let d = (triggered_vmivme s).daq in
      let e : irq_on (evt_history dev d.calls) ≡ false =
        irq_on-evt_history d.calls ∙ ap irq_on (calls-entered dev (asked_vmivme s)) in
      elim (Bool-cases (ltb (recorded_vmivme dev s).daq.mp maxbuff)) [
        | inl room ↦ rw room e
        | inr full ↦ rw full e
      ]

  finished-irq_on :
      (r : Driver)
      → irq_on r.daq.calls ≡ false
      → r.chkbuff < 2
      → irq_on (finished_vmivme dev r).daq.calls ≡ not ((finished_vmivme dev r).chkbuff == 2)
  finished-irq_on r masked free =
      let e = irq_on-history_after (counter v560_adr) v560_nch 0 r.daq.calls in ground (arith, e)

  -- A trigger lets the next one through, unless both halves then wait.
  pub interrupt-irq_on :
      (s : Driver)
      → s.startflag ≡ true
      → IsAsserted dev s
      → s.chkbuff < 2
      → let u = (interrupt_vmivme dev s).1 in irq_on u.daq.calls ≡ not (u.chkbuff == 2)
  interrupt-irq_on s started asserted free =
      let r = recorded_vmivme dev s in
      let same : r.chkbuff ≡ s.chkbuff = (entered_indices (asked_vmivme s)).1 in
      subst (λ (x : IrqReturn × Driver). irq_on x.1.daq.calls ≡ not (x.1.chkbuff == 2))
        (sym (interrupt_vmivme_lem dev s started asserted))
        (finished-irq_on r (irq_on-recorded s) (omega (arith, same, free)))

  chkbuff-interrupt :
      (s : Driver)
      → s.startflag ≡ true
      → IsAsserted dev s
      → ltb maxbuff (recorded_vmivme dev s).daq.mp ≡ true
      → let u = (interrupt_vmivme dev s).1 in
        (u.chkbuff ≡ s.chkbuff + 1) × (u.startflag ≡ s.startflag)
  chkbuff-interrupt s started asserted full =
      let r = recorded_vmivme dev s in
      let same : r.chkbuff ≡ s.chkbuff = (entered_indices (asked_vmivme s)).1 in
      let still : r.startflag ≡ s.startflag = startflag-entered (asked_vmivme s) in
      let (count, flag) = finished_indices r full in
      subst
        (λ (x : IrqReturn × Driver). (x.1.chkbuff ≡ s.chkbuff + 1) × (x.1.startflag ≡ s.startflag))
        (sym (interrupt_vmivme_lem dev s started asserted))
        (count ∙ ap (λ k. k + 1) same, flag ∙ still)

  -- What the user and other devices can do: `n` reads, and interrupts that are not the bridge's.
  pub data Quiet (s : Driver) : ℕ → Driver → Type 0 where
    begin : Quiet s 0 s
    fetch : {n : ℕ} {t : Driver} → Quiet s n t → Quiet s (n + 1) (read_vmivme t).1
    foreign :
        {n : ℕ} {t : Driver}
        → Quiet s n t
        → (dev.interrupt_reply t.daq.calls == 0) ≡ true
        → Quiet s n (interrupt_vmivme dev t).1

  quiet_lem :
      {s t : Driver} {n : ℕ}
      → s.startflag ≡ true
      → Quiet s n t
      → (t.startflag ≡ true)
        × (irq_on t.daq.calls ≡ irq_on s.daq.calls)
        × (t.chkbuff ≡ s.chkbuff - n)
  quiet_lem started begin = (started, refl, omega arith)
  quiet_lem started (fetch {n} {t} q) =
      let (going, same, count) = quiet_lem started q in
      let (on, less, flag) = read-irq_on t in (flag ∙ going, on ∙ same, omega (arith, less, count))
  quiet_lem {s} started (foreign {n} {t} q other) =
      let (going, same, count) = quiet_lem started q in
      subst
        (λ (x : IrqReturn × Driver).
          (x.1.startflag ≡ true)
          × (irq_on x.1.daq.calls ≡ irq_on s.daq.calls)
          × (x.1.chkbuff ≡ s.chkbuff - n))
        (sym (foreign_vmivme_lem dev t going other)) (going, same, count)

  -- With VMIVME, a trigger that fills the second half leaves the interrupt disabled, and it stays
  -- so, whatever is read afterwards and whichever interrupts of other devices come: after the two
  -- blocks are read no block waits, and no trigger is let through.
  pub stalled :
      (s : Driver) {t : Driver} {n : ℕ}
      → s.startflag ≡ true
      → IsAsserted dev s
      → s.chkbuff ≡ 1
      → ltb maxbuff (recorded_vmivme dev s).daq.mp ≡ true
      → Quiet (interrupt_vmivme dev s).1 n t
      → (irq_on t.daq.calls ≡ false) × (t.chkbuff ≡ 2 - n)
  stalled s started asserted one full q =
      let u = (interrupt_vmivme dev s).1 in
      let (count, flag) = chkbuff-interrupt s started asserted full in
      let two : u.chkbuff ≡ 2 = omega (arith, count, one) in
      let off : irq_on u.daq.calls ≡ false =
        interrupt-irq_on s started asserted (omega (arith, one)) ∙ ap (λ k. not (k == 2)) two in
      let (_, same, left) = quiet_lem (flag ∙ started) q in (same ∙ off, omega (arith, left, two))
