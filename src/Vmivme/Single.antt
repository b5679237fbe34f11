-- ===== src/Vmivme/Single.antt =====
-- nbbqdrv.c with VMIVME and without DBUFF. The state is used as in Single; nbbqdrv_read is
-- read_single, and nbbqdrv_poll and nbbqdrv_release are poll and release_vmivme.
use p42018_vmedaq.Common.{
  ℕ, ◌≡◌, refl, Bool, true, false, not, Option, none, some, ◌==◌, ltb, if◌then◌else◌, Bool-cases,
  inl, inr,
}
use p42018_vmedaq.Device.{
  Device, disable_interrupt, wake_up, vme_interrupt_clear, vme_interrupt_enable,
  vme_interrupt_disable, vme_interrupt_asserted, vme_interrupt_vector,
}
use p42018_vmedaq.Daq.{◌>>=◌, ◌>>◌, pure, gets, modify, call}
use p42018_vmedaq.Bbrl.{init_block, end_block, end_event, maxbuff}
use p42018_vmedaq.Lupo.{lupo_pout}
use p42018_vmedaq.Handlers.{startup, evt, stop, clear, sca}
use p42018_vmedaq.Nbbqdrv.{
  Driver, D, lift, OpenStatus, opened, ebusy, IrqReturn, irq_handled, irq_none, Command, nbbq_stop,
  nbbq_stopb, nbbq_ei, other_command,
}
use p42018_vmedaq.Single.{init_single, read_single}
use p42018_vmedaq.Vmivme.{resume_vmivme}
use p42018_vmedaq.Vmivme.Stall.{irq_on}

unfoldable pub open_vmivme_single : Bool → D OpenStatus
open_vmivme_single in_use = do
  let start = (do
    lift (call vme_interrupt_clear)
    lift (call vme_interrupt_enable)
    modify (λ s. record s { chkblk = false; chkbuff = 0 })
    lift init_single
    modify (λ s. record s { startflag = true })
    lift startup
    pure opened)
  if in_use then pure ebusy else start

module _ (dev : Device) where
  unfoldable pub stop_vmivme_single : D ℕ
  stop_vmivme_single = do
    modify (λ s. record s { startflag = false })
    open_block ← gets (λ s. s.chkblk)
    let close = (do
      _ ← lift end_block
      lift (sca dev)
      modify (λ s. record s { chkbuff = 1; chkblk = false })
      pure 1)
    flag ← (if open_block then close else pure 0)
    lift stop
    lift (call vme_interrupt_disable)
    lift (call vme_interrupt_clear)
    pure flag

  -- NBBQ_EI: what resume_vmivme does after an event.
  unfoldable pub ioctl_vmivme_single : Command → D (Option ℕ)
  ioctl_vmivme_single nbbq_stop = do flag ← stop_vmivme_single; pure (some flag)
  ioctl_vmivme_single nbbq_stopb = do flag ← stop_vmivme_single; pure (some flag)
  ioctl_vmivme_single nbbq_ei = do resume_vmivme; pure none
  ioctl_vmivme_single other_command = pure none

  unfoldable pub finish_vmivme_single : D (Unit {0})
  finish_vmivme_single = do
    mp ← lift end_event
    let full = (do
      _ ← lift end_block
      lift (sca dev)
      modify (λ s. record s { chkblk = false; chkbuff = 1 }))
    if ltb maxbuff mp then full else resume_vmivme

  unfoldable pub serve_vmivme_single : D IrqReturn
  serve_vmivme_single = do
    lift (evt dev)
    finish_vmivme_single
    lift (call wake_up)
    pure irq_handled

  unfoldable pub take_vmivme_single : D IrqReturn
  take_vmivme_single = do
    asserted ← gets (λ s. dev.interrupt_reply s.daq.calls)
    lift (call vme_interrupt_asserted)
    fresh ← gets (λ s. not s.chkblk)
    let begin = (do lift init_block; modify (λ s. record s { chkblk = true }))
    let ours = (do
      lift (call vme_interrupt_vector)
      lift (call vme_interrupt_disable)
      if fresh then begin else pure tt
      serve_vmivme_single)
    if asserted == 0 then pure irq_none else ours

  unfoldable pub interrupt_vmivme_single : D IrqReturn
  interrupt_vmivme_single = do
    started ← gets (λ s. s.startflag)
    let idle = (do lift (call disable_interrupt); lift (call wake_up); pure irq_handled)
    if started then take_vmivme_single else idle

  -- After a read the user lets the next trigger through by NBBQ_EI, whatever state the read found:
  -- with one buffer the driver does not stall.
  pub given_back-irq_on :
      (s : Driver)
      → let t = (ioctl_vmivme_single nbbq_ei (read_single s).1).1 in
        (irq_on t.daq.calls ≡ true) × (t.chkbuff ≡ 0) × (t.daq.mem ≡ s.daq.mem)
  unfolding ioctl_vmivme_single resume_vmivme read_single clear lupo_pout
  given_back-irq_on s = elim (Bool-cases s.daq.mpflag) [
    | inl busy ↦ rw busy (refl, refl, refl)
    | inr released ↦ rw released (refl, refl, refl)
  ]
