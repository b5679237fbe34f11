-- ===== src/Vmivme.antt =====
-- nbbqdrv.c where VMIVME is defined, with BBRL, DBUFF and VMEINT: the interrupt goes through the
-- Universe bridge's library. nbbqdrv_poll is that of Nbbqdrv, and NBBQ_EI does nothing.
pub mod Handler
pub mod Stall
pub mod Module
pub mod Single
use p42018_vmedaq.Common.{
  ℕ, ◌+◌, ◌-◌, Bool, true, false, not, Option, none, some, ◌==◌, ltb, if◌then◌else◌, List,
}
use p42018_vmedaq.Device.{
  Device, disable_interrupt, wake_up, vme_interrupt_clear, vme_interrupt_enable,
  vme_interrupt_disable, vme_interrupt_asserted, vme_interrupt_vector,
}
use p42018_vmedaq.Daq.{◌>>=◌, ◌>>◌, pure, gets, modify, call}
use p42018_vmedaq.Bbrl.{init_mem, init_block, end_block, end_event, chmem, maxbuff}
use p42018_vmedaq.Handlers.{startup, evt, stop, clear, sca}
use p42018_vmedaq.Nbbqdrv.{
  Driver, D, lift, OpenStatus, opened, ebusy, IrqReturn, irq_handled, irq_none, Command, nbbq_stop,
  nbbq_stopb, nbbq_ei, other_command, block_at,
}

unfoldable pub open_vmivme : Bool → D OpenStatus
open_vmivme in_use = do
  let start = (do
    lift (call vme_interrupt_clear)
    lift (call vme_interrupt_enable)
    modify (λ s. record s { chkblk = false; chkbuff = 0; stopflag = false; drn = 0 })
    lift init_mem
    modify (λ s. record s { startflag = true })
    lift startup
    pure opened)
  if in_use then pure ebusy else start

unfoldable pub release_vmivme : D (Unit {0})
release_vmivme = modify (λ s. record s { chkbuff = 0 })

-- The words that the user gets. Where both halves wait, clear is called, and nothing else.
unfoldable pub read_vmivme : D (List ℕ)
read_vmivme = do
  block ← gets (λ s. block_at s.daq s.drn)
  modify (λ s. record s { drn = if s.drn + 1 == 2 then 0 else s.drn + 1 })
  full ← gets (λ s. s.chkbuff == 2)
  if full then lift clear else pure tt
  modify (λ s. record s { chkbuff = s.chkbuff - 1 })
  pure block

-- The next trigger is let through.
unfoldable pub resume_vmivme : D (Unit {0})
resume_vmivme = do lift clear; lift (call vme_interrupt_enable); lift (call vme_interrupt_clear)

module _ (dev : Device) where
  -- NBBQ_STOP and NBBQ_STOPB; the result is the flag copied to the user.
  unfoldable pub stop_vmivme : D ℕ
  stop_vmivme = do
    modify (λ s. record s { startflag = false; stopflag = true })
    open_block ← gets (λ s. s.chkblk)
    let close = (do
      _ ← lift end_block
      lift (sca dev)
      modify (λ s. record s { chkbuff = s.chkbuff + 1 })
      flag ← gets (λ s. s.chkbuff)
      modify (λ s. record s { chkblk = false })
      pure flag)
    flag ← (if open_block then close else pure 0)
    lift stop
    lift (call vme_interrupt_disable)
    lift (call vme_interrupt_clear)
    pure flag

  unfoldable pub ioctl_vmivme : Command → D (Option ℕ)
  ioctl_vmivme nbbq_stop = do flag ← stop_vmivme; pure (some flag)
  ioctl_vmivme nbbq_stopb = do flag ← stop_vmivme; pure (some flag)
  ioctl_vmivme nbbq_ei = pure none
  ioctl_vmivme other_command = pure none

  unfoldable pub finish_vmivme : D (Unit {0})
  finish_vmivme = do
    mp ← lift end_event
    let next_block = (do
      _ ← lift end_block
      lift (sca dev)
      modify (λ s. record s { chkblk = false; chkbuff = s.chkbuff + 1 })
      lift chmem
      both_full ← gets (λ s. s.chkbuff == 2)
      if both_full then pure tt else resume_vmivme)
    if ltb maxbuff mp then next_block else resume_vmivme

  -- The event, its end and the wake-up.
  unfoldable pub serve_vmivme : D IrqReturn
  serve_vmivme = do lift (evt dev); finish_vmivme; lift (call wake_up); pure irq_handled

  -- From the answer of vme_interrupt_asserted on. A block is opened for our own trigger only.
  unfoldable pub take_vmivme : D IrqReturn
  take_vmivme = do
    asserted ← gets (λ s. dev.interrupt_reply s.daq.calls)
    lift (call vme_interrupt_asserted)
    fresh ← gets (λ s. not s.chkblk)
    let begin = (do lift init_block; modify (λ s. record s { chkblk = true }))
    let ours = (do
      lift (call vme_interrupt_vector)
      lift (call vme_interrupt_disable)
      if fresh then begin else pure tt
      serve_vmivme)
    if asserted == 0 then pure irq_none else ours

  unfoldable pub interrupt_vmivme : D IrqReturn
  interrupt_vmivme = do
    started ← gets (λ s. s.startflag)
    let idle = (do lift (call disable_interrupt); lift (call wake_up); pure irq_handled)
    if started then take_vmivme else idle
