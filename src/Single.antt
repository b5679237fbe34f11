-- ===== src/Single.antt =====
-- nbbqdrv.c where DBUFF is not defined: one buffer, which the user reads and then gives back by
-- NBBQ_EI. The state is Driver, without what DBUFF declares: `data` is an array, so its distance
-- `base` stays 0, and `dn`, `drn` and `stopflag` are not used. nbbqdrv_poll and nbbqdrv_release are
-- those of Nbbqdrv.
pub mod Handler
pub mod Invariant
pub mod Content
pub mod Delivery
pub mod Session
use p42018_vmedaq.Common.{
  ℕ, Bool, true, false, not, Option, none, some, ◌==◌, ltb, if◌then◌else◌, List,
}
use p42018_vmedaq.Device.{
  Device, enable_interrupt, disable_interrupt, check_interrupt, wake_up, define_intlevel,
}
use p42018_vmedaq.Daq.{M, ◌>>=◌, ◌>>◌, pure, gets, modify, call}
use p42018_vmedaq.Bbrl.{init_block, end_block, end_event, half, maxbuff}
use p42018_vmedaq.Handlers.{startup, evt, stop, clear, sca, intlevel}
use p42018_vmedaq.Nbbqdrv.{
  Driver, D, lift, OpenStatus, opened, ebusy, IrqReturn, irq_handled, irq_none, Command, nbbq_stop,
  nbbq_stopb, nbbq_ei, other_command, block_at,
}

-- bbrl.c, init_mem: memset(data, 0, blksize)
unfoldable pub init_single : M (Unit {0})
init_single = modify (λ d. record d { mem = λ x. if ltb x half then 0 else d.mem x })

unfoldable pub open_single : Bool → D OpenStatus
open_single in_use = do
  let start = (do
    modify (λ s. record s { chkblk = false; chkbuff = 0 })
    lift init_single
    modify (λ s. record s { startflag = true })
    lift startup
    lift (call enable_interrupt)
    pure opened)
  if in_use then pure ebusy else start

unfoldable pub read_single : D (List ℕ)
read_single = do modify (λ s. record s { chkbuff = 0 }); gets (λ s. block_at s.daq 0)

-- NBBQ_EI: the next trigger is let through.
unfoldable pub give_back : D (Unit {0})
give_back = do lift (call (define_intlevel intlevel)); lift (call enable_interrupt); lift clear

module _ (dev : Device) where
  -- NBBQ_STOP and NBBQ_STOPB; the result is the flag copied to the user.
  unfoldable pub stop_single : D ℕ
  stop_single = do
    lift (call disable_interrupt)
    modify (λ s. record s { startflag = false })
    open_block ← gets (λ s. s.chkblk)
    let close = (do
      _ ← lift end_block
      lift (sca dev)
      modify (λ s. record s { chkbuff = 1; chkblk = false })
      pure 1)
    flag ← (if open_block then close else pure 0)
    lift stop
    pure flag

  unfoldable pub ioctl_single : Command → D (Option ℕ)
  ioctl_single nbbq_stop = do flag ← stop_single; pure (some flag)
  ioctl_single nbbq_stopb = do flag ← stop_single; pure (some flag)
  ioctl_single nbbq_ei = do give_back; pure none
  ioctl_single other_command = pure none

  -- After an event: a full block is closed and waits, with the interrupt left disabled.
  unfoldable pub finish_single : D (Unit {0})
  finish_single = do
    mp ← lift end_event
    let full = (do
      _ ← lift end_block
      lift (sca dev)
      modify (λ s. record s { chkblk = false; chkbuff = 1 }))
    let resume = (do lift (call enable_interrupt); lift clear)
    if ltb maxbuff mp then full else resume

  -- The handler from the check of the bridge on.
  unfoldable pub take_single : D IrqReturn
  take_single = do
    asserted ← gets (λ s. dev.interrupt_reply s.daq.calls)
    lift (call check_interrupt)
    let ours = (do
      lift (call disable_interrupt)
      lift (evt dev)
      finish_single
      lift (call wake_up)
      pure irq_handled)
    if asserted == 0 then pure irq_none else ours

  unfoldable pub interrupt_single : Bool → D IrqReturn
  interrupt_single registered = do
    started ← gets (λ s. s.startflag)
    fresh ← gets (λ s. not s.chkblk)
    let idle = (do lift (call disable_interrupt); lift (call wake_up); pure irq_handled)
    let begin = (do lift init_block; modify (λ s. record s { chkblk = true }))
    let handle = (do if fresh then begin else pure tt; take_single)
    if not started then idle else if not registered then pure irq_none else handle
