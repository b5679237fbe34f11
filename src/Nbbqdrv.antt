-- ===== src/Nbbqdrv.antt =====
-- nbbqdrv.c: the character device. Its operations run on the state of bbrl.c and the flags that the
-- interrupt handler shares with the file operations; BBRL, DBUFF, VME and VMEINT are defined.
pub mod Interrupt
pub mod Calls
pub mod Invariant
pub mod Fifo
pub mod Busy
pub mod Stop
pub mod Trace
pub mod Session
pub mod Module
pub mod Content
pub mod Filled
pub mod Readback
pub mod Delivery
pub mod Decode
pub mod Complete
pub mod Race
pub mod Answers
use p42018_vmedaq.Common.{
  ℕ, ◌+◌, ◌-◌, ◌*◌, Bool, true, false, not, Option, none, some, ◌==◌, ltb, if◌then◌else◌, List,
  slice,
}
use p42018_vmedaq.Device.{Device, enable_interrupt, disable_interrupt, check_interrupt, wake_up}
use p42018_vmedaq.Daq.{Daq, M, ◌>>=◌, ◌>>◌, pure, gets, modify, call}
use p42018_vmedaq.Bbrl.{init_mem, init_block, end_block, end_event, chmem, half, maxbuff}
use p42018_vmedaq.Handlers.{startup, evt, stop, clear, sca}

-- The globals of nbbqdrv.c beside those of bbrl.c. `chkbuff` counts the full blocks that wait for the
-- user; the source keeps it from going below 0.
pub record Driver : Type 0 where
  pub daq : Daq
  pub startflag : Bool
  pub stopflag : Bool
  pub drn : ℕ
  pub chkbuff : ℕ
  pub chkblk : Bool

abbrev pub D : Type 0 → Type 0
D A = Driver → A × Driver

abbrev pub lift : {A : Type 0} → M A → D A
lift m s = let (a, d) = m s.daq in (a, record s { daq = d })

-- 0 or -EBUSY
pub data OpenStatus : Type 0 where
  opened ebusy : OpenStatus

-- IRQ_HANDLED or IRQ_NONE
pub data IrqReturn : Type 0 where
  irq_handled irq_none : IrqReturn

-- nbbqio.h, and any other command
pub data Command : Type 0 where
  nbbq_stop nbbq_stopb nbbq_ei other_command : Command

-- `in_use` is the kernel's MOD_IN_USE.
unfoldable pub open_driver : Bool → D OpenStatus
open_driver in_use = do
  let start = (do
    modify (λ s. record s { chkblk = false; chkbuff = 0; stopflag = false; drn = 0 })
    lift init_mem
    modify (λ s. record s { startflag = true })
    lift startup
    lift (call enable_interrupt)
    pure opened)
  if in_use then pure ebusy else start

unfoldable pub release : D (Unit {0})
release = do modify (λ s. record s { chkbuff = 0 }); lift (call disable_interrupt)

-- The block that is copied to the user: BLKSIZE bytes from `databuff + BLKSIZE / 2 * drn` on.
abbrev pub block_at : Daq → ℕ → List ℕ
block_at d n = slice d.mem (half * n) half

-- The words that the user gets.
unfoldable pub read : D (List ℕ)
read = do
  block ← gets (λ s. block_at s.daq s.drn)
  modify (λ s. record s { drn = if s.drn + 1 == 2 then 0 else s.drn + 1 })
  full ← gets (λ s. s.chkbuff == 2)
  stopped ← gets (λ s. s.stopflag)
  let resume = (do if not stopped then lift (call enable_interrupt) else pure tt; lift clear)
  if full then resume else pure tt
  modify (λ s. record s { chkbuff = s.chkbuff - 1 })
  pure block

unfoldable pub poll : D Bool
poll = gets (λ s. ltb 0 s.chkbuff)

module _ (dev : Device) where
  -- NBBQ_STOP and NBBQ_STOPB; the result is the flag copied to the user.
  unfoldable pub stop_daq : D ℕ
  stop_daq = do
    lift (call disable_interrupt)
    modify (λ s. record s { startflag = false; stopflag = true })
    open_block ← gets (λ s. s.chkblk)
    let close = (do
      _ ← lift end_block
      lift (sca dev)
      modify (λ s. record s { chkbuff = s.chkbuff + 1 })
      flag ← gets (λ s. s.chkbuff)
      modify (λ s. record s { chkblk = false })
      pure flag)
    flag ← (if open_block then close else pure 0)
    lift stop
    pure flag

  -- With DBUFF, NBBQ_EI does nothing.
  unfoldable pub ioctl : Command → D (Option ℕ)
  ioctl nbbq_stop = do flag ← stop_daq; pure (some flag)
  ioctl nbbq_stopb = do flag ← stop_daq; pure (some flag)
  ioctl nbbq_ei = pure none
  ioctl other_command = pure none

  -- After an event: close the block and take the other half where it is full, and let the next
  -- trigger come unless both halves wait for the user.
  unfoldable pub finish_event : D (Unit {0})
  finish_event = do
    mp ← lift end_event
    let resume = (do lift (call enable_interrupt); lift clear)
    let next_block = (do
      _ ← lift end_block
      lift (sca dev)
      modify (λ s. record s { chkblk = false; chkbuff = s.chkbuff + 1 })
      lift chmem
      both_full ← gets (λ s. s.chkbuff == 2)
      if both_full then pure tt else resume)
    if ltb maxbuff mp then next_block else resume

  -- The handler from the check of the bridge on.
  unfoldable pub take_interrupt : D IrqReturn
  take_interrupt = do
    asserted ← gets (λ s. dev.interrupt_reply s.daq.calls)
    lift (call check_interrupt)
    let ours = (do
      lift (call disable_interrupt)
      lift (evt dev)
      finish_event
      lift (call wake_up)
      pure irq_handled)
    if asserted == 0 then pure irq_none else ours

  -- `registered` is `dev_id != NULL`.
  unfoldable pub interrupt : Bool → D IrqReturn
  interrupt registered = do
    started ← gets (λ s. s.startflag)
    fresh ← gets (λ s. not s.chkblk)
    let idle = (do lift (call disable_interrupt); lift (call wake_up); pure irq_handled)
    let begin = (do lift init_block; modify (λ s. record s { chkblk = true }))
    let handle = (do if fresh then begin else pure tt; take_interrupt)
    if not started then idle else if not registered then pure irq_none else handle
