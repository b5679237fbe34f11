-- ===== src/Tests/States.antt =====
-- The driver's theorems at concrete states.
use p42018_vmedaq.Common.{
  ◌+◌, ◌-◌, ◌≡◌, refl, ap, ◌∙◌, true, false, ltb, if◌then◌else◌, [], ◌∷◌, ◌++◌, arith, slice,
}
use p42018_vmedaq.Device.{disable_interrupt, wake_up}
use p42018_vmedaq.Daq.Readout.{words_of}
use p42018_vmedaq.Bbrl.{half, maxbuff}
use p42018_vmedaq.Bbrl.Format.{parse_segments}
use p42018_vmedaq.Caen.Tdc.{v1x90_longs, until_trailer}
use p42018_vmedaq.Madc32.Readout.{answers}
use p42018_vmedaq.Lupo.{lupo_pout}
use p42018_vmedaq.Handlers.{evt, clear}
use p42018_vmedaq.Handlers.Event.{
  evt_body, reset_history, madc_history, madc_longs, tdc_longs, after_evt, evt_lem,
}
use p42018_vmedaq.Handlers.Format.{parse-evt}
use p42018_vmedaq.Nbbqdrv.{
  Driver, poll, irq_handled, irq_none, opened, open_driver, read, interrupt, stop_daq, block_at,
}
use p42018_vmedaq.Nbbqdrv.Interrupt.{interrupt_lem, after_interrupt, recorded}
use p42018_vmedaq.Nbbqdrv.Invariant.{
  IsValid, interrupt-IsValid, foreign-IsValid, read-IsValid, open-IsValid,
}
use p42018_vmedaq.Nbbqdrv.Fifo.{waiting, read_fifo, interrupt_fifo, Fits}
use p42018_vmedaq.Nbbqdrv.Busy.{ledger, Run, begin, trigger, run_lem}
use p42018_vmedaq.Nbbqdrv.Session.{Rest, read_count}
use p42018_vmedaq.Nbbqdrv.Trace.{Trace, filled_by, trace_lem}
use mathlib.Core.Path.{ap₂}
use p42018_vmedaq.Nbbqdrv.Stop.{stop_count, stop_fifo, stop-Overrun, Overrun}
use p42018_vmedaq.Tests.Data.{asserting, silent, nearly_full, one_waits, both_wait}

abbrev pub opened_driver : Driver
opened_driver = (open_driver false both_wait).1

abbrev pub triggered_once : Driver
triggered_once = (interrupt asserting true opened_driver).1

abbrev pub stopped_driver : Driver
stopped_driver = (stop_daq asserting triggered_once).1

one_waits-IsValid : IsValid one_waits
one_waits-IsValid = ground arith

pub both_wait-IsValid : IsValid both_wait
both_wait-IsValid = ground arith

one_waits-Fits : Fits asserting one_waits
unfolding evt_body madc_longs tdc_longs answers v1x90_longs until_trailer reset_history madc_history
    words_of
one_waits-Fits = ground arith

-- The trigger that fills the second half, and the read that frees the first one.
filled : Run asserting one_waits 1 (interrupt asserting true one_waits).1
filled = trigger begin refl refl

interrupt_fifo_example :
    let t = (interrupt asserting true one_waits).1 in
    waiting t ≡ (
      if ltb maxbuff (recorded asserting one_waits).daq.mp
      then waiting one_waits ++ (block_at t.daq 1 ∷ [])
      else waiting one_waits)
interrupt_fifo_example =
    interrupt_fifo asserting one_waits one_waits-IsValid refl refl one_waits-Fits

read_fifo_example : (read both_wait).0 ∷ waiting (read both_wait).1 ≡ waiting both_wait
read_fifo_example = read_fifo both_wait (omega arith)

run_example :
    let t = (interrupt asserting true one_waits).1 in IsValid t × (ledger t ≡ ledger one_waits + 1)
run_example = run_lem asserting one_waits-IsValid filled

stop_fifo_example :
    let t = (stop_daq asserting one_waits).1 in
    ((stop_daq asserting one_waits).0 ≡ t.chkbuff)
    × (waiting t ≡ waiting one_waits ++ (block_at t.daq 1 ∷ []))
stop_fifo_example = stop_fifo asserting one_waits one_waits-IsValid

stop-Overrun_example : Overrun both_wait (stop_daq silent (interrupt silent true both_wait).1)
stop-Overrun_example = stop-Overrun silent both_wait both_wait-IsValid refl refl

interrupt_example :
    interrupt asserting true one_waits ≡ (irq_handled, after_interrupt asserting one_waits)
interrupt_example = interrupt_lem asserting one_waits refl refl

interrupt-IsValid_example :
    ((interrupt asserting true one_waits).0 ≡ irq_handled)
    × IsValid (interrupt asserting true one_waits).1
interrupt-IsValid_example = interrupt-IsValid asserting one_waits one_waits-IsValid refl refl

foreign-IsValid_example :
    ((interrupt silent true one_waits).0 ≡ irq_none) × IsValid (interrupt silent true one_waits).1
foreign-IsValid_example = foreign-IsValid silent one_waits one_waits-IsValid (omega arith) refl

read-IsValid_example : IsValid (read both_wait).1
read-IsValid_example = read-IsValid both_wait both_wait-IsValid (omega arith)

open-IsValid_example :
    ((open_driver false both_wait).0 ≡ opened) × IsValid (open_driver false both_wait).1
open-IsValid_example = open-IsValid both_wait

evt_example : (evt asserting nearly_full).1 ≡ after_evt asserting nearly_full
evt_example = evt_lem asserting nearly_full

-- The three segments, as the device has answered them.
parse-evt_example :
    let t = (evt asserting nearly_full).1 in
    parse_segments 3 (slice t.mem (half + maxbuff + 3) (t.mp - (maxbuff + 3)))
    ≡ (1, 0 ∷ 0x4240 ∷ 0 ∷ 0x8420 ∷ [])
      ∷ (1, 0 ∷ 0x4240 ∷ 0 ∷ 0x8420 ∷ [])
      ∷ (2, 0 ∷ 0x4240 ∷ 0 ∷ 0x8420 ∷ [])
      ∷ []
unfolding madc_longs tdc_longs answers v1x90_longs until_trailer reset_history madc_history words_of
parse-evt_example = parse-evt asserting nearly_full

-- A read with both halves full, and the trigger that it lets through.
read_then_trigger :
    let t = (read both_wait).1 in
    Trace asserting both_wait
      ([] ++ filled_by asserting t)
      ([] ++ ((read both_wait).0 ∷ []))
      (interrupt asserting true t).1
unfolding read clear lupo_pout evt_body madc_longs tdc_longs answers v1x90_longs until_trailer
    reset_history madc_history words_of
read_then_trigger = Trace.trigger (Trace.fetch Trace.begin (omega arith)) refl refl (ground arith)

trace_example :
    let t = (read both_wait).1 in
    let u = (interrupt asserting true t).1 in
    IsValid u
    × (([] ++ ((read both_wait).0 ∷ [])) ++ waiting u
        ≡ waiting both_wait ++ ([] ++ filled_by asserting t))
trace_example = trace_lem asserting both_wait-IsValid read_then_trigger

-- A session: opened, one trigger, stopped, and the block that was open is read.
opened_then_trigger : Trace asserting opened_driver ([] ++ []) [] triggered_once
unfolding open_driver evt_body madc_longs tdc_longs answers v1x90_longs until_trailer reset_history
    madc_history words_of
opened_then_trigger = Trace.trigger Trace.begin refl refl (ground arith)

triggered_once_lem : (triggered_once.chkblk ≡ true) × (triggered_once.chkbuff ≡ 0)
unfolding open_driver evt_body madc_longs tdc_longs answers v1x90_longs until_trailer reset_history
    madc_history words_of
triggered_once_lem =
    rw (triggered_once, interrupt_lem asserting opened_driver refl refl) (ground arith)

stopped_count : stopped_driver.chkbuff ≡ 1
stopped_count =
    stop_count asserting triggered_once
    ∙ ap₂ (λ b n. if b then n + 1 else n) triggered_once_lem.0 triggered_once_lem.1

pub stopped_then_read :
    Rest asserting stopped_driver ([] ++ (read stopped_driver).0 ∷ []) (read stopped_driver).1
unfolding poll
stopped_then_read = Rest.fetch Rest.begin (ap (λ n. ltb 0 n) stopped_count)

pub nothing_left : (poll (read stopped_driver).1).0 ≡ false
unfolding poll
nothing_left = ap (λ n. ltb 0 n) (read_count stopped_driver ∙ ap (λ n. n - 1) stopped_count)

-- A late interrupt's two calls.
abbrev silenced : Driver → Driver
silenced s = record s { daq = record s.daq { calls = wake_up ∷ disable_interrupt ∷ s.daq.calls } }
