-- ===== src/Tests/Stalled.antt =====
-- The driver after both halves have been full: with VMIVME, and with a trigger within a read.
use p42018_vmedaq.Common.{◌≡◌, refl, ltb, true, false, arith}
use p42018_vmedaq.Bbrl.{maxbuff}
use p42018_vmedaq.Daq.Readout.{words_of}
use p42018_vmedaq.Caen.Tdc.{v1x90_longs, until_trailer}
use p42018_vmedaq.Madc32.Readout.{answers}
use p42018_vmedaq.Handlers.Event.{evt_body, reset_history, madc_history, madc_longs, tdc_longs}
use p42018_vmedaq.Lupo.{lupo_pout}
use p42018_vmedaq.Handlers.{clear}
use p42018_vmedaq.Nbbqdrv.{Driver, interrupt, read, block_at}
use p42018_vmedaq.Nbbqdrv.Interrupt.{recorded}
use p42018_vmedaq.Nbbqdrv.Race.{Raced, read_copy, read_count_down, race_lem, early_read_lem}
use p42018_vmedaq.Nbbqdrv.Invariant.{IsValid}
use p42018_vmedaq.Tests.States.{both_wait-IsValid}
use p42018_vmedaq.Vmivme.{read_vmivme, interrupt_vmivme}
use p42018_vmedaq.Vmivme.Handler.{recorded_vmivme}
use p42018_vmedaq.Vmivme.Stall.{irq_on, Quiet, stalled}
use p42018_vmedaq.Tests.Data.{asserting, one_waits, both_wait}

second_full : ltb maxbuff (recorded_vmivme asserting one_waits).daq.mp ≡ true
unfolding evt_body madc_longs tdc_longs answers v1x90_longs until_trailer reset_history madc_history
    words_of
second_full = ground arith

-- Both blocks were read.
abbrev both_read : Driver
both_read = (read_vmivme (read_vmivme (interrupt_vmivme asserting one_waits).1).1).1

stalled_example : (irq_on both_read.daq.calls ≡ false) × (both_read.chkbuff ≡ 0)
stalled_example =
    stalled asserting one_waits refl refl refl second_full (Quiet.fetch (Quiet.fetch Quiet.begin))

-- A trigger within a read, with both halves full.
abbrev copied : Driver
copied = (read_copy both_wait).1

race_lem_example :
    Raced
      (ltb maxbuff (recorded asserting copied).daq.mp)
      (read_count_down (interrupt asserting true copied).1).1
unfolding read_copy clear lupo_pout
race_lem_example = race_lem asserting both_wait both_wait-IsValid refl refl

-- A read with no block waiting, and then a trigger that fills one.
abbrev none_waits : Driver
none_waits = record one_waits { chkbuff = 0; drn = 1; daq = record one_waits.daq { dn = 1 } }

abbrev read_early : Driver
read_early = (read none_waits).1

none_waits-IsValid : IsValid none_waits
none_waits-IsValid = ground arith

early_full : ltb maxbuff (recorded asserting read_early).daq.mp ≡ true
unfolding read evt_body madc_longs tdc_longs answers v1x90_longs until_trailer reset_history
    madc_history words_of
early_full = ground arith

early_read_lem_example :
    let u = (interrupt asserting true read_early).1 in
    (u.chkbuff ≡ 1) × ((read u).0 ≡ block_at u.daq 0)
unfolding read
early_read_lem_example = early_read_lem asserting none_waits none_waits-IsValid refl refl early_full
