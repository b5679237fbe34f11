-- ===== src/Tests/Sessions.antt =====
-- A session of the driver, decoded.
use p42018_vmedaq.Common.{◌≡◌, refl, ltb, true, false, [], ◌∷◌, ◌++◌, arith}
use p42018_vmedaq.Bbrl.{maxbuff}
use p42018_vmedaq.Daq.Readout.{words_of}
use p42018_vmedaq.Caen.Tdc.{v1x90_longs, until_trailer}
use p42018_vmedaq.Madc32.Readout.{answers}
use p42018_vmedaq.Handlers.Event.{evt_body, reset_history, madc_history, madc_longs, tdc_longs}
use p42018_vmedaq.Nbbqdrv.{Driver, open_driver, read}
use p42018_vmedaq.Nbbqdrv.Interrupt.{recorded}
use p42018_vmedaq.Nbbqdrv.Content.{body_of}
use p42018_vmedaq.Nbbqdrv.Delivery.{Run}
use p42018_vmedaq.Nbbqdrv.Decode.{decode_all}
use p42018_vmedaq.Nbbqdrv.Answers.{
  segments_of, answered_all, full_triggers, open_triggers, session-answered,
}
use mathlib.Core.List.{map}
use p42018_vmedaq.Single.{open_single, interrupt_single}
use p42018_vmedaq.Tests.Data.{asserting, both_wait}
use p42018_vmedaq.Tests.States.{
  opened_driver, triggered_once, stopped_driver, stopped_then_read, nothing_left,
}

session_room : ltb maxbuff (recorded asserting opened_driver).daq.mp ≡ false
unfolding open_driver evt_body madc_longs tdc_longs answers v1x90_longs until_trailer reset_history
    madc_history words_of
session_room = ground arith

session_run :
    Run asserting opened_driver [] [] ([] ++ (body_of asserting opened_driver ∷ [])) triggered_once
unfolding open_driver
session_run = Run.trigger Run.begin refl refl session_room

session-answered_example :
    map segments_of (decode_all ([] ++ ([] ++ (read stopped_driver).0 ∷ [])))
    ≡ answered_all asserting
        (full_triggers asserting session_run ++ (open_triggers asserting session_run ∷ []))
session-answered_example =
    session-answered asserting both_wait session_run stopped_then_read nothing_left

-- With one buffer.
abbrev single_opened : Driver
single_opened = (open_single false both_wait).1

abbrev single_triggered : Driver
single_triggered = (interrupt_single asserting true single_opened).1
