-- ===== src/Tests/Blocks.antt =====
-- A block that two events fill, and that is read.
use p42018_vmedaq.Common.{
  List, ℕ, ◌+◌, ◌≡◌, refl, ap, ◌∙◌, true, false, ltb, not, ◌==◌, [], ◌∷◌, ◌++◌, length,
  length-append, add32, arith,
}
use p42018_vmedaq.Device.{Device, History, read16}
use p42018_vmedaq.Daq.Readout.{words_of, length-words_of}
use p42018_vmedaq.Bbrl.{maxbuff}
use p42018_vmedaq.Bbrl.Segment.{segment_words}
use p42018_vmedaq.Caen.Tdc.{v1x90_longs}
use p42018_vmedaq.Madc32.Registers.{reg_data, reg_buffer_data_length}
use p42018_vmedaq.Madc32.Readout.{length-answers}
use p42018_vmedaq.Handlers.{madc32adr, madc32p2adr}
use p42018_vmedaq.Handlers.Event.{evt_body, madc_longs, tdc_longs, reset_history}
use p42018_vmedaq.Nbbqdrv.{Driver, IrqReturn, interrupt, read}
use p42018_vmedaq.Nbbqdrv.Interrupt.{recorded, triggered, entered, interrupt_lem}
use p42018_vmedaq.Nbbqdrv.Calls.{irq_enabled}
use p42018_vmedaq.Nbbqdrv.Invariant.{IsValid}
use p42018_vmedaq.Nbbqdrv.Fifo.{waiting, finished_parts, entered_indices}
use p42018_vmedaq.Nbbqdrv.Content.{events, Holds, body_of}
use p42018_vmedaq.Nbbqdrv.Delivery.{Run, AllBlocksOf, run-AllBlocksOf}
use p42018_vmedaq.Tests.Data.{asserting, one_waits}

-- Modules with 960 long words in each MADC-32 and one in the V1190.
abbrev heavy : Device
heavy = record asserting { read16_reply = λ cs addr. 960; read32_reply = λ cs addr. 0 }

madc_length : (maddr : ℕ) (cs : History) → length (words_of (madc_longs heavy maddr cs)) ≡ 1920
unfolding madc_longs
madc_length maddr cs = omega (
  arith,
  length-words_of (madc_longs heavy maddr cs),
  length-answers heavy (add32 maddr reg_data) 960
      (read16 (add32 maddr reg_buffer_data_length) ∷ cs),
)

tdc_length : (cs : History) → length (words_of (tdc_longs heavy cs)) ≡ 2
unfolding tdc_longs v1x90_longs words_of
tdc_length cs = refl

heavy-length : (cs : History) → length (evt_body heavy cs) ≡ 3848
unfolding evt_body
heavy-length cs =
    let cs1 = reset_history heavy madc32adr cs in
    let cs2 = reset_history heavy madc32p2adr cs1 in
    let s1 = segment_words 1 (words_of (madc_longs heavy madc32adr cs)) in
    let s2 = segment_words 1 (words_of (madc_longs heavy madc32p2adr cs1)) in
    let s3 = segment_words 2 (words_of (tdc_longs heavy cs2)) in
    omega (
      arith,
      length-append (s1 ++ s2) s3,
      length-append s1 s2,
      madc_length madc32adr cs,
      madc_length madc32p2adr cs1,
      tdc_length cs2,
    )

-- No block is open or waits, and the interrupt is enabled.
abbrev waiting_for_events : Driver
waiting_for_events = record one_waits { drn = 1; chkbuff = 0; chkblk = false }

waiting-IsValid : IsValid waiting_for_events
waiting-IsValid = ground arith

abbrev half_full : Driver
half_full = (interrupt heavy true waiting_for_events).1

first_room : ltb maxbuff (recorded heavy waiting_for_events).daq.mp ≡ false
first_room = ground (arith, heavy-length (triggered waiting_for_events).daq.calls)

first_event :
    Run heavy waiting_for_events [] [] ([] ++ (body_of heavy waiting_for_events ∷ [])) half_full
first_event = Run.trigger Run.begin refl refl first_room

half_full-IsValid : IsValid half_full
half_full-IsValid = (run-AllBlocksOf heavy waiting-IsValid refl refl first_event).0

none_waits : half_full.chkbuff ≡ 0
none_waits =
    ap (λ (r : IrqReturn × Driver). r.1.chkbuff) (interrupt_lem heavy waiting_for_events refl refl)
    ∙ (finished_parts heavy (recorded heavy waiting_for_events)).chkbuff
    ∙ rw first_room refl

enabled_again : irq_enabled half_full.daq.calls ≡ true
enabled_again = half_full-IsValid.irq ∙ ap (λ n. not (n == 2)) none_waits

second_size : (recorded heavy half_full).daq.mp ≡ 7706
unfolding events
second_size =
    let first = body_of heavy waiting_for_events in
    let h = (run-AllBlocksOf heavy waiting-IsValid refl refl first_event).1 in
    omega (
      arith,
      h.mp,
      heavy-length (triggered waiting_for_events).daq.calls,
      length-append first [],
      heavy-length (triggered half_full).daq.calls,
    )

second_full : ltb maxbuff (recorded heavy half_full).daq.mp ≡ true
second_full = ground (arith, second_size)

-- The bodies of both events.
abbrev two_bodies : List (List ℕ)
two_bodies = ([] ++ (body_of heavy waiting_for_events ∷ [])) ++ (body_of heavy half_full ∷ [])

abbrev filled_once : Driver
filled_once = (interrupt heavy true half_full).1

second_event : Run heavy waiting_for_events [] ([] ++ (two_bodies ∷ [])) [] filled_once
second_event = Run.fill first_event enabled_again refl second_full (omega (arith, second_size))

one_full : filled_once.chkbuff ≡ 1
one_full =
    ap (λ (r : IrqReturn × Driver). r.1.chkbuff)
      (interrupt_lem heavy half_full half_full-IsValid.started refl)
    ∙ (finished_parts heavy (recorded heavy half_full)).chkbuff
    ∙ rw second_full (ap (λ n. n + 1) ((entered_indices half_full).1 ∙ none_waits))

then_read :
    Run heavy waiting_for_events
      ([] ++ ((read filled_once).0 ∷ []))
      ([] ++ (two_bodies ∷ []))
      []
      (read filled_once).1
then_read = Run.fetch second_event (omega (arith, one_full))

run-AllBlocksOf_example :
    IsValid (read filled_once).1
    × Holds (events 0 []) 0 (entered (read filled_once).1).daq
    × AllBlocksOf
        ([] ++ (two_bodies ∷ []))
        (([] ++ ((read filled_once).0 ∷ [])) ++ waiting (read filled_once).1)
run-AllBlocksOf_example = run-AllBlocksOf heavy waiting-IsValid refl refl then_read
