-- ===== src/Single/Handler.antt =====
-- nbbqdrv_interrupt with one buffer, in closed form, and the states between two calls.
use p42018_vmedaq.Common.{
  ◌≡◌, ap, ◌∙◌, true, false, ◌==◌, ltb, if◌then◌else◌, ◌∷◌, Bool-cases, inl, inr,
}
use p42018_vmedaq.Device.{Device, disable_interrupt, check_interrupt}
use p42018_vmedaq.Daq.{Daq}
use p42018_vmedaq.Bbrl.{init_block, end_event, maxbuff}
use p42018_vmedaq.Handlers.Event.{after_evt, evt_body, evt_lem}
use p42018_vmedaq.Nbbqdrv.{Driver, irq_handled, irq_none}
use p42018_vmedaq.Nbbqdrv.Interrupt.{
  closed, closed_lem, resumed, entered, recorded, woken, IsAsserted, calls-entered, let_through_lem,
  end_event-after_event,
}
use p42018_vmedaq.Single.{finish_single, take_single, interrupt_single}

-- The block that is full waits, or the next trigger is let through.
abbrev pub finished_single : Device → Driver → Driver
finished_single dev s =
    if ltb maxbuff s.daq.mp
    then record s { daq = closed dev s.daq; chkblk = false; chkbuff = 1 }
    else resumed s

abbrev pub after_single : Device → Driver → Driver
after_single dev s = woken (finished_single dev (recorded dev s))

module _ (dev : Device) where
  finish_single_lem :
      (s : Driver)
      → end_event s.daq ≡ (s.daq.mp, s.daq)
      → (finish_single dev s).1 ≡ finished_single dev s
  unfolding finish_single
  finish_single_lem s h = rw h (elim (Bool-cases (ltb maxbuff s.daq.mp)) [
    | inl full ↦
        rw full (
          ap (λ (d : Daq). record s { daq = d; chkblk = false; chkbuff = 1 })
            (closed_lem dev s.daq))
    | inr room ↦ rw room (λ i. record s { daq = let_through_lem s.daq i })
  ])

  take_single_lem :
      (s : Driver)
      → IsAsserted dev s
      → let d = record s.daq { calls = disable_interrupt ∷ check_interrupt ∷ s.daq.calls } in
        take_single dev s
        ≡ (irq_handled, woken (finished_single dev (record s { daq = after_evt dev d })))
  unfolding take_single
  take_single_lem s asserted =
      let d : Daq = record s.daq { calls = disable_interrupt ∷ check_interrupt ∷ s.daq.calls } in
      let u : Driver = record s { daq = after_evt dev d } in
      let same : end_event u.daq ≡ (u.daq.mp, u.daq) =
        end_event-after_event 1 (evt_body dev d.calls) u.daq.segmenthmp u.daq.segmentsize
          u.daq.calls (record d { mpflag = u.daq.mpflag }) in
      rw asserted (
        ap
          (λ (e : Daq).
            let w = woken (finish_single dev (record s { daq = e })).1 in (irq_handled, w))
          (evt_lem dev d)
        ∙ ap (λ (t : Driver). (irq_handled, woken t)) (finish_single_lem u same))

  passed_on_single :
      (s : Driver)
      → (dev.interrupt_reply s.daq.calls == 0) ≡ true
      → take_single dev s
        ≡ (irq_none, record s { daq = record s.daq { calls = check_interrupt ∷ s.daq.calls } })
  unfolding take_single
  passed_on_single s other = rw other

  interrupt_single-entered :
      (s : Driver) → s.startflag ≡ true → interrupt_single dev true s ≡ take_single dev (entered s)
  unfolding interrupt_single init_block
  interrupt_single-entered s started =
      rw started (elim (Bool-cases s.chkblk) [ inl going ↦ rw going | inr fresh ↦ rw fresh ])

  -- A trigger that finds the driver started is handled: its event is written and closed, and where
  -- it ends past MAXBUFF the block is closed and waits, with the interrupt left disabled.
  pub interrupt_single_lem :
      (s : Driver)
      → s.startflag ≡ true
      → IsAsserted dev s
      → interrupt_single dev true s ≡ (irq_handled, after_single dev s)
  interrupt_single_lem s started asserted =
      interrupt_single-entered s started
      ∙ take_single_lem (entered s)
          (ap (λ cs. dev.interrupt_reply cs == 0) (calls-entered dev s) ∙ asserted)

  pub foreign_single_lem :
      (s : Driver)
      → s.startflag ≡ true
      → (dev.interrupt_reply s.daq.calls == 0) ≡ true
      → let e = entered s in
        interrupt_single dev true s
        ≡ (irq_none, record e { daq = record e.daq { calls = check_interrupt ∷ e.daq.calls } })
  foreign_single_lem s started other =
      interrupt_single-entered s started
      ∙ passed_on_single (entered s)
          (ap (λ cs. dev.interrupt_reply cs == 0) (calls-entered dev s) ∙ other)
