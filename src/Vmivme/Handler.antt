-- ===== src/Vmivme/Handler.antt =====
-- nbbqdrv_interrupt with VMIVME, in closed form.
use p42018_vmedaq.Common.{
  ◌+◌, ◌≡◌, refl, ap, ◌∙◌, true, false, ◌==◌, ltb, if◌then◌else◌, ◌∷◌, Bool-cases, inl, inr,
}
use p42018_vmedaq.Device.{
  Device, disable_interrupt, wake_up, vme_interrupt_clear, vme_interrupt_enable,
  vme_interrupt_disable, vme_interrupt_asserted, vme_interrupt_vector,
}
use p42018_vmedaq.Daq.{Daq}
use p42018_vmedaq.Bbrl.{init_block, end_event, chmem, maxbuff}
use p42018_vmedaq.Handlers.Event.{after_evt, evt_body, evt_lem}
use p42018_vmedaq.Nbbqdrv.{Driver, D, IrqReturn, irq_handled, irq_none}
use p42018_vmedaq.Nbbqdrv.Interrupt.{
  closed_lem, closed, swapped, cleared, clear_lem, handed_over, entered, woken, IsAsserted,
  end_event-after_event,
}
use p42018_vmedaq.Vmivme.{resume_vmivme, finish_vmivme, serve_vmivme, take_vmivme, interrupt_vmivme}

-- The busy state is released where it was held, and the next trigger is let through.
abbrev pub let_on : Daq → Daq
let_on d =
    let c = cleared d in record c { calls = vme_interrupt_clear ∷ vme_interrupt_enable ∷ c.calls }

abbrev pub resumed_vmivme : Driver → Driver
resumed_vmivme s = record s { daq = let_on s.daq }

abbrev pub finished_vmivme : Device → Driver → Driver
finished_vmivme dev s =
    let next = handed_over dev s in
    if ltb maxbuff s.daq.mp
    then (if next.chkbuff == 2 then next else resumed_vmivme next)
    else resumed_vmivme s

-- The bridge has answered, and the interrupt is disabled.
abbrev pub asked_vmivme : Driver → Driver
asked_vmivme s = record s {
  daq = record s.daq {
    calls = vme_interrupt_disable ∷ vme_interrupt_vector ∷ vme_interrupt_asserted ∷ s.daq.calls;
  };
}

-- The state in which `evt` runs, and the one behind it.
abbrev pub triggered_vmivme : Driver → Driver
triggered_vmivme s = entered (asked_vmivme s)

abbrev pub recorded_vmivme : Device → Driver → Driver
recorded_vmivme dev s = record (triggered_vmivme s) { daq = after_evt dev (triggered_vmivme s).daq }

abbrev pub after_vmivme : Device → Driver → Driver
after_vmivme dev s = woken (finished_vmivme dev (recorded_vmivme dev s))

resume_vmivme_lem : (s : Driver) → (resume_vmivme s).1 ≡ resumed_vmivme s
unfolding resume_vmivme
resume_vmivme_lem s =
    ap
      (λ (c : Daq). record s {
        daq = record c { calls = vme_interrupt_clear ∷ vme_interrupt_enable ∷ c.calls };
      })
      (clear_lem s.daq)

module _ (dev : Device) where
  finish_vmivme_lem :
      (s : Driver)
      → end_event s.daq ≡ (s.daq.mp, s.daq)
      → (finish_vmivme dev s).1 ≡ finished_vmivme dev s
  unfolding finish_vmivme chmem
  finish_vmivme_lem s h = rw h (elim (Bool-cases (ltb maxbuff s.daq.mp)) [
    | inl full ↦ rw full (elim (Bool-cases (s.chkbuff + 1 == 2)) [
      | inl both ↦ rw both (ap next (closed_lem dev s.daq))
      | inr one ↦ rw one (
          ap (λ d. (resume_vmivme (next d)).1) (closed_lem dev s.daq)
          ∙ resume_vmivme_lem (next (closed dev s.daq)))
    ])
    | inr room ↦ rw room (resume_vmivme_lem s)
  ])
    where
      next : Daq → Driver
      next d = record s { daq = swapped d; chkblk = false; chkbuff = s.chkbuff + 1 }

  serve_vmivme_lem :
      (e : Driver)
      → serve_vmivme dev e
        ≡ (irq_handled, woken (finished_vmivme dev (record e { daq = after_evt dev e.daq })))
  unfolding serve_vmivme
  serve_vmivme_lem e =
      let d = e.daq in
      let u : Driver = record e { daq = after_evt dev d } in
      let same : end_event u.daq ≡ (u.daq.mp, u.daq) =
        end_event-after_event 1 (evt_body dev d.calls) u.daq.segmenthmp u.daq.segmentsize
          u.daq.calls (record d { mpflag = u.daq.mpflag }) in
      ap
        (λ (x : Daq).
          let w = woken (finish_vmivme dev (record e { daq = x })).1 in (irq_handled, w))
        (evt_lem dev d)
      ∙ ap (λ (t : Driver). (irq_handled, woken t)) (finish_vmivme_lem u same)

  take_vmivme_lem :
      (s : Driver) → IsAsserted dev s → take_vmivme dev s ≡ serve_vmivme dev (triggered_vmivme s)
  unfolding take_vmivme init_block
  take_vmivme_lem s asserted =
      rw asserted
        (elim (Bool-cases s.chkblk) [ inl going ↦ rw going refl | inr fresh ↦ rw fresh refl ])

  -- A trigger that finds the driver started is handled: a block is open, its event is written and
  -- closed, the block is closed and the halves are swapped where the event ends past MAXBUFF, and
  -- the next trigger is let through unless both halves then wait.
  pub interrupt_vmivme_lem :
      (s : Driver)
      → s.startflag ≡ true
      → IsAsserted dev s
      → interrupt_vmivme dev s ≡ (irq_handled, after_vmivme dev s)
  unfolding interrupt_vmivme
  interrupt_vmivme_lem s started asserted =
      let idle : D IrqReturn = λ x. (
        irq_handled,
        record x { daq = record x.daq { calls = wake_up ∷ disable_interrupt ∷ x.daq.calls } },
      ) in
      ap (λ b. (if b then take_vmivme dev else idle) s) started
      ∙ take_vmivme_lem s asserted
      ∙ serve_vmivme_lem (triggered_vmivme s)

  -- An interrupt of another device changes nothing but the calls.
  pub foreign_vmivme_lem :
      (s : Driver)
      → s.startflag ≡ true
      → (dev.interrupt_reply s.daq.calls == 0) ≡ true
      → interrupt_vmivme dev s ≡ (
        irq_none,
        record s { daq = record s.daq { calls = vme_interrupt_asserted ∷ s.daq.calls } },
      )
  unfolding interrupt_vmivme take_vmivme
  foreign_vmivme_lem s started other = rw (started, other) refl
