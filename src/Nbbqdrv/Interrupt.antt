-- ===== src/Nbbqdrv/Interrupt.antt =====
-- nbbqdrv_interrupt in closed form: the state after a trigger, in terms of the state before it.
use p42018_vmedaq.Common.{
  ℕ, ◌+◌, ◌-◌, ◌*◌, ◌≡◌, ap, ◌∙◌, true, false, ◌==◌, ltb, if◌then◌else◌, List, [], ◌∷◌, Bool-cases,
  inl, inr, update, write_words, u16, arith, length, bit_or, patch-write_words_self,
}
use p42018_vmedaq.Device.{
  Device, History, enable_interrupt, disable_interrupt, check_interrupt, wake_up,
}
use p42018_vmedaq.Daq.{Daq, ◌>>=◌}
use p42018_vmedaq.Daq.Readout.{words_of}
use p42018_vmedaq.Bbrl.{init_block, end_block, end_event, chmem, half, maxbuff}
use p42018_vmedaq.Bbrl.Event.{after_event}
use p42018_vmedaq.Caen.Registers.{v560_nch}
use p42018_vmedaq.Caen.Scaler.{counter, counts, v560_read_scaler32_mod_lem}
use p42018_vmedaq.Daq.Readout.{history_after}
use p42018_vmedaq.Lupo.{lupo_pout}
use p42018_vmedaq.Handlers.{clear, sca, v560_adr}
use p42018_vmedaq.Handlers.Event.{after_evt, evt_body, evt_lem, busycl}
use p42018_vmedaq.Nbbqdrv.{Driver, irq_handled, irq_none, interrupt, take_interrupt, finish_event}

-- init_block, where no block is open
abbrev pub begun : Daq → Daq
begun d = record d {
  mem = update (update d.mem (d.base + 0) 0) (d.base + 1) 0;
  mp = 4;
  eventid = 0;
}

-- clear.c
abbrev pub cleared : Daq → Daq
cleared d = record d { calls = if d.mpflag then busycl ∷ d.calls else d.calls }

-- chmem
abbrev pub swapped : Daq → Daq
swapped d = if d.dn == 0 then record d { base = half; dn = 1 } else record d { base = 0; dn = 0 }

-- The end marker and the scaler counters of a block.
abbrev pub closed : Device → Daq → Daq
closed dev d = record d {
  mem =
      write_words (write_words d.mem (d.base + d.mp) (0xffff ∷ 0xffff ∷ []))
        (d.base + (half - v560_nch * 2)) (words_of (counts dev v560_adr 0 v560_nch d.calls));
  mp = half;
  calls = history_after (counter v560_adr) v560_nch 0 d.calls;
}

-- The next trigger is let through.
abbrev pub resumed : Driver → Driver
resumed s = record s { daq = cleared (record s.daq { calls = enable_interrupt ∷ s.daq.calls }) }

-- The block is full and waits; the other half is next.
abbrev pub handed_over : Device → Driver → Driver
handed_over dev s = record s {
  daq = swapped (closed dev s.daq);
  chkblk = false;
  chkbuff = s.chkbuff + 1;
}

abbrev pub finished : Device → Driver → Driver
finished dev s =
    let next = handed_over dev s in
    if ltb maxbuff s.daq.mp then (if next.chkbuff == 2 then next else resumed next) else resumed s

-- A block is open.
abbrev pub entered : Driver → Driver
entered s = if s.chkblk then s else record s { daq = begun s.daq; chkblk = true }

-- The state in which `evt` runs.
abbrev pub triggered : Driver → Driver
triggered s =
    let e = entered s in
    record e { daq = record e.daq { calls = disable_interrupt ∷ check_interrupt ∷ e.daq.calls } }

abbrev pub recorded : Device → Driver → Driver
recorded dev s = record (triggered s) { daq = after_evt dev (triggered s).daq }

abbrev pub woken : Driver → Driver
woken s = record s { daq = record s.daq { calls = wake_up ∷ s.daq.calls } }

abbrev pub after_interrupt : Device → Driver → Driver
after_interrupt dev s = woken (finished dev (recorded dev s))

-- The bridge answers that the interrupt is ours.
abbrev pub IsAsserted : Device → Driver → Type 0
IsAsserted dev s = (dev.interrupt_reply s.daq.calls == 0) ≡ false

pub clear_lem : (d : Daq) → (clear d).1 ≡ cleared d
unfolding clear lupo_pout
clear_lem d = elim (Bool-cases d.mpflag) [ inl h ↦ rw h | inr h ↦ rw h ]

end_block_lem :
    (d : Daq)
    → (end_block d).1
      ≡ record d { mem = write_words d.mem (d.base + d.mp) (0xffff ∷ 0xffff ∷ []); mp = d.mp + 2 }
unfolding end_block write_words
end_block_lem d =
    let next : d.base + (d.mp + 1) ≡ d.base + d.mp + 1 = omega arith in
    let end : d.mp + 1 + 1 ≡ d.mp + 2 = omega arith in rw (next, end)

pub closed_lem : (dev : Device) (d : Daq) → ((end_block >>= λ _. sca dev) d).1 ≡ closed dev d
unfolding sca
closed_lem dev d =
    let marked : Daq = record d {
      mem = write_words d.mem (d.base + d.mp) (0xffff ∷ 0xffff ∷ []);
      mp = d.mp + 2;
    } in
    ap (λ e. (sca dev e).1) (end_block_lem d) ∙ v560_read_scaler32_mod_lem dev v560_adr marked

-- Writing the size of a closed event again changes nothing.
pub end_event-after_event :
    (fid : ℕ) (body : List ℕ) (h s : ℕ) (cs : History) (d : Daq)
    → end_event (after_event fid body h s cs d)
      ≡ (d.mp + (3 + length body), after_event fid body h s cs d)
unfolding end_event
end_event-after_event fid body h s cs d =
    let rest = u16 fid ∷ u16 (d.eventid + 1) ∷ body in
    let size = u16 (bit_or (3 + length body) 0x8000) in
    λ i. (
      d.mp + (3 + length body),
      record (after_event fid body h s cs d) {
        mem = patch-write_words_self rest d.mem (d.base + d.mp) size i;
      },
    )

-- The two calls that let the next trigger come.
abbrev pub let_through : Daq → Daq
let_through d = (clear (record d { calls = enable_interrupt ∷ d.calls })).1

pub let_through_lem :
    (d : Daq) → let_through d ≡ cleared (record d { calls = enable_interrupt ∷ d.calls })
let_through_lem d = clear_lem (record d { calls = enable_interrupt ∷ d.calls })

module _ (dev : Device) where
  -- `finish_event` on a state whose event is closed.
  finish_event_lem :
      (s : Driver) → end_event s.daq ≡ (s.daq.mp, s.daq) → (finish_event dev s).1 ≡ finished dev s
  unfolding finish_event chmem
  finish_event_lem s h = rw h (elim (Bool-cases (ltb maxbuff s.daq.mp)) [
    | inl full ↦ rw full (elim (Bool-cases (s.chkbuff + 1 == 2)) [
      | inl both ↦ rw both (ap next (closed_lem dev s.daq))
      | inr one ↦ rw one (
          ap (λ d. resume (next d)) (closed_lem dev s.daq)
          ∙ (λ i. let n = next (closed dev s.daq) in record n { daq = let_through_lem n.daq i }))
    ])
    | inr room ↦ rw room (λ i. record s { daq = let_through_lem s.daq i })
  ])
    where
      next : Daq → Driver
      next d = record s { daq = swapped d; chkblk = false; chkbuff = s.chkbuff + 1 }

      resume : Driver → Driver
      resume n = record n { daq = let_through n.daq }

  take_interrupt_lem :
      (s : Driver)
      → IsAsserted dev s
      → let d = record s.daq { calls = disable_interrupt ∷ check_interrupt ∷ s.daq.calls } in
        take_interrupt dev s
        ≡ (irq_handled, woken (finished dev (record s { daq = after_evt dev d })))
  unfolding take_interrupt
  take_interrupt_lem s asserted =
      let d : Daq = record s.daq { calls = disable_interrupt ∷ check_interrupt ∷ s.daq.calls } in
      let u : Driver = record s { daq = after_evt dev d } in
      let same : end_event u.daq ≡ (u.daq.mp, u.daq) =
        end_event-after_event 1 (evt_body dev d.calls) u.daq.segmenthmp u.daq.segmentsize
          u.daq.calls (record d { mpflag = u.daq.mpflag }) in
      rw asserted (
        ap
          (λ (e : Daq).
            let w = woken (finish_event dev (record s { daq = e })).1 in (irq_handled, w))
          (evt_lem dev d)
        ∙ ap (λ (t : Driver). (irq_handled, woken t)) (finish_event_lem u same))

  passed_on :
      (s : Driver)
      → (dev.interrupt_reply s.daq.calls == 0) ≡ true
      → take_interrupt dev s
        ≡ (irq_none, record s { daq = record s.daq { calls = check_interrupt ∷ s.daq.calls } })
  unfolding take_interrupt
  passed_on s other = rw other

  interrupt-entered :
      (s : Driver) → s.startflag ≡ true → interrupt dev true s ≡ take_interrupt dev (entered s)
  unfolding interrupt init_block
  interrupt-entered s started =
      rw started (elim (Bool-cases s.chkblk) [ inl going ↦ rw going | inr fresh ↦ rw fresh ])

  pub calls-entered : (s : Driver) → (entered s).daq.calls ≡ s.daq.calls
  calls-entered s = elim (Bool-cases s.chkblk) [ inl going ↦ rw going | inr fresh ↦ rw fresh ]

  -- A trigger that finds the driver started is handled, and leaves the state `after_interrupt`: a
  -- block is open, the event that the modules answer is written and closed, the block is closed
  -- and the halves are swapped where the event ends past MAXBUFF, and the next trigger is let
  -- through unless both halves then wait.
  pub interrupt_lem :
      (s : Driver)
      → s.startflag ≡ true
      → IsAsserted dev s
      → interrupt dev true s ≡ (irq_handled, after_interrupt dev s)
  interrupt_lem s started asserted =
      interrupt-entered s started
      ∙ take_interrupt_lem (entered s)
          (ap (λ cs. dev.interrupt_reply cs == 0) (calls-entered s) ∙ asserted)

  -- Where the driver is started, an interrupt that is not its own opens a block where none is
  -- open, asks the bridge once, changes nothing else, and is passed on.
  pub foreign_lem :
      (s : Driver)
      → s.startflag ≡ true
      → (dev.interrupt_reply s.daq.calls == 0) ≡ true
      → let e = entered s in
        interrupt dev true s
        ≡ (irq_none, record e { daq = record e.daq { calls = check_interrupt ∷ e.daq.calls } })
  foreign_lem s started other =
      interrupt-entered s started
      ∙ passed_on (entered s) (ap (λ cs. dev.interrupt_reply cs == 0) (calls-entered s) ∙ other)
