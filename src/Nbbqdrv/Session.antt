-- ===== src/Nbbqdrv/Session.antt =====
-- From open to the last read: what is read after a stop, and that a stopped driver stays quiet.
use p42018_vmedaq.Common.{
  ℕ, ◌+◌, ◌-◌, ◌<◌, ◌≡◌, refl, sym, ap, ◌∙◌, Bool, true, false, if◌then◌else◌, List, [], ◌∷◌, ◌++◌,
  append_assoc, append-nil, length, length-append, Bool-cases, inl, inr, arith,
}
use p42018_vmedaq.Device.{Device, disable_interrupt, wake_up}
use p42018_vmedaq.Daq.{Daq, ◌>>=◌}
use p42018_vmedaq.Bbrl.{end_block}
use p42018_vmedaq.Caen.Registers.{v560_nch}
use p42018_vmedaq.Caen.Scaler.{counter}
use p42018_vmedaq.Handlers.{stop, sca, clear, v560_adr}
use p42018_vmedaq.Lupo.{lupo_pout}
use p42018_vmedaq.Madc32.{madc32_stop_acq}
use p42018_vmedaq.Nbbqdrv.{
  Driver, irq_handled, open_driver, interrupt, read, poll, stop_daq, block_at,
}
use p42018_vmedaq.Nbbqdrv.Interrupt.{closed_lem}
use p42018_vmedaq.Nbbqdrv.Calls.{irq_enabled, seen-history_after}
use p42018_vmedaq.Nbbqdrv.Invariant.{open-IsValid}
use p42018_vmedaq.Nbbqdrv.Fifo.{waiting, blocks, read_fifo}
use p42018_vmedaq.Nbbqdrv.Stop.{stop_fifo, masked}
use p42018_vmedaq.Nbbqdrv.Trace.{Trace, trace_lem, append_if}

-- A driver after NBBQ_STOP: it lets no trigger through.
pub record IsStopped (s : Driver) : Type 0 where
  pub idle : s.startflag ≡ false
  pub stopped : s.stopflag ≡ true
  pub masked : irq_enabled s.daq.calls ≡ false

read-IsStopped : (s : Driver) → IsStopped s → IsStopped (read s).1
unfolding read clear lupo_pout
read-IsStopped s v = ground arith

pub read_count : (s : Driver) → (read s).1.chkbuff ≡ s.chkbuff - 1
unfolding read clear lupo_pout
read_count s = ground arith

-- stop.c leaves the bridge's interrupt alone.
stop-irq : (d : Daq) → irq_enabled (stop d).1.calls ≡ irq_enabled d.calls
unfolding stop madc32_stop_acq lupo_pout
stop-irq d = refl

-- Nothing waits in a driver that was just opened.
waiting-open : (s : Driver) → waiting (open_driver false s).1 ≡ []
unfolding open_driver
waiting-open s = refl

pub waiting-none : (s : Driver) → s.chkbuff ≡ 0 → waiting s ≡ []
waiting-none s h = ap (λ k. blocks s.daq.mem s.drn k) h

module _ (dev : Device) where
  -- An interrupt finds a stopped driver idle: it is reported as handled, and nothing but two calls is made.
  late_lem :
      (registered : Bool) (s : Driver)
      → s.startflag ≡ false
      → interrupt dev registered s ≡ (
        irq_handled,
        record s { daq = record s.daq { calls = wake_up ∷ disable_interrupt ∷ s.daq.calls } },
      )
  unfolding interrupt
  late_lem registered s h = rw h

  pub stop-IsStopped : (s : Driver) → IsStopped (stop_daq dev s).1
  unfolding stop_daq
  stop-IsStopped s = elim (Bool-cases s.chkblk) [
    | inl going ↦ record {
      idle = rw going refl;
      stopped = rw going refl;
      masked = rw going (
          stop-irq ((end_block >>= λ _. sca dev) (masked s.daq)).1
          ∙ ap (λ (e : Daq). irq_enabled e.calls) (closed_lem dev (masked s.daq))
          ∙ ap (λ (p : Bool × ℕ). p.0)
              (seen-history_after (counter v560_adr) v560_nch 0 (masked s.daq).calls));
    }
    | inr none_open ↦ record {
      idle = rw none_open refl;
      stopped = rw none_open refl;
      masked = rw none_open (stop-irq (masked s.daq));
    }
  ]

  -- What may happen after a stop: reads where `poll` says so, and interrupts, which may be late
  -- triggers or of other devices.
  pub data Rest (s : Driver) : List (List ℕ) → Driver → Type 0 where
    begin : Rest s [] s
    fetch :
        {fetched : List (List ℕ)} {t : Driver}
        → Rest s fetched t
        → (poll t).0 ≡ true
        → Rest s (fetched ++ ((read t).0 ∷ [])) (read t).1
    late :
        {fetched : List (List ℕ)} {t : Driver}
        → Rest s fetched t
        → (registered : Bool) → Rest s fetched (interrupt dev registered t).1

  pub rest_lem :
      {s t : Driver} {fetched : List (List ℕ)} (registered : Bool)
      → IsStopped s
      → Rest s fetched t
      → IsStopped t
        × (fetched ++ waiting t ≡ waiting s)
        × (length fetched + t.chkbuff ≡ s.chkbuff)
        × (interrupt dev registered t ≡ (
          irq_handled,
          record t { daq = record t.daq { calls = wake_up ∷ disable_interrupt ∷ t.daq.calls } },
        ))
  unfolding poll
  rest_lem {s} again v begin = (v, refl, omega arith, late_lem again s v.idle)
  rest_lem {s} again v (fetch {fetched} {t} r h) =
      let (w, e, n, _) = rest_lem again v r in
      let some_block : 0 < t.chkbuff = ground arith in
      (
        read-IsStopped t w,
        append_assoc fetched ((read t).0 ∷ []) (waiting (read t).1)
            ∙ ap (λ b. fetched ++ b) (read_fifo t some_block)
            ∙ e,
        omega (arith, n, some_block, read_count t, length-append {0} fetched ((read t).0 ∷ [])),
        late_lem again (read t).1 (read-IsStopped t w).idle,
      )
  rest_lem {s} again v (late {fetched} {t} r registered) =
      let (w, e, n, _) = rest_lem again v r in
      let calls = wake_up ∷ disable_interrupt ∷ t.daq.calls in
      let quiet = late_lem again (record t { daq = record t.daq { calls = calls } }) w.idle in
      rw (late_lem registered t w.idle)
        (record { idle = w.idle; stopped = w.stopped; masked = refl }, e, n, quiet)

  -- A whole session: the driver is opened, runs with each event fitting its block, and is stopped;
  -- then the user reads until `poll` says that there is nothing more. All the blocks that were read
  -- are then all the blocks that triggers have filled, and the last one, if one was open.
  pub session_lem :
      (before : Driver) {t u : Driver} {filled fetched rest : List (List ℕ)}
      → Trace dev (open_driver false before).1 filled fetched t
      → Rest (stop_daq dev t).1 rest u
      → (poll u).0 ≡ false
      → fetched ++ rest
        ≡ filled ++ (if t.chkblk then block_at (stop_daq dev t).1.daq t.daq.dn ∷ [] else [])
  unfolding poll
  session_lem before {t} {u} {filled} {fetched} {rest} run after done =
      let t' = (stop_daq dev t).1 in
      let last = if t.chkblk then block_at t'.daq t.daq.dn ∷ [] else [] in
      let (v, e) = trace_lem dev (open-IsValid before).1 run in
      let (_, rested, _, _) = rest_lem true (stop-IsStopped t) after in
      let empty : u.chkbuff ≡ 0 = ground arith in
      let stopped : waiting t' ≡ waiting t ++ last =
        (stop_fifo dev t v).1 ∙ append_if t.chkblk (waiting t) (block_at t'.daq t.daq.dn) in
      ap (λ b. fetched ++ b)
        (sym (append-nil rest)
          ∙ ap (λ b. rest ++ b) (sym (waiting-none u empty))
          ∙ rested
          ∙ stopped)
      ∙ sym (append_assoc fetched (waiting t) last)
      ∙ ap (λ b. b ++ last) (e ∙ ap (λ b. b ++ filled) (waiting-open before))
