-- ===== src/Nbbqdrv/Stop.antt =====
-- NBBQ_STOP and NBBQ_STOPB: the block that is open is closed and put behind the blocks that wait.
use p42018_vmedaq.Common.{
  ℕ, ◌+◌, ◌-◌, ◌*◌, ◌≡◌, refl, ap, ◌∙◌, sym, Bool, true, false, ◌==◌, if◌then◌else◌, [], ◌∷◌, ◌++◌,
  Bool-cases, inl, inr, arith, Memory, write_words, write_words_outside, slice,
}
use mathlib.Core.Path.{subst, ap₂}
use p42018_vmedaq.Device.{Device, disable_interrupt, check_interrupt}
use p42018_vmedaq.Daq.{Daq, ◌>>=◌}
use p42018_vmedaq.Daq.Readout.{words_of}
use p42018_vmedaq.Bbrl.{half, end_block}
use p42018_vmedaq.Caen.Registers.{v560_nch}
use p42018_vmedaq.Caen.Scaler.{counts}
use p42018_vmedaq.Handlers.{sca, v560_adr}
use p42018_vmedaq.Handlers.Startup.{stop-OnlyCalls}
use p42018_vmedaq.Nbbqdrv.{Driver, IrqReturn, interrupt, stop_daq, block_at}
use p42018_vmedaq.Nbbqdrv.Interrupt.{closed, closed_lem, entered, foreign_lem}
use p42018_vmedaq.Nbbqdrv.Invariant.{IsValid}
use p42018_vmedaq.Nbbqdrv.Fifo.{waiting, blocks, blocks-fill, queue_step, outside-closed, IsOutside}

-- The data before the block is closed.
abbrev pub masked : Daq → Daq
masked d = record d { calls = disable_interrupt ∷ d.calls }

stop_flag :
    (going : Bool) {f k : ℕ} (c : ℕ)
    → f ≡ (if going then c + 1 else 0)
    → k ≡ (if going then c + 1 else c)
    → f ≡ (if going then k else 0)
stop_flag true c p q = p ∙ sym q
stop_flag false c p q = p

stop_step :
    (going : Bool) (m k : Memory) (n c dn : ℕ) {n' c' : ℕ}
    → n' ≡ n
    → c' ≡ (if going then c + 1 else c)
    → (going ≡ true
        → (blocks k n c ≡ blocks m n c)
          × (blocks k n (c + 1) ≡ blocks m n c ++ (slice k (half * dn) half ∷ [])))
    → (going ≡ false → k ≡ m)
    → blocks k n' c'
      ≡ (if going then blocks m n c ++ (slice k (half * dn) half ∷ []) else blocks m n c)
stop_step true m k n c dn p q fill same = queue_step true m k n c dn p q (fill refl)
stop_step false m k n c dn p q fill same =
    ap₂ (λ i j. blocks k i j) p q ∙ ap (λ x. blocks x n c) (same refl)

-- A stop that has counted three blocks, and has put an end marker into the oldest block.
abbrev pub Overrun : Driver → ℕ × Driver → Type 0
Overrun s t =
    (t.0 ≡ 3)
    × (t.1.daq.mem (half * s.drn + 4) ≡ 0xffff)
    × (t.1.daq.mem (half * s.drn + 5) ≡ 0xffff)

-- A block that is opened anew.
entered_idle :
    (s : Driver)
    → s.chkblk ≡ false
    → ((entered s).chkblk ≡ true)
      × ((entered s).daq.mp ≡ 4)
      × ((entered s).daq.base ≡ s.daq.base)
      × ((entered s).chkbuff ≡ s.chkbuff)
entered_idle s h = ground arith

module _ (dev : Device) where
  pub record StopParts (s : Driver) : Type 0 where
    pub flag : (stop_daq dev s).0 ≡ (if s.chkblk then s.chkbuff + 1 else 0)
    pub mem :
        (stop_daq dev s).1.daq.mem
        ≡ (if s.chkblk then (closed dev (masked s.daq)).mem else s.daq.mem)
    pub drn : (stop_daq dev s).1.drn ≡ s.drn
    pub chkbuff : (stop_daq dev s).1.chkbuff ≡ (if s.chkblk then s.chkbuff + 1 else s.chkbuff)

  pub stop_parts : (s : Driver) → StopParts s
  unfolding stop_daq
  stop_parts s = elim (Bool-cases s.chkblk) [
    | inl going ↦ record {
      flag = rw going refl;
      mem = rw going (
          ap (λ (e : Daq). e.mem) (stop-OnlyCalls ((end_block >>= λ _. sca dev) (masked s.daq)).1)
          ∙ ap (λ (e : Daq). e.mem) (closed_lem dev (masked s.daq)));
      drn = rw going refl;
      chkbuff = rw going refl;
    }
    | inr idle ↦ record {
      flag = rw idle refl;
      mem = rw idle (ap (λ (e : Daq). e.mem) (stop-OnlyCalls (masked s.daq)));
      drn = rw idle refl;
      chkbuff = rw idle refl;
    }
  ]

  pub stop_count :
      (s : Driver) → (stop_daq dev s).1.chkbuff ≡ (if s.chkblk then s.chkbuff + 1 else s.chkbuff)
  stop_count s = (stop_parts s).chkbuff

  -- Stopping a driver in a valid state closes the block that is open and puts it behind the blocks
  -- that wait, which it leaves as they are; the flag for the user is the number of blocks that
  -- then wait. With no block open nothing is added, and the flag is 0.
  pub stop_fifo :
      (s : Driver)
      → IsValid s
      → let t = (stop_daq dev s).1 in
        ((stop_daq dev s).0 ≡ (if s.chkblk then t.chkbuff else 0))
        × (waiting t
            ≡ (if s.chkblk then waiting s ++ (block_at t.daq s.daq.dn ∷ []) else waiting s))
  stop_fifo s v =
      let p = stop_parts s in
      let t = (stop_daq dev s).1 in
      let e : Bool → Memory = λ b. if b then (closed dev (masked s.daq)).mem else s.daq.mem in
      (
        stop_flag s.chkblk s.chkbuff p.flag p.chkbuff,
        stop_step s.chkblk s.daq.mem t.daq.mem s.drn s.chkbuff s.daq.dn p.drn p.chkbuff
            (λ going.
              blocks-fill s.daq.mem t.daq.mem s.drn s.chkbuff s.daq.dn v.drn_bit (v.open_free going)
                v.turn
                (λ x h.
                  let high = v.open_high going in
                  ap (λ (m : Memory). m x) (p.mem ∙ ap e going)
                  ∙ outside-closed dev (masked s.daq) x
                      (subst (λ b. IsOutside b x) (sym v.at_half) h) (omega arith)))
            (λ idle. p.mem ∙ ap e idle),
      )

  -- The end marker of a block that is closed at word 4.
  end_marker :
      (d : Daq)
      → d.mp ≡ 4
      → ((closed dev d).mem (d.base + 4) ≡ 0xffff) × ((closed dev d).mem (d.base + 5) ≡ 0xffff)
  unfolding write_words
  end_marker d h =
      let vs = words_of (counts dev v560_adr 0 v560_nch d.calls) in
      let m = write_words d.mem (d.base + d.mp) (0xffff ∷ 0xffff ∷ []) in
      let at = d.base + (half - v560_nch * 2) in
      (
        write_words_outside vs m at (d.base + 4) (inl (omega arith)) ∙ ground (arith, h),
        write_words_outside vs m at (d.base + 5) (inl (omega arith)) ∙ ground (arith, h),
      )

  -- The handler opens a block before it asks the bridge whose interrupt it is. In a valid state
  -- where both halves wait for the user, an interrupt of another device on the line and then a
  -- stop therefore end a block within the oldest block that waits: its words 4 and 5 become the
  -- end marker, and the flag for the user counts three blocks.
  pub stop-Overrun :
      (s : Driver)
      → IsValid s
      → s.chkbuff ≡ 2
      → (dev.interrupt_reply s.daq.calls == 0) ≡ true
      → Overrun s (stop_daq dev (interrupt dev true s).1)
  stop-Overrun s v full other =
      let e = entered s in
      let u : Driver = record e { daq = record e.daq { calls = check_interrupt ∷ e.daq.calls } } in
      let p = stop_parts u in
      let idle : s.chkblk ≡ false = ground (arith, v.open_free) in
      let (going, at, same, count) = entered_idle s idle in
      let base : u.daq.base ≡ half * s.drn = same ∙ ground (arith, v.turn, v.at_half, v.drn_bit) in
      let (four, five) = end_marker (masked u.daq) at in
      let m : (stop_daq dev u).1.daq.mem ≡ (closed dev (masked u.daq)).mem =
        p.mem ∙ ap (λ b. if b then (closed dev (masked u.daq)).mem else u.daq.mem) going in
      let answer : Overrun s (stop_daq dev u) = (
        p.flag ∙ ap (λ b. if b then u.chkbuff + 1 else 0) going ∙ omega (arith, count),
        ap (λ k. (stop_daq dev u).1.daq.mem (k + 4)) (sym base)
            ∙ ap (λ (k : Memory). k (u.daq.base + 4)) m
            ∙ four,
        ap (λ k. (stop_daq dev u).1.daq.mem (k + 5)) (sym base)
            ∙ ap (λ (k : Memory). k (u.daq.base + 5)) m
            ∙ five,
      ) in
      subst (λ (r : IrqReturn × Driver). Overrun s (stop_daq dev r.1))
        (sym (foreign_lem dev s v.started other)) answer
