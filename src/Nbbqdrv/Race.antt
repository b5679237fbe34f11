-- ===== src/Nbbqdrv/Race.antt =====
-- nbbqdrv_read at the wrong moment: a trigger between its steps, since it lets triggers through before
-- it counts the block that it has copied, and a read where no block waits.
use p42018_vmedaq.Common.{
  ℕ, ◌+◌, ◌-◌, ◌*◌, ◌<◌, ◌≡◌, refl, sym, Bool, true, not, ◌==◌, ltb, if◌then◌else◌, List, arith,
}
use mathlib.Core.Path.{subst}
use mathlib.Core.Path.{ap, ◌∙◌}
use p42018_vmedaq.Device.{Device, enable_interrupt}
use p42018_vmedaq.Daq.{◌>>=◌, ◌>>◌, pure, gets, modify, call}
use p42018_vmedaq.Bbrl.{half, maxbuff}
use p42018_vmedaq.Lupo.{lupo_pout}
use p42018_vmedaq.Handlers.{clear}
use p42018_vmedaq.Nbbqdrv.{Driver, D, lift, IrqReturn, read, interrupt, block_at}
use p42018_vmedaq.Nbbqdrv.Calls.{irq_enabled}
use p42018_vmedaq.Nbbqdrv.Fifo.{entered_indices, finished_parts}
use p42018_vmedaq.Nbbqdrv.Interrupt.{interrupt_lem, IsAsserted, recorded, finished, entered}
use p42018_vmedaq.Nbbqdrv.Invariant.{IsValid}

-- nbbqdrv_read up to the calls that let the next trigger through.
unfoldable pub read_copy : D (List ℕ)
read_copy = do
  block ← gets (λ s. block_at s.daq s.drn)
  modify (λ s. record s { drn = if s.drn + 1 == 2 then 0 else s.drn + 1 })
  full ← gets (λ s. s.chkbuff == 2)
  stopped ← gets (λ s. s.stopflag)
  let resume = (do if not stopped then lift (call enable_interrupt) else pure tt; lift clear)
  if full then resume else pure tt
  pure block

-- The rest of it.
unfoldable pub read_count_down : D (Unit {0})
read_count_down = modify (λ s. record s { chkbuff = s.chkbuff - 1 })

read-steps : (s : Driver) → read s ≡ (read_copy >>= λ block. read_count_down >> pure block) s
unfolding read read_copy read_count_down
read-steps s = refl

-- The state of a driver whose halves both waited, once read has let triggers through.
record IsCopied (s : Driver) : Type 0 where
  started : s.startflag ≡ true
  uncounted : s.chkbuff ≡ 2
  drn_bit : s.drn < 2
  dn : s.daq.dn ≡ (if s.drn == 0 then 1 else 0)
  at_half : s.daq.base ≡ half * s.daq.dn

copied_lem : (s : Driver) → IsValid s → s.chkbuff ≡ 2 → IsCopied (read_copy s).1
unfolding read_copy clear lupo_pout
copied_lem s v full = ground (arith, full)

entered-IsCopied : (r : Driver) → IsCopied r → IsCopied (entered r) × ((entered r).chkblk ≡ true)
entered-IsCopied r v = ground arith

early_indices :
    (s : Driver)
    → IsValid s
    → s.chkbuff ≡ 0
    → let r = (read s).1 in (r.startflag ≡ true) × (r.chkbuff ≡ 0) × (r.drn ≡ 1 - s.daq.dn)
unfolding read
early_indices s v none = ground (arith, none, v.turn, v.drn_bit)

-- What two halves look like from the index that is read next: the other one is being filled, or
-- the one that waits is written over.
abbrev pub Raced : Bool → Driver → Type 0
Raced full s =
    (irq_enabled s.daq.calls ≡ true)
    × (s.chkbuff ≡ (if full then 2 else 1))
    × (s.chkblk ≡ not full)
    × (s.daq.base ≡ half * (if full then s.drn else 1 - s.drn))

module _ (dev : Device) where
  recorded-IsCopied :
      (r : Driver) → IsCopied r → IsCopied (recorded dev r) × ((recorded dev r).chkblk ≡ true)
  recorded-IsCopied r v =
      let (w, open') = entered-IsCopied r v in
      (
        record {
          started = w.started;
          uncounted = w.uncounted;
          drn_bit = w.drn_bit;
          dn = w.dn;
          at_half = w.at_half;
        },
        open',
      )

  finished-Raced :
      (r : Driver)
      → IsCopied r
      → r.chkblk ≡ true
      → Raced (ltb maxbuff r.daq.mp) (read_count_down (finished dev r)).1
  unfolding read_count_down
  finished-Raced r v open' = ground arith

  -- Both halves wait, and a read has let triggers through but not yet counted its block: a trigger
  -- that comes then finds a free half. If its event leaves the block open, one block waits when the
  -- read is over. If it fills the block, both wait again, but the next trigger is let through, and
  -- its event goes to the half that waits to be read.
  pub race_lem :
      (s : Driver)
      → IsValid s
      → s.chkbuff ≡ 2
      → let r = (read_copy s).1 in
        IsAsserted dev r
        → Raced (ltb maxbuff (recorded dev r).daq.mp) (read_count_down (interrupt dev true r).1).1
  unfolding read_count_down
  race_lem s v full asserted =
      let r = (read_copy s).1 in
      let c = copied_lem s v full in
      let (w, open') = recorded-IsCopied r c in
      subst
        (λ (x : IrqReturn × Driver).
          Raced (ltb maxbuff (recorded dev r).daq.mp) (read_count_down x.1).1)
        (sym (interrupt_lem dev r c.started asserted)) (finished-Raced (recorded dev r) w open')

  -- A read where no block waits moves on to the other half all the same: when a trigger then fills a
  -- block, a block waits, but the next read returns the half that was not filled.
  pub early_read_lem :
      (s : Driver)
      → IsValid s
      → s.chkbuff ≡ 0
      → let r = (read s).1 in
        IsAsserted dev r
        → ltb maxbuff (recorded dev r).daq.mp ≡ true
        → let u = (interrupt dev true r).1 in
          (u.chkbuff ≡ 1) × ((read u).0 ≡ block_at u.daq (1 - s.daq.dn))
  unfolding read
  early_read_lem s v none asserted full =
      let r = (read s).1 in
      let (started, count, turned) = early_indices s v none in
      let p = finished_parts dev (recorded dev r) in
      let (drn, chkbuff) = entered_indices r in
      let u = (interrupt dev true r).1 in
      let e = interrupt_lem dev r started asserted in
      let index : u.drn ≡ 1 - s.daq.dn =
        ap (λ (x : IrqReturn × Driver). x.1.drn) e ∙ p.drn ∙ drn ∙ turned in
      (
        ap (λ (x : IrqReturn × Driver). x.1.chkbuff) e
            ∙ p.chkbuff
            ∙ rw full (ap (λ k. k + 1) (chkbuff ∙ count)),
        ap (block_at u.daq) index,
      )
