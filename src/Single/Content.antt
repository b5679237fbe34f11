-- ===== src/Single/Content.antt =====
-- What stands in the one buffer: the open block's events, and those of the block that waits.
use p42018_vmedaq.Common.{
  ℕ, ◌+◌, ◌*◌, ◌≡◌, refl, sym, ap, ◌∙◌, true, false, ◌==◌, ltb, if◌then◌else◌, List, [], ◌∷◌, ◌++◌,
  length, length-append, slice, Bool-cases, inl, inr, arith, Memory,
}
use mathlib.Core.Path.{subst, ap₂}
use p42018_vmedaq.Device.{Device, check_interrupt}
use p42018_vmedaq.Bbrl.{half, maxbuff}
use p42018_vmedaq.Lupo.{lupo_pout}
use p42018_vmedaq.Handlers.{clear}
use p42018_vmedaq.Nbbqdrv.{Driver, IrqReturn, block_at}
use p42018_vmedaq.Nbbqdrv.Interrupt.{closed, entered, recorded, IsAsserted}
use p42018_vmedaq.Nbbqdrv.Fifo.{Fits, entered_indices}
use p42018_vmedaq.Nbbqdrv.Content.{
  events, Holds, body_of, Holds-calls, recorded-Holds, chkblk-entered, entered_twice, base-entered,
}
use p42018_vmedaq.Nbbqdrv.Readback.{IsBlockOf, closed-IsBlockOf}
use p42018_vmedaq.Single.{read_single, give_back, interrupt_single}
use p42018_vmedaq.Single.Handler.{after_single, interrupt_single_lem, foreign_single_lem}
use p42018_vmedaq.Single.Invariant.{IsSingle, held}

-- NBBQ_EI makes calls, and changes nothing else.
give_back_lem :
    (t : Driver)
    → let u = (give_back t).1 in u ≡ record t { daq = record t.daq { calls = u.daq.calls } }
unfolding give_back clear lupo_pout
give_back_lem t = elim (Bool-cases t.daq.mpflag) [
  | inl busy ↦ rw busy refl
  | inr released ↦ rw released refl
]

pub give_back-Holds :
    (ws : List ℕ) (n : ℕ) (t : Driver)
    → Holds ws n (entered t).daq
    → Holds ws n (entered (give_back t).1).daq
give_back-Holds ws n t h =
    subst (λ (x : Driver). Holds ws n (entered x).daq) (sym (give_back_lem t))
      (Holds-calls ws n t (give_back t).1.daq.calls t.drn t.chkbuff h)

pub held-give_back : (t : Driver) → held (give_back t).1 ≡ held t
held-give_back t = ap held (give_back_lem t)

pub read-Holds :
    (ws : List ℕ) (n : ℕ) (t : Driver)
    → Holds ws n (entered t).daq
    → Holds ws n (entered (read_single t).1).daq
unfolding read_single
read-Holds ws n t h = Holds-calls ws n t t.daq.calls t.drn 0 h

-- A read takes the block that waits.
pub held-read : (t : Driver) → t.chkbuff ≡ 1 → (read_single t).0 ∷ held (read_single t).1 ≡ held t
unfolding read_single
held-read t one = rw one refl

module _ (dev : Device) where
  -- A trigger whose event leaves the block open puts it behind the others, and no block waits.
  pub interrupt-Holds :
      (bodies : List (List ℕ)) (t : Driver)
      → t.startflag ≡ true
      → Holds (events 0 bodies) (length bodies) (entered t).daq
      → IsAsserted dev t
      → ltb maxbuff (recorded dev t).daq.mp ≡ false
      → let all = bodies ++ (body_of dev t ∷ []) in
        Holds (events 0 all) (length all) (entered (interrupt_single dev true t).1).daq
  interrupt-Holds bodies t started h asserted room =
      let all = bodies ++ (body_of dev t ∷ []) in
      let r = recorded dev t in
      let n : length bodies + 1 ≡ length all =
        omega (arith, length-append bodies (body_of dev t ∷ [])) in
      let k = subst (λ j. Holds (events 0 all) j r.daq) n (recorded-Holds dev bodies t h) in
      let open' : Holds (events 0 all) (length all) (entered (after_single dev t)).daq =
        rw (room, chkblk-entered t) (record { words = k.words; mp = k.mp; number = k.number }) in
      subst (λ (x : IrqReturn × Driver). Holds (events 0 all) (length all) (entered x.1).daq)
        (sym (interrupt_single_lem dev t started asserted)) open'

  pub foreign-Holds :
      (ws : List ℕ) (n : ℕ) (t : Driver)
      → t.startflag ≡ true
      → Holds ws n (entered t).daq
      → (dev.interrupt_reply t.daq.calls == 0) ≡ true
      → Holds ws n (entered (interrupt_single dev true t).1).daq
  foreign-Holds ws n t started h other =
      let e = entered t in
      subst (λ (x : IrqReturn × Driver). Holds ws n (entered x.1).daq)
        (sym (foreign_single_lem dev t started other))
        (Holds-calls ws n e (check_interrupt ∷ e.daq.calls) e.drn e.chkbuff
          (subst (λ (x : Driver). Holds ws n x.daq) (sym (entered_twice t)) h))

  -- What a trigger makes of the number of blocks that wait.
  pub chkbuff-interrupt :
      (t : Driver)
      → t.startflag ≡ true
      → IsAsserted dev t
      → (interrupt_single dev true t).1.chkbuff
        ≡ (if ltb maxbuff (recorded dev t).daq.mp then 1 else t.chkbuff)
  chkbuff-interrupt t started asserted =
      ap (λ (x : IrqReturn × Driver). x.1.chkbuff) (interrupt_single_lem dev t started asserted)
      ∙ elim (Bool-cases (ltb maxbuff (recorded dev t).daq.mp)) [
        | inl full ↦ rw full refl
        | inr room ↦ rw room (entered_indices t).1
      ]

  pub chkbuff-foreign :
      (t : Driver)
      → t.startflag ≡ true
      → (dev.interrupt_reply t.daq.calls == 0) ≡ true
      → (interrupt_single dev true t).1.chkbuff ≡ t.chkbuff
  chkbuff-foreign t started other =
      ap (λ (x : IrqReturn × Driver). x.1.chkbuff) (foreign_single_lem dev t started other)
      ∙ (entered_indices t).1

  -- A trigger that fills the block: it waits, with the events of the open block and its own, and
  -- no block is open.
  pub fill-IsBlockOf :
      (bodies : List (List ℕ)) (t : Driver)
      → IsSingle t
      → Holds (events 0 bodies) (length bodies) (entered t).daq
      → IsAsserted dev t
      → Fits dev t
      → ltb maxbuff (recorded dev t).daq.mp ≡ true
      → let u = (interrupt_single dev true t).1 in
        IsBlockOf (bodies ++ (body_of dev t ∷ [])) (block_at u.daq 0)
        × (u.chkblk ≡ false)
        × (u.chkbuff ≡ 1)
  fill-IsBlockOf bodies t v h asserted fits full =
      let all = bodies ++ (body_of dev t ∷ []) in
      let r = recorded dev t in
      let u = after_single dev t in
      let n : length bodies + 1 ≡ length all =
        omega (arith, length-append bodies (body_of dev t ∷ [])) in
      let k = subst (λ j. Holds (events 0 all) j r.daq) n (recorded-Holds dev bodies t h) in
      let base : half * 0 ≡ r.daq.base = sym (base-entered t ∙ v.at_start) in
      let mem : u.daq.mem ≡ (closed dev r.daq).mem = rw full refl in
      let idle : u.chkblk ≡ false = rw full refl in
      let waits : u.chkbuff ≡ 1 = rw full refl in
      subst
        (λ (x : IrqReturn × Driver).
          IsBlockOf all (block_at x.1.daq 0) × (x.1.chkblk ≡ false) × (x.1.chkbuff ≡ 1))
        (sym (interrupt_single_lem dev t v.started asserted))
        (
          subst (IsBlockOf all) (sym (ap₂ (λ (m : Memory) b. slice m b half) mem base))
              (closed-IsBlockOf dev all r.daq k fits),
          idle,
          waits,
        )
