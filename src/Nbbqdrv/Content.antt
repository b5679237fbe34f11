-- ===== src/Nbbqdrv/Content.antt =====
-- What stands in an open block: the events that the triggers wrote into it, one after another.
use p42018_vmedaq.Common.{
  ℕ, suc, ◌+◌, ◌-◌, ◌≤◌, ◌≡◌, refl, sym, ap, ◌∙◌, true, false, ◌==◌, ltb, List, [], ◌∷◌, ◌++◌,
  Bool-cases, inl, inr, arith, length, length-append, take, drop, Memory, slice, slice-append,
  slice-write_words, slice-write_words_outside, write_words, length-slice, take-length-append,
  append_assoc, append-nil,
}
use mathlib.Core.Path.{subst, ap₂}
use p42018_vmedaq.Device.{Device, History, check_interrupt}
use p42018_vmedaq.Daq.{Daq}
use p42018_vmedaq.Bbrl.{maxbuff}
use p42018_vmedaq.Bbrl.Event.{event_words}
use p42018_vmedaq.Handlers.{clear}
use p42018_vmedaq.Handlers.Event.{evt_body}
use p42018_vmedaq.Lupo.{lupo_pout}
use p42018_vmedaq.Nbbqdrv.{Driver, IrqReturn, interrupt, read}
use p42018_vmedaq.Nbbqdrv.Interrupt.{
  after_interrupt, interrupt_lem, foreign_lem, IsAsserted, recorded, triggered, finished, entered,
  woken, begun,
}

-- Events with these segments, numbered from `n + 1` on.
unfoldable pub events : ℕ → List (List ℕ) → List ℕ
events n [] = []
events n (body ∷ bodies) = event_words 1 (n + 1) body ++ events (n + 1) bodies

events-append :
    (n : ℕ) (bodies : List (List ℕ)) (body : List ℕ)
    → events n (bodies ++ (body ∷ []))
      ≡ events n bodies ++ event_words 1 (n + length bodies + 1) body
unfolding events
events-append n [] body =
    let e : n + 1 ≡ n + 0 + 1 = omega arith in
    append-nil (event_words 1 (n + 1) body) ∙ ap (λ k. event_words 1 k body) e
events-append n (b ∷ bodies) body =
    let e : n + 1 + length bodies + 1 ≡ n + suc (length bodies) + 1 = omega arith in
    let first = event_words 1 (n + 1) b in
    ap (λ ws. first ++ ws) (events-append (n + 1) bodies body)
    ∙ sym (
        append_assoc first (events (n + 1) bodies) (event_words 1 (n + 1 + length bodies + 1) body))
    ∙ ap (λ k. (first ++ events (n + 1) bodies) ++ event_words 1 k body) e

-- A run behind a slice makes it longer.
pub slice_extended :
    (m : Memory) (a : ℕ) (ws vs : List ℕ)
    → slice m a (length ws) ≡ ws
    → slice (write_words m (a + length ws) vs) a (length (ws ++ vs)) ≡ ws ++ vs
slice_extended m a ws vs h =
    ap (slice (write_words m (a + length ws) vs) a) (length-append ws vs)
    ∙ slice-append (length ws) (length vs) (write_words m (a + length ws) vs) a
    ∙ ap₂ (λ xs ys. xs ++ ys)
        (slice-write_words_outside (length ws) vs m a (a + length ws) (inl (omega arith)) ∙ h)
        (slice-write_words vs m (a + length ws))

-- The words of a slice behind its first four.
pub take-drop-slice :
    (m : Memory) (a k n : ℕ) → 4 + k ≤ n → take k (drop 4 (slice m a n)) ≡ slice m (a + 4) k
unfolding slice
take-drop-slice m a k n h =
    let r = n - (4 + k) in
    let e : n ≡ 4 + (k + r) = omega arith in
    let run = slice m (a + 4) k in
    let rest = slice m (a + 4 + k) r in
    ap (λ j. take k (drop 4 (slice m a j))) e
    ∙ ap (λ l. take k (drop 4 l)) (slice-append 4 (k + r) m a)
    ∙ ap (take k) (slice-append k r m (a + 4))
    ∙ ap (λ j. take j (run ++ rest)) (sym (length-slice k m (a + 4)))
    ∙ take-length-append run rest

-- The block that is open, or that the next interrupt opens, holds these words behind its header.
pub record Holds (ws : List ℕ) (n : ℕ) (d : Daq) : Type 0 where
  pub words : slice d.mem (d.base + 4) (length ws) ≡ ws
  pub mp : d.mp ≡ 4 + length ws
  pub number : d.eventid ≡ n

-- What is said of a state in which a block is open, or of one in which the next call opens it.
pub begun-Holds : (t : Driver) → t.chkblk ≡ false → Holds [] 0 (entered t).daq
unfolding slice
begun-Holds t fresh = rw fresh (record { words = refl; mp = refl; number = refl })

pub chkblk-entered : (t : Driver) → (entered t).chkblk ≡ true
chkblk-entered t = elim (Bool-cases t.chkblk) [
  | inl going ↦ rw going refl
  | inr fresh ↦ rw fresh refl
]

pub entered_twice : (t : Driver) → entered (entered t) ≡ entered t
entered_twice t = elim (Bool-cases t.chkblk) [
  | inl going ↦ rw going refl
  | inr fresh ↦ rw fresh refl
]

pub base-entered : (t : Driver) → (entered t).daq.base ≡ t.daq.base
base-entered t = elim (Bool-cases t.chkblk) [
  | inl going ↦ rw going refl
  | inr fresh ↦ rw fresh refl
]

-- The words, once more, for a state that differs in its calls.
pub Holds-same :
    (ws : List ℕ) (n : ℕ) (d : Daq) (k : History)
    → Holds ws n d
    → Holds ws n (record d { calls = k })
Holds-same ws n d k h = record { words = h.words; mp = h.mp; number = h.number }

pub Holds-calls :
    (ws : List ℕ) (n : ℕ) (t : Driver) (k : History) (drn chkbuff : ℕ)
    → Holds ws n (entered t).daq
    → Holds ws n
        (entered (record t { daq = record t.daq { calls = k }; drn = drn; chkbuff = chkbuff })).daq
Holds-calls ws n t k drn chkbuff h = elim (Bool-cases t.chkblk) [
  | inl going ↦
      let e : (entered t).daq ≡ t.daq = rw going refl in
      rw going (Holds-same ws n t.daq k (subst (Holds ws n) e h))
  | inr fresh ↦
      let e : (entered t).daq ≡ begun t.daq = rw fresh refl in
      rw fresh (Holds-same ws n (begun t.daq) k (subst (Holds ws n) e h))
]

-- A read changes the calls and two indices.
read_lem :
    (t : Driver)
    → let u = (read t).1 in
      u ≡ record t { daq = record t.daq { calls = u.daq.calls }; drn = u.drn; chkbuff = u.chkbuff }
unfolding read clear lupo_pout
read_lem t = elim (Bool-cases (t.chkbuff == 2)) [
  | inl full ↦ elim (Bool-cases t.stopflag) [
    | inl stopped ↦ elim (Bool-cases t.daq.mpflag) [
      | inl held ↦ rw (full, stopped, held) refl
      | inr released ↦ rw (full, stopped, released) refl
    ]
    | inr running ↦ elim (Bool-cases t.daq.mpflag) [
      | inl held ↦ rw (full, running, held) refl
      | inr released ↦ rw (full, running, released) refl
    ]
  ]
  | inr room ↦ rw room refl
]

pub read-Holds :
    (ws : List ℕ) (n : ℕ) (t : Driver)
    → Holds ws n (entered t).daq
    → Holds ws n (entered (read t).1).daq
read-Holds ws n t h =
    let u = (read t).1 in
    subst (λ (x : Driver). Holds ws n (entered x).daq) (sym (read_lem t))
      (Holds-calls ws n t u.daq.calls u.drn u.chkbuff h)

module _ (dev : Device) where
  -- The segments of the event that a trigger reads out.
  abbrev pub body_of : Driver → List ℕ
  body_of t = evt_body dev (triggered t).daq.calls

  pub recorded-Holds :
      (bodies : List (List ℕ)) (t : Driver)
      → Holds (events 0 bodies) (length bodies) (entered t).daq
      → Holds (events 0 (bodies ++ (body_of t ∷ []))) (length bodies + 1) (recorded dev t).daq
  recorded-Holds bodies t h =
      let e = (entered t).daq in
      let ws = events 0 bodies in
      let id : 0 + length bodies + 1 ≡ e.eventid + 1 = omega (arith, h.number) in
      let vs = event_words 1 (e.eventid + 1) (body_of t) in
      let all : events 0 (bodies ++ (body_of t ∷ [])) ≡ ws ++ vs =
        events-append 0 bodies (body_of t) ∙ ap (λ k. ws ++ event_words 1 k (body_of t)) id in
      let at : e.base + 4 + length ws ≡ e.base + e.mp = omega (arith, h.mp) in
      subst (λ us. Holds us (length bodies + 1) (recorded dev t).daq) (sym all)
        (record {
          words =
              ap (λ a. slice (write_words e.mem a vs) (e.base + 4) (length (ws ++ vs))) (sym at)
              ∙ slice_extended e.mem (e.base + 4) ws vs h.words;
          mp = omega (arith, h.mp, length-append ws vs);
          number = omega (arith, h.number);
        })

  stays_open :
      (ws : List ℕ) (n : ℕ) (r : Driver)
      → r.chkblk ≡ true
      → ltb maxbuff r.daq.mp ≡ false
      → Holds ws n r.daq
      → Holds ws n (entered (woken (finished dev r))).daq
  stays_open ws n r block room h =
      rw (room, block) (record { words = h.words; mp = h.mp; number = h.number })

  -- A trigger whose event leaves the block open puts it behind the others.
  pub interrupt-Holds :
      (bodies : List (List ℕ)) (t : Driver)
      → t.startflag ≡ true
      → Holds (events 0 bodies) (length bodies) (entered t).daq
      → IsAsserted dev t
      → ltb maxbuff (recorded dev t).daq.mp ≡ false
      → let all = bodies ++ (body_of t ∷ []) in
        Holds (events 0 all) (length all) (entered (interrupt dev true t).1).daq
  interrupt-Holds bodies t started h asserted room =
      let all = bodies ++ (body_of t ∷ []) in
      let n : length bodies + 1 ≡ length all =
        omega (arith, length-append bodies (body_of t ∷ [])) in
      let open' =
        stays_open (events 0 all) (length bodies + 1) (recorded dev t) (chkblk-entered t) room
          (recorded-Holds bodies t h) in
      subst (λ (x : IrqReturn × Driver). Holds (events 0 all) (length all) (entered x.1).daq)
        (sym (interrupt_lem dev t started asserted))
        (subst (λ k. Holds (events 0 all) k (entered (after_interrupt dev t)).daq) n open')

  -- Another device's interrupt leaves the block as it is.
  pub foreign-Holds :
      (bodies : List (List ℕ)) (t : Driver)
      → t.startflag ≡ true
      → Holds (events 0 bodies) (length bodies) (entered t).daq
      → (dev.interrupt_reply t.daq.calls == 0) ≡ true
      → Holds (events 0 bodies) (length bodies) (entered (interrupt dev true t).1).daq
  foreign-Holds bodies t started h other =
      let e = entered t in
      let idem : entered e ≡ e = entered_twice t in
      let ws = events 0 bodies in
      let n = length bodies in
      subst (λ (x : IrqReturn × Driver). Holds ws n (entered x.1).daq)
        (sym (foreign_lem dev t started other))
        (Holds-calls ws n e (check_interrupt ∷ e.daq.calls) e.drn e.chkbuff
          (subst (λ (x : Driver). Holds ws n x.daq) (sym idem) h))
