-- ===== src/Daq.antt =====
-- The state that bbrl.c and the files included after it share, and the monad of its functions.
pub mod Readout
use p42018_vmedaq.Common.{ℕ, ◌+◌, ◌/◌, Bool, List, ◌∷◌, Memory, update, u16, write_words, length}
use p42018_vmedaq.Device.{Call, History, Device, read16, read32, write16, write32}

-- The globals of bbrl.c with DBUFF. `mem` is `databuff` by its index in words, from 0 to BLKSIZE - 1
-- (what lies past it is memory that the driver does not own), and `base` is `data - databuff`. An
-- `int` is a number without a bound; the counters grow by what fits a block. `calls` is the history
-- of the calls that left the driver.
pub record Daq : Type 0 where
  pub mem : Memory
  pub base : ℕ
  pub dn : ℕ
  pub mp : ℕ
  pub eventid : ℕ
  pub eventhmp : ℕ
  pub eventsize : ℕ
  pub segmenthmp : ℕ
  pub segmentsize : ℕ
  pub mpflag : Bool
  pub dmadata : ℕ → ℕ
  pub calls : History

-- A C function on that state, with its result.
abbrev pub M : Type 0 → Type 0
M A = Daq → A × Daq

-- Sequencing, for this state and for the larger one of nbbqdrv.c.
infixl 5 ◌>>=◌ ◌>>◌
abbrev pub ◌>>=◌ : {S A B : Type 0} → (S → A × S) → (A → S → B × S) → S → B × S
◌>>=◌ m f d = let (a, d') = m d in f a d'

abbrev pub ◌>>◌ : {S B : Type 0} → (S → Unit {0} × S) → (S → B × S) → S → B × S
m >> k = m >>= λ _. k

abbrev pub pure : {S A : Type 0} → A → S → A × S
pure a d = (a, d)

abbrev pub gets : {S A : Type 0} → (S → A) → S → A × S
gets f d = (f d, d)

abbrev pub modify : {S : Type 0} → (S → S) → S → Unit {0} × S
modify f d = (tt, f d)

abbrev pub call : Call → M (Unit {0})
call c = modify λ d. record d { calls = c ∷ d.calls }

-- data[i] = w
abbrev pub store_word : ℕ → ℕ → M (Unit {0})
store_word i w = modify λ d. record d { mem = update d.mem (d.base + i) (u16 w) }

-- data[i]
abbrev pub load_word : ℕ → M ℕ
load_word i = gets λ d. d.mem (d.base + i)

-- data[mp++] = w
abbrev pub push_word : ℕ → M (Unit {0})
push_word w d = (tt, record d { mem = update d.mem (d.base + d.mp) (u16 w); mp = d.mp + 1 })

-- vwrite16(addr, &val)
abbrev pub vwrite16 : ℕ → ℕ → M (Unit {0})
vwrite16 addr val = call (write16 addr (u16 val))

-- vwrite32(addr, &val)
abbrev pub vwrite32 : ℕ → ℕ → M (Unit {0})
vwrite32 addr val = call (write32 addr val)

-- An `int` stored at a `short *`: the host is little endian, so the low half comes first.
abbrev pub low_word : ℕ → ℕ
low_word v = u16 v

abbrev pub high_word : ℕ → ℕ
high_word v = u16 (v / 65536)

abbrev pub store_long : ℕ → ℕ → M (Unit {0})
store_long i v = modify λ d. record d {
  mem = update (update d.mem (d.base + i) (low_word v)) (d.base + (i + 1)) (high_word v);
}

module _ (dev : Device) where
  -- vread16(addr, &x), as the value read
  abbrev pub vread16 : ℕ → M ℕ
  vread16 addr d = (u16 (dev.read16_reply d.calls addr), record d { calls = read16 addr ∷ d.calls })

  -- vread32(addr, &x), as the value read
  abbrev pub vread32 : ℕ → M ℕ
  vread32 addr d = (dev.read32_reply d.calls addr, record d { calls = read32 addr ∷ d.calls })

  -- vread32(addr, (int *)(data + mp))
  abbrev pub vread32_at_mp : ℕ → M (Unit {0})
  vread32_at_mp addr = do v ← vread32 addr; i ← gets (λ d. d.mp); store_long i v

-- `n` words have been written at `mp` and counted in the open segment.
abbrev pub advance : ℕ → M (Unit {0})
advance n = modify λ d. record d { mp = d.mp + n; segmentsize = d.segmentsize + n }

-- The effect that every readout routine is proved to have: these words stand from `mp` on, they are
-- counted in the segment, and the history is this one.
abbrev pub took : List ℕ → History → Daq → Daq
took ws cs d = record d {
  mem = write_words d.mem (d.base + d.mp) ws;
  mp = d.mp + length ws;
  segmentsize = d.segmentsize + length ws;
  calls = cs;
}
