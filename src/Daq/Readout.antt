-- ===== src/Daq/Readout.antt =====
-- The step that the readout routines repeat, `vread32(addr, data+mp); mp += 2; segmentsize += 2;`,
-- the loop that repeats it while the last word says so, and the words that these take.
use p42018_vmedaq.Common.{
  ℕ, zero, suc, ◌+◌, ◌-◌, ◌*◌, ◌≡◌, refl, sym, ap, ◌∙◌, List, [], ◌∷◌, ◌++◌, Bool, if◌then◌else◌,
  arith, length, length-append, write_words, write_words-append, write_words_at, ◌≤◌, Bool-cases,
  replicate, replicate-append_self, inl, inr,
}
use native.Mathlib.Nat.{add-zero}
use p42018_vmedaq.Device.{Device, History, read32}
use p42018_vmedaq.Daq.{
  Daq, M, ◌>>=◌, ◌>>◌, pure, gets, load_word, vread32_at_mp, advance, took, low_word, high_word,
}

-- The words that an `int` array puts into the buffer.
unfoldable pub words_of : List ℕ → List ℕ
words_of [] = []
words_of (v ∷ vs) = low_word v ∷ high_word v ∷ words_of vs

pub length-words_of : (vs : List ℕ) → length (words_of vs) ≡ 2 * length vs
unfolding words_of
length-words_of [] = refl
length-words_of (v ∷ vs) = omega (arith, length-words_of vs)

add-length : (n : ℕ) (xs ys : List ℕ) → n + length xs + length ys ≡ n + length (xs ++ ys)
add-length n xs ys = omega (arith, length-append xs ys)

-- Two takes in a row are one.
pub took-took :
    (xs ys : List ℕ) (bs cs : History) (d : Daq) → took ys cs (took xs bs d) ≡ took (xs ++ ys) cs d
took-took xs ys bs cs d =
    let at : d.base + (d.mp + length xs) ≡ d.base + d.mp + length xs = omega arith in
    λ i. record d {
      mem =
          (write_words_at (write_words d.mem (d.base + d.mp) xs) ys at
              ∙ write_words-append xs ys d.mem (d.base + d.mp))
            i;
      mp = add-length d.mp xs ys i;
      segmentsize = add-length d.segmentsize xs ys i;
      calls = cs;
    }

pub took-nil : (d : Daq) → took [] d.calls d ≡ d
unfolding write_words
took-nil d = λ i. record d { mp = add-zero d.mp i; segmentsize = add-zero d.segmentsize i }

-- The history after `n` reads from the addresses of rounds `wordcnt` on.
unfoldable pub history_after : (ℕ → ℕ) → ℕ → ℕ → History → History
history_after addr zero wordcnt cs = cs
history_after addr (suc n) wordcnt cs =
    history_after addr n (wordcnt + 1) (read32 (addr wordcnt) ∷ cs)

-- The state after `vs` were read from one address.
abbrev pub drained : ℕ → List ℕ → Daq → Daq
drained addr vs d = took (words_of vs) (replicate (length vs) (read32 addr) ++ d.calls) d

-- A step and then a run from the same address make one run.
pub drained-cons :
    (addr v : ℕ) (vs : List ℕ) (d : Daq)
    → let d' = took (words_of (v ∷ [])) (read32 addr ∷ d.calls) d in
      drained addr vs d' ≡ drained addr (v ∷ vs) d
unfolding words_of
drained-cons addr v vs d =
    let cs = read32 addr ∷ d.calls in
    took-took (words_of (v ∷ [])) (words_of vs) cs (replicate (length vs) (read32 addr) ++ cs) d
    ∙ ap (λ h. took (words_of (v ∷ vs)) h d)
        (replicate-append_self (length vs) (read32 addr) d.calls)

module _ (dev : Device) where
  unfoldable pub take_long : ℕ → M (Unit {0})
  take_long addr = do vread32_at_mp dev addr; advance 2

  -- One step takes the long word that the device answers.
  pub take_long_lem :
      (addr : ℕ) (d : Daq)
      → (take_long addr d).1
        ≡ took (words_of (dev.read32_reply d.calls addr ∷ [])) (read32 addr ∷ d.calls) d
  unfolding take_long words_of write_words
  take_long_lem addr d = let next : d.base + (d.mp + 1) ≡ d.base + d.mp + 1 = omega arith in rw next

  -- The upper half of the long word just taken is the last word written.
  pub last_word :
      (v : ℕ) (cs : History) (d : Daq)
      → let d' = took (words_of (v ∷ [])) cs d in d'.mem (d'.base + (d'.mp - 1)) ≡ high_word v
  unfolding words_of write_words
  last_word v cs d = ground arith

  -- A step, and the word `data[mp - 1]` that the caller then tests.
  unfoldable pub take_test : ℕ → M ℕ
  take_test addr = do take_long addr; i ← gets (λ d. d.mp); load_word (i - 1)

  pub take_test_lem :
      (addr : ℕ) (d : Daq)
      → let v = dev.read32_reply d.calls addr in
        take_test addr d ≡ (high_word v, took (words_of (v ∷ [])) (read32 addr ∷ d.calls) d)
  unfolding take_test
  take_test_lem addr d =
      let v = dev.read32_reply d.calls addr in
      let cs = read32 addr ∷ d.calls in
      rw (take_long_lem addr d) (λ i. (last_word v cs d i, took (words_of (v ∷ [])) cs d))

  -- while(wordcnt < ...){ take; wordcnt++; if(!(data[mp-1] ...)) break; }, by the rounds left
  unfoldable pub take_while : (ℕ → ℕ) → (ℕ → Bool) → ℕ → ℕ → M (Unit {0})
  take_while addr more zero wordcnt = pure tt
  take_while addr more (suc rounds) wordcnt = do
    w ← take_test (addr wordcnt)
    let rest = take_while addr more rounds (wordcnt + 1)
    if more w then rest else pure tt

  -- The long words that it takes, in terms of the answers alone.
  unfoldable pub longs_while : (ℕ → ℕ) → (ℕ → Bool) → ℕ → ℕ → History → List ℕ
  longs_while addr more zero wordcnt cs = []
  longs_while addr more (suc rounds) wordcnt cs =
      let v = dev.read32_reply cs (addr wordcnt) in
      let rest = longs_while addr more rounds (wordcnt + 1) (read32 (addr wordcnt) ∷ cs) in
      v ∷ (if more (high_word v) then rest else [])

  -- The loop takes exactly those long words, after one read for each.
  pub take_while_lem :
      (addr : ℕ → ℕ) (more : ℕ → Bool) (rounds wordcnt : ℕ) (d : Daq)
      → let vs = longs_while addr more rounds wordcnt d.calls in
        (take_while addr more rounds wordcnt d).1
        ≡ took (words_of vs) (history_after addr (length vs) wordcnt d.calls) d
  unfolding take_while longs_while history_after words_of
  take_while_lem addr more zero wordcnt d = sym (took-nil d)
  take_while_lem addr more (suc rounds) wordcnt d =
      let v = dev.read32_reply d.calls (addr wordcnt) in
      let cs = read32 (addr wordcnt) ∷ d.calls in
      let d' = took (words_of (v ∷ [])) cs d in
      let rest = longs_while addr more rounds (wordcnt + 1) cs in
      rw (take_test_lem (addr wordcnt) d) (elim (Bool-cases (more (high_word v))) [
        | inl go ↦ rw go (
            take_while_lem addr more rounds (wordcnt + 1) d'
            ∙ took-took (words_of (v ∷ [])) (words_of rest) cs
                (history_after addr (length rest) (wordcnt + 1) cs) d)
        | inr stop ↦ rw stop
      ])

  pub length-longs_while :
      (addr : ℕ → ℕ) (more : ℕ → Bool) (rounds wordcnt : ℕ) (cs : History)
      → length (longs_while addr more rounds wordcnt cs) ≤ rounds
  unfolding longs_while
  length-longs_while addr more zero wordcnt cs = omega arith
  length-longs_while addr more (suc rounds) wordcnt cs =
      ground (arith, length-longs_while addr more rounds (wordcnt + 1) (read32 (addr wordcnt) ∷ cs))
