-- ===== src/Madc32/Dma.antt =====
-- madc32.c, madc32_dmasegdata: the readout by DMA in windows, into a buffer of the caller's.
use p42018_vmedaq.Common.{
  ℕ, zero, suc, ◌+◌, ◌-◌, ◌*◌, ◌/◌, ◌^◌, ◌≤◌, ◌<◌, ◌≡◌, refl, ap, ◌∙◌, true, false, not, ltb,
  if◌then◌else◌, Memory, Option, none, some, ◌∷◌, Bool-cases, inl, inr, arith,
}
use p42018_vmedaq.Device.{Device, History, dma_start, dma_store, delay}
use p42018_vmedaq.Daq.{Daq, M, ◌>>=◌, ◌>>◌, pure, gets, call}
use p42018_vmedaq.Bbrl.Dma.{polled}

abbrev pub dma_windowsize : ℕ
dma_windowsize = 0x800

-- memcpy(buff + wordcnt, ..., csize) of what the bridge has stored
abbrev pub store_longs : Memory → ℕ → ℕ → Memory → Memory
store_longs longs wordcnt csize buff x =
    if ltb x wordcnt
    then buff x
    else if ltb ((x - wordcnt) * 4) csize
    then longs (x - wordcnt)
    else buff x

-- The buffer with the answer of the window that begins at this long word; a transfer that does not
-- end leaves it as it is, and is not reported.
abbrev pub placed_longs : Option Memory → ℕ → ℕ → Memory → Memory
placed_longs r wordcnt csize buff = elim r [
  | none ↦ buff
  | some longs ↦ store_longs longs wordcnt csize buff
]

module _ (dev : Device) where
  -- for(dmadelay = 0; dmadelay < 1000000; dmadelay++), by the rounds that are left: the long words
  -- that were stored, if any were
  unfoldable pub madc32_dma_wait : ℕ → ℕ → M (Option Memory)
  madc32_dma_wait zero csize = pure none
  madc32_dma_wait (suc rounds) csize = do
    done ← gets (λ d. dev.dma_done d.calls)
    longs ← gets (λ d. dev.dma_longs d.calls)
    call (dma_store csize)
    let again = (do call delay; madc32_dma_wait rounds csize)
    if done then pure (some longs) else again

  -- One window.
  unfoldable pub madc32_dma_window : ℕ → ℕ → ℕ → Memory → M Memory
  madc32_dma_window maddr depth wordcnt buff = do
    let csize = if ltb depth dma_windowsize then depth * 4 else dma_windowsize * 4
    call (dma_start maddr csize)
    call delay
    r ← madc32_dma_wait 1000000 csize
    pure (placed_longs r wordcnt csize buff)

  -- for(wordcnt = 0; wordcnt < depth;), on fuel: the final `wordcnt`, the buffer and the state;
  -- `none` where the int
  -- `wordcnt` overflows, which C leaves undefined, and without fuel
  unfoldable pub madc32_dma_windows : ℕ → ℕ → ℕ → ℕ → Memory → Daq → Option ((ℕ × Memory) × Daq)
  madc32_dma_windows zero maddr depth wordcnt buff d = none
  madc32_dma_windows (suc fuel) maddr depth wordcnt buff d =
      let (next, e) = madc32_dma_window maddr depth wordcnt buff d in
      let rest = madc32_dma_windows fuel maddr depth (wordcnt + dma_windowsize) next e in
      if not (ltb wordcnt depth)
      then some ((wordcnt, buff), d)
      else if ltb (wordcnt + dma_windowsize) (2 ^ 31)
      then rest
      else none

  -- The test of the loop is made once more than there are windows. `depth` is not negative here.
  unfoldable pub madc32_dmasegdata : ℕ → ℕ → Memory → Daq → Option ((ℕ × Memory) × Daq)
  madc32_dmasegdata maddr depth buff d = madc32_dma_windows (suc depth) maddr depth 0 buff d

  -- A polling loop is that of bbrl.c.
  wait_lem :
      (rounds csize : ℕ) (d : Daq)
      → let p = polled dev (dma_store csize) rounds d.calls in
        madc32_dma_wait rounds csize d ≡ (p.0, record d { calls = p.1 })
  unfolding madc32_dma_wait polled
  wait_lem zero csize d = refl
  wait_lem (suc rounds) csize d = elim (Bool-cases (dev.dma_done d.calls)) [
    | inl done ↦ rw done refl
    | inr busy ↦
        rw busy (wait_lem rounds csize (record d { calls = delay ∷ dma_store csize ∷ d.calls }))
  ]

  -- What `windows` transfers of `csize` bytes leave, one behind the other: the buffer with each
  -- answer a window further on, as it was where there is none in 1000000 polls, and the calls.
  unfoldable pub after_windows : ℕ → ℕ → ℕ → ℕ → Memory × History → Memory × History
  after_windows maddr csize zero wordcnt (buff, cs) = (buff, cs)
  after_windows maddr csize (suc windows) wordcnt (buff, cs) =
      let p = polled dev (dma_store csize) 1000000 (delay ∷ dma_start maddr csize ∷ cs) in
      after_windows maddr csize windows (wordcnt + dma_windowsize)
        (placed_longs p.0 wordcnt csize buff, p.1)

  -- The bytes of a transfer.
  abbrev pub window_bytes : ℕ → ℕ
  window_bytes depth = if ltb depth dma_windowsize then depth * 4 else dma_windowsize * 4

  window_lem :
      (maddr depth wordcnt : ℕ) (buff : Memory) (d : Daq)
      → let csize = window_bytes depth in
        let p = polled dev (dma_store csize) 1000000 (delay ∷ dma_start maddr csize ∷ d.calls) in
        madc32_dma_window maddr depth wordcnt buff d
        ≡ (placed_longs p.0 wordcnt csize buff, record d { calls = p.1 })
  unfolding madc32_dma_window
  window_lem maddr depth wordcnt buff d =
      let csize = window_bytes depth in
      let begun : Daq = record d { calls = delay ∷ dma_start maddr csize ∷ d.calls } in
      ap (λ (r : Option Memory × Daq). (placed_longs r.0 wordcnt csize buff, r.1))
        (wait_lem 1000000 csize begun)

  -- The state and the number of long words after these windows.
  abbrev ended : ℕ → Daq → Memory × History → Option ((ℕ × Memory) × Daq)
  ended wordcnt d r = some ((wordcnt, r.0), record d { calls = r.1 })

  windows_lem :
      (fuel maddr depth windows wordcnt : ℕ) (buff : Memory) (d : Daq)
      → windows < fuel
      → depth ≤ wordcnt + windows * 0x800
      → wordcnt + windows * 0x800 < depth + 0x800
      → wordcnt + windows * 0x800 < 2 ^ 31
      → madc32_dma_windows fuel maddr depth wordcnt buff d
        ≡ ended
            (wordcnt + windows * 0x800)
            d
            (after_windows maddr (window_bytes depth) windows wordcnt (buff, d.calls))
  unfolding madc32_dma_windows after_windows
  windows_lem zero maddr depth windows wordcnt buff d enough low high small = absurd (omega arith)
  windows_lem (suc fuel) maddr depth zero wordcnt buff d enough low high small =
      let all : ltb wordcnt depth ≡ false = ground arith in
      let number : wordcnt ≡ wordcnt + 0 = omega arith in
      rw all (ap (λ k. ended k d (buff, d.calls)) number)
  windows_lem (suc fuel) maddr depth (suc windows) wordcnt buff d enough low high small =
      let csize = window_bytes depth in
      let more : ltb wordcnt depth ≡ true = ground arith in
      let whole : ltb (wordcnt + dma_windowsize) (2 ^ 31) ≡ true = ground arith in
      let p = polled dev (dma_store csize) 1000000 (delay ∷ dma_start maddr csize ∷ d.calls) in
      let next = placed_longs p.0 wordcnt csize buff in
      let number : wordcnt + 0x800 + windows * 0x800 ≡ wordcnt + suc windows * 0x800 =
        omega arith in
      rw (more, whole)
        (ap
            (λ (r : Memory × Daq).
              madc32_dma_windows fuel maddr depth (wordcnt + dma_windowsize) r.0 r.1)
            (window_lem maddr depth wordcnt buff d)
          ∙ windows_lem fuel maddr depth windows (wordcnt + 0x800) next (record d { calls = p.1 })
              (omega arith) (omega arith) (omega arith) (omega arith)
          ∙ ap (λ k. ended k d (after_windows maddr csize windows (wordcnt + 0x800) (next, p.1)))
              number)

  -- Whatever the bridge answers, `madc32_dmasegdata` ends. It starts one transfer for each window
  -- of 0x800 long words that was begun, of that size, or of `depth` long words where those are
  -- fewer; polls each up to its first answer, 1000000 times at most; puts the long words of each
  -- answer a window further on in the buffer, and leaves the buffer there where there is none. It
  -- returns `depth` rounded up to whole windows, which has to be below 2 ^ 31.
  pub madc32_dmasegdata_lem :
      (maddr depth : ℕ) (buff : Memory) (d : Daq)
      → depth + 0x7ff < 2 ^ 31
      → let windows = (depth + 0x7ff) / 0x800 in
        let r = after_windows maddr (window_bytes depth) windows 0 (buff, d.calls) in
        madc32_dmasegdata maddr depth buff d
        ≡ some ((windows * 0x800, r.0), record d { calls = r.1 })
  unfolding madc32_dmasegdata
  madc32_dmasegdata_lem maddr depth buff d small =
      let windows = (depth + 0x7ff) / 0x800 in
      let number : 0 + windows * 0x800 ≡ windows * 0x800 = omega arith in
      windows_lem (suc depth) maddr depth ((depth + 0x7ff) / 0x800) 0 buff d (omega arith)
        (omega arith) (omega arith) (omega arith)
      ∙ ap (λ k. ended k d (after_windows maddr (window_bytes depth) windows 0 (buff, d.calls)))
          number
