-- ===== src/Converters/V785.antt =====
-- v785.c: the V785 peak sensing converter, word by word or by DMA.
use p42018_vmedaq.Common.{
  ℕ, zero, suc, ◌+◌, ◌-◌, ◌*◌, ◌≤◌, ◌<◌, ◌≡◌, refl, Bool, true, false, not, ◌&&◌, ◌||◌, ◌==◌, ltb,
  if◌then◌else◌, Bool-cases, inl, inr, arith, bit_and, add32, ◌^◌, leb, Option, none, some,
}
use p42018_vmedaq.Device.{Device, dma_start, dma_store, delay}
use p42018_vmedaq.Daq.{
  Daq, M, ◌>>=◌, ◌>>◌, pure, gets, modify, call, push_word, vwrite16, vread32, low_word, high_word,
}
use p42018_vmedaq.Daq.Readout.{take_while}
use p42018_vmedaq.Bbrl.{init_segment, end_segment, copy_dmadata, dmamax}
use p42018_vmedaq.Converters.Loop.{read_event, read_segment}
use p42018_vmedaq.Converters.Frame.{unframed, read_segment-framed}

-- v785.h
abbrev pub v785_outbuff : ℕ
v785_outbuff = 0x0000

abbrev pub v785_bit_set2 : ℕ
v785_bit_set2 = 0x1032

abbrev pub v785_bit_cle2 : ℕ
v785_bit_cle2 = 0x1034

-- Against V785_HEADER_BIT_S and V785_DATA_BIT_S, in the upper half of a long word.
abbrev pub v785_is_header : ℕ → Bool
v785_is_header w = bit_and w 0x0600 == 0x0200

abbrev pub v785_is_data : ℕ → Bool
v785_is_data w = bit_and w 0x0600 == 0x0000

-- The address of the long word `wordcnt` of the output buffer.
abbrev pub v785_slot : ℕ → ℕ → ℕ
v785_slot maddr wordcnt = add32 maddr (v785_outbuff + wordcnt * 32)

unfoldable pub v785_clear : ℕ → M (Unit {0})
v785_clear maddr = do
  vwrite16 (add32 maddr v785_bit_set2) 0x04
  vwrite16 (add32 maddr v785_bit_cle2) 0x04

unfoldable pub caen_dummy : M ℕ
caen_dummy = do
  push_word 0x00da
  push_word 0x0600
  modify (λ d. record d { segmentsize = d.segmentsize + 2 })
  gets (λ d. d.segmentsize)

-- (dmadata[loop] & V785_TYPE_MASK) against V785_HEADER_BIT, V785_EOB_BIT and V785_ERROR_BIT
abbrev pub dma_header : ℕ → Bool
dma_header v = bit_and v 0x06000000 == 0x02000000

abbrev pub dma_end : ℕ → Bool
dma_end v = bit_and v 0x06000000 == 0x04000000 || bit_and v 0x06000000 == 0x06000000

-- for(loop = 0; loop < rsize; loop++), by the rounds that are left: `staadr`, and one more than
-- `stoadr`, which would be -1 where `rsize` is 0.
unfoldable pub dma_scan : (ℕ → ℕ) → ℕ → ℕ → ℕ → Bool → ℕ × ℕ
dma_scan longs zero loop staadr staflag = (staadr, loop)
dma_scan longs (suc left) loop staadr staflag =
    let v = longs loop in
    let started = dma_scan longs left (loop + 1) loop true in
    let next = dma_scan longs left (loop + 1) staadr staflag in
    if dma_header v
    then started
    else if staflag && dma_end v
    then (staadr, loop + 1)
    else if not staflag && ltb 1 loop
    then (staadr, 1)
    else next

dma_scan_bounds :
    (longs : ℕ → ℕ) (left loop staadr : ℕ) (staflag : Bool)
    → staadr ≤ loop
    → 0 < loop + left
    → (staflag ≡ false → staadr ≡ 0)
    → (staflag ≡ true → staadr < loop)
    → let r = dma_scan longs left loop staadr staflag in (r.0 < r.1) × (r.1 ≤ loop + left)
unfolding dma_scan
dma_scan_bounds longs zero loop staadr staflag low some_long fresh going =
    elim (Bool-cases staflag) [
      | inl going_on ↦ (going going_on, omega arith)
      | inr none_yet ↦ (omega (arith, fresh none_yet), omega arith)
    ]
dma_scan_bounds longs (suc left) loop staadr staflag low some_long fresh going =
    let v = longs loop in
    let started =
      dma_scan_bounds longs left (loop + 1) loop true (omega arith) (omega arith)
        (λ h. ground arith) (λ h. omega arith) in
    let next =
      dma_scan_bounds longs left (loop + 1) staadr staflag (omega arith) (omega arith) fresh
        (λ h. omega arith) in
    ground arith

-- The long words that `v785_dmasegdata` copies are one at least, and all of them are among the
-- `rsize` that the transfer has stored, where `rsize` is not 0.
pub dma_scan-within :
    (longs : ℕ → ℕ) (rsize : ℕ)
    → 0 < rsize
    → let r = dma_scan longs rsize 0 0 false in (r.0 < r.1) × (r.1 ≤ rsize)
dma_scan-within longs rsize h =
    let (low, high) =
      dma_scan_bounds longs rsize 0 0 false (omega arith) (omega arith) (λ e. refl)
        (λ e. ground arith) in
    (low, omega (arith, high))

module _ (dev : Device) where
  unfoldable pub v785_segdata : ℕ → M ℕ
  v785_segdata maddr = read_event dev (v785_slot maddr) v785_is_header v785_is_data 33

  unfoldable pub v785_segmod : ℕ → ℕ → M ℕ
  v785_segmod segid maddr = read_segment dev (v785_slot maddr) v785_is_header v785_is_data 33 segid

  -- The first long word is read into a local; all of them come from the same address.
  unfoldable pub v785_segdata2 : ℕ → M ℕ
  v785_segdata2 maddr = do
    let addr = add32 maddr v785_outbuff
    tdata ← vread32 dev addr
    let kept = (do
      push_word (low_word tdata)
      push_word (high_word tdata)
      modify (λ d. record d { segmentsize = d.segmentsize + 2 })
      take_while dev (λ _. addr) v785_is_data 33 1
      gets (λ d. d.segmentsize))
    if dma_header tdata then kept else pure 0

  -- for(dmadelay = 0; dmadelay < 1000; dmadelay++), by the rounds that are left: `dmaflag`, and the
  -- final `dmadelay`
  unfoldable pub v785_dma_wait : ℕ → ℕ → M (Bool × ℕ)
  v785_dma_wait zero csize = pure (false, 1000)
  v785_dma_wait (suc rounds) csize = do
    done ← gets (λ d. dev.dma_done d.calls)
    longs ← gets (λ d. dev.dma_longs d.calls)
    call (dma_store csize)
    let again = (do call delay; v785_dma_wait rounds csize)
    let stored = (do
      modify (λ d. record d { dmadata = λ k. if ltb (k * 4) csize then longs k else d.dmadata k })
      pure (true, 5556))
    if done then stored else again

  -- What follows the loop, by `dmaflag` and `dmadelay`.
  unfoldable pub v785_dma_finish : ℕ → Bool × ℕ → M ℕ
  v785_dma_finish rsize r = do
    let copied = (do
      longs ← gets (λ d. d.dmadata)
      i ← gets (λ d. d.mp)
      let found = dma_scan longs rsize 0 0 false
      let vsize = found.1 - found.0
      copy_dmadata dev vsize found.0 i
      modify (λ d. record d { segmentsize = d.segmentsize + vsize * 2; mp = d.mp + vsize * 2 }))
    let timed_out = (do
      push_word r.1
      push_word 0x0600
      modify (λ d. record d { segmentsize = d.segmentsize + 2 }))
    if r.0 then copied else timed_out
    gets (λ d. d.segmentsize)

  -- As `dma_read`, `none` where `csize` overflows or the bridge stores past `dmadata`. `rsize` is
  -- positive here.
  unfoldable pub v785_dmasegdata : ℕ → ℕ → Daq → Option (ℕ × Daq)
  v785_dmasegdata maddr rsize d =
      let csize = rsize * 4 in
      let waiting = (do call (dma_start maddr csize); call delay; v785_dma_wait 1000 csize) in
      let (r, e) = waiting d in
      if leb (2 ^ 31) csize || (r.0 && ltb dmamax rsize)
      then none
      else some (v785_dma_finish rsize r e)

  -- `v785_segmod` leaves the words, the event's size and the calls that `init_segment`,
  -- `v785_segdata` and `end_segment` leave, and returns the size of that segment; it keeps the
  -- variables of the segment's framing as they were.
  pub v785_segmod-framed :
      (segid maddr : ℕ) (d : Daq)
      → let framed = (init_segment segid >> v785_segdata maddr >>= λ _. end_segment) d in
        v785_segmod segid maddr d ≡ (framed.1.segmentsize, unframed d framed.1)
  unfolding v785_segmod v785_segdata
  v785_segmod-framed segid maddr d =
      read_segment-framed dev (v785_slot maddr) v785_is_header v785_is_data 33 segid d
