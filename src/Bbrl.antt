-- ===== src/Bbrl.antt =====
-- bbrl.c: the block, event and segment framing of the babirl format, with DBUFF and VME defined as
-- in bbmodules.h.
pub mod Segment
pub mod Event
pub mod Format
pub mod Dma
pub mod Camac
use p42018_vmedaq.Common.{
  ℕ, ◌+◌, ◌*◌, ◌/◌, zero, suc, ◌^◌, ◌==◌, ◌&&◌, ◌||◌, ltb, leb, Bool, true, false, if◌then◌else◌,
  bit_or, Option, none, some,
}
use p42018_vmedaq.Daq.{
  Daq, M, ◌>>=◌, ◌>>◌, pure, gets, modify, push_word, store_word, load_word, store_long, call,
}
use p42018_vmedaq.Device.{Device, Call, dma_start, dma_store, dma_start_i, dma_store_i, delay}

-- common.h, BLKSIZE: the words of `databuff`
abbrev pub blksize : ℕ
blksize = 0x4000

-- BLKSIZE / 2: the words of one block
abbrev pub half : ℕ
half = 0x2000

-- bbmodules.h, MAXBUFF: an event that ends past this word closes the block
abbrev pub maxbuff : ℕ
maxbuff = 0x1e00

-- The two halves of `databuff` take turns.
unfoldable pub chmem : M (Unit {0})
chmem =
    modify
      λ d. if d.dn == 0 then record d { base = half; dn = 1 } else record d { base = 0; dn = 0 }

unfoldable pub init_mem : M (Unit {0})
unfolding chmem
init_mem = do
  modify (λ d. record d { dn = 1 })
  chmem
  modify (λ d. record d { mem = λ x. if ltb x blksize then 0 else d.mem x })

-- `memset(data, 0, 4)` clears four bytes, which are two words.
unfoldable pub init_block : M (Unit {0})
init_block = do store_word 0 0; store_word 1 0; modify (λ d. record d { mp = 4; eventid = 0 })

-- `memset(data + 1, 0, 3)` clears a word and the low byte of the next.
unfoldable pub init_pblock : M (Unit {0})
init_pblock = do
  store_word 0 0x0010
  store_word 1 0
  w ← load_word 2
  store_word 2 (w / 256 * 256)
  modify (λ d. record d { mp = 4; eventid = 0 })

unfoldable pub init_event : ℕ → M (Unit {0})
init_event fid = do
  modify (λ d. record d { eventid = d.eventid + 1; eventhmp = d.mp; eventsize = 3; mp = d.mp + 1 })
  push_word fid
  id ← gets (λ d. d.eventid)
  push_word id

unfoldable pub init_segment : ℕ → M (Unit {0})
init_segment segid = do
  modify (λ d. record d { segmenthmp = d.mp; segmentsize = 2; mp = d.mp + 1 })
  push_word segid

unfoldable pub end_block : M ℕ
end_block = do push_word 0xffff; push_word 0xffff; gets (λ d. d.mp)

unfoldable pub end_event : M ℕ
end_event = do
  size ← gets (λ d. d.eventsize)
  at ← gets (λ d. d.eventhmp)
  store_word at (bit_or size 0x8000)
  gets (λ d. d.mp)

unfoldable pub end_segment : M ℕ
end_segment = do
  size ← gets (λ d. d.segmentsize)
  at ← gets (λ d. d.segmenthmp)
  store_word at size
  modify (λ d. record d { eventsize = d.eventsize + size })
  gets (λ d. d.mp)

unfoldable pub get_mp : M ℕ
get_mp = gets (λ d. d.mp)

abbrev pub dmadelaymax : ℕ
dmadelaymax = 10000

-- DMAMAX: the long words of `dmadata`
abbrev pub dmamax : ℕ
dmamax = 4096

module _ (dev : Device) where
  -- The polling loop of `dmasegdata`, by the rounds that are left; success ends it, since it puts
  -- the counter past the bound. The result is `dmaflag` with the final `dmadelay`.
  unfoldable pub dma_wait : Call → ℕ → ℕ → M (Bool × ℕ)
  dma_wait store csize zero = pure (false, dmadelaymax)
  dma_wait store csize (suc rounds) = do
    done ← gets (λ d. dev.dma_done d.calls)
    longs ← gets (λ d. dev.dma_longs d.calls)
    call store
    let again = (do call delay; dma_wait store csize rounds)
    let stored = (do
      modify (λ d. record d { dmadata = λ k. if ltb (k * 4) csize then longs k else d.dmadata k })
      pure (true, dmadelaymax + 101))
    if done then stored else again

  -- memcpy(data + mp, dmadata, 4 * n), from the long word `k` on
  unfoldable pub copy_dmadata : ℕ → ℕ → ℕ → M (Unit {0})
  copy_dmadata zero k i = pure tt
  copy_dmadata (suc n) k i = do
    v ← gets (λ d. d.dmadata k)
    store_long i v
    copy_dmadata n (k + 1) (i + 2)

  -- what follows the loop, by `dmaflag` and `dmadelay`
  unfoldable pub dma_finish : ℕ → Bool × ℕ → M ℕ
  dma_finish rsize (dmaflag, dmadelay) = do
    let copied = (do
      i ← gets (λ d. d.mp)
      copy_dmadata rsize 0 i
      modify (λ d. record d { segmentsize = d.segmentsize + rsize * 2; mp = d.mp + rsize * 2 }))
    let timed_out = (do
      push_word 0xfeee
      push_word dmadelay
      modify (λ d. record d { segmentsize = d.segmentsize + 2 }))
    if dmaflag then copied else timed_out
    gets (λ d. d.segmentsize)

  -- dmasegdata and dmasegdata_i, by the calls that start the transfer and that poll it; `none`
  -- where C leaves the result undefined, since the int `csize` overflows, or the bridge stores more
  -- than the DMAMAX long words of `dmadata`. Nothing tests `rsize`, which is not negative here.
  unfoldable pub dma_read : Call → Call → ℕ → Daq → Option (ℕ × Daq)
  dma_read start store rsize d =
      let waiting = (do call start; call delay; dma_wait store (rsize * 4) dmadelaymax) in
      let (r, e) = waiting d in
      if leb (2 ^ 31) (rsize * 4) || (r.0 && ltb dmamax rsize)
      then none
      else some (dma_finish rsize r e)

  unfoldable pub dmasegdata : ℕ → ℕ → Daq → Option (ℕ × Daq)
  dmasegdata maddr rsize = dma_read (dma_start maddr (rsize * 4)) (dma_store (rsize * 4)) rsize

  -- with the DMA engine's number
  unfoldable pub dmasegdata_i : ℕ → ℕ → ℕ → Daq → Option (ℕ × Daq)
  dmasegdata_i maddr rsize dn =
      dma_read (dma_start_i maddr (rsize * 4) dn) (dma_store_i (rsize * 4) dn) rsize
