-- ===== src/Univ/Dma.antt =====
-- univdma.c: the buffer that the Universe bridge fills by DMA, and its copy into the block. The
-- functions of the bridge's library and of the kernel are a parameter.
pub mod Copy
use p42018_vmedaq.Common.{
  ℕ, zero, suc, ◌+◌, ◌-◌, ◌*◌, ◌/◌, ◌%◌, ◌^◌, List, ◌∷◌, Memory, update, add32, ◌==◌, if◌then◌else◌,
}
use p42018_vmedaq.Daq.{Daq}

-- The calls of the library and of the kernel.
pub data DmaCall : Type 0 where
  buffer_create : ℕ → ℕ → ℕ → DmaCall
  buffer_phys_addr : ℕ → DmaCall
  ioremap : ℕ → ℕ → DmaCall
  read2 : ℕ → ℕ → ℕ → ℕ → ℕ → ℕ → DmaCall
  vfree : ℕ → DmaCall
  buffer_release : ℕ → DmaCall

-- Their answers: the status and the handle of a new buffer, the buffer's physical address, the
-- address of a mapping, and the physical memory after vme_dma_read2, which is given handle, offset,
-- VME address, modifier, size and flags. `translate` is the physical address behind a mapped one.
pub record DmaBus : Type 0 where
  pub create_reply : List DmaCall → ℕ → ℕ → ℕ → ℕ × ℕ
  pub phys_addr_reply : List DmaCall → ℕ → ℕ
  pub ioremap_reply : List DmaCall → ℕ → ℕ → ℕ
  pub read2_memory : List DmaCall → ℕ → ℕ → ℕ → ℕ → ℕ → ℕ → (ℕ → ℕ) → ℕ → ℕ
  pub translate : ℕ → ℕ

-- bbuniverse.h, struct vmectl_dma_t; `*dma_p` is its field `id`.
pub record VmectlDma : Type 0 where
  pub id : ℕ
  pub vaddr : ℕ
  pub size : ℕ
  pub offset : ℕ
  pub am : ℕ
  pub flags : ℕ
  pub paddr : ℕ

-- The globals of univdma.c, the block, and the physical memory, by the byte.
pub record UnivDma : Type 0 where
  pub daq : Daq
  pub dma : VmectlDma
  pub dmaptr : ℕ
  pub dmamapptr : ℕ
  pub doff : ℕ
  pub dmapaddr : ℕ
  pub dmapsize : ℕ
  pub memory : ℕ → ℕ
  pub dma_calls : List DmaCall

-- memcpy of `n` bytes to the word `at`: an odd last byte is the low half of its word.
unfoldable pub memcpy : Memory → ℕ → (ℕ → ℕ) → ℕ → Memory
memcpy m at bytes zero = m
memcpy m at bytes (suc zero) = update m at (m at / 256 * 256 + bytes 0)
memcpy m at bytes (suc (suc n)) =
    memcpy (update m at (bytes 0 + bytes 1 * 256)) (at + 1) (λ k. bytes (k + 2)) n

-- `ps` is the kernel's PAGE_SIZE.
module _ (bus : DmaBus) (ps : ℕ) where
  -- The size of a mapping, rounded up to whole pages.
  unfoldable pub page_rounded : ℕ → ℕ
  page_rounded n = add32 n (if n % ps == 0 then 0 else ps - n % ps)

  unfoldable pub mmp : ℕ → ℕ → UnivDma → ℕ × UnivDma
  mmp paddr size s =
      let doff = paddr % ps in
      let dmapaddr = paddr - doff in
      let dmapsize = page_rounded (add32 size doff) in
      let v = bus.ioremap_reply s.dma_calls dmapaddr dmapsize in
      (
        add32 v doff,
        record s {
          doff = doff;
          dmapaddr = dmapaddr;
          dmapsize = dmapsize;
          dmamapptr = v;
          dma_calls = ioremap dmapaddr dmapsize ∷ s.dma_calls;
        },
      )

  -- The status of vme_dma_buffer_create is not looked at.
  unfoldable pub dma_window : ℕ → UnivDma → UnivDma
  dma_window size s =
      let (status, handle) = bus.create_reply s.dma_calls size 0 0 in
      let cs = buffer_create size 0 0 ∷ s.dma_calls in
      let at = bus.phys_addr_reply cs handle in
      let dma : VmectlDma = record s.dma { id = handle; size = size; flags = 0; paddr = at } in
      let (ptr, t) =
        mmp at size (record s { dma = dma; dma_calls = buffer_phys_addr handle ∷ cs }) in
      record t { dmaptr = ptr }

  unfoldable pub univ_init_dma : ℕ → ℕ → UnivDma → UnivDma
  univ_init_dma vaddr size s =
      let t = dma_window size s in
      record t { dma = record t.dma { vaddr = vaddr; offset = 0; am = 0x0b } }

  unfoldable pub univ_end_dma : UnivDma → UnivDma
  univ_end_dma s = record s {
    dma_calls = buffer_release s.dma.id ∷ vfree s.dmamapptr ∷ s.dma_calls;
  }

  -- The bytes behind a mapped address.
  abbrev pub bytes_at : UnivDma → ℕ → ℕ → ℕ
  bytes_at s ptr k = s.memory (bus.translate (add32 ptr k))

  unfoldable pub univ_dma_segdata : ℕ → UnivDma → ℕ × UnivDma
  univ_dma_segdata size s =
      let d = s.dma in
      let t : UnivDma = record s {
        memory = bus.read2_memory s.dma_calls d.id d.offset d.vaddr d.am size d.flags s.memory;
        dma_calls = read2 d.id d.offset d.vaddr d.am size d.flags ∷ s.dma_calls;
      } in
      let q = t.daq in
      let r : Daq = record q {
        mem = memcpy q.mem (q.base + q.mp) (bytes_at t t.dmaptr) size;
        segmentsize = q.segmentsize + size / 2;
        mp = q.mp + size / 2;
      } in
      (r.segmentsize, record t { daq = r })
