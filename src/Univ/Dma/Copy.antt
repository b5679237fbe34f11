-- ===== src/Univ/Dma/Copy.antt =====
-- What univdma.c copies into the block: the bytes that the bridge was asked for.
use p42018_vmedaq.Common.{
  ℕ, zero, suc, ◌+◌, ◌-◌, ◌*◌, ◌/◌, ◌%◌, ◌^◌, ◌≤◌, ◌<◌, ◌≡◌, refl, ap, ◌∙◌, ◌==◌, Bool-cases, inl,
  inr, List, [], ◌∷◌, Memory, update, add32, write_words, arith,
}
use mathlib.Core.Path.{ap₂}
use native.Mathlib.Nat.{mod-lt, mod-le, div-add-mod, mul-mod_right, add-mod_right}
use p42018_vmedaq.Univ.Dma.{
  DmaCall, buffer_create, buffer_phys_addr, DmaBus, UnivDma, memcpy, page_rounded, mmp, dma_window,
  univ_init_dma, univ_dma_segdata, bytes_at,
}

-- The first `n` words that pairs of these bytes make.
unfoldable pub paired : (ℕ → ℕ) → ℕ → List ℕ
paired bytes zero = []
paired bytes (suc n) = (bytes 0 + bytes 1 * 256) ∷ paired (λ k. bytes (k + 2)) n

-- The bytes two by two are the words that a copy of an even number of bytes writes.
memcpy-paired :
    (n : ℕ) (m : Memory) (at : ℕ) (bytes : ℕ → ℕ)
    → memcpy m at bytes (n * 2) ≡ write_words m at (paired bytes n)
unfolding memcpy paired write_words
memcpy-paired zero m at bytes = refl
memcpy-paired (suc n) m at bytes =
    let e : suc n * 2 ≡ suc (suc (n * 2)) = omega arith in
    let m' = update m at (bytes 0 + bytes 1 * 256) in
    ap (memcpy m at bytes) e ∙ memcpy-paired n m' (at + 1) (λ k. bytes (k + 2))

paired_ext : (n : ℕ) {f g : ℕ → ℕ} → ((k : ℕ) → k < n * 2 → f k ≡ g k) → paired f n ≡ paired g n
unfolding paired
paired_ext zero h = refl
paired_ext (suc n) h =
    ap₂ (λ w ws. w ∷ ws) (ap₂ (λ a b. a + b * 256) (h 0 (omega arith)) (h 1 (omega arith)))
      (paired_ext n (λ k small. h (k + 2) (omega arith)))

module _ (ps : ℕ) (some : 0 < ps) where
  aligned : (n : ℕ) → (n - n % ps) % ps ≡ 0
  aligned n =
      let e : n - n % ps ≡ ps * (n / ps) = omega (arith, div-add-mod n ps) in
      ap (λ k. k % ps) e ∙ mul-mod_right ps (n / ps)

module _ (bus : DmaBus) (ps : ℕ) (some : 0 < ps) where
  -- Whole pages, enough and less than one too many.
  page_rounded_lem :
      (n : ℕ)
      → n + ps ≤ 2 ^ 32
      → (n ≤ page_rounded bus ps n)
        × (page_rounded bus ps n < n + ps)
        × (page_rounded bus ps n % ps ≡ 0)
  unfolding page_rounded
  page_rounded_lem n fits =
      let small = mod-lt n some in
      elim (Bool-cases (n % ps == 0)) [
        | inl whole ↦
            let e : (n + 0) % 2 ^ 32 ≡ n = omega arith in
            let z : n % ps ≡ 0 = ground (arith, whole) in
            rw whole (omega (arith, e), omega (arith, e), ap (λ k. k % ps) e ∙ z)
        | inr part ↦
            let nonzero : 0 < n % ps = ground (arith, part) in
            let within : n % ps ≤ n = omega (arith, div-add-mod n ps) in
            let e : (n + (ps - n % ps)) % 2 ^ 32 ≡ n - n % ps + ps = omega arith in
            rw part (
              omega (arith, e),
              omega (arith, e),
              ap (λ k. k % ps) e ∙ add-mod_right (n - n % ps) ps ∙ aligned ps some n,
            )
      ]

-- What univdma.c relies on: ioremap maps whole pages, a buffer stays where it is, and
-- vme_dma_read2 puts the bytes that the VME bus answers at an address, under a modifier, behind the
-- offset in the buffer.
pub record Serves (bus : DmaBus) (ps : ℕ) (address : ℕ → ℕ) (answer : ℕ → ℕ → ℕ → ℕ) : Type 0 where
  pub maps :
      (cs : List DmaCall) (p n i : ℕ)
      → p % ps ≡ 0
      → n % ps ≡ 0
      → p + n ≤ 2 ^ 32
      → i < n
      → bus.translate (add32 (bus.ioremap_reply cs p n) i) ≡ p + i
  pub stays : (cs : List DmaCall) (handle : ℕ) → bus.phys_addr_reply cs handle ≡ address handle
  pub reads :
      (cs : List DmaCall) (handle offset vaddr am size flags : ℕ) (memory : ℕ → ℕ) (i : ℕ)
      → i < size
      → bus.read2_memory cs handle offset vaddr am size flags memory (address handle + offset + i)
        ≡ answer vaddr am i

module _ (bus : DmaBus) (ps : ℕ) (address : ℕ → ℕ) (answer : ℕ → ℕ → ℕ → ℕ) (some : 0 < ps)
    (serves : Serves bus ps address answer) where
  -- The bytes behind the pointer of `mmp` are those from the physical address on.
  mmp_lem :
      (paddr size : ℕ) (s : UnivDma) (k : ℕ)
      → paddr + size + ps ≤ 2 ^ 32
      → size + ps + ps ≤ 2 ^ 32
      → k < size
      → bus.translate (add32 (mmp bus ps paddr size s).0 k) ≡ paddr + k
  unfolding mmp
  mmp_lem paddr size s k below fits small =
      let doff = paddr % ps in
      let within = mod-lt paddr some in
      let le = mod-le paddr ps in
      let sum : add32 size doff ≡ size + doff = omega arith in
      let (enough, tight, whole) =
        page_rounded_lem bus ps some (add32 size doff) (omega (arith, sum)) in
      let n = page_rounded bus ps (add32 size doff) in
      let v = bus.ioremap_reply s.dma_calls (paddr - doff) n in
      let e : add32 (add32 v doff) k ≡ add32 v (doff + k) = omega arith in
      ap bus.translate e
      ∙ serves.maps s.dma_calls (paddr - doff) n (doff + k) (aligned ps some paddr) whole
          (omega (arith, tight, sum)) (omega (arith, enough, sum))
      ∙ omega arith

  -- A buffer of `size` bytes was set up for an address of the VME bus: a read of an even number of
  -- bytes, no more than the buffer has, writes the bytes that the bus answers at that address, two
  -- by two, behind the block's other words, whatever page offset the buffer has, and counts these
  -- words in the segment and in the block.
  pub univ_dma_lem :
      (vaddr size n : ℕ) (s : UnivDma)
      → address (bus.create_reply s.dma_calls size 0 0).1 + size + ps ≤ 2 ^ 32
      → size + ps + ps ≤ 2 ^ 32
      → n * 2 ≤ size
      → let d = s.daq in
        let r = univ_dma_segdata bus ps (n * 2) (univ_init_dma bus ps vaddr size s) in
        (r.0 ≡ d.segmentsize + n)
        × (r.1.daq ≡ record d {
          mem = write_words d.mem (d.base + d.mp) (paired (answer vaddr 0x0b) n);
          segmentsize = d.segmentsize + n;
          mp = d.mp + n;
        })
  unfolding univ_dma_segdata univ_init_dma dma_window mmp
  univ_dma_lem vaddr size n s below fits held =
      let (_, handle) = bus.create_reply s.dma_calls size 0 0 in
      let cs = buffer_create size 0 0 ∷ s.dma_calls in
      let at = bus.phys_addr_reply cs handle in
      let t = univ_init_dma bus ps vaddr size s in
      let u = (univ_dma_segdata bus ps (n * 2) t).1 in
      let d = s.daq in
      let halved : n * 2 / 2 ≡ n = omega arith in
      let mapped : UnivDma = record s {
        dma = record s.dma { id = handle; size = size; flags = 0; paddr = at };
        dma_calls = buffer_phys_addr handle ∷ cs;
      } in
      let here : (k : ℕ) → k < n * 2 → bytes_at bus ps u t.dmaptr k ≡ answer vaddr 0x0b k =
        λ k small.
          let e : at + k ≡ address handle + 0 + k = omega (arith, serves.stays cs handle) in
          ap u.memory (
            mmp_lem at size mapped k (omega (arith, serves.stays cs handle, below)) fits
              (omega arith)
            ∙ e)
          ∙ serves.reads t.dma_calls handle 0 vaddr 0x0b (n * 2) 0 s.memory k small in
      let words : memcpy d.mem (d.base + d.mp) (bytes_at bus ps u t.dmaptr) (n * 2)
          ≡ write_words d.mem (d.base + d.mp) (paired (answer vaddr 0x0b) n) =
        memcpy-paired n d.mem (d.base + d.mp) (bytes_at bus ps u t.dmaptr)
        ∙ ap (write_words d.mem (d.base + d.mp)) (paired_ext n here) in
      (
        ap (λ k. d.segmentsize + k) halved,
        λ i. record d {
          mem = words i;
          segmentsize = d.segmentsize + halved i;
          mp = d.mp + halved i;
        },
      )
