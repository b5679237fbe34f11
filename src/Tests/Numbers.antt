-- ===== src/Tests/Numbers.antt =====
-- Segment numbers, and readouts by DMA and from a memory module, at concrete values.
use p42018_vmedaq.Common.{
  ◌+◌, ◌-◌, ◌*◌, ◌%◌, ◌^◌, ◌<◌, ◌≡◌, refl, leb, if◌then◌else◌, [], ◌∷◌, arith, some, pos,
  write_words,
}
use p42018_vmedaq.Device.{dma_start, dma_store, dma_start_i, dma_store_i, delay}
use p42018_vmedaq.Bbrl.{init_segment, dmasegdata, dmasegdata_i, dmadelaymax}
use p42018_vmedaq.Bbrl.Dma.{outcome, polled, dmasegdata_lem}
use p42018_vmedaq.Bbrl.Camac.{Camac}
use p42018_vmedaq.Bbrl.Camac.Memory.{read_segmemmod, read_segmemmod_lem, memory_history}
use p42018_vmedaq.Caen.Scaler.{placed}
use p42018_vmedaq.SegmentId.Places.{bigrips, f7, experiment_code, focal_code}
use p42018_vmedaq.SegmentId.Detectors.{plaq, detector_code}
use p42018_vmedaq.SegmentId.Modules.{v792, module_code}
use p42018_vmedaq.SegmentId.Packing.{listed, parts, parts_of, parts-listed}
use p42018_vmedaq.Univ.Dma.{DmaBus, UnivDma, univ_dma_segdata, univ_init_dma}
use p42018_vmedaq.Univ.Dma.Copy.{Serves, paired, univ_dma_lem}
use p42018_vmedaq.Tests.Data.{asserting, nearly_full}

parts-listed_example :
    (listed bigrips f7 plaq v792 < 2 ^ 26)
    × (parts (listed bigrips f7 plaq v792)
        ≡ parts_of
            (experiment_code bigrips)
            (focal_code f7)
            (detector_code plaq)
            (module_code v792))
    × (parts (
          (init_segment (listed bigrips f7 plaq v792) nearly_full).1.mem
            (nearly_full.base + (nearly_full.mp + 1)))
        ≡ parts_of 0 (focal_code f7 % 4) (detector_code plaq) (module_code v792))
parts-listed_example = parts-listed bigrips f7 plaq v792 nearly_full

dmasegdata_lem_example :
    (dmasegdata asserting 64 3 nearly_full
      ≡ outcome asserting 3 nearly_full (
          polled asserting
            (dma_store 12)
            dmadelaymax
            (delay ∷ dma_start 64 12 ∷ nearly_full.calls)))
    × (dmasegdata_i asserting 64 3 1 nearly_full
        ≡ outcome asserting 3 nearly_full (
            polled asserting
              (dma_store_i 12 1)
              dmadelaymax
              (delay ∷ dma_start_i 64 12 1 ∷ nearly_full.calls)))
dmasegdata_lem_example = dmasegdata_lem asserting 64 3 1 nearly_full (omega arith)

-- A buffer in the middle of a page, and a bus that answers the number of each byte.
abbrev odd_bus : DmaBus
odd_bus = record {
  create_reply = λ cs size flags paddr. (0, 5);
  phys_addr_reply = λ cs handle. 0x1234;
  ioremap_reply = λ cs p n. p;
  read2_memory = λ cs handle offset vaddr am size flags memory x.
      if leb (0x1234 + offset) x then x - (0x1234 + offset) else memory x;
  translate = λ p. p;
}

odd-Serves : Serves odd_bus 0x1000 (λ handle. 0x1234) (λ vaddr am i. i)
odd-Serves = record {
  maps = λ cs p n i start whole below small. omega arith;
  stays = λ cs handle. refl;
  reads = λ cs handle offset vaddr am size flags memory i small. ground arith;
}

abbrev before_dma : UnivDma
before_dma = record {
  daq = nearly_full;
  dma = record { id = 0; vaddr = 0; size = 0; offset = 0; am = 0; flags = 0; paddr = 0 };
  dmaptr = 0;
  dmamapptr = 0;
  doff = 0;
  dmapaddr = 0;
  dmapsize = 0;
  memory = λ x. 0;
  dma_calls = [];
}

univ_dma_lem_example :
    let r =
      univ_dma_segdata odd_bus 0x1000 (6 * 2) (univ_init_dma odd_bus 0x1000 0 0x400 before_dma) in
    (r.0 ≡ nearly_full.segmentsize + 6)
    × (r.1.daq ≡ record nearly_full {
      mem = write_words nearly_full.mem (nearly_full.base + nearly_full.mp) (paired (λ i. i) 6);
      segmentsize = nearly_full.segmentsize + 6;
      mp = nearly_full.mp + 6;
    })
univ_dma_lem_example =
    univ_dma_lem odd_bus 0x1000 (λ handle. 0x1234) (λ vaddr am i. i) (omega arith) odd-Serves 0
      0x400 6 before_dma (omega arith) (omega arith) (omega arith)

-- A memory module that holds two words.
abbrev two_words : Camac
two_words = record {
  cnafgen = λ c n a f. f;
  qscan = 0;
  qignore = 1;
  qrepeat = 2;
  qstop = 3;
  word_reply = λ cs cnaf. 2;
  long_reply = λ cs cnaf. 0;
  block_words = λ cs call. 7 ∷ 8 ∷ [];
  block_count = λ cs call. 2;
}

read_segmemmod_lem_example :
    read_segmemmod two_words 9 0 4 nearly_full
    ≡ some (
      pos 5,
      record (placed
          (5 ∷ 9 ∷ 2 ∷ 7 ∷ 8 ∷ [])
          (memory_history two_words 0 4 nearly_full.calls)
          nearly_full) { eventsize = nearly_full.eventsize + 5 },
    )
read_segmemmod_lem_example = read_segmemmod_lem two_words 9 0 4 nearly_full (omega arith) refl
