-- ===== src/Tests/Readouts.antt =====
-- The theorems on readouts and framing, at a concrete device and state.
use p42018_vmedaq.Common.{◌+◌, ◌-◌, ◌*◌, ◌≤◌, ◌≡◌, [], ◌∷◌, add32, write_words, some, arith}
use p42018_vmedaq.Device.{read16}
use p42018_vmedaq.Daq.{◌>>=◌, ◌>>◌}
use p42018_vmedaq.Daq.Readout.{words_of, drained, history_after, longs_while}
use p42018_vmedaq.Bbrl.{half, init_segment, end_segment}
use p42018_vmedaq.Madc32.Dma.{madc32_dmasegdata, after_windows, madc32_dmasegdata_lem}
use p42018_vmedaq.Caen.Registers.{v1x90_out_buff, v560_nch}
use p42018_vmedaq.Caen.{v7xx_segdata, v1x90_segdata, v560_read_scaler32_mod}
use p42018_vmedaq.Caen.Readout.{v7xx_longs, v7xx_segdata_lem}
use p42018_vmedaq.Caen.Tdc.{v1x90_longs, until_trailer, v1x90_segdata_lem, v1x90_segdata-bounded}
use p42018_vmedaq.Caen.Scaler.{counts, counter, v560_read_scaler32_mod_lem}
use p42018_vmedaq.Madc32.Registers.{reg_data, reg_buffer_data_length}
use p42018_vmedaq.Madc32.{madc32_segdata}
use p42018_vmedaq.Madc32.Readout.{answers, madc32_segdata_lem}
use p42018_vmedaq.Handlers.{madc32adr, v1190_adr, v560_adr}
use p42018_vmedaq.Converters.Frame.{unframed}
use p42018_vmedaq.Converters.V785.{v785_segdata, v785_segmod, v785_segmod-framed}
use p42018_vmedaq.Bbrl.Camac.{read_segndata, read_segmod}
use p42018_vmedaq.Bbrl.Camac.Framed.{read_segmod-framed}
use p42018_vmedaq.Tests.Data.{crate, asserting, nearly_full}

-- A header and an end of block.
v7xx_segdata_example :
    v7xx_segdata asserting 0 nearly_full ≡ (4, drained 0 (0x42400000 ∷ 0x84200000 ∷ []) nearly_full)
unfolding v7xx_longs longs_while words_of
v7xx_segdata_example = v7xx_segdata_lem asserting 0 nearly_full

v1x90_segdata_example : v1x90_segdata asserting v1190_adr nearly_full ≡ (
  4,
  drained
      (add32 v1190_adr v1x90_out_buff)
      (0x42400000 ∷ 0x84200000 ∷ [])
      (record nearly_full { calls = read16 (add32 v1190_adr 0x1020) ∷ nearly_full.calls }),
)
unfolding v1x90_longs until_trailer words_of
v1x90_segdata_example = v1x90_segdata_lem asserting v1190_adr nearly_full

v1x90_bounded_example :
    let r = v1x90_segdata asserting v1190_adr nearly_full in
    (r.0 ≡ r.1.segmentsize)
    × (0x1e00 + r.0 ≡ r.1.mp + 0)
    × (0x1e00 + 2 ≤ r.1.mp)
    × (r.1.mp ≤ 0x1e00 + 20002)
v1x90_bounded_example = v1x90_segdata-bounded asserting v1190_adr nearly_full

v560_example : (v560_read_scaler32_mod asserting v560_adr nearly_full).1 ≡ record nearly_full {
  mem =
      write_words nearly_full.mem
        (half + (half - v560_nch * 2))
        (words_of (counts asserting v560_adr 0 v560_nch nearly_full.calls));
  mp = half;
  calls = history_after (counter v560_adr) v560_nch 0 nearly_full.calls;
}
v560_example = v560_read_scaler32_mod_lem asserting v560_adr nearly_full

madc32_segdata_example : madc32_segdata asserting madc32adr nearly_full ≡ (
  4,
  drained (add32 madc32adr reg_data) (0x42400000 ∷ 0x84200000 ∷ []) (record nearly_full {
    calls = read16 (add32 madc32adr reg_buffer_data_length) ∷ nearly_full.calls;
  }),
)
unfolding answers words_of
madc32_segdata_example = madc32_segdata_lem asserting madc32adr nearly_full

v785_segmod_example :
    let framed = (init_segment 5 >> v785_segdata asserting 0 >>= λ _. end_segment) nearly_full in
    v785_segmod asserting 5 0 nearly_full ≡ (framed.1.segmentsize, unframed nearly_full framed.1)
v785_segmod_example = v785_segmod-framed asserting 5 0 nearly_full

-- Three long words are one window.
madc32_dmasegdata_example :
    let r = after_windows asserting madc32adr 12 1 0 (λ x. x, nearly_full.calls) in
    madc32_dmasegdata asserting madc32adr 3 (λ x. x) nearly_full
    ≡ some ((0x800, r.0), record nearly_full { calls = r.1 })
madc32_dmasegdata_example =
    madc32_dmasegdata_lem asserting madc32adr 3 (λ x. x) nearly_full (omega arith)

read_segmod_example :
    let framed =
      (init_segment 5 >> read_segndata crate 3 0 2 0 4 >>= λ _. end_segment) nearly_full in
    read_segmod crate 3 5 0 2 0 4 nearly_full
    ≡ (framed.1.segmentsize, unframed nearly_full framed.1)
read_segmod_example = read_segmod-framed crate 0 2 4 3 5 0 nearly_full
