-- ===== src/Tests/Boards.antt =====
-- The theorems on the other framings and modules, and on loading the driver, at concrete states.
use p42018_vmedaq.Common.{
  ◌+◌, ◌*◌, ◌%◌, ◌≤◌, ◌≡◌, refl, true, false, List, [], ◌∷◌, length, slice, drop, add32, arith,
}
use p42018_vmedaq.Device.{read32}
use p42018_vmedaq.Daq.{Daq, took}
use p42018_vmedaq.Daq.Readout.{words_of, history_after}
use p42018_vmedaq.Bbrl.Camac.Framed.{camac_words}
use p42018_vmedaq.Marked.{Read, answers, parse_marked}
use p42018_vmedaq.Marked.Iwadaq
use p42018_vmedaq.Marked.Bbdaq
use p42018_vmedaq.Marked.Iwadaq.{read_block_lem}
use p42018_vmedaq.Marked.Bbdaq.{Bbdaq, read_block_numbered}
use p42018_vmedaq.Sis3300.{
  reg_trigger_evt_dir_bank1, reg_membase_bank1, reg_banksize, sis3300_segdata_pre,
}
use p42018_vmedaq.Sis3300.Window.{
  ring_longs, ring_address, window, before_window, sis3300_segdata_pre_lem,
}
use p42018_vmedaq.Rpv130.Modifier.{
  Operation, output, take, reset, operate_all, operate_all_short, amsr, outside,
}
use p42018_vmedaq.Caen.{v7xx_segdata, v7xx_clear, v1x90_soft_clear}
use p42018_vmedaq.Caen.Registers.{v1x90_reg_soft_clear}
use p42018_vmedaq.Madc32.{madc32_segdata, madc32_readout_reset}
use p42018_vmedaq.Univ.{
  Univ, v7xx_multi_map_segdata, v7xx_multi_map_clear, v1x90_multi_map_clear, madc32_map_segdata,
  madc32_map_clear,
}
use p42018_vmedaq.Univ.Window.{through, window_device, window_lem}
use p42018_vmedaq.Nbbqdrv.Module.{
  Module, Kernel, refused, granted, installed, init_module, cleanup_module, irq_held, chrdev_held,
  init_module-granted,
}
use p42018_vmedaq.Tests.Data.{crate, asserting, nearly_full, one_waits}

abbrev two_reads : List Read
two_reads =
    record { len = 2; c = 0; n = 3; a = 0; f = 0 }
    ∷ record { len = 1; c = 0; n = 4; a = 2; f = 2 }
    ∷ []

abbrev fresh : Daq
fresh = record nearly_full { mp = 0 }

read_block_lem_example :
    let wss = answers crate 2 two_reads fresh.calls in
    let e = (Iwadaq.read_block crate two_reads fresh).1 in
    let block = slice e.mem e.base e.mp in
    (block ≡ Iwadaq.block_words wss) × (parse_marked 2 (length wss) (drop 4 block) ≡ wss)
unfolding answers camac_words
read_block_lem_example = read_block_lem crate two_reads fresh (omega arith, (omega arith, tt))

abbrev numbered : Bbdaq
numbered = record { daq = fresh; blkid = 7 }

read_block_numbered_example :
    let wss = answers crate 0 two_reads fresh.calls in
    let t = (Bbdaq.read_block crate two_reads numbered).1 in
    let block = slice t.daq.mem t.daq.base t.daq.mp in
    (block ≡ Bbdaq.block_words 7 wss)
    × (parse_marked 0 (length wss) (drop 3 block) ≡ wss)
    × (t.blkid ≡ 8)
unfolding answers camac_words
read_block_numbered_example =
    read_block_numbered crate two_reads numbered (omega arith, (omega arith, tt))

sis3300_example :
    let dir = add32 0x1000000 reg_trigger_evt_dir_bank1 in
    let bank = add32 (add32 0x1000000 reg_membase_bank1) (reg_banksize * 1) in
    let v = asserting.read32_reply nearly_full.calls dir in
    let k = before_window v 4 + 1 in
    let cs = read32 dir ∷ nearly_full.calls in
    let vs = ring_longs asserting bank (window 4) k cs in
    ((sis3300_segdata_pre asserting 0x1000000 1 4 nearly_full).1
      ≡ took (words_of vs) (history_after (ring_address bank) (length vs) k cs) nearly_full)
    × (length vs ≤ window 4)
    × ((before_window v 4 + window 4) % 0x20000 ≡ v % 0x20000)
sis3300_example = sis3300_segdata_pre_lem asserting 0x1000000 1 4 nearly_full

abbrev three_operations : List Operation
three_operations = output 0xffff0000 1 ∷ take 0xffff0000 6 ∷ reset 0xffff0000 ∷ []

operate_all_short_example :
    let cs = (operate_all asserting three_operations nearly_full).1.calls in
    (amsr cs ≡ 0x09) × (outside cs ≡ outside nearly_full.calls)
operate_all_short_example = operate_all_short asserting three_operations nearly_full refl

-- A kernel that grants the device number and refuses the interrupt line.
abbrev busy_kernel : Kernel
busy_kernel = record {
  register_reply = λ cs major. granted 250;
  request_reply = λ cs irq. refused 16;
  irq = 11;
}

abbrev unloaded : Module
unloaded = record { driver = one_waits; nbbqdrv_major = 0; girq = 0; kernel = [] }

init_module-granted_example :
    let r = init_module busy_kernel unloaded in
    let c = cleanup_module r.1 in
    (r.0 ≡ installed)
    × (irq_held 11 r.1.kernel ≡ false)
    × (r.1.nbbqdrv_major ≡ 250)
    × (chrdev_held 250 r.1.kernel ≡ true)
    × (irq_held 11 c.kernel ≡ false)
    × (chrdev_held 250 c.kernel ≡ false)
init_module-granted_example = init_module-granted busy_kernel unloaded 250 refl

-- A bridge whose windows answer a header, and the length of two long words.
abbrev bridge : Univ
bridge = record {
  map_read16_reply = λ cs off n. 2;
  map_read32_reply = λ cs off n. 0x42400000;
  dma_words = λ cs size n. [];
}

window_example :
    let dev = window_device bridge 3 in
    let r = v7xx_segdata dev 0x100 nearly_full in
    let q = madc32_segdata dev 0 nearly_full in
    let start = through 3 nearly_full in
    (v7xx_multi_map_segdata bridge 0x100 3 start ≡ (r.0, through 3 r.1))
    × (madc32_map_segdata bridge 3 start ≡ (q.0, through 3 q.1))
    × ((v7xx_multi_map_clear 0x100 3 start).1 ≡ through 3 (v7xx_clear 0x100 nearly_full).1)
    × ((v1x90_multi_map_clear 0x100 3 start).1
        ≡ through 3 (v1x90_soft_clear 0x100 v1x90_reg_soft_clear nearly_full).1)
    × ((madc32_map_clear 3 start).1 ≡ through 3 (madc32_readout_reset 0 1 nearly_full).1)
window_example = window_lem bridge 3 0x100 nearly_full
