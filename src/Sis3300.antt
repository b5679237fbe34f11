-- ===== src/Sis3300.antt =====
-- sis3300.c: a flash ADC whose memory of 0x20000 long words is filled round and round; the readout
-- takes a window of it that ends at the trigger.
pub mod Window
use p42018_vmedaq.Common.{
  ℕ, zero, suc, ◌+◌, ◌-◌, ◌*◌, ◌%◌, ◌^◌, ◌<◌, ◌≤◌, ◌≡◌, refl, sym, ap, ◌∙◌, List, [], ◌∷◌, ◌++◌,
  Bool, true, false, ltb, leb, ◌==◌, if◌then◌else◌, length, add32, bit_and, bit_and-0x1ffff, bit_or,
  write_words, Bool-cases, inl, inr, arith,
}
use p42018_vmedaq.Device.{Device, History, read32}
use p42018_vmedaq.Daq.{
  Daq, M, ◌>>=◌, ◌>>◌, pure, gets, load_word, vread32, vread32_at_mp, vwrite32, advance, took,
  low_word, high_word,
}
use p42018_vmedaq.Daq.Readout.{
  words_of, take_long, take_long_lem, took-took, took-nil, history_after,
}

-- sis3300.h
abbrev pub reg_trigger_evt_dir_bank1 : ℕ
reg_trigger_evt_dir_bank1 = 0x101000

abbrev pub reg_membase_bank1 : ℕ
reg_membase_bank1 = 0x400000

abbrev pub reg_banksize : ℕ
reg_banksize = 0x080000

abbrev pub reg_event_config_adc12 : ℕ
reg_event_config_adc12 = 0x200000

abbrev pub reg_event_config_adc34 : ℕ
reg_event_config_adc34 = 0x280000

abbrev pub reg_event_config_adc56 : ℕ
reg_event_config_adc56 = 0x300000

abbrev pub reg_event_config_adc78 : ℕ
reg_event_config_adc78 = 0x380000

abbrev pub reg_event_config_all_adc : ℕ
reg_event_config_all_adc = 0x100000

abbrev pub reg_acq_ctrl : ℕ
reg_acq_ctrl = 0x10

abbrev pub reg_stop_delay : ℕ
reg_stop_delay = 0x18

abbrev pub reg_trigger_threshold_adc12 : ℕ
reg_trigger_threshold_adc12 = 0x200004

abbrev pub reg_orbit_s : ℕ
reg_orbit_s = 0x4000

abbrev pub reg_usrbit_s : ℕ
reg_usrbit_s = 0x8000

-- The rule for ending: neither bit is set in the low half of the long word.
abbrev pub goes_on : ℕ → Bool
goes_on w = bit_and w (bit_or reg_orbit_s reg_usrbit_s) == 0

-- adptr += 1; if(adptr >= 0x00020000) adptr -= 0x00020000;
abbrev pub next_adptr : ℕ → ℕ
next_adptr adptr = let next = adptr + 1 in if leb 0x20000 next then next - 0x20000 else next

-- The first value of `adptr`, for `max` at most 3500; a negative number has 0x20000 added.
abbrev pub first_adptr : ℕ → ℕ → ℕ
first_adptr v max =
    let at = bit_and v 0x1ffff in if ltb at max then 0x20000 + at - max else at - max

module _ (dev : Device) where
  -- A long word taken, and its low half, `data[mp - 2]`.
  unfoldable pub ring_take : ℕ → M ℕ
  ring_take addr = do take_long dev addr; i ← gets (λ d. d.mp); load_word (i - 2)

  -- The loop, by the rounds left.
  unfoldable pub sis3300_while : ℕ → ℕ → ℕ → M (Unit {0})
  sis3300_while bank zero adptr = pure tt
  sis3300_while bank (suc left) adptr = do
    let next = next_adptr adptr
    w ← ring_take (add32 bank (next * 4))
    let rest = sis3300_while bank left next
    if goes_on w then rest else pure tt

  unfoldable pub sis3300_segdata_pre : ℕ → ℕ → ℕ → M ℕ
  sis3300_segdata_pre maddr gr max = do
    let graddr = reg_banksize * gr
    let count = if ltb 3500 max then 3500 else max
    v ← vread32 dev (add32 maddr reg_trigger_evt_dir_bank1)
    sis3300_while (add32 (add32 maddr reg_membase_bank1) graddr) count (first_adptr v count)
    gets (λ d. d.segmentsize)

  unfoldable pub sis3300_readth : ℕ → ℕ → M ℕ
  sis3300_readth maddr gr =
      vread32 dev (add32 maddr (reg_trigger_threshold_adc12 + reg_banksize * gr))

unfoldable pub sis3300_set_mode : ℕ → ℕ → M (Unit {0})
sis3300_set_mode maddr mode = do
  vwrite32 (add32 maddr reg_event_config_adc12) mode
  vwrite32 (add32 maddr reg_event_config_adc34) mode
  vwrite32 (add32 maddr reg_event_config_adc56) mode
  vwrite32 (add32 maddr reg_event_config_adc78) mode
  vwrite32 (add32 maddr reg_event_config_all_adc) mode

unfoldable pub sis3300_acq_ctrl : ℕ → ℕ → M (Unit {0})
sis3300_acq_ctrl maddr mode = vwrite32 (add32 maddr reg_acq_ctrl) mode

unfoldable pub sis3300_stop_delay : ℕ → ℕ → M (Unit {0})
sis3300_stop_delay maddr size = vwrite32 (add32 maddr reg_stop_delay) size

unfoldable pub sis3300_writeth : ℕ → ℕ → ℕ → M (Unit {0})
sis3300_writeth maddr gr val =
    vwrite32 (add32 maddr (reg_trigger_threshold_adc12 + reg_banksize * gr)) val
