-- ===== src/Sis3300/Window.antt =====
-- The window of the ring buffer that sis3300_segdata_pre reads.
use p42018_vmedaq.Common.{
  ℕ, zero, suc, ◌+◌, ◌-◌, ◌*◌, ◌%◌, ◌≤◌, ◌≡◌, sym, ap, ◌∙◌, List, [], ◌∷◌, ltb, if◌then◌else◌,
  length, add32, bit_and, bit_and-0x1ffff, write_words, Bool-cases, inl, inr, arith,
}
use p42018_vmedaq.Device.{Device, History, read32}
use p42018_vmedaq.Daq.{Daq, took, low_word}
use p42018_vmedaq.Daq.Readout.{words_of, take_long_lem, took-took, took-nil, history_after}
use p42018_vmedaq.Sis3300.{
  reg_trigger_evt_dir_bank1, reg_membase_bank1, reg_banksize, goes_on, next_adptr, first_adptr,
  ring_take, sis3300_while, sis3300_segdata_pre,
}

-- The address of the long word with this number, counted round and round.
abbrev pub ring_address : ℕ → ℕ → ℕ
ring_address bank k = add32 bank (k % 0x20000 * 4)

-- The rounds of the readout, and the number of the first long word but one.
abbrev pub window : ℕ → ℕ
window max = if ltb 3500 max then 3500 else max

abbrev pub before_window : ℕ → ℕ → ℕ
before_window v max = v % 0x20000 + 0x20000 - window max

module _ (dev : Device) where
  -- What the loop takes, in terms of the answers: from a number on, until a long word ends it.
  unfoldable pub ring_longs : ℕ → ℕ → ℕ → History → List ℕ
  ring_longs bank zero k cs = []
  ring_longs bank (suc left) k cs =
      let addr = ring_address bank k in
      let v = dev.read32_reply cs addr in
      let rest = ring_longs bank left (k + 1) (read32 addr ∷ cs) in
      v ∷ (if goes_on (low_word v) then rest else [])

  first_word :
      (v : ℕ) (cs : History) (d : Daq)
      → let d' = took (words_of (v ∷ [])) cs d in d'.mem (d'.base + (d'.mp - 2)) ≡ low_word v
  unfolding words_of write_words
  first_word v cs d = ground arith

  ring_take_lem :
      (addr : ℕ) (d : Daq)
      → let v = dev.read32_reply d.calls addr in
        ring_take dev addr d ≡ (low_word v, took (words_of (v ∷ [])) (read32 addr ∷ d.calls) d)
  unfolding ring_take
  ring_take_lem addr d =
      let v = dev.read32_reply d.calls addr in
      let cs = read32 addr ∷ d.calls in
      rw (take_long_lem dev addr d) (λ i. (first_word v cs d i, took (words_of (v ∷ [])) cs d))

  sis3300_while_lem :
      (bank left k : ℕ) (d : Daq)
      → let vs = ring_longs bank left (k + 1) d.calls in
        (sis3300_while dev bank left (k % 0x20000) d).1
        ≡ took (words_of vs) (history_after (ring_address bank) (length vs) (k + 1) d.calls) d
  unfolding sis3300_while ring_longs history_after words_of
  sis3300_while_lem bank zero k d = sym (took-nil d)
  sis3300_while_lem bank (suc left) k d =
      let addr = ring_address bank (k + 1) in
      let v = dev.read32_reply d.calls addr in
      let cs = read32 addr ∷ d.calls in
      let d' = took (words_of (v ∷ [])) cs d in
      let rest = ring_longs bank left (k + 1 + 1) cs in
      let at : next_adptr (k % 0x20000) ≡ (k + 1) % 0x20000 = ground arith in
      rw (at, ring_take_lem addr d)
        (elim (Bool-cases (goes_on (low_word v))) [
          | inl go ↦ rw go (
              sis3300_while_lem bank left (k + 1) d'
              ∙ took-took (words_of (v ∷ [])) (words_of rest) cs
                  (history_after (ring_address bank) (length rest) (k + 1 + 1) cs) d)
          | inr stop ↦ rw stop
        ])

  length-ring_longs : (bank left k : ℕ) (cs : History) → length (ring_longs bank left k cs) ≤ left
  unfolding ring_longs
  length-ring_longs bank zero k cs = omega arith
  length-ring_longs bank (suc left) k cs =
      ground (arith, length-ring_longs bank left (k + 1) (read32 (ring_address bank k) ∷ cs))

  -- `sis3300_segdata_pre` reads the directory and then takes long words of the ring buffer, one
  -- after another round its end, up to the first with an end bit in its low half, and `max` or
  -- 3500 at most; the last one of a full window is the one that the directory points to.
  pub sis3300_segdata_pre_lem :
      (maddr gr max : ℕ) (d : Daq)
      → let dir = add32 maddr reg_trigger_evt_dir_bank1 in
        let bank = add32 (add32 maddr reg_membase_bank1) (reg_banksize * gr) in
        let v = dev.read32_reply d.calls dir in
        let k = before_window v max + 1 in
        let cs = read32 dir ∷ d.calls in
        let vs = ring_longs bank (window max) k cs in
        ((sis3300_segdata_pre dev maddr gr max d).1
          ≡ took (words_of vs) (history_after (ring_address bank) (length vs) k cs) d)
        × (length vs ≤ window max)
        × ((before_window v max + window max) % 0x20000 ≡ v % 0x20000)
  unfolding sis3300_segdata_pre
  sis3300_segdata_pre_lem maddr gr max d =
      let dir = add32 maddr reg_trigger_evt_dir_bank1 in
      let bank = add32 (add32 maddr reg_membase_bank1) (reg_banksize * gr) in
      let v = dev.read32_reply d.calls dir in
      let cs = read32 dir ∷ d.calls in
      let d' : Daq = record d { calls = cs } in
      let mask : bit_and v 0x1ffff ≡ v % 0x20000 = bit_and-0x1ffff v in
      let small : window max ≤ 3500 = ground arith in
      let start : first_adptr v (window max) ≡ before_window v max % 0x20000 =
        ground (arith, mask, small) in
      (
        ap (λ k. (sis3300_while dev bank (window max) k d').1) start
            ∙ sis3300_while_lem bank (window max) (before_window v max) d',
        length-ring_longs bank (window max) (before_window v max + 1) cs,
        omega (arith, small),
      )
