-- ===== src/Caen/Scaler.antt =====
-- babirldrvcaen.c, v560_read_scaler32_mod: the counters at the end of the block.
use p42018_vmedaq.Common.{
  ℕ, zero, suc, ◌+◌, ◌*◌, ◌-◌, ◌≡◌, refl, ap, ◌∙◌, sym, List, [], ◌∷◌, length, arith, add32,
  write_words,
}
use p42018_vmedaq.Device.{Device, History, read32}
use p42018_vmedaq.Daq.{Daq, took, ◌>>◌, modify, vread32_at_mp}
use p42018_vmedaq.Daq.Readout.{words_of, took-nil, took-took, length-words_of, history_after}
use p42018_vmedaq.Bbrl.{half}
use p42018_vmedaq.Caen.Registers.{v560_counter_0, v560_nch}
use p42018_vmedaq.Caen.{v560_counters_mod, v560_read_scaler32_mod}

-- The address of a counter.
abbrev pub counter : ℕ → ℕ → ℕ
counter maddr i = add32 maddr (v560_counter_0 + i * 4)

-- `took`, but not counted in a segment.
abbrev pub placed : List ℕ → History → Daq → Daq
placed ws cs d = record (took ws cs d) { segmentsize = d.segmentsize }

-- What the counters from `i` on answer, `left` of them.
unfoldable pub counts : Device → ℕ → ℕ → ℕ → History → List ℕ
counts dev maddr i zero cs = []
counts dev maddr i (suc left) cs =
    dev.read32_reply cs (counter maddr i)
    ∷ counts dev maddr (i + 1) left (read32 (counter maddr i) ∷ cs)

module _ (dev : Device) where
  pub length-counts : (maddr i left : ℕ) (cs : History) → length (counts dev maddr i left cs) ≡ left
  unfolding counts
  length-counts maddr i zero cs = refl
  length-counts maddr i (suc left) cs =
      ap suc (length-counts maddr (i + 1) left (read32 (counter maddr i) ∷ cs))

  step_lem :
      (addr : ℕ) (d : Daq)
      → ((vread32_at_mp dev addr >> modify (λ e. record e { mp = e.mp + 2 })) d).1
        ≡ placed (words_of (dev.read32_reply d.calls addr ∷ [])) (read32 addr ∷ d.calls) d
  unfolding words_of write_words
  step_lem addr d = let next : d.base + (d.mp + 1) ≡ d.base + d.mp + 1 = omega arith in rw next

  counters_mod_lem :
      (maddr i left : ℕ) (d : Daq)
      → (v560_counters_mod dev maddr i left d).1
        ≡ placed
            (words_of (counts dev maddr i left d.calls))
            (history_after (counter maddr) left i d.calls)
            d
  unfolding v560_counters_mod counts words_of history_after
  counters_mod_lem maddr i zero d =
      ap (λ (e : Daq). record e { segmentsize = d.segmentsize }) (sym (took-nil d))
  counters_mod_lem maddr i (suc left) d =
      let addr = counter maddr i in
      let v = dev.read32_reply d.calls addr in
      let cs = read32 addr ∷ d.calls in
      let rest = words_of (counts dev maddr (i + 1) left cs) in
      let hs = history_after (counter maddr) left (i + 1) cs in
      ap (λ e. (v560_counters_mod dev maddr (i + 1) left e).1) (step_lem addr d)
      ∙ counters_mod_lem maddr (i + 1) left (placed (words_of (v ∷ [])) cs d)
      ∙ ap (λ (e : Daq). record e { segmentsize = d.segmentsize })
          (took-took (words_of (v ∷ [])) rest cs hs d)

  -- The scaler's sixteen counters fill the last 32 words of the block, whatever `mp` was, and no
  -- segment counts them.
  pub v560_read_scaler32_mod_lem :
      (maddr : ℕ) (d : Daq)
      → (v560_read_scaler32_mod dev maddr d).1 ≡ record d {
        mem =
            write_words d.mem
              (d.base + (half - v560_nch * 2))
              (words_of (counts dev maddr 0 v560_nch d.calls));
        mp = half;
        calls = history_after (counter maddr) v560_nch 0 d.calls;
      }
  unfolding v560_read_scaler32_mod
  v560_read_scaler32_mod_lem maddr d =
      let vs = counts dev maddr 0 v560_nch d.calls in
      let end : half - v560_nch * 2 + length (words_of vs) ≡ half =
        omega (arith, length-words_of vs, length-counts maddr 0 v560_nch d.calls) in
      counters_mod_lem maddr 0 v560_nch (record d { mp = half - v560_nch * 2 })
      ∙ ap
          (λ (n : ℕ). record d {
            mem = write_words d.mem (d.base + (half - v560_nch * 2)) (words_of vs);
            mp = n;
            calls = history_after (counter maddr) v560_nch 0 d.calls;
          })
          end
