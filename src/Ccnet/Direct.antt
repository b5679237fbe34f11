-- ===== src/Ccnet/Direct.antt =====
-- The same readout without the pipeline: each call of the user's readout made at once, by bbrl.c on a
-- CAMAC crate. read_segndata24, which bbrl.c has not, is read_segdata24 at successive subaddresses.
use p42018_vmedaq.Common.{
  ℕ, zero, suc, ◌+◌, ◌*◌, ◌/◌, ◌%◌, ◌≡◌, refl, ap, ◌∙◌, ◌∷◌, u16, Memory, update, bit_and,
  bit_and-0xffff, bit_and-0xff, arith,
}
use mathlib.Core.Path.{ap₂, subst}
use p42018_vmedaq.Device.{History, camac_read16, camac_read24}
use p42018_vmedaq.Daq.{Daq, M, low_word, high_word, ◌>>=◌, pure}
use p42018_vmedaq.Bbrl.{init_segment, end_segment}
use p42018_vmedaq.Bbrl.Camac.{Camac, read_segdata24, segndata_loop, control_mod, write_data}
use p42018_vmedaq.Ccnet.{store_shorts, store_ints}
use p42018_vmedaq.Ccnet.Maker.{Statement, begin, word, words, long, longs, finish, control, write}

-- Another history put in place, for comparing states that differ in their calls.
abbrev pub with_calls : History → Daq → Daq
with_calls k d = record d { calls = k }

module _ (cam : Camac) where
  unfoldable pub segndata24 : ℕ → ℕ → ℕ → ℕ → ℕ → M (Unit {0})
  segndata24 zero c n a f = pure tt
  segndata24 (suc len) c n a f = do _ ← read_segdata24 cam c n a f; segndata24 len c n (a + 1) f

  unfoldable pub direct : Statement → M (Unit {0})
  direct (begin segid) = init_segment segid
  direct (word c n a f) = segndata_loop cam 1 c n a f
  direct (words len c n a f) = segndata_loop cam len c n a f
  direct (long c n a f) = segndata24 1 c n a f
  direct (longs len c n a f) = segndata24 len c n a f
  direct finish = do _ ← end_segment; pure tt
  direct (control c n a f) = control_mod cam c n a f
  direct (write c n a f val) = write_data cam c n a f val

  -- The reply buffer holds the words that the crate answers to these reads, from an index on, the
  -- replies at every second element.
  abbrev pub RepliesWords : Memory → ℕ → ℕ → ℕ → ℕ → ℕ → History → ℕ → Type 0
  RepliesWords rply zero c n a f cs idx = Unit
  RepliesWords rply (suc len) c n a f cs idx =
      let cnaf = cam.cnafgen c n a f in
      (u16 (rply idx) ≡ u16 (cam.word_reply cs cnaf))
      × RepliesWords rply len c n (a + 1) f (camac_read16 cnaf ∷ cs) (idx + 2)

  abbrev pub RepliesLongs : Memory → ℕ → ℕ → ℕ → ℕ → ℕ → History → ℕ → Type 0
  RepliesLongs rply zero c n a f cs idx = Unit
  RepliesLongs rply (suc len) c n a f cs idx =
      let cnaf = cam.cnafgen c n a f in
      (rply idx % 16777216 ≡ cam.long_reply cs cnaf)
      × RepliesLongs rply len c n (a + 1) f (camac_read24 cnaf ∷ cs) (idx + 2)

  -- case SEGCMDSHORT does what the reads of 16 bits do.
  pub shorts_lem :
      (rply : Memory) (idx len j c n a f : ℕ) (k : History) (d : Daq)
      → RepliesWords rply len c n a f d.calls (2 * j + idx)
      → (store_shorts rply idx len j (with_calls k d)).1
        ≡ with_calls k (segndata_loop cam len c n a f d).1
  unfolding store_shorts segndata_loop
  shorts_lem rply idx zero j c n a f k d h = refl
  shorts_lem rply idx (suc len) j c n a f k d (h, hs) =
      let cnaf = cam.cnafgen c n a f in
      let stored : ℕ → Daq = λ w. record d {
        mem = update d.mem (d.base + d.mp) w;
        mp = d.mp + 1;
        segmentsize = d.segmentsize + 1;
      } in
      let after : Daq =
        with_calls (camac_read16 cnaf ∷ d.calls) (stored (u16 (cam.word_reply d.calls cnaf))) in
      let e : u16 (bit_and (rply (2 * j + idx)) 0xffff) ≡ u16 (cam.word_reply d.calls cnaf) =
        omega (arith, h, bit_and-0xffff (rply (2 * j + idx))) in
      let next : 2 * j + idx + 2 ≡ 2 * (j + 1) + idx = omega arith in
      ap (λ w. (store_shorts rply idx len (j + 1) (with_calls k (stored w))).1) e
      ∙ shorts_lem rply idx len (j + 1) c n (a + 1) f k after
          (subst (λ x. RepliesWords rply len c n (a + 1) f (camac_read16 cnaf ∷ d.calls) x) next hs)

  -- case SEGCMDINT does what the reads of 24 bits do.
  pub ints_lem :
      (rply : Memory) (idx len j c n a f : ℕ) (k : History) (d : Daq)
      → RepliesLongs rply len c n a f d.calls (2 * j + idx)
      → (store_ints rply idx len j (with_calls k d)).1 ≡ with_calls k (segndata24 len c n a f d).1
  unfolding store_ints segndata24 read_segdata24
  ints_lem rply idx zero j c n a f k d h = refl
  ints_lem rply idx (suc len) j c n a f k d (h, hs) =
      let cnaf = cam.cnafgen c n a f in
      let x = rply (2 * j + idx) in
      let v = cam.long_reply d.calls cnaf in
      let at = d.base + d.mp in
      let stored : ℕ → ℕ → Daq = λ low high. record d {
        mem = update (update d.mem at low) (d.base + (d.mp + 1)) high;
        mp = d.mp + 2;
        segmentsize = d.segmentsize + 2;
      } in
      let after : Daq =
        with_calls (camac_read24 cnaf ∷ d.calls) (stored (low_word v) (high_word v)) in
      let low : u16 (bit_and x 0xffff) ≡ low_word v = omega (arith, h, bit_and-0xffff x) in
      let high : u16 (bit_and (x / 65536) 0xff) ≡ high_word v =
        omega (arith, h, bit_and-0xff (x / 65536)) in
      let next : 2 * j + idx + 2 ≡ 2 * (j + 1) + idx = omega arith in
      ap₂ (λ l u. (store_ints rply idx len (j + 1) (with_calls k (stored l u))).1) low high
      ∙ ints_lem rply idx len (j + 1) c n (a + 1) f k after
          (subst (λ y. RepliesLongs rply len c n (a + 1) f (camac_read24 cnaf ∷ d.calls) y) next hs)
