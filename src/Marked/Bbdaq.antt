-- ===== src/Marked/Bbdaq.antt =====
-- bbdaq.c: blocks of marked segments with a block number. An argument of type `short` is a number.
use p42018_vmedaq.Common.{
  ℕ, ◌+◌, ◌<◌, ◌≡◌, refl, sym, ap, ◌∙◌, List, [], ◌∷◌, ◌++◌, length, length-append, drop, slice,
  slice-append, slice-write_words, u16, update, Memory, write_words, write_words_outside,
  write_words-append, update-write_words, inl, ltb, if◌then◌else◌, arith,
}
use mathlib.Core.Path.{subst}
use p42018_vmedaq.Device.{camac_block16, camac_write16, camac_control}
use p42018_vmedaq.Daq.{Daq, M, ◌>>=◌, ◌>>◌, gets, modify, call, push_word, store_word, advance}
use p42018_vmedaq.Bbrl.Camac.{Camac, camac_word_at_mp, camac_block_at_mp, segndata_loop}
use p42018_vmedaq.Marked.{
  mark_segment, close_segment, Read, read_segments, answers, read_segments_lem, all_marked,
  parse_marked, parse-all_marked, AllSized,
}

-- The globals: `data`, `mp`, `eventsize`, `segmenthmp` and `segmentsize` are those of `daq`, where
-- `data` stands at `base`.
pub record Bbdaq : Type 0 where
  pub daq : Daq
  pub blkid : ℕ

abbrev pub B : Type 0 → Type 0
B A = Bbdaq → A × Bbdaq

abbrev pub on_daq : {A : Type 0} → M A → B A
on_daq m s = let (a, d) = m s.daq in (a, record s { daq = d })

-- 0x4000 bytes
unfoldable pub init_mem : B (Unit {0})
init_mem = do
  on_daq (
      modify (λ d. record d {
        mem = λ x. if ltb x d.base then d.mem x else if ltb x (d.base + 0x2000) then 0 else d.mem x;
      }))
  modify (λ s. record s { blkid = 0 })

unfoldable pub init_block : B (Unit {0})
init_block = do
  on_daq (modify (λ d. record d { eventsize = 0 }))
  on_daq (store_word 0 0)
  id ← gets (λ s. s.blkid)
  on_daq (store_word 1 id)
  on_daq (modify (λ d. record d { mp = 3 }))
  modify (λ s. record s { blkid = s.blkid + 1 })

unfoldable pub init_segment : M (Unit {0})
init_segment = mark_segment

unfoldable pub end_block : M ℕ
end_block = do
  push_word 0xffff
  size ← gets (λ d. d.eventsize)
  store_word 2 (size + 1)
  gets (λ d. d.mp)

unfoldable pub end_segment : M ℕ
end_segment = close_segment 0

unfoldable pub end_event : M ℕ
end_event = gets (λ d. d.mp)

unfoldable pub get_mp : M ℕ
get_mp = gets (λ d. d.mp)

module _ (cam : Camac) where
  unfoldable pub read_segdata : ℕ → ℕ → ℕ → ℕ → M ℕ
  read_segdata c n a f = do
    camac_word_at_mp cam (cam.cnafgen c n a f)
    advance 1
    gets (λ d. d.segmentsize)

  unfoldable pub read_segndata : ℕ → ℕ → ℕ → ℕ → ℕ → M ℕ
  read_segndata len c n a f = do segndata_loop cam len c n a f; gets (λ d. d.segmentsize)

  unfoldable pub read_segsdata : ℕ → ℕ → ℕ → ℕ → ℕ → M ℕ
  read_segsdata len c n a f = do segndata_loop cam len c n a f; gets (λ d. d.segmentsize)

  unfoldable pub read_segbdata : ℕ → ℕ → ℕ → ℕ → ℕ → M ℕ
  read_segbdata len c n a f = do
    _ ← camac_block_at_mp cam (camac_block16 cam.qignore (cam.cnafgen c n a f) len)
    advance len
    gets (λ d. d.segmentsize)

  -- the word that `data` points to
  unfoldable pub write_mod : ℕ → ℕ → ℕ → ℕ → ℕ → M (Unit {0})
  write_mod c n a f val = call (camac_write16 (cam.cnafgen c n a f) (u16 val))

  unfoldable pub write_data : ℕ → ℕ → ℕ → ℕ → ℕ → M (Unit {0})
  write_data c n a f val = call (camac_write16 (cam.cnafgen c n a f) (u16 val))

  unfoldable pub control_mod : ℕ → ℕ → ℕ → ℕ → M (Unit {0})
  control_mod c n a f = call (camac_control (cam.cnafgen c n a f))

  -- A block with one event of these segments.
  unfoldable pub read_block : List Read → B ℕ
  read_block rs = do
    init_block
    on_daq (read_segments cam 0 rs)
    _ ← on_daq end_event
    on_daq end_block

-- A block on the wire: its number, the words behind the header, and these words.
abbrev pub block_words : ℕ → List (List ℕ) → List ℕ
block_words id wss =
    let body = all_marked 0 wss in 0 ∷ u16 id ∷ u16 (length body + 1) ∷ (body ++ 0xffff ∷ [])

ended :
    (m : Memory) (b size : ℕ) (body : List ℕ)
    → let w : Memory = write_words m (b + 3) body in
      update (update w (b + (3 + length body)) 0xffff) (b + 2) size
      ≡ write_words (update m (b + 2) size) (b + 3) (body ++ 0xffff ∷ [])
unfolding write_words
ended m b size body =
    let at : b + 3 + length body ≡ b + (3 + length body) = omega arith in
    let w : Memory = write_words m (b + 3) body in
    let e : update w (b + (3 + length body)) 0xffff ≡ write_words m (b + 3) (body ++ 0xffff ∷ []) =
      ap (λ x. update w x 0xffff) (sym at) ∙ write_words-append body (0xffff ∷ []) m (b + 3) in
    ap (λ k. update k (b + 2) size) e
    ∙ update-write_words (body ++ 0xffff ∷ []) m (b + 2) (b + 3) size (omega arith)

read_block_mem :
    (cam : Camac) (rs : List Read) (s : Bbdaq)
    → let ws = all_marked 0 (answers cam 0 rs s.daq.calls) in
      let e = (read_block cam rs s).1.daq in
      let start = (init_block s).1.daq in
      (e.mem
        ≡ write_words
            (update start.mem (s.daq.base + 2) (u16 (length ws + 1)))
            (s.daq.base + 3)
            (ws ++ 0xffff ∷ []))
      × (e.mp ≡ 3 + (length ws + 1))
      × (e.base ≡ s.daq.base)
unfolding read_block init_block end_event end_block
read_block_mem cam rs s =
    let start = (init_block s).1.daq in
    let ws = all_marked 0 (answers cam 0 rs s.daq.calls) in
    let e = (read_segments cam 0 rs start).1 in
    let size : u16 (0 + length ws + 1) ≡ u16 (length ws + 1) = omega arith in
    subst
      (λ (x : Daq).
        ((end_block x).1.mem
          ≡ write_words (update start.mem (s.daq.base + 2) (u16 (length ws + 1))) (s.daq.base + 3)
              (ws ++ 0xffff ∷ []))
        × ((end_block x).1.mp ≡ 3 + (length ws + 1))
        × ((end_block x).1.base ≡ s.daq.base))
      (sym (read_segments_lem cam 0 rs start))
      (
        ended start.mem s.daq.base (u16 (0 + length ws + 1)) ws
            ∙ ap
                (λ k.
                  write_words (update start.mem (s.daq.base + 2) k) (s.daq.base + 3)
                    (ws ++ 0xffff ∷ []))
                size,
        omega arith,
        refl,
      )

-- A block of bbdaq.c, with one event of these segments, consists of its header with the block
-- number and the number of words behind it, the segments that the crate's answers make, and the
-- end marker; the next block gets the next number. Where the segments' sizes fit their words, a
-- reader gets the answers back from it.
pub read_block_numbered :
    (cam : Camac) (rs : List Read) (s : Bbdaq)
    → AllSized 0 (answers cam 0 rs s.daq.calls)
    → let wss = answers cam 0 rs s.daq.calls in
      let t = (read_block cam rs s).1 in
      let block = slice t.daq.mem t.daq.base t.daq.mp in
      (block ≡ block_words s.blkid wss)
      × (parse_marked 0 (length wss) (drop 3 block) ≡ wss)
      × (t.blkid ≡ s.blkid + 1)
unfolding read_block init_block slice
read_block_numbered cam rs s sized =
    let d = s.daq in
    let wss = answers cam 0 rs d.calls in
    let ws = all_marked 0 wss in
    let body = ws ++ 0xffff ∷ [] in
    let size = u16 (length ws + 1) in
    let e = (read_block cam rs s).1.daq in
    let m = update (init_block s).1.daq.mem (d.base + 2) size in
    let (mem, mp, base) = read_block_mem cam rs s in
    let count : length ws + 1 ≡ length body = omega (arith, length-append ws (0xffff ∷ [])) in
    let cell : (x : ℕ) → x < d.base + 3 → write_words m (d.base + 3) body x ≡ m x =
      λ x h. write_words_outside body m (d.base + 3) x (inl h) in
    let w = write_words m (d.base + 3) body in
    let c0 : w d.base ≡ 0 = cell d.base (omega arith) ∙ ground arith in
    let c1 : w (d.base + 1) ≡ u16 s.blkid = cell (d.base + 1) (omega arith) ∙ ground arith in
    let c2 : w (d.base + 1 + 1) ≡ size = cell (d.base + 1 + 1) (omega arith) ∙ ground arith in
    let rest : slice w (d.base + 3) (length ws + 1) ≡ body =
      ap (slice w (d.base + 3)) count ∙ slice-write_words body m (d.base + 3) in
    let block : slice e.mem e.base e.mp ≡ block_words s.blkid wss =
      (λ i. slice (mem i) (base i) (mp i))
      ∙ slice-append 3 (length ws + 1) (write_words m (d.base + 3) body) d.base
      ∙ (λ i. c0 i ∷ c1 i ∷ c2 i ∷ rest i) in
    (
      block,
      ap (λ b. parse_marked 0 (length wss) (drop 3 b)) block
          ∙ parse-all_marked 0 wss (0xffff ∷ []) sized,
      refl,
    )
