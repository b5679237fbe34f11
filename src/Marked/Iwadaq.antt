-- ===== src/Marked/Iwadaq.antt =====
-- iwadaq.c: blocks of marked segments, with DBUFF and without K2915. An argument of type `short` is
-- a number.
use p42018_vmedaq.Common.{
  ℕ, ◌+◌, ◌<◌, ◌≡◌, refl, sym, ap, ◌∙◌, List, [], ◌∷◌, ◌++◌, length, length-append, drop, slice,
  slice-append, slice-write_words, u16, update, Memory, write_words, write_words_outside,
  write_words-append, update-write_words, inl, ltb, ◌==◌, if◌then◌else◌, arith,
}
use mathlib.Core.Path.{ap₂, subst}
use p42018_vmedaq.Device.{camac_block16, camac_write16, camac_control}
use p42018_vmedaq.Daq.{Daq, M, ◌>>=◌, ◌>>◌, gets, modify, call, push_word, store_word, advance}
use p42018_vmedaq.Bbrl.Camac.{Camac, camac_word_at_mp, camac_block_at_mp, segndata_loop}
use p42018_vmedaq.Marked.{
  mark_segment, close_segment, Read, read_segments, answers, read_segments_lem, all_marked,
  parse_marked, parse-all_marked, AllSized,
}
use p42018_vmedaq.Bbrl.{blksize, half}

unfoldable pub chmem : M (Unit {0})
chmem =
    modify
      λ d. if d.dn == 0 then record d { base = half; dn = 1 } else record d { base = 0; dn = 0 }

unfoldable pub init_mem : M (Unit {0})
unfolding chmem
init_mem = do
  modify (λ d. record d { dn = 1 })
  chmem
  modify (λ d. record d { mem = λ x. if ltb x blksize then 0 else d.mem x })

-- `memset(data, 0, 8)` clears four words.
unfoldable pub init_block : M (Unit {0})
init_block = do
  modify (λ d. record d { eventsize = 0 })
  store_word 0 0
  store_word 1 0
  store_word 2 0
  store_word 3 0
  store_word 0 0
  store_word 1 0x0020
  store_word 2 0x2000
  modify (λ d. record d { mp = 4 })

unfoldable pub init_segment : M (Unit {0})
init_segment = mark_segment

unfoldable pub end_block : M ℕ
end_block = do
  push_word 0xffff
  push_word 0xffff
  size ← gets (λ d. d.eventsize)
  store_word 3 (size + 4)
  gets (λ d. d.mp)

unfoldable pub end_segment : M ℕ
end_segment = close_segment 2

unfoldable pub end_event : M ℕ
end_event = gets (λ d. d.mp)

unfoldable pub get_mp : M ℕ
get_mp = gets (λ d. d.mp)

module _ (cam : Camac) where
  unfoldable pub read_segdata : ℕ → ℕ → ℕ → ℕ → M ℕ
  read_segdata c n a f = do
    camac_word_at_mp cam (cam.cnafgen c n a f)
    advance 1
    gets (λ d. d.segmentsize)

  unfoldable pub read_segndata : ℕ → ℕ → ℕ → ℕ → ℕ → M ℕ
  read_segndata len c n a f = do segndata_loop cam len c n a f; gets (λ d. d.segmentsize)

  unfoldable pub read_segsdata : ℕ → ℕ → ℕ → ℕ → ℕ → M ℕ
  read_segsdata len c n a f = do segndata_loop cam len c n a f; gets (λ d. d.segmentsize)

  unfoldable pub read_segbdata : ℕ → ℕ → ℕ → ℕ → ℕ → M ℕ
  read_segbdata len c n a f = do
    _ ← camac_block_at_mp cam (camac_block16 cam.qignore (cam.cnafgen c n a f) len)
    advance len
    gets (λ d. d.segmentsize)

  -- the word that `data` points to
  unfoldable pub write_mod : ℕ → ℕ → ℕ → ℕ → ℕ → M (Unit {0})
  write_mod c n a f val = call (camac_write16 (cam.cnafgen c n a f) (u16 val))

  unfoldable pub write_data : ℕ → ℕ → ℕ → ℕ → ℕ → M (Unit {0})
  write_data c n a f val = call (camac_write16 (cam.cnafgen c n a f) (u16 val))

  unfoldable pub control_mod : ℕ → ℕ → ℕ → ℕ → M (Unit {0})
  control_mod c n a f = call (camac_control (cam.cnafgen c n a f))

  -- A block with one event of these segments.
  unfoldable pub read_block : List Read → M ℕ
  read_block rs = do init_block; read_segments cam 2 rs; _ ← end_event; end_block

-- A block on the wire: the offset of the end marker stands in the fourth word.
abbrev pub block_words : List (List ℕ) → List ℕ
block_words wss =
    let body = all_marked 2 wss in
    0 ∷ 0x0020 ∷ 0x2000 ∷ u16 (length body + 4) ∷ (body ++ 0xffff ∷ 0xffff ∷ [])

ended :
    (m : Memory) (b size : ℕ) (body : List ℕ)
    → let w : Memory = write_words m (b + 4) body in
      update
        (update (update w (b + (4 + length body)) 0xffff) (b + (4 + length body + 1)) 0xffff)
        (b + 3)
        size
      ≡ write_words (update m (b + 3) size) (b + 4) (body ++ 0xffff ∷ 0xffff ∷ [])
unfolding write_words
ended m b size body =
    let at : b + 4 + length body ≡ b + (4 + length body) = omega arith in
    let next : b + 4 + length body + 1 ≡ b + (4 + length body + 1) = omega arith in
    let w : Memory = write_words m (b + 4) body in
    let e : update (update w (b + (4 + length body)) 0xffff) (b + (4 + length body + 1)) 0xffff
        ≡ write_words m (b + 4) (body ++ 0xffff ∷ 0xffff ∷ []) =
      ap₂ (λ x y. update (update w x 0xffff) y 0xffff) (sym at) (sym next)
      ∙ write_words-append body (0xffff ∷ 0xffff ∷ []) m (b + 4) in
    ap (λ k. update k (b + 3) size) e
    ∙ update-write_words (body ++ 0xffff ∷ 0xffff ∷ []) m (b + 3) (b + 4) size (omega arith)

read_block_mem :
    (cam : Camac) (rs : List Read) (d : Daq)
    → let ws = all_marked 2 (answers cam 2 rs d.calls) in
      let e = (read_block cam rs d).1 in
      let start = (init_block d).1 in
      (e.mem
        ≡ write_words
            (update start.mem (d.base + 3) (u16 (length ws + 4)))
            (d.base + 4)
            (ws ++ 0xffff ∷ 0xffff ∷ []))
      × (e.mp ≡ 4 + (length ws + 2))
      × (e.base ≡ d.base)
unfolding read_block init_block end_event end_block
read_block_mem cam rs d =
    let start = (init_block d).1 in
    let ws = all_marked 2 (answers cam 2 rs d.calls) in
    let e = (read_segments cam 2 rs start).1 in
    let size : u16 (0 + length ws + 4) ≡ u16 (length ws + 4) = omega arith in
    subst
      (λ (x : Daq).
        ((end_block x).1.mem
          ≡ write_words (update start.mem (d.base + 3) (u16 (length ws + 4))) (d.base + 4)
              (ws ++ 0xffff ∷ 0xffff ∷ []))
        × ((end_block x).1.mp ≡ 4 + (length ws + 2))
        × ((end_block x).1.base ≡ d.base))
      (sym (read_segments_lem cam 2 rs start))
      (
        ended start.mem d.base (u16 (0 + length ws + 4)) ws
            ∙ ap
                (λ k.
                  write_words (update start.mem (d.base + 3) k) (d.base + 4)
                    (ws ++ 0xffff ∷ 0xffff ∷ []))
                size,
        omega arith,
        refl,
      )

-- A block of iwadaq.c, with one event of these segments, consists of its header, the segments that
-- the crate's answers make, and the end marker, whose offset stands in the header. Where the
-- segments' sizes fit their words, a reader gets the answers back from it.
pub read_block_lem :
    (cam : Camac) (rs : List Read) (d : Daq)
    → AllSized 2 (answers cam 2 rs d.calls)
    → let wss = answers cam 2 rs d.calls in
      let e = (read_block cam rs d).1 in
      let block = slice e.mem e.base e.mp in
      (block ≡ block_words wss) × (parse_marked 2 (length wss) (drop 4 block) ≡ wss)
unfolding init_block slice
read_block_lem cam rs d sized =
    let wss = answers cam 2 rs d.calls in
    let ws = all_marked 2 wss in
    let body = ws ++ 0xffff ∷ 0xffff ∷ [] in
    let size = u16 (length ws + 4) in
    let e = (read_block cam rs d).1 in
    let m = update (init_block d).1.mem (d.base + 3) size in
    let (mem, mp, base) = read_block_mem cam rs d in
    let count : length ws + 2 ≡ length body =
      omega (arith, length-append ws (0xffff ∷ 0xffff ∷ [])) in
    let cell : (x : ℕ) → x < d.base + 4 → write_words m (d.base + 4) body x ≡ m x =
      λ x h. write_words_outside body m (d.base + 4) x (inl h) in
    let w = write_words m (d.base + 4) body in
    let c0 : w d.base ≡ 0 = cell d.base (omega arith) ∙ ground arith in
    let c1 : w (d.base + 1) ≡ 0x0020 = cell (d.base + 1) (omega arith) ∙ ground arith in
    let c2 : w (d.base + 1 + 1) ≡ 0x2000 = cell (d.base + 1 + 1) (omega arith) ∙ ground arith in
    let c3 : w (d.base + 1 + 1 + 1) ≡ size =
      cell (d.base + 1 + 1 + 1) (omega arith) ∙ ground arith in
    let rest : slice w (d.base + 4) (length ws + 2) ≡ body =
      ap (slice w (d.base + 4)) count ∙ slice-write_words body m (d.base + 4) in
    let block : slice e.mem e.base e.mp ≡ block_words wss =
      (λ i. slice (mem i) (base i) (mp i))
      ∙ slice-append 4 (length ws + 2) (write_words m (d.base + 4) body) d.base
      ∙ (λ i. c0 i ∷ c1 i ∷ c2 i ∷ c3 i ∷ rest i) in
    (
      block,
      ap (λ b. parse_marked 2 (length wss) (drop 4 b)) block
          ∙ parse-all_marked 2 wss (0xffff ∷ 0xffff ∷ []) sized,
    )
