-- ===== src/Marked.antt =====
-- The framing that iwadaq.c and bbdaq.c share: a segment begins with the marker 0xcc77 and its size,
-- which the one counts with these two words and the other without them.
pub mod Iwadaq
pub mod Bbdaq
use p42018_vmedaq.Common.{
  ℕ, zero, suc, ◌+◌, ◌-◌, ◌<◌, ◌≡◌, refl, sym, ap, ◌∙◌, List, [], ◌∷◌, ◌++◌, length, length-append,
  take, drop, ◌==◌, if◌then◌else◌, u16, update, Memory, write_words, write_words_at,
  write_words-append, patch-write_words, take-length-append, drop-length-append, append_assoc,
  arith,
}
use mathlib.Core.Path.{ap₂, subst}
use native.Mathlib.Nat.{add-zero}
use p42018_vmedaq.Device.{History}
use p42018_vmedaq.Daq.{Daq, M, ◌>>=◌, ◌>>◌, pure, gets, modify, push_word, store_word, took}
use p42018_vmedaq.Bbrl.Camac.{Camac, segndata_loop}
use p42018_vmedaq.Bbrl.Camac.Framed.{camac_words, camac_history, length-camac_words, segndata_lem}

-- init_segment
unfoldable pub mark_segment : M (Unit {0})
mark_segment = do
  push_word 0xcc77
  modify (λ d. record d { segmenthmp = d.mp; segmentsize = 0; mp = d.mp + 1 })

-- end_segment, with what the size word counts beside the payload
unfoldable pub close_segment : ℕ → M ℕ
close_segment extra = do
  size ← gets (λ d. d.segmentsize)
  at ← gets (λ d. d.segmenthmp)
  store_word at (size + extra)
  modify (λ d. record d { eventsize = d.eventsize + (size + 2) })
  gets (λ d. d.mp)

-- A segment of a user's readout: so many words from successive subaddresses.
pub record Read : Type 0 where
  pub len : ℕ
  pub c : ℕ
  pub n : ℕ
  pub a : ℕ
  pub f : ℕ

-- A segment on the wire, several of them, and how a reader takes them apart.
abbrev pub marked_words : ℕ → List ℕ → List ℕ
marked_words extra ws = 0xcc77 ∷ u16 (length ws + extra) ∷ ws

unfoldable pub all_marked : ℕ → List (List ℕ) → List ℕ
all_marked extra [] = []
all_marked extra (ws ∷ wss) = marked_words extra ws ++ all_marked extra wss

unfoldable pub parse_marked : ℕ → ℕ → List ℕ → List (List ℕ)
parse_marked extra zero ws = []
parse_marked extra (suc n) [] = []
parse_marked extra (suc n) (marker ∷ []) = []
parse_marked extra (suc n) (marker ∷ size ∷ ws) =
    let rest = parse_marked extra n (drop (size - extra) ws) in
    if marker == 0xcc77 then take (size - extra) ws ∷ rest else []

-- Payloads whose size fits its word.
abbrev pub AllSized : ℕ → List (List ℕ) → Type 0
AllSized extra [] = Unit
AllSized extra (ws ∷ wss) = (length ws + extra < 65536) × AllSized extra wss

pub parse-all_marked :
    (extra : ℕ) (wss : List (List ℕ)) (rest : List ℕ)
    → AllSized extra wss
    → parse_marked extra (length wss) (all_marked extra wss ++ rest) ≡ wss
unfolding parse_marked all_marked
parse-all_marked extra [] rest sized = refl
parse-all_marked extra (ws ∷ wss) rest (fits, sized) =
    let more = all_marked extra wss ++ rest in
    let size : u16 (length ws + extra) - extra ≡ length ws = omega arith in
    ap
      (λ vs.
        take (u16 (length ws + extra) - extra) vs
        ∷ parse_marked extra (length wss) (drop (u16 (length ws + extra) - extra) vs))
      (append_assoc ws (all_marked extra wss) rest)
    ∙ ap (λ k. take k (ws ++ more) ∷ parse_marked extra (length wss) (drop k (ws ++ more))) size
    ∙ ap₂ (λ xs ys. xs ∷ parse_marked extra (length wss) ys) (take-length-append ws more)
        (drop-length-append ws more)
    ∙ ap (◌∷◌ ws) (parse-all_marked extra wss rest sized)

-- A state in which words were added to the block and counted; the variables of the segment's
-- framing and the history are those of another state.
abbrev pub grown : List ℕ → Daq → Daq → Daq
grown ws e d = record e {
  mem = write_words d.mem (d.base + d.mp) ws;
  base = d.base;
  dn = d.dn;
  mp = d.mp + length ws;
  eventid = d.eventid;
  eventhmp = d.eventhmp;
  eventsize = d.eventsize + length ws;
  mpflag = d.mpflag;
  dmadata = d.dmadata;
}

patched :
    (m : Memory) (b p size : ℕ) (ws : List ℕ)
    → update (write_words (update m (b + p) 0xcc77) (b + (p + 1 + 1)) ws) (b + (p + 1)) size
      ≡ write_words m (b + p) (0xcc77 ∷ size ∷ ws)
unfolding write_words
patched m b p size ws =
    let at_size : b + (p + 1) ≡ b + p + 1 = omega arith in
    let at_ws : b + (p + 1 + 1) ≡ b + p + 1 + 1 = omega arith in
    rw (at_size, at_ws) (patch-write_words ws (update m (b + p) 0xcc77) (b + p + 1) size)

-- The state after a segment.
abbrev marked : ℕ → List ℕ → History → Daq → Daq
marked extra ws cs d = record d {
  mem = write_words d.mem (d.base + d.mp) (marked_words extra ws);
  mp = d.mp + 1 + 1 + length ws;
  segmenthmp = d.mp + 1;
  segmentsize = 0 + length ws;
  eventsize = d.eventsize + (0 + length ws + 2);
  calls = cs;
}

grown-marked :
    (extra : ℕ) (ws more : List ℕ) (cs : History) (e d : Daq)
    → grown more e (marked extra ws cs d) ≡ grown (marked_words extra ws ++ more) e d
grown-marked extra ws more cs e d =
    let head = marked_words extra ws in
    let at : d.base + (d.mp + 1 + 1 + length ws) ≡ d.base + d.mp + length head = omega arith in
    let mp : d.mp + 1 + 1 + length ws + length more ≡ d.mp + length (head ++ more) =
      omega (arith, length-append head more) in
    let size : d.eventsize + (0 + length ws + 2) + length more
        ≡ d.eventsize + length (head ++ more) =
      omega (arith, length-append head more) in
    λ i. record (grown (head ++ more) e d) {
      mem =
          (write_words_at (write_words d.mem (d.base + d.mp) head) more at
              ∙ write_words-append head more d.mem (d.base + d.mp))
            i;
      mp = mp i;
      eventsize = size i;
    }

module _ (cam : Camac) (extra : ℕ) where
  -- init_segment(); read_segndata(len, c, n, a, f); end_segment();
  unfoldable pub read_marked : Read → M ℕ
  read_marked r = do mark_segment; segndata_loop cam r.len r.c r.n r.a r.f; close_segment extra

  unfoldable pub read_segments : List Read → M (Unit {0})
  read_segments [] = pure tt
  read_segments (r ∷ rs) = do _ ← read_marked r; read_segments rs

  -- What the crate answers to them.
  unfoldable pub answers : List Read → History → List (List ℕ)
  answers [] cs = []
  answers (r ∷ rs) cs =
      camac_words cam r.c r.n r.f r.len r.a cs
      ∷ answers rs (camac_history cam r.c r.n r.f r.len r.a cs)

  read_marked_lem :
      (r : Read) (d : Daq)
      → let ws = camac_words cam r.c r.n r.f r.len r.a d.calls in
        (read_marked r d).1 ≡ marked extra ws (camac_history cam r.c r.n r.f r.len r.a d.calls) d
  unfolding read_marked mark_segment close_segment
  read_marked_lem r d =
      let ws = camac_words cam r.c r.n r.f r.len r.a d.calls in
      let cs = camac_history cam r.c r.n r.f r.len r.a d.calls in
      let size : u16 (0 + length ws + extra) ≡ u16 (length ws + extra) = omega arith in
      ap (λ (x : Daq). (close_segment extra x).1)
        (segndata_lem cam r.c r.n r.f r.len r.a (mark_segment d).1)
      ∙ (λ i. record (marked extra ws cs d) {
        mem =
            (patched d.mem d.base d.mp (u16 (0 + length ws + extra)) ws
                ∙ ap (λ k. write_words d.mem (d.base + d.mp) (0xcc77 ∷ k ∷ ws)) size)
              i;
      })

  pub read_segments_lem :
      (rs : List Read) (d : Daq)
      → let e = (read_segments rs d).1 in e ≡ grown (all_marked extra (answers rs d.calls)) e d
  unfolding read_segments answers all_marked write_words
  read_segments_lem [] d =
      λ i. record d { mp = sym (add-zero d.mp) i; eventsize = sym (add-zero d.eventsize) i }
  read_segments_lem (r ∷ rs) d =
      let ws = camac_words cam r.c r.n r.f r.len r.a d.calls in
      let cs = camac_history cam r.c r.n r.f r.len r.a d.calls in
      let next = marked extra ws cs d in
      let more = all_marked extra (answers rs cs) in
      subst
        (λ (x : Daq).
          let e = (read_segments rs x).1 in e ≡ grown (marked_words extra ws ++ more) e d)
        (sym (read_marked_lem r d))
        (read_segments_lem rs next ∙ grown-marked extra ws more cs (read_segments rs next).1 d)
