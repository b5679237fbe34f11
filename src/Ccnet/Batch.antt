-- ===== src/Ccnet/Batch.antt =====
-- ccnet_recseg against the direct readout: one run of the command buffer, and the replies sorted
-- into segments, for what bbrl.c does call by call.
use p42018_vmedaq.Common.{
  ℕ, ◌+◌, ◌*◌, ◌≤◌, ◌≡◌, refl, ap, ◌∙◌, List, [], ◌∷◌, Memory, length, slice, write_words,
  slice-write_words, slice_ext, bit_and, bit_and-0x0fffffff, arith,
}
use mathlib.Core.Path.{ap₂, subst}
use p42018_vmedaq.Device.{History}
use p42018_vmedaq.Daq.{Daq, M, ◌>>◌, pure}
use p42018_vmedaq.Bbrl.{init_segment, end_segment}
use p42018_vmedaq.Bbrl.Camac.{Camac, segndata_loop, control_mod, write_data}
use p42018_vmedaq.Ccnet.{
  segcmd_short, segcmd_int, recseg_case, recseg_loop, Ccnet, Controller, ccnet_dma, ccnet_recseg,
  ccnet_exec_dma,
}
use p42018_vmedaq.Ccnet.Maker.{
  Statement, begin, word, words, long, longs, finish, control, write, ccnetstartup,
}
use p42018_vmedaq.Ccnet.Made.{code, codes, command_parts, requests, all_requests, Fits, AllFit}
use p42018_vmedaq.Ccnet.Startup.{loaded, ccnetstartup_lem}
use p42018_vmedaq.Ccnet.Direct.{
  segndata24, direct, RepliesWords, RepliesLongs, with_calls, shorts_lem, ints_lem,
}

abbrev head : List ℕ → ℕ
head [] = 0
head (x ∷ xs) = x

abbrev tail : List ℕ → List ℕ
tail [] = []
tail (x ∷ xs) = xs

module _ (cam : Camac) where
  unfoldable pub direct_all : List Statement → M (Unit {0})
  direct_all [] = pure tt
  direct_all (s ∷ ss) = do direct cam s; direct_all ss

  -- From an index on, the reply buffer holds what the crate answers to a statement's reads.
  abbrev pub Replies : Memory → Statement → History → ℕ → Type 0
  Replies rply (begin segid) cs idx = Unit
  Replies rply (word c n a f) cs idx = RepliesWords cam rply 1 c n a f cs idx
  Replies rply (words len c n a f) cs idx = RepliesWords cam rply len c n a f cs idx
  Replies rply (long c n a f) cs idx = RepliesLongs cam rply 1 c n a f cs idx
  Replies rply (longs len c n a f) cs idx = RepliesLongs cam rply len c n a f cs idx
  Replies rply finish cs idx = Unit
  Replies rply (control c n a f) cs idx = Unit
  Replies rply (write c n a f val) cs idx = Unit

  abbrev pub AllReplies : Memory → List Statement → Daq → ℕ → Type 0
  AllReplies rply [] d idx = Unit
  AllReplies rply (s ∷ ss) d idx =
      Replies rply s d.calls idx × AllReplies rply ss (direct cam s d).1 (idx + requests s * 2)

  short_case :
      (rply : Memory) (cmd val len c n a f idx : ℕ) (k : History) (d : Daq)
      → cmd ≡ segcmd_short
      → val ≡ len
      → RepliesWords cam rply len c n a f d.calls idx
      → recseg_case rply cmd val idx (with_calls k d)
        ≡ (idx + len * 2, with_calls k (segndata_loop cam len c n a f d).1)
  unfolding recseg_case
  short_case rply cmd val len c n a f idx k d e v h =
      let at : idx ≡ 2 * 0 + idx = omega arith in
      let h' = subst (λ x. RepliesWords cam rply len c n a f d.calls x) at h in
      ap₂ (λ x y. recseg_case rply x y idx (with_calls k d)) e v
      ∙ ap (λ (x : Daq). (idx + len * 2, x)) (shorts_lem cam rply idx len 0 c n a f k d h')

  int_case :
      (rply : Memory) (cmd val len c n a f idx : ℕ) (k : History) (d : Daq)
      → cmd ≡ segcmd_int
      → val ≡ len
      → RepliesLongs cam rply len c n a f d.calls idx
      → recseg_case rply cmd val idx (with_calls k d)
        ≡ (idx + len * 2, with_calls k (segndata24 cam len c n a f d).1)
  unfolding recseg_case
  int_case rply cmd val len c n a f idx k d e v h =
      let at : idx ≡ 2 * 0 + idx = omega arith in
      let h' = subst (λ x. RepliesLongs cam rply len c n a f d.calls x) at h in
      ap₂ (λ x y. recseg_case rply x y idx (with_calls k d)) e v
      ∙ ap (λ (x : Daq). (idx + len * 2, x)) (ints_lem cam rply idx len 0 c n a f k d h')

  case_lem :
      (rply : Memory) (s : Statement) (idx : ℕ) (k : History) (d : Daq)
      → Fits s
      → Replies rply s d.calls idx
      → recseg_case rply
          (bit_and (code s) 0xf0000000)
          (bit_and (code s) 0x0fffffff)
          idx
          (with_calls k d)
        ≡ (idx + requests s * 2, with_calls k (direct cam s d).1)
  unfolding recseg_case direct init_segment end_segment control_mod write_data
  case_lem rply (begin segid) idx k d fits h =
      let (e, v) = command_parts 1 segid (omega arith) fits in
      let same : idx ≡ idx + 0 = omega arith in
      ap₂ (λ cmd val. recseg_case rply cmd val idx (with_calls k d)) e v
      ∙ ap (λ (x : ℕ). (x, with_calls k (init_segment segid d).1)) same
  case_lem rply (word c n a f) idx k d fits h =
      short_case rply segcmd_short 1 1 c n a f idx k d refl refl h
  case_lem rply (words len c n a f) idx k d fits h =
      let (e, v) =
        command_parts 2 (bit_and len 0x0fffffff) (omega arith)
          (omega (arith, bit_and-0x0fffffff len)) in
      short_case rply (bit_and (code (words len c n a f)) 0xf0000000)
        (bit_and (code (words len c n a f)) 0x0fffffff) len c n a f idx k d e
        (omega (arith, v, bit_and-0x0fffffff len)) h
  case_lem rply (long c n a f) idx k d fits h =
      int_case rply segcmd_int 1 1 c n a f idx k d refl refl h
  case_lem rply (longs len c n a f) idx k d fits h =
      let (e, v) =
        command_parts 3 (bit_and len 0x0fffffff) (omega arith)
          (omega (arith, bit_and-0x0fffffff len)) in
      int_case rply (bit_and (code (longs len c n a f)) 0xf0000000)
        (bit_and (code (longs len c n a f)) 0x0fffffff) len c n a f idx k d e
        (omega (arith, v, bit_and-0x0fffffff len)) h
  case_lem rply finish idx k d fits h =
      let same : idx ≡ idx + 0 = omega arith in
      ap (λ (x : ℕ). (x, with_calls k (direct cam finish d).1)) same
  case_lem rply (control c n a f) idx k d fits h = refl
  case_lem rply (write c n a f val) idx k d fits h = refl

  loop_lem :
      (segcmd rply : Memory) (ss : List Statement) (i idx : ℕ) (k : History) (d : Daq)
      → slice segcmd i (length (codes ss)) ≡ codes ss
      → AllFit ss
      → AllReplies rply ss d idx
      → recseg_loop segcmd rply (length (codes ss)) i idx (with_calls k d)
        ≡ (idx + all_requests ss * 2, with_calls k (direct_all ss d).1)
  unfolding recseg_loop direct_all slice
  loop_lem segcmd rply [] i idx k d table fits h =
      let same : idx ≡ idx + 0 = omega arith in ap (λ (x : ℕ). (x, with_calls k d)) same
  loop_lem segcmd rply (s ∷ ss) i idx k d table (fit, fits) (h, hs) =
      let here : segcmd i ≡ code s = ap head table in
      let rest = ap tail table in
      let next = direct cam s d in
      let idx' = idx + requests s * 2 in
      let count : idx' + all_requests ss * 2 ≡ idx + (requests s + all_requests ss) * 2 =
        omega arith in
      let step = λ (r : ℕ × Daq). recseg_loop segcmd rply (length (codes ss)) (i + 1) r.0 r.1 in
      ap
        (λ x.
          step
            (recseg_case rply (bit_and x 0xf0000000) (bit_and x 0x0fffffff) idx (with_calls k d)))
        here
      ∙ ap step (case_lem rply s idx k d fit h)
      ∙ loop_lem segcmd rply ss (i + 1) idx' k next.1 rest fits hs
      ∙ ap (λ (x : ℕ). (x, with_calls k (direct_all ss next.1).1)) count

-- The reply buffer that a run of the command buffer leaves.
abbrev pub dma_replies : Controller → Ccnet → Memory
dma_replies con s = con.replies s.calls (ccnet_exec_dma s.cmdbuf) s.rplybuf

-- At some later event: the buffers as ccnetstartup left them, and the rest of the state as it is.
abbrev pub at_event : ℕ → List Statement → Ccnet → Ccnet → Ccnet
at_event cmdlen ss s t = record (ccnetstartup cmdlen ss s).1 {
  daq = t.daq;
  rplybuf = t.rplybuf;
  calls = t.calls;
}

-- What the direct readout, in place of the batch, makes of a state.
abbrev pub read_out : Camac → Controller → List Statement → Ccnet → Ccnet
read_out cam con ss s = record s {
  daq = with_calls s.daq.calls (direct_all cam ss s.daq).1;
  rplybuf = dma_replies con s;
  calls = ccnet_exec_dma s.cmdbuf ∷ s.calls;
}

recseg_lem :
    (cam : Camac) (con : Controller) (ss : List Statement) (s : Ccnet)
    → s.segcmdlen ≡ length (codes ss)
    → slice s.segcmd 0 (length (codes ss)) ≡ codes ss
    → AllFit ss
    → AllReplies cam (dma_replies con s) ss s.daq 2
    → ccnet_recseg con s ≡ (2 + all_requests ss * 2, read_out cam con ss s)
unfolding ccnet_recseg ccnet_dma
recseg_lem cam con ss s n table fits h =
    let rply = dma_replies con s in
    let leave : ℕ × Daq → ℕ × Ccnet = λ r.
      (r.0, record s { daq = r.1; rplybuf = rply; calls = ccnet_exec_dma s.cmdbuf ∷ s.calls }) in
    ap (λ k. leave (recseg_loop s.segcmd rply k 0 2 s.daq)) n
    ∙ ap leave (loop_lem cam s.segcmd rply ss 0 2 s.daq.calls s.daq table fits h)

loaded_table :
    (cmdlen : ℕ) (ss : List Statement) (s : Ccnet)
    → slice (loaded cmdlen ss s).segcmd 0 (length (codes ss)) ≡ codes ss
loaded_table cmdlen ss s =
    let made = write_words (λ _. 0) 0 (codes ss) in
    slice_ext (length (codes ss)) (loaded cmdlen ss s).segcmd made 0 (λ x p q. ground arith)
    ∙ slice-write_words (codes ss) (λ _. 0) 0

-- After ccnetstartup has loaded the program that mkccnetsegment makes of a readout, at any event
-- whose replies from element 2 on are the crate's answers to the direct readout, two elements for
-- each command, ccnet_recseg leaves the data, indices and counters that the readout leaves when
-- each of its calls is made directly, and returns the index behind the replies. The readout's
-- numbers have to fit their commands, and CMDLEN is at least 2.
pub recseg-direct :
    (cam : Camac) (con : Controller) (cmdlen : ℕ) (ss : List Statement) (s t : Ccnet)
    → 2 ≤ cmdlen
    → AllFit ss
    → AllReplies cam (dma_replies con (at_event cmdlen ss s t)) ss t.daq 2
    → ccnet_recseg con (at_event cmdlen ss s t)
      ≡ (2 + all_requests ss * 2, read_out cam con ss (at_event cmdlen ss s t))
recseg-direct cam con cmdlen ss s t valid fits h =
    let e = ccnetstartup_lem cmdlen ss s valid fits in
    recseg_lem cam con ss (at_event cmdlen ss s t) (ap (λ (x : Ccnet). x.segcmdlen) e)
      (ap (λ (x : Ccnet). slice x.segcmd 0 (length (codes ss))) e ∙ loaded_table cmdlen ss s) fits h
