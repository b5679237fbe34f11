-- ===== src/Ccnet/Startup.antt =====
-- What the program that mkccnetsegment.c prints leaves in the buffers of ccnetevt.c.
use p42018_vmedaq.Common.{
  ℕ, zero, suc, ◌+◌, ◌*◌, ◌^◌, ◌<◌, ◌≤◌, ◌≡◌, refl, sym, ap, ◌∙◌, fun_ext, List, [], ◌∷◌, ◌++◌,
  Memory, length, update, write_words, write_words-append, ltb, if◌then◌else◌, ◌==◌, ◌||◌, Bool,
  true, false, not, bit_and, bit_or, bit_and-0x0fffffff, append_assoc, append-nil, length-append,
  arith,
}
use mathlib.Core.Path.{ap₂}
use p42018_vmedaq.Ccnet.{Ccnet, C, cnaf, fresh_buffer, add_command, ccnet_gen_init, ccnet_gen_cc}
use p42018_vmedaq.Ccnet.Maker.{
  Statement, begin, word, words, long, longs, finish, control, write, Line, Maker, perform_all,
  empty_maker, run_loop, run_line, run_lines, ccnetstartup,
}
use p42018_vmedaq.Ccnet.Made.{
  lines, all_lines, codes, requests, all_requests, Fits, AllFit, perform_all_lem,
}

-- A command: its data and its address.
abbrev pub command : ℕ → ℕ → ℕ → ℕ → List ℕ
command n a f val = bit_and val 0xffffff ∷ bit_or 0xe0000000 (cnaf n a f) ∷ []

-- One command for each of `len` subaddresses.
abbrev pub command_run : ℕ → ℕ → ℕ → ℕ → List ℕ
command_run zero n a f = []
command_run (suc len) n a f = command n a f 0 ++ command_run len n (a + 1) f

-- The commands of a statement: a CAMAC call each, in the order of the direct readout.
abbrev pub commands : Statement → List ℕ
commands (begin segid) = []
commands (word c n a f) = command n a f 0
commands (words len c n a f) = command_run len n a f
commands (long c n a f) = command n a f 0
commands (longs len c n a f) = command_run len n a f
commands finish = []
commands (control c n a f) = command n a f 0
commands (write c n a f val) = command n a f val

abbrev pub all_commands : List Statement → List ℕ
all_commands [] = []
all_commands (s ∷ ss) = commands s ++ all_commands ss

-- A buffer with these commands in it, and their number in element 1.
abbrev pub filled : Memory → List ℕ → ℕ → Memory
filled m ws count = update (write_words m 2 ws) 1 count

add_cell :
    (w : Memory) (count x y : ℕ)
    → (let b = update (update (update w 1 count) (count * 2 + 2) x) (count * 2 + 3) y in
        update b 1 (b 1 + 1))
      ≡ update (update (update w (count * 2 + 2) x) (count * 2 + 3) y) 1 (count + 1)
add_cell w count x y = fun_ext λ z. ground arith

add_command_lem :
    (cmdlen : ℕ) (m : Memory) (ws : List ℕ) (count n a f val : ℕ)
    → length ws ≡ count * 2
    → add_command cmdlen n a f val (filled m ws count)
      ≡ (filled m (ws ++ command n a f val) (count + 1), not (ltb count cmdlen))
unfolding write_words
add_command_lem cmdlen m ws count n a f val h =
    let x = bit_and val 0xffffff in
    let y = bit_or 0xe0000000 (cnaf n a f) in
    let w = write_words m 2 ws in
    let at : 2 + length ws ≡ count * 2 + 2 = omega (arith, h) in
    let next : count * 2 + 2 + 1 ≡ count * 2 + 3 = omega arith in
    let joined : write_words m 2 (ws ++ command n a f val)
        ≡ update (update w (count * 2 + 2) x) (count * 2 + 3) y =
      sym (write_words-append ws (command n a f val) m 2)
      ∙ ap (λ p. write_words w p (command n a f val)) at
      ∙ ap (λ p. update (update w (count * 2 + 2) x) p y) next in
    let outside : not (ltb (count * 2 + 3) (cmdlen * 2 + 2)) ≡ not (ltb count cmdlen) =
      ground arith in
    ap₂ (λ b o. (b, o)) (add_cell w count x y ∙ ap (λ b. update b 1 (count + 1)) (sym joined))
      outside

-- Commands in the command buffer, which has room for `cmdlen`.
abbrev with_commands : ℕ → Ccnet → Memory → List ℕ → ℕ → Ccnet
with_commands cmdlen s m ws count = record s {
  cmdbuf = filled m ws count;
  overrun = s.overrun || ltb cmdlen count;
}

one_more :
    (b : Bool) (cmdlen count : ℕ)
    → ((b || ltb cmdlen count) || not (ltb count cmdlen)) ≡ (b || ltb cmdlen (count + 1))
one_more true cmdlen count = refl
one_more false cmdlen count = ground arith

fits_none : (b : Bool) (cmdlen : ℕ) → b ≡ (b || ltb cmdlen 0)
fits_none true cmdlen = refl
fits_none false cmdlen = ground arith

gen_cc_lem :
    (cmdlen : ℕ) (s : Ccnet) (m : Memory) (ws : List ℕ) (count n a f val : ℕ)
    → length ws ≡ count * 2
    → (ccnet_gen_cc cmdlen n a f val (with_commands cmdlen s m ws count)).1
      ≡ with_commands cmdlen s m (ws ++ command n a f val) (count + 1)
unfolding ccnet_gen_cc
gen_cc_lem cmdlen s m ws count n a f val h =
    ap
      (λ (p : Memory × Bool). record s {
        cmdbuf = p.0;
        overrun = (s.overrun || ltb cmdlen count) || p.1;
      })
      (add_command_lem cmdlen m ws count n a f val h)
    ∙ ap (λ b. record s { cmdbuf = filled m (ws ++ command n a f val) (count + 1); overrun = b })
        (one_more s.overrun cmdlen count)

length-command :
    (ws : List ℕ) (count n a f val : ℕ)
    → length ws ≡ count * 2
    → length (ws ++ command n a f val) ≡ (count + 1) * 2
length-command ws count n a f val h = omega (arith, h, length-append ws (command n a f val))

run_loop_lem :
    (cmdlen : ℕ) (left i n a f : ℕ) (s : Ccnet) (m : Memory) (ws : List ℕ) (count : ℕ)
    → length ws ≡ count * 2
    → (run_loop cmdlen left i n a f (with_commands cmdlen s m ws count)).1
      ≡ with_commands cmdlen s m (ws ++ command_run left n (i + a) f) (count + left)
unfolding run_loop
run_loop_lem cmdlen zero i n a f s m ws count h =
    let none : count ≡ count + 0 = omega arith in
    ap₂ (with_commands cmdlen s m) (sym (append-nil ws)) none
run_loop_lem cmdlen (suc left) i n a f s m ws count h =
    let ws' = ws ++ command n (i + a) f 0 in
    let at : i + 1 + a ≡ i + a + 1 = omega arith in
    let number : count + 1 + left ≡ count + suc left = omega arith in
    ap (λ (x : Ccnet). (run_loop cmdlen left (i + 1) n a f x).1)
      (gen_cc_lem cmdlen s m ws count n (i + a) f 0 h)
    ∙ run_loop_lem cmdlen left (i + 1) n a f s m ws' (count + 1)
        (length-command ws count n (i + a) f 0 h)
    ∙ ap₂ (with_commands cmdlen s m)
        (ap (λ x. ws' ++ command_run left n x f) at
          ∙ append_assoc ws (command n (i + a) f 0) (command_run left n (i + a + 1) f))
        number

length-command_run : (len n a f : ℕ) → length (command_run len n a f) ≡ len * 2
length-command_run zero n a f = refl
length-command_run (suc len) n a f = omega (arith, length-command_run len n (a + 1) f)

length-commands : (s : Statement) → length (commands s) ≡ requests s * 2
length-commands (begin segid) = refl
length-commands (word c n a f) = refl
length-commands (words len c n a f) = length-command_run len n a f
length-commands (long c n a f) = refl
length-commands (longs len c n a f) = length-command_run len n a f
length-commands finish = refl
length-commands (control c n a f) = refl
length-commands (write c n a f val) = refl

run_lines_lem :
    (cmdlen : ℕ) (len n a f : ℕ) (ls : List Line) (s : Ccnet) (m : Memory) (ws : List ℕ) (count : ℕ)
    → len < 2 ^ 28
    → length ws ≡ count * 2
    → run_lines cmdlen ls
        (run_loop cmdlen (bit_and len 0x0fffffff) 0 n a f (with_commands cmdlen s m ws count)).1
      ≡ run_lines cmdlen ls (with_commands cmdlen s m (ws ++ command_run len n a f) (count + len))
run_lines_lem cmdlen len n a f ls s m ws count fits h =
    let e : bit_and len 0x0fffffff ≡ len = omega (arith, fits, bit_and-0x0fffffff len) in
    let none : 0 + a ≡ a = omega arith in
    ap (λ k. run_lines cmdlen ls (run_loop cmdlen k 0 n a f (with_commands cmdlen s m ws count)).1)
      e
    ∙ ap (run_lines cmdlen ls) (run_loop_lem cmdlen len 0 n a f s m ws count h)
    ∙ ap
        (λ k.
          run_lines cmdlen ls
            (with_commands cmdlen s m (ws ++ command_run len n k f) (count + len)))
        none

lines_lem :
    (cmdlen : ℕ) (st : Statement) (ls : List Line) (s : Ccnet) (m : Memory) (ws : List ℕ)
    (count : ℕ)
    → Fits st
    → length ws ≡ count * 2
    → run_lines cmdlen (lines st ++ ls) (with_commands cmdlen s m ws count)
      ≡ run_lines cmdlen ls (with_commands cmdlen s m (ws ++ commands st) (count + requests st))
unfolding run_lines run_line
lines_lem cmdlen (begin segid) ls s m ws count fits h =
    let none : count ≡ count + 0 = omega arith in
    ap₂ (λ x y. run_lines cmdlen ls (with_commands cmdlen s m x y)) (sym (append-nil ws)) none
lines_lem cmdlen finish ls s m ws count fits h =
    let none : count ≡ count + 0 = omega arith in
    ap₂ (λ x y. run_lines cmdlen ls (with_commands cmdlen s m x y)) (sym (append-nil ws)) none
lines_lem cmdlen (word c n a f) ls s m ws count fits h =
    ap (run_lines cmdlen ls) (gen_cc_lem cmdlen s m ws count n a f 0 h)
lines_lem cmdlen (long c n a f) ls s m ws count fits h =
    ap (run_lines cmdlen ls) (gen_cc_lem cmdlen s m ws count n a f 0 h)
lines_lem cmdlen (control c n a f) ls s m ws count fits h =
    ap (run_lines cmdlen ls) (gen_cc_lem cmdlen s m ws count n a f 0 h)
lines_lem cmdlen (write c n a f val) ls s m ws count fits h =
    ap (run_lines cmdlen ls) (gen_cc_lem cmdlen s m ws count n a f val h)
lines_lem cmdlen (words len c n a f) ls s m ws count fits h =
    run_lines_lem cmdlen len n a f ls s m ws count fits h
lines_lem cmdlen (longs len c n a f) ls s m ws count fits h =
    run_lines_lem cmdlen len n a f ls s m ws count fits h

all_lines_lem :
    (cmdlen : ℕ) (ss : List Statement) (s : Ccnet) (m : Memory) (ws : List ℕ) (count : ℕ)
    → AllFit ss
    → length ws ≡ count * 2
    → (run_lines cmdlen (all_lines ss) (with_commands cmdlen s m ws count)).1
      ≡ with_commands cmdlen s m (ws ++ all_commands ss) (count + all_requests ss)
unfolding run_lines
all_lines_lem cmdlen [] s m ws count fits h =
    let none : count ≡ count + 0 = omega arith in
    ap₂ (with_commands cmdlen s m) (sym (append-nil ws)) none
all_lines_lem cmdlen (st ∷ ss) s m ws count (fit, fits) h =
    let number : count + requests st + all_requests ss ≡ count + (requests st + all_requests ss) =
      omega arith in
    let ws' = ws ++ commands st in
    let even : length ws' ≡ (count + requests st) * 2 =
      omega (arith, h, length-append ws (commands st), length-commands st) in
    ap (λ (r : Unit {0} × Ccnet). r.1) (lines_lem cmdlen st (all_lines ss) s m ws count fit h)
    ∙ all_lines_lem cmdlen ss s m ws' (count + requests st) fits even
    ∙ ap₂ (with_commands cmdlen s m) (append_assoc ws (commands st) (all_commands ss)) number

-- A cleared buffer holds no command.
fresh_lem :
    (cmdlen : ℕ) (m : Memory)
    → 2 ≤ cmdlen
    → fresh_buffer cmdlen m ≡ filled (fresh_buffer cmdlen m) [] 0
unfolding write_words
fresh_lem cmdlen m h = fun_ext λ x. ground arith

-- The state with a program loaded.
abbrev pub loaded : ℕ → List Statement → Ccnet → Ccnet
loaded cmdlen ss s = record s {
  cmdbuf = filled (fresh_buffer cmdlen s.cmdbuf) (all_commands ss) (all_requests ss);
  overrun = s.overrun || ltb cmdlen (all_requests ss);
  clrbuf = fresh_buffer cmdlen s.clrbuf;
  segcmd =
      λ x. if ltb x (length (codes ss)) then write_words (λ _. 0) 0 (codes ss) x else s.segcmd x;
  segcmdlen = length (codes ss);
}

-- The tables copied.
abbrev link : Maker → Ccnet → Ccnet
link made s = record s {
  segcmd = λ x. if ltb x made.segcmdlen then made.segcmd x else s.segcmd x;
  segcmdlen = made.segcmdlen;
}

gen_init_lem :
    (cmdlen : ℕ) (s : Ccnet)
    → 2 ≤ cmdlen
    → (ccnet_gen_init cmdlen cmdlen s).1
      ≡ with_commands cmdlen
          (record s { clrbuf = fresh_buffer cmdlen s.clrbuf })
          (fresh_buffer cmdlen s.cmdbuf)
          []
          0
unfolding ccnet_gen_init
gen_init_lem cmdlen s h =
    let refused : C ℕ = λ t. (0, t) in
    let start : C ℕ = λ t. (
      1,
      record t { cmdbuf = fresh_buffer cmdlen t.cmdbuf; clrbuf = fresh_buffer cmdlen t.clrbuf },
    ) in
    let valid : (cmdlen == 0 || ltb cmdlen cmdlen) ≡ false = ground arith in
    ap (λ (b : Bool). ((if b then refused else start) s).1) valid
    ∙ ap₂
        (λ (m : Memory) b. record s {
          cmdbuf = m;
          clrbuf = fresh_buffer cmdlen s.clrbuf;
          overrun = b;
        })
        (fresh_lem cmdlen s.cmdbuf h) (fits_none s.overrun cmdlen)

pub ccnetstartup_lem :
    (cmdlen : ℕ) (ss : List Statement) (s : Ccnet)
    → 2 ≤ cmdlen
    → AllFit ss
    → (ccnetstartup cmdlen ss s).1 ≡ loaded cmdlen ss s
unfolding ccnetstartup
ccnetstartup_lem cmdlen ss s h fits =
    let start = (ccnet_gen_init cmdlen cmdlen s).1 in
    let made : Maker = record {
      segcmd = write_words (λ _. 0) 0 (codes ss);
      segcmdlen = length (codes ss);
      output = all_lines ss;
    } in
    let cleared : Ccnet = record s { clrbuf = fresh_buffer cmdlen s.clrbuf } in
    let none : 0 + length (codes ss) ≡ length (codes ss) = omega arith in
    let made_lem : perform_all ss empty_maker ≡ made =
      perform_all_lem ss empty_maker ∙ (λ i. record made { segcmdlen = none i }) in
    let number : 0 + all_requests ss ≡ all_requests ss = omega arith in
    ap (λ (m : Maker). link m (run_lines cmdlen m.output start).1) made_lem
    ∙ ap (λ (t : Ccnet). link made (run_lines cmdlen (all_lines ss) t).1) (gen_init_lem cmdlen s h)
    ∙ ap (link made) (
        all_lines_lem cmdlen ss cleared (fresh_buffer cmdlen s.cmdbuf) [] 0 fits refl
        ∙ ap (with_commands cmdlen cleared (fresh_buffer cmdlen s.cmdbuf) (all_commands ss)) number)

pub length-all_commands : (ss : List Statement) → length (all_commands ss) ≡ all_requests ss * 2
length-all_commands [] = refl
length-all_commands (s ∷ ss) =
    omega (
      arith,
      length-append (commands s) (all_commands ss),
      length-commands s,
      length-all_commands ss,
    )
