-- ===== src/Ccnet/Maker.antt =====
-- mkccnetsegment.c: it turns a user's readout, a sequence of calls, into a program that fills the
-- command buffer of ccnetevt.c and its table of segment commands.
use p42018_vmedaq.Common.{
  ℕ, zero, suc, ◌+◌, ltb, if◌then◌else◌, List, [], ◌∷◌, ◌++◌, Memory, update, bit_and, bit_or,
}
use p42018_vmedaq.Daq.{◌>>=◌, ◌>>◌, modify}
use p42018_vmedaq.Ccnet.{
  C, ccnet_gen_init, ccnet_gen_cc, segcmd_init, segcmd_short, segcmd_int, segcmd_end, segcmd_skp,
}

-- A call in the user's readout: init_segment, read_segdata, read_segndata, read_segdata24,
-- read_segndata24, end_segment, control_mod and write_data, in this order.
pub data Statement : Type 0 where
  begin : ℕ → Statement
  word : ℕ → ℕ → ℕ → ℕ → Statement
  words : ℕ → ℕ → ℕ → ℕ → ℕ → Statement
  long : ℕ → ℕ → ℕ → ℕ → Statement
  longs : ℕ → ℕ → ℕ → ℕ → ℕ → Statement
  finish : Statement
  control : ℕ → ℕ → ℕ → ℕ → Statement
  write : ℕ → ℕ → ℕ → ℕ → ℕ → Statement

-- What is printed: a call of ccnet_gen_cc, with its arguments, or a loop of such calls.
pub data Line : Type 0 where
  gen_cc : ℕ → ℕ → ℕ → ℕ → Line
  gen_ccs : ℕ → ℕ → ℕ → ℕ → Line

-- The globals of mkccnetsegment.c, with what was printed so far. Its table has 1024 elements, which
-- nothing checks.
pub record Maker : Type 0 where
  pub segcmd : Memory
  pub segcmdlen : ℕ
  pub output : List Line

-- segcmd[segcmdlen++] = cmd
abbrev pub add_segcmd : ℕ → Maker → Maker
add_segcmd cmd m = record m {
  segcmd = update m.segcmd m.segcmdlen cmd;
  segcmdlen = m.segcmdlen + 1;
}

abbrev pub print : Line → Maker → Maker
print l m = record m { output = m.output ++ (l ∷ []) }

-- The printed variable `val` is 0.
unfoldable pub perform : Statement → Maker → Maker
perform (begin segid) m = add_segcmd (bit_or segcmd_init segid) m
perform (word c n a f) m = add_segcmd (bit_or segcmd_short 1) (print (gen_cc n a f 0) m)
perform (words len c n a f) m =
    let len' = bit_and len 0x0fffffff in
    add_segcmd (bit_or segcmd_short len') (print (gen_ccs len' n a f) m)
perform (long c n a f) m = add_segcmd (bit_or segcmd_int 1) (print (gen_cc n a f 0) m)
perform (longs len c n a f) m =
    let len' = bit_and len 0x0fffffff in
    add_segcmd (bit_or segcmd_int len') (print (gen_ccs len' n a f) m)
perform finish m = add_segcmd segcmd_end m
perform (control c n a f) m = add_segcmd (bit_or segcmd_skp 1) (print (gen_cc n a f 0) m)
perform (write c n a f val) m = add_segcmd (bit_or segcmd_skp 1) (print (gen_cc n a f val) m)

-- ccnetsegment(), the user's readout
unfoldable pub perform_all : List Statement → Maker → Maker
perform_all [] m = m
perform_all (s ∷ ss) m = perform_all ss (perform s m)

abbrev pub empty_maker : Maker
empty_maker = record { segcmd = λ _. 0; segcmdlen = 0; output = [] }

-- What the printed lines do. for(i = 0; i < len; i++) ccnet_gen_cc(n, i + a, f, val);
unfoldable pub run_loop : ℕ → ℕ → ℕ → ℕ → ℕ → ℕ → C (Unit {0})
run_loop cmdlen zero i n a f s = (tt, s)
run_loop cmdlen (suc left) i n a f s =
    run_loop cmdlen left (i + 1) n a f (ccnet_gen_cc cmdlen n (i + a) f 0 s).1

unfoldable pub run_line : ℕ → Line → C (Unit {0})
unfolding run_loop
run_line cmdlen (gen_cc n a f val) = ccnet_gen_cc cmdlen n a f val
run_line cmdlen (gen_ccs len n a f) = run_loop cmdlen len 0 n a f

unfoldable pub run_lines : ℕ → List Line → C (Unit {0})
run_lines cmdlen [] s = (tt, s)
run_lines cmdlen (l ∷ ls) s = run_lines cmdlen ls (run_line cmdlen l s).1

-- ccnetstartup(), as the program prints it
unfoldable pub ccnetstartup : ℕ → List Statement → C (Unit {0})
ccnetstartup cmdlen ss = do
  let made = perform_all ss empty_maker
  _ ← ccnet_gen_init cmdlen cmdlen
  run_lines cmdlen made.output
  modify (λ s. record s {
    segcmd = λ x. if ltb x made.segcmdlen then made.segcmd x else s.segcmd x;
    segcmdlen = made.segcmdlen;
  })
