-- ===== src/Ccnet/Made.antt =====
-- What mkccnetsegment.c makes of a readout: its table of segment commands and its printed lines, and
-- how a command is taken apart again.
use p42018_vmedaq.Common.{
  ℕ, suc, ◌+◌, ◌*◌, ◌^◌, ◌<◌, ◌≡◌, refl, sym, ap, ◌∙◌, List, [], ◌∷◌, ◌++◌, length, write_words,
  bit_and, bit_or, bit_or-command, bit_and-0xf0000000, bit_and-0x0fffffff, arith, append_assoc,
  append-nil,
}
use p42018_vmedaq.Ccnet.{segcmd_init, segcmd_short, segcmd_int, segcmd_end, segcmd_skp}
use p42018_vmedaq.Ccnet.Maker.{
  Statement, begin, word, words, long, longs, finish, control, write, Line, gen_cc, gen_ccs, Maker,
  perform, perform_all, add_segcmd,
}

-- The command and the lines of one statement.
abbrev pub code : Statement → ℕ
code (begin segid) = bit_or segcmd_init segid
code (word c n a f) = bit_or segcmd_short 1
code (words len c n a f) = bit_or segcmd_short (bit_and len 0x0fffffff)
code (long c n a f) = bit_or segcmd_int 1
code (longs len c n a f) = bit_or segcmd_int (bit_and len 0x0fffffff)
code finish = segcmd_end
code (control c n a f) = bit_or segcmd_skp 1
code (write c n a f val) = bit_or segcmd_skp 1

abbrev pub lines : Statement → List Line
lines (begin segid) = []
lines (word c n a f) = gen_cc n a f 0 ∷ []
lines (words len c n a f) = gen_ccs (bit_and len 0x0fffffff) n a f ∷ []
lines (long c n a f) = gen_cc n a f 0 ∷ []
lines (longs len c n a f) = gen_ccs (bit_and len 0x0fffffff) n a f ∷ []
lines finish = []
lines (control c n a f) = gen_cc n a f 0 ∷ []
lines (write c n a f val) = gen_cc n a f val ∷ []

abbrev pub codes : List Statement → List ℕ
codes [] = []
codes (s ∷ ss) = code s ∷ codes ss

abbrev pub all_lines : List Statement → List Line
all_lines [] = []
all_lines (s ∷ ss) = lines s ++ all_lines ss

-- The commands of CAMAC that a statement stands for.
abbrev pub requests : Statement → ℕ
requests (begin segid) = 0
requests (word c n a f) = 1
requests (words len c n a f) = len
requests (long c n a f) = 1
requests (longs len c n a f) = len
requests finish = 0
requests (control c n a f) = 1
requests (write c n a f val) = 1

abbrev pub all_requests : List Statement → ℕ
all_requests [] = 0
all_requests (s ∷ ss) = requests s + all_requests ss

-- The number in a statement leaves the four bits of its command alone, and a value to write is a
-- word.
abbrev pub Fits : Statement → Type 0
Fits (begin segid) = segid < 2 ^ 28
Fits (word c n a f) = Unit
Fits (words len c n a f) = len < 2 ^ 28
Fits (long c n a f) = Unit
Fits (longs len c n a f) = len < 2 ^ 28
Fits finish = Unit
Fits (control c n a f) = Unit
Fits (write c n a f val) = val < 65536

abbrev pub AllFit : List Statement → Type 0
AllFit [] = Unit
AllFit (s ∷ ss) = Fits s × AllFit ss

perform_lem :
    (s : Statement) (m : Maker)
    → perform s m ≡ add_segcmd (code s) (record m { output = m.output ++ lines s })
unfolding perform
perform_lem (begin segid) m =
    λ i. add_segcmd (bit_or segcmd_init segid) (record m { output = sym (append-nil m.output) i })
perform_lem (word c n a f) m = refl
perform_lem (words len c n a f) m = refl
perform_lem (long c n a f) m = refl
perform_lem (longs len c n a f) m = refl
perform_lem finish m =
    λ i. add_segcmd segcmd_end (record m { output = sym (append-nil m.output) i })
perform_lem (control c n a f) m = refl
perform_lem (write c n a f val) m = refl

pub perform_all_lem :
    (ss : List Statement) (m : Maker)
    → perform_all ss m ≡ record {
      segcmd = write_words m.segcmd m.segcmdlen (codes ss);
      segcmdlen = m.segcmdlen + length (codes ss);
      output = m.output ++ all_lines ss;
    }
unfolding perform_all write_words
perform_all_lem [] m =
    let e : m.segcmdlen ≡ m.segcmdlen + 0 = omega arith in
    λ i. record m { segcmdlen = e i; output = sym (append-nil m.output) i }
perform_all_lem (s ∷ ss) m =
    let next : Maker = add_segcmd (code s) (record m { output = m.output ++ lines s }) in
    let n : m.segcmdlen + 1 + length (codes ss) ≡ m.segcmdlen + suc (length (codes ss)) =
      omega arith in
    ap (perform_all ss) (perform_lem s m) ∙ perform_all_lem ss next ∙ (λ i. record {
      segcmd = write_words m.segcmd m.segcmdlen (codes (s ∷ ss));
      segcmdlen = n i;
      output = append_assoc m.output (lines s) (all_lines ss) i;
    })

-- A command and its number come back.
pub command_parts :
    (k val : ℕ)
    → k < 16
    → val < 2 ^ 28
    → (bit_and (bit_or (k * 2 ^ 28) val) 0xf0000000 ≡ k * 2 ^ 28)
      × (bit_and (bit_or (k * 2 ^ 28) val) 0x0fffffff ≡ val)
command_parts k val hk hv =
    let w = bit_or (k * 2 ^ 28) val in
    let e = bit_or-command k val hv in
    (omega (arith, e, bit_and-0xf0000000 w), omega (arith, e, bit_and-0x0fffffff w))
