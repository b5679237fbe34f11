-- ===== src/Ccnet.antt =====
-- ccnetevt.c: readout through the pipeline CAMAC controller CC/NET, which runs a buffer of commands
-- and gives a buffer of replies. CMDLEN, which no file of the repository defines, is a parameter.
pub mod Maker
pub mod Made
pub mod Startup
pub mod Direct
pub mod Batch
pub mod Wires
use p42018_vmedaq.Common.{
  ℕ, zero, suc, ◌+◌, ◌*◌, ◌/◌, Bool, not, ◌==◌, ◌||◌, ltb, if◌then◌else◌, List, ◌∷◌, Memory, update,
  bit_and, bit_or,
}
use p42018_vmedaq.Daq.{Daq, M, ◌>>=◌, ◌>>◌, pure, gets, modify, store_word, advance}
use p42018_vmedaq.Bbrl.{init_segment, end_segment}

-- What leaves the driver: a buffer that is run, in one of three ways, or a control command.
pub data CcnetCall : Type 0 where
  ccnet_exec ccnet_exec_dma ccnet_exec_pio : Memory → CcnetCall
  ccnet_control : ℕ → CcnetCall

-- The reply buffer after a call, from the calls before it and the buffer's old content.
pub record Controller : Type 0 where
  pub replies : List CcnetCall → CcnetCall → Memory → Memory

-- The globals of ccnetevt.c beside those of bbrl.c. `cmdbuf` and `clrbuf` have CMDLEN * 2 + 2
-- elements; `overrun` says that a command was written outside of them, after which C leaves the
-- state undefined.
pub record Ccnet : Type 0 where
  pub daq : Daq
  pub cmdbuf : Memory
  pub clrbuf : Memory
  pub rplybuf : Memory
  pub segcmd : Memory
  pub segcmdlen : ℕ
  pub overrun : Bool
  pub calls : List CcnetCall

abbrev pub C : Type 0 → Type 0
C A = Ccnet → A × Ccnet

abbrev pub on_daq : {A : Type 0} → M A → C A
on_daq m s = let (a, d) = m s.daq in (a, record s { daq = d })

-- nbbqdrv.h, CNAFGEN of CCNET; the crate number is not used
abbrev pub cnaf : ℕ → ℕ → ℕ → ℕ
cnaf n a f = bit_or (bit_or (n * 256) a * 256) f

-- ccnetevt.h
abbrev pub segcmd_init : ℕ
segcmd_init = 0x10000000

abbrev pub segcmd_short : ℕ
segcmd_short = 0x20000000

abbrev pub segcmd_int : ℕ
segcmd_int = 0x30000000

abbrev pub segcmd_end : ℕ
segcmd_end = 0x40000000

abbrev pub segcmd_skp : ℕ
segcmd_skp = 0x50000000

-- memset(buf, 0, length * sizeof(int)); buf[0] = length
abbrev pub fresh_buffer : ℕ → Memory → Memory
fresh_buffer length buf = update (λ x. if ltb x length then 0 else buf x) 0 length

-- One command at the end of a buffer, whose element 1 counts them, and whether that wrote outside of
-- the buffer's CMDLEN * 2 + 2 elements, which nothing tests.
abbrev pub add_command : ℕ → ℕ → ℕ → ℕ → ℕ → Memory → Memory × Bool
add_command cmdlen n a f val buf =
    let k = buf 1 in
    let with_data = update buf (k * 2 + 2) (bit_and val 0xffffff) in
    let with_cnaf = update with_data (k * 2 + 3) (bit_or 0xe0000000 (cnaf n a f)) in
    (update with_cnaf 1 (with_cnaf 1 + 1), not (ltb (k * 2 + 3) (cmdlen * 2 + 2)))

unfoldable pub ccnet_gen_init : ℕ → ℕ → C ℕ
ccnet_gen_init cmdlen length = do
  let start = (do
    modify (λ s. record s {
      cmdbuf = fresh_buffer length s.cmdbuf;
      clrbuf = fresh_buffer length s.clrbuf;
    })
    pure 1)
  if length == 0 || ltb cmdlen length then pure 0 else start

unfoldable pub ccnet_gen_cc : ℕ → ℕ → ℕ → ℕ → ℕ → C (Unit {0})
ccnet_gen_cc cmdlen n a f val = modify (λ s.
    let r = add_command cmdlen n a f val s.cmdbuf in
    record s { cmdbuf = r.0; overrun = s.overrun || r.1 })

unfoldable pub ccnet_gen_clr : ℕ → ℕ → ℕ → ℕ → ℕ → C (Unit {0})
ccnet_gen_clr cmdlen n a f val = modify (λ s.
    let r = add_command cmdlen n a f val s.clrbuf in
    record s { clrbuf = r.0; overrun = s.overrun || r.1 })

-- for(i = 0; i < len; i++){ data[mp] = rplybuf[2*i+2] & 0xffffff; ... }, by the rounds left
unfoldable pub store_replies : Memory → ℕ → ℕ → M (Unit {0})
store_replies rply zero i = pure tt
store_replies rply (suc left) i = do
  at ← gets (λ d. d.mp)
  store_word at (bit_and (rply (2 * i + 2)) 0xffffff)
  advance 1
  store_replies rply left (i + 1)

-- case SEGCMDSHORT, from round `j` on
unfoldable pub store_shorts : Memory → ℕ → ℕ → ℕ → M (Unit {0})
store_shorts rply idx zero j = pure tt
store_shorts rply idx (suc left) j = do
  at ← gets (λ d. d.mp)
  store_word at (bit_and (rply (2 * j + idx)) 0xffff)
  advance 1
  store_shorts rply idx left (j + 1)

-- case SEGCMDINT, from round `j` on
unfoldable pub store_ints : Memory → ℕ → ℕ → ℕ → M (Unit {0})
store_ints rply idx zero j = pure tt
store_ints rply idx (suc left) j = do
  at ← gets (λ d. d.mp)
  store_word at (bit_and (rply (2 * j + idx)) 0xffff)
  store_word (at + 1) (bit_and (rply (2 * j + idx) / 65536) 0xff)
  advance 2
  store_ints rply idx left (j + 1)

-- The switch of ccnet_recseg, with the new `idx`.
unfoldable pub recseg_case : Memory → ℕ → ℕ → ℕ → M ℕ
recseg_case rply cmd val idx =
    let begin = (do init_segment val; pure idx) in
    let shorts = (do store_shorts rply idx val 0; pure (idx + val * 2)) in
    let ints = (do store_ints rply idx val 0; pure (idx + val * 2)) in
    let finish = (do _ ← end_segment; pure idx) in
    if cmd == segcmd_init
    then begin
    else if cmd == segcmd_short
    then shorts
    else if cmd == segcmd_int
    then ints
    else if cmd == segcmd_end
    then finish
    else if cmd == segcmd_skp
    then pure (idx + val * 2)
    else pure idx

-- for(i = 0; i < segcmdlen; i++), by the rounds left
unfoldable pub recseg_loop : Memory → Memory → ℕ → ℕ → ℕ → M ℕ
recseg_loop segcmd rply zero i idx = pure idx
recseg_loop segcmd rply (suc left) i idx = do
  next ← recseg_case rply (bit_and (segcmd i) 0xf0000000) (bit_and (segcmd i) 0x0fffffff) idx
  recseg_loop segcmd rply left (i + 1) next

module _ (con : Controller) where
  -- Running a buffer; the replies overwrite the reply buffer.
  abbrev pub exec : (Memory → CcnetCall) → (Ccnet → Memory) → C (Unit {0})
  exec way buf = modify (λ s. record s {
    rplybuf = con.replies s.calls (way (buf s)) s.rplybuf;
    calls = way (buf s) ∷ s.calls;
  })

  abbrev pub segdata_by : (Memory → CcnetCall) → C ℕ
  segdata_by way = do
    exec way (λ s. s.cmdbuf)
    rply ← gets (λ s. s.rplybuf)
    on_daq (store_replies rply (rply 1) 0)
    gets (λ s. s.daq.segmentsize)

  unfoldable pub ccnet_segdata_pio : C ℕ
  ccnet_segdata_pio = segdata_by ccnet_exec_pio

  unfoldable pub ccnet_segdata_dma : C ℕ
  ccnet_segdata_dma = segdata_by ccnet_exec_dma

  unfoldable pub ccnet_segdata : C ℕ
  ccnet_segdata = segdata_by ccnet_exec

  unfoldable pub ccnet_dma : C ℕ
  ccnet_dma = do exec ccnet_exec_dma (λ s. s.cmdbuf); gets (λ s. s.rplybuf 1)

  unfoldable pub ccnet_clear_pio : C (Unit {0})
  ccnet_clear_pio = exec ccnet_exec_pio (λ s. s.clrbuf)

  -- It runs the buffer by programmed input and output too.
  unfoldable pub ccnet_clear_dma : C (Unit {0})
  ccnet_clear_dma = exec ccnet_exec_pio (λ s. s.clrbuf)

  unfoldable pub ccnet_clear : C (Unit {0})
  ccnet_clear = exec ccnet_exec (λ s. s.clrbuf)

  unfoldable pub ccnet_recseg : C ℕ
  ccnet_recseg = do
    _ ← ccnet_dma
    s ← gets (λ s. s)
    on_daq (recseg_loop s.segcmd s.rplybuf s.segcmdlen 0 2)

-- The control commands, with the codes of ccnetevt.h.
abbrev control_command : ℕ → C (Unit {0})
control_command code =
    modify (λ s. record s { calls = ccnet_control (bit_or 0xf0000000 code) ∷ s.calls })

unfoldable pub ccnet_pulse : C (Unit {0})
ccnet_pulse = control_command 0x10000

unfoldable pub ccnet_trig : C (Unit {0})
ccnet_trig = control_command 0x30000

unfoldable pub ccnet_notrig : C (Unit {0})
ccnet_notrig = control_command 0x40000

unfoldable pub ccnet_pulsemode : C (Unit {0})
ccnet_pulsemode = control_command 0x50000

unfoldable pub ccnet_levelmode : C (Unit {0})
ccnet_levelmode = control_command 0x60000
