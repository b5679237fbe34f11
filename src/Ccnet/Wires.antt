-- ===== src/Ccnet/Wires.antt =====
-- The command buffer against the direct readout: the calls on the CAMAC crate, each as the command
-- that stands for it.
use p42018_vmedaq.Common.{
  ℕ, zero, suc, ◌+◌, ◌*◌, ◌≤◌, ◌≡◌, refl, sym, ap, Bool, true, false, ltb, ◌||◌, ◌∙◌, List, [], ◌∷◌,
  ◌++◌, length, Memory, slice, inl, write_words_outside, write_words, slice-write_words, slice_ext,
  bit_and, bit_or, bit_and-0xffffff, u16, append_assoc, append-nil, arith,
}
use mathlib.Core.Path.{ap₂, subst}
use p42018_vmedaq.Device.{History, Call, camac_read16, camac_read24, camac_control, camac_write16}
use p42018_vmedaq.Daq.{Daq}
use p42018_vmedaq.Bbrl.{init_segment, end_segment}
use p42018_vmedaq.Bbrl.Camac.{Camac, segndata_loop, read_segdata24, control_mod, write_data}
use p42018_vmedaq.Ccnet.{Ccnet, cnaf, fresh_buffer}
use p42018_vmedaq.Ccnet.Maker.{
  Statement, begin, word, words, long, longs, finish, control, write, ccnetstartup,
}
use p42018_vmedaq.Ccnet.Made.{all_requests, Fits, AllFit}
use p42018_vmedaq.Ccnet.Startup.{
  command, command_run, commands, all_commands, length-all_commands, loaded, ccnetstartup_lem,
}
use p42018_vmedaq.Ccnet.Direct.{direct, segndata24}
use p42018_vmedaq.Ccnet.Batch.{direct_all}

-- The commands that stand in the buffer for calls of the direct readout.
abbrev pub wire : Call → List ℕ
wire (camac_read16 addr) = 0 ∷ bit_or 0xe0000000 addr ∷ []
wire (camac_read24 addr) = 0 ∷ bit_or 0xe0000000 addr ∷ []
wire (camac_control addr) = 0 ∷ bit_or 0xe0000000 addr ∷ []
wire (camac_write16 addr val) = val ∷ bit_or 0xe0000000 addr ∷ []
wire other = []

abbrev pub wires : History → List ℕ
wires [] = []
wires (c ∷ cs) = wires cs ++ wire c

-- nbbqdrv.h: the crate controller has the addresses of the pipeline controller.
abbrev pub SameAddresses : Camac → Type 0
SameAddresses cam = (c n a f : ℕ) → cam.cnafgen c n a f ≡ cnaf n a f

module _ (cam : Camac) (same : SameAddresses cam) where
  words_wires :
      (len c n a f : ℕ) (d : Daq)
      → wires (segndata_loop cam len c n a f d).1.calls ≡ wires d.calls ++ command_run len n a f
  unfolding segndata_loop
  words_wires zero c n a f d = sym (append-nil (wires d.calls))
  words_wires (suc len) c n a f d =
      words_wires len c n (a + 1) f (segndata_loop cam 1 c n a f d).1
      ∙ ap (λ x. (wires d.calls ++ (0 ∷ bit_or 0xe0000000 x ∷ [])) ++ command_run len n (a + 1) f)
          (same c n a f)
      ∙ append_assoc (wires d.calls) (command n a f 0) (command_run len n (a + 1) f)

  longs_wires :
      (len c n a f : ℕ) (d : Daq)
      → wires (segndata24 cam len c n a f d).1.calls ≡ wires d.calls ++ command_run len n a f
  unfolding segndata24 read_segdata24
  longs_wires zero c n a f d = sym (append-nil (wires d.calls))
  longs_wires (suc len) c n a f d =
      longs_wires len c n (a + 1) f (read_segdata24 cam c n a f d).1
      ∙ ap (λ x. (wires d.calls ++ (0 ∷ bit_or 0xe0000000 x ∷ [])) ++ command_run len n (a + 1) f)
          (same c n a f)
      ∙ append_assoc (wires d.calls) (command n a f 0) (command_run len n (a + 1) f)

  wires-direct :
      (s : Statement) (d : Daq)
      → Fits s
      → wires (direct cam s d).1.calls ≡ wires d.calls ++ commands s
  unfolding direct init_segment end_segment control_mod write_data
  wires-direct (begin segid) d fits = sym (append-nil (wires d.calls))
  wires-direct (word c n a f) d fits = words_wires 1 c n a f d
  wires-direct (words len c n a f) d fits = words_wires len c n a f d
  wires-direct (long c n a f) d fits = longs_wires 1 c n a f d
  wires-direct (longs len c n a f) d fits = longs_wires len c n a f d
  wires-direct finish d fits = sym (append-nil (wires d.calls))
  wires-direct (control c n a f) d fits =
      ap (λ x. wires d.calls ++ (0 ∷ bit_or 0xe0000000 x ∷ [])) (same c n a f)
  wires-direct (write c n a f val) d fits =
      let e : u16 val ≡ bit_and val 0xffffff = omega (arith, fits, bit_and-0xffffff val) in
      ap₂ (λ v x. wires d.calls ++ (v ∷ bit_or 0xe0000000 x ∷ [])) e (same c n a f)

  wires-direct_all :
      (ss : List Statement) (d : Daq)
      → AllFit ss
      → wires (direct_all cam ss d).1.calls ≡ wires d.calls ++ all_commands ss
  unfolding direct_all
  wires-direct_all [] d fits = sym (append-nil (wires d.calls))
  wires-direct_all (s ∷ ss) d (fit, fits) =
      wires-direct_all ss (direct cam s d).1 fits
      ∙ ap (λ ws. ws ++ all_commands ss) (wires-direct s d fit)
      ∙ append_assoc (wires d.calls) (commands s) (all_commands ss)

-- What a buffer of commands holds.
abbrev pub HoldsCommands : Memory → ℕ → ℕ → List ℕ → Type 0
HoldsCommands buf cmdlen count ws =
    (buf 0 ≡ cmdlen) × (buf 1 ≡ count) × (slice buf 2 (count * 2) ≡ ws)

loaded_commands :
    (cmdlen : ℕ) (ss : List Statement) (s : Ccnet)
    → 2 ≤ cmdlen
    → HoldsCommands (loaded cmdlen ss s).cmdbuf cmdlen (all_requests ss) (all_commands ss)
loaded_commands cmdlen ss s valid =
    let ws = all_commands ss in
    let fresh = fresh_buffer cmdlen s.cmdbuf in
    let w = write_words fresh 2 ws in
    let first : w 0 ≡ cmdlen = write_words_outside ws fresh 2 0 (inl (omega arith)) ∙ refl in
    (
      first,
      refl,
      ap (slice (loaded cmdlen ss s).cmdbuf 2) (sym (length-all_commands ss))
          ∙ slice_ext (length ws) (loaded cmdlen ss s).cmdbuf w 2 (λ x p q. ground arith)
          ∙ slice-write_words ws fresh 2,
    )

or_false : (b : Bool) → (b || false) ≡ b
or_false true = refl
or_false false = refl

-- Where the CAMAC crate has the addresses of CC/NET, and the readout makes at most CMDLEN calls on
-- it, ccnetstartup writes no command outside its buffers, and the command buffer that it leaves
-- holds CMDLEN, the number of its commands, and then the commands: one for each call that the
-- direct readout makes on the crate, in the order of the calls, with the call's address and data.
-- The readout's numbers have to fit their commands, and CMDLEN is at least 2.
pub ccnetstartup-wires :
    (cam : Camac) (cmdlen : ℕ) (ss : List Statement) (s : Ccnet) (d : Daq)
    → SameAddresses cam
    → 2 ≤ cmdlen
    → all_requests ss ≤ cmdlen
    → AllFit ss
    → d.calls ≡ []
    → ((ccnetstartup cmdlen ss s).1.overrun ≡ s.overrun)
      × HoldsCommands
          (ccnetstartup cmdlen ss s).1.cmdbuf
          cmdlen
          (all_requests ss)
          (wires (direct_all cam ss d).1.calls)
ccnetstartup-wires cam cmdlen ss s d same valid room fits none =
    let e = wires-direct_all cam same ss d fits ∙ ap (λ cs. wires cs ++ all_commands ss) none in
    let holds = loaded_commands cmdlen ss s valid in
    let within : ltb cmdlen (all_requests ss) ≡ false = ground arith in
    (
      ap (λ (x : Ccnet). x.overrun) (ccnetstartup_lem cmdlen ss s valid fits)
          ∙ ap (λ b. s.overrun || b) within
          ∙ or_false s.overrun,
      subst
          (λ (x : Ccnet).
            HoldsCommands x.cmdbuf cmdlen (all_requests ss) (wires (direct_all cam ss d).1.calls))
          (sym (ccnetstartup_lem cmdlen ss s valid fits))
          (subst (λ ws. HoldsCommands (loaded cmdlen ss s).cmdbuf cmdlen (all_requests ss) ws)
            (sym e) holds),
    )
