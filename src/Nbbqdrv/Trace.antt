-- ===== src/Nbbqdrv/Trace.antt =====
-- The blocks of a whole run: what was read and what waits is what was filled, in that order.
use p42018_vmedaq.Common.{
  ℕ, ◌<◌, ◌≡◌, refl, sym, ap, ◌∙◌, Bool, true, false, ◌==◌, ltb, if◌then◌else◌, List, [], ◌∷◌, ◌++◌,
  append_assoc, append-nil,
}
use mathlib.Core.Path.{subst, ap₂}
use p42018_vmedaq.Device.{Device}
use p42018_vmedaq.Bbrl.{maxbuff}
use p42018_vmedaq.Nbbqdrv.{Driver, IrqReturn, interrupt, read, block_at}
use p42018_vmedaq.Nbbqdrv.Interrupt.{IsAsserted, recorded, entered, foreign_lem}
use p42018_vmedaq.Nbbqdrv.Calls.{irq_enabled}
use p42018_vmedaq.Nbbqdrv.Invariant.{IsValid, interrupt-IsValid, foreign-IsValid, read-IsValid}
use p42018_vmedaq.Nbbqdrv.Fifo.{
  waiting, read_fifo, interrupt_fifo, Fits, blocks, blocks-fill, outside-entered, entered_indices,
  IsOutside,
}

pub append_if :
    (full : Bool) (bs : List (List ℕ)) (b : List ℕ)
    → (if full then bs ++ (b ∷ []) else bs) ≡ bs ++ (if full then b ∷ [] else [])
append_if true bs b = refl
append_if false bs b = sym (append-nil bs)

-- Opening a block leaves the blocks that wait.
waiting-entered : (t : Driver) → IsValid t → t.chkbuff < 2 → waiting (entered t) ≡ waiting t
waiting-entered t v free =
    let (n, c) = entered_indices t in
    let same =
      (blocks-fill t.daq.mem (entered t).daq.mem t.drn t.chkbuff t.daq.dn v.drn_bit free v.turn
        (λ x h. (outside-entered t x (subst (λ b. IsOutside b x) (sym v.at_half) h)).0)).0 in
    ap₂ (λ i k. blocks (entered t).daq.mem i k) n c ∙ same

module _ (dev : Device) where
  -- The block that a trigger fills, if it fills one.
  abbrev pub filled_by : Driver → List (List ℕ)
  filled_by t =
      if ltb maxbuff (recorded dev t).daq.mp
      then block_at (interrupt dev true t).1.daq t.daq.dn ∷ []
      else []

  -- The runs of a started driver under the user's protocol, with the blocks that were filled and
  -- those that were read, the oldest first. Every event fits its block.
  pub data Trace (s : Driver) : List (List ℕ) → List (List ℕ) → Driver → Type 0 where
    begin : Trace s [] [] s
    trigger :
        {filled fetched : List (List ℕ)} {t : Driver}
        → Trace s filled fetched t
        → irq_enabled t.daq.calls ≡ true
        → IsAsserted dev t
        → Fits dev t
        → Trace s (filled ++ filled_by t) fetched (interrupt dev true t).1
    foreign :
        {filled fetched : List (List ℕ)} {t : Driver}
        → Trace s filled fetched t
        → t.chkbuff < 2
        → (dev.interrupt_reply t.daq.calls == 0) ≡ true
        → Trace s filled fetched (interrupt dev true t).1
    fetch :
        {filled fetched : List (List ℕ)} {t : Driver}
        → Trace s filled fetched t
        → 0 < t.chkbuff
        → Trace s filled (fetched ++ ((read t).0 ∷ [])) (read t).1

  waiting-interrupt :
      (t : Driver)
      → IsValid t
      → irq_enabled t.daq.calls ≡ true
      → IsAsserted dev t
      → Fits dev t
      → waiting (interrupt dev true t).1 ≡ waiting t ++ filled_by t
  waiting-interrupt t v enabled asserted fits =
      interrupt_fifo dev t v enabled asserted fits
      ∙ append_if (ltb maxbuff (recorded dev t).daq.mp) (waiting t) _

  pub waiting-foreign :
      (t : Driver)
      → IsValid t
      → t.chkbuff < 2
      → (dev.interrupt_reply t.daq.calls == 0) ≡ true
      → waiting (interrupt dev true t).1 ≡ waiting t
  waiting-foreign t v free other =
      ap (λ (r : IrqReturn × Driver). waiting r.1) (foreign_lem dev t v.started other)
      ∙ waiting-entered t v free

  -- Along every run from a valid state in which each event fits its block, the blocks that were
  -- read, followed by those that still wait, are the blocks that waited at the beginning, followed
  -- by those that triggers have filled: no block is lost, changed, read twice or out of order.
  pub trace_lem :
      {s t : Driver} {filled fetched : List (List ℕ)}
      → IsValid s
      → Trace s filled fetched t
      → IsValid t × (fetched ++ waiting t ≡ waiting s ++ filled)
  trace_lem {s} v begin = (v, sym (append-nil (waiting s)))
  trace_lem {s} v (trigger {filled} {fetched} {t} r enabled asserted fits) =
      let (w, e) = trace_lem v r in
      (
        (interrupt-IsValid dev t w enabled asserted).1,
        ap (λ b. fetched ++ b) (waiting-interrupt t w enabled asserted fits)
            ∙ sym (append_assoc fetched (waiting t) (filled_by t))
            ∙ ap (λ b. b ++ filled_by t) e
            ∙ append_assoc (waiting s) filled (filled_by t),
      )
  trace_lem v (foreign {filled} {fetched} {t} r free other) =
      let (w, e) = trace_lem v r in
      (
        (foreign-IsValid dev t w free other).1,
        ap (λ b. fetched ++ b) (waiting-foreign t w free other) ∙ e,
      )
  trace_lem v (fetch {filled} {fetched} {t} r h) =
      let (w, e) = trace_lem v r in
      (
        read-IsValid t w h,
        append_assoc fetched ((read t).0 ∷ []) (waiting (read t).1)
            ∙ ap (λ b. fetched ++ b) (read_fifo t h)
            ∙ e,
      )
