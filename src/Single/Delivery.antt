-- ===== src/Single/Delivery.antt =====
-- Runs and whole sessions with one buffer.
use p42018_vmedaq.Common.{
  ℕ, ◌≡◌, refl, sym, ap, ◌∙◌, true, false, ◌==◌, ltb, List, [], ◌∷◌, ◌++◌, append_assoc, append-nil,
  length,
}
use mathlib.Core.Path.{subst}
use p42018_vmedaq.Device.{Device}
use p42018_vmedaq.Bbrl.{maxbuff}
use p42018_vmedaq.Nbbqdrv.{Driver, block_at}
use p42018_vmedaq.Nbbqdrv.Calls.{irq_enabled}
use p42018_vmedaq.Nbbqdrv.Interrupt.{IsAsserted, recorded, entered}
use p42018_vmedaq.Nbbqdrv.Fifo.{Fits}
use p42018_vmedaq.Nbbqdrv.Content.{events, Holds, body_of, begun-Holds}
use p42018_vmedaq.Nbbqdrv.Delivery.{AllBlocksOf, snoc-AllBlocksOf}
use p42018_vmedaq.Single.{read_single, give_back, interrupt_single}
use p42018_vmedaq.Single.Invariant.{
  IsSingle, held, read-IsSingle, give_back-IsSingle, interrupt-IsSingle, foreign-IsSingle,
}
use p42018_vmedaq.Single.Content.{
  give_back-Holds, held-give_back, read-Holds, held-read, interrupt-Holds, foreign-Holds,
  chkbuff-interrupt, chkbuff-foreign, fill-IsBlockOf,
}

pub held-none : (t : Driver) → t.chkbuff ≡ 0 → held t ≡ []
held-none t none = rw none refl

pub held-one : (t : Driver) → t.chkbuff ≡ 1 → held t ≡ block_at t.daq 0 ∷ []
held-one t one = rw one refl

module _ (dev : Device) where
  -- Runs under the user's protocol, in which a block that waits is read before the buffer is given
  -- back: the blocks that were read, the events of the blocks that were filled, and those of the
  -- open block, the oldest first.
  pub data SingleRun (s : Driver)
      : List (List ℕ) → List (List (List ℕ)) → List (List ℕ) → Driver → Type 0 where
    begin : SingleRun s [] [] [] s
    trigger :
        {fetched : List (List ℕ)} {groups : List (List (List ℕ))} {bodies : List (List ℕ)}
        {t : Driver}
        → SingleRun s fetched groups bodies t
        → irq_enabled t.daq.calls ≡ true
        → IsAsserted dev t
        → ltb maxbuff (recorded dev t).daq.mp ≡ false
        → SingleRun s fetched groups
            (bodies ++ (body_of dev t ∷ []))
            (interrupt_single dev true t).1
    fill :
        {fetched : List (List ℕ)} {groups : List (List (List ℕ))} {bodies : List (List ℕ)}
        {t : Driver}
        → SingleRun s fetched groups bodies t
        → irq_enabled t.daq.calls ≡ true
        → IsAsserted dev t
        → ltb maxbuff (recorded dev t).daq.mp ≡ true
        → Fits dev t
        → SingleRun s fetched
            (groups ++ ((bodies ++ (body_of dev t ∷ [])) ∷ []))
            []
            (interrupt_single dev true t).1
    foreign :
        {fetched : List (List ℕ)} {groups : List (List (List ℕ))} {bodies : List (List ℕ)}
        {t : Driver}
        → SingleRun s fetched groups bodies t
        → t.chkbuff ≡ 0
        → (dev.interrupt_reply t.daq.calls == 0) ≡ true
        → SingleRun s fetched groups bodies (interrupt_single dev true t).1
    fetch :
        {fetched : List (List ℕ)} {groups : List (List (List ℕ))} {bodies : List (List ℕ)}
        {t : Driver}
        → SingleRun s fetched groups bodies t
        → t.chkbuff ≡ 1
        → SingleRun s (fetched ++ ((read_single t).0 ∷ [])) groups bodies (read_single t).1
    give :
        {fetched : List (List ℕ)} {groups : List (List (List ℕ))} {bodies : List (List ℕ)}
        {t : Driver}
        → SingleRun s fetched groups bodies t
        → t.chkbuff ≡ 0
        → SingleRun s fetched groups bodies (give_back t).1

  -- Along every run from a valid state with no block open and none waiting, the invariant holds, and
  -- the blocks that were read, with the one that waits, are one for each group of triggers that
  -- filled a block, in order, with exactly the events of its triggers; the events since then stand
  -- in the open block.
  pub single_run_lem :
      {s t : Driver} {fetched : List (List ℕ)} {groups : List (List (List ℕ))}
      {bodies : List (List ℕ)}
      → IsSingle s
      → s.chkblk ≡ false
      → s.chkbuff ≡ 0
      → SingleRun s fetched groups bodies t
      → IsSingle t
        × Holds (events 0 bodies) (length bodies) (entered t).daq
        × AllBlocksOf groups (fetched ++ held t)
  unfolding events
  single_run_lem {s} v fresh none begin =
      (v, begun-Holds s fresh, subst (AllBlocksOf []) (sym (held-none s none)) tt)
  single_run_lem v fresh none (trigger {fetched} {groups} {bodies} {t} r enabled asserted room) =
      let (w, h, all) = single_run_lem v fresh none r in
      let free = w.irq enabled in
      let u = (interrupt_single dev true t).1 in
      let still : u.chkbuff ≡ 0 = chkbuff-interrupt dev t w.started asserted ∙ rw room free in
      (
        interrupt-IsSingle dev t w enabled asserted,
        interrupt-Holds dev bodies t w.started h asserted room,
        subst (λ b. AllBlocksOf groups (fetched ++ b)) (held-none t free ∙ sym (held-none u still))
            all,
      )
  single_run_lem v fresh none (fill {fetched} {groups} {bodies} {t} r enabled asserted full fits) =
      let (w, h, all) = single_run_lem v fresh none r in
      let u = (interrupt_single dev true t).1 in
      let mine = bodies ++ (body_of dev t ∷ []) in
      let (block, idle, waits) = fill-IsBlockOf dev bodies t w h asserted fits full in
      let before : fetched ++ held t ≡ fetched =
        ap (λ b. fetched ++ b) (held-none t (w.irq enabled)) ∙ append-nil fetched in
      (
        interrupt-IsSingle dev t w enabled asserted,
        begun-Holds u idle,
        subst (λ b. AllBlocksOf (groups ++ (mine ∷ [])) (fetched ++ b)) (sym (held-one u waits))
            (snoc-AllBlocksOf groups fetched mine (block_at u.daq 0)
              (subst (AllBlocksOf groups) before all) block),
      )
  single_run_lem v fresh none (foreign {fetched} {groups} {bodies} {t} r free other) =
      let (w, h, all) = single_run_lem v fresh none r in
      let u = (interrupt_single dev true t).1 in
      let still : u.chkbuff ≡ 0 = chkbuff-foreign dev t w.started other ∙ free in
      (
        foreign-IsSingle dev t w free other,
        foreign-Holds dev (events 0 bodies) (length bodies) t w.started h other,
        subst (λ b. AllBlocksOf groups (fetched ++ b)) (held-none t free ∙ sym (held-none u still))
            all,
      )
  single_run_lem v fresh none (fetch {fetched} {groups} {bodies} {t} r full) =
      let (w, h, all) = single_run_lem v fresh none r in
      (
        read-IsSingle t w,
        read-Holds (events 0 bodies) (length bodies) t h,
        subst (AllBlocksOf groups)
            (ap (λ b. fetched ++ b) (sym (held-read t full))
              ∙ sym (append_assoc fetched ((read_single t).0 ∷ []) (held (read_single t).1)))
            all,
      )
  single_run_lem v fresh none (give {fetched} {groups} {bodies} {t} r free) =
      let (w, h, all) = single_run_lem v fresh none r in
      (
        give_back-IsSingle t w free,
        give_back-Holds (events 0 bodies) (length bodies) t h,
        subst (λ b. AllBlocksOf groups (fetched ++ b)) (sym (held-give_back t)) all,
      )
