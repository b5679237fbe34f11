-- ===== src/Nbbqdrv/Delivery.antt =====
-- Whole runs, from the events that the modules answered to the blocks that the user gets.
use p42018_vmedaq.Common.{
  ℕ, ◌<◌, ◌≡◌, refl, sym, ap, ◌∙◌, true, false, ◌==◌, ltb, List, [], ◌∷◌, ◌++◌, arith, length,
  append_assoc,
}
use mathlib.Core.Path.{subst}
use p42018_vmedaq.Device.{Device}
use p42018_vmedaq.Bbrl.{maxbuff}
use p42018_vmedaq.Nbbqdrv.{Driver, interrupt, read, block_at}
use p42018_vmedaq.Nbbqdrv.Interrupt.{IsAsserted, recorded, entered}
use p42018_vmedaq.Nbbqdrv.Calls.{irq_enabled}
use p42018_vmedaq.Nbbqdrv.Invariant.{IsValid, interrupt-IsValid, foreign-IsValid, read-IsValid}
use p42018_vmedaq.Nbbqdrv.Fifo.{Fits, blocks, waiting, read_fifo, interrupt_fifo}
use p42018_vmedaq.Nbbqdrv.Trace.{waiting-foreign}
use p42018_vmedaq.Nbbqdrv.Content.{
  events, Holds, body_of, begun-Holds, interrupt-Holds, foreign-Holds, read-Holds,
}
use p42018_vmedaq.Nbbqdrv.Filled.{block_content, chkblk-interrupt}
use p42018_vmedaq.Nbbqdrv.Readback.{IsBlockOf, block_IsBlockOf}

-- Blocks, each with its events.
abbrev pub AllBlocksOf : List (List (List ℕ)) → List (List ℕ) → Type 0
AllBlocksOf [] [] = Unit
AllBlocksOf [] (block ∷ blocks) = ⊥
AllBlocksOf (bodies ∷ groups) [] = ⊥
AllBlocksOf (bodies ∷ groups) (block ∷ blocks) = IsBlockOf bodies block × AllBlocksOf groups blocks

pub snoc-AllBlocksOf :
    (groups : List (List (List ℕ))) (blocks : List (List ℕ)) (bodies : List (List ℕ))
    (block : List ℕ)
    → AllBlocksOf groups blocks
    → IsBlockOf bodies block
    → AllBlocksOf (groups ++ (bodies ∷ [])) (blocks ++ (block ∷ []))
snoc-AllBlocksOf [] [] bodies block h b = (b, tt)
snoc-AllBlocksOf [] (c ∷ blocks) bodies block h b = absurd h
snoc-AllBlocksOf (g ∷ groups) [] bodies block h b = absurd h
snoc-AllBlocksOf (g ∷ groups) (c ∷ blocks) bodies block (c', h) b =
    (c', snoc-AllBlocksOf groups blocks bodies block h b)

module _ (dev : Device) where
  -- Runs under the user's protocol: the blocks that were read, the events of the blocks that were
  -- filled, and those of the open block, the oldest first. Every event fits its block.
  pub data Run (s : Driver)
      : List (List ℕ) → List (List (List ℕ)) → List (List ℕ) → Driver → Type 0 where
    begin : Run s [] [] [] s
    trigger :
        {fetched : List (List ℕ)} {groups : List (List (List ℕ))} {bodies : List (List ℕ)}
        {t : Driver}
        → Run s fetched groups bodies t
        → irq_enabled t.daq.calls ≡ true
        → IsAsserted dev t
        → ltb maxbuff (recorded dev t).daq.mp ≡ false
        → Run s fetched groups (bodies ++ (body_of dev t ∷ [])) (interrupt dev true t).1
    fill :
        {fetched : List (List ℕ)} {groups : List (List (List ℕ))} {bodies : List (List ℕ)}
        {t : Driver}
        → Run s fetched groups bodies t
        → irq_enabled t.daq.calls ≡ true
        → IsAsserted dev t
        → ltb maxbuff (recorded dev t).daq.mp ≡ true
        → Fits dev t
        → Run s fetched
            (groups ++ ((bodies ++ (body_of dev t ∷ [])) ∷ []))
            []
            (interrupt dev true t).1
    foreign :
        {fetched : List (List ℕ)} {groups : List (List (List ℕ))} {bodies : List (List ℕ)}
        {t : Driver}
        → Run s fetched groups bodies t
        → t.chkbuff < 2
        → (dev.interrupt_reply t.daq.calls == 0) ≡ true
        → Run s fetched groups bodies (interrupt dev true t).1
    fetch :
        {fetched : List (List ℕ)} {groups : List (List (List ℕ))} {bodies : List (List ℕ)}
        {t : Driver}
        → Run s fetched groups bodies t
        → 0 < t.chkbuff
        → Run s (fetched ++ ((read t).0 ∷ [])) groups bodies (read t).1

  pub recorded-Fits : (t : Driver) → ltb maxbuff (recorded dev t).daq.mp ≡ false → Fits dev t
  recorded-Fits t room = ground (arith, room)

  -- Along every run from a valid state with no block open and none waiting, in which each event
  -- that fills a block leaves room for the scaler's counters, the invariant holds; the blocks that
  -- were read, followed by those that wait, are one for each group of triggers that filled a
  -- block, in order, and each holds, behind its four header words, exactly the events of its
  -- triggers, in their order and numbered from 1, with the segments that the modules answered, and
  -- then the end marker, from which a reader that goes by the size in each header gets them back.
  -- The events since the last full block stand in the open one in the same way.
  pub run-AllBlocksOf :
      {s t : Driver} {fetched : List (List ℕ)} {groups : List (List (List ℕ))}
      {bodies : List (List ℕ)}
      → IsValid s
      → s.chkblk ≡ false
      → s.chkbuff ≡ 0
      → Run s fetched groups bodies t
      → IsValid t
        × Holds (events 0 bodies) (length bodies) (entered t).daq
        × AllBlocksOf groups (fetched ++ waiting t)
  unfolding events
  run-AllBlocksOf {s} v fresh none begin =
      (v, begun-Holds s fresh, subst (λ k. AllBlocksOf [] (blocks s.daq.mem s.drn k)) (sym none) tt)
  run-AllBlocksOf v fresh none (trigger {fetched} {groups} {bodies} {t} r enabled asserted room) =
      let (w, h, all) = run-AllBlocksOf v fresh none r in
      let same : waiting (interrupt dev true t).1 ≡ waiting t =
        interrupt_fifo dev t w enabled asserted (recorded-Fits t room) ∙ rw room refl in
      (
        (interrupt-IsValid dev t w enabled asserted).1,
        interrupt-Holds dev bodies t w.started h asserted room,
        subst (λ b. AllBlocksOf groups (fetched ++ b)) (sym same) all,
      )
  run-AllBlocksOf v fresh none (fill {fetched} {groups} {bodies} {t} r enabled asserted full fits) =
      let (w, h, all) = run-AllBlocksOf v fresh none r in
      let u = (interrupt dev true t).1 in
      let block = block_at u.daq t.daq.dn in
      let mine = bodies ++ (body_of dev t ∷ []) in
      let (e, room) = block_content dev bodies t w h asserted fits full in
      let more : waiting u ≡ waiting t ++ (block ∷ []) =
        interrupt_fifo dev t w enabled asserted fits ∙ rw full refl in
      (
        (interrupt-IsValid dev t w enabled asserted).1,
        begun-Holds u (chkblk-interrupt dev t w.started asserted full),
        subst (AllBlocksOf (groups ++ (mine ∷ [])))
            (append_assoc fetched (waiting t) (block ∷ []) ∙ ap (λ b. fetched ++ b) (sym more))
            (snoc-AllBlocksOf groups (fetched ++ waiting t) mine block all
              (block_IsBlockOf mine block e (omega (arith, room)))),
      )
  run-AllBlocksOf v fresh none (foreign {fetched} {groups} {bodies} {t} r free other) =
      let (w, h, all) = run-AllBlocksOf v fresh none r in
      (
        (foreign-IsValid dev t w free other).1,
        foreign-Holds dev bodies t w.started h other,
        subst (λ b. AllBlocksOf groups (fetched ++ b)) (sym (waiting-foreign dev t w free other))
            all,
      )
  run-AllBlocksOf v fresh none (fetch {fetched} {groups} {bodies} {t} r full) =
      let (w, h, all) = run-AllBlocksOf v fresh none r in
      (
        read-IsValid t w full,
        read-Holds (events 0 bodies) (length bodies) t h,
        subst (AllBlocksOf groups)
            (ap (λ b. fetched ++ b) (sym (read_fifo t full))
              ∙ sym (append_assoc fetched ((read t).0 ∷ []) (waiting (read t).1)))
            all,
      )
