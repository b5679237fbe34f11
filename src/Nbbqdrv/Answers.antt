-- ===== src/Nbbqdrv/Answers.antt =====
-- A whole session down to the long words that the modules answered.
use p42018_vmedaq.Common.{ℕ, ◌+◌, ◌≡◌, refl, sym, ap, ◌∙◌, false, List, [], ◌∷◌, ◌++◌}
use mathlib.Core.Path.{ap₂}
use mathlib.Core.List.{map, map-append}
use p42018_vmedaq.Device.{Device, History}
use p42018_vmedaq.Bbrl.Format.{Segment, parse_segments}
use p42018_vmedaq.Handlers.Event.{evt_body}
use p42018_vmedaq.Handlers.Format.{evt_segments, parse-evt_body}
use p42018_vmedaq.Nbbqdrv.{Driver, open_driver, poll, stop_daq}
use p42018_vmedaq.Nbbqdrv.Interrupt.{triggered}
use p42018_vmedaq.Nbbqdrv.Readback.{numbered}
use p42018_vmedaq.Nbbqdrv.Delivery.{Run}
use p42018_vmedaq.Nbbqdrv.Session.{Rest}
use p42018_vmedaq.Nbbqdrv.Decode.{decode_all, numbered_all}
use p42018_vmedaq.Nbbqdrv.Complete.{session-decoded}

-- An event taken apart: its number and its three segments.
abbrev pub segments_of : ℕ × List ℕ → ℕ × List Segment
segments_of e = (e.0, parse_segments 3 e.1)

module _ (dev : Device) where
  -- What the modules answer to the triggers at these histories, as events counted from `n + 1` on.
  unfoldable pub answered : ℕ → List History → List (ℕ × List Segment)
  answered n [] = []
  answered n (cs ∷ hs) = (n + 1, evt_segments dev cs) ∷ answered (n + 1) hs

  unfoldable pub answered_all : List (List History) → List (ℕ × List Segment)
  answered_all [] = []
  answered_all (hs ∷ groups) = answered 0 hs ++ answered_all groups

  -- The history at which the readout of a trigger begins.
  abbrev pub asked_at : Driver → History
  asked_at t = (triggered t).daq.calls

  module _ {s : Driver} where
    -- Of a run, the histories of the triggers since the last full block, and of those that filled
    -- each block.
    unfoldable pub open_triggers :
        {t : Driver} {fetched : List (List ℕ)} {groups : List (List (List ℕ))}
        {bodies : List (List ℕ)}
        → Run dev s fetched groups bodies t
        → List History
    open_triggers Run.begin = []
    open_triggers (Run.trigger {fetched} {groups} {bodies} {t} r _ _ _) =
        open_triggers r ++ (asked_at t ∷ [])
    open_triggers (Run.fill r _ _ _ _) = []
    open_triggers (Run.foreign r _ _) = open_triggers r
    open_triggers (Run.fetch r _) = open_triggers r

    unfoldable pub full_triggers :
        {t : Driver} {fetched : List (List ℕ)} {groups : List (List (List ℕ))}
        {bodies : List (List ℕ)}
        → Run dev s fetched groups bodies t
        → List (List History)
    full_triggers Run.begin = []
    full_triggers (Run.trigger r _ _ _) = full_triggers r
    full_triggers (Run.fill {fetched} {groups} {bodies} {t} r _ _ _ _) =
        full_triggers r ++ ((open_triggers r ++ (asked_at t ∷ [])) ∷ [])
    full_triggers (Run.foreign r _ _) = full_triggers r
    full_triggers (Run.fetch r _) = full_triggers r

    bodies_lem :
        {t : Driver} {fetched : List (List ℕ)} {groups : List (List (List ℕ))}
        {bodies : List (List ℕ)} (r : Run dev s fetched groups bodies t)
        → bodies ≡ map (evt_body dev) (open_triggers r)
    unfolding open_triggers
    bodies_lem Run.begin = refl
    bodies_lem (Run.trigger {fetched} {groups} {bodies} {t} r _ _ _) =
        ap (λ bs. bs ++ (evt_body dev (asked_at t) ∷ [])) (bodies_lem r)
        ∙ sym (map-append (evt_body dev) (open_triggers r) (asked_at t ∷ []))
    bodies_lem (Run.fill r _ _ _ _) = refl
    bodies_lem (Run.foreign r _ _) = bodies_lem r
    bodies_lem (Run.fetch r _) = bodies_lem r

    groups_lem :
        {t : Driver} {fetched : List (List ℕ)} {groups : List (List (List ℕ))}
        {bodies : List (List ℕ)} (r : Run dev s fetched groups bodies t)
        → groups ≡ map (map (evt_body dev)) (full_triggers r)
    unfolding full_triggers
    groups_lem Run.begin = refl
    groups_lem (Run.trigger r _ _ _) = groups_lem r
    groups_lem (Run.fill {fetched} {groups} {bodies} {t} r _ _ _ _) =
        let last = open_triggers r ++ (asked_at t ∷ []) in
        let all : bodies ++ (evt_body dev (asked_at t) ∷ []) ≡ map (evt_body dev) last =
          ap (λ bs. bs ++ (evt_body dev (asked_at t) ∷ [])) (bodies_lem r)
          ∙ sym (map-append (evt_body dev) (open_triggers r) (asked_at t ∷ [])) in
        ap₂ (λ gs bs. gs ++ (bs ∷ [])) (groups_lem r) all
        ∙ sym (map-append (map (evt_body dev)) (full_triggers r) (last ∷ []))
    groups_lem (Run.foreign r _ _) = groups_lem r
    groups_lem (Run.fetch r _) = groups_lem r

  numbered-answered :
      (n : ℕ) (hs : List History)
      → map segments_of (numbered n (map (evt_body dev) hs)) ≡ answered n hs
  unfolding numbered answered
  numbered-answered n [] = refl
  numbered-answered n (cs ∷ hs) =
      ap₂ (λ b es. (n + 1, b) ∷ es) (parse-evt_body dev cs) (numbered-answered (n + 1) hs)

  numbered_all-answered :
      (groups : List (List History))
      → map segments_of (numbered_all (map (map (evt_body dev)) groups)) ≡ answered_all groups
  unfolding numbered_all answered_all
  numbered_all-answered [] = refl
  numbered_all-answered (hs ∷ groups) =
      map-append segments_of (numbered 0 (map (evt_body dev) hs))
        (numbered_all (map (map (evt_body dev)) groups))
      ∙ ap₂ (λ xs ys. xs ++ ys) (numbered-answered 0 hs) (numbered_all-answered groups)

  -- A whole session, opened, run under the user's protocol, stopped and read until `poll` says that
  -- nothing is left. In the run, triggers are those that the bridge lets through, each event that
  -- fills a block leaves room in its half for the end marker and the scaler's counters, reads are
  -- made only where a block waits, and other devices interrupt only while a half is free. The
  -- blocks that the user read, taken apart into events and these into segments with no other
  -- knowledge of them, then give, for each trigger once and in order, exactly the long words that
  -- the two MADC-32 and the V1190 answered to it; the events of a block are numbered from 1.
  pub session-answered :
      (before : Driver) {t u : Driver} {fetched rest : List (List ℕ)}
      {groups : List (List (List ℕ))} {bodies : List (List ℕ)}
      (run : Run dev (open_driver false before).1 fetched groups bodies t)
      → Rest dev (stop_daq dev t).1 rest u
      → (poll u).0 ≡ false
      → map segments_of (decode_all (fetched ++ rest))
        ≡ answered_all (full_triggers run ++ (open_triggers run ∷ []))
  session-answered before {t} {u} {fetched} {rest} {groups} {bodies} run after done =
      ap (map segments_of) (session-decoded dev before run after done)
      ∙ ap (λ gs. map segments_of (numbered_all gs))
          (ap₂ (λ gs bs. gs ++ (bs ∷ [])) (groups_lem run) (bodies_lem run)
            ∙ sym (map-append (map (evt_body dev)) (full_triggers run) (open_triggers run ∷ [])))
      ∙ numbered_all-answered (full_triggers run ++ (open_triggers run ∷ []))
