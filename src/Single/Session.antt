-- ===== src/Single/Session.antt =====
-- A whole session with one buffer, decoded.
use p42018_vmedaq.Common.{ℕ, ◌≡◌, false, if◌then◌else◌, List, [], ◌∷◌, arith}
use p42018_vmedaq.Device.{Device}
use p42018_vmedaq.Daq.{Daq}
use p42018_vmedaq.Handlers.Startup.{startup-OnlyCalls}
use p42018_vmedaq.Nbbqdrv.{Driver, poll}
use p42018_vmedaq.Nbbqdrv.Interrupt.{closed}
use p42018_vmedaq.Nbbqdrv.Stop.{masked}
use p42018_vmedaq.Single.{init_single, open_single, read_single, stop_single}
use p42018_vmedaq.Single.Invariant.{IsSingle}

-- The read after a stop, where `poll` says that a block waits.
abbrev pub last_read : Driver → List (List ℕ)
last_read u = if (poll u).0 then (read_single u).0 ∷ [] else []

-- Opening establishes the invariant.
pub open-IsSingle : (s : Driver) → s.daq.base ≡ 0 → IsSingle (open_single false s).1
unfolding open_single init_single
open-IsSingle s at_start = rw startup-OnlyCalls (ground arith)

module _ (dev : Device) where
  record StopParts (s : Driver) : Type 0 where
    mem :
        (stop_single dev s).1.daq.mem
        ≡ (if s.chkblk then (closed dev (masked s.daq)).mem else s.daq.mem)
    chkbuff : (stop_single dev s).1.chkbuff ≡ (if s.chkblk then 1 else s.chkbuff)
