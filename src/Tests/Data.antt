-- ===== src/Tests/Data.antt =====
-- A device whose modules answer an event of two long words each, and states of the driver.
use p42018_vmedaq.Bbrl.Camac.{Camac}
use p42018_vmedaq.Common.{ℕ, ◌+◌, ◌*◌, true, false, [], ◌∷◌}
use p42018_vmedaq.Device.{Device, History, read32, enable_interrupt, disable_interrupt}
use p42018_vmedaq.Daq.{Daq}
use p42018_vmedaq.Bbrl.{half, maxbuff}
use p42018_vmedaq.Nbbqdrv.{Driver}

-- A header first, and then an end of event, in the formats of all the converters at once.
abbrev answer : History → ℕ
answer (read32 addr ∷ cs) = 0x84200000
answer cs = 0x42400000

abbrev pub asserting : Device
asserting = record {
  read16_reply = λ cs addr. 2;
  read32_reply = λ cs addr. answer cs;
  interrupt_reply = λ cs. 1;
  dma_done = λ cs. true;
  dma_longs = λ cs k. k;
}

-- The same with an interrupt that another device has raised.
abbrev pub silent : Device
silent = record asserting { interrupt_reply = λ cs. 0 }

-- A block that the next event fills, in the second half; nothing on the bus has happened yet, but
-- that the interrupt has been enabled.
abbrev pub nearly_full : Daq
nearly_full = record {
  mem = λ x. x;
  base = half;
  dn = 1;
  mp = maxbuff;
  eventid = 41;
  eventhmp = 0;
  eventsize = 0;
  segmenthmp = 0;
  segmentsize = 0;
  mpflag = false;
  dmadata = λ k. 0;
  calls = enable_interrupt ∷ [];
}

-- One block waits, and the other half is nearly full.
abbrev pub one_waits : Driver
one_waits = record {
  daq = nearly_full;
  startflag = true;
  stopflag = false;
  drn = 0;
  chkbuff = 1;
  chkblk = true;
}

-- Both halves wait, and the busy state is held.
abbrev pub both_wait : Driver
both_wait = record {
  daq = record nearly_full {
    base = 0;
    dn = 0;
    mp = half;
    mpflag = true;
    calls = disable_interrupt ∷ [];
  };
  startflag = true;
  stopflag = false;
  drn = 0;
  chkbuff = 2;
  chkblk = false;
}

-- A crate whose modules answer 7, and nothing to a block read.
abbrev pub crate : Camac
crate = record {
  cnafgen = λ c n a f. c * 65536 + n * 512 + a * 32 + f;
  qscan = 8;
  qignore = 0;
  qrepeat = 16;
  qstop = 24;
  word_reply = λ cs cnaf. 7;
  long_reply = λ cs cnaf. 7;
  block_words = λ cs c. [];
  block_count = λ cs c. 0;
}
