-- ===== src/Lib.antt =====
-- The nbbqdrv data acquisition driver, a Linux character device that reads VME modules on each
-- trigger and hands the data to the user in blocks, with the configuration of bbmodules.h: BBRL,
-- DBUFF, VME and VMEINT defined. What other configurations use of the CAMAC interface, of CC/NET and
-- of other modules is modelled beside it.
--
-- How the program works. A trigger sets the experiment's busy state and raises an interrupt.
-- nbbqdrv_interrupt (nbbqdrv.c) opens a block where none is open, asks the VME bridge whether the
-- interrupt is its own, and runs evt (evt.c), which writes one event into the block: framed by
-- bbrl.c, a segment for each module, read out by madc32.c and babirldrvcaen.c. An event that ends
-- past MAXBUFF ends the block; sca (sca.c) puts the scaler's counters at its end, and the other half
-- of the buffer is taken. The busy state is released through the LUPO module (lupo.c), by evt or by
-- clear (clear.c), unless both halves wait for nbbqdrv_read. NBBQ_STOP of nbbqdrv_ioctl closes the
-- block that is open.
--
-- The parts, by file.
-- - Common: the native numbers, tests, lists, bits, and the buffer as a function from the index.
-- - Device: the bridge and the kernel (bb-vme.h, def-sbs620.h), which the driver only calls. A record
--   of functions from the history of calls to the answers; theorems hold for every such record.
-- - Daq: the globals of bbrl.c as the record Daq, the monad of functions on it, and (Daq/Readout)
--   the step that all readouts repeat.
-- - Bbrl: bbrl.c. chmem, init_mem, init_block, init_event, init_segment, end_block, end_event,
--   end_segment, dmasegdata, dmasegdata_i under their names. Bbrl/Segment and Bbrl/Event say what the framing
--   leaves, Bbrl/Format is a reader of it, Bbrl/Dma is about dmasegdata.
--   Bbrl/Camac has the readouts under CAMAC, with the crate controller as a parameter, and
--   Bbrl/Camac/Memory read_segmemmod, whose word count is a signed short.
-- - SegmentId: segidlist.h, MKSEGID as mksegid and the lists of codes as data types, and
--   (SegmentId/Packing) what a segment's number tells of them.
-- - Caen: babirldrvcaen.c, v7XX_segdata as v7xx_segdata and so on. Caen/Readout and Caen/Kept are
--   about the V7XX, Caen/Tdc about the V1X90, Caen/Scaler about the V560.
-- - Madc32, Lupo: madc32.c and lupo.c, one function each under their names; Madc32/Dma has
--   madc32_dmasegdata.
-- - Handlers: startup.c, evt.c, stop.c, sca.c and clear.c. Handlers/Event is about the event,
--   Handlers/Format reads it back, Handlers/Startup shows what startup leaves alone.
-- - Ccnet: ccnetevt.c, the pipeline CAMAC controller, under its function names, and Ccnet/Maker, which
--   is mkccnetsegment.c: the calls of a user's readout are the data type Statement, one function,
--   perform, stands for the functions that print and fill the table, and ccnetstartup for the printed
--   program. Ccnet/Made and Ccnet/Startup say what is made, Ccnet/Direct is the readout without the
--   controller, by the functions of bbrl.c, and Ccnet/Batch and Ccnet/Wires compare the two.
-- - Marked: what iwadaq.c and bbdaq.c share; Marked/Iwadaq and Marked/Bbdaq are these files.
-- - Sis3300, Rpv130: sis3300.c and rpv130.c, which evt.c does not use.
-- - Univ: the routines under #ifdef UNIV of babirldrvcaen.c and madc32.c, and univfunc.c. Univ/Window
--   compares them with the direct ones. Univ/Dma is univdma.c, and Univ/Dma/Copy about what it copies.
-- - Converters: v785.c, v775.c, v792.c and v767.c, which evt.c does not use at present.
-- - Nbbqdrv: nbbqdrv.c. nbbqdrv_open is open_driver; nbbqdrv_read, nbbqdrv_poll, nbbqdrv_release,
--   nbbqdrv_ioctl and nbbqdrv_interrupt are read, poll, release, ioctl and interrupt, the latter
--   with take_interrupt and finish_event for its parts. The state Driver is Daq and the flags of
--   nbbqdrv.c. Nbbqdrv/Interrupt has the closed form, Nbbqdrv/Invariant the invariant, Nbbqdrv/Fifo
--   the halves as a queue, Nbbqdrv/Busy the busy state, Nbbqdrv/Stop the stop, Nbbqdrv/Trace the
--   blocks of whole runs, Nbbqdrv/Content, Nbbqdrv/Filled and
--   Nbbqdrv/Readback are about the events in a block,
--   Nbbqdrv/Delivery about those of whole runs, Nbbqdrv/Session about the blocks of a session up to
--   and after a stop. Nbbqdrv/Decode is the user's side, a reader of blocks, Nbbqdrv/Complete what
--   it gets from a whole session, and Nbbqdrv/Answers that down to what the modules answered.
--   Nbbqdrv/Race splits a read into two steps, with a trigger between them, and has a read that comes
--   too early. Nbbqdrv/Module is
--   init_module and cleanup_module.
-- - Single: nbbqdrv.c where DBUFF is not defined, with one buffer: open_single, read_single,
--   stop_single, give_back (NBBQ_EI), ioctl_single and interrupt_single stand for the same functions.
--   Single/Handler has the closed form, Single/Invariant the invariant, Single/Content the events in
--   the buffer, Single/Delivery those of whole runs and Single/Session those of whole sessions.
-- - Vmivme: nbbqdrv.c where VMIVME is defined as well, with the same functions under names with
--   vmivme. Vmivme/Handler has the closed form, and Vmivme/Stall is about the bridge's interrupt.
--   Vmivme/Single is VMIVME without DBUFF, and Vmivme/Module loading and removing with VMIVME.
-- - Tests: concrete states and devices, and the theorems applied to them.
--
-- Conventions. A word of the buffer is a number below 2 ^ 16, and every store wraps (u16);
-- addresses are 32 bits wide (add32). Indices and counters are numbers without a bound: they stay
-- below 2 ^ 31 where a block's words fit. Where C overruns dmadata, or an int of the DMA routines
-- overflows, those routines have no result (none); a command outside of cmdbuf or clrbuf sets
-- `overrun`. chkbuff is a natural number; the source keeps it from going below 0. The `data`
-- pointer is its distance from databuff. A write past databuff is a write at an index from BLKSIZE
-- on. A handler and a file operation do not interleave, but in Nbbqdrv/Race: each runs as one step.
-- printk is not modelled, and a delay is a call.
--
-- Loops are recursion on the rounds that the source's own bound leaves: 34 long words for a V7XX,
-- 256 for a V767, 10001 for a V1X90, the length register's 14 bits for a MADC-32, DMADELAYMAX
-- polls. Only madc32_dmasegdata has fuel, one round more than `depth`, and each window takes 0x800
-- long words of it.
--
-- The pipeline controller is a function from its history and the buffer it runs to the replies, and
-- CMDLEN, which no file defines, is a number. The table of 1024 segment commands is not bounded, as
-- mkccnetsegment.c does not bound it. In iwadaq.c and bbdaq.c the arguments of type short are numbers.
--
-- In Univ/Dma an unsigned long has 32 bits, as on the i686 that the driver is built for, and PAGE_SIZE
-- is a parameter. A decoder of events has the length of the block as fuel, which has more words than
-- events.
--
-- Not modelled: the variants of nbbqdrv.c for CAMAC and K2915, which call other drivers for the same
-- steps. ccnetevt.c stands without nbbqdrv.c, which calls ccnet_check_lam on opening only.
pub mod Common
pub mod Device
pub mod Daq
pub mod Bbrl
pub mod Caen
pub mod Madc32
pub mod Lupo
pub mod Handlers
pub mod Converters
pub mod Ccnet
pub mod Marked
pub mod Sis3300
pub mod Rpv130
pub mod Univ
pub mod SegmentId
pub mod Nbbqdrv
pub mod Single
pub mod Vmivme
pub mod Tests
