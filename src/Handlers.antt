-- ===== src/Handlers.antt =====
-- The experiment's hooks, startup.c, evt.c, stop.c, sca.c and clear.c, with the modules and the
-- addresses of bbmodules.h: two MADC-32, a V1190, a V560 and a LUPO, and TEST defined.
pub mod Event
pub mod Format
pub mod Startup
use p42018_vmedaq.Common.{ℕ, zero, suc, ◌+◌, true, false, ltb, if◌then◌else◌}
use p42018_vmedaq.Device.{Device, define_intlevel, read_intvector}
use p42018_vmedaq.Daq.{M, ◌>>=◌, ◌>>◌, pure, gets, modify, call}
use p42018_vmedaq.Bbrl.{init_event, init_segment, end_event, end_segment, maxbuff}
use p42018_vmedaq.Caen.{
  v1x90_segdata, v1x90_evt_reset, v1x90_int_level, v1x90_almost_full, v1x90_cnt_reg,
  v560_scaler_clear, v560_read_scaler32_mod,
}
use p42018_vmedaq.Madc32.{
  madc32_nch, madc32_segdata, madc32_readout_reset, madc32_stop_acq, madc32_start_acq,
  madc32_resol_4k, madc32_input_range, madc32_use_gg, madc32_hold_delay, madc32_hold_width,
  madc32_nim_busy, madc32_module_id, madc32_threshold, madc32_irq_level, madc32_irq_threshold,
  madc32_max_transfer_data, madc32_marking_type, madc32_nim_gat1_osc, madc32_ts_sources,
  madc32_fifo_reset, madc32_reset_ctr_ab,
}
use p42018_vmedaq.Lupo.{
  lupo_pout, lupo_dis_interrupt, lupo_pulse_width, lupo_io_sca_clr, lupo_io_busycl,
  lupo_io_sca_start, lupo_io_sca_stop,
}

-- bbmodules.h
abbrev pub madc32adr : ℕ
madc32adr = 0x20020000

abbrev pub madc32p2adr : ℕ
madc32p2adr = 0x32000000

abbrev pub v1190_adr : ℕ
v1190_adr = 0xee0d0000

abbrev pub v560_adr : ℕ
v560_adr = 0x50000000

abbrev pub lupo_adr : ℕ
lupo_adr = 0x11100000

abbrev pub intlevel : ℕ
intlevel = 3

-- for(ich = 0; ich < MADC32_NCH; ich++) madc32_threshold(maddr, ich, 0), by the rounds left
unfoldable pub clear_thresholds : ℕ → ℕ → ℕ → M (Unit {0})
clear_thresholds maddr ich zero = pure tt
clear_thresholds maddr ich (suc left) = do
  madc32_threshold maddr ich 0
  clear_thresholds maddr (ich + 1) left

-- The two MADC-32 are set up in turn, the second with another module id.
unfoldable pub madc32_setup : ℕ → ℕ → M (Unit {0})
madc32_setup maddr id = do
  madc32_stop_acq maddr
  madc32_resol_4k maddr
  madc32_input_range maddr 0x1
  madc32_use_gg maddr 0x1
  madc32_hold_delay maddr 0 0
  madc32_hold_width maddr 0 160
  madc32_nim_busy maddr 0x1
  madc32_module_id maddr id
  clear_thresholds maddr 0 madc32_nch

unfoldable pub madc32_run : ℕ → M (Unit {0})
madc32_run maddr = do
  madc32_irq_threshold maddr 1
  madc32_max_transfer_data maddr 1
  madc32_marking_type maddr 0x1
  madc32_nim_gat1_osc maddr 0x1
  madc32_ts_sources maddr 0x1
  madc32_fifo_reset maddr 0
  madc32_reset_ctr_ab maddr
  madc32_start_acq maddr
  madc32_readout_reset maddr 1

unfoldable pub startup : M (Unit {0})
startup = do
  call (define_intlevel intlevel)
  call read_intvector
  lupo_pulse_width lupo_adr 30
  lupo_pout lupo_adr lupo_io_sca_clr
  lupo_dis_interrupt lupo_adr
  lupo_pout lupo_adr lupo_io_busycl
  madc32_setup madc32adr 0
  madc32_setup madc32p2adr 1
  madc32_irq_level madc32adr 3
  madc32_run madc32adr
  madc32_run madc32p2adr
  v1x90_evt_reset v1190_adr
  v1x90_int_level v1190_adr 0x0
  v1x90_almost_full v1190_adr 0xffff
  v1x90_cnt_reg v1190_adr 0x028
  v560_scaler_clear v560_adr
  lupo_pout lupo_adr lupo_io_sca_start
  lupo_pout lupo_adr lupo_io_busycl

unfoldable pub stop : M (Unit {0})
stop = do
  madc32_stop_acq madc32adr
  madc32_stop_acq madc32p2adr
  lupo_pout lupo_adr lupo_io_sca_stop
  lupo_pout lupo_adr lupo_io_sca_stop

-- clear.c: the busy state that `evt` has left is released.
unfoldable pub clear : M (Unit {0})
clear = do flag ← gets (λ d. d.mpflag); if flag then lupo_pout lupo_adr lupo_io_busycl else pure tt

-- evt.c, the busy clear: it waits where the block is full.
unfoldable pub busy_clear : M (Unit {0})
busy_clear = do
  mp ← gets (λ d. d.mp)
  let release = (do lupo_pout lupo_adr lupo_io_busycl; modify (λ d. record d { mpflag = false }))
  if ltb mp maxbuff then release else modify (λ d. record d { mpflag = true })

module _ (dev : Device) where
  unfoldable pub sca : M (Unit {0})
  sca = v560_read_scaler32_mod dev v560_adr

  -- The first `init_segment(segid)` does not count `segid` up, so both MADC-32 have segment 1.
  unfoldable pub evt : M (Unit {0})
  evt = do
    init_event 1
    let segid : ℕ = 1
    init_segment segid
    _ ← madc32_segdata dev madc32adr
    _ ← end_segment
    madc32_readout_reset madc32adr 1
    init_segment segid
    _ ← madc32_segdata dev madc32p2adr
    _ ← end_segment
    madc32_readout_reset madc32p2adr 1
    init_segment (segid + 1)
    _ ← v1x90_segdata dev v1190_adr
    _ ← end_segment
    busy_clear
    _ ← end_event
    pure tt
