-- ===== src/Handlers/Startup.antt =====
-- startup.c and stop.c touch nothing of the driver's own state: they only make calls.
use p42018_vmedaq.Common.{ℕ, zero, suc, ◌+◌, ◌≡◌, refl}
use p42018_vmedaq.Daq.{Daq, M}
use p42018_vmedaq.Lupo.{lupo_pout, lupo_dis_interrupt, lupo_pulse_width}
use p42018_vmedaq.Madc32.{
  madc32_nch, madc32_readout_reset, madc32_stop_acq, madc32_start_acq, madc32_resol_4k,
  madc32_input_range, madc32_use_gg, madc32_hold_delay, madc32_hold_width, madc32_nim_busy,
  madc32_module_id, madc32_threshold, madc32_irq_level, madc32_irq_threshold,
  madc32_max_transfer_data, madc32_marking_type, madc32_nim_gat1_osc, madc32_ts_sources,
  madc32_fifo_reset, madc32_reset_ctr_ab,
}
use p42018_vmedaq.Caen.{
  v1x90_evt_reset, v1x90_int_level, v1x90_almost_full, v1x90_cnt_reg, v560_scaler_clear,
}
use p42018_vmedaq.Handlers.{
  startup, stop, madc32_setup, madc32_run, clear_thresholds, madc32adr, madc32p2adr,
}

abbrev pub OnlyCalls : M (Unit {0}) → Type 0
OnlyCalls m = (d : Daq) → (m d).1 ≡ record d { calls = (m d).1.calls }

thresholds-OnlyCalls : (maddr ich left : ℕ) → OnlyCalls (clear_thresholds maddr ich left)
unfolding clear_thresholds madc32_threshold
thresholds-OnlyCalls maddr ich zero = λ d. refl
thresholds-OnlyCalls maddr ich (suc left) = λ d. thresholds-OnlyCalls maddr (ich + 1) left _

setup-OnlyCalls : (maddr id : ℕ) → OnlyCalls (madc32_setup maddr id)
unfolding madc32_setup madc32_stop_acq madc32_resol_4k madc32_input_range madc32_use_gg
    madc32_hold_delay madc32_hold_width madc32_nim_busy madc32_module_id
setup-OnlyCalls maddr id = λ d. thresholds-OnlyCalls maddr 0 madc32_nch _

pub startup-OnlyCalls : OnlyCalls startup
unfolding startup madc32_run madc32_irq_threshold madc32_max_transfer_data madc32_marking_type
    madc32_nim_gat1_osc madc32_ts_sources madc32_fifo_reset madc32_reset_ctr_ab madc32_start_acq
    madc32_readout_reset madc32_irq_level lupo_pout lupo_dis_interrupt lupo_pulse_width
    v1x90_evt_reset v1x90_int_level v1x90_almost_full v1x90_cnt_reg v560_scaler_clear
startup-OnlyCalls = λ d. rw (setup-OnlyCalls madc32p2adr 1, setup-OnlyCalls madc32adr 0)

pub stop-OnlyCalls : OnlyCalls stop
unfolding stop madc32_stop_acq lupo_pout
stop-OnlyCalls = λ d. refl
