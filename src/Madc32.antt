-- ===== src/Madc32.antt =====
-- madc32.c: readout and control of the mesytec MADC-32. Each control function writes one register;
-- the UNIV variants are in Univ.
pub mod Registers
pub mod Readout
pub mod Dma
unfoldable pub use Registers.*
use p42018_vmedaq.Common.{ℕ, zero, suc, ◌+◌, ◌*◌, bit_and, add32}
use p42018_vmedaq.Device.{Device}
use p42018_vmedaq.Daq.{M, ◌>>=◌, ◌>>◌, pure, gets, vwrite16, vread16}
use p42018_vmedaq.Daq.Readout.{take_long}

unfoldable pub madc32_readout_reset : ℕ → ℕ → M (Unit {0})
madc32_readout_reset maddr val = vwrite16 (add32 maddr reg_readout_reset) val

unfoldable pub madc32_fifo_reset : ℕ → ℕ → M (Unit {0})
madc32_fifo_reset maddr val = vwrite16 (add32 maddr reg_fifo_reset) val

unfoldable pub madc32_clear : ℕ → M (Unit {0})
madc32_clear maddr = do
  vwrite16 (add32 maddr reg_readout_reset) 1
  vwrite16 (add32 maddr reg_fifo_reset) 1

unfoldable pub madc32_reset_ctr_ab : ℕ → M (Unit {0})
madc32_reset_ctr_ab maddr = vwrite16 (add32 maddr reg_reset_ctr_ab) 1

unfoldable pub madc32_start_acq : ℕ → M (Unit {0})
madc32_start_acq maddr = vwrite16 (add32 maddr reg_start_acq) 1

unfoldable pub madc32_stop_acq : ℕ → M (Unit {0})
madc32_stop_acq maddr = vwrite16 (add32 maddr reg_start_acq) 0

unfoldable pub madc32_irq_level : ℕ → ℕ → M (Unit {0})
madc32_irq_level maddr val = vwrite16 (add32 maddr reg_irq_level) val

unfoldable pub madc32_irq_vector : ℕ → ℕ → M (Unit {0})
madc32_irq_vector maddr val = vwrite16 (add32 maddr reg_irq_vector) val

unfoldable pub madc32_irq_reset : ℕ → M (Unit {0})
madc32_irq_reset maddr = vwrite16 (add32 maddr reg_irq_reset) 1

unfoldable pub madc32_withdraw_irq : ℕ → ℕ → M (Unit {0})
madc32_withdraw_irq maddr val = vwrite16 (add32 maddr reg_withdraw_irq) val

unfoldable pub madc32_resol_2k : ℕ → M (Unit {0})
madc32_resol_2k maddr = vwrite16 (add32 maddr reg_adc_resolution) 0

unfoldable pub madc32_resol_4k : ℕ → M (Unit {0})
madc32_resol_4k maddr = vwrite16 (add32 maddr reg_adc_resolution) 1

unfoldable pub madc32_resol_4khires : ℕ → M (Unit {0})
madc32_resol_4khires maddr = vwrite16 (add32 maddr reg_adc_resolution) 2

unfoldable pub madc32_resol_8k : ℕ → M (Unit {0})
madc32_resol_8k maddr = vwrite16 (add32 maddr reg_adc_resolution) 3

unfoldable pub madc32_resol_8khires : ℕ → M (Unit {0})
madc32_resol_8khires maddr = vwrite16 (add32 maddr reg_adc_resolution) 4

unfoldable pub madc32_threshold : ℕ → ℕ → ℕ → M (Unit {0})
madc32_threshold maddr ch val = vwrite16 (add32 maddr (reg_threshold + ch * 2)) val

unfoldable pub madc32_input_range : ℕ → ℕ → M (Unit {0})
madc32_input_range maddr val = vwrite16 (add32 maddr reg_input_range) val

unfoldable pub madc32_multi_event : ℕ → ℕ → M (Unit {0})
madc32_multi_event maddr val = vwrite16 (add32 maddr reg_multievent) val

unfoldable pub madc32_irq_threshold : ℕ → ℕ → M (Unit {0})
madc32_irq_threshold maddr val = vwrite16 (add32 maddr reg_irq_threshold) val

unfoldable pub madc32_max_transfer_data : ℕ → ℕ → M (Unit {0})
madc32_max_transfer_data maddr val = vwrite16 (add32 maddr reg_max_transfer_data) val

unfoldable pub madc32_marking_type : ℕ → ℕ → M (Unit {0})
madc32_marking_type maddr val = vwrite16 (add32 maddr reg_marking_type) val

unfoldable pub madc32_nim_gat1_osc : ℕ → ℕ → M (Unit {0})
madc32_nim_gat1_osc maddr val = vwrite16 (add32 maddr reg_nim_gat1_osc) val

unfoldable pub madc32_ts_sources : ℕ → ℕ → M (Unit {0})
madc32_ts_sources maddr val = vwrite16 (add32 maddr reg_ts_sources) val

unfoldable pub madc32_slc_off : ℕ → M (Unit {0})
madc32_slc_off maddr = vwrite16 (add32 maddr reg_slc_off) 1

unfoldable pub madc32_skip_oorange : ℕ → M (Unit {0})
madc32_skip_oorange maddr = vwrite16 (add32 maddr reg_skip_oorange) 1

unfoldable pub madc32_module_id : ℕ → ℕ → M (Unit {0})
madc32_module_id maddr val = vwrite16 (add32 maddr reg_module_id) val

unfoldable pub madc32_hold_delay : ℕ → ℕ → ℕ → M (Unit {0})
madc32_hold_delay maddr ch val = vwrite16 (add32 maddr (reg_hold_delay0 + ch * 2)) val

unfoldable pub madc32_hold_width : ℕ → ℕ → ℕ → M (Unit {0})
madc32_hold_width maddr ch val = vwrite16 (add32 maddr (reg_hold_width0 + ch * 2)) val

unfoldable pub madc32_use_gg : ℕ → ℕ → M (Unit {0})
madc32_use_gg maddr val = vwrite16 (add32 maddr reg_use_gg) val

unfoldable pub madc32_nim_busy : ℕ → ℕ → M (Unit {0})
madc32_nim_busy maddr val = vwrite16 (add32 maddr reg_nim_busy) val

module _ (dev : Device) where
  unfoldable pub madc32_read_irq_vector : ℕ → M (Unit {0})
  madc32_read_irq_vector maddr = do vector ← vread16 dev (add32 maddr reg_irq_vector); pure tt

  -- for(i = 0; i < cnt; i++), by the rounds left
  unfoldable pub madc32_take : ℕ → ℕ → M (Unit {0})
  madc32_take maddr zero = pure tt
  madc32_take maddr (suc left) = do take_long dev (add32 maddr reg_data); madc32_take maddr left

  -- The buffer's length register says how many long words follow.
  unfoldable pub madc32_segdata : ℕ → M ℕ
  madc32_segdata maddr = do
    len ← vread16 dev (add32 maddr reg_buffer_data_length)
    madc32_take maddr (bit_and len 0x3fff)
    gets (λ d. d.segmentsize)
