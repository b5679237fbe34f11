-- ===== src/Madc32/Registers.antt =====
-- The register map of madc32.h.
use p42018_vmedaq.Common.{ℕ}

abbrev pub madc32_nch : ℕ
madc32_nch = 32

abbrev pub reg_threshold : ℕ
reg_threshold = 0x4000

abbrev pub reg_module_id : ℕ
reg_module_id = 0x6004

abbrev pub reg_irq_level : ℕ
reg_irq_level = 0x6010

abbrev pub reg_irq_vector : ℕ
reg_irq_vector = 0x6012

abbrev pub reg_irq_reset : ℕ
reg_irq_reset = 0x6016

abbrev pub reg_irq_threshold : ℕ
reg_irq_threshold = 0x6018

abbrev pub reg_max_transfer_data : ℕ
reg_max_transfer_data = 0x601a

abbrev pub reg_withdraw_irq : ℕ
reg_withdraw_irq = 0x601c

abbrev pub reg_buffer_data_length : ℕ
reg_buffer_data_length = 0x6030

abbrev pub reg_readout_reset : ℕ
reg_readout_reset = 0x6034

abbrev pub reg_multievent : ℕ
reg_multievent = 0x6036

abbrev pub reg_marking_type : ℕ
reg_marking_type = 0x6038

abbrev pub reg_start_acq : ℕ
reg_start_acq = 0x603a

abbrev pub reg_fifo_reset : ℕ
reg_fifo_reset = 0x603c

abbrev pub reg_adc_resolution : ℕ
reg_adc_resolution = 0x6042

abbrev pub reg_slc_off : ℕ
reg_slc_off = 0x6048

abbrev pub reg_skip_oorange : ℕ
reg_skip_oorange = 0x604a

abbrev pub reg_hold_delay0 : ℕ
reg_hold_delay0 = 0x6050

abbrev pub reg_hold_width0 : ℕ
reg_hold_width0 = 0x6054

abbrev pub reg_use_gg : ℕ
reg_use_gg = 0x6058

abbrev pub reg_input_range : ℕ
reg_input_range = 0x6060

abbrev pub reg_nim_gat1_osc : ℕ
reg_nim_gat1_osc = 0x606a

abbrev pub reg_nim_busy : ℕ
reg_nim_busy = 0x606e

abbrev pub reg_reset_ctr_ab : ℕ
reg_reset_ctr_ab = 0x6090

abbrev pub reg_ts_sources : ℕ
reg_ts_sources = 0x6096

abbrev pub reg_data : ℕ
reg_data = 0x0000
