-- ===== src/Caen/Registers.antt =====
-- The register map and the bits of babirldrvcaen.h, and the scaler's size of bbmodules.h.
use p42018_vmedaq.Common.{ℕ, Bool, bit_and, ◌==◌}

abbrev pub v7xx_outbuff : ℕ
v7xx_outbuff = 0x0000

abbrev pub v7xx_bit_set2 : ℕ
v7xx_bit_set2 = 0x1032

abbrev pub v7xx_bit_cle2 : ℕ
v7xx_bit_cle2 = 0x1034

abbrev pub v1x90_out_buff : ℕ
v1x90_out_buff = 0x0000

abbrev pub v1x90_reg_cnt : ℕ
v1x90_reg_cnt = 0x1000

abbrev pub v1x90_reg_int_level : ℕ
v1x90_reg_int_level = 0x100a

abbrev pub v1x90_reg_soft_clear : ℕ
v1x90_reg_soft_clear = 0x1016

abbrev pub v1x90_reg_evt_reset : ℕ
v1x90_reg_evt_reset = 0x1018

abbrev pub v1x90_reg_almost_full : ℕ
v1x90_reg_almost_full = 0x1022

abbrev pub v560_nch : ℕ
v560_nch = 16

abbrev pub v560_counter_0 : ℕ
v560_counter_0 = 0x10

abbrev pub v560_sca_cle : ℕ
v560_sca_cle = 0x50

-- (data[mp-1] & V7XX_TYPE_MASK_S) against V7XX_HEADER_BIT_S and V7XX_DATA_BIT_S
abbrev pub is_header : ℕ → Bool
is_header w = bit_and w 0x0600 == 0x0200

abbrev pub is_data : ℕ → Bool
is_data w = bit_and w 0x0600 == 0x0000

-- (data[mp-1] & 0xf800) against 0x4000 and 0x8000
abbrev pub is_global_header : ℕ → Bool
is_global_header w = bit_and w 0xf800 == 0x4000

abbrev pub is_trailer : ℕ → Bool
is_trailer w = bit_and w 0xf800 == 0x8000
