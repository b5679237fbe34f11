-- ===== src/Lupo.antt =====
-- lupo.c: the LUPO I/O register, whose pulse output releases the trigger's busy state.
use p42018_vmedaq.Common.{ℕ, add32}
use p42018_vmedaq.Daq.{M, vwrite16}

-- lupo.h
abbrev pub lupo_io_pout : ℕ
lupo_io_pout = 0x10

abbrev pub lupo_io_pwid : ℕ
lupo_io_pwid = 0x40

abbrev pub lupo_io_disint : ℕ
lupo_io_disint = 0x80

abbrev pub lupo_io_sca_start : ℕ
lupo_io_sca_start = 0x01

abbrev pub lupo_io_sca_stop : ℕ
lupo_io_sca_stop = 0x02

abbrev pub lupo_io_sca_clr : ℕ
lupo_io_sca_clr = 0x04

abbrev pub lupo_io_busycl : ℕ
lupo_io_busycl = 0x08

unfoldable pub lupo_pout : ℕ → ℕ → M (Unit {0})
lupo_pout maddr sval = vwrite16 (add32 maddr lupo_io_pout) sval

unfoldable pub lupo_dis_interrupt : ℕ → M (Unit {0})
lupo_dis_interrupt maddr = vwrite16 (add32 maddr lupo_io_disint) 1

unfoldable pub lupo_pulse_width : ℕ → ℕ → M (Unit {0})
lupo_pulse_width maddr sval = vwrite16 (add32 maddr lupo_io_pwid) sval
