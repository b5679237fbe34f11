-- ===== src/Converters.antt =====
-- The readout routines that v785.c, v775.c, v792.c and v767.c define for one CAEN converter each.
pub mod Loop
pub mod Frame
pub mod V785
pub mod V775
pub mod V767
