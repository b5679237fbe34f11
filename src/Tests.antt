-- ===== src/Tests.antt =====
-- Concrete devices and states of the driver, and the theorems applied to them.
pub mod Data
pub mod States
mod Readouts
mod Pipeline
mod Boards
mod Blocks
mod Sessions
mod Numbers
mod Stalled
