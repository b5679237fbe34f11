-- ===== src/Device.antt =====
-- What bb-vme.h and the kernel declare and the driver only calls: the VME bridge, its interrupt and
-- DMA engine, and the wait queue. A device is an arbitrary function of the calls made so far, so a
-- theorem about every `Device` holds whatever the modules on the bus answer.
use p42018_vmedaq.Common.{ℕ, Bool, List}

-- A call of an external function, with its arguments. Histories hold the latest call first.
pub data Call : Type 0 where
  read16 : ℕ → Call
  read32 : ℕ → Call
  write16 : ℕ → ℕ → Call
  write32 : ℕ → ℕ → Call
  set_amsr : ℕ → Call
  map_read16 : ℕ → ℕ → Call
  map_read32 : ℕ → ℕ → Call
  map_write16 : ℕ → ℕ → ℕ → Call
  univ_dma_read : ℕ → ℕ → Call
  define_intlevel : ℕ → Call
  read_intvector : Call
  enable_interrupt : Call
  disable_interrupt : Call
  check_interrupt : Call
  dma_start : ℕ → ℕ → Call
  dma_store : ℕ → Call
  dma_start_i : ℕ → ℕ → ℕ → Call
  dma_store_i : ℕ → ℕ → Call
  delay : Call
  wake_up : Call
  vme_interrupt_clear : Call
  vme_interrupt_enable : Call
  vme_interrupt_disable : Call
  vme_interrupt_asserted : Call
  vme_interrupt_vector : Call
  camac_read16 : ℕ → Call
  camac_read24 : ℕ → Call
  camac_write16 : ℕ → ℕ → Call
  camac_control : ℕ → Call
  camac_block16 : ℕ → ℕ → ℕ → Call
  camac_block24 : ℕ → ℕ → ℕ → Call

abbrev pub History : Type 0
History = List Call

-- The answers of vread16, vread32, vme_check_interrupt or vme_interrupt_asserted, and vme_dma_vread32_store; the last one's
-- flag and, where that is set, the long words that it stored.
pub record Device : Type 0 where
  pub read16_reply : History → ℕ → ℕ
  pub read32_reply : History → ℕ → ℕ
  pub interrupt_reply : History → ℕ
  pub dma_done : History → Bool
  pub dma_longs : History → ℕ → ℕ
