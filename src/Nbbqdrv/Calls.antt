-- ===== src/Nbbqdrv/Calls.antt =====
-- What a history of calls says of the bridge's interrupt and of the trigger's busy state, and that
-- readouts leave both alone.
use p42018_vmedaq.Common.{
  ℕ, zero, suc, ◌+◌, ◌≡◌, refl, ◌∙◌, Bool, true, false, ◌&&◌, ◌==◌, if◌then◌else◌, [], ◌∷◌, ◌++◌,
  replicate, length, add32,
}
use p42018_vmedaq.Device.{
  History, Device, read16, read32, write16, enable_interrupt, disable_interrupt,
}
use p42018_vmedaq.Daq.Readout.{history_after}
use p42018_vmedaq.Lupo.{lupo_io_pout, lupo_io_busycl}
use p42018_vmedaq.Handlers.{lupo_adr, madc32adr, madc32p2adr, v1190_adr}
use p42018_vmedaq.Handlers.Event.{
  evt_history, tdc_history, reset_history, madc_history, madc_longs, tdc_longs,
}
use p42018_vmedaq.Caen.Registers.{v1x90_out_buff}
use p42018_vmedaq.Madc32.Registers.{reg_data, reg_buffer_data_length, reg_readout_reset}

-- The last of the enabling and disabling calls decides.
abbrev pub irq_enabled : History → Bool
irq_enabled [] = false
irq_enabled (enable_interrupt ∷ cs) = true
irq_enabled (disable_interrupt ∷ cs) = false
irq_enabled (_ ∷ cs) = irq_enabled cs

-- How often the busy state was released: writes of LUPO_IO_BUSYCL to the LUPO's pulse output.
abbrev pub releases : History → ℕ
releases [] = 0
releases (write16 addr val ∷ cs) =
    if addr == add32 lupo_adr lupo_io_pout && val == lupo_io_busycl
    then suc (releases cs)
    else releases cs
releases (_ ∷ cs) = releases cs

-- Both, of a history.
abbrev pub seen : History → Bool × ℕ
seen cs = (irq_enabled cs, releases cs)

-- What reads leave alone, and the resets of the MADC-32, is left alone by the readout of an event.
module _ {A : Type 0} (f : History → A)
    (of_read32 : (addr : ℕ) (cs : History) → f (read32 addr ∷ cs) ≡ f cs)
    (of_read16 : (addr : ℕ) (cs : History) → f (read16 addr ∷ cs) ≡ f cs) where
  kept-reads : (addr n : ℕ) (cs : History) → f (replicate n (read32 addr) ++ cs) ≡ f cs
  kept-reads addr zero cs = refl
  kept-reads addr (suc n) cs =
      of_read32 addr (replicate n (read32 addr) ++ cs) ∙ kept-reads addr n cs

  pub kept-history_after :
      (addr : ℕ → ℕ) (n k : ℕ) (cs : History) → f (history_after addr n k cs) ≡ f cs
  unfolding history_after
  kept-history_after addr zero k cs = refl
  kept-history_after addr (suc n) k cs =
      kept-history_after addr n (k + 1) (read32 (addr k) ∷ cs) ∙ of_read32 (addr k) cs

  module _ (dev : Device) where
    kept-madc_history : (maddr : ℕ) (cs : History) → f (madc_history dev maddr cs) ≡ f cs
    unfolding madc_history
    kept-madc_history maddr cs =
        let at_len = add32 maddr reg_buffer_data_length in
        kept-reads (add32 maddr reg_data) (length (madc_longs dev maddr cs)) (read16 at_len ∷ cs)
        ∙ of_read16 at_len cs

    kept-tdc_history : (cs : History) → f (tdc_history dev cs) ≡ f cs
    unfolding tdc_history
    kept-tdc_history cs =
        let addr = add32 v1190_adr v1x90_out_buff in
        kept-reads addr (length (tdc_longs dev cs)) (read16 (add32 v1190_adr 0x1020) ∷ cs)
        ∙ of_read16 (add32 v1190_adr 0x1020) cs

    pub kept-evt_history :
        (cs : History)
        → ((ds : History)
            → (f (write16 (add32 madc32adr reg_readout_reset) 1 ∷ ds) ≡ f ds)
              × (f (write16 (add32 madc32p2adr reg_readout_reset) 1 ∷ ds) ≡ f ds))
        → f (evt_history dev cs) ≡ f cs
    unfolding evt_history reset_history
    kept-evt_history cs of_reset =
        let cs1 = reset_history dev madc32adr cs in
        kept-tdc_history (reset_history dev madc32p2adr cs1)
        ∙ (of_reset (madc_history dev madc32p2adr cs1)).1
        ∙ kept-madc_history madc32p2adr cs1
        ∙ (of_reset (madc_history dev madc32adr cs)).0
        ∙ kept-madc_history madc32adr cs

pub seen-history_after :
    (addr : ℕ → ℕ) (n k : ℕ) (cs : History) → seen (history_after addr n k cs) ≡ seen cs
seen-history_after = kept-history_after seen (λ a cs. refl) (λ a cs. refl)

module _ (dev : Device) where
  -- The readout of an event neither releases the busy state nor touches the bridge's interrupt.
  pub seen-evt_history : (cs : History) → seen (evt_history dev cs) ≡ seen cs
  seen-evt_history cs =
      kept-evt_history seen (λ a ds. refl) (λ a ds. refl) dev cs (λ ds. (refl, refl))
