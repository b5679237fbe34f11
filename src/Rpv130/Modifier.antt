-- ===== src/Rpv130/Modifier.antt =====
-- The bridge's address modifier during and after the operations of rpv130.c.
use p42018_vmedaq.Common.{ℕ, suc, ◌≡◌, refl, ◌∙◌, ◌==◌, if◌then◌else◌, List, [], ◌∷◌}
use p42018_vmedaq.Device.{Device, History, read16, read32, write16, write32, set_amsr}
use p42018_vmedaq.Daq.{Daq, M, ◌>>=◌, ◌>>◌, pure}
use p42018_vmedaq.Rpv130.{
  rpv130_write, rpv130_output, rpv130_clear, read_at_mp, rpv130_segdata, rpv130_segdata_v,
}

-- The address modifier after these calls; 0x09 selects the standard address space.
abbrev pub amsr : History → ℕ
amsr [] = 0x09
amsr (set_amsr am ∷ cs) = am
amsr (_ ∷ cs) = amsr cs

-- How many accesses were made outside the short address space, 0x29.
abbrev pub add_access : History → ℕ → ℕ
add_access cs n = if amsr cs == 0x29 then n else suc n

abbrev pub outside : History → ℕ
outside [] = 0
outside (read16 addr ∷ cs) = add_access cs (outside cs)
outside (read32 addr ∷ cs) = add_access cs (outside cs)
outside (write16 addr val ∷ cs) = add_access cs (outside cs)
outside (write32 addr val ∷ cs) = add_access cs (outside cs)
outside (_ ∷ cs) = outside cs

-- A call of the module's functions.
pub data Operation : Type 0 where
  put : ℕ → ℕ → Operation
  output : ℕ → ℕ → Operation
  take : ℕ → ℕ → Operation
  take_v : ℕ → ℕ → Operation
  reset : ℕ → Operation

module _ (dev : Device) where
  unfoldable pub operate : Operation → M (Unit {0})
  operate (put maddr val) = do _ ← rpv130_write maddr val; pure tt
  operate (output maddr val) = do _ ← rpv130_output maddr val; pure tt
  operate (take maddr mode) = do _ ← rpv130_segdata dev maddr mode; pure tt
  operate (take_v maddr mode) = do _ ← rpv130_segdata_v dev maddr mode; pure tt
  operate (reset maddr) = do _ ← rpv130_clear maddr; pure tt

  unfoldable pub operate_all : List Operation → M (Unit {0})
  operate_all [] = pure tt
  operate_all (op ∷ ops) = do operate op; operate_all ops

  operate_lem :
      (op : Operation) (d : Daq)
      → let cs = (operate op d).1.calls in (amsr cs ≡ 0x09) × (outside cs ≡ outside d.calls)
  unfolding operate rpv130_write rpv130_output rpv130_clear read_at_mp rpv130_segdata
      rpv130_segdata_v
  operate_lem (put maddr val) d = (refl, refl)
  operate_lem (output maddr val) d = (refl, refl)
  operate_lem (take maddr mode) d = (refl, refl)
  operate_lem (take_v maddr mode) d = (refl, refl)
  operate_lem (reset maddr) d = (refl, refl)

  -- Any sequence of calls of rpv130.c that begins with the address modifier of the standard space
  -- makes each access under the modifier of the short space, and ends with the modifier it began
  -- with.
  pub operate_all_short :
      (ops : List Operation) (d : Daq)
      → amsr d.calls ≡ 0x09
      → let cs = (operate_all ops d).1.calls in (amsr cs ≡ 0x09) × (outside cs ≡ outside d.calls)
  unfolding operate_all
  operate_all_short [] d start = (start, refl)
  operate_all_short (op ∷ ops) d start =
      let (am, same) = operate_lem op d in
      let (am', same') = operate_all_short ops (operate op d).1 am in (am', same' ∙ same)
