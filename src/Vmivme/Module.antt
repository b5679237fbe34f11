-- ===== src/Vmivme/Module.antt =====
-- nbbqdrv_init_module and nbbqdrv_cleanup_module with VMIVME.
use p42018_vmedaq.Common.{ℕ, ◌≡◌, refl, Bool, true, false, ◌==◌, if◌then◌else◌, List, [], ◌∷◌}
use p42018_vmedaq.Device.{disable_interrupt}
use p42018_vmedaq.Daq.{call}
use p42018_vmedaq.Handlers.{intlevel}
use p42018_vmedaq.Nbbqdrv.{lift}
use p42018_vmedaq.Nbbqdrv.Module.{
  Reply, refused, granted, is_granted, KernelCall, register_chrdev, unregister_chrdev, request_irq,
  free_irq, vme_init, vme_term, vme_interrupt_attach, vme_interrupt_release, Kernel, Module,
  InitStatus, installed, failed, irq_held, chrdev_held, number_given, same,
}

-- nbbqdrv.c, INTVEC
abbrev pub intvec : ℕ
intvec = 0

module _ (kern : Kernel) where
  -- What follows a registration that gave `major`; no other answer is looked at.
  unfoldable pub install_vmivme : ℕ → Module → InitStatus × Module
  install_vmivme major s =
      let begun = vme_init ∷ s.kernel in
      let reply = kern.request_reply begun kern.irq in
      let driver = (lift (call disable_interrupt) (record s.driver { chkbuff = 0 })).1 in
      (
        installed,
        record {
          driver = driver;
          nbbqdrv_major = if s.nbbqdrv_major == 0 then major else s.nbbqdrv_major;
          girq = kern.irq;
          kernel = vme_interrupt_attach intlevel intvec ∷ request_irq kern.irq reply ∷ begun;
        },
      )

  unfoldable pub registered_vmivme : Reply → Module → InitStatus × Module
  registered_vmivme (refused e) s = (failed e, s)
  registered_vmivme (granted major) s = install_vmivme major s

  unfoldable pub init_vmivme : Module → InitStatus × Module
  unfolding registered_vmivme
  init_vmivme s =
      let reply = kern.register_reply s.kernel s.nbbqdrv_major in
      registered_vmivme reply
        (record s { kernel = register_chrdev s.nbbqdrv_major reply ∷ s.kernel })

unfoldable pub cleanup_vmivme : Module → Module
cleanup_vmivme s = record s {
  kernel =
      unregister_chrdev s.nbbqdrv_major
      ∷ vme_term
      ∷ free_irq s.girq
      ∷ vme_interrupt_release
      ∷ s.kernel;
}

-- Whether the bridge's library is in use, and its interrupt is attached, after these calls.
abbrev pub bus_held : List KernelCall → Bool
bus_held [] = false
bus_held (vme_init ∷ cs) = true
bus_held (vme_term ∷ cs) = false
bus_held (_ ∷ cs) = bus_held cs

abbrev pub attached : List KernelCall → Bool
attached [] = false
attached (vme_interrupt_attach level vec ∷ cs) = true
attached (vme_interrupt_release ∷ cs) = false
attached (_ ∷ cs) = attached cs

-- The device number, the library, the interrupt and the line.
abbrev pub held : ℕ → ℕ → List KernelCall → Bool × Bool × Bool × Bool
held major irq cs = (chrdev_held major cs, bus_held cs, attached cs, irq_held irq cs)

-- Where register_chrdev grants the device number, loading reports success whatever request_irq
-- answers; the driver then holds the number, the library and the interrupt, and the line exactly
-- where that answer granted it. Removing it gives all of them back.
pub init_vmivme-granted :
    (kern : Kernel) (s : Module) (major : ℕ)
    → kern.register_reply s.kernel s.nbbqdrv_major ≡ granted major
    → let r = init_vmivme kern s in
      let cs = vme_init ∷ register_chrdev s.nbbqdrv_major (granted major) ∷ s.kernel in
      let number = number_given s.nbbqdrv_major major in
      (r.0 ≡ installed)
      × (held number kern.irq r.1.kernel
          ≡ (true, true, true, is_granted (kern.request_reply cs kern.irq)))
      × (held number kern.irq (cleanup_vmivme r.1).kernel ≡ (false, false, false, false))
unfolding init_vmivme install_vmivme cleanup_vmivme
init_vmivme-granted kern s major h =
    rw (init_vmivme, h, same kern.irq, same (number_given s.nbbqdrv_major major)) (refl, refl, refl)
