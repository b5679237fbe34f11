-- ===== src/Nbbqdrv/Module.antt =====
-- nbbqdrv.c, nbbqdrv_init_module and nbbqdrv_cleanup_module: loading the driver and removing it.
use p42018_vmedaq.Common.{
  ℕ, ◌≡◌, refl, Bool, true, false, ◌==◌, if◌then◌else◌, List, [], ◌∷◌, arith,
}
use p42018_vmedaq.Device.{disable_interrupt}
use p42018_vmedaq.Daq.{call}
use p42018_vmedaq.Nbbqdrv.{Driver, lift}

-- The answer of register_chrdev or request_irq: a negative number, given without its sign, or
-- another number.
pub data Reply : Type 0 where
  refused granted : ℕ → Reply

abbrev pub is_granted : Reply → Bool
is_granted (refused e) = false
is_granted (granted n) = true

-- The calls of the kernel, with its answers where they matter; the latest call comes first.
pub data KernelCall : Type 0 where
  register_chrdev : ℕ → Reply → KernelCall
  unregister_chrdev : ℕ → KernelCall
  request_irq : ℕ → Reply → KernelCall
  free_irq : ℕ → KernelCall
  vme_init : KernelCall
  vme_term : KernelCall
  vme_interrupt_attach : ℕ → ℕ → KernelCall
  vme_interrupt_release : KernelCall

-- The kernel and the bridge's get_irq or vme_interrupt_irq, by what they answer after a history of calls.
pub record Kernel : Type 0 where
  pub register_reply : List KernelCall → ℕ → Reply
  pub request_reply : List KernelCall → ℕ → Reply
  pub irq : ℕ

-- The driver with the globals that only loading and removing it use.
pub record Module : Type 0 where
  pub driver : Driver
  pub nbbqdrv_major : ℕ
  pub girq : ℕ
  pub kernel : List KernelCall

-- The result of init_module: 0 or the error of register_chrdev, without its sign.
pub data InitStatus : Type 0 where
  installed : InitStatus
  failed : ℕ → InitStatus

module _ (kern : Kernel) where
  -- What follows a registration that gave `major`; the answer of request_irq is not looked at.
  unfoldable pub install : ℕ → Module → InitStatus × Module
  install major s =
      let reply = kern.request_reply s.kernel kern.irq in
      let driver = (lift (call disable_interrupt) (record s.driver { chkbuff = 0 })).1 in
      (
        installed,
        record {
          driver = driver;
          nbbqdrv_major = if s.nbbqdrv_major == 0 then major else s.nbbqdrv_major;
          girq = kern.irq;
          kernel = request_irq kern.irq reply ∷ s.kernel;
        },
      )

  -- After register_chrdev has answered.
  unfoldable pub registered : Reply → Module → InitStatus × Module
  registered (refused e) s = (failed e, s)
  registered (granted major) s = install major s

  unfoldable pub init_module : Module → InitStatus × Module
  unfolding registered
  init_module s =
      let reply = kern.register_reply s.kernel s.nbbqdrv_major in
      registered reply (record s { kernel = register_chrdev s.nbbqdrv_major reply ∷ s.kernel })

unfoldable pub cleanup_module : Module → Module
cleanup_module s = record s {
  kernel = unregister_chrdev s.nbbqdrv_major ∷ free_irq s.girq ∷ s.kernel;
}

-- Whether the driver holds the interrupt line `irq`, and the device number `major`, after these
-- calls. register_chrdev gives the number that it was asked for, and one of its own, as its reply,
-- where that is 0.
abbrev pub irq_held : ℕ → List KernelCall → Bool
irq_held irq [] = false
irq_held irq (request_irq n reply ∷ cs) = if n == irq then is_granted reply else irq_held irq cs
irq_held irq (free_irq n ∷ cs) = if n == irq then false else irq_held irq cs
irq_held irq (_ ∷ cs) = irq_held irq cs

abbrev pub number_given : ℕ → ℕ → ℕ
number_given asked reply = if asked == 0 then reply else asked

abbrev pub chrdev_held : ℕ → List KernelCall → Bool
chrdev_held major [] = false
chrdev_held major (register_chrdev n (refused e) ∷ cs) = chrdev_held major cs
chrdev_held major (register_chrdev n (granted k) ∷ cs) =
    if number_given n k == major then true else chrdev_held major cs
chrdev_held major (unregister_chrdev n ∷ cs) = if n == major then false else chrdev_held major cs
chrdev_held major (_ ∷ cs) = chrdev_held major cs

pub same : (n : ℕ) → (n == n) ≡ true
same n = ground arith

-- Where register_chrdev refuses, loading fails with its error, and nothing but that call is made.
pub init_module-refused :
    (kern : Kernel) (s : Module) (e : ℕ)
    → kern.register_reply s.kernel s.nbbqdrv_major ≡ refused e
    → init_module kern s
      ≡ (failed e, record s { kernel = register_chrdev s.nbbqdrv_major (refused e) ∷ s.kernel })
unfolding init_module
init_module-refused kern s e h = rw (init_module, h)

-- Where register_chrdev grants the device number, init_module reports success whatever request_irq
-- answers: the driver then has in nbbqdrv_major the number it asked for, or where that is 0 the
-- one that register_chrdev chose, and holds that number, and the interrupt line exactly where the
-- answer granted it. cleanup_module leaves neither that line nor that number held.
pub init_module-granted :
    (kern : Kernel) (s : Module) (major : ℕ)
    → kern.register_reply s.kernel s.nbbqdrv_major ≡ granted major
    → let r = init_module kern s in
      let cs = register_chrdev s.nbbqdrv_major (granted major) ∷ s.kernel in
      let c = cleanup_module r.1 in
      let number = number_given s.nbbqdrv_major major in
      (r.0 ≡ installed)
      × (irq_held kern.irq r.1.kernel ≡ is_granted (kern.request_reply cs kern.irq))
      × (r.1.nbbqdrv_major ≡ number)
      × (chrdev_held number r.1.kernel ≡ true)
      × (irq_held kern.irq c.kernel ≡ false)
      × (chrdev_held number c.kernel ≡ false)
unfolding init_module install cleanup_module
init_module-granted kern s major h =
    rw (init_module, h, same kern.irq, same (number_given s.nbbqdrv_major major))
      (refl, refl, refl, refl, refl, refl)
