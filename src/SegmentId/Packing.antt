-- ===== src/SegmentId/Packing.antt =====
-- What a segment number tells of its parts, whole and as the word that a block keeps of it.
use p42018_vmedaq.Common.{
  ℕ, ◌+◌, ◌*◌, ◌/◌, ◌%◌, ◌^◌, ◌<◌, ◌≡◌, ap, ◌∙◌, bit_or, bit_or-shifted, arith, u16,
}
use p42018_vmedaq.Daq.{Daq}
use p42018_vmedaq.Bbrl.{init_segment}
use p42018_vmedaq.SegmentId.{mksegid}
use p42018_vmedaq.SegmentId.Places.{Experiment, FocalPlane, experiment_code, focal_code}
use p42018_vmedaq.SegmentId.Detectors.{Detector, detector_code}
use p42018_vmedaq.SegmentId.Modules.{ModuleKind, module_code}

pub record Parts : Type 0 where
  pub device : ℕ
  pub focal : ℕ
  pub detector : ℕ
  pub kind : ℕ

-- The parts of a number.
abbrev pub parts : ℕ → Parts
parts id = record {
  device = id / 2 ^ 20;
  focal = id / 2 ^ 14 % 2 ^ 6;
  detector = id / 2 ^ 8 % 2 ^ 6;
  kind = id % 2 ^ 8;
}

abbrev pub parts_of : ℕ → ℕ → ℕ → ℕ → Parts
parts_of a b c d = record { device = a; focal = b; detector = c; kind = d }

pub mksegid_lem :
    (device focal detector kind : ℕ)
    → focal < 2 ^ 6
    → detector < 2 ^ 6
    → kind < 2 ^ 8
    → mksegid device focal detector kind
      ≡ device * 2 ^ 20 + focal * 2 ^ 14 + detector * 2 ^ 8 + kind
unfolding mksegid
mksegid_lem device focal detector kind f d m =
    ap (λ k. bit_or (bit_or (k * 2 ^ 6) detector * 2 ^ 8) kind) (bit_or-shifted 6 device focal f)
    ∙ ap (λ k. bit_or (k * 2 ^ 8) kind) (bit_or-shifted 6 (device * 2 ^ 6 + focal) detector d)
    ∙ bit_or-shifted 8 ((device * 2 ^ 6 + focal) * 2 ^ 6 + detector) kind m
    ∙ omega arith

experiment_code_lem : (e : Experiment) → experiment_code e < 2 ^ 6
unfolding experiment_code
experiment_code_lem e = ground arith

focal_code_lem : (p : FocalPlane) → focal_code p < 2 ^ 6
unfolding focal_code
focal_code_lem p = ground arith

detector_code_lem : (d : Detector) → detector_code d < 2 ^ 6
unfolding detector_code
detector_code_lem d = ground arith

module_code_lem : (m : ModuleKind) → module_code m < 2 ^ 8
unfolding module_code
module_code_lem m = ground arith

-- The number of a segment of the lists.
abbrev pub listed : Experiment → FocalPlane → Detector → ModuleKind → ℕ
listed e p d m = mksegid (experiment_code e) (focal_code p) (detector_code d) (module_code m)

parts_equal :
    {a b c d a' b' c' d' : ℕ}
    → a ≡ a'
    → b ≡ b'
    → c ≡ c'
    → d ≡ d'
    → parts_of a b c d ≡ parts_of a' b' c' d'
parts_equal p q r s = λ i. record { device = p i; focal = q i; detector = r i; kind = s i }

pub parts-mksegid :
    (device focal detector kind : ℕ)
    → focal < 2 ^ 6
    → detector < 2 ^ 6
    → kind < 2 ^ 8
    → parts (mksegid device focal detector kind) ≡ parts_of device focal detector kind
parts-mksegid device focal detector kind f d m =
    let e = mksegid_lem device focal detector kind f d m in
    parts_equal (omega (arith, e)) (omega (arith, e)) (omega (arith, e)) (omega (arith, e))

stored_word : (id : ℕ) (s : Daq) → (init_segment id s).1.mem (s.base + (s.mp + 1)) ≡ u16 id
unfolding init_segment
stored_word id s = ground arith

-- The number of a segment, made of the codes that segidlist.h gives to an experiment, a focal plane,
-- a detector and a module, has 26 bits, from which the four codes are read back. The word that
-- `init_segment` writes of it behind the segment's size has the detector, the module and the two
-- lowest bits of the focal plane, and nothing else of it.
pub parts-listed :
    (e : Experiment) (p : FocalPlane) (d : Detector) (m : ModuleKind) (s : Daq)
    → (listed e p d m < 2 ^ 26)
      × (parts (listed e p d m)
          ≡ parts_of (experiment_code e) (focal_code p) (detector_code d) (module_code m))
      × (parts ((init_segment (listed e p d m) s).1.mem (s.base + (s.mp + 1)))
          ≡ parts_of 0 (focal_code p % 4) (detector_code d) (module_code m))
parts-listed e p d m s =
    let he = experiment_code_lem e in
    let hp = focal_code_lem p in
    let hd = detector_code_lem d in
    let hm = module_code_lem m in
    let id =
      mksegid_lem (experiment_code e) (focal_code p) (detector_code d) (module_code m) hp hd hm in
    let word = stored_word (listed e p d m) s in
    (
      omega (arith, id, he, hp, hd, hm),
      parts-mksegid (experiment_code e) (focal_code p) (detector_code d) (module_code m) hp hd hm,
      ap parts word
          ∙ parts_equal (omega arith) (omega (arith, id, hp, hd, hm))
              (omega (arith, id, hp, hd, hm)) (omega (arith, id, hp, hd, hm)),
    )
