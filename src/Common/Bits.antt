-- ===== src/Common/Bits.antt =====
-- Words, addresses, and the bit fields that the driver cuts out with `&`.
use Prim.Native.Nat.{
  ℕ, zero, suc, ◌+◌, ◌*◌, ◌/◌, ◌%◌, ◌^◌, ◌≤◌, ◌<◌, min, max, bit_and, bit_or, digits,
  bit_and-bitwise, bit_or-bitwise,
}
use mathlib.Core.Path.{◌≡◌, refl, sym, ap, ◌∙◌}
use native.Mathlib.Nat.{pow-suc}
use native.Mathlib.Omega.{arith}

-- unsigned int addition
abbrev pub add32 : ℕ → ℕ → ℕ
add32 a b = (a + b) % 2 ^ 32

-- conversion to unsigned short
abbrev pub u16 : ℕ → ℕ
u16 a = a % 65536

-- A mask of `width` ones, `shift` digits from the right, and what it leaves of a number.
ones : ℕ → ℕ
ones zero = 0
ones (suc width) = ones width * 2 + 1

shifted : ℕ → ℕ → ℕ
shifted zero m = m
shifted (suc shift) m = shifted shift m * 2

lowest : ℕ → ℕ → ℕ
lowest zero a = 0
lowest (suc width) a = lowest width (a / 2) * 2 + a % 2

halved : ℕ → ℕ → ℕ
halved zero a = a
halved (suc shift) a = halved shift (a / 2)

-- `bit_and`, on a count of digits.
abbrev masked : ℕ → ℕ → ℕ → ℕ
masked count a m = digits (λ _. zero) min count a m

lowest-zero : (width : ℕ) → lowest width 0 ≡ 0
unfolding lowest
lowest-zero zero = refl
lowest-zero (suc width) = omega (arith, lowest-zero width)

field-zero : (width shift : ℕ) → shifted shift (lowest width (halved shift 0)) ≡ 0
unfolding shifted halved
field-zero width zero = lowest-zero width
field-zero width (suc shift) = omega (arith, field-zero width shift)

masked-field :
    (count width shift a : ℕ)
    → a ≤ count
    → masked count a (shifted shift (ones width)) ≡ shifted shift (lowest width (halved shift a))
unfolding ones shifted lowest halved
masked-field zero width shift (suc a) h = absurd (omega arith)
masked-field zero width shift zero h = sym (field-zero width shift)
masked-field (suc count) width shift zero h = sym (field-zero width shift)
masked-field (suc count) zero zero (suc a) h =
    omega (arith, masked-field count zero zero (suc a / 2) (omega arith))
masked-field (suc count) (suc width) zero (suc a) h =
    let next : (ones width * 2 + 1) / 2 ≡ ones width = omega arith in
    omega (
      arith,
      ap (λ m. masked count (suc a / 2) m) next,
      masked-field count width zero (suc a / 2) (omega arith),
    )
masked-field (suc count) width (suc shift) (suc a) h =
    let next : shifted shift (ones width) * 2 / 2 ≡ shifted shift (ones width) = omega arith in
    omega (
      arith,
      ap (λ m. masked count (suc a / 2) m) next,
      masked-field count width shift (suc a / 2) (omega arith),
    )

bit_and-field :
    (width shift a : ℕ)
    → bit_and a (shifted shift (ones width)) ≡ shifted shift (lowest width (halved shift a))
bit_and-field width shift a =
    (λ i. bit_and-bitwise a (shifted shift (ones width)) i)
    ∙ masked-field a width shift a (omega arith)

-- The type bits of a CAEN word's upper half.
pub bit_and-0x600 : (a : ℕ) → bit_and a 0x600 ≡ a / 512 % 4 * 512
unfolding ones shifted lowest halved
bit_and-0x600 a = bit_and-field 2 9 a ∙ omega arith

-- The top five bits of a word.
pub bit_and-0xf800 : (a : ℕ) → bit_and a 0xf800 ≡ a / 2048 % 32 * 2048
unfolding ones shifted lowest halved
bit_and-0xf800 a = bit_and-field 5 11 a ∙ omega arith

-- The type bits of a CAEN long word.
pub bit_and-0x06000000 : (a : ℕ) → bit_and a 0x06000000 ≡ a / 2 ^ 25 % 4 * 2 ^ 25
unfolding ones shifted lowest halved
bit_and-0x06000000 a = bit_and-field 2 25 a ∙ omega arith

pub bit_and-0xf0000000 : (a : ℕ) → bit_and a 0xf0000000 ≡ a / 2 ^ 28 % 16 * 2 ^ 28
unfolding ones shifted lowest halved
bit_and-0xf0000000 a = bit_and-field 4 28 a ∙ omega arith

pub bit_and-0x0fffffff : (a : ℕ) → bit_and a 0x0fffffff ≡ a % 2 ^ 28
unfolding ones shifted lowest halved
bit_and-0x0fffffff a = bit_and-field 28 0 a ∙ omega arith

pub bit_and-0xffff : (a : ℕ) → bit_and a 0xffff ≡ u16 a
unfolding ones shifted lowest halved
bit_and-0xffff a = bit_and-field 16 0 a ∙ omega arith

pub bit_and-0xffffff : (a : ℕ) → bit_and a 0xffffff ≡ a % 16777216
unfolding ones shifted lowest halved
bit_and-0xffffff a = bit_and-field 24 0 a ∙ omega arith

pub bit_and-0x1ffff : (a : ℕ) → bit_and a 0x1ffff ≡ a % 0x20000
unfolding ones shifted lowest halved
bit_and-0x1ffff a = bit_and-field 17 0 a ∙ omega arith

pub bit_and-0xff : (a : ℕ) → bit_and a 0xff ≡ a % 256
unfolding ones shifted lowest halved
bit_and-0xff a = bit_and-field 8 0 a ∙ omega arith

-- `bit_or`, on a count of digits.
abbrev joined : ℕ → ℕ → ℕ → ℕ
joined count a b = digits (λ b. b) max count a b

joined-zero : (count a : ℕ) → a ≤ count → joined count a 0 ≡ a
joined-zero zero a h = omega arith
joined-zero (suc count) zero h = refl
joined-zero (suc count) (suc a) h = omega (arith, joined-zero count (suc a / 2) (omega arith))

joined-even :
    (count a b : ℕ)
    → ((c : ℕ) → a ≤ c → joined c a (b / 2) ≡ a + b / 2)
    → a * 2 ≤ count
    → joined count (a * 2) b ≡ a * 2 + b
joined-even zero zero b ih h = omega arith
joined-even (suc count) zero b ih h = omega arith
joined-even zero (suc a) b ih h = absurd (omega arith)
joined-even (suc count) (suc a) b ih h =
    let e : suc a * 2 ≡ suc (a * 2 + 1) = omega arith in
    let next : suc (a * 2 + 1) / 2 ≡ suc a = omega arith in
    ap (λ k. joined (suc count) k b) e
    ∙ omega (arith, ap (λ k. joined count k (b / 2)) next, ih count (omega arith))

-- Above `shift` digits nothing meets a number of `shift` digits.
joined-shifted :
    (shift count m b : ℕ)
    → shifted shift m ≤ count
    → b < 2 ^ shift
    → joined count (shifted shift m) b ≡ shifted shift m + b
unfolding shifted
joined-shifted zero count m b h small =
    let none : b ≡ 0 = omega arith in
    ap (λ k. joined count m k) none ∙ joined-zero count m h ∙ omega arith
joined-shifted (suc shift) count m b h small =
    joined-even count (shifted shift m) b
      (λ c g. joined-shifted shift c m (b / 2) g (omega (arith, pow-suc 2 shift))) h

shifted-mul : (shift m : ℕ) → shifted shift m ≡ m * 2 ^ shift
unfolding shifted
shifted-mul zero m = omega arith
shifted-mul (suc shift) m = grind (arith, shifted-mul shift m, pow-suc 2 shift)

-- Numbers that a shift has put one above the other.
pub bit_or-shifted :
    (shift high low : ℕ) → low < 2 ^ shift → bit_or (high * 2 ^ shift) low ≡ high * 2 ^ shift + low
bit_or-shifted shift high low h =
    let e = shifted-mul shift high in
    ap (λ k. bit_or k low) (sym e)
    ∙ (λ i. bit_or-bitwise (shifted shift high) low i)
    ∙ joined-shifted shift (shifted shift high) high low (omega arith) h
    ∙ ap (λ k. k + low) e

-- A number below 2 ^ 28, below the four bits of a command.
pub bit_or-command :
    (code val : ℕ) → val < 2 ^ 28 → bit_or (code * 2 ^ 28) val ≡ code * 2 ^ 28 + val
bit_or-command code val h = bit_or-shifted 28 code val h

-- Below `shift` digits nothing meets a number shifted by as many.
joined-below :
    (shift count a m : ℕ)
    → a ≤ count
    → a < 2 ^ shift
    → joined count a (shifted shift m) ≡ a + shifted shift m
unfolding shifted
joined-below shift zero zero m h small = omega arith
joined-below shift zero (suc a) m h small = absurd (omega arith)
joined-below shift (suc count) zero m h small = omega arith
joined-below zero (suc count) (suc a) m h small = absurd (omega arith)
joined-below (suc shift) (suc count) (suc a) m h small =
    let next : shifted shift m * 2 / 2 ≡ shifted shift m = omega arith in
    let small' : suc a / 2 < 2 ^ shift = omega (arith, small, pow-suc 2 shift) in
    omega (
      arith,
      ap (λ k. joined count (suc a / 2) k) next,
      joined-below shift count (suc a / 2) m (omega arith) small',
    )

-- The flag of an event's size.
pub bit_or-0x8000 : (a : ℕ) → a < 0x8000 → bit_or a 0x8000 ≡ a + 0x8000
unfolding shifted
bit_or-0x8000 a h = (λ i. bit_or-bitwise a 0x8000 i) ∙ joined-below 15 a a 1 (omega arith) h

masked-le : (count a m : ℕ) → masked count a m ≤ m
masked-le zero a m = omega arith
masked-le (suc count) zero m = omega arith
masked-le (suc count) (suc a) m = omega (arith, masked-le count (suc a / 2) (m / 2))

-- A masked value is at most the mask.
pub bit_and-le : (a m : ℕ) → bit_and a m ≤ m
bit_and-le a m =
    let e : bit_and a m ≡ masked a a m = λ i. bit_and-bitwise a m i in
    omega (arith, e, masked-le a a m)
