-- ===== src/Common/Cells.antt =====
-- An array of words as a function from the index: single writes, runs of writes, and slices.
use Prim.Native.Nat.{ℕ, zero, suc, ◌+◌, ◌≤◌, ◌<◌}
use mathlib.Core.Path.{◌≡◌, refl, fun_ext, ap, ap₂, ◌∙◌}
use mathlib.Core.Logic.{◌⊎◌, inl, ◌≢◌}
use mathlib.Core.List.{List, [], ◌∷◌, ◌++◌}
use native.Mathlib.Omega.{arith}
use p42018_vmedaq.Common.Tests.{◌==◌, if◌then◌else◌}
use p42018_vmedaq.Common.Lists.{length}

abbrev pub Memory : Type 0
Memory = ℕ → ℕ

abbrev pub update : Memory → ℕ → ℕ → Memory
update m a w x = if x == a then w else m x

-- The words of the list from index `a` on.
unfoldable pub write_words : Memory → ℕ → List ℕ → Memory
write_words m a [] = m
write_words m a (w ∷ ws) = write_words (update m a w) (a + 1) ws

-- The `n` words from index `a` on.
unfoldable pub slice : Memory → ℕ → ℕ → List ℕ
slice m a zero = []
slice m a (suc n) = m a ∷ slice m (a + 1) n

-- A run of writes changes no other cell.
pub write_words_outside :
    (ws : List ℕ) (m : Memory) (a x : ℕ)
    → (x < a) ⊎ (a + length ws ≤ x)
    → write_words m a ws x ≡ m x
unfolding write_words
write_words_outside [] m a x h = refl
write_words_outside (w ∷ ws) m a x h =
    ground (arith, write_words_outside ws (update m a w) (a + 1) x)

pub write_words_at :
    {a b : ℕ} (m : Memory) (ws : List ℕ) → a ≡ b → write_words m a ws ≡ write_words m b ws
write_words_at m ws e = ap (λ k. write_words m k ws) e

pub write_words-append :
    (xs ys : List ℕ) (m : Memory) (a : ℕ)
    → write_words (write_words m a xs) (a + length xs) ys ≡ write_words m a (xs ++ ys)
unfolding write_words
write_words-append [] ys m a = let e : a + 0 ≡ a = omega arith in write_words_at m ys e
write_words-append (x ∷ xs) ys m a =
    let e : a + suc (length xs) ≡ a + 1 + length xs = omega arith in
    write_words_at (write_words (update m a x) (a + 1) xs) ys e
    ∙ write_words-append xs ys (update m a x) (a + 1)

update_comm :
    (m : Memory) (a b v w : ℕ) → a ≢ b → update (update m a v) b w ≡ update (update m b w) a v
update_comm m a b v w h = fun_ext λ x. ground arith

-- A cell before the run may be written last: how a size word is patched into a header.
pub update-write_words :
    (ws : List ℕ) (m : Memory) (a b v : ℕ)
    → a < b
    → update (write_words m b ws) a v ≡ write_words (update m a v) b ws
unfolding write_words
update-write_words [] m a b v h = refl
update-write_words (w ∷ ws) m a b v h =
    update-write_words ws (update m b w) a (b + 1) v (omega arith)
    ∙ ap (λ k. write_words k (b + 1) ws) (update_comm m b a w v (omega arith))

pub patch-write_words :
    (ws : List ℕ) (m : Memory) (a v : ℕ)
    → update (write_words m (a + 1) ws) a v ≡ write_words m a (v ∷ ws)
unfolding write_words
patch-write_words ws m a v = update-write_words ws m a (a + 1) v (omega arith)

-- Writing a run's first word once more changes nothing.
pub patch-write_words_self :
    (ws : List ℕ) (m : Memory) (a v : ℕ)
    → update (write_words m a (v ∷ ws)) a v ≡ write_words m a (v ∷ ws)
unfolding write_words
patch-write_words_self ws m a v =
    update-write_words ws (update m a v) a (a + 1) v (omega arith)
    ∙ ap (λ k. write_words k (a + 1) ws) (fun_ext λ x. ground arith)

pub slice_ext :
    (n : ℕ) (m k : Memory) (a : ℕ)
    → ((x : ℕ) → a ≤ x → x < a + n → m x ≡ k x)
    → slice m a n ≡ slice k a n
unfolding slice
slice_ext zero m k a h = refl
slice_ext (suc n) m k a h =
    ap₂ ◌∷◌ (h a (omega arith) (omega arith))
      (slice_ext n m k (a + 1) (λ x p q. h x (omega arith) (omega arith)))

-- What a run wrote is what a slice reads.
pub slice-write_words :
    (ws : List ℕ) (m : Memory) (a : ℕ) → slice (write_words m a ws) a (length ws) ≡ ws
unfolding slice write_words
slice-write_words [] m a = refl
slice-write_words (w ∷ ws) m a =
    ap₂ ◌∷◌ (write_words_outside ws (update m a w) (a + 1) a (inl (omega arith)) ∙ here)
      (slice-write_words ws (update m a w) (a + 1))
  where
    here : update m a w a ≡ w
    here = ground arith

-- A run leaves a slice beside it alone.
pub slice-write_words_outside :
    (n : ℕ) (ws : List ℕ) (m : Memory) (a b : ℕ)
    → (a + n ≤ b) ⊎ (b + length ws ≤ a)
    → slice (write_words m b ws) a n ≡ slice m a n
slice-write_words_outside n ws m a b h =
    slice_ext n (write_words m b ws) m a (λ x p q. write_words_outside ws m b x (ground arith))

pub slice-append :
    (n k : ℕ) (m : Memory) (a : ℕ) → slice m a (n + k) ≡ slice m a n ++ slice m (a + n) k
unfolding slice
slice-append zero k m a =
    let e : a ≡ a + 0 = omega arith in
    let n : zero + k ≡ k = omega arith in ap₂ (λ x y. slice m x y) e n
slice-append (suc n) k m a =
    let e : suc n + k ≡ suc (n + k) = omega arith in
    let f : a + 1 + n ≡ a + suc n = omega arith in
    ap (λ y. slice m a y) e
    ∙ ap (◌∷◌ (m a)) (slice-append n k m (a + 1) ∙ ap (λ x. slice m (a + 1) n ++ slice m x k) f)

pub length-slice : (n : ℕ) (m : Memory) (a : ℕ) → length (slice m a n) ≡ n
unfolding slice
length-slice zero m a = refl
length-slice (suc n) m a = omega (arith, length-slice n m (a + 1))
