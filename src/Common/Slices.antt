-- ===== src/Common/Slices.antt =====
-- `slice` on strings and arrays, and what its parts make up.
use Prim.Native.Nat.{ℕ, zero, suc, ◌+◌, ◌-◌, ◌≤◌, min}
use mathlib.Core.Path.{◌≡◌, refl, sym, ap, ◌∙◌}
use mathlib.Core.List.{List, [], ◌∷◌, ◌++◌}
use native.Mathlib.Omega.{arith}
use o_pi.Common.Lists.{length}

module _ {ℓ} {A : Type ℓ} where
  -- `l.slice(n)`
  unfoldable pub drop : ℕ → List A → List A
  drop zero l = l
  drop (suc n) [] = []
  drop (suc n) (a ∷ l) = drop n l

  -- `l.slice(0, n)`
  unfoldable pub take : ℕ → List A → List A
  take zero l = []
  take (suc n) [] = []
  take (suc n) (a ∷ l) = a ∷ take n l

  -- `l.slice(a, b)`
  unfoldable pub slice : List A → ℕ → ℕ → List A
  unfolding take drop
  slice l a b = take (b - a) (drop a l)

  pub take-drop : (n : ℕ) (l : List A) → take n l ++ drop n l ≡ l
  unfolding take drop
  take-drop zero l = refl
  take-drop (suc n) [] = refl
  take-drop (suc n) (a ∷ l) = ap (λ m. a ∷ m) (take-drop n l)

  pub length-take : (n : ℕ) (l : List A) → length (take n l) ≡ min n (length l)
  unfolding take
  length-take zero l = omega arith
  length-take (suc n) [] = omega arith
  length-take (suc n) (a ∷ l) = omega (arith, length-take n l)

  pub length-drop : (n : ℕ) (l : List A) → length (drop n l) ≡ length l - n
  unfolding drop
  length-drop zero l = omega arith
  length-drop (suc n) [] = omega arith
  length-drop (suc n) (a ∷ l) = omega (arith, length-drop n l)

  pub drop-append : (l m : List A) → drop (length l) (l ++ m) ≡ m
  unfolding drop
  drop-append [] m = refl
  drop-append (a ∷ l) m = drop-append l m

  pub take-append : (l m : List A) → take (length l) (l ++ m) ≡ l
  unfolding take
  take-append [] m = refl
  take-append (a ∷ l) m = ap (λ k. a ∷ k) (take-append l m)

  -- The part before a point in the first list.
  pub drop-append_le : (n : ℕ) (l m : List A) → n ≤ length l → drop n (l ++ m) ≡ drop n l ++ m
  unfolding drop
  drop-append_le zero l m h = refl
  drop-append_le (suc n) [] m h = absurd (omega arith)
  drop-append_le (suc n) (a ∷ l) m h = drop-append_le n l m (omega arith)

  pub take-whole : (n : ℕ) (l : List A) → length l ≤ n → take n l ≡ l
  unfolding take
  take-whole zero [] h = refl
  take-whole zero (a ∷ l) h = absurd (omega arith)
  take-whole (suc n) [] h = refl
  take-whole (suc n) (a ∷ l) h = ap (λ m. a ∷ m) (take-whole n l (omega arith))

  pub drop-all : (n : ℕ) (l : List A) → length l ≤ n → drop n l ≡ []
  unfolding drop
  drop-all zero [] h = refl
  drop-all zero (a ∷ l) h = absurd (omega arith)
  drop-all (suc n) [] h = refl
  drop-all (suc n) (a ∷ l) h = drop-all n l (omega arith)

  pub drop-nil : (n : ℕ) → drop n [] ≡ []
  unfolding drop
  drop-nil zero = refl
  drop-nil (suc n) = refl

  pub drop-drop : (m n : ℕ) (l : List A) → drop m (drop n l) ≡ drop (n + m) l
  unfolding drop
  drop-drop m zero l = ap (λ k. drop k l) {x = m} {y = zero + m} (omega arith)
  drop-drop m (suc n) [] = drop-nil m ∙ sym (drop-nil (suc n + m))
  drop-drop m (suc n) (a ∷ l) =
      drop-drop m n l ∙ ap (λ k. drop k (a ∷ l)) {x = suc (n + m)} {y = suc n + m} (omega arith)
