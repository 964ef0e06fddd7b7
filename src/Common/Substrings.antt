-- ===== src/Common/Substrings.antt =====
-- `endsWith` and `includes` on strings, and what they decide.
use mathlib.Core.Path.{◌≡◌, refl, ap}
use mathlib.Core.Bool.{Bool, true, ◌||◌}
use mathlib.Core.List.{[], ◌∷◌, ◌++◌}
use native.Mathlib.Omega.{arith}
use mathlib.Core.Logic.{inl, inr}
use o_pi.Common.Tests.{or-eq-true}
use o_pi.Common.Texts.{
  Text, text_eq, text_eq_iff, text_eq_refl, starts_with, starts_with_iff, starts_with-append,
  is_empty,
}

-- `String.prototype.endsWith`
unfoldable pub ends_with : Text → Text → Bool
ends_with [] t = is_empty t
ends_with (c ∷ s) t = text_eq (c ∷ s) t || ends_with s t

-- `String.prototype.includes`
unfoldable pub contains : Text → Text → Bool
contains [] t = is_empty t
contains (c ∷ s) t = starts_with (c ∷ s) t || contains s t

starts_with_nil : (t : Text) → starts_with [] t ≡ is_empty t
unfolding starts_with
starts_with_nil [] = refl
starts_with_nil (c ∷ t) = refl

ends_with_self : (t : Text) → ends_with t t ≡ true
unfolding ends_with
ends_with_self [] = refl
ends_with_self (c ∷ t) = rw (text_eq_refl (c ∷ t)) refl

pub ends_with-append : (p t : Text) → ends_with (p ++ t) t ≡ true
unfolding ends_with
ends_with-append [] t = ends_with_self t
ends_with-append (c ∷ p) t = ground (arith, ends_with-append p t)

pub ends_with_split : (s t : Text) → ends_with s t ≡ true → (p : Text) × (s ≡ p ++ t)
unfolding ends_with
ends_with_split [] [] h = ([], refl)
ends_with_split [] (c ∷ t) h = cc
ends_with_split (c ∷ s) t h = elim (or-eq-true _ _ h) [
  | inl e ↦ ([], (text_eq_iff (c ∷ s) t).0 e)
  | inr e ↦ let (p, f) = ends_with_split s t e in (c ∷ p, ap (λ l. c ∷ l) f)
]

contains_start : (t r : Text) → contains (t ++ r) t ≡ true
unfolding contains starts_with
contains_start [] [] = refl
contains_start [] (c ∷ r) = refl
contains_start (c ∷ t) r = rw (starts_with-append (c ∷ t) r) refl

pub contains-append : (p t r : Text) → contains (p ++ t ++ r) t ≡ true
unfolding contains
contains-append [] t r = contains_start t r
contains-append (c ∷ p) t r = ground (arith, contains-append p t r)

pub contains_split :
    (s t : Text) → contains s t ≡ true → (p : Text) × (r : Text) × (s ≡ p ++ t ++ r)
unfolding contains
contains_split [] [] h = ([], [], refl)
contains_split [] (c ∷ t) h = cc
contains_split (c ∷ s) t h = elim (or-eq-true _ _ h) [
  | inl e ↦ let (r, f) = starts_with_iff (c ∷ s) t e in ([], r, f)
  | inr e ↦ let (p, r, f) = contains_split s t e in (c ∷ p, r, ap (λ l. c ∷ l) f)
]
