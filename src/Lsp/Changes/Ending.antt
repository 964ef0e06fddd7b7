-- ===== src/Lsp/Changes/Ending.antt =====
-- The shared end of two texts: src/lsp/documents.ts.
use o_pi.Common.{
  ℕ, zero, suc, ◌+◌, ◌-◌, ◌≤◌, ◌<◌, drop, drop-all, drop-drop, Text, true, false, ◌||◌, [], ◌∷◌,
  length, Option, none, some, some_inj, ltb, ◌≡◌, refl, sym, ap, ◌∙◌, arith, Bool-cases, inl, inr,
}
use o_pi.Lsp.Changes.{char_at, same_code, splits_crlf, goes_on, suffix_loop, shrink, shared_suffix}

drop_char : (t : Text) (i a : ℕ) → char_at t i ≡ some a → drop i t ≡ a ∷ drop (suc i) t
unfolding char_at drop
drop_char [] i a h = absurd cc
drop_char (c ∷ t) zero a h = let e : c ≡ a = some_inj c a h in rw e refl
drop_char (c ∷ t) (suc i) a h = drop_char t i a h

-- So many characters at the end are the same, behind a prefix of so many.
pub record SameEnd (s t : Text) (prefix n : ℕ) : Type 0 where
  pub first : n ≤ length s - prefix
  pub second : n ≤ length t - prefix
  pub same : drop (length s - n) s ≡ drop (length t - n) t

same_char : (a b : Option ℕ) → same_code a b ≡ true → (c : ℕ) × (a ≡ some c) × (b ≡ some c)
same_char none b h = absurd cc
same_char (some a) none h = absurd cc
same_char (some a) (some b) h = (a, refl, ap some (ground arith))

one_more :
    (s t : Text) (prefix n : ℕ)
    → SameEnd s t prefix n
    → goes_on s t prefix n ≡ true
    → SameEnd s t prefix (suc n)
unfolding goes_on
one_more s t prefix n w h =
    let (c, e, f) =
      same_char (char_at s (length s - n - 1)) (char_at t (length t - n - 1)) (ground arith) in
    let l : n < length s - prefix = ground arith in
    let m : n < length t - prefix = ground arith in
    let i : suc (length s - n - 1) ≡ length s - n = omega arith in
    let j : suc (length t - n - 1) ≡ length t - n = omega arith in
    let k : length s - suc n ≡ length s - n - 1 = omega arith in
    let o : length t - suc n ≡ length t - n - 1 = omega arith in
    record {
      first = omega arith;
      second = omega arith;
      same =
          rw (k, o, drop_char s (length s - n - 1) c e, drop_char t (length t - n - 1) c f, i, j)
            (ap (λ u. c ∷ u) w.same);
    }

suffix_loop-SameEnd :
    (fuel : ℕ) (s t : Text) (prefix n : ℕ)
    → SameEnd s t prefix n
    → SameEnd s t prefix (suffix_loop fuel s t prefix n)
unfolding suffix_loop
suffix_loop-SameEnd zero s t prefix n w = w
suffix_loop-SameEnd (suc fuel) s t prefix n w = elim (Bool-cases (goes_on s t prefix n)) [
  | inl e ↦ rw e (suffix_loop-SameEnd fuel s t prefix (suc n) (one_more s t prefix n w e))
  | inr e ↦ rw e w
]

whole : (s t : Text) (prefix n : ℕ) → length s - prefix ≤ n → goes_on s t prefix n ≡ false
unfolding goes_on
whole s t prefix n h = let e : ltb n (length s - prefix) ≡ false = ground arith in rw e refl

-- With a round for each character of the first text, the loop stops since its condition fails.
pub suffix_loop-ends :
    (fuel : ℕ) (s t : Text) (prefix n : ℕ)
    → length s - prefix ≤ fuel + n
    → goes_on s t prefix (suffix_loop fuel s t prefix n) ≡ false
unfolding suffix_loop
suffix_loop-ends zero s t prefix n h = whole s t prefix n (omega arith)
suffix_loop-ends (suc fuel) s t prefix n h = elim (Bool-cases (goes_on s t prefix n)) [
  | inl e ↦ rw e (suffix_loop-ends fuel s t prefix (suc n) (omega arith))
  | inr e ↦ rw (e, e) refl
]

one_shorter : (s t : Text) (prefix n : ℕ) → SameEnd s t prefix (suc n) → SameEnd s t prefix n
one_shorter s t prefix n w =
    let h = w.first in
    let g = w.second in
    let i : length s - suc n + 1 ≡ length s - n = omega arith in
    let j : length t - suc n + 1 ≡ length t - n = omega arith in
    record {
      first = omega arith;
      second = omega arith;
      same =
          rw (← i, ← j)
            (sym (drop-drop 1 (length s - suc n) s)
              ∙ ap (drop 1) w.same
              ∙ drop-drop 1 (length t - suc n) t);
    }

splits_end : (t : Text) → splits_crlf t (length t - 0) ≡ false
unfolding splits_crlf
splits_end t = let e : ltb (length t - 0) (length t) ≡ false = ground arith in rw e (ground arith)

-- The suffix is shared, and it begins inside no line break of the first text.
pub record Suffix (s t : Text) (prefix n : ℕ) : Type 0 where
  pub shared : SameEnd s t prefix n
  pub first : splits_crlf s (length s - n) ≡ false
  pub second : splits_crlf t (length t - n) ≡ false

shrink-Suffix :
    (s t : Text) (prefix n : ℕ) → SameEnd s t prefix n → Suffix s t prefix (shrink s t n)
unfolding shrink
shrink-Suffix s t prefix zero w = record { shared = w; first = splits_end s; second = splits_end t }
shrink-Suffix s t prefix (suc n) w =
    elim (Bool-cases (splits_crlf s (length s - suc n) || splits_crlf t (length t - suc n))) [
      | inl e ↦ rw e (shrink-Suffix s t prefix n (one_shorter s t prefix n w))
      | inr e ↦ rw e (record { shared = w; first = ground arith; second = ground arith })
    ]

nothing_shared : (s t : Text) (prefix : ℕ) → SameEnd s t prefix 0
nothing_shared s t prefix = record {
  first = omega arith;
  second = omega arith;
  same = drop-all (length s - 0) s (omega arith) ∙ sym (drop-all (length t - 0) t (omega arith));
}

pub shared_suffix-Suffix : (s t : Text) (prefix : ℕ) → Suffix s t prefix (shared_suffix s t prefix)
unfolding shared_suffix
shared_suffix-Suffix s t prefix =
    shrink-Suffix s t prefix (suffix_loop (length s) s t prefix 0)
      (suffix_loop-SameEnd (length s) s t prefix 0 (nothing_shared s t prefix))
