-- ===== src/Lsp/Changes/Shared.antt =====
-- The shared beginning of two texts: src/lsp/documents.ts.
use o_pi.Common.{
  ℕ, zero, suc, ◌-◌, ◌≤◌, ◌<◌, take, Text, true, false, [], ◌∷◌, length, Option, none, some,
  some_inj, ◌≡◌, ◌≢◌, refl, ap, subst, arith, Bool-cases, inl, inr,
}
use o_pi.Filesystem.TextService.{cr, lf}
use o_pi.Lsp.Changes.{char_at, is_code, splits_crlf, common_prefix, shared_prefix}
use o_pi.Lsp.Changes.Splits.{splits-Split}

-- So many characters at the beginning are the same.
pub record SameStart (s t : Text) (n : ℕ) : Type 0 where
  pub first : n ≤ length s
  pub second : n ≤ length t
  pub same : (i : ℕ) → i < n → char_at s i ≡ char_at t i

common_prefix-same : (s t : Text) (i : ℕ) → i < common_prefix s t → char_at s i ≡ char_at t i
unfolding common_prefix char_at
common_prefix-same [] t i h = absurd (omega arith)
common_prefix-same (a ∷ s) [] i h = absurd (omega arith)
common_prefix-same (a ∷ s) (b ∷ t) zero h = ap some (ground arith)
common_prefix-same (a ∷ s) (b ∷ t) (suc i) h = common_prefix-same s t i (ground arith)

common_prefix_le : (s t : Text) → (common_prefix s t ≤ length s) × (common_prefix s t ≤ length t)
unfolding common_prefix
common_prefix_le [] t = (omega arith, omega arith)
common_prefix_le (a ∷ s) [] = (omega arith, omega arith)
common_prefix_le (a ∷ s) (b ∷ t) = let h = common_prefix_le s t in ground arith

common_prefix-SameStart : (s t : Text) → SameStart s t (common_prefix s t)
common_prefix-SameStart s t =
    let (h, g) = common_prefix_le s t in
    record { first = h; second = g; same = common_prefix-same s t }

one_less : (s t : Text) (n : ℕ) → SameStart s t (suc n) → SameStart s t n
one_less s t n w =
    let h = w.first in
    let g = w.second in
    record { first = omega arith; second = omega arith; same = λ i l. w.same i (omega arith) }

not_both : (c : Option ℕ) → is_code c cr ≡ true → is_code c lf ≢ true
not_both none h g = cc
not_both (some c) h g = ground arith

-- One character before the middle of a line break is no middle of another, in both texts.
before_split :
    (s t : Text) (n : ℕ)
    → SameStart s t (suc n)
    → is_code (char_at s n) cr ≡ true
    → (splits_crlf s n ≡ false) × (splits_crlf t n ≡ false)
before_split s t n w h = (no_split s h, no_split t (rw (← w.same n (omega arith)) h))
  where
    no_split : (u : Text) → is_code (char_at u n) cr ≡ true → splits_crlf u n ≡ false
    no_split u g = elim (Bool-cases (splits_crlf u n)) [
      | inr e ↦ e
      | inl e ↦ let f = splits-Split u n e in absurd (not_both (char_at u n) g f.feed)
    ]

-- The prefix is shared, and it ends inside no line break.
pub record Prefix (s t : Text) (n : ℕ) : Type 0 where
  pub shared : SameStart s t n
  pub first : splits_crlf s n ≡ false
  pub second : splits_crlf t n ≡ false

shortened :
    (s t : Text) (p n : ℕ)
    → SameStart s t p
    → p ≡ suc n
    → is_code (char_at s n) cr ≡ true
    → Prefix s t (p - 1)
shortened s t p n w e h =
    let v = subst (SameStart s t) e w in
    let (f, g) = before_split s t n v h in
    subst (Prefix s t) {x = n} {y = p - 1} (omega arith)
      (record { shared = one_less s t n v; first = f; second = g })

pub shared_prefix-Prefix : (s t : Text) → Prefix s t (shared_prefix s t)
unfolding shared_prefix
shared_prefix-Prefix s t =
    let p = common_prefix s t in
    let w = common_prefix-SameStart s t in
    elim (Bool-cases (splits_crlf s p)) [
      | inl e ↦ let f = splits-Split s p e in rw e (shortened s t p f.before w f.place f.return)
      | inr e ↦ elim (Bool-cases (splits_crlf t p)) [
        | inl f ↦
            let g = splits-Split t p f in
            let same = w.same g.before (omega (arith, g.place)) in
            rw (e, f) (shortened s t p g.before w g.place (rw same g.return))
        | inr f ↦ rw (e, f) (record { shared = w; first = e; second = f })
      ]
    ]

pub take_same : (s t : Text) (n : ℕ) → SameStart s t n → take n s ≡ take n t
unfolding take char_at
take_same s t zero w = refl
take_same [] t (suc n) w = absurd (let h = w.first in omega arith)
take_same (a ∷ s) [] (suc n) w = absurd (let h = w.second in omega arith)
take_same (a ∷ s) (b ∷ t) (suc n) w =
    let h = w.first in
    let g = w.second in
    let e : a ≡ b = some_inj a b (w.same 0 (omega arith)) in
    rw
      (
        e,
        take_same s t n (record {
          first = omega arith;
          second = omega arith;
          same = λ i l. w.same (suc i) (omega arith);
        }),
      )
      refl
