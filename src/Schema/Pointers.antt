-- ===== src/Schema/Pointers.antt =====
-- Keys in paths and references: src/schema-validator.ts.
use o_pi.Common.{
  ℕ, Text, true, false, [], ◌∷◌, if◌then◌else◌, ◌==◌, ==_iff, ◌≡◌, refl, sym, ap, ◌∙◌, Bool-cases,
  inl, inr,
}
use o_pi.Schema.Validate.{replace, unescape, escape, tilde, slash, digit_zero, digit_one}

-- A character that is no tilde stays.
replace_other :
    (d b c : ℕ) (t : Text) → (c == tilde) ≡ false → replace d b (c ∷ t) ≡ c ∷ replace d b t
unfolding replace
replace_other d b c [] h = refl
replace_other d b c (e ∷ t) h = rw h refl

replace_hit :
    (d b : ℕ) (t : Text) → (d == d) ≡ true → replace d b (tilde ∷ d ∷ t) ≡ b ∷ replace d b t
unfolding replace
replace_hit d b t h = rw h refl

-- The tilde alone as a sequence.
escape_tilde : Text → Text
escape_tilde [] = []
escape_tilde (c ∷ t) =
    let rest = escape_tilde t in if c == tilde then tilde ∷ digit_zero ∷ rest else c ∷ rest

replace-escape : (t : Text) → replace digit_one slash (escape t) ≡ escape_tilde t
unfolding escape escape_tilde replace
replace-escape [] = refl
replace-escape (c ∷ t) = elim (Bool-cases (c == tilde)) [
  | inl e ↦ rw e (
      ap (λ l. tilde ∷ l)
        (replace_other digit_one slash digit_zero (escape t) refl
          ∙ ap (λ l. digit_zero ∷ l) (replace-escape t)))
  | inr e ↦ elim (Bool-cases (c == slash)) [
    | inl f ↦
        rw (e, f)
          (ap (λ l. slash ∷ l) (replace-escape t)
            ∙ ap (λ d. d ∷ escape_tilde t) (sym ((==_iff c slash).0 f)))
    | inr f ↦
        rw (e, f)
          (replace_other digit_one slash c (escape t) e ∙ ap (λ l. c ∷ l) (replace-escape t))
  ]
]

replace-escape_tilde : (t : Text) → replace digit_zero tilde (escape_tilde t) ≡ t
unfolding escape_tilde replace
replace-escape_tilde [] = refl
replace-escape_tilde (c ∷ t) = elim (Bool-cases (c == tilde)) [
  | inl e ↦
      rw e (
        ap (λ l. tilde ∷ l) (replace-escape_tilde t) ∙ ap (λ d. d ∷ t) (sym ((==_iff c tilde).0 e)))
  | inr e ↦ rw e (
      replace_other digit_zero tilde c (escape_tilde t) e
      ∙ ap (λ l. c ∷ l) (replace-escape_tilde t))
]

-- A key that is written into a path is read back as it was by the code of references.
pub unescape-escape : (t : Text) → unescape (escape t) ≡ t
unfolding unescape
unescape-escape t = ap (replace digit_zero tilde) (replace-escape t) ∙ replace-escape_tilde t
