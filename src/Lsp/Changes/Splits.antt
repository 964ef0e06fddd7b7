-- ===== src/Lsp/Changes/Splits.antt =====
-- Offsets inside a line break: src/lsp/documents.ts.
use o_pi.Common.{
  ℕ, zero, suc, ◌-◌, ◌<◌, Text, true, false, ◌&&◌, [], ◌∷◌, length, ltb, ◌≡◌, refl, sym, ap, ◌∙◌,
  arith,
}
use o_pi.Filesystem.TextService.{cr, lf}
use o_pi.Lsp.Changes.{char_at, is_code, splits_crlf}

-- A carriage return before the offset and a line feed at it.
pub record Split (t : Text) (offset : ℕ) : Type 0 where
  pub before : ℕ
  pub place : offset ≡ suc before
  pub return : is_code (char_at t before) cr ≡ true
  pub feed : is_code (char_at t offset) lf ≡ true

is_code-length : (t : Text) (i c : ℕ) → is_code (char_at t i) c ≡ true → i < length t
unfolding char_at
is_code-length [] i c h = absurd cc
is_code-length (a ∷ t) zero c h = omega arith
is_code-length (a ∷ t) (suc i) c h = let g = is_code-length t i c h in omega arith

split_next :
    (t : Text) (i : ℕ)
    → splits_crlf t (suc i) ≡ (
        ltb 0 (suc i)
        && ltb (suc i) (length t)
        && is_code (char_at t i) cr
        && is_code (char_at t (suc i)) lf)
unfolding splits_crlf
split_next t i =
    ap
      (λ k.
        ltb 0 (suc i)
        && ltb (suc i) (length t)
        && is_code (char_at t k) cr
        && is_code (char_at t (suc i)) lf)
      {x = suc i - 1} {y = i} (omega arith)

pub splits_start : (t : Text) → splits_crlf t 0 ≡ false
unfolding splits_crlf
splits_start t = refl

pub splits-Split : (t : Text) (offset : ℕ) → splits_crlf t offset ≡ true → Split t offset
splits-Split t zero h = absurd (let e = splits_start t in cc)
splits-Split t (suc i) h =
    let g = sym (split_next t i) ∙ h in
    record { before = i; place = refl; return = ground arith; feed = ground arith }

pub Split-splits :
    (t : Text) (i : ℕ)
    → is_code (char_at t i) cr ≡ true
    → is_code (char_at t (suc i)) lf ≡ true
    → splits_crlf t (suc i) ≡ true
Split-splits t i r f = let l = is_code-length t (suc i) lf f in split_next t i ∙ ground arith
