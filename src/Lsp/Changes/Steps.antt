-- ===== src/Lsp/Changes/Steps.antt =====
-- One round of the loop of `positionAt`: src/lsp/documents.ts.
use o_pi.Common.{
  ℕ, zero, suc, ◌+◌, ◌-◌, ◌≤◌, ◌<◌, Text, true, false, [], ◌∷◌, leb, ◌≡◌, refl, ap, ◌∙◌, subst,
  arith, Bool-cases, inl, inr,
}
use o_pi.Filesystem.TextService.{lf, is_cr_lf, is_break}
use o_pi.Lsp.Changes.{pos, difference, Position, char_at, is_code, splits_crlf}
use o_pi.Lsp.Changes.Splits.{splits-Split, Split-splits}
use o_pi.Lsp.Changes.Positions.{line_length, distance, Reached}

difference-pos : (m n : ℕ) → n ≤ m → difference m n ≡ pos (m - n)
unfolding difference
difference-pos m n h = let e : leb n m ≡ true = ground arith in rw e refl

pub stopped :
    (offset index line start : ℕ) (t : Text)
    → start ≤ index
    → index ≡ offset
    → Reached offset index line start t
        (record { line = line; character = difference offset start })
unfolding distance
stopped offset index line start t s e = record {
  lines = 0;
  characters = offset - start;
  at = rw (difference-pos offset start (omega arith)) (
      ap (λ k. record { line = k; character = pos (offset - start) }) {x = line} {y = line + 0}
        (omega arith));
  meant = omega arith;
  same_line = λ e. refl;
}

pub behind :
    (c : ℕ) (t : Text) (k : ℕ) → splits_crlf (c ∷ t) (suc k) ≡ false → splits_crlf t k ≡ false
unfolding char_at
behind c t k h = elim (Bool-cases (splits_crlf t k)) [
  | inr e ↦ e
  | inl e ↦
      let w = splits-Split t k e in
      let g =
        Split-splits (c ∷ t) (suc w.before) w.return
          (subst (λ j. is_code (char_at t j) lf ≡ true) w.place w.feed) in
      let same : splits_crlf (c ∷ t) (suc k) ≡ splits_crlf (c ∷ t) (suc (suc w.before)) =
        ap (λ j. splits_crlf (c ∷ t) (suc j)) w.place in
      absurd cc
]

pub inside_pair : (c d : ℕ) (t : Text) → is_cr_lf c d ≡ true → splits_crlf (c ∷ d ∷ t) 1 ≡ true
unfolding char_at is_cr_lf
inside_pair c d t h = Split-splits (c ∷ d ∷ t) 0 (ground arith) (ground arith)

abbrev place : ℕ → ℕ → Position
place line character = record { line = line; character = pos character }

down :
    (line lines characters : ℕ)
    → place (suc line + lines) characters ≡ place (line + suc lines) characters
down line lines characters =
    ap (λ k. place k characters) {x = suc line + lines} {y = line + suc lines} (omega arith)

module _ (offset index line start c : ℕ) (s : start ≤ index) (o : index < offset) where
  meant_end :
      is_break c ≡ false
      → offset ≡ suc index
      → (lines characters : ℕ)
      → distance (suc index - start) [] lines characters ≡ offset - suc index
      → (lines ≡ 0 → characters ≡ offset - start)
      → distance (index - start) (c ∷ []) lines characters ≡ offset - index
  unfolding distance line_length
  meant_end b e zero characters m f = rw b (omega (arith, f refl))
  meant_end b e (suc lines) characters m f = rw (distance, b) (omega arith)

  meant_on :
      (d : ℕ) (t : Text)
      → is_cr_lf c d ≡ false
      → is_break c ≡ false
      → (lines characters : ℕ)
      → distance (suc index - start) (d ∷ t) lines characters ≡ offset - suc index
      → (lines ≡ 0 → characters ≡ offset - start)
      → distance (index - start) (c ∷ d ∷ t) lines characters ≡ offset - index
  unfolding distance line_length
  meant_on d t e b zero characters m f = rw b (omega (arith, f refl))
  meant_on d t e b (suc lines) characters m f =
      let g =
        ap (λ k. distance k (d ∷ t) (suc lines) characters) {x = suc (index - start)}
          {y = suc index - start} (omega arith)
        ∙ m in
      rw (distance, e, b) (omega arith)

  module _ (p : Position) where
    pub plain_end :
        is_break c ≡ false
        → offset ≡ suc index
        → Reached offset (suc index) line start [] p
        → Reached offset index line start (c ∷ []) p
    plain_end b e r = record {
      lines = r.lines;
      characters = r.characters;
      at = r.at;
      meant = meant_end b e r.lines r.characters r.meant r.same_line;
      same_line = r.same_line;
    }

    pub break_end :
        is_break c ≡ true
        → offset ≡ suc index
        → Reached offset (suc index) (suc line) (suc index) [] p
        → Reached offset index line start (c ∷ []) p
    unfolding distance
    break_end b e r = record {
      lines = suc r.lines;
      characters = r.characters;
      at = r.at ∙ down line r.lines r.characters;
      meant =
          let m =
            ap (λ k. distance k [] r.lines r.characters) {x = 0} {y = suc index - suc index}
              (omega arith)
            ∙ r.meant in
          rw (distance, b) (omega arith);
      same_line = λ f. absurd (omega arith);
    }

    module _ (d : ℕ) (t : Text) where
      pub break_on :
          is_cr_lf c d ≡ false
          → is_break c ≡ true
          → Reached offset (suc index) (suc line) (suc index) (d ∷ t) p
          → Reached offset index line start (c ∷ d ∷ t) p
      unfolding distance
      break_on e b r = record {
        lines = suc r.lines;
        characters = r.characters;
        at = r.at ∙ down line r.lines r.characters;
        meant =
            let m =
              ap (λ k. distance k (d ∷ t) r.lines r.characters) {x = 0} {y = suc index - suc index}
                (omega arith)
              ∙ r.meant in
            rw (distance, e, b) (omega arith);
        same_line = λ f. absurd (omega arith);
      }

      pub pair_on :
          is_cr_lf c d ≡ true
          → suc index < offset
          → Reached offset (index + 2) (suc line) (index + 2) t p
          → Reached offset index line start (c ∷ d ∷ t) p
      unfolding distance
      pair_on e l r = record {
        lines = suc r.lines;
        characters = r.characters;
        at = r.at ∙ down line r.lines r.characters;
        meant =
            let m =
              ap (λ k. distance k t r.lines r.characters) {x = 0} {y = index + 2 - (index + 2)}
                (omega arith)
              ∙ r.meant in
            rw (distance, e) (omega arith);
        same_line = λ f. absurd (omega arith);
      }

      pub plain_on :
          is_cr_lf c d ≡ false
          → is_break c ≡ false
          → Reached offset (suc index) line start (d ∷ t) p
          → Reached offset index line start (c ∷ d ∷ t) p
      plain_on e b r = record {
        lines = r.lines;
        characters = r.characters;
        at = r.at;
        meant = meant_on d t e b r.lines r.characters r.meant r.same_line;
        same_line = r.same_line;
      }
