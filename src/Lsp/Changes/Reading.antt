-- ===== src/Lsp/Changes/Reading.antt =====
-- The position of an offset means the offset: src/lsp/documents.ts.
use o_pi.Common.{
  ℕ, suc, ◌+◌, ◌-◌, ◌≤◌, ◌<◌, Text, true, false, [], ◌∷◌, length, ltb, ◌≡◌, ap, ◌∙◌, subst, arith,
  Bool-cases, inl, inr,
}
use o_pi.Filesystem.TextService.{is_cr_lf, is_break}
use o_pi.Lsp.Changes.{position_loop, position_at, splits_crlf}
use o_pi.Lsp.Changes.Positions.{distance, offset_of, Reached}
use o_pi.Lsp.Changes.Steps.{
  stopped, behind, inside_pair, break_end, plain_end, break_on, pair_on, plain_on,
}

past_pair :
    (offset index c d : ℕ) (t : Text)
    → is_cr_lf c d ≡ true
    → index < offset
    → splits_crlf (c ∷ d ∷ t) (offset - index) ≡ false
    → suc index < offset
past_pair offset index c d t q o n = elim (Bool-cases (ltb (suc index) offset)) [
  | inl e ↦ ground arith
  | inr e ↦
      let one : offset - index ≡ 1 = ground arith in
      let h = inside_pair c d t q in absurd (let g = ap (splits_crlf (c ∷ d ∷ t)) one in cc)
]

loop-Reached :
    (offset index line start : ℕ) (t : Text)
    → start ≤ index
    → index ≤ offset
    → offset ≤ index + length t
    → splits_crlf t (offset - index) ≡ false
    → Reached offset index line start t (position_loop offset index line start t)
unfolding position_loop
loop-Reached offset index line start [] s h l n = stopped offset index line start [] s (omega arith)
loop-Reached offset index line start (c ∷ []) s h l n = elim (Bool-cases (ltb index offset)) [
  | inr e ↦ rw (position_loop, e) (stopped offset index line start (c ∷ []) s (ground arith))
  | inl e ↦
      let o : index < offset = ground arith in
      let k : offset - index ≡ suc (offset - suc index) = omega arith in
      let rest =
        behind c [] (offset - suc index) (subst (λ j. splits_crlf (c ∷ []) j ≡ false) k n) in
      elim (Bool-cases (is_break c)) [
        | inl b ↦
            rw (position_loop, e, b)
              (break_end offset index line start c s o _ b (omega arith) (
                loop-Reached offset (suc index) (suc line) (suc index) [] (omega arith)
                  (omega arith) (omega arith) rest))
        | inr b ↦
            rw (position_loop, e, b)
              (plain_end offset index line start c s o _ b (omega arith) (
                loop-Reached offset (suc index) line start [] (omega arith) (omega arith)
                  (omega arith) rest))
      ]
]
loop-Reached offset index line start (c ∷ d ∷ t) s h l n = elim (Bool-cases (ltb index offset)) [
  | inr e ↦ rw (position_loop, e) (stopped offset index line start (c ∷ d ∷ t) s (ground arith))
  | inl e ↦
      let o : index < offset = ground arith in
      let k : offset - index ≡ suc (offset - suc index) = omega arith in
      let rest =
        behind c (d ∷ t) (offset - suc index)
          (subst (λ j. splits_crlf (c ∷ d ∷ t) j ≡ false) k n) in
      elim (Bool-cases (is_cr_lf c d)) [
        | inl q ↦
            let far = past_pair offset index c d t q o n in
            let j : offset - suc index ≡ suc (offset - (index + 2)) = omega arith in
            rw (position_loop, e, q)
              (pair_on offset index line start c s o _ d t q far (
                loop-Reached offset (index + 2) (suc line) (index + 2) t (omega arith) (omega arith)
                  (omega arith)
                  (behind d t (offset - (index + 2))
                    (subst (λ i. splits_crlf (d ∷ t) i ≡ false) j rest))))
        | inr q ↦ elim (Bool-cases (is_break c)) [
          | inl b ↦
              rw (position_loop, e, q, b)
                (break_on offset index line start c s o _ d t q b (
                  loop-Reached offset (suc index) (suc line) (suc index) (d ∷ t) (omega arith)
                    (omega arith) (omega arith) rest))
          | inr b ↦
              rw (position_loop, e, q, b)
                (plain_on offset index line start c s o _ d t q b (
                  loop-Reached offset (suc index) line start (d ∷ t) (omega arith) (omega arith)
                    (omega arith) rest))
        ]
      ]
]

-- Where the offset is in the text and inside no line break, its position means the offset.
pub offset_of-position_at :
    (t : Text) (offset : ℕ)
    → offset ≤ length t
    → splits_crlf t offset ≡ false
    → offset_of t (position_at t offset) ≡ offset
unfolding offset_of position_at
offset_of-position_at t offset l n =
    let r =
      loop-Reached offset 0 0 0 t (omega arith) (omega arith) (omega arith)
        (subst (λ j. splits_crlf t j ≡ false) {x = offset} {y = offset - 0} (omega arith) n) in
    rw r.at (
      ap (λ k. distance 0 t k r.characters) {x = 0 + r.lines} {y = r.lines} (omega arith)
      ∙ ap (λ k. distance k t r.lines r.characters) {x = 0} {y = 0 - 0} (omega arith)
      ∙ r.meant
      ∙ omega arith)
