-- ===== src/Filesystem/PathCatalog/Rows.antt =====
-- The rows hold the least costs: src/filesystem/services/path-catalog.ts.
use o_pi.Common.{ℕ, suc, ◌+◌, ◌≤◌, Text, List, [], ◌∷◌, length, some, ◌≡◌, refl, ap, subst, arith}
use o_pi.Filesystem.PathCatalog.{
  first_or_zero, fill_row, fill_rows, first_row, entry_at, edit_distance,
}
use o_pi.Filesystem.PathCatalog.Scripts.{
  Script, least, least-Script, least_le, onto, onto-Script, onto_twice,
}

-- The row of a beginning of the left text: the least costs to the beginnings of the right one. Both
-- beginnings stand with their last character first.
unfoldable row_of : Text → Text → Text → List ℕ
row_of p q [] = least p q ∷ []
row_of p q (b ∷ right) = least p q ∷ row_of p (b ∷ q) right

head_row : (p q right : Text) → first_or_zero (row_of p q right) ≡ least p q
unfolding row_of
head_row p q [] = refl
head_row p q (b ∷ right) = refl

fill_row-row_of :
    (a : ℕ) (p q right : Text)
    → least (a ∷ p) q ∷ fill_row a right (row_of p q right) (least (a ∷ p) q)
      ≡ row_of (a ∷ p) q right
unfolding fill_row row_of least
fill_row-row_of a p q [] = refl
fill_row-row_of a p q (b ∷ right) =
    rw (head_row p (b ∷ q) right)
      (ap (λ l. least (a ∷ p) q ∷ l) (fill_row-row_of a p (b ∷ q) right))

fill_rows-row_of :
    (index : ℕ) (left p right : Text)
    → index ≡ suc (length p)
    → fill_rows index left right (row_of p [] right) ≡ row_of (onto left p) [] right
unfolding fill_rows onto least
fill_rows-row_of index [] p right e = refl
fill_rows-row_of index (a ∷ left) p right e =
    rw (e, fill_row-row_of a p [] right)
      (fill_rows-row_of (suc (suc (length p))) left (a ∷ p) right refl)

first_row-row_of :
    (index : ℕ) (q right : Text) → index ≡ length q → first_row index right ≡ row_of [] q right
unfolding first_row row_of least
first_row-row_of index q [] e = ap (λ k. k ∷ []) e
first_row-row_of index q (b ∷ right) e =
    rw (first_row-row_of (suc index) (b ∷ q) right (ap suc e), e) refl

entry_at-row_of :
    (p q right : Text) → entry_at (row_of p q right) (length right) ≡ some (least p (onto right q))
unfolding entry_at row_of onto
entry_at-row_of p q [] = refl
entry_at-row_of p q (b ∷ right) = entry_at-row_of p (b ∷ q) right

edit_distance-least :
    (left right : Text) → edit_distance left right ≡ least (onto left []) (onto right [])
unfolding edit_distance
edit_distance-least left right =
    rw
      (
        first_row-row_of 0 [] right refl,
        fill_rows-row_of 1 left [] right refl,
        entry_at-row_of (onto left []) [] right,
      )
      refl

-- The loops over two rows compute the edit distance: there is a script of that cost, and no script
-- costs less.
pub edit_distance-Script :
    (left right : Text)
    → Script left right (edit_distance left right)
      × ((n : ℕ) → Script left right n → edit_distance left right ≤ n)
edit_distance-Script left right =
    let e = edit_distance-least left right in
    (
      rw e (turned left right _ (least-Script (onto left []) (onto right []))),
      λ n q. rw e (
          least_le (
            subst (Script (onto left []) (onto right [])) {x = n + 0} {y = n} (omega arith)
              (onto-Script q Script.done))),
    )
  where
    turned : (s t : Text) (n : ℕ) → Script (onto s []) (onto t []) n → Script s t n
    turned s t n q =
        let r =
          subst (Script (onto (onto s []) []) (onto (onto t []) [])) {x = n + 0} {y = n}
            (omega arith) (onto-Script q Script.done) in
        subst (λ u. Script u t n) (onto_twice s)
          (subst (λ u. Script (onto (onto s []) []) u n) (onto_twice t) r)
