-- ===== src/Filesystem/TextService/Records.antt =====
-- The records make up the text: src/filesystem/services/text.ts.
use o_pi.Common.{
  Text, List, [], ◌∷◌, ◌++◌, append_assoc, append-nil, ◌≡◌, refl, ◌∙◌, Bool-cases, inl, inr,
}
use o_pi.Filesystem.TextService.{is_cr_lf, is_break, records_from, line_records}

-- `records.join("")`
unfoldable pub concat : List Text → Text
concat [] = []
concat (r ∷ rs) = r ++ concat rs

pub records_from-whole : (part t : Text) → concat (records_from part t) ≡ part ++ t
unfolding records_from concat
records_from-whole [] [] = refl
records_from-whole (a ∷ part) [] = refl
records_from-whole part (c ∷ []) = append-nil (part ++ (c ∷ []))
records_from-whole part (c ∷ d ∷ t) = elim (Bool-cases (is_cr_lf c d)) [
  | inl e ↦ rw (records_from, e, records_from-whole [] t) (append_assoc part (c ∷ d ∷ []) t)
  | inr e ↦ elim (Bool-cases (is_break c)) [
    | inl f ↦
        rw (records_from, e, f, records_from-whole [] (d ∷ t)) (append_assoc part (c ∷ []) (d ∷ t))
    | inr f ↦
        rw (records_from, e, f)
          (records_from-whole (part ++ (c ∷ [])) (d ∷ t) ∙ append_assoc part (c ∷ []) (d ∷ t))
  ]
]

-- No character of the text is lost or doubled by the records.
pub line_records-whole : (t : Text) → concat (line_records t) ≡ t
unfolding line_records
line_records-whole t = records_from-whole [] t
