-- ===== src/Filesystem/TextService/Lines.antt =====
-- The logical lines are the records without their terminators: src/filesystem/services/text.ts.
use o_pi.Common.{
  ℕ, suc, Text, is_empty, true, false, List, [], ◌∷◌, ◌++◌, length, if◌then◌else◌, ◌≡◌, ◌≢◌, ◌⊎◌,
  refl, sym, ap, subst, ◌∙◌, arith, Bool-cases, All, All-append, inl, inr,
}
use o_pi.Filesystem.TextService.{
  cr, lf, is_cr, is_lf, is_cr_lf, is_break, replace_cr_lf, replace_cr, normalize_line_endings,
  split_lines, ends_with_lf, pop, logical_lines, records_from, line_records,
}

-- No character is part of a line break.
abbrev pub Plain : Text → Type 0
Plain l = All (λ c. (c ≢ cr) × (c ≢ lf)) l

pub data Terminator : Text → Type 0 where
  cr_lf : {c d : ℕ} → c ≡ cr → d ≡ lf → Terminator (c ∷ d ∷ [])
  one : {c : ℕ} → (c ≡ lf) ⊎ (c ≡ cr) → Terminator (c ∷ [])

-- Records and their lines: each line without its terminator, which only the last may lack.
pub data Lines : List Text → List Text → Type 0 where
  no_line : Lines [] []
  broken :
      {line term : Text} {records lines : List Text}
      → Plain line
      → Terminator term
      → Lines records lines
      → Lines ((line ++ term) ∷ records) (line ∷ lines)
  open_end : {line : Text} → Plain line → line ≢ [] → Lines (line ∷ []) (line ∷ [])

-- The parts of a split, without an empty one at the end.
unfoldable parts : Text → Text → List Text
parts part [] = if is_empty part then [] else part ∷ []
parts part (c ∷ t) = elim (is_lf c) [
  | true ↦ part ∷ parts [] t
  | false ↦ parts (part ++ (c ∷ [])) t
]

not_empty : (l : Text) (c : ℕ) → is_empty (l ++ (c ∷ [])) ≡ false
not_empty [] c = refl
not_empty (a ∷ l) c = refl

-- The clauses of the definitions under what they test.
module _ (part : Text) (c : ℕ) (t : Text) where
  split_at : is_lf c ≡ true → split_lines part (c ∷ t) ≡ part ∷ split_lines [] t
  unfolding split_lines
  split_at e = rw (split_lines, e) refl

  split_past : is_lf c ≡ false → split_lines part (c ∷ t) ≡ split_lines (part ++ (c ∷ [])) t
  unfolding split_lines
  split_past e = rw (split_lines, e) refl

  parts_at : is_lf c ≡ true → parts part (c ∷ t) ≡ part ∷ parts [] t
  unfolding parts
  parts_at e = rw (parts, e) refl

  parts_past : is_lf c ≡ false → parts part (c ∷ t) ≡ parts (part ++ (c ∷ [])) t
  unfolding parts
  parts_past e = rw (parts, e) refl

module _ (part : Text) (c d : ℕ) (t : Text) where
  records_pair :
      is_cr_lf c d ≡ true
      → records_from part (c ∷ d ∷ t) ≡ (part ++ (c ∷ d ∷ [])) ∷ records_from [] t
  unfolding records_from
  records_pair e = rw (records_from, e) refl

  records_at :
      is_cr_lf c d ≡ false
      → is_break c ≡ true
      → records_from part (c ∷ d ∷ t) ≡ (part ++ (c ∷ [])) ∷ records_from [] (d ∷ t)
  unfolding records_from
  records_at e f = rw (records_from, e, f) refl

  records_past :
      is_cr_lf c d ≡ false
      → is_break c ≡ false
      → records_from part (c ∷ d ∷ t) ≡ records_from (part ++ (c ∷ [])) (d ∷ t)
  unfolding records_from
  records_past e f = rw (records_from, e, f) refl

-- What a character is after the normalization.
abbrev normal : ℕ → ℕ
normal c = if is_cr c then lf else c

normalize_pair :
    (c d : ℕ) (t : Text)
    → is_cr_lf c d ≡ true
    → normalize_line_endings (c ∷ d ∷ t) ≡ lf ∷ normalize_line_endings t
unfolding normalize_line_endings replace_cr replace_cr_lf is_cr
normalize_pair c d t e = rw (replace_cr_lf, e) refl

normalize_next :
    (c d : ℕ) (t : Text)
    → is_cr_lf c d ≡ false
    → normalize_line_endings (c ∷ d ∷ t) ≡ normal c ∷ normalize_line_endings (d ∷ t)
unfolding normalize_line_endings replace_cr replace_cr_lf
normalize_next c d t e = rw (replace_cr_lf, e) refl

split_cons :
    (part : Text) (t : Text) → (l : Text) × (ls : List Text) × (split_lines part t ≡ l ∷ ls)
unfolding split_lines
split_cons part [] = (part, [], refl)
split_cons part (c ∷ t) = elim (Bool-cases (is_lf c)) [
  | inl e ↦ (part, split_lines [] t, split_at part c t e)
  | inr e ↦ let (l, ls, f) = split_cons (part ++ (c ∷ [])) t in (l, ls, split_past part c t e ∙ f)
]

pop_cons : (l : Text) (part t : Text) → pop (l ∷ split_lines part t) ≡ l ∷ pop (split_lines part t)
unfolding pop
pop_cons l part t = let (k, ks, e) = split_cons part t in rw e refl

-- The lines of a text without the empty one behind its last line break.
abbrev chopped : Text → Text → List Text
chopped part t = if ends_with_lf t then pop (split_lines part t) else split_lines part t

chopped_at :
    (part : Text) (c d : ℕ) (t : Text)
    → is_lf c ≡ true
    → chopped part (c ∷ d ∷ t) ≡ part ∷ chopped [] (d ∷ t)
unfolding ends_with_lf
chopped_at part c d t e = elim (Bool-cases (ends_with_lf (d ∷ t))) [
  | inl f ↦ rw (split_at part c (d ∷ t) e, f) (pop_cons part [] (d ∷ t))
  | inr f ↦ rw (split_at part c (d ∷ t) e, f) refl
]

chopped_past :
    (part : Text) (c d : ℕ) (t : Text)
    → is_lf c ≡ false
    → chopped part (c ∷ d ∷ t) ≡ chopped (part ++ (c ∷ [])) (d ∷ t)
unfolding ends_with_lf
chopped_past part c d t e = rw (split_past part c (d ∷ t) e) refl

chopped-parts : (part : Text) (c : ℕ) (t : Text) → chopped part (c ∷ t) ≡ parts part (c ∷ t)
unfolding ends_with_lf pop parts split_lines
chopped-parts part c [] = elim (Bool-cases (is_lf c)) [
  | inl e ↦ rw (split_at part c [] e, parts_at part c [] e, e) refl
  | inr e ↦ rw (split_past part c [] e, parts_past part c [] e, e, not_empty part c) refl
]
chopped-parts part c (d ∷ t) = elim (Bool-cases (is_lf c)) [
  | inl e ↦
      chopped_at part c d t e
      ∙ ap (λ l. part ∷ l) (chopped-parts [] d t)
      ∙ sym (parts_at part c (d ∷ t) e)
  | inr e ↦
      chopped_past part c d t e
      ∙ chopped-parts (part ++ (c ∷ [])) d t
      ∙ sym (parts_past part c (d ∷ t) e)
]

longer : (part : Text) (c : ℕ) → Plain part → is_break c ≡ false → Plain (part ++ (c ∷ []))
unfolding is_break
longer part c p e = All-append _ part (c ∷ []) p ((ground arith, ground arith), tt)

normal_break : (c : ℕ) → is_break c ≡ true → is_lf (normal c) ≡ true
unfolding is_break is_lf is_cr
normal_break c h = ground arith

normal_plain : (c : ℕ) → is_break c ≡ false → (is_lf (normal c) ≡ false) × (normal c ≡ c)
unfolding is_break is_lf is_cr
normal_plain c h = ground arith

terminates_pair : (c d : ℕ) → is_cr_lf c d ≡ true → Terminator (c ∷ d ∷ [])
unfolding is_cr_lf
terminates_pair c d h = cr_lf (ground arith) (ground arith)

terminates_one : (c : ℕ) → is_break c ≡ true → Terminator (c ∷ [])
unfolding is_break
terminates_one c h = one (ground arith)

-- What the records hold between the line breaks is what the parts of the normalized text hold.
records-Lines :
    (part t : Text)
    → Plain part
    → Lines (records_from part t) (parts part (normalize_line_endings t))
unfolding records_from parts normalize_line_endings replace_cr replace_cr_lf is_lf
records-Lines [] [] p = no_line
records-Lines (a ∷ part) [] p = open_end p (λ h. cc)
records-Lines part (c ∷ []) p = elim (Bool-cases (is_break c)) [
  | inl e ↦
      rw (parts_at part (normal c) [] (normal_break c e)) (broken p (terminates_one c e) no_line)
  | inr e ↦
      let (f, g) = normal_plain c e in
      rw (parts_past part (normal c) [] f, g, not_empty part c)
        (open_end (longer part c p e) (λ h. let i = ap is_empty h in cc (not_empty part c)))
]
records-Lines part (c ∷ d ∷ t) p = elim (Bool-cases (is_cr_lf c d)) [
  | inl e ↦
      rw (records_pair part c d t e, normalize_pair c d t e)
        (broken p (terminates_pair c d e) (records-Lines [] t tt))
  | inr e ↦ elim (Bool-cases (is_break c)) [
    | inl f ↦
        rw
          (
            records_at part c d t e f,
            normalize_next c d t e,
            parts_at part (normal c) (normalize_line_endings (d ∷ t)) (normal_break c f),
          )
          (broken p (terminates_one c f) (records-Lines [] (d ∷ t) tt))
    | inr f ↦
        let (g, h) = normal_plain c f in
        rw
          (
            records_past part c d t e f,
            normalize_next c d t e,
            parts_past part (normal c) (normalize_line_endings (d ∷ t)) g,
            h,
          )
          (records-Lines (part ++ (c ∷ [])) (d ∷ t) (longer part c p f))
  ]
]

normalize_cons :
    (c : ℕ) (t : Text) → (d : ℕ) × (u : Text) × (normalize_line_endings (c ∷ t) ≡ d ∷ u)
unfolding normalize_line_endings replace_cr replace_cr_lf
normalize_cons c [] = (normal c, [], refl)
normalize_cons c (d ∷ t) = elim (Bool-cases (is_cr_lf c d)) [
  | inl e ↦ (lf, normalize_line_endings t, normalize_pair c d t e)
  | inr e ↦ (normal c, normalize_line_endings (d ∷ t), normalize_next c d t e)
]

-- The logical lines of a text are its records, one by one, each without the terminator that it has in
-- the text; only the last record can have none, and then it is not empty.
pub line_records-Lines : (t : Text) → Lines (line_records t) (logical_lines t).lines
unfolding line_records logical_lines
line_records-Lines [] = no_line
line_records-Lines (c ∷ t) =
    let (d, u, e) = normalize_cons c t in
    let same : chopped [] (normalize_line_endings (c ∷ t))
        ≡ parts [] (normalize_line_endings (c ∷ t)) =
      rw e (chopped-parts [] d u) in
    subst (λ l. Lines (records_from [] (c ∷ t)) l) (sym same) (records-Lines [] (c ∷ t) tt)

pub length-Lines : {records lines : List Text} → Lines records lines → length lines ≡ length records
length-Lines no_line = refl
length-Lines (broken p h l) = ap suc (length-Lines l)
length-Lines (open_end p h) = refl
