-- ===== src/Filesystem/TextService/Slicing.antt =====
-- Every outcome of a read of lines: src/filesystem/services/text.ts.
use o_pi.Common.{
  ℕ, zero, suc, ◌+◌, ◌≤◌, ◌<◌, Text, true, false, ◌||◌, List, [], ◌∷◌, ◌++◌, append_assoc,
  append-nil, length, length-append, Option, none, some, Bool-cases, ltb, leb, ◌≡◌, ◌⊎◌, refl, sym,
  ap, subst, ◌∙◌, arith, inl, inr,
}
use o_pi.Filesystem.TextService.Slices.{SliceOptions, Taken, too_large, taken, slice_loop}

module _ (byte_length : Text → ℕ) where
  unfoldable pub total : List Text → ℕ
  total [] = 0
  total (r ∷ rs) = byte_length r + total rs

  total-append : (rs ss : List Text) → total (rs ++ ss) ≡ total rs + total ss
  unfolding total
  total-append [] ss = omega arith
  total-append (r ∷ rs) ss = let h = total-append rs ss in omega arith

  -- Records that are taken, within both limits.
  pub record Fit (o : SliceOptions) (rs : List Text) : Type 0 where
    pub lines : length rs ≤ o.max_lines
    pub bytes : total rs ≤ o.max_bytes

  -- Why no more is taken: the range or the file ends, or a limit is met.
  pub data Stops (o : SliceOptions) (lines line : ℕ) (chosen front back : List Text)
      : Option ℕ → Type 0 where
    at_end : (length front ≡ lines) ⊎ (back ≡ []) → Stops o lines line chosen front back none
    full :
        {n : ℕ} (r : Text) (rest : List Text)
        → back ≡ r ∷ rest
        → n ≡ line + length front
        → length front < lines
        → byte_length r ≤ o.max_bytes
        → (o.max_lines ≤ length chosen) ⊎ (o.max_bytes < total chosen + byte_length r)
        → Stops o lines line chosen front back (some n)

  pub data Loop (o : SliceOptions) (lines line : ℕ) (rest selected : List Text)
      : Taken → Type 0 where
    stuck_at :
        (front : List Text) (r : Text) (back : List Text)
        → rest ≡ front ++ r ∷ back
        → length front < lines
        → Fit o (selected ++ front)
        → o.max_bytes < byte_length r
        → Loop o lines line rest selected too_large
    takes :
        {next : Option ℕ} {chosen : List Text} (front back : List Text)
        → rest ≡ front ++ back
        → chosen ≡ selected ++ front
        → length front ≤ lines
        → Fit o chosen
        → Stops o lines line chosen front back next
        → Loop o lines line rest selected (taken chosen next)

  at_limit :
      (o : SliceOptions) (lines bytes : ℕ) (r : Text)
      → (leb o.max_lines lines || ltb o.max_bytes (bytes + byte_length r)) ≡ true
      → (o.max_lines ≤ lines) ⊎ (o.max_bytes < bytes + byte_length r)
  at_limit o lines bytes r h = ground arith

  one_more :
      (o : SliceOptions) (selected : List Text) (r : Text) (bytes : ℕ)
      → bytes ≡ total selected
      → (leb o.max_lines (length selected) || ltb o.max_bytes (bytes + byte_length r)) ≡ false
      → Fit o (selected ++ (r ∷ [])) × (bytes + byte_length r ≡ total (selected ++ (r ∷ [])))
  unfolding total
  one_more o selected r bytes e h =
      let n = length-append selected (r ∷ []) in
      let b = total-append selected (r ∷ []) in
      let inside : (length selected < o.max_lines) × (bytes + byte_length r ≤ o.max_bytes) =
        ground arith in
      (record { lines = omega (arith, inside.0); bytes = omega (arith, inside.1) }, omega arith)

  further :
      {o : SliceOptions} {lines line : ℕ} {chosen front back : List Text} {next : Option ℕ}
      (r : Text)
      → Stops o lines (suc line) chosen front back next
      → Stops o (suc lines) line chosen (r ∷ front) back next
  further r (at_end (inl h)) = at_end (inl (omega arith))
  further r (at_end (inr h)) = at_end (inr h)
  further r (full q rest e n h b m) = full q rest e (omega arith) (omega arith) b m

  longer :
      {o : SliceOptions} {lines line : ℕ} {rest selected : List Text} {t : Taken} (r : Text)
      → Loop o lines (suc line) rest (selected ++ (r ∷ [])) t
      → Loop o (suc lines) line (r ∷ rest) selected t
  longer {o} {selected = selected} r (stuck_at front q back e l f b) =
      stuck_at (r ∷ front) q back (ap (λ x. r ∷ x) e) (omega arith)
        (subst (Fit o) (append_assoc selected (r ∷ []) front) f) b
  longer {selected = selected} r (takes front back e c l f s) =
      takes (r ∷ front) back (ap (λ x. r ∷ x) e) (c ∙ append_assoc selected (r ∷ []) front)
        (omega arith) f (further r s)

  pub slice_loop-Loop :
      (o : SliceOptions) (lines line : ℕ) (rest selected : List Text) (bytes : ℕ)
      → bytes ≡ total selected
      → Fit o selected
      → Loop o lines line rest selected (slice_loop byte_length o lines line rest selected bytes)
  unfolding slice_loop
  slice_loop-Loop o zero line rest selected bytes e f =
      takes [] rest refl (sym (append-nil selected)) (omega arith) f (at_end (inl refl))
  slice_loop-Loop o (suc lines) line [] selected bytes e f =
      takes [] [] refl (sym (append-nil selected)) (omega arith) f (at_end (inr refl))
  slice_loop-Loop o (suc lines) line (r ∷ rest) selected bytes e f =
      elim (Bool-cases (ltb o.max_bytes (byte_length r))) [
        | inl h ↦
            rw h (stuck_at [] r rest refl (omega arith) (rw (append-nil selected) f) (ground arith))
        | inr h ↦
            elim (Bool-cases
              (leb o.max_lines (length selected) || ltb o.max_bytes (bytes + byte_length r))) [
                | inl g ↦
                    rw (h, g)
                      (takes [] (r ∷ rest) refl (sym (append-nil selected)) (omega arith) f (
                        full r rest refl (omega arith) (omega arith) (ground arith)
                          (rw (← e) (at_limit o (length selected) bytes r g))))
                | inr g ↦
                    rw (h, g)
                      (let (i, b) = one_more o selected r bytes e g in
                        longer r (
                          slice_loop-Loop o lines (suc line) rest (selected ++ (r ∷ []))
                            (bytes + byte_length r) b i))
              ]
      ]
