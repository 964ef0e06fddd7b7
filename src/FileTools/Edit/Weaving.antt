-- ===== src/FileTools/Edit/Weaving.antt =====
-- The text that the last loop builds: src/file-tools/edit/command.ts.
use o_pi.Common.{
  ℕ, ◌+◌, ◌-◌, ◌≤◌, Text, drop, slice, length-drop, drop-append, drop-append_le, take-append, List,
  [], ◌∷◌, ◌++◌, append_assoc, length, length-append, none, ltb, ◌≡◌, refl, sym, ap, subst, ◌∙◌,
  arith, All, Bool-cases, inl, inr,
}
use o_pi.FileTools.Edit.{Match, overlap, weave}
use o_pi.FileTools.Edit.Finding.{At}

-- A text in which places of old texts, in their order, hold the new ones, and nothing else differs.
pub data Rewritten : Text → List Match → Text → Type 0 where
  stays : {t u : Text} → u ≡ t → Rewritten t [] u
  swaps :
      {t u : Text} {m : Match} {ms : List Match} (before after out : Text)
      → t ≡ before ++ m.replacement.old ++ after
      → u ≡ before ++ m.replacement.new ++ out
      → Rewritten after ms out
      → Rewritten t (m ∷ ms) u

pub record Stands (t : Text) (m : Match) : Type 0 where
  pub place : At t m.replacement.old m.start
  pub ends : m.end ≡ m.start + length m.replacement.old

-- Each match begins at the end of the one before it or later.
abbrev pub Apart : ℕ → List Match → Type 0
Apart cursor [] = Unit
Apart cursor (m ∷ ms) = (cursor ≤ m.start) × Apart m.end ms

overlap-Apart : (m : Match) (ms : List Match) → overlap (m ∷ ms) ≡ none → Apart m.end ms
unfolding overlap
overlap-Apart m [] h = tt
overlap-Apart m (n ∷ ms) h = elim (Bool-cases (ltb n.start m.end)) [
  | inl e ↦ absurd (ground arith)
  | inr e ↦ (ground arith, overlap-Apart n ms (ground arith))
]

pub overlap-none-Apart : (ms : List Match) → overlap ms ≡ none → Apart 0 ms
overlap-none-Apart [] h = tt
overlap-none-Apart (m ∷ ms) h = (omega arith, overlap-Apart m ms h)

module _ (t old : Text) (start cursor : ℕ) (p : At t old start) (h : cursor ≤ start) where
  drop_place : drop cursor t ≡ drop cursor p.before ++ (old ++ p.after)
  drop_place = rw p.split (
      ap (drop cursor) (append_assoc p.before old p.after)
      ∙ drop-append_le cursor p.before (old ++ p.after) (omega (arith, p.at)))

  slice_place : slice t cursor start ≡ drop cursor p.before
  unfolding slice
  slice_place =
      let l : start - cursor ≡ length (drop cursor p.before) =
        omega (arith, length-drop cursor p.before, p.at) in
      rw (drop_place, l) (take-append (drop cursor p.before) (old ++ p.after))

  end_place : drop (start + length old) t ≡ p.after
  end_place =
      let l : start + length old ≡ length (p.before ++ old) =
        omega (arith, length-append p.before old, p.at) in
      rw l (ap (drop (length (p.before ++ old))) p.split ∙ drop-append (p.before ++ old) p.after)

pub weave-Rewritten :
    (t : Text) (cursor : ℕ) (ms : List Match)
    → All (Stands t) ms
    → Apart cursor ms
    → Rewritten (drop cursor t) ms (weave t cursor ms)
unfolding weave
weave-Rewritten t cursor [] s a = stays refl
weave-Rewritten t cursor (m ∷ ms) (s, ss) (h, a) =
    let old = m.replacement.old in
    swaps (drop cursor s.place.before) s.place.after (weave t m.end ms)
      (drop_place t old m.start cursor s.place h ∙ sym (append_assoc _ old s.place.after))
      (rw (slice_place t old m.start cursor s.place h) refl)
      (subst (λ r. Rewritten r ms (weave t m.end ms))
        (ap (λ k. drop k t) s.ends ∙ end_place t old m.start cursor s.place h)
        (weave-Rewritten t m.end ms ss a))
