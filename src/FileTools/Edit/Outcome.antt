-- ===== src/FileTools/Edit/Outcome.antt =====
-- Every outcome of the replacements: src/file-tools/edit/command.ts.
use o_pi.Common.{Text, List, length, drop, Option-cases, ◌≡◌, inl, inr, refl, subst}
use mathlib.Core.List.{Permᴰ}
use o_pi.FileTools.Edit.{
  Replacement, Match, EditError, Updated, Result, ok, failed, collect, sort, overlap,
  apply_replacements,
}
use o_pi.FileTools.Edit.Weaving.{Rewritten, Stands, overlap-none-Apart, weave-Rewritten}
use o_pi.FileTools.Edit.Sorting.{
  IsSorted, sort-Perm, sort-IsSorted, All-Perm, Collision, overlap-Collision,
}
use o_pi.FileTools.Edit.Collecting.{
  NotEmpty, Collected, Refused, Fault, CollectedOr, collect-CollectedOr, Collected-Stands,
  Result-cases,
}

-- All the matches, in the order of their starts.
pub record Ordered (t : Text) (rs : List Replacement) (ms : List Match) : Type 0 where
  pub found : List Match
  pub collected : Collected t 0 rs found
  pub same : Permᴰ ms found
  pub sorted : IsSorted ms

pub data Outcome (t : Text) (rs : List Replacement) : Result EditError Updated → Type 0 where
  refused : {e : EditError} → Refused t 0 rs (Fault t e) e → Outcome t rs (failed e)
  collides :
      {e : EditError} {ms : List Match} → Ordered t rs ms → Collision ms e → Outcome t rs (failed e)
  updates :
      {u : Updated} {ms : List Match}
      → Ordered t rs ms
      → Rewritten t ms u.text
      → u.replacements ≡ length ms
      → Outcome t rs (ok u)

-- If no old text is empty, the replacements end in one of three ways: an edit is refused since its text is
-- missing or not unique, and the ones before it are not; two matches that follow one another in the order of
-- their starts overlap; or the new text is the old one with exactly the matched places rewritten, and
-- the matches are counted.
pub apply_replacements-Outcome :
    (t : Text) (rs : List Replacement) → NotEmpty rs → Outcome t rs (apply_replacements t rs)
unfolding apply_replacements drop
apply_replacements-Outcome t rs p =
    let c = collect-CollectedOr t 0 rs p in
    elim (Result-cases (collect t 0 rs)) [
      | inr (x, e) ↦ rw e (refused (subst (CollectedOr t 0 rs) e c))
      | inl (ms, e) ↦
          let got = subst (CollectedOr t 0 rs) e c in
          let all : Ordered t rs (sort ms) = record {
            found = ms;
            collected = got;
            same = sort-Perm ms;
            sorted = sort-IsSorted ms;
          } in
          elim (Option-cases (overlap (sort ms))) [
            | inr (x, f) ↦
                rw (e, f) (collides all (overlap-Collision (sort ms) x (sort-IsSorted ms) f))
            | inl f ↦
                rw (e, f)
                  (updates all
                    (weave-Rewritten t 0 (sort ms)
                      (All-Perm (Stands t) (sort-Perm ms) (Collected-Stands got p))
                      (overlap-none-Apart (sort ms) f))
                    refl)
          ]
    ]
