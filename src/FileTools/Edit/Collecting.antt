-- ===== src/FileTools/Edit/Collecting.antt =====
-- The matches that are collected for the edits: src/file-tools/edit/command.ts.
use o_pi.Common.{
  ℕ, suc, ◌+◌, ◌<◌, Text, contains, true, false, List, [], ◌∷◌, ◌++◌, length, ltb, ◌≡◌, ◌≢◌, ◌⊎◌,
  inl, inr, refl, ap, subst, arith, All, All-append, Bool-cases,
}
use o_pi.FileTools.Edit.{
  Replacement, Match, EditError, old_text_not_found, old_text_not_unique, Result, ok, failed,
  find_all, matches_at, matches_of, collect,
}
use o_pi.FileTools.Edit.Finding.{
  At, Occurrences, find_all-Occurrences, Occurrences-At, Occurrences-nil,
}
use o_pi.FileTools.Edit.Weaving.{Stands}

abbrev pub NotEmpty : List Replacement → Type 0
NotEmpty rs = All (λ r. 0 < length r.old) rs

-- The matches of the edits from a number on: all the places of each edit, of which there is one, or
-- more if the edit replaces all.
pub data Collected (t : Text) : ℕ → List Replacement → List Match → Type 0 where
  no_edit : {i : ℕ} → Collected t i [] []
  edit :
      {i : ℕ} {r : Replacement} {rs : List Replacement} {ms : List Match}
      → find_all t r.old ≢ []
      → (r.replace_all ≡ true) ⊎ (length (find_all t r.old) ≡ 1)
      → Collected t (suc i) rs ms
      → Collected t i (r ∷ rs) (matches_at i r (find_all t r.old) ++ ms)

-- The edit at a place of the list, and the edits before it, which have their matches.
pub record Refused (t : Text) (i : ℕ) (rs : List Replacement) (Why : Replacement → ℕ → Type 0)
    (e : EditError) : Type 0 where
  pub before : List Replacement
  pub edit : Replacement
  pub after : List Replacement
  pub matches : List Match
  pub split : rs ≡ before ++ edit ∷ after
  pub earlier : Collected t i before matches
  pub why : Why edit (i + length before)

-- An edit is refused since its text is not there, or is there more than once.
pub data Fault (t : Text) (e : EditError) : Replacement → ℕ → Type 0 where
  missing :
      {r : Replacement} {i : ℕ}
      → e ≡ old_text_not_found i
      → contains t r.old ≡ false
      → Fault t e r i
  repeated :
      {r : Replacement} {i : ℕ}
      → e ≡ old_text_not_unique i (length (find_all t r.old))
      → r.replace_all ≡ false
      → 1 < length (find_all t r.old)
      → Fault t e r i

abbrev pub CollectedOr : Text → ℕ → List Replacement → Result EditError (List Match) → Type 0
CollectedOr t i rs (ok ms) = Collected t i rs ms
CollectedOr t i rs (failed e) = Refused t i rs (Fault t e) e

-- What one edit comes to.
abbrev OneEdit : Text → ℕ → Replacement → List ℕ → Result EditError (List Match) → Type 0
OneEdit t i r starts (ok ms) =
    (starts ≢ []) × ((r.replace_all ≡ true) ⊎ (length starts ≡ 1)) × (ms ≡ matches_at i r starts)
OneEdit t i r starts (failed e) =
    ((starts ≡ []) × (e ≡ old_text_not_found i))
    ⊎ ((e ≡ old_text_not_unique i (length starts)) × (r.replace_all ≡ false) × (1 < length starts))

matches_of-OneEdit :
    (t : Text) (i : ℕ) (r : Replacement) (starts : List ℕ)
    → OneEdit t i r starts (matches_of i r starts)
matches_of-OneEdit t i r [] = inl (refl, refl)
matches_of-OneEdit t i r (s ∷ []) = elim (Bool-cases (ltb 1 1)) [
  | inl e ↦ cc
  | inr e ↦ ((λ h. cc), inr refl, refl)
]
matches_of-OneEdit t i r (s ∷ s' ∷ ss) = elim (Bool-cases r.replace_all) [
  | inl e ↦ rw (more, e) ((λ h. cc), inl refl, refl)
  | inr e ↦ rw (more, e) (inr (refl, refl, omega arith))
]
  where
    more : ltb 1 (length (s ∷ s' ∷ ss)) ≡ true
    more = ground arith

missing_or_repeated :
    (t : Text) (i : ℕ) (r : Replacement) (e : EditError)
    → 0 < length r.old
    → ((find_all t r.old ≡ []) × (e ≡ old_text_not_found i))
      ⊎ ((e ≡ old_text_not_unique i (length (find_all t r.old)))
          × (r.replace_all ≡ false)
          × (1 < length (find_all t r.old)))
    → Fault t e r i
missing_or_repeated t i r e pos (inl (none', f)) = missing f (
    Occurrences-nil (subst (λ l. Occurrences r.old 0 t l) none' (find_all-Occurrences t r.old pos)))
missing_or_repeated t i r e pos (inr (f, once, many)) = repeated f once many

later_Refused :
    {t : Text} {i : ℕ} {r : Replacement} {rs : List Replacement} {e : EditError}
    → find_all t r.old ≢ []
    → (r.replace_all ≡ true) ⊎ (length (find_all t r.old) ≡ 1)
    → Refused t (suc i) rs (Fault t e) e
    → Refused t i (r ∷ rs) (Fault t e) e
later_Refused {t} {i} {r} {e = e} some' one w = record {
  before = r ∷ w.before;
  edit = w.edit;
  after = w.after;
  matches = matches_at i r (find_all t r.old) ++ w.matches;
  split = ap (λ l. r ∷ l) w.split;
  earlier = edit some' one w.earlier;
  why = subst (λ k. Fault t e w.edit k) (omega arith) w.why;
}

pub Result-cases :
    {E A : Type 0} (r : Result E A) → ((a : A) × (r ≡ ok a)) ⊎ ((e : E) × (r ≡ failed e))
Result-cases (ok a) = inl (a, refl)
Result-cases (failed e) = inr (e, refl)

pub collect-CollectedOr :
    (t : Text) (i : ℕ) (rs : List Replacement) → NotEmpty rs → CollectedOr t i rs (collect t i rs)
unfolding collect
collect-CollectedOr t i [] p = no_edit
collect-CollectedOr t i (r ∷ rs) (pos, p) =
    let one = matches_of-OneEdit t i r (find_all t r.old) in
    let rest = collect-CollectedOr t (suc i) rs p in
    elim (Result-cases (matches_of i r (find_all t r.old))) [
      | inl (here, e) ↦
          let (s, o, m) = subst (OneEdit t i r (find_all t r.old)) e one in
          elim (Result-cases (collect t (suc i) rs)) [
            | inl (ms, f) ↦ rw (e, f, m) (edit s o (subst (CollectedOr t (suc i) rs) f rest))
            | inr (x, f) ↦ rw (e, f) (later_Refused s o (subst (CollectedOr t (suc i) rs) f rest))
          ]
      | inr (x, e) ↦ rw e (record {
        before = [];
        edit = r;
        after = rs;
        matches = [];
        split = refl;
        earlier = no_edit;
        why =
            subst (λ k. Fault t x r k) (omega arith)
              (missing_or_repeated t i r x pos (subst (OneEdit t i r (find_all t r.old)) e one));
      })
    ]

matches_at-Stands :
    (t : Text) (i : ℕ) (r : Replacement) (starts : List ℕ)
    → All (At t r.old) starts
    → All (Stands t) (matches_at i r starts)
unfolding matches_at
matches_at-Stands t i r [] a = tt
matches_at-Stands t i r (s ∷ ss) (a, rest) =
    (record { place = a; ends = refl }, matches_at-Stands t i r ss rest)

pub Collected-Stands :
    {t : Text} {i : ℕ} {rs : List Replacement} {ms : List Match}
    → Collected t i rs ms
    → NotEmpty rs
    → All (Stands t) ms
Collected-Stands no_edit p = tt
Collected-Stands {t} {i} (edit {r = r} s o c) (pos, p) =
    All-append (Stands t) (matches_at i r (find_all t r.old)) _
      (matches_at-Stands t i r (find_all t r.old)
        (Occurrences-At (find_all-Occurrences t r.old pos) t [] refl refl))
      (Collected-Stands c p)
