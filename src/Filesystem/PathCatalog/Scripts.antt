-- ===== src/Filesystem/PathCatalog/Scripts.antt =====
-- The least cost of an edit script: src/filesystem/services/path-catalog.ts.
use o_pi.Common.{
  ℕ, suc, ◌+◌, ◌≤◌, Text, [], ◌∷◌, ◌++◌, append-nil, ◌∙◌, length, ◌≡◌, ◌⊎◌, inl, inr, refl, sym,
  subst, arith,
}
use o_pi.Filesystem.PathCatalog.{cost, cheapest}

-- A text becomes another one by deletions, insertions and replacements, which cost one each, and by
-- characters that stay.
pub data Script : Text → Text → ℕ → Type 0 where
  done : Script [] [] 0
  delete : {a : ℕ} {s t : Text} {n : ℕ} → Script s t n → Script (a ∷ s) t (suc n)
  insert : {b : ℕ} {s t : Text} {n : ℕ} → Script s t n → Script s (b ∷ t) (suc n)
  replace : {a b : ℕ} {s t : Text} {n : ℕ} → Script s t n → Script (a ∷ s) (b ∷ t) (n + cost a b)

-- The textbook recursion.
unfoldable pub least : Text → Text → ℕ
least [] t = length t
least (a ∷ s) [] = suc (length s)
least (a ∷ s) (b ∷ t) = cheapest (least s (b ∷ t)) (least (a ∷ s) t) (least s t + cost a b)

cheapest-cases :
    (d i s : ℕ) → (cheapest d i s ≡ suc d) ⊎ ((cheapest d i s ≡ suc i) ⊎ (cheapest d i s ≡ s))
cheapest-cases d i s = ground arith

all_inserted : (t : Text) → Script [] t (length t)
all_inserted [] = done
all_inserted (b ∷ t) = insert (all_inserted t)

all_deleted : (s : Text) → Script s [] (length s)
all_deleted [] = done
all_deleted (a ∷ s) = delete (all_deleted s)

pub least-Script : (s t : Text) → Script s t (least s t)
unfolding least
least-Script [] t = all_inserted t
least-Script (a ∷ s) [] = delete (all_deleted s)
least-Script (a ∷ s) (b ∷ t) =
    elim (cheapest-cases (least s (b ∷ t)) (least (a ∷ s) t) (least s t + cost a b)) [
      | inl e ↦ subst (Script (a ∷ s) (b ∷ t)) (sym e) (delete (least-Script s (b ∷ t)))
      | inr (inl e) ↦ subst (Script (a ∷ s) (b ∷ t)) (sym e) (insert (least-Script (a ∷ s) t))
      | inr (inr e) ↦ subst (Script (a ∷ s) (b ∷ t)) (sym e) (replace (least-Script s t))
    ]

least_delete : (a : ℕ) (s t : Text) → least (a ∷ s) t ≤ suc (least s t)
unfolding least
least_delete a [] [] = omega arith
least_delete a (c ∷ s) [] = omega arith
least_delete a s (b ∷ t) = omega arith

least_insert : (b : ℕ) (s t : Text) → least s (b ∷ t) ≤ suc (least s t)
unfolding least
least_insert b [] t = omega arith
least_insert b (a ∷ s) t = omega arith

pub least_le : {s t : Text} {n : ℕ} → Script s t n → least s t ≤ n
unfolding least
least_le done = omega arith
least_le (delete {a} {s} {t} r) = let h = least_le r in omega (arith, least_delete a s t)
least_le (insert {b} {s} {t} r) = let h = least_le r in omega (arith, least_insert b s t)
least_le (replace {a} {b} {s} {t} r) = let h = least_le r in omega arith

-- A text turned round, in front of another one.
unfoldable pub onto : Text → Text → Text
onto [] u = u
onto (a ∷ s) u = onto s (a ∷ u)

pub onto-Script :
    {s t u v : Text} {m n : ℕ} → Script s t n → Script u v m → Script (onto s u) (onto t v) (n + m)
unfolding onto
onto-Script {u = u} {v} done r = subst (Script u v) (omega arith) r
onto-Script {u = u} {v} {m} (delete {a} {s} {t} {n} q) r =
    subst (Script (onto s (a ∷ u)) (onto t v)) {x = n + suc m} {y = suc n + m} (omega arith)
      (onto-Script q (delete r))
onto-Script {u = u} {v} {m} (insert {b} {s} {t} {n} q) r =
    subst (Script (onto s u) (onto t (b ∷ v))) {x = n + suc m} {y = suc n + m} (omega arith)
      (onto-Script q (insert r))
onto-Script {u = u} {v} {m} (replace {a} {b} {s} {t} {n} q) r =
    subst (Script (onto s (a ∷ u)) (onto t (b ∷ v))) {x = n + (m + cost a b)} {y = n + cost a b + m}
      (omega arith) (onto-Script q (replace r))

onto-onto : (s u r : Text) → onto (onto s u) r ≡ onto u (s ++ r)
unfolding onto
onto-onto [] u r = refl
onto-onto (a ∷ s) u r = onto-onto s (a ∷ u) r

-- Turned round twice.
pub onto_twice : (s : Text) → onto (onto s []) [] ≡ s
unfolding onto
onto_twice s = onto-onto s [] [] ∙ append-nil s
