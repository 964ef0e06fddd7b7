-- ===== src/FileTools/Edit.antt =====
-- Exact replacements in a file: src/file-tools/edit/command.ts. The texts are UTF-16 code units.
pub mod Finding
pub mod Weaving
pub mod Sorting
pub mod Collecting
pub mod Outcome
pub mod Input
pub mod Snapshot
pub mod Committed
mod Tests
use o_pi.Common.{
  ℕ, zero, suc, ◌+◌, max, take, drop, slice, Text, text_eq, starts_with, Bool, true, false, not,
  ◌&&◌, List, [], ◌∷◌, ◌++◌, length, Option, none, some, if◌then◌else◌, ltb, leb,
}

abbrev later : Option ℕ → Option ℕ
later none = none
later (some n) = some (suc n)

-- `text.indexOf(needle)`
unfoldable pub index_of : Text → Text → Option ℕ
unfolding starts_with
index_of [] needle = if starts_with [] needle then some 0 else none
index_of (c ∷ t) needle =
    let rest = index_of t needle in if starts_with (c ∷ t) needle then some 0 else later rest

-- The loop of `findAll`: the cursor, and the text behind it.
unfoldable pub find_loop : ℕ → Text → ℕ → Text → List ℕ
unfolding index_of drop
find_loop zero needle cursor rest = []
find_loop (suc fuel) needle cursor rest =
    if ltb (length rest) (length needle) then [] else elim (index_of rest needle) [
      | none ↦ []
      | some found ↦
          (cursor + found)
          ∷ find_loop fuel needle (cursor + found + max (length needle) 1)
              (drop (found + max (length needle) 1) rest)
    ]

unfoldable pub find_all : Text → Text → List ℕ
unfolding find_loop
find_all t needle = find_loop (suc (length t)) needle 0 t

pub record Replacement : Type 0 where
  pub old : Text
  pub new : Text
  pub replace_all : Bool

pub record Match : Type 0 where
  pub index : ℕ
  pub start : ℕ
  pub end : ℕ
  pub replacement : Replacement

pub data EditError : Type 0 where
  -- The index of the edit, and for the second one the number of its matches.
  old_text_not_found : ℕ → EditError
  old_text_not_unique : ℕ → ℕ → EditError
  -- The indices of the later edit and of the earlier one.
  overlapping_replacements : ℕ → ℕ → EditError

pub record Updated : Type 0 where
  pub text : Text
  pub replacements : ℕ

pub data Result (E A : Type 0) : Type 0 where
  ok : A → Result E A
  failed : E → Result E A

infixl 5 ◌>>=◌
abbrev pub ◌>>=◌ : {E A B : Type 0} → Result E A → (A → Result E B) → Result E B
ok a >>= f = f a
failed e >>= f = failed e

-- The matches of one edit, from their starts.
unfoldable pub matches_at : ℕ → Replacement → List ℕ → List Match
matches_at index r [] = []
matches_at index r (start ∷ starts) =
    record { index = index; start = start; end = start + length r.old; replacement = r }
    ∷ matches_at index r starts

abbrev pub matches_of : ℕ → Replacement → List ℕ → Result EditError (List Match)
matches_of index r [] = failed (old_text_not_found index)
matches_of index r (start ∷ starts) =
    if ltb 1 (length (start ∷ starts)) && not r.replace_all
    then failed (old_text_not_unique index (length (start ∷ starts)))
    else ok (matches_at index r (start ∷ starts))

-- The first loop of `applyReplacements`.
unfoldable pub collect : Text → ℕ → List Replacement → Result EditError (List Match)
unfolding find_all matches_at
collect t index [] = ok []
collect t index (r ∷ rs) = matches_of index r (find_all t r.old) >>= λ here.
    collect t (suc index) rs >>= λ rest. ok (here ++ rest)

-- `matches.sort((left, right) => left.start - right.start)`, which is stable.
unfoldable pub insert : Match → List Match → List Match
insert m [] = m ∷ []
insert m (n ∷ ns) = let rest = insert m ns in if leb m.start n.start then m ∷ n ∷ ns else n ∷ rest

unfoldable pub sort : List Match → List Match
unfolding insert
sort [] = []
sort (m ∷ ms) = insert m (sort ms)

-- The first overlap of neighbours, if there is one.
unfoldable pub overlap : List Match → Option EditError
overlap [] = none
overlap (m ∷ []) = none
overlap (m ∷ n ∷ ms) =
    let rest = overlap (n ∷ ms) in
    if ltb n.start m.end then some (overlapping_replacements n.index m.index) else rest

-- The last loop: the text from the cursor on with the matches replaced.
unfoldable pub weave : Text → ℕ → List Match → Text
unfolding slice drop
weave t cursor [] = drop cursor t
weave t cursor (m ∷ ms) = slice t cursor m.start ++ m.replacement.new ++ weave t m.end ms

abbrev pub or_weave : Text → List Match → Option EditError → Result EditError Updated
or_weave t ms (some e) = failed e
or_weave t ms none = ok (record { text = weave t 0 ms; replacements = length ms })

unfoldable pub apply_replacements : Text → List Replacement → Result EditError Updated
unfolding collect sort overlap weave
apply_replacements t rs = collect t 0 rs >>= λ ms. or_weave t (sort ms) (overlap (sort ms))
