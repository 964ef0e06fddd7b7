-- ===== src/FileTools/Edit/Sorting.antt =====
-- The order of the matches: src/file-tools/edit/command.ts.
use o_pi.Common.{
  suc, ◌≤◌, ◌<◌, false, List, [], ◌∷◌, ◌++◌, length, some, ltb, leb, ◌≡◌, refl, sym, ap, ◌∙◌, arith,
  All, Bool-cases, some_inj, subst, inl, inr,
}
use mathlib.Core.List.{Permᴰ}
use o_pi.FileTools.Edit.{Match, EditError, overlapping_replacements, insert, sort, overlap}

-- Each match begins where the one before it begins, or later.
abbrev pub IsSorted : List Match → Type 0
IsSorted [] = Unit
IsSorted (m ∷ []) = Unit
IsSorted (m ∷ n ∷ ms) = (m.start ≤ n.start) × IsSorted (n ∷ ms)

same : (ms : List Match) → Permᴰ ms ms
same [] = Permᴰ.nil
same (m ∷ ms) = Permᴰ.cons refl (same ms)

insert-Perm : (m : Match) (ms : List Match) → Permᴰ (insert m ms) (m ∷ ms)
unfolding insert
insert-Perm m [] = same (m ∷ [])
insert-Perm m (n ∷ ms) = elim (Bool-cases (leb m.start n.start)) [
  | inl e ↦ rw e (same (m ∷ n ∷ ms))
  | inr e ↦ rw e (Permᴰ.trans (Permᴰ.cons refl (insert-Perm m ms)) (Permᴰ.swap refl refl))
]

pub sort-Perm : (ms : List Match) → Permᴰ (sort ms) ms
unfolding sort
sort-Perm [] = Permᴰ.nil
sort-Perm (m ∷ ms) = Permᴰ.trans (insert-Perm m (sort ms)) (Permᴰ.cons refl (sort-Perm ms))

insert_behind :
    (m k : Match) (ms : List Match)
    → leb m.start k.start ≡ false
    → insert m (k ∷ ms) ≡ k ∷ insert m ms
unfolding insert
insert_behind m k ms f = rw f refl

insert-IsSorted : (m : Match) (ms : List Match) → IsSorted ms → IsSorted (insert m ms)
unfolding insert
insert-IsSorted m [] s = tt
insert-IsSorted m (n ∷ []) s = elim (Bool-cases (leb m.start n.start)) [
  | inl e ↦ rw e (ground arith, tt)
  | inr e ↦ rw e (ground arith, tt)
]
insert-IsSorted m (n ∷ k ∷ ms) (h, s) = elim (Bool-cases (leb m.start n.start)) [
  | inl e ↦ rw e (ground arith, (h, s))
  | inr e ↦ elim (Bool-cases (leb m.start k.start)) [
    | inl f ↦ rw (e, f) (ground arith, (ground arith, s))
    | inr f ↦
        let rest = insert-IsSorted m (k ∷ ms) s in
        rw (e, f) (h, subst IsSorted (insert_behind m k ms f) rest)
  ]
]

pub sort-IsSorted : (ms : List Match) → IsSorted (sort ms)
unfolding sort
sort-IsSorted [] = tt
sort-IsSorted (m ∷ ms) = insert-IsSorted m (sort ms) (sort-IsSorted ms)

pub All-Perm : (P : Match → Type 0) {ms ns : List Match} → Permᴰ ms ns → All P ns → All P ms
All-Perm P Permᴰ.nil a = tt
All-Perm P (Permᴰ.cons e d) (a, all) = (subst P (sym e) a, All-Perm P d all)
All-Perm P (Permᴰ.swap e f) (a, (b, all)) = (subst P (sym e) b, (subst P (sym f) a, all))
All-Perm P (Permᴰ.trans d d') a = All-Perm P d (All-Perm P d' a)

pub length-Perm : {ms ns : List Match} → Permᴰ ms ns → length ms ≡ length ns
length-Perm Permᴰ.nil = refl
length-Perm (Permᴰ.cons e d) = ap suc (length-Perm d)
length-Perm (Permᴰ.swap e f) = refl
length-Perm (Permᴰ.trans d d') = length-Perm d ∙ length-Perm d'

-- Two neighbours of which the second begins before the end of the first.
pub record Collision (ms : List Match) (e : EditError) : Type 0 where
  pub front : List Match
  pub first : Match
  pub second : Match
  pub back : List Match
  pub split : ms ≡ front ++ first ∷ second ∷ back
  pub order : first.start ≤ second.start
  pub collide : second.start < first.end
  pub reported : e ≡ overlapping_replacements second.index first.index

pub overlap-Collision :
    (ms : List Match) (e : EditError) → IsSorted ms → overlap ms ≡ some e → Collision ms e
unfolding overlap
overlap-Collision [] e s h = absurd cc
overlap-Collision (m ∷ []) e s h = absurd cc
overlap-Collision (m ∷ n ∷ ms) e (o, s) h = elim (Bool-cases (ltb n.start m.end)) [
  | inl f ↦ record {
    front = [];
    first = m;
    second = n;
    back = ms;
    split = refl;
    order = o;
    collide = ground arith;
    reported = sym (some_inj _ e (ground arith));
  }
  | inr f ↦
      let w = overlap-Collision (n ∷ ms) e s (ground arith) in
      record {
        front = m ∷ w.front;
        first = w.first;
        second = w.second;
        back = w.back;
        split = ap (λ l. m ∷ l) w.split;
        order = w.order;
        collide = w.collide;
        reported = w.reported;
      }
]
