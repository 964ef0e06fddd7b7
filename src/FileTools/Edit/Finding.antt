-- ===== src/FileTools/Edit/Finding.antt =====
-- The occurrences that are found: src/file-tools/edit/command.ts.
use o_pi.Common.{
  ℕ, zero, suc, ◌+◌, ◌<◌, max, Text, drop, drop-append, starts_with, starts_with_iff, contains,
  contains_split, false, List, [], ◌∷◌, ◌++◌, append_assoc, length, length-append, none, some, ltb,
  ◌≡◌, refl, ap, ◌∙◌, arith, Bool-cases, Option-cases, inl, inr, some_inj, All,
}
use o_pi.FileTools.Edit.{index_of, find_loop, find_all}

-- The first place where the needle stands.
record First (t needle : Text) (n : ℕ) : Type 0 where
  before : Text
  after : Text
  split : t ≡ before ++ needle ++ after
  at : length before ≡ n
  earlier : (k : ℕ) → k < n → starts_with (drop k t) needle ≡ false

nothing :
    (t needle : Text) (n : ℕ) → 0 ≡ n → (k : ℕ) → k < n → starts_with (drop k t) needle ≡ false
nothing t needle n e k h = absurd (omega arith)

before_next :
    (c : ℕ) (t needle : Text) (n m : ℕ)
    → suc n ≡ m
    → starts_with (c ∷ t) needle ≡ false
    → ((k : ℕ) → k < n → starts_with (drop k t) needle ≡ false)
    → (k : ℕ) → k < m
    → starts_with (drop k (c ∷ t)) needle ≡ false
unfolding drop
before_next c t needle n m e f g zero h = f
before_next c t needle n m e f g (suc k) h = g k (omega arith)

index_of-First : (t needle : Text) (n : ℕ) → index_of t needle ≡ some n → First t needle n
unfolding index_of
index_of-First [] needle n h = elim (Bool-cases (starts_with [] needle)) [
  | inl e ↦
      let (r, f) = starts_with_iff [] needle e in
      record {
        before = [];
        after = r;
        split = f;
        at = some_inj 0 n (ground arith);
        earlier = nothing _ _ _ (some_inj 0 n (ground arith));
      }
  | inr e ↦ absurd (ground arith)
]
index_of-First (c ∷ t) needle n h = elim (Bool-cases (starts_with (c ∷ t) needle)) [
  | inl e ↦
      let (r, f) = starts_with_iff (c ∷ t) needle e in
      record {
        before = [];
        after = r;
        split = f;
        at = some_inj 0 n (ground arith);
        earlier = nothing _ _ _ (some_inj 0 n (ground arith));
      }
  | inr e ↦ elim (Option-cases (index_of t needle)) [
    | inl none' ↦ absurd (ground arith)
    | inr (k, f) ↦
        let w = index_of-First t needle k f in
        record {
          before = c ∷ w.before;
          after = w.after;
          split = ap (λ l. c ∷ l) w.split;
          at = let i = some_inj (suc k) n (ground arith) in omega (arith, w.at);
          earlier = before_next c t needle k n (some_inj (suc k) n (ground arith)) e w.earlier;
        }
  ]
]

index_of-none : (t needle : Text) → index_of t needle ≡ none → contains t needle ≡ false
unfolding index_of contains starts_with
index_of-none [] [] h = cc
index_of-none [] (d ∷ needle) h = refl
index_of-none (c ∷ t) needle h = ground (arith, index_of-none t needle)

-- The occurrences of a needle from a cursor on: each is the first one behind the one before it, and
-- behind the last one there is none.
pub data Occurrences (needle : Text) : ℕ → Text → List ℕ → Type 0 where
  none_left :
      {cursor : ℕ} {rest : Text} → contains rest needle ≡ false → Occurrences needle cursor rest []
  next :
      {cursor start : ℕ} {rest : Text} {starts : List ℕ} (before after : Text)
      → rest ≡ before ++ needle ++ after
      → ((k : ℕ) → k < length before → starts_with (drop k rest) needle ≡ false)
      → start ≡ cursor + length before
      → Occurrences needle (start + length needle) after starts
      → Occurrences needle cursor rest (start ∷ starts)

too_short : (t needle : Text) → length t < length needle → contains t needle ≡ false
too_short t needle h = elim (Bool-cases (contains t needle)) [
  | inl e ↦
      let (p, r, f) = contains_split t needle e in
      absurd (omega (arith, ap length f, length-append (p ++ needle) r, length-append p needle))
  | inr e ↦ e
]

behind :
    (before needle after rest : Text) (n : ℕ)
    → rest ≡ before ++ needle ++ after
    → length before ≡ n
    → 0 < length needle
    → drop (n + max (length needle) 1) rest ≡ after
behind before needle after rest n e l pos =
    let m : max (length needle) 1 ≡ length needle = omega arith in
    let whole : length (before ++ needle) ≡ n + max (length needle) 1 =
      omega (arith, length-append before needle, l) in
    rw (e, ← whole) (drop-append (before ++ needle) after)

shorter :
    {fuel : ℕ} (before needle after rest : Text)
    → rest ≡ before ++ needle ++ after
    → 0 < length needle
    → length rest < suc fuel
    → length after < fuel
shorter before needle after rest e pos h =
    omega (arith, ap length e, length-append (before ++ needle) after, length-append before needle)

find_loop-Occurrences :
    (fuel : ℕ) (needle : Text) (cursor : ℕ) (rest : Text)
    → 0 < length needle
    → length rest < fuel
    → Occurrences needle cursor rest (find_loop fuel needle cursor rest)
unfolding find_loop
find_loop-Occurrences zero needle cursor rest pos h = absurd (omega arith)
find_loop-Occurrences (suc fuel) needle cursor rest pos h =
    elim (Bool-cases (ltb (length rest) (length needle))) [
      | inl e ↦ rw e (none_left (too_short rest needle (ground arith)))
      | inr e ↦ elim (Option-cases (index_of rest needle)) [
        | inl f ↦ rw (e, f) (none_left (index_of-none rest needle f))
        | inr (n, f) ↦
            rw (e, f)
              (let w = index_of-First rest needle n f in
                let b = behind w.before needle w.after rest n w.split w.at pos in
                let one : max (length needle) 1 ≡ length needle = omega arith in
                next w.before w.after w.split (λ k i. w.earlier k (omega (arith, w.at)))
                  (omega (arith, w.at))
                  (rw (b, one)
                    (find_loop-Occurrences fuel needle (cursor + n + length needle) w.after pos
                      (shorter w.before needle w.after rest w.split pos h))))
      ]
    ]

-- The loop needs no more rounds than the text has characters: with a needle that is not empty, what is
-- found is all the occurrences, none is overlooked before another, and none is left behind the last.
pub find_all-Occurrences :
    (t needle : Text) → 0 < length needle → Occurrences needle 0 t (find_all t needle)
unfolding find_all
find_all-Occurrences t needle pos =
    find_loop-Occurrences (suc (length t)) needle 0 t pos (omega arith)

-- The needle stands at the place.
pub record At (t needle : Text) (start : ℕ) : Type 0 where
  pub before : Text
  pub after : Text
  pub split : t ≡ before ++ needle ++ after
  pub at : length before ≡ start

-- Every start that is found is a place of the needle in the whole text, of which the rest is an end.
pub Occurrences-At :
    {needle rest : Text} {cursor : ℕ} {starts : List ℕ}
    → Occurrences needle cursor rest starts
    → (t front : Text) → t ≡ front ++ rest
    → length front ≡ cursor
    → All (At t needle) starts
Occurrences-At (none_left h) t front e l = tt
Occurrences-At {needle} {rest} {cursor} (next before after s first a o) t front e l = (
  record {
    before = front ++ before;
    after = after;
    split = e ∙ rw s (simp append_assoc refl);
    at = omega (arith, length-append front before, a, l);
  },
  Occurrences-At o t (front ++ before ++ needle) (e ∙ rw s (simp append_assoc refl))
      (omega (arith, length-append (front ++ before) needle, length-append front before, a, l)),
)

-- Nothing is found exactly where the text does not hold the needle.
pub Occurrences-nil :
    {needle rest : Text} {cursor : ℕ}
    → Occurrences needle cursor rest []
    → contains rest needle ≡ false
Occurrences-nil (none_left h) = h
