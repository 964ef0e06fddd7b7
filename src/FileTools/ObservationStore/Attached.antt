-- ===== src/FileTools/ObservationStore/Attached.antt =====
-- Attachments and observations of the store: src/file-tools/runtime/observation-store.ts.
use o_pi.Common.{
  ℕ, zero, suc, ◌+◌, ◌-◌, Text, text_eq, text_eq_iff, Bool, true, false, List, [], ◌∷◌, Option,
  none, some, if◌then◌else◌, leb, ◌≡◌, refl, ap, ◌∙◌, arith, Bool-cases, ◌⊎◌, inl, inr,
}
use o_pi.Common.OrderedMap.{OrderedMap, get, put, delete, get-put, get-delete}
use o_pi.FileTools.ObservationStore.{
  Version, Bridges, Store, new_store, or_zero, attach, take_one, is_attached, detach, key_for,
  remember, remember_at, forget_at, recall, forget, clear, dispose,
}

-- How often a bridge is attached.
unfoldable pub times : Text → List Text → ℕ
times b [] = 0
times b (a ∷ l) = let rest = times b l in if text_eq a b then suc rest else rest

abbrev pub as_count : ℕ → Option ℕ
as_count zero = none
as_count (suc n) = some (suc n)

-- The bridges of a store are those that are attached, each with the number of its attachments; a
-- store that was disposed of has none.
pub record IsCounted (s : Store) : Type 0 where
  pub live : s.is_disposed ≡ false → (b : Text) → get b s.bridges ≡ as_count (times b s.attached)
  pub gone : s.is_disposed ≡ true → s.bridges ≡ []

pub data Event (Ref : Type 0) : Type 0 where
  attaches : Text → Event Ref
  detaches : Text → Event Ref
  remembers : Ref → Version → Event Ref
  forgets : Ref → Event Ref
  clears : Event Ref
  disposes : Event Ref

new_store-IsCounted : IsCounted new_store
unfolding get times
new_store-IsCounted = record { live = λ h b. refl; gone = λ h. refl }

or_zero-as_count : (n : ℕ) → or_zero (as_count n) ≡ n
or_zero-as_count zero = refl
or_zero-as_count (suc n) = refl

attach-IsCounted : (b : Text) (s : Store) → IsCounted s → IsCounted (attach b s)
unfolding attach times
attach-IsCounted b s v = elim (Bool-cases s.is_disposed) [
  | inl e ↦ simp e v
  | inr e ↦ simp e (record {
    live = λ h a.
        get-put b a (or_zero (get b s.bridges) + 1) s.bridges
        ∙ (let f = v.live e b in
            let g = v.live e a in
            let o = or_zero-as_count (times b s.attached) in
            elim (Bool-cases (text_eq b a)) [
              | inl p ↦ rw (p, f, o, (text_eq_iff b a).0 p) (ground arith)
              | inr p ↦ rw p g
            ]);
    gone = λ h. absurd (cc h);
  })
]

attached-positive :
    (b : Text) (l : List Text) → is_attached b l ≡ true → (n : ℕ) × (times b l ≡ suc n)
unfolding is_attached times
attached-positive b [] h = cc
attached-positive b (a ∷ l) h = elim (Bool-cases (text_eq a b)) [
  | inl p ↦ (times b l, rw p refl)
  | inr p ↦ rw p (attached-positive b l (ground arith))
]

times-take_one :
    (b a : Text) (l : List Text)
    → times a (take_one b l) ≡ (if text_eq b a then times a l - 1 else times a l)
unfolding times take_one
times-take_one b a [] = ground arith
times-take_one b a (c ∷ l) =
    ground (arith, times-take_one b a l, text_eq_iff c b, text_eq_iff c a, text_eq_iff b a)

get-lowered :
    (b a : Text) (m : OrderedMap ℕ) (n : ℕ)
    → get a (if leb (suc n) 1 then delete b m else put b (suc n - 1) m)
      ≡ (if text_eq b a then as_count n else get a m)
get-lowered b a m zero = get-delete b a m
get-lowered b a m (suc n) = ground (arith, get-put b a (suc (suc n) - 1) m)

as_count-if :
    (c : Bool) (k n : ℕ) → (if c then as_count n else as_count k) ≡ as_count (if c then n else k)
as_count-if true k n = refl
as_count-if false k n = refl

detach-IsCounted : (b : Text) (s : Store) → IsCounted s → IsCounted (detach b s)
unfolding detach get delete
detach-IsCounted b s v = elim (Bool-cases (is_attached b s.attached)) [
  | inr e ↦ simp e v
  | inl e ↦ simp e (record {
    live = λ h a.
        let (n, m) = attached-positive b s.attached e in
        let f = v.live h b in
        let g = v.live h a in
        let t = times-take_one b a s.attached in
        rw (f, m)
          (get-lowered b a s.bridges n
            ∙ rw (t, g)
                (as_count-if (text_eq b a) (times a s.attached) n
                  ∙ ap as_count (lowered a n (Bool-cases (text_eq b a)) m)));
    gone = λ h. rw (v.gone h) refl;
  })
]
  where
    lowered :
        (a : Text) (n : ℕ)
        → (text_eq b a ≡ true) ⊎ (text_eq b a ≡ false)
        → times b s.attached ≡ suc n
        → (if text_eq b a then n else times a s.attached)
          ≡ (if text_eq b a then times a s.attached - 1 else times a s.attached)
    lowered a n (inl p) m = rw (p, ← (text_eq_iff b a).0 p, m) (omega arith)
    lowered a n (inr p) m = rw p refl

dispose-IsCounted : (s : Store) → IsCounted s → IsCounted (dispose s)
unfolding dispose
dispose-IsCounted s v = elim (Bool-cases s.is_disposed) [
  | inl e ↦ simp e v
  | inr e ↦ simp e (record { live = λ h. cc; gone = λ h. refl })
]

module _ {Ref : Type 0} (e : Bridges Ref) where
  unfoldable pub step : Store → Event Ref → Store
  step s (attaches b) = attach b s
  step s (detaches b) = detach b s
  step s (remembers ref v) = (remember e ref v s).0
  step s (forgets ref) = (forget e ref s).0
  step s clears = clear s
  step s disposes = dispose s

  remember-IsCounted :
      (r : Ref) (x : Version) (s : Store) → IsCounted s → IsCounted (remember e r x s).0
  unfolding remember
  remember-IsCounted r x s v = go (key_for e s r)
    where
      go : (o : Option Text) → IsCounted (remember_at e s x o).0
      go none = v
      go (some k) = record { live = v.live; gone = v.gone }

  forget-IsCounted : (r : Ref) (s : Store) → IsCounted s → IsCounted (forget e r s).0
  unfolding forget
  forget-IsCounted r s v = go (key_for e s r)
    where
      go : (o : Option Text) → IsCounted (forget_at e s o).0
      go none = v
      go (some k) = record { live = v.live; gone = v.gone }

  step-IsCounted : (s : Store) (x : Event Ref) → IsCounted s → IsCounted (step s x)
  unfolding step clear
  step-IsCounted s (attaches b) v = attach-IsCounted b s v
  step-IsCounted s (detaches b) v = detach-IsCounted b s v
  step-IsCounted s (remembers r x) v = remember-IsCounted r x s v
  step-IsCounted s (forgets r) v = forget-IsCounted r s v
  step-IsCounted s clears v = record { live = v.live; gone = v.gone }
  step-IsCounted s disposes v = dispose-IsCounted s v

  unfoldable pub run : Store → List (Event Ref) → Store
  unfolding step
  run s [] = s
  run s (x ∷ xs) = run (step s x) xs

  run_from-IsCounted : (s : Store) (xs : List (Event Ref)) → IsCounted s → IsCounted (run s xs)
  unfolding run
  run_from-IsCounted s [] v = v
  run_from-IsCounted s (x ∷ xs) v = run_from-IsCounted (step s x) xs (step-IsCounted s x v)

  -- Whatever happens to a new store, a bridge is known exactly as often as it is attached and not
  -- taken back, until the store is disposed of, when none is.
  pub run-IsCounted : (xs : List (Event Ref)) → IsCounted (run new_store xs)
  run-IsCounted xs = run_from-IsCounted new_store xs new_store-IsCounted

  -- A version that was remembered is recalled by every reference to the same canonical file, and
  -- other files keep theirs; forgetting it lets no reference to that file recall one.
  pub recall-remember :
      (r q : Ref) (x : Version) (s : Store) (k j : Text)
      → key_for e s r ≡ some k
      → key_for e s q ≡ some j
      → (recall e q (remember e r x s).0 ≡ (if text_eq k j then some x else recall e q s))
        × (recall e q (forget e r s).0 ≡ (if text_eq k j then none else recall e q s))
  unfolding recall remember forget key_for
  recall-remember r q x s k j f g =
      (rw (f, g) (get-put k j x s.observations), rw (f, g) (get-delete k j s.observations))
