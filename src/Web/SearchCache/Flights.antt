-- ===== src/Web/SearchCache/Flights.antt =====
-- One execution at a time for each key: src/web-tools/search/search-cache.ts, `runSingleflight`.
use o_pi.Common.{
  Bool, false, if◌then◌else◌, ltb, ◌&&◌, ◌==◌, ◌↔◌, ℕ, ◌+◌, ◌<◌, Text, text_eq, text_eq_iff,
  text_eq_refl, true, List, [], ◌∷◌, Option, none, some, sym, subst, ◌∙◌, ==_iff, inl, inr,
  Bool-cases, ◌≡◌, refl, ap, arith,
}
use o_pi.Common.OrderedMap.{OrderedMap, put, delete, get, get-put, get-delete}
use o_pi.Web.SearchCache.{SearchCache, empty, clear, start, run_singleflight, same_flight, settle}

-- What the caller of the cache may do, in any order.
pub data Call : Type 0 where
  runs : Text → Call
  settles : Text → ℕ → Call
  clears : Call

-- The cache, and which executions are open, told from outside: one that a search started under a
-- key is open until its promise settles or the cache is cleared.
pub record Watched : Type 0 where
  pub cache : SearchCache
  pub is_open : Text → ℕ → Bool

abbrev pub unwatched : Watched
unwatched = record { cache = empty; is_open = λ k p. false }

unfoldable mark : Text → ℕ → Bool → (Text → ℕ → Bool) → Text → ℕ → Bool
mark k p b f j q = if text_eq k j && p == q then b else f j q

-- A search that raised the number of executions has started one.
unfoldable observe : Text → Watched → SearchCache × ℕ → Watched
unfolding mark
observe k w (c, p) = record {
  cache = c;
  is_open = if ltb w.cache.executed c.executed then mark k p true w.is_open else w.is_open;
}

unfoldable pub step : Watched → Call → Watched
unfolding observe mark
step w (runs k) = observe k w (run_singleflight k w.cache)
step w (settles k p) = record { cache = settle k p w.cache; is_open = mark k p false w.is_open }
step w clears = record { cache = clear w.cache; is_open = λ k p. false }

unfoldable pub run : Watched → List Call → Watched
run w [] = w
run w (x ∷ xs) = run (step w x) xs

-- The promises in flight were made by executions, a promise is in flight under one key, and those in
-- flight are the open ones.
pub record IsExact (w : Watched) : Type 0 where
  pub made : (k : Text) (p : ℕ) → get k w.cache.in_flight ≡ some p → p < w.cache.executed
  pub single :
      (j k : Text) (p : ℕ)
      → get j w.cache.in_flight ≡ some p
      → get k w.cache.in_flight ≡ some p
      → j ≡ k
  pub exact : (k : Text) (p : ℕ) → (w.is_open k p ≡ true) ↔ (get k w.cache.in_flight ≡ some p)

-- A search under a key with a flight is told from outside to have started nothing.
joins : (k : Text) (w : Watched) (p : ℕ) → observe k w (w.cache, p) ≡ w
unfolding observe
joins k w p =
    ap (λ b. record { cache = w.cache; is_open = if b then mark k p true w.is_open else w.is_open })
      {x = ltb w.cache.executed w.cache.executed} {y = false} (ground arith)

-- Without one it starts an execution, with the next number.
abbrev started : Text → Watched → Watched
started k w = record {
  cache = record w.cache {
    in_flight = put k w.cache.executed w.cache.in_flight;
    executed = w.cache.executed + 1;
  };
  is_open = mark k w.cache.executed true w.is_open;
}

starts : (k : Text) (w : Watched) → observe k w (start k w.cache none) ≡ started k w
unfolding observe start
starts k w =
    ap
      (λ b. record {
        cache = (started k w).cache;
        is_open = if b then (started k w).is_open else w.is_open;
      })
      {x = ltb w.cache.executed (w.cache.executed + 1)} {y = true} (ground arith)

mark-put :
    (k j : Text) (n p : ℕ) (m : OrderedMap ℕ) (f : Text → ℕ → Bool)
    → get k m ≡ none
    → (f j p ≡ true) ↔ (get j m ≡ some p)
    → (mark k n true f j p ≡ true) ↔ (get j (put k n m) ≡ some p)
unfolding mark
mark-put k j n p m f e h = elim (Bool-cases (text_eq k j)) [
  | inr apart ↦ rw (get-put, apart) h
  | inl same ↦
      let free = ap (λ x. get x m) (sym ((text_eq_iff k j).0 same)) ∙ e in
      rw (get-put, same) (now_held n p (f j p) (get j m) free h)
]
  where
    now_held :
        (n p : ℕ) (b : Bool) (o : Option ℕ)
        → o ≡ none
        → (b ≡ true) ↔ (o ≡ some p)
        → ((if n == p then true else b) ≡ true) ↔ (some n ≡ some p)
    now_held n p b o e h = ground arith

runs-IsExact :
    (k : Text) (w : Watched) → IsExact w → IsExact (observe k w (run_singleflight k w.cache))
unfolding run_singleflight start
runs-IsExact k w v = go (get k w.cache.in_flight) refl
  where
    go : (o : Option ℕ) → get k w.cache.in_flight ≡ o → IsExact (observe k w (start k w.cache o))
    go (some p) e = subst IsExact (sym (joins k w p)) v
    go none e = subst IsExact (sym (starts k w)) (record {
      made = λ j p. simp get-put (ground (arith, v.made j p));
      single = λ i j p. simp get-put (
          ground (arith, v.single i j p, v.made i p, v.made j p, text_eq_iff k i, text_eq_iff k j));
      exact = λ j p. mark-put k j w.cache.executed p w.cache.in_flight w.is_open e (v.exact j p);
    })

flight_eq : (o : Option ℕ) (p : ℕ) → same_flight o p ≡ true → o ≡ some p
unfolding same_flight
flight_eq none p h = cc
flight_eq (some q) p h = ground arith

-- What settles is no longer open, whether or not it was in flight under the key.
mark-delete :
    (k j : Text) (p q : ℕ) (m : OrderedMap ℕ) (f : Text → ℕ → Bool)
    → get k m ≡ some p
    → (f j q ≡ true) ↔ (get j m ≡ some q)
    → (mark k p false f j q ≡ true) ↔ (get j (delete k m) ≡ some q)
unfolding mark
mark-delete k j p q m f e h = elim (Bool-cases (text_eq k j)) [
  | inr apart ↦ rw (get-delete, apart) h
  | inl same ↦
      let held = ap (λ x. get x m) (sym ((text_eq_iff k j).0 same)) ∙ e in
      rw (get-delete, same) (held_only j p q (f j q) (get j m) held h)
]
  where
    held_only :
        (j : Text) (p q : ℕ) (b : Bool) (o : Option ℕ)
        → o ≡ some p
        → (b ≡ true) ↔ (o ≡ some q)
        → ((if p == q then false else b) ≡ true) ↔ (none ≡ some q)
    held_only j p q b o e h = ground arith

mark-other :
    (k j : Text) (p q : ℕ) (m : OrderedMap ℕ) (f : Text → ℕ → Bool)
    → same_flight (get k m) p ≡ false
    → (f j q ≡ true) ↔ (get j m ≡ some q)
    → (mark k p false f j q ≡ true) ↔ (get j m ≡ some q)
unfolding mark same_flight
mark-other k j p q m f e h = elim (Bool-cases (text_eq k j)) [
  | inr apart ↦ rw apart h
  | inl same ↦
      let other = ap (λ x. same_flight (get x m) p) (sym ((text_eq_iff k j).0 same)) ∙ e in
      rw same (not_held p q (f j q) (get j m) other h)
]
  where
    not_held :
        (p q : ℕ) (b : Bool) (o : Option ℕ)
        → same_flight o p ≡ false
        → (b ≡ true) ↔ (o ≡ some q)
        → ((if p == q then false else b) ≡ true) ↔ (o ≡ some q)
    not_held p q b none e h = ground arith
    not_held p q b (some r) e h = ground arith

settle-IsExact :
    (k : Text) (p : ℕ) (w : Watched)
    → IsExact w
    → IsExact (record { cache = settle k p w.cache; is_open = mark k p false w.is_open })
unfolding settle
settle-IsExact k p w v = elim (Bool-cases (same_flight (get k w.cache.in_flight) p)) [
  | inr other ↦ rw other (record {
    made = v.made;
    single = v.single;
    exact = λ j q. mark-other k j p q w.cache.in_flight w.is_open other (v.exact j q);
  })
  | inl same ↦ rw same (record {
    made = λ j q. simp get-delete (ground (arith, v.made j q));
    single = λ i j q. simp get-delete (ground (arith, v.single i j q));
    exact = λ j q.
        mark-delete k j p q w.cache.in_flight w.is_open (flight_eq (get k w.cache.in_flight) p same)
          (v.exact j q);
  })
]

step-IsExact : (w : Watched) (x : Call) → IsExact w → IsExact (step w x)
unfolding step clear get
step-IsExact w (runs k) v = runs-IsExact k w v
step-IsExact w (settles k p) v = settle-IsExact k p w v
step-IsExact w clears v = record {
  made = λ k p e. cc;
  single = λ j k p e f. cc;
  exact = λ k p. ((λ h. cc), λ h. cc);
}

run_from-IsExact : (w : Watched) (xs : List Call) → IsExact w → IsExact (run w xs)
unfolding run
run_from-IsExact w [] v = v
run_from-IsExact w (x ∷ xs) v = run_from-IsExact (step w x) xs (step-IsExact w x v)

-- After any calls from an empty cache, the promises in flight under a key are exactly those of the
-- executions that a search started under it and that have neither settled nor been cleared since,
-- so that a key has at most one of them; and a promise is in flight under one key only.
pub run-IsExact : (xs : List Call) → IsExact (run unwatched xs)
unfolding get
run-IsExact xs =
    run_from-IsExact unwatched xs
      (record { made = λ k p e. cc; single = λ j k p e f. cc; exact = λ k p. ((λ h. cc), λ h. cc) })

-- What settling the promise under the key leaves.
record Landed (k : Text) (c d : SearchCache) : Type 0 where
  gone : get k d.in_flight ≡ none
  same : d.executed ≡ c.executed

settle-Landed :
    (k : Text) (c : SearchCache) (p : ℕ) → get k c.in_flight ≡ some p → Landed k c (settle k p c)
unfolding settle same_flight
settle-Landed k c p e = rw e (
    rw ((==_iff p p).1 refl)
      (record { gone = rw get-delete (rw (text_eq_refl k) refl); same = refl }))

start_fresh :
    (k : Text) (c d : SearchCache) (o : Option ℕ)
    → o ≡ none
    → ((start k d o).0.executed ≡ d.executed + 1) × ((start k d o).1 ≡ d.executed)
unfolding start
start_fresh k c d none e = (refl, refl)
start_fresh k c d (some q) e = cc

-- While a promise is in flight under a key, a second search of the key starts no execution and gets
-- the same promise; once the promise has settled, the next one starts an execution.
pub singleflight :
    (k : Text) (c : SearchCache) (p : ℕ)
    → get k c.in_flight ≡ some p
    → (run_singleflight k c ≡ (c, p))
      × ((run_singleflight k (settle k p c)).0.executed ≡ c.executed + 1)
      × ((run_singleflight k (settle k p c)).1 ≡ c.executed)
unfolding run_singleflight
singleflight k c p e =
    let l = settle-Landed k c p e in
    let (more, made) = start_fresh k c (settle k p c) (get k (settle k p c).in_flight) l.gone in
    (ap (start k c) e, omega (arith, more, l.same), made ∙ l.same)
