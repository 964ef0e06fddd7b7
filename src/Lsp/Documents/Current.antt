-- ===== src/Lsp/Documents/Current.antt =====
-- The symbols that are kept for a document: src/lsp/documents.ts.
use o_pi.Common.{
  ℕ, suc, ◌≤◌, Text, text_eq, text_eq_iff, Bool, ◌&&◌, Option, none, some, some_inj, Bool-cases,
  ◌==◌, ◌≡◌, ◌⊎◌, refl, sym, ap, subst, ◌∙◌, arith, inl, inr,
}
use o_pi.Common.OrderedMap.{get, put, delete, get-put, get-delete}
use o_pi.Lsp.Documents.{
  Context, CachedSymbols, DocumentState, Documents, store, commit, committed, used, with_symbols,
  on_state, relabelled, kept_symbols, touched_if, cache_in, touch, remove,
}

module _ {Symbols : Type 0} where
  -- A state under its own URI, used at a reading of the clock, with the symbols of its version only.
  pub record Entry (clock : ℕ) (uri : Text) (s : DocumentState Symbols) : Type 0 where
    pub named : s.context.uri ≡ uri
    pub used : s.last_used ≤ clock
    pub current : (c : CachedSymbols Symbols) → s.cached_symbols ≡ some c → c.version ≡ s.version

  -- Every state is an entry, and no two states were used at the same reading of the clock.
  pub record IsValid (d : Documents Symbols) : Type 0 where
    pub entries :
        (uri : Text) (s : DocumentState Symbols) → get uri d.states ≡ some s → Entry d.clock uri s
    pub apart :
        (i j : Text) (s t : DocumentState Symbols)
        → get i d.states ≡ some s
        → get j d.states ≡ some t
        → s.last_used ≡ t.last_used
        → i ≡ j

  got :
      (uri j : Text) (x s : DocumentState Symbols) (d : Documents Symbols)
      → get j (put uri x d.states) ≡ some s
      → ((uri ≡ j) × (x ≡ s)) ⊎ (get j d.states ≡ some s)
  got uri j x s d h = elim (Bool-cases (text_eq uri j)) [
    | inl e ↦
        inl ((text_eq_iff uri j).0 e, some_inj x s (sym (get-put uri j x d.states ∙ rw e refl) ∙ h))
    | inr e ↦ inr (sym (get-put uri j x d.states ∙ rw e refl) ∙ h)
  ]

  later :
      {clock : ℕ} {uri : Text} {s : DocumentState Symbols}
      → Entry clock uri s
      → Entry (suc clock) uri s
  later e = let u = e.used in record { named = e.named; used = omega arith; current = e.current }

  -- Putting in a state that is used now.
  module _ (uri : Text) (f : ℕ → DocumentState Symbols) (d : Documents Symbols) (v : IsValid d)
      (e : Entry (suc d.clock) uri (f (suc d.clock)))
      (now : (f (suc d.clock)).last_used ≡ suc d.clock) where
    store-entries :
        (j : Text) (s : DocumentState Symbols)
        → get j (put uri (f (suc d.clock)) d.states) ≡ some s
        → Entry (suc d.clock) j s
    store-entries j s h = elim (got uri j (f (suc d.clock)) s d h) [
      | inl g ↦ subst (λ i. Entry (suc d.clock) i s) g.0 (subst (Entry (suc d.clock) uri) g.1 e)
      | inr g ↦ later (v.entries j s g)
    ]

    store-apart :
        (i j : Text) (s t : DocumentState Symbols)
        → get i (put uri (f (suc d.clock)) d.states) ≡ some s
        → get j (put uri (f (suc d.clock)) d.states) ≡ some t
        → s.last_used ≡ t.last_used
        → i ≡ j
    store-apart i j s t h k same =
        let x = f (suc d.clock) in
        elim (got uri i x s d h) [
          | inl g ↦ elim (got uri j x t d k) [
            | inl l ↦ sym g.0 ∙ l.0
            | inr l ↦
                let u = (v.entries j t l).used in
                let m = ap (λ q. q.last_used) g.1 in absurd (omega (arith, now, m))
          ]
          | inr g ↦ elim (got uri j x t d k) [
            | inl l ↦
                let u = (v.entries i s g).used in
                let m = ap (λ q. q.last_used) l.1 in absurd (omega (arith, now, m))
            | inr l ↦ v.apart i j s t g l same
          ]
        ]

    store-IsValid : IsValid (store uri f d)
    unfolding store
    store-IsValid = record { entries = store-entries; apart = store-apart }

  pub remove-IsValid : (uri : Text) (d : Documents Symbols) → IsValid d → IsValid (remove uri d)
  unfolding remove
  remove-IsValid uri d v = record {
    entries = λ j s h. v.entries j s (kept j s h);
    apart = λ i j s t h k. v.apart i j s t (kept i s h) (kept j t k);
  }
    where
      kept :
          (j : Text) (s : DocumentState Symbols)
          → get j (delete uri d.states) ≡ some s
          → get j d.states ≡ some s
      kept j s h = elim (Bool-cases (text_eq uri j)) [
        | inl e ↦
            absurd (let g : none ≡ some s = sym (get-delete uri j d.states ∙ rw e refl) ∙ h in cc)
        | inr e ↦ sym (get-delete uri j d.states ∙ rw e refl) ∙ h
      ]

  relabelled_version :
      (version : ℕ) (o : Option (CachedSymbols Symbols)) (k : CachedSymbols Symbols)
      → relabelled version o ≡ some k
      → k.version ≡ version
  relabelled_version version none k h = absurd cc
  relabelled_version version (some c) k h =
      sym (ap (λ x. x.version) (some_inj (record { version = version; value = c.value }) k h))

  kept_version :
      (c : Context) (version : ℕ) (o : Option (DocumentState Symbols)) (k : CachedSymbols Symbols)
      → kept_symbols c version o ≡ some k
      → k.version ≡ version
  kept_version c version none k h = absurd cc
  kept_version c version (some s) k h =
      elim (Bool-cases
        (text_eq s.context.text c.text && text_eq s.context.language_id c.language_id)) [
          | inl e ↦ relabelled_version version s.cached_symbols k (sym (rw e refl) ∙ h)
          | inr e ↦ absurd (let g : none ≡ some k = sym (rw e refl) ∙ h in cc)
        ]

  pub commit-IsValid :
      (c : Context) (version : ℕ) (is_open persistent : Bool) (d : Documents Symbols)
      → IsValid d
      → IsValid (commit c version is_open persistent d)
  unfolding commit
  commit-IsValid c version is_open persistent d v =
      store-IsValid c.uri (committed c version is_open persistent (get c.uri d.states)) d v
        (record {
          named = refl;
          used = omega arith;
          current = kept_version c version (get c.uri d.states);
        })
        refl

  -- A state that is used, with its name and its symbols kept.
  pub on_state-IsValid :
      (uri : Text) (f : ℕ → DocumentState Symbols → DocumentState Symbols)
      (o : Option (DocumentState Symbols)) (d : Documents Symbols)
      → get uri d.states ≡ o
      → ((now : ℕ) (s : DocumentState Symbols)
          → ((f now s).context ≡ s.context)
            × ((f now s).last_used ≡ now)
            × ((f now s).version ≡ s.version)
            × ((f now s).cached_symbols ≡ s.cached_symbols))
      → IsValid d
      → IsValid (on_state uri f o d)
  on_state-IsValid uri f none d h keeps v = v
  on_state-IsValid uri f (some s) d h keeps v =
      let e = v.entries uri s h in
      let (c, u, n, k) = keeps (suc d.clock) s in
      store-IsValid uri (λ now. f now s) d v
        (record {
          named = ap (λ x. x.uri) c ∙ e.named;
          used = omega (arith, u);
          current = λ q g. e.current q (sym k ∙ g) ∙ sym n;
        })
        u

  pub touch-IsValid : (uri : Text) (d : Documents Symbols) → IsValid d → IsValid (touch uri d)
  unfolding touch
  touch-IsValid uri d v =
      on_state-IsValid uri used (get uri d.states) d refl (λ now s. (refl, refl, refl, refl)) v

  pub touched_if-IsValid :
      (uri : Text) (o : Option Symbols) (d : Documents Symbols)
      → IsValid d
      → IsValid (touched_if uri o d).1
  touched_if-IsValid uri none d v = v
  touched_if-IsValid uri (some x) d v = touch-IsValid uri d v

  pub cache_in-IsValid :
      (uri : Text) (version : ℕ) (x : Symbols) (o : Option (DocumentState Symbols))
      (d : Documents Symbols)
      → get uri d.states ≡ o
      → IsValid d
      → IsValid (cache_in uri version x o d)
  cache_in-IsValid uri version x none d h v = v
  cache_in-IsValid uri version x (some s) d h v = elim (Bool-cases (s.version == version)) [
    | inr e ↦ rw e v
    | inl e ↦ rw e (
        store-IsValid uri (with_symbols version x s) d v
          (record {
            named = (v.entries uri s h).named;
            used = omega arith;
            current = λ k g.
                sym (ap (λ q. q.version) (some_inj (record { version = version; value = x }) k g))
                ∙ ground arith;
          })
          refl)
  ]
