-- ===== src/Lsp/Documents/Runs.antt =====
-- What happens to documents: src/lsp/documents.ts.
use o_pi.Common.{
  ℕ, Text, Bool, true, false, List, [], ◌∷◌, Option, none, some, Bool-cases, if◌then◌else◌, ◌==◌,
  ◌≡◌, refl, sym, subst, ◌∙◌, arith, inl, inr,
}
use o_pi.Common.OrderedMap.{get}
use o_pi.Lsp.Documents.{
  Context, CachedSymbols, DocumentState, Documents, new_documents, enqueue, leave_queue,
  set_pending_version, clear_pending_version, commit, cached_in, cached_under, made_persistent,
  closed, touched_if, mark_persistent, mark_closed, touch, cached_symbols, cache_symbols, remove,
  clear,
}
use o_pi.Lsp.Documents.Current.{
  Entry, IsValid, remove-IsValid, commit-IsValid, on_state-IsValid, touch-IsValid,
  touched_if-IsValid, cache_in-IsValid,
}

-- What happens to the documents; the end of a queued operation is an event of its own.
pub data Event (Symbols : Type 0) : Type 0 where
  enqueues : Text → ℕ → Event Symbols
  leaves_queue : Text → ℕ → Event Symbols
  sets_pending : Text → ℕ → Event Symbols
  clears_pending : Text → ℕ → Event Symbols
  commits : Context → ℕ → Bool → Bool → Event Symbols
  marks_persistent : Text → Event Symbols
  marks_closed : Text → Event Symbols
  touches : Text → Event Symbols
  looks_up : Text → ℕ → Event Symbols
  caches : Text → ℕ → Symbols → Event Symbols
  removes : Text → Event Symbols
  clears : Event Symbols

module _ {Symbols : Type 0} where
  unfoldable pub step : Event Symbols → Documents Symbols → Documents Symbols
  unfolding enqueue leave_queue set_pending_version clear_pending_version commit mark_persistent
      mark_closed touch cached_symbols cache_symbols remove
  step (enqueues uri tail) d = enqueue uri tail d
  step (leaves_queue uri tail) d = leave_queue uri tail d
  step (sets_pending uri version) d = set_pending_version uri version d
  step (clears_pending uri version) d = clear_pending_version uri version d
  step (commits c version is_open persistent) d = commit c version is_open persistent d
  step (marks_persistent uri) d = mark_persistent uri d
  step (marks_closed uri) d = mark_closed uri d
  step (touches uri) d = touch uri d
  step (looks_up uri version) d = (cached_symbols uri version d).1
  step (caches uri version v) d = cache_symbols uri version v d
  step (removes uri) d = remove uri d
  step clears d = clear d

  unfoldable pub run : List (Event Symbols) → Documents Symbols → Documents Symbols
  unfolding step
  run [] d = d
  run (e ∷ es) d = run es (step e d)

  same_states :
      (d : Documents Symbols) (e : Documents Symbols)
      → d.states ≡ e.states
      → d.clock ≡ e.clock
      → IsValid d
      → IsValid e
  same_states d e s c v = record {
    entries = λ j q h. subst (λ k. Entry k j q) c (v.entries j q (rw s h));
    apart = λ i j q t h k. v.apart i j q t (rw s h) (rw s k);
  }

  either-IsValid :
      (b : Bool) (e d : Documents Symbols)
      → d.states ≡ e.states
      → d.clock ≡ e.clock
      → IsValid d
      → IsValid (if b then e else d)
  either-IsValid true e d s c v = same_states d e s c v
  either-IsValid false e d s c v = v

  step-IsValid : (e : Event Symbols) (d : Documents Symbols) → IsValid d → IsValid (step e d)
  unfolding step enqueue leave_queue clear_pending_version set_pending_version mark_persistent
      mark_closed cached_symbols cache_symbols
  step-IsValid (enqueues uri tail) d v = same_states d _ refl refl v
  step-IsValid (leaves_queue uri tail) d v = either-IsValid _ _ d refl refl v
  step-IsValid (sets_pending uri version) d v = same_states d _ refl refl v
  step-IsValid (clears_pending uri version) d v = either-IsValid _ _ d refl refl v
  step-IsValid (commits c version is_open persistent) d v =
      commit-IsValid c version is_open persistent d v
  step-IsValid (marks_persistent uri) d v =
      on_state-IsValid uri made_persistent (get uri d.states) d refl
        (λ now s. (refl, refl, refl, refl)) v
  step-IsValid (marks_closed uri) d v =
      on_state-IsValid uri closed (get uri d.states) d refl (λ now s. (refl, refl, refl, refl)) v
  step-IsValid (touches uri) d v = touch-IsValid uri d v
  step-IsValid (looks_up uri version) d v = touched_if-IsValid uri _ d v
  step-IsValid (caches uri version x) d v =
      cache_in-IsValid uri version x (get uri d.states) d refl v
  step-IsValid (removes uri) d v = remove-IsValid uri d v
  step-IsValid clears d v = record {
    entries = λ j q h. absurd cc;
    apart = λ i j q t h k. absurd cc;
  }

  pub runs_stay :
      (es : List (Event Symbols)) (d : Documents Symbols) → IsValid d → IsValid (run es d)
  unfolding run
  runs_stay [] d v = v
  runs_stay (e ∷ es) d v = runs_stay es (step e d) (step-IsValid e d v)

  new_documents-IsValid : IsValid {Symbols = Symbols} new_documents
  unfolding get
  new_documents-IsValid = record { entries = λ j q h. absurd cc; apart = λ i j q t h k. absurd cc }

  -- The version of the state of a document.
  pub record HasVersion (d : Documents Symbols) (uri : Text) (version : ℕ) : Type 0 where
    pub state : DocumentState Symbols
    pub there : get uri d.states ≡ some state
    pub same : state.version ≡ version

  touched_if-first :
      (uri : Text) (o : Option Symbols) (d : Documents Symbols) → (touched_if uri o d).0 ≡ o
  touched_if-first uri none d = refl
  touched_if-first uri (some x) d = refl

  cached_version :
      (version : ℕ) (o : Option (CachedSymbols Symbols)) (x : Symbols)
      → cached_under version o ≡ some x
      → (c : CachedSymbols Symbols) × (o ≡ some c) × (c.version ≡ version)
  cached_version version none x h = absurd cc
  cached_version version (some c) x h = elim (Bool-cases (c.version == version)) [
    | inl e ↦ (c, refl, ground arith)
    | inr e ↦ absurd (let g : none ≡ some x = sym (rw e refl) ∙ h in cc)
  ]

  cached_in-version :
      (d : Documents Symbols) (uri : Text) (version : ℕ) (o : Option (DocumentState Symbols))
      (x : Symbols)
      → IsValid d
      → get uri d.states ≡ o
      → cached_in version o ≡ some x
      → HasVersion d uri version
  cached_in-version d uri version none x v e h = absurd cc
  cached_in-version d uri version (some s) x v e h =
      let (c, f, g) = cached_version version s.cached_symbols x h in
      record { state = s; there = e; same = sym ((v.entries uri s e).current c f) ∙ g }

  found_version :
      (d : Documents Symbols) (uri : Text) (version : ℕ) (x : Symbols)
      → IsValid d
      → (cached_symbols uri version d).0 ≡ some x
      → HasVersion d uri version
  unfolding cached_symbols
  found_version d uri version x v h =
      cached_in-version d uri version (get uri d.states) x v refl
        (sym (touched_if-first uri (cached_in version (get uri d.states)) d) ∙ h)

  -- Whatever happens to new documents: each state stands under its own URI, no two were used at the same
  -- reading of the clock, symbols are kept for the version of their state only, and a lookup that finds
  -- symbols asks for the version that the document has.
  pub run-Current :
      (es : List (Event Symbols))
      → IsValid (run es new_documents)
        × ((uri : Text) (version : ℕ) (x : Symbols)
            → (cached_symbols uri version (run es new_documents)).0 ≡ some x
            → HasVersion (run es new_documents) uri version)
  run-Current es =
      let v = runs_stay es new_documents new_documents-IsValid in
      (v, λ uri version x h. found_version (run es new_documents) uri version x v h)
