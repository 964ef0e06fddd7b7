-- ===== src/Lsp/Documents/Eviction.antt =====
-- Which document is closed to make room: src/lsp/documents.ts.
use o_pi.Common.{
  ℕ, ◌≤◌, ◌<◌, Text, true, false, List, [], ◌∷◌, In, map, Option, none, some, Bool-cases, ltb, ◌≡◌,
  ◌⊎◌, refl, sym, ap, ◌∙◌, arith, inl, inr,
}
use o_pi.Common.OrderedMap.{OrderedMap}
use o_pi.Lsp.Documents.{
  DocumentState, Documents, is_excluded, better, candidate_of, uri_of, eviction_candidate,
}

module _ {Symbols : Type 0} where
  abbrev pub values : OrderedMap (DocumentState Symbols) → List (DocumentState Symbols)
  values states = map (λ e. e.1) states

  -- No state that may be closed was used before it.
  abbrev IsLeast :
      Text → OrderedMap ℕ → OrderedMap (DocumentState Symbols) → DocumentState Symbols → Type 0
  IsLeast exclude queues states s =
      (t : DocumentState Symbols)
      → In t (values states)
      → is_excluded exclude queues t ≡ false
      → s.last_used ≤ t.last_used

  pub data Evicted (exclude : Text) (queues : OrderedMap ℕ)
      (states : OrderedMap (DocumentState Symbols)) : Option Text → Type 0 where
    none_free :
        ((t : DocumentState Symbols) → In t (values states) → is_excluded exclude queues t ≡ true)
        → Evicted exclude queues states none
    oldest :
        {uri : Text} (s : DocumentState Symbols)
        → s.context.uri ≡ uri
        → In s (values states)
        → is_excluded exclude queues s ≡ false
        → IsLeast exclude queues states s
        → Evicted exclude queues states (some uri)

  module _ (exclude : Text) (queues : OrderedMap ℕ) where
    -- What the loop comes to from a candidate on.
    record Best (c : DocumentState Symbols) (states : OrderedMap (DocumentState Symbols))
        : Type 0 where
      found : DocumentState Symbols
      result : candidate_of exclude queues (some c) states ≡ some found
      origin : (found ≡ c) ⊎ (In found (values states) × (is_excluded exclude queues found ≡ false))
      below : found.last_used ≤ c.last_used
      least : IsLeast exclude queues states found

    better-cases :
        (c s : DocumentState Symbols)
        → ((better (some c) s ≡ s) × (s.last_used < c.last_used))
          ⊎ ((better (some c) s ≡ c) × (c.last_used ≤ s.last_used))
    better-cases c s = elim (Bool-cases (ltb s.last_used c.last_used)) [
      | inl e ↦ inl (rw e refl, ground arith)
      | inr e ↦ inr (rw e refl, ground arith)
    ]

    skipped :
        (uri : Text) (c s : DocumentState Symbols) (states : OrderedMap (DocumentState Symbols))
        → is_excluded exclude queues s ≡ true
        → Best c states
        → Best c ((uri, s) ∷ states)
    unfolding candidate_of
    skipped uri c s states e b = record {
      found = b.found;
      result = rw e b.result;
      origin = elim b.origin [ inl h ↦ inl h | inr (m, f) ↦ inr (inr m, f) ];
      below = b.below;
      least = λ t m f. elim m [
        | inl h ↦ absurd (let g = ap (is_excluded exclude queues) h in cc)
        | inr n ↦ b.least t n f
      ];
    }

    taken_on :
        (uri : Text) (c s : DocumentState Symbols) (states : OrderedMap (DocumentState Symbols))
        → is_excluded exclude queues s ≡ false
        → Best (better (some c) s) states
        → Best c ((uri, s) ∷ states)
    unfolding candidate_of
    taken_on uri c s states e b =
        let both : (b.found.last_used ≤ s.last_used) × (b.found.last_used ≤ c.last_used) =
          elim (better-cases c s) [
            | inl (h, l) ↦
                let w = b.below in let g = ap (λ x. x.last_used) h in (omega arith, omega arith)
            | inr (h, l) ↦
                let w = b.below in let g = ap (λ x. x.last_used) h in (omega arith, omega arith)
          ] in
        record {
          found = b.found;
          result = rw e b.result;
          origin = elim b.origin [
            | inr (m, f) ↦ inr (inr m, f)
            | inl h ↦ elim (better-cases c s) [
              | inl (g, l) ↦
                  let same = h ∙ g in inr (inl (sym same), ap (is_excluded exclude queues) same ∙ e)
              | inr (g, l) ↦ inl (h ∙ g)
            ]
          ];
          below = both.1;
          least = λ t m f. elim m [
            | inl h ↦ let g = ap (λ x. x.last_used) h in omega (arith, both.0)
            | inr n ↦ b.least t n f
          ];
        }

    candidate-Best :
        (c : DocumentState Symbols) (states : OrderedMap (DocumentState Symbols)) → Best c states
    unfolding candidate_of
    candidate-Best c [] = record {
      found = c;
      result = refl;
      origin = inl refl;
      below = omega arith;
      least = λ t m f. absurd m;
    }
    candidate-Best c ((uri, s) ∷ states) = elim (Bool-cases (is_excluded exclude queues s)) [
      | inl e ↦ skipped uri c s states e (candidate-Best c states)
      | inr e ↦ taken_on uri c s states e (candidate-Best (better (some c) s) states)
    ]

    started :
        (uri : Text) (s : DocumentState Symbols) (states : OrderedMap (DocumentState Symbols))
        → is_excluded exclude queues s ≡ false
        → Evicted exclude queues
            ((uri, s) ∷ states)
            (uri_of (candidate_of exclude queues (some s) states))
    started uri s states e =
        let b = candidate-Best s states in
        rw b.result (
          oldest b.found refl (elim b.origin [ inl h ↦ inl (sym h) | inr (m, f) ↦ inr m ])
            (elim b.origin [ inl h ↦ ap (is_excluded exclude queues) h ∙ e | inr (m, f) ↦ f ])
            (λ t m f. elim m [
              | inl h ↦ let g = ap (λ x. x.last_used) h in omega (arith, b.below)
              | inr n ↦ b.least t n f
            ]))

    further :
        (uri : Text) (s : DocumentState Symbols) (states : OrderedMap (DocumentState Symbols))
        (r : Option Text)
        → is_excluded exclude queues s ≡ true
        → Evicted exclude queues states r
        → Evicted exclude queues ((uri, s) ∷ states) r
    further uri s states r e (none_free h) =
        none_free
          (λ t m. elim m [ inl g ↦ ap (is_excluded exclude queues) (sym g) ∙ e | inr n ↦ h t n ])
    further uri s states r e (oldest q n m f l) = oldest q n (inr m) f (λ t k g. elim k [
      | inl h ↦ absurd (let o = ap (is_excluded exclude queues) h in cc)
      | inr i ↦ l t i g
    ])

    candidate-Evicted :
        (states : OrderedMap (DocumentState Symbols))
        → Evicted exclude queues states (uri_of (candidate_of exclude queues none states))
    unfolding candidate_of
    candidate-Evicted [] = none_free (λ t m. absurd m)
    candidate-Evicted ((uri, s) ∷ states) = elim (Bool-cases (is_excluded exclude queues s)) [
      | inl e ↦ rw e (further uri s states _ e (candidate-Evicted states))
      | inr e ↦ rw e (started uri s states e)
    ]

  -- The document that is closed to make room is one that may be closed, and of these none was used
  -- before it; there is none exactly if no document may be closed.
  pub eviction_candidate-Evicted :
      (exclude : Text) (d : Documents Symbols)
      → Evicted exclude d.queues d.states (eviction_candidate exclude d)
  unfolding eviction_candidate
  eviction_candidate-Evicted exclude d = candidate-Evicted exclude d.queues d.states
