-- ===== src/Filesystem/AccessPolicy/Meaning.antt =====
-- What a rule of the access policy blocks: src/filesystem/kernel/access-policy.ts.
use o_pi.Common.{
  Text, text_eq, text_eq_iff, starts_with, starts_with_iff, starts_with-append, ends_with,
  ends_with-append, ends_with_split, contains, contains-append, contains_split, Bool, true, ◌&&◌,
  [], ◌∷◌, ◌++◌, append_assoc, append-nil, ◌≡◌, ◌≢◌, ◌↔◌, ◌⊎◌, inl, inr, refl, sym, subst, ◌∙◌,
  arith, Bool-cases,
}
use o_pi.Filesystem.AccessPolicy.{slash, match_candidate}

-- The rule stands in the candidate between separators or ends, and something follows it only under
-- the rule of a directory.
pub record Covers (candidate rule : Text) (directory : Bool) : Type 0 where
  pub before : Text
  pub after : Text
  pub split : candidate ≡ before ++ rule ++ after
  pub opens : (before ≡ []) ⊎ ((p : Text) × (before ≡ p ++ slash ∷ []))
  pub closes : (after ≡ []) ⊎ ((directory ≡ true) × ((q : Text) × (after ≡ slash ∷ q)))

match-Covers :
    (c rule : Text) (d : Bool) → match_candidate c rule d ≡ true → (rule ≢ []) × Covers c rule d
unfolding match_candidate
match-Covers c [] d h = cc
match-Covers c (a ∷ t) d h = ((λ e. cc), go)
  where
    rule : Text
    rule = a ∷ t

    inside : d ≡ true → contains c (slash ∷ rule ++ slash ∷ []) ≡ true → Covers c rule d
    inside e m =
        let (p, q, f) = contains_split c (slash ∷ rule ++ slash ∷ []) m in
        record {
          before = p ++ slash ∷ [];
          after = slash ∷ q;
          split = f ∙ simp append_assoc refl;
          opens = inr (p, refl);
          closes = inr (e, (q, refl));
        }

    at_end : ends_with c (slash ∷ rule) ≡ true → Covers c rule d
    at_end m =
        let (p, f) = ends_with_split c (slash ∷ rule) m in
        record {
          before = p ++ slash ∷ [];
          after = [];
          split = f ∙ simp (append_assoc, append-nil) refl;
          opens = inr (p, refl);
          closes = inl refl;
        }

    at_start : d ≡ true → starts_with c (rule ++ slash ∷ []) ≡ true → Covers c rule d
    at_start e m =
        let (q, f) = starts_with_iff c (rule ++ slash ∷ []) m in
        record {
          before = [];
          after = slash ∷ q;
          split = f ∙ simp append_assoc refl;
          opens = inl refl;
          closes = inr (e, (q, refl));
        }

    go : Covers c rule d
    go = elim (Bool-cases (text_eq c rule)) [
      | inl e ↦ record {
        before = [];
        after = [];
        split = (text_eq_iff c rule).0 e ∙ sym (append-nil rule);
        opens = inl refl;
        closes = inl refl;
      }
      | inr e ↦ elim (Bool-cases (ends_with c (slash ∷ rule))) [
        | inl f ↦ at_end f
        | inr f ↦ elim (Bool-cases (d && starts_with c (rule ++ slash ∷ []))) [
          | inl g ↦ at_start (ground arith) (ground arith)
          | inr g ↦ inside (ground arith) (ground arith)
        ]
      ]
    ]

-- Each of the four tests lets the rule match.
Covers-match :
    (c rule : Text) (d : Bool) → rule ≢ [] → Covers c rule d → match_candidate c rule d ≡ true
unfolding match_candidate
Covers-match c [] d n v = absurd (n refl)
Covers-match c (a ∷ t) d n v = go v.opens v.closes
  where
    rule : Text
    rule = a ∷ t

    go :
        (v.before ≡ []) ⊎ ((p : Text) × (v.before ≡ p ++ slash ∷ []))
        → (v.after ≡ []) ⊎ ((d ≡ true) × ((q : Text) × (v.after ≡ slash ∷ q)))
        → match_candidate c rule d ≡ true
    go (inl b) (inl e) =
        let f = (text_eq_iff c rule).1 (v.split ∙ rw (b, e) (append-nil rule)) in ground arith
    go (inr (p, b)) (inl e) =
        let f =
          subst (λ l. ends_with l (slash ∷ rule) ≡ true)
            (sym (v.split ∙ rw (b, e) (simp (append_assoc, append-nil) refl)))
            (ends_with-append p (slash ∷ rule)) in
        ground arith
    go (inl b) (inr (e, (q, f))) =
        let g =
          subst (λ l. starts_with l (rule ++ slash ∷ []) ≡ true)
            (sym (v.split ∙ rw (b, f) (simp append_assoc refl)))
            (starts_with-append (rule ++ slash ∷ []) q) in
        ground arith
    go (inr (p, b)) (inr (e, (q, f))) =
        let g =
          subst (λ l. contains l (slash ∷ rule ++ slash ∷ []) ≡ true)
            (sym (v.split ∙ rw (b, f) (simp append_assoc refl)))
            (contains-append p (slash ∷ rule ++ slash ∷ []) q) in
        ground arith

-- A candidate matches exactly when the rule is not empty and covers it.
pub match_candidate_iff :
    (c rule : Text) (d : Bool) → (match_candidate c rule d ≡ true) ↔ ((rule ≢ []) × Covers c rule d)
match_candidate_iff c rule d = (match-Covers c rule d, λ h. Covers-match c rule d h.0 h.1)
