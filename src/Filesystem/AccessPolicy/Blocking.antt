-- ===== src/Filesystem/AccessPolicy/Blocking.antt =====
-- Which identities the access policy blocks: src/filesystem/kernel/access-policy.ts.
use o_pi.Common.{
  Text, includes, includes_iff, Bool, true, false, not, ◌||◌, List, [], ◌∷◌, ◌++◌, Option, some_inj,
  none, some, In, In-of_any, any-of_In, is_empty, ◌≡◌, ◌≢◌, ◌↔◌, ◌⊎◌, inl, inr, refl, sym, ap,
  subst, ◌∙◌, arith, Bool-cases,
}
use o_pi.Filesystem.AccessPolicy.{
  HostPaths, PathIdentity, Phase, CompiledRule, match_candidate, unique_from, candidate_paths,
  identity_matches_rule, first_match, blocked_match, compile_rule, normalize_path, workspace_part,
}
use o_pi.Filesystem.AccessPolicy.Meaning.{Covers, match_candidate_iff}

In-split : (x t : Text) (ts : List Text) → In x (t ∷ ts) → (t ≡ x) ⊎ In x ts
In-split x t ts m = m

unique-In : (x : Text) (seen ts : List Text) → In x (unique_from seen ts) → In x ts
unfolding unique_from
unique-In x seen [] m = m
unique-In x seen (t ∷ ts) m = elim (Bool-cases (includes seen t)) [
  | inl e ↦ inr (unique-In x seen ts (subst (In x) (rw e refl) m))
  | inr e ↦
      elim (In-split x t (unique_from (t ∷ seen) ts)
        (subst (In x) {y = t ∷ unique_from (t ∷ seen) ts} (rw e refl) m)) [
          | inl p ↦ inl p
          | inr p ↦ inr (unique-In x (t ∷ seen) ts p)
        ]
]

In-unique : (x : Text) (seen ts : List Text) → In x ts → In x (seen) ⊎ In x (unique_from seen ts)
unfolding unique_from
In-unique x seen [] m = elim m [ ]
In-unique x seen (t ∷ ts) m = elim (Bool-cases (includes seen t)) [
  | inl e ↦ elim m [
    | inl p ↦ inl (subst (λ y. In y seen) p ((includes_iff seen t).0 e))
    | inr p ↦ rw e (In-unique x seen ts p)
  ]
  | inr e ↦ rw e (elim m [
    | inl p ↦ inr (inl p)
    | inr p ↦ elim (In-unique x (t ∷ seen) ts p) [
      | inl (inl q) ↦ inr (inl q)
      | inl (inr q) ↦ inl q
      | inr q ↦ inr (inr q)
    ]
  ])
]

-- The names of an identity that a rule is compared with: the absolute one for an absolute rule, else
-- the displayed one, the one in the workspace and the absolute one.
pub data NameOf (h : HostPaths) (i : PathIdentity) (absolute : Bool) (x : Text) : Type 0 where
  by_absolute : normalize_path h i.absolute_path ≡ x → NameOf h i absolute x
  by_display : absolute ≡ false → normalize_path h i.display_path ≡ x → NameOf h i absolute x
  by_workspace :
      (w : Text)
      → absolute ≡ false
      → i.workspace_path ≡ some w
      → normalize_path h w ≡ x
      → NameOf h i absolute x

relative_names : HostPaths → PathIdentity → Option Text → List Text
relative_names h i o =
    normalize_path h i.display_path ∷ workspace_part h o ++ normalize_path h i.absolute_path ∷ []

relative-NameOf :
    (h : HostPaths) (i : PathIdentity) (o : Option Text) (x : Text)
    → i.workspace_path ≡ o
    → In x (relative_names h i o)
    → NameOf h i false x
unfolding relative_names workspace_part
relative-NameOf h i o x e (inl p) = by_display refl p
relative-NameOf h i none x e (inr (inl p)) = by_absolute p
relative-NameOf h i none x e (inr (inr p)) = elim p [ ]
relative-NameOf h i (some w) x e (inr (inl p)) = by_workspace w refl e p
relative-NameOf h i (some w) x e (inr (inr (inl p))) = by_absolute p
relative-NameOf h i (some w) x e (inr (inr (inr p))) = elim p [ ]

NameOf-relative :
    (h : HostPaths) (i : PathIdentity) (o : Option Text) (x : Text)
    → i.workspace_path ≡ o
    → NameOf h i false x
    → In x (relative_names h i o)
unfolding relative_names workspace_part
NameOf-relative h i o x e (by_display f p) = inl p
NameOf-relative h i none x e (by_absolute p) = inr (inl p)
NameOf-relative h i (some w) x e (by_absolute p) = inr (inr (inl p))
NameOf-relative h i none x e (by_workspace w f g p) = cc
NameOf-relative h i (some v) x e (by_workspace w f g p) =
    inr (inl (ap (normalize_path h) (some_inj v w (sym e ∙ g)) ∙ p))

candidate_paths_iff :
    (h : HostPaths) (i : PathIdentity) (b : Bool) (x : Text)
    → In x (candidate_paths h i b) ↔ NameOf h i b x
unfolding candidate_paths relative_names
candidate_paths_iff h i true x = (to, from)
  where
    to : In x (candidate_paths h i true) → NameOf h i true x
    to (inl p) = by_absolute p
    to (inr p) = elim p [ ]

    from : NameOf h i true x → In x (candidate_paths h i true)
    from (by_absolute p) = inl p
    from (by_display f p) = cc
    from (by_workspace w f g p) = cc
candidate_paths_iff h i false x = (
  (λ m.
      relative-NameOf h i i.workspace_path x refl
        (unique-In x [] (relative_names h i i.workspace_path) m)),
  λ n.
      elim (In-unique x [] (relative_names h i i.workspace_path)
        (NameOf-relative h i i.workspace_path x refl n)) [ inl m ↦ elim m [ ] | inr m ↦ m ],
)

-- A rule blocks an identity: it is not empty and covers one of its names.
pub record Blocks (h : HostPaths) (i : PathIdentity) (r : CompiledRule) : Type 0 where
  pub name : Text
  pub named : NameOf h i r.absolute name
  pub present : r.path ≢ []
  pub covers : Covers name r.path r.directory

-- A compiled rule matches an identity exactly when it blocks it.
pub identity_matches_rule_iff :
    (h : HostPaths) (i : PathIdentity) (r : CompiledRule)
    → (identity_matches_rule h i r ≡ true) ↔ Blocks h i r
unfolding identity_matches_rule
identity_matches_rule_iff h i r = (
  (λ e.
      let (x, m, f) =
        In-of_any (λ c. match_candidate c r.path r.directory) (candidate_paths h i r.absolute) e in
      let (p, v) = (match_candidate_iff x r.path r.directory).0 f in
      record {
        name = x;
        named = (candidate_paths_iff h i r.absolute x).0 m;
        present = p;
        covers = v;
      }),
  λ b.
      any-of_In (λ c. match_candidate c r.path r.directory) (candidate_paths h i r.absolute) b.name
        ((candidate_paths_iff h i r.absolute b.name).1 b.named)
        ((match_candidate_iff b.name r.path r.directory).1 (b.present, b.covers)),
)

-- The first rule that blocks decides; with none, the access is free.
pub data Verdict (h : HostPaths) (home input : Text) (i : PathIdentity) (ph : Phase)
    (rules : List Text) : Type 0 where
  free :
      blocked_match h home rules input i ph ≡ none
      → ((r : Text) → In r rules → ¬ (Blocks h i (compile_rule h home r)))
      → Verdict h home input i ph rules
  stopped :
      (before after : List Text) (r : Text)
      → rules ≡ before ++ r ∷ after
      → ((q : Text) → In q before → ¬ (Blocks h i (compile_rule h home q)))
      → Blocks h i (compile_rule h home r)
      → blocked_match h home rules input i ph
        ≡ some (record {
          input_path = input;
          matched_path = i.absolute_path;
          matched_rule = r;
          phase = ph;
        })
      → Verdict h home input i ph rules

empty-true : (t : Text) → is_empty t ≡ true → t ≡ []
empty-true [] h = refl
empty-true (c ∷ t) h = cc

abbrev skips : HostPaths → PathIdentity → CompiledRule → Bool
skips h i r = is_empty r.path || not (identity_matches_rule h i r)

skipped-not_Blocks :
    (h : HostPaths) (i : PathIdentity) (r : CompiledRule) → skips h i r ≡ true → ¬ (Blocks h i r)
skipped-not_Blocks h i r e b =
    let m = (identity_matches_rule_iff h i r).1 b in b.present (empty-true r.path (ground arith))

kept-Blocks :
    (h : HostPaths) (i : PathIdentity) (r : CompiledRule) → skips h i r ≡ false → Blocks h i r
kept-Blocks h i r e = (identity_matches_rule_iff h i r).0 (ground arith)

-- Every answer of the policy, for every list of rules.
pub blocked_match-Verdict :
    (h : HostPaths) (home input : Text) (i : PathIdentity) (ph : Phase) (rules : List Text)
    → Verdict h home input i ph rules
unfolding blocked_match first_match compile_rule
blocked_match-Verdict h home input i ph [] = free refl (λ r m. elim m [ ])
blocked_match-Verdict h home input i ph (r ∷ rs) =
    elim (Bool-cases (skips h i (compile_rule h home r))) [
      | inl e ↦ after e (blocked_match-Verdict h home input i ph rs)
      | inr e ↦
          stopped [] rs r refl (λ q m. elim m [ ]) (kept-Blocks h i (compile_rule h home r) e)
            (rw e refl)
    ]
  where
    after :
        skips h i (compile_rule h home r) ≡ true
        → Verdict h home input i ph rs
        → Verdict h home input i ph (r ∷ rs)
    after e (free f none') = free (rw e f) (λ q m. elim m [
      | inl p ↦
          subst (λ x. ¬ (Blocks h i (compile_rule h home x))) p
            (skipped-not_Blocks h i (compile_rule h home r) e)
      | inr p ↦ none' q p
    ])
    after e (stopped before behind q split none' b f) =
        stopped (r ∷ before) behind q (ap (λ l. r ∷ l) split)
          (λ x m. elim m [
            | inl p ↦
                subst (λ x. ¬ (Blocks h i (compile_rule h home x))) p
                  (skipped-not_Blocks h i (compile_rule h home r) e)
            | inr p ↦ none' x p
          ])
          b (rw e f)
