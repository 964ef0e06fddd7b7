-- ===== src/Approval/Policy/Meaning.antt =====
-- When a rule applies, stated without the code's order of tests: src/approval/policy.ts,
-- `ruleMatchesRequest`.
use o_pi.Common.{
  Text, Bool, true, false, ◌&&◌, List, [], ◌∷◌, any, any-of_In, In-of_any, In, Option, none, some,
  ◌≡◌, refl, ap, ◌⊎◌, inl, inr, ◌↔◌, sym, ◌∙◌, arith, Bool-cases, Option-cases, if◌then◌else◌,
  includes, includes_iff,
}
use o_pi.Approval.{Effect, Target, Request, Rule, Matchers, path, command}
use o_pi.Approval.Store.{normalize_path, is_path, is_command}
use o_pi.Approval.Policy.{
  effect_eq, has_effect, path_targets, command_targets, filled, is_nil, path_rule_matches,
  command_rule_matches, path_part, command_part, effect_part, rule_matches_request,
}

module _ (m : Matchers) where
  -- A compiled test accepts a text.
  abbrev pub GlobAccepts : Text → Text → Type 0
  GlobAccepts g t = (f : Text → Bool) × (m.glob (normalize_path g) ≡ some f) × (f t ≡ true)

  abbrev pub RegexAccepts : Text → Text → Type 0
  RegexAccepts g t = (f : Text → Bool) × (m.regex g ≡ some f) × (f t ≡ true)

  abbrev pub PathHolds : List Text → Request → Type 0
  PathHolds gs q =
      (g : Text) × (t : Target) × In g gs
      × In t q.targets
      × (t.kind ≡ path)
      × GlobAccepts g (normalize_path t.value)

  abbrev pub CommandHolds : Text → Request → Type 0
  CommandHolds g q = (t : Target) × In t q.targets × (t.kind ≡ command) × RegexAccepts g t.value

  abbrev pub EffectHolds : List Effect → Request → Type 0
  EffectHolds es q = (e : Effect) × In e es × In e q.effects

  -- A matcher that is absent or empty holds.
  abbrev pub IfFilled : {A : Type 0} → Option (List A) → (List A → Type 0) → Type 0
  IfFilled none P = Unit
  IfFilled (some []) P = Unit
  IfFilled (some (x ∷ l)) P = P (x ∷ l)

  -- The rule names the tool, and each of its matchers holds.
  pub record Applies (r : Rule) (q : Request) : Type 0 where
    pub tool : In q.tool r.tools
    pub paths : IfFilled r.path_globs (λ gs. PathHolds gs q)
    pub commands : IfFilled r.command_regex (λ g. CommandHolds g q)
    pub effects : IfFilled r.effects (λ es. EffectHolds es q)

  -- Every glob and the expression of the rule compile.
  pub record Compiles (r : Rule) : Type 0 where
    pub globs :
        (g : Text)
        → In g (filled r.path_globs)
        → (f : Text → Bool) × (m.glob (normalize_path g) ≡ some f)
    pub regex : (f : Text → Bool) × (m.regex (filled r.command_regex) ≡ some f)

  path_targets-any :
      (p : Text → Bool) (ts : List Target)
      → any p (path_targets ts) ≡ true
      → (t : Target) × In t ts × (t.kind ≡ path) × (p (normalize_path t.value) ≡ true)
  unfolding path_targets
  path_targets-any p [] h = cc
  path_targets-any p (t ∷ ts) h = elim (Bool-cases (is_path t.kind && p (normalize_path t.value))) [
    | inl e ↦ (t, inl refl, ground arith, ground arith)
    | inr e ↦ let (u, i, k, q) = path_targets-any p ts (ground arith) in (u, inr i, k, q)
  ]

  path_targets-In :
      (p : Text → Bool) (ts : List Target) (t : Target)
      → In t ts
      → t.kind ≡ path
      → p (normalize_path t.value) ≡ true
      → any p (path_targets ts) ≡ true
  unfolding path_targets
  path_targets-In p [] t i k h = elim i [ ]
  path_targets-In p (u ∷ ts) t (inl e) k h =
      ground
        (arith, ap (λ (x : Target). x.kind) e, ap (λ (x : Target). p (normalize_path x.value)) e)
  path_targets-In p (u ∷ ts) t (inr i) k h = ground (arith, path_targets-In p ts t i k h)

  command_targets-any :
      (p : Text → Bool) (ts : List Target)
      → any p (command_targets ts) ≡ true
      → (t : Target) × In t ts × (t.kind ≡ command) × (p t.value ≡ true)
  unfolding command_targets
  command_targets-any p [] h = cc
  command_targets-any p (t ∷ ts) h = elim (Bool-cases (is_command t.kind && p t.value)) [
    | inl e ↦ (t, inl refl, ground arith, ground arith)
    | inr e ↦ let (u, i, k, q) = command_targets-any p ts (ground arith) in (u, inr i, k, q)
  ]

  command_targets-In :
      (p : Text → Bool) (ts : List Target) (t : Target)
      → In t ts
      → t.kind ≡ command
      → p t.value ≡ true
      → any p (command_targets ts) ≡ true
  unfolding command_targets
  command_targets-In p [] t i k h = elim i [ ]
  command_targets-In p (u ∷ ts) t (inl e) k h =
      ground (arith, ap (λ (x : Target). x.kind) e, ap (λ (x : Target). p x.value) e)
  command_targets-In p (u ∷ ts) t (inr i) k h = ground (arith, command_targets-In p ts t i k h)

  path_rule_sound :
      (gs : List Text) (q : Request)
      → path_rule_matches m gs (path_targets q.targets) ≡ some true
      → PathHolds gs q
  unfolding path_rule_matches
  path_rule_sound [] q e = cc
  path_rule_sound (g ∷ gs) q e = elim (Option-cases (m.glob (normalize_path g))) [
    | inl none' ↦ absurd (ground arith)
    | inr (f, compiled) ↦ elim (Bool-cases (any f (path_targets q.targets))) [
      | inl hit ↦
          let (t, i, k, h) = path_targets-any f q.targets hit in
          (g, t, inl refl, i, k, (f, compiled, h))
      | inr miss ↦
          let (g', t, i, j, k, h) = path_rule_sound gs q (ground arith) in (g', t, inr i, j, k, h)
    ]
  ]

  path_rule_complete :
      (gs : List Text) (q : Request) (b : Bool)
      → PathHolds gs q
      → path_rule_matches m gs (path_targets q.targets) ≡ some b
      → b ≡ true
  unfolding path_rule_matches
  path_rule_complete [] q b (g, t, i, j, k, h) e = elim i [ ]
  path_rule_complete (g ∷ gs) q b (g', t, inl p, j, k, (f, compiled, h)) e = ground (
    arith,
    ap normalize_path p,
    ap m.glob (ap normalize_path p),
    path_targets-In f q.targets t j k h,
  )
  path_rule_complete (g ∷ gs) q b (g', t, inr i, j, k, h) e =
      elim (Option-cases (m.glob (normalize_path g))) [
        | inl none' ↦ absurd (ground arith)
        | inr (f, compiled) ↦ elim (Bool-cases (any f (path_targets q.targets))) [
          | inl hit ↦ ground arith
          | inr miss ↦ path_rule_complete gs q b (g', t, i, j, k, h) (ground arith)
        ]
      ]

  command_rule_sound :
      (g : Text) (q : Request)
      → command_rule_matches m g (command_targets q.targets) ≡ some true
      → CommandHolds g q
  unfolding command_rule_matches
  command_rule_sound g q e = elim (Option-cases (m.regex g)) [
    | inl none' ↦ absurd (ground arith)
    | inr (f, compiled) ↦
        let (t, i, k, h) = command_targets-any f q.targets (ground arith) in
        (t, i, k, (f, compiled, h))
  ]

  command_rule_complete :
      (g : Text) (q : Request) (b : Bool)
      → CommandHolds g q
      → command_rule_matches m g (command_targets q.targets) ≡ some b
      → b ≡ true
  unfolding command_rule_matches
  command_rule_complete g q b (t, i, k, (f, compiled, h)) e =
      ground (arith, command_targets-In f q.targets t i k h)

  effect_eq_iff : (a b : Effect) → (effect_eq a b ≡ true) ↔ (a ≡ b)
  unfolding effect_eq
  effect_eq_iff a b = ground arith

  has_effect_iff : (l : List Effect) (e : Effect) → (has_effect l e ≡ true) ↔ In e l
  unfolding has_effect
  has_effect_iff [] e = (λ h. cc, λ h. elim h [ ])
  has_effect_iff (d ∷ l) e = ground (arith, effect_eq_iff d e, has_effect_iff l e)

  effect_rule_iff :
      (es : List Effect) (q : Request) → (any (has_effect q.effects) es ≡ true) ↔ EffectHolds es q
  effect_rule_iff es q = (
    λ h.
        let (e, i, p) = In-of_any (has_effect q.effects) es h in
        (e, i, (has_effect_iff q.effects e).0 p),
    λ h. any-of_In (has_effect q.effects) es h.0 h.1 ((has_effect_iff q.effects h.0).1 h.2),
  )

  path_part_iff :
      (r : Rule) (q : Request) (b : Bool)
      → path_part m r q ≡ some b
      → (b ≡ true) ↔ IfFilled r.path_globs (λ gs. PathHolds gs q)
  unfolding path_part
  path_part_iff r q b e = go r.path_globs e
    where
      go :
          (o : Option (List Text))
          → (if is_nil (filled o)
              then some true
              else path_rule_matches m (filled o) (path_targets q.targets))
            ≡ some b
          → (b ≡ true) ↔ IfFilled o (λ gs. PathHolds gs q)
      go none h = (λ _. tt, λ _. ground arith)
      go (some []) h = (λ _. tt, λ _. ground arith)
      go (some (g ∷ gs)) h = (
        λ p. path_rule_sound (g ∷ gs) q (h ∙ ap some p),
        λ p. path_rule_complete (g ∷ gs) q b p h,
      )

  command_part_iff :
      (r : Rule) (q : Request) (b : Bool)
      → command_part m r q ≡ some b
      → (b ≡ true) ↔ IfFilled r.command_regex (λ g. CommandHolds g q)
  unfolding command_part
  command_part_iff r q b e = go r.command_regex e
    where
      go :
          (o : Option Text)
          → (if is_nil (filled o)
              then some true
              else command_rule_matches m (filled o) (command_targets q.targets))
            ≡ some b
          → (b ≡ true) ↔ IfFilled o (λ g. CommandHolds g q)
      go none h = (λ _. tt, λ _. ground arith)
      go (some []) h = (λ _. tt, λ _. ground arith)
      go (some (c ∷ g)) h = (
        λ p. command_rule_sound (c ∷ g) q (h ∙ ap some p),
        λ p. command_rule_complete (c ∷ g) q b p h,
      )

  effect_part_iff :
      (r : Rule) (q : Request)
      → (effect_part r q ≡ true) ↔ IfFilled r.effects (λ es. EffectHolds es q)
  unfolding effect_part
  effect_part_iff r q = go r.effects
    where
      go :
          (o : Option (List Effect))
          → ((if is_nil (filled o) then true else any (has_effect q.effects) (filled o)) ≡ true)
            ↔ IfFilled o (λ es. EffectHolds es q)
      go none = (λ _. tt, λ _. refl)
      go (some []) = (λ _. tt, λ _. refl)
      go (some (e ∷ es)) = effect_rule_iff (e ∷ es) q

  -- The code's chain of early returns is the conjunction of the parts.
  rule_parts :
      (r : Rule) (q : Request) (b : Bool)
      → rule_matches_request m r q ≡ some b
      → ((includes r.tools q.tool ≡ false) × (b ≡ false))
        ⊎ ((includes r.tools q.tool ≡ true)
            × (path_part m r q ≡ some true)
            × (command_part m r q ≡ some true)
            × (effect_part r q ≡ b))
        ⊎ ((path_part m r q ≡ some false) × (b ≡ false))
        ⊎ ((command_part m r q ≡ some false) × (b ≡ false))
  unfolding rule_matches_request
  rule_parts r q b e = ground arith

-- A rule that is decided, without an exception, matches exactly when it applies.
pub rule_matches_iff :
    (m : Matchers) (r : Rule) (q : Request) (b : Bool)
    → rule_matches_request m r q ≡ some b
    → (b ≡ true) ↔ Applies m r q
rule_matches_iff m r q b e = elim (rule_parts m r q b e) [
  | inl (out, no') ↦
      ((λ h. absurd (cc (h, no'))), λ a. absurd (cc (out, (includes_iff r.tools q.tool).1 a.tool)))
  | inr (inl (tool, p, c, f)) ↦ (
    (λ h. record {
      tool = (includes_iff r.tools q.tool).0 tool;
      paths = (path_part_iff m r q true p).0 refl;
      commands = (command_part_iff m r q true c).0 refl;
      effects = (effect_part_iff m r q).0 (f ∙ h);
    }),
    λ a. sym f ∙ (effect_part_iff m r q).1 a.effects,
  )
  | inr (inr (inl (p, no'))) ↦
      ((λ h. absurd (cc (h, no'))), λ a. absurd (cc ((path_part_iff m r q false p).1 a.paths)))
  | inr (inr (inr (c, no'))) ↦ (
    (λ h. absurd (cc (h, no'))),
    λ a. absurd (cc ((command_part_iff m r q false c).1 a.commands)),
  )
]
