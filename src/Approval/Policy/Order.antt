-- ===== src/Approval/Policy/Order.antt =====
-- The order of the policy's tests: src/approval/policy.ts, `evaluateApproval`.
use o_pi.Common.{
  some_inj, subst, Text, true, false, List, [], ◌∷◌, In, Option, none, some, ◌≡◌, refl, ◌⊎◌, inl,
  inr, arith, All, Bool-cases, Option-cases, ◌≢◌,
}
use o_pi.Common.OrderedMap.{get}
use o_pi.Approval.{Request, Rule, Matchers, Config, Decision, DefaultAction}
use o_pi.Approval.Store.{Store, matches_allow_rule}
use o_pi.Approval.Policy.{
  rule_matches_request, find_rule, evaluate_approval, decide_rules, default_reason, ask_or_default,
  by_default,
}
use o_pi.Approval.Policy.Meaning.{Applies, rule_matches_iff}

module _ (m : Matchers) (q : Request) where
  abbrev pub NoneApplies : List Rule → Type 0
  NoneApplies rs = All (λ r. ¬ (Applies m r q)) rs

  -- The rule of the list that the decision's reason and name are taken from.
  abbrev pub FromRule : List Rule → Text → Option Text → Type 0
  FromRule rs reason name =
      (r : Rule) × In r rs × Applies m r q × (reason ≡ r.reason) × (name ≡ some r.name)

  abbrev pub FromDefault : Config → DefaultAction → Text → Option Text → Type 0
  FromDefault c d reason name =
      (get q.tool c.defaults ≡ some d) × (reason ≡ default_reason q) × (name ≡ none)

  -- Why a decision is made, without the code's order of evaluation.
  abbrev pub Explains : Config → Store → Decision → Type 0
  Explains c s Decision.allow =
      (c.enabled ≡ false)
      ⊎ (matches_allow_rule m s q ≡ some true)
      ⊎ (NoneApplies c.deny_rules
          × NoneApplies c.ask_rules
          × (get q.tool c.defaults ≢ some DefaultAction.ask)
          × (get q.tool c.defaults ≢ some DefaultAction.deny))
  Explains c s (Decision.deny reason name) =
      (c.enabled ≡ true)
      × (matches_allow_rule m s q ≡ some false)
      × (FromRule c.deny_rules reason name
          ⊎ (NoneApplies c.deny_rules
              × NoneApplies c.ask_rules
              × FromDefault c DefaultAction.deny reason name))
  Explains c s (Decision.ask reason name) =
      (c.enabled ≡ true)
      × (matches_allow_rule m s q ≡ some false)
      × NoneApplies c.deny_rules
      × (FromRule c.ask_rules reason name
          ⊎ (NoneApplies c.ask_rules × FromDefault c DefaultAction.ask reason name))

  find_rule-some :
      (rs : List Rule) (r : Rule) → find_rule m rs q ≡ some (some r) → In r rs × Applies m r q
  unfolding find_rule
  find_rule-some [] r e = cc
  find_rule-some (s ∷ rs) r e = elim (Option-cases (rule_matches_request m s q)) [
    | inl thrown ↦ absurd (ground arith)
    | inr (true, hit) ↦
        let p : s ≡ r = ground arith in
        (inl p, subst (λ x. Applies m x q) p ((rule_matches_iff m s q true hit).0 refl))
    | inr (false, miss) ↦ let (i, a) = find_rule-some rs r (ground arith) in (inr i, a)
  ]

  find_rule-none : (rs : List Rule) → find_rule m rs q ≡ some none → NoneApplies rs
  unfolding find_rule
  find_rule-none [] e = tt
  find_rule-none (s ∷ rs) e = elim (Option-cases (rule_matches_request m s q)) [
    | inl thrown ↦ absurd (ground arith)
    | inr (true, hit) ↦ absurd (ground arith)
    | inr (false, miss) ↦ (
      (λ a. absurd (cc ((rule_matches_iff m s q false miss).1 a))),
      find_rule-none rs (ground arith),
    )
  ]

  module _ (c : Config) (s : Store) (on : c.enabled ≡ true)
      (fresh : matches_allow_rule m s q ≡ some false) where
    by_default_explained :
        (o : Option DefaultAction)
        → get q.tool c.defaults ≡ o
        → NoneApplies c.deny_rules
        → NoneApplies c.ask_rules
        → Explains c s (by_default o (default_reason q))
    by_default_explained none e d a = inr (inr (d, a, cc, cc))
    by_default_explained (some DefaultAction.allow) e d a = inr (inr (d, a, cc, cc))
    by_default_explained (some DefaultAction.ask) e d a = (on, fresh, d, inr (a, (e, refl, refl)))
    by_default_explained (some DefaultAction.deny) e d a = (on, fresh, inr (d, a, (e, refl, refl)))

    ask_explained :
        (found : Option Rule)
        → find_rule m c.ask_rules q ≡ some found
        → NoneApplies c.deny_rules
        → Explains c s (ask_or_default m c q found)
    ask_explained none e d =
        by_default_explained (get q.tool c.defaults) refl d (find_rule-none c.ask_rules e)
    ask_explained (some r) e d =
        let (i, a) = find_rule-some c.ask_rules r e in (on, fresh, d, inl (r, i, a, refl, refl))

    deny_explained :
        (found : Option Rule) (d : Decision)
        → find_rule m c.deny_rules q ≡ some found
        → decide_rules m c q found ≡ some d
        → Explains c s d
    unfolding decide_rules
    deny_explained (some r) d e h =
        let (i, a) = find_rule-some c.deny_rules r e in
        subst (Explains c s) (some_inj _ _ h) (on, fresh, inl (r, i, a, refl, refl))
    deny_explained none d e h = elim (Option-cases (find_rule m c.ask_rules q)) [
      | inl thrown ↦ absurd (ground arith)
      | inr (found, asked) ↦
          subst (Explains c s) (ground arith)
            (ask_explained found asked (find_rule-none c.deny_rules e))
    ]

-- Each decision has its reason: an allowing one stands only where the gate is off, a remembered
-- rule matches, or no rule applies and the default does not ask or deny; a refusal comes from a
-- deny rule that applies, or the default; a question comes only where no deny rule applies.
pub evaluate_explained :
    (m : Matchers) (q : Request) (c : Config) (s : Store) (d : Decision)
    → evaluate_approval m c s q ≡ some d
    → Explains m q c s d
unfolding evaluate_approval
evaluate_explained m q c s d e = elim (Bool-cases c.enabled) [
  | inl on ↦ elim (Option-cases (matches_allow_rule m s q)) [
    | inl thrown ↦ absurd (ground arith)
    | inr (true, hit) ↦ subst (Explains m q c s) {x = Decision.allow} (ground arith) (inr (inl hit))
    | inr (false, fresh) ↦ elim (Option-cases (find_rule m c.deny_rules q)) [
      | inl thrown ↦ absurd (ground arith)
      | inr (found, denied) ↦ deny_explained m q c s on fresh found d denied (ground arith)
    ]
  ]
  | inr off ↦ subst (Explains m q c s) {x = Decision.allow} (ground arith) (inl off)
]

-- A remembered rule lets the request pass, whatever the other rules say.
pub evaluate_remembered :
    (m : Matchers) (c : Config) (s : Store) (q : Request)
    → matches_allow_rule m s q ≡ some true
    → evaluate_approval m c s q ≡ some Decision.allow
unfolding evaluate_approval
evaluate_remembered m c s q h = elim (Bool-cases c.enabled) [
  | inl on ↦ rw (on, h) refl
  | inr off ↦ rw off refl
]
