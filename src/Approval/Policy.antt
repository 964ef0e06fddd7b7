-- ===== src/Approval/Policy.antt =====
-- The policy of the approval gate: src/approval/policy.ts. `none` is an exception of a matcher's
-- constructor.
pub mod Meaning
pub mod Order
use mathlib.Core.Bool.{decide}
use o_pi.Common.{
  Text, text, Bool, true, false, ◌&&◌, not, List, [], ◌∷◌, ◌++◌, any, Option, none, some,
  if◌then◌else◌, ◌>>=◌, includes,
}
use o_pi.Common.OrderedMap.{get}
use o_pi.Approval.{
  Effect, Target, Request, Rule, Decision, DefaultAction, Config, Matchers, TargetKind, path,
  command,
}
use o_pi.Approval.Store.{Store, matches_allow_rule, normalize_path, is_path, is_command}

unfoldable pub Effect-discrete : Discrete Effect
Effect-discrete = hlevel

effect_eq : Effect → Effect → Bool
unfolding Effect-discrete
effect_eq a b = elim (Effect-discrete a b) [ yes h ↦ true | no h ↦ false ]

unfoldable pub has_effect : List Effect → Effect → Bool
unfolding effect_eq
has_effect l e = any (λ d. effect_eq d e) l

pub path_targets : List Target → List Text
path_targets [] = []
path_targets (t ∷ ts) =
    let rest = path_targets ts in if is_path t.kind then normalize_path t.value ∷ rest else rest

pub command_targets : List Target → List Text
command_targets [] = []
command_targets (t ∷ ts) =
    let rest = command_targets ts in if is_command t.kind then t.value ∷ rest else rest

-- `hasPathMatcher`, `hasCommandMatcher`, `hasEffectMatcher`: a list or text that is not empty.
abbrev pub filled {ℓ} : {A : Type ℓ} → Option (List A) → List A
filled none = []
filled (some l) = l

abbrev pub is_nil {ℓ} : {A : Type ℓ} → List A → Bool
is_nil [] = true
is_nil (x ∷ l) = false

effect_part : Rule → Request → Bool
effect_part r q =
    if is_nil (filled r.effects) then true else any (has_effect q.effects) (filled r.effects)

abbrev pub default_reason : Request → Text
default_reason q = text "default " ++ (q.tool ++ text " approval policy")

abbrev by_default : Option DefaultAction → Text → Decision
by_default (some DefaultAction.ask) reason = Decision.ask reason none
by_default (some DefaultAction.deny) reason = Decision.deny reason none
by_default _ reason = Decision.allow

module _ (m : Matchers) where
  path_rule_matches : List Text → List Text → Option Bool
  path_rule_matches [] targets = some false
  path_rule_matches (g ∷ gs) targets =
      let rest = path_rule_matches gs targets in
      m.glob (normalize_path g) >>= λ accepts. if any accepts targets then some true else rest

  command_rule_matches : Text → List Text → Option Bool
  command_rule_matches rule targets = m.regex rule >>= λ test. some (any test targets)

  -- The three matchers in their order; an absent one passes.
  path_part : Rule → Request → Option Bool
  path_part r q =
      if is_nil (filled r.path_globs)
      then some true
      else path_rule_matches (filled r.path_globs) (path_targets q.targets)

  command_part : Rule → Request → Option Bool
  command_part r q =
      if is_nil (filled r.command_regex)
      then some true
      else command_rule_matches (filled r.command_regex) (command_targets q.targets)

  unfoldable pub rule_matches_request : Rule → Request → Option Bool
  unfolding path_part command_part effect_part path_rule_matches command_rule_matches path_targets
      command_targets has_effect
  rule_matches_request r q =
      if not (includes r.tools q.tool)
      then some false
      else if is_nil (filled r.path_globs)
          && is_nil (filled r.command_regex)
          && is_nil (filled r.effects)
      then some true
      else path_part r q >>= λ p.
          if not p
          then some false
          else command_part r q >>= λ c. if not c then some false else some (effect_part r q)

  -- `rules.find((rule) => ruleMatchesRequest(rule, request))`
  unfoldable pub find_rule : List Rule → Request → Option (Option Rule)
  find_rule [] q = some none
  find_rule (r ∷ rs) q =
      let rest = find_rule rs q in
      rule_matches_request r q >>= λ hit. if hit then some (some r) else rest

  abbrev ask_or_default : Config → Request → Option Rule → Decision
  ask_or_default c q (some r) = Decision.ask r.reason (some r.name)
  ask_or_default c q none = by_default (get q.tool c.defaults) (default_reason q)

  decide_rules : Config → Request → Option Rule → Option Decision
  decide_rules c q (some r) = some (Decision.deny r.reason (some r.name))
  decide_rules c q none = find_rule c.ask_rules q >>= λ found. some (ask_or_default c q found)

  unfoldable pub evaluate_approval : Config → Store → Request → Option Decision
  unfolding decide_rules find_rule rule_matches_request
  evaluate_approval c s q =
      if not c.enabled
      then some Decision.allow
      else matches_allow_rule m s q >>= λ remembered.
          if remembered
          then some Decision.allow
          else find_rule c.deny_rules q >>= λ found. decide_rules c q found
