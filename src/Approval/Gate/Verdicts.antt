-- ===== src/Approval/Gate/Verdicts.antt =====
-- What the gate reports of a call, and what may pass it: src/approval/gate.ts.
use o_pi.Common.{
  some_inj, Text, text, Bool, true, false, not, ◌&&◌, ◌||◌, text_eq, List, [], ◌∷◌, Option, none,
  some, ◌≡◌, ◌≢◌, refl, inl, inr, In, All-In, Bool-cases,
}
use o_pi.Approval.{Request, Rule, Decision, Config, NonInteractive}
use o_pi.Approval.Store.{Store, new_store, matches_allow_rule}
use o_pi.Approval.Store.Load.{load_persistent_rules}
use o_pi.Approval.Policy.{evaluate_approval}
use o_pi.Approval.Policy.Meaning.{Applies}
use o_pi.Approval.Policy.Order.{evaluate_explained}
use o_pi.Approval.Builder.{Event, build_approval_request}
use o_pi.Approval.PatternGuard.{Guard, DenyMatch, check_denied_text}
use o_pi.Approval.Gate.{
  Preflight, other_path, check_bash, check_write, write_match, bash_match, Verdict, passes, blocks,
  throws, Outcome, not_required, gate_disabled, policy_allow, non_interactive_allow, allow_once,
  allow_session, allow_persistent, Observation, World, GateState, Env, Step, precheck_safety,
  handle_ask, answer, no_ui, on_decision, with_store, current_store, on_safety, on_request,
  on_config, handle_tool_call,
}

-- The outcomes under which the tool runs.
abbrev pub lets_pass : Outcome → Bool
lets_pass not_required = true
lets_pass gate_disabled = true
lets_pass policy_allow = true
lets_pass non_interactive_allow = true
lets_pass allow_once = true
lets_pass allow_session = true
lets_pass allow_persistent = true
lets_pass _ = false

-- One observation, of the verdict's kind; none beside an exception.
abbrev pub Agrees : Verdict → List Observation → Type 0
Agrees passes (o ∷ []) = lets_pass o.outcome ≡ true
Agrees (blocks reason) (o ∷ []) = lets_pass o.outcome ≡ false
Agrees throws [] = Unit
Agrees _ _ = ⊥

abbrev pub StepAgrees : Step → Type 0
StepAgrees s = Agrees s.verdict s.observed

module _ (env : Env) (w : World) where
  no_ui-Agrees :
      (g : GateState) (n : NonInteractive) (reason : Text) → StepAgrees (no_ui env w g n reason)
  unfolding no_ui
  no_ui-Agrees g NonInteractive.allow reason = refl
  no_ui-Agrees g NonInteractive.block reason = refl

  handle_ask-Agrees :
      (g : GateState) (s : Store) (q : Request) (name : Option Text)
      → StepAgrees (handle_ask env w g s q name)
  unfolding handle_ask
  handle_ask-Agrees g s q name = elim (Bool-cases (answer env w (text "Allow once"))) [
    | inl once ↦ rw once refl
    | inr not_once ↦ elim (Bool-cases (answer env w (text "Allow for session"))) [
      | inl session ↦ rw (not_once, session) refl
      | inr not_session ↦ elim (Bool-cases (answer env w (text "Always allow similar"))) [
        | inl always ↦ rw (not_once, not_session, always) refl
        | inr not_always ↦ elim (Bool-cases (answer env w (text "Deny with instruction"))) [
          | inl told ↦ rw (not_once, not_session, not_always, told) refl
          | inr not_told ↦ elim (Bool-cases (answer env w (text "Deny"))) [
            | inl denies ↦ rw (not_once, not_session, not_always, not_told, denies) refl
            | inr gone ↦ rw (not_once, not_session, not_always, not_told, gone) refl
          ]
        ]
      ]
    ]
  ]

  on_decision-Agrees :
      (c : Config) (g : GateState) (s : Store) (q : Request) (d : Option Decision)
      → StepAgrees (on_decision env w c g s q d)
  unfolding on_decision
  on_decision-Agrees c g s q none = tt
  on_decision-Agrees c g s q (some Decision.allow) = refl
  on_decision-Agrees c g s q (some (Decision.deny reason name)) = refl
  on_decision-Agrees c g s q (some (Decision.ask reason name)) = elim (Bool-cases w.has_ui) [
    | inl shown ↦ rw shown (handle_ask-Agrees g s q name)
    | inr hidden ↦ rw hidden (no_ui-Agrees g c.non_interactive reason)
  ]

  with_store-Agrees :
      (c : Config) (g : GateState) (q : Request) (o : Option Store)
      → StepAgrees (with_store env w c g q o)
  unfolding with_store
  with_store-Agrees c g q none = tt
  with_store-Agrees c g q (some s) =
      on_decision-Agrees c _ s q (evaluate_approval env.matchers c s q)

  current_store-Agrees :
      (c : Config) (g : GateState) (q : Request) (o : Option Store)
      → StepAgrees (current_store env w c g q o)
  unfolding current_store
  current_store-Agrees c g q none = with_store-Agrees c _ q (load_persistent_rules w.read new_store)
  current_store-Agrees c g q (some s) =
      elim (Bool-cases (not g.given && other_path g.loaded_path c.persistent_store)) [
        | inl reload ↦ rw reload (with_store-Agrees c _ q (load_persistent_rules w.read new_store))
        | inr same ↦ rw same (with_store-Agrees c g q (some s))
      ]

  -- A safety check that decides, blocks.
  abbrev Blocking : Option (Option Verdict) → Type 0
  Blocking (some (some (blocks reason))) = Unit
  Blocking (some (some _)) = ⊥
  Blocking _ = Unit

  write-Blocking : (o : Option Text) → Blocking (some (check_write env w o))
  unfolding check_write
  write-Blocking none = tt
  write-Blocking (some p) = go w.preflight
    where
      go : (o : Option Preflight) → Blocking (some (write_match env w o))
      go none = tt
      go (some Preflight.allowed) = tt
      go (some Preflight.refused_otherwise) = tt
      go (some (Preflight.blocked rule)) = tt

  bash-Blocking :
      (command : Option Text) (guard : Option Guard) → Blocking (check_bash env w command guard)
  unfolding check_bash
  bash-Blocking none guard = tt
  bash-Blocking (some c) none = tt
  bash-Blocking (some c) (some g) = go (check_denied_text env.engine c g)
    where
      go : (o : Option (Option DenyMatch)) → Blocking (bash_match env w o)
      go none = tt
      go (some none) = tt
      go (some (some d)) = tt

  precheck-Blocking : (e : Event) → Blocking (precheck_safety env w e)
  unfolding precheck_safety
  precheck-Blocking e = elim (Bool-cases (text_eq e.tool_name (text "bash"))) [
    | inl bash ↦ rw bash (bash-Blocking e.command w.bash_safety)
    | inr other ↦
        elim (Bool-cases
          (text_eq e.tool_name (text "write") || text_eq e.tool_name (text "edit"))) [
            | inl file ↦ rw (other, file) (write-Blocking e.path)
            | inr neither ↦ rw (other, neither) tt
          ]
  ]

  on_safety-Agrees :
      (c : Config) (g : GateState) (q : Request) (o : Option (Option Verdict))
      → Blocking o
      → StepAgrees (on_safety env w c g q o)
  unfolding on_safety
  on_safety-Agrees c g q none h = tt
  on_safety-Agrees c g q (some none) h = current_store-Agrees c g q g.store
  on_safety-Agrees c g q (some (some passes)) h = elim h [ ]
  on_safety-Agrees c g q (some (some (blocks reason))) h = refl
  on_safety-Agrees c g q (some (some throws)) h = elim h [ ]

  on_request-Agrees :
      (c : Config) (g : GateState) (e : Event) (o : Option Request)
      → StepAgrees (on_request env w c g e o)
  unfolding on_request
  on_request-Agrees c g e none = refl
  on_request-Agrees c g e (some q) =
      on_safety-Agrees c g q (precheck_safety env w e) (precheck-Blocking e)

  on_config-Agrees :
      (g : GateState) (e : Event) (o : Option Config) → StepAgrees (on_config env w g e o)
  unfolding on_config
  on_config-Agrees g e none = tt
  on_config-Agrees g e (some c) = elim (Bool-cases c.enabled) [
    | inl on ↦
        simp on (
          on_request-Agrees c g e (build_approval_request env.host env.shell env.node_path e w.cwd))
    | inr off ↦ rw off refl
  ]

  module _ (c : Config) (q : Request) (s : Store) (r : Rule) (on : c.enabled ≡ true)
      (fresh : matches_allow_rule env.matchers s q ≢ some true) (listed : In r c.deny_rules)
      (applies : Applies env.matchers r q) where
    decision_stops :
        (g : GateState) (o : Option Decision)
        → evaluate_approval env.matchers c s q ≡ o
        → (on_decision env w c g s q o).verdict ≢ passes
    unfolding on_decision
    decision_stops g none e h = cc
    decision_stops g (some (Decision.deny reason name)) e h = cc
    decision_stops g (some Decision.allow) e h =
        elim (evaluate_explained env.matchers q c s Decision.allow e) [
          | inl off ↦ cc
          | inr (inl hit) ↦ fresh hit
          | inr (inr (never, a, b, d)) ↦ All-In _ c.deny_rules r never listed applies
        ]
    decision_stops g (some (Decision.ask reason name)) e h =
        let why = evaluate_explained env.matchers q c s (Decision.ask reason name) e in
        All-In _ c.deny_rules r why.2 listed applies

    current_stops :
        (g : GateState) (o : Option Store)
        → g.given ≡ true
        → o ≡ some s
        → (current_store env w c g q o).verdict ≢ passes
    unfolding current_store with_store
    current_stops g none given e = cc
    current_stops g (some t) given e =
        rw (some_inj t s e)
          (simp given (decision_stops _ (evaluate_approval env.matchers c s q) refl))

    safety_stops :
        (g : GateState) (o : Option (Option Verdict))
        → Blocking o
        → g.given ≡ true
        → g.store ≡ some s
        → (on_safety env w c g q o).verdict ≢ passes
    unfolding on_safety
    safety_stops g none b given stored h = cc
    safety_stops g (some (some passes)) b given stored h = elim b [ ]
    safety_stops g (some (some (blocks reason))) b given stored h = cc
    safety_stops g (some (some throws)) b given stored h = elim b [ ]
    safety_stops g (some none) b given stored h = current_stops g g.store given stored h

-- Every call is observed once, unless it ends in an exception, and the outcome that is observed
-- lets the call pass exactly when the gate does.
pub handle_tool_call-Agrees :
    (env : Env) (w : World) (g : GateState) (e : Event) → StepAgrees (handle_tool_call env w g e)
unfolding handle_tool_call
handle_tool_call-Agrees env w g e = on_config-Agrees env w g e w.config

-- A call to which a deny rule applies does not pass, whatever the user or the world answers, if
-- the gate is on with a store at hand that holds no rule for it.
pub deny_rule_stops :
    (env : Env) (w : World) (g : GateState) (e : Event) (c : Config) (q : Request) (s : Store)
    (r : Rule)
    → w.config ≡ some c
    → c.enabled ≡ true
    → build_approval_request env.host env.shell env.node_path e w.cwd ≡ some q
    → g.given ≡ true
    → g.store ≡ some s
    → matches_allow_rule env.matchers s q ≢ some true
    → In r c.deny_rules
    → Applies env.matchers r q
    → (handle_tool_call env w g e).verdict ≢ passes
unfolding handle_tool_call on_config on_request
deny_rule_stops env w g e c q s r configured on built given stored fresh listed applies =
    rw (configured, on_config)
      (simp (on, built)
        (safety_stops env w c q s r on fresh listed applies g (precheck_safety env w e)
          (precheck-Blocking env w e) given stored))
