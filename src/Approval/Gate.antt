-- ===== src/Approval/Gate.antt =====
-- The gate itself: src/approval/gate.ts. What the world answers during one call is a `World`.
pub mod Session
pub mod Verdicts
use o_pi.Common.{
  ℕ, ◌-◌, Text, text, text_eq, trim, is_empty, Bool, true, false, ◌||◌, ◌&&◌, not, List, [], ◌∷◌,
  ◌++◌, Option, none, some, if◌then◌else◌, ◌>>=◌,
}
use o_pi.Approval.{Request, Decision, Config, NonInteractive, Matchers, AllowRule}
use o_pi.Approval.Store.{
  Store, new_store, add_session_allow_rule, add_persistent_allow_rule, create_exact_allow_rule,
  create_similar_allow_rule, PosixPath, WriteOutcome,
}
use o_pi.Approval.Store.Load.{ReadOutcome, load_persistent_rules}
use o_pi.Approval.Policy.{evaluate_approval}
use o_pi.Approval.Builder.{Event, Host, ShellTests, NodePath, build_approval_request}
use o_pi.Approval.PatternGuard.{
  Guard, Engine, DenyMatch, MatchKind, pattern, regex, check_denied_text,
}

pub data Verdict : Type 0 where
  -- `undefined`: the call goes on
  passes : Verdict
  -- `{ block: true, reason }`
  blocks : Text → Verdict
  -- the promise is rejected
  throws : Verdict

pub data Outcome : Type 0 where
  not_required gate_disabled policy_allow policy_deny safety_block : Outcome
  non_interactive_allow non_interactive_block allow_once allow_session allow_persistent : Outcome
  denied deny_with_instruction dismissed : Outcome

pub data Observed : Type 0 where
  allow deny ask : Observed

pub record Observation : Type 0 where
  pub decision : Observed
  pub outcome : Outcome
  pub wait_ms : ℕ
  pub rule_name : Option Text

-- The outcome of `preflightWriteAccess`; a refusal carries the rule of an access that is blocked.
pub data Preflight : Type 0 where
  allowed refused_otherwise : Preflight
  blocked : Option Text → Preflight

pub record World : Type 0 where
  pub config : Option Config
  pub cwd : Text
  -- `none`: the configuration of the shell tool could not be loaded
  pub bash_safety : Option Guard
  -- `none`: the configuration of the file tools could not be loaded
  pub preflight : Option Preflight
  pub read : ReadOutcome
  pub has_ui : Bool
  pub choice : Option Text
  pub instruction : Option Text
  pub time_stamp : Text
  pub started_at : ℕ
  pub selected_at : ℕ
  pub answered_at : ℕ
  pub write : WriteOutcome

-- `store` and `loadedStorePath` of the closure; `given` where `options.store` is set.
pub record GateState : Type 0 where
  pub given : Bool
  pub store : Option Store
  pub loaded_path : Option Text

pub record Env : Type 0 where
  pub matchers : Matchers
  pub engine : Engine
  pub host : Host
  pub shell : ShellTests
  pub node_path : NodePath
  pub posix : PosixPath

pub record Step : Type 0 where
  pub state : GateState
  pub verdict : Verdict
  pub observed : List Observation

abbrev pub user_denied_reason : Text
user_denied_reason = text "User denied this tool call."

abbrev with_instruction : Text → Text
with_instruction t =
    if is_empty t
    then user_denied_reason
    else user_denied_reason ++ (text "\n\nInstruction from user:\n" ++ t)

-- `formatDenyReason`
unfoldable pub format_deny_reason : Option Text → Text
format_deny_reason none = user_denied_reason
format_deny_reason (some i) = with_instruction (trim i)

is_text : Option Text → Text → Bool
is_text none t = false
is_text (some s) t = text_eq s t

abbrev observe : Observed → Outcome → ℕ → Option Text → List Observation
observe d o w r = record { decision = d; outcome = o; wait_ms = w; rule_name = r } ∷ []

abbrev finish : GateState → Verdict → List Observation → Step
finish g v os = record { state = g; verdict = v; observed = os }

abbrev keep_rule : (AllowRule → Store → Store) → Option AllowRule → Store → Store
keep_rule add none s = s
keep_rule add (some r) s = add r s

-- `loadedStorePath !== config.remember.persistent_store`
other_path : Option Text → Text → Bool
other_path none p = true
other_path (some l) p = not (text_eq l p)

quoted : Text → Text
quoted t = 34 ∷ (t ++ 34 ∷ [])

or_text : Option Text → Text → Text
or_text none t = t
or_text (some s) t = s

deny_rule_reason : Text → Option Text → Text
unfolding quoted or_text
deny_rule_reason reason name =
    text "Blocked by approval deny rule "
    ++ (quoted (or_text name (text "unnamed")) ++ (text ": " ++ reason))

abbrev match_kind_name : MatchKind → Text
match_kind_name pattern = text "pattern"
match_kind_name regex = text "regex"

module _ (env : Env) (w : World) where
  bash_match : Option (Option DenyMatch) → Option (Option Verdict)
  bash_match none = none
  bash_match (some none) = some none
  bash_match (some (some d)) = some (
      some (
        blocks (
          text "Blocked by safety policy: "
          ++ (d.message
              ++ (text " Matched " ++ (match_kind_name d.kind ++ (text ": " ++ d.rule)))))))

  write_match : Option Preflight → Option Verdict
  unfolding or_text
  write_match (some (blocked rule)) = some (
      blocks (
        text "Blocked by safety policy: Path is blocked by file-tools config. Matched path rule: "
        ++ or_text rule (text "unknown")))
  write_match _ = none

  check_bash : Option Text → Option Guard → Option (Option Verdict)
  unfolding bash_match
  check_bash (some c) (some g) = bash_match (check_denied_text env.engine c g)
  check_bash _ _ = some none

  check_write : Option Text → Option Verdict
  unfolding write_match
  check_write none = none
  check_write (some p) = write_match w.preflight

  -- `none`: an exception; `some none`: no block.
  unfoldable pub precheck_safety : Event → Option (Option Verdict)
  unfolding check_bash check_write
  precheck_safety e =
      if text_eq e.tool_name (text "bash")
      then check_bash e.command w.bash_safety
      else if text_eq e.tool_name (text "write") || text_eq e.tool_name (text "edit")
      then some (check_write e.path)
      else some none

  answer : Text → Bool
  unfolding is_text
  answer t = is_text w.choice t

  handle_ask : GateState → Store → Request → Option Text → Step
  unfolding answer
  handle_ask g s q name =
      let waited = w.selected_at - w.started_at in
      if answer (text "Allow once")
      then finish g passes (observe Observed.ask allow_once waited name)
      else if answer (text "Allow for session")
      then finish
          (record g {
            store =
                some (keep_rule add_session_allow_rule (create_exact_allow_rule w.time_stamp q) s);
          })
          passes (observe Observed.ask allow_session waited name)
      else if answer (text "Always allow similar")
      then finish
          (record g {
            store = some (
                keep_rule (λ r t. (add_persistent_allow_rule w.write r t).0)
                  (create_similar_allow_rule env.posix w.time_stamp q) s);
          })
          passes (observe Observed.ask allow_persistent waited name)
      else if answer (text "Deny with instruction")
      then finish g (blocks (format_deny_reason w.instruction))
          (observe Observed.ask deny_with_instruction (w.answered_at - w.started_at) name)
      else finish g (blocks (format_deny_reason none))
          (observe Observed.ask (if answer (text "Deny") then denied else dismissed) waited name)

  no_ui : GateState → NonInteractive → Text → Step
  no_ui g NonInteractive.allow reason =
      finish g passes (observe Observed.allow non_interactive_allow 0 none)
  no_ui g NonInteractive.block reason =
      finish g (blocks (text "Approval required but no interactive UI is available: " ++ reason))
        (observe Observed.deny non_interactive_block 0 none)

  pub on_decision : Config → GateState → Store → Request → Option Decision → Step
  unfolding no_ui handle_ask deny_rule_reason
  on_decision c g s q none = finish g throws []
  on_decision c g s q (some Decision.allow) =
      finish g passes (observe Observed.allow policy_allow 0 none)
  on_decision c g s q (some (Decision.deny reason name)) =
      finish g (blocks (deny_rule_reason reason name)) (observe Observed.deny policy_deny 0 name)
  on_decision c g s q (some (Decision.ask reason name)) =
      if not w.has_ui then no_ui g c.non_interactive reason else handle_ask g s q name

  with_store : Config → GateState → Request → Option Store → Step
  with_store c g q none = finish g throws []
  with_store c g q (some s) =
      on_decision c (record g { store = some s }) s q (evaluate_approval env.matchers c s q)

  -- The new store is in place, with its path, before its rules are read.
  load_store : Config → GateState → Request → Step
  unfolding with_store
  load_store c g q =
      with_store c (record g { store = some new_store; loaded_path = some c.persistent_store }) q
        (load_persistent_rules w.read new_store)

  pub current_store : Config → GateState → Request → Option Store → Step
  unfolding with_store load_store other_path
  current_store c g q none = load_store c g q
  current_store c g q (some s) =
      if not g.given && other_path g.loaded_path c.persistent_store
      then load_store c g q
      else with_store c g q (some s)

  on_safety : Config → GateState → Request → Option (Option Verdict) → Step
  on_safety c g q none = finish g throws []
  on_safety c g q (some (some v)) = finish g v (observe Observed.deny safety_block 0 none)
  on_safety c g q (some none) = current_store c g q g.store

  on_request : Config → GateState → Event → Option Request → Step
  unfolding on_safety
  on_request c g e none = finish g passes (observe Observed.allow not_required 0 none)
  on_request c g e (some q) = on_safety c g q (precheck_safety e)

  on_config : GateState → Event → Option Config → Step
  unfolding on_request
  on_config g e none = finish g throws []
  on_config g e (some c) =
      if not c.enabled
      then finish g passes (observe Observed.allow gate_disabled 0 none)
      else on_request c g e (build_approval_request env.host env.shell env.node_path e w.cwd)

  pub handle_tool_call : GateState → Event → Step
  unfolding on_config
  handle_tool_call g e = on_config g e w.config
