-- ===== src/Approval.antt =====
-- The approval gate: src/approval/types.ts, the data that the parts share. An exception is `none`
-- of an `Option`. The matchers of picomatch and of `RegExp` are parameters.
pub mod Policy
pub mod Store
pub mod Builder
pub mod PatternGuard
pub mod Gate
pub mod Tests
use o_pi.Common.{ℕ, Text, Option, List, Bool}
use o_pi.Common.OrderedMap.{OrderedMap}

pub data Effect : Type 0 where
  read write delete execute network install publish : Effect
  system_change external_side_effect destructive unknown_side_effect : Effect

pub data TargetKind : Type 0 where
  path command url package_name service other : TargetKind

pub record Target : Type 0 where
  pub kind : TargetKind
  pub value : Text

-- `id`, `raw_input` and the texts that are only displayed are those of the call.
pub record Request : Type 0 where
  pub id : Text
  pub tool : Text
  pub action : Text
  pub summary : Text
  pub subject : Text
  pub targets : List Target
  pub effects : List Effect

pub data Decision : Type 0 where
  allow : Decision
  ask deny : Text → Option Text → Decision

pub data DefaultAction : Type 0 where
  allow ask deny : DefaultAction

pub record Rule : Type 0 where
  pub name : Text
  pub tools : List Text
  pub path_globs : Option (List Text)
  pub command_regex : Option Text
  pub effects : Option (List Effect)
  pub reason : Text

pub data NonInteractive : Type 0 where
  block allow : NonInteractive

pub record Config : Type 0 where
  pub enabled : Bool
  pub timeout_ms : ℕ
  pub non_interactive : NonInteractive
  pub allow_session : Bool
  pub allow_persistent : Bool
  pub persistent_store : Text
  pub defaults : OrderedMap DefaultAction
  pub ask_rules : List Rule
  pub deny_rules : List Rule

pub data AllowRuleKind : Type 0 where
  exact_command command_prefix exact_path path_glob : AllowRuleKind

pub record AllowRule : Type 0 where
  pub created_at : Text
  pub tool : Text
  pub kind : AllowRuleKind
  pub value : Text

-- What the code takes from picomatch (with `dot` and `nonegate`) and from `RegExp` with the flag
-- `u`: the compiled test, or `none` where the constructor throws.
pub record Matchers : Type 0 where
  pub glob : Text → Option (Text → Bool)
  pub regex : Text → Option (Text → Bool)
