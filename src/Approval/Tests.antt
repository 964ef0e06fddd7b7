-- ===== src/Approval/Tests.antt =====
-- The theorems on the approval gate at concrete inputs, and runs of its definitions.
use o_pi.Common.{
  any, Bool, ◌==◌, ◌++◌, subst, some_inj, if◌then◌else◌, Text, text, text_eq, true, false, [], ◌∷◌,
  none, some, ◌≡◌, ◌≢◌, ◌↔◌, refl, inl, arith, starts_with, is_space, trim, trim_start, includes,
}
use o_pi.Common.OrderedMap.{get}
use o_pi.Approval.{
  execute, command, Request, Rule, Config, NonInteractive, Matchers, Decision, AllowRule,
  exact_command, command_prefix, path, path_glob,
}
use o_pi.Approval.Store.{
  new_store, any_matches, dedupe_rules, matches_allow_rule, add_persistent_allow_rule, written,
  create_exact_allow_rule, create_similar_allow_rule, allow_rule_matches, command_target,
  normalize_path, command_prefix_of, has_prefix, conservative_path_glob, path_target, PosixPath,
  rule_key, kind_name,
}
use o_pi.Approval.Store.Load.{not_jsonc, not_found, load_persistent_rules}
use o_pi.Approval.Store.Dedupe.{dedupe_rules-any}
use o_pi.Approval.Store.Memory.{GlobCovers, persistent_rule_remembered}
use o_pi.Approval.Policy.{rule_matches_request, evaluate_approval}
use o_pi.Approval.Policy.Meaning.{Applies, rule_matches_iff}
use o_pi.Approval.Policy.Order.{Explains, evaluate_explained}
use o_pi.Approval.Builder.{Event, build_approval_request}
use o_pi.Approval.Gate.{passes, throws, World, Env, precheck_safety, on_decision, handle_tool_call}
use o_pi.Approval.Gate.Verdicts.{StepAgrees, handle_tool_call-Agrees, deny_rule_stops}
use o_pi.Approval.Gate.Session.{
  Reaches, session_choice_lasts, fresh_gate, after_failed_load, failed_load_forgotten,
}

-- All that a run of the gate computes with.
gate_runs : Unit {0}
unfolding text text_eq starts_with is_space trim trim_start includes get any_matches
    matches_allow_rule allow_rule_matches command_target normalize_path rule_matches_request
    evaluate_approval build_approval_request precheck_safety create_exact_allow_rule
    create_similar_allow_rule command_prefix_of has_prefix load_persistent_rules
gate_runs = tt

-- Matchers that compare texts as they stand.
abbrev literal : Matchers
literal = record { glob = λ g. some (text_eq g); regex = λ g. some (λ t. starts_with t g) }

abbrev push_command : Text
push_command = text "git push"

abbrev publish_rule : Rule
publish_rule = record {
  name = text "external-publish";
  tools = text "bash" ∷ [];
  path_globs = none;
  command_regex = some push_command;
  effects = none;
  reason = text "external publishing";
}

abbrev asking : Config
asking = record {
  enabled = true;
  timeout_ms = 0;
  non_interactive = NonInteractive.block;
  allow_session = true;
  allow_persistent = true;
  persistent_store = text "rules";
  defaults = [];
  ask_rules = publish_rule ∷ [];
  deny_rules = [];
}

abbrev denying : Config
denying = record asking { ask_rules = []; deny_rules = publish_rule ∷ [] }

abbrev push_event : Event
push_event = record {
  tool_call_id = text "1";
  tool_name = text "bash";
  command = some push_command;
  path = none;
}

abbrev push_request : Request
push_request = record {
  id = text "1";
  tool = text "bash";
  action = text "execute";
  summary = text "Run command: git push";
  subject = text "command";
  targets = record { kind = command; value = push_command } ∷ [];
  effects = execute ∷ [];
}

abbrev plain_env : Env
plain_env = record {
  matchers = literal;
  engine = record { unicode = λ g. none; plain = λ g. none };
  host = record { is_tool = λ t e. text_eq t e.tool_name };
  shell = record {
    system = λ c. false;
    packages = λ c. false;
    publishing = λ c. false;
    destroying = λ c. false;
    infrastructure = λ c. false;
  };
  node_path = record {
    is_absolute = λ p. true;
    resolve = λ p. p;
    resolve_in = λ d p. p;
    root = λ p. [];
    relative = λ r p. p;
  };
  posix = record { dirname = λ p. []; basename = λ p. p };
}

abbrev world : Config → World
world c = record {
  config = some c;
  cwd = text "/";
  bash_safety = none;
  preflight = none;
  read = not_found;
  has_ui = true;
  choice = some (text "Allow for session");
  instruction = none;
  time_stamp = text "now";
  started_at = 5;
  selected_at = 9;
  answered_at = 9;
  write = written;
}

abbrev push_rule : AllowRule
push_rule = record {
  created_at = text "now";
  tool = text "bash";
  kind = exact_command;
  value = push_command;
}

abbrev push_prefix : AllowRule
push_prefix = record push_rule { kind = command_prefix }

abbrev asked : Decision
asked = Decision.ask (text "external publishing") (some (text "external-publish"))

ask_run : evaluate_approval literal asking new_store push_request ≡ some asked
unfolding gate_runs
ask_run = refl

rule_matches_iff_example : (true ≡ true) ↔ Applies literal publish_rule push_request
unfolding gate_runs
rule_matches_iff_example = rule_matches_iff literal publish_rule push_request true refl

evaluate_explained_example : Explains literal push_request asking new_store asked
evaluate_explained_example = evaluate_explained literal push_request asking new_store asked ask_run

dedupe_rules-any_example :
    any_matches literal (dedupe_rules (push_rule ∷ push_rule ∷ [])) push_request
    ≡ any_matches literal (push_rule ∷ push_rule ∷ []) push_request
unfolding text
dedupe_rules-any_example =
    dedupe_rules-any literal push_request (push_rule ∷ push_rule ∷ []) (omega arith)

-- The folder and the name of an absolute path.
folder_of : Text → Text
folder_of [] = []
folder_of (c ∷ t) = let rest = folder_of t in if any (λ b. b == 47) t then c ∷ rest else []

name_of : Text → Text
name_of [] = []
name_of (c ∷ t) =
    let rest = name_of t in if any (λ b. b == 47) t then rest else if c == 47 then t else c ∷ t

abbrev slashes : PosixPath
slashes = record { dirname = folder_of; basename = name_of }

-- A glob that ends in two stars accepts what stands below its folder, any other just itself.
abbrev below_folder : Matchers
below_folder = record {
  glob = λ g. some (λ t.
      if text_eq (name_of g) (text "**")
      then starts_with t (folder_of g ++ 47 ∷ [])
      else text_eq g t);
  regex = λ g. none;
}

abbrev site_path : Text
site_path = text "/etc/nginx/site.conf"

abbrev site_request : Request
site_request = record push_request {
  tool = text "write";
  targets = record { kind = path; value = site_path } ∷ [];
}

abbrev site_rule : AllowRule
site_rule = record {
  created_at = text "now";
  tool = text "write";
  kind = path_glob;
  value = text "/etc/nginx/**";
}

site_covered : GlobCovers below_folder site_request slashes
unfolding gate_runs conservative_path_glob path_target folder_of name_of
site_covered p g e made =
    subst
      (λ v.
        conservative_path_glob slashes v ≡ some g
        → (accepts : Text → Bool) × (below_folder.glob (normalize_path g) ≡ some accepts)
          × (accepts (normalize_path v) ≡ true))
      (some_inj site_path p e)
      (λ m.
        subst
          (λ v.
            (accepts : Text → Bool) × (below_folder.glob (normalize_path v) ≡ some accepts)
            × (accepts (normalize_path site_path) ≡ true))
          (some_inj (text "/etc/nginx/**") g m) (_, refl, refl))
      made

-- Another write below the folder is let pass too.
neighbour_passes :
    matches_allow_rule below_folder
      (add_persistent_allow_rule written site_rule new_store).0
      (record site_request {
        targets = record { kind = path; value = text "/etc/nginx/conf.d/other" } ∷ [];
      })
    ≡ some true
unfolding gate_runs add_persistent_allow_rule dedupe_rules path_target folder_of name_of rule_key
    kind_name
neighbour_passes = refl

persistent_rule_remembered_example :
    matches_allow_rule below_folder
      (add_persistent_allow_rule written site_rule new_store).0
      site_request
    ≡ some true
unfolding gate_runs conservative_path_glob path_target folder_of name_of
persistent_rule_remembered_example =
    persistent_rule_remembered below_folder slashes site_request new_store (text "now") site_rule
      written refl site_covered tt (omega arith)

handle_tool_call-Agrees_example :
    StepAgrees (handle_tool_call plain_env (world asking) fresh_gate push_event)
handle_tool_call-Agrees_example =
    handle_tool_call-Agrees plain_env (world asking) fresh_gate push_event

deny_rule_stops_example :
    (handle_tool_call plain_env
      (world denying)
      (record { given = true; store = some new_store; loaded_path = none })
      push_event).verdict
    ≢ passes
unfolding gate_runs
deny_rule_stops_example =
    deny_rule_stops plain_env (world denying)
      (record { given = true; store = some new_store; loaded_path = none }) push_event denying
      push_request new_store publish_rule refl refl refl refl refl (λ e. cc) (inl refl)
      ((rule_matches_iff literal publish_rule push_request true refl).0 refl)

push-Reaches :
    (c : Config) → c.enabled ≡ true → Reaches plain_env (world c) push_event c push_request
unfolding gate_runs
push-Reaches c on = record { configured = refl; on = on; built = refl; safe = refl }

session_choice_lasts_example :
    (handle_tool_call plain_env
      (world asking)
      (handle_tool_call plain_env
        (world asking)
        (record { given = true; store = some new_store; loaded_path = none })
        push_event).state
      push_event).verdict
    ≡ passes
unfolding gate_runs
session_choice_lasts_example =
    session_choice_lasts plain_env (world asking) (world asking) new_store none push_event
      push_event asking asking push_request push_request (text "external publishing")
      (some (text "external-publish")) push_rule (push-Reaches asking refl)
      (push-Reaches asking refl) refl refl refl refl refl refl tt

abbrev broken : World
broken = record (world asking) { read = not_jsonc }

failed_load_forgotten_example :
    ((handle_tool_call plain_env broken fresh_gate push_event).verdict ≡ throws)
    × (handle_tool_call plain_env broken
          (handle_tool_call plain_env broken fresh_gate push_event).state
          push_event
        ≡ on_decision plain_env broken asking
            (after_failed_load asking)
            new_store
            push_request
            (evaluate_approval literal asking new_store push_request))
unfolding gate_runs
failed_load_forgotten_example =
    failed_load_forgotten plain_env broken broken push_event push_event asking asking push_request
      push_request (record { configured = refl; on = refl; built = refl; safe = refl })
      (record { configured = refl; on = refl; built = refl; safe = refl }) refl refl
