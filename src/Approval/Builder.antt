-- ===== src/Approval/Builder.antt =====
-- The request that a tool call makes: src/approval/request-builder.ts. The host's test of a call's
-- tool, the regular expressions of the shell effects and Node's `path` are parameters.
use o_pi.Common.{
  Text, text, text_eq, starts_with, trim, is_empty, Bool, ◌||◌, List, [], ◌∷◌, ◌++◌, any, Option,
  none, some, if◌then◌else◌, ◌>>=◌,
}
use o_pi.Approval.{
  Effect, write, execute, network, install, publish, system_change, external_side_effect,
  destructive, path, command, Request,
}
use o_pi.Approval.Store.{normalize_path}
use o_pi.Approval.Policy.{has_effect}

-- `command` and `path` of the input, where they are strings.
pub record Event : Type 0 where
  pub tool_call_id : Text
  pub tool_name : Text
  pub command : Option Text
  pub path : Option Text

-- `isToolCallEventType` of the host.
pub record Host : Type 0 where
  pub is_tool : Text → Event → Bool

-- The five regular expressions of `bashEffects`, in their order.
pub record ShellTests : Type 0 where
  pub system : Text → Bool
  pub packages : Text → Bool
  pub publishing : Text → Bool
  pub destroying : Text → Bool
  pub infrastructure : Text → Bool

pub record NodePath : Type 0 where
  pub is_absolute : Text → Bool
  pub resolve : Text → Text
  pub resolve_in : Text → Text → Text
  pub root : Text → Text
  pub relative : Text → Text → Text

add_effect : List Effect → Effect → List Effect
unfolding has_effect
add_effect es e = if has_effect es e then es else es ++ e ∷ []

add_effects : Bool → List Effect → List Effect → List Effect
add_effects hit [] es = es
add_effects hit (e ∷ more) es = add_effects hit more (if hit then add_effect es e else es)

unfoldable pub bash_effects : ShellTests → Text → List Effect
unfolding add_effects add_effect
bash_effects t c =
    let es1 = add_effects (t.system c) (system_change ∷ []) (execute ∷ []) in
    let es2 = add_effects (t.packages c) (install ∷ network ∷ []) es1 in
    let es3 = add_effects (t.publishing c) (publish ∷ network ∷ external_side_effect ∷ []) es2 in
    let es4 = add_effects (t.destroying c) (destructive ∷ []) es3 in
    add_effects (t.infrastructure c) (external_side_effect ∷ []) es4

abbrev system_path_prefixes : List Text
system_path_prefixes =
    text "etc"
    ∷ text "usr"
    ∷ text "bin"
    ∷ text "sbin"
    ∷ text "System"
    ∷ text "Library"
    ∷ text "var"
    ∷ []

is_system_path : NodePath → Text → Bool
is_system_path np p =
    let normalized = normalize_path p in
    let relative = normalize_path (np.relative (np.root normalized) normalized) in
    any (λ x. text_eq relative x || starts_with relative (x ++ 47 ∷ [])) system_path_prefixes

unfoldable pub path_effects : NodePath → Text → List Effect
unfolding add_effects add_effect is_system_path
path_effects np p = add_effects (is_system_path np p) (system_change ∷ []) (write ∷ [])

normalize_target_path : NodePath → Text → Text → Text
normalize_target_path np file cwd =
    normalize_path (if np.is_absolute file then np.resolve file else np.resolve_in cwd file)

bash_request : ShellTests → Event → Text → Request
bash_request t e c = record {
  id = e.tool_call_id;
  tool = text "bash";
  action = text "execute";
  summary = text "Run command: " ++ c;
  subject = text "command";
  targets = record { kind = command; value = c } ∷ [];
  effects = bash_effects t c;
}

file_request : NodePath → Event → Text → Text → Text → Text → Request
file_request np e tool action label target = record {
  id = e.tool_call_id;
  tool = tool;
  action = action;
  summary = label ++ target;
  subject = text "path";
  targets = record { kind = path; value = target } ∷ [];
  effects = path_effects np target;
}

-- The branch of "write" or "edit": no request for a path that is missing or empty.
file_branch : NodePath → Text → Event → Text → Text → Text → Option Request
unfolding normalize_target_path file_request
file_branch np cwd e tool action label = e.path >>= λ p.
    if is_empty p
    then none
    else some (file_request np e tool action label (normalize_target_path np p cwd))

unfoldable pub build_approval_request : Host → ShellTests → NodePath → Event → Text → Option Request
unfolding file_branch bash_request bash_effects path_effects
build_approval_request h t np e cwd =
    if h.is_tool (text "bash") e
    then (e.command >>= λ c. if is_empty (trim c) then none else some (bash_request t e c))
    else if h.is_tool (text "write") e
    then file_branch np cwd e (text "write") (text "write_file") (text "Write file: ")
    else if h.is_tool (text "edit") e
    then file_branch np cwd e (text "edit") (text "edit_file") (text "Edit file: ")
    else none
