-- ===== src/Approval/Store.antt =====
-- The remembered rules of the approval gate: src/approval/store.ts. The file system enters as the
-- outcome of a write (`mkdir` fails, `writeFile` fails, or both succeed).
pub mod Dedupe
pub mod Memory
pub mod Load
use o_pi.Common.{
  is_empty, ℕ, Text, text, text_eq, starts_with, Bool, true, false, ◌||◌, List, [], ◌∷◌, ◌++◌, map,
  find, any, Option, none, some, if◌then◌else◌, ◌==◌, ◌>>=◌, includes,
}
use o_pi.Approval.{
  TargetKind, path, command, Target, Request, AllowRule, AllowRuleKind, exact_command,
  command_prefix, exact_path, path_glob, Matchers,
}

-- `value.replace(/\\/g, "/")`
unfoldable pub normalize_path : Text → Text
normalize_path [] = []
normalize_path (c ∷ t) = (if c == 92 then 47 else c) ∷ normalize_path t

abbrev pub is_path : TargetKind → Bool
is_path path = true
is_path _ = false

abbrev pub is_command : TargetKind → Bool
is_command command = true
is_command _ = false

-- `targets.find((target) => target.kind === "command")?.value`, and the same for "path"
unfoldable pub command_target : List Target → Option Text
command_target [] = none
command_target (t ∷ ts) = if is_command t.kind then some t.value else command_target ts

unfoldable pub path_target : List Target → Option Text
path_target [] = none
path_target (t ∷ ts) = if is_path t.kind then some t.value else path_target ts

abbrev pub Kind : Type 0
Kind = AllowRuleKind

-- `command === rule.value`, where the command may be undefined
abbrev pub same_text : Option Text → Text → Bool
same_text none v = false
same_text (some c) v = text_eq c v

-- `command === rule.value || command.startsWith(`${rule.value} `)`
unfoldable pub has_prefix : Text → Text → Bool
has_prefix c v = text_eq c v || starts_with c (v ++ 32 ∷ [])

abbrev prefix_of : Option Text → Text → Bool
prefix_of none v = false
prefix_of (some c) v = has_prefix c v

module _ (m : Matchers) where
  match_path : Kind → Text → Option Text → Option Bool
  match_path kind v none = some false
  match_path exact_path v (some p) = some (text_eq (normalize_path p) (normalize_path v))
  match_path _ v (some p) =
      m.glob (normalize_path v) >>= λ accepts. some (accepts (normalize_path p))

  match_kind : Kind → Text → Request → Option Bool
  unfolding match_path
  match_kind exact_command v q = some (same_text (command_target q.targets) v)
  match_kind command_prefix v q = some (prefix_of (command_target q.targets) v)
  match_kind exact_path v q = match_path exact_path v (path_target q.targets)
  match_kind path_glob v q = match_path path_glob v (path_target q.targets)

  unfoldable pub allow_rule_matches : AllowRule → Request → Option Bool
  unfolding match_kind
  allow_rule_matches r q = if text_eq r.tool q.tool then match_kind r.kind r.value q else some false

  -- `rules.some((rule) => allowRuleMatches(rule, request))`
  unfoldable pub any_matches : List AllowRule → Request → Option Bool
  any_matches [] q = some false
  any_matches (r ∷ rs) q =
      let rest = any_matches rs q in
      allow_rule_matches r q >>= λ hit. if hit then some true else rest

-- `FileApprovalStore`; the path of the file is fixed at construction.
pub record Store : Type 0 where
  pub session_rules : List AllowRule
  pub persistent_rules : List AllowRule

abbrev pub new_store : Store
new_store = record { session_rules = []; persistent_rules = [] }

abbrev pub all_rules : Store → List AllowRule
all_rules s = s.session_rules ++ s.persistent_rules

unfoldable pub matches_allow_rule : Matchers → Store → Request → Option Bool
matches_allow_rule m s q = any_matches m (all_rules s) q

unfoldable pub add_session_allow_rule : AllowRule → Store → Store
add_session_allow_rule r s = record s { session_rules = s.session_rules ++ r ∷ [] }

-- The texts of the kinds, as in the file.
unfoldable pub kind_name : Kind → Text
unfolding text
kind_name exact_command = text "exact_command"
kind_name command_prefix = text "command_prefix"
kind_name exact_path = text "exact_path"
kind_name path_glob = text "path_glob"

-- `${rule.tool}\0${rule.kind}\0${rule.value}`
unfoldable pub rule_key : AllowRule → Text
rule_key r = r.tool ++ (0 ∷ (kind_name r.kind ++ (0 ∷ r.value)))

dedupe_from : List Text → List AllowRule → List AllowRule
dedupe_from seen [] = []
dedupe_from seen (r ∷ rs) =
    let skipped = dedupe_from seen rs in
    let kept = dedupe_from (rule_key r ∷ seen) rs in
    if includes seen (rule_key r) then skipped else r ∷ kept

unfoldable pub dedupe_rules : List AllowRule → List AllowRule
unfolding dedupe_from
dedupe_rules rs = dedupe_from [] rs

pub data WriteOutcome : Type 0 where
  written mkdir_failed write_failed : WriteOutcome

abbrev pub is_written : WriteOutcome → Bool
is_written written = true
is_written _ = false

-- The state after `writePersistentRules`: the rules are deduplicated once `mkdir` has succeeded.
write_persistent_rules : WriteOutcome → Store → Store
write_persistent_rules mkdir_failed s = s
write_persistent_rules _ s = record s { persistent_rules = dedupe_rules s.persistent_rules }

-- The new state, and whether the promise is fulfilled.
unfoldable pub add_persistent_allow_rule : WriteOutcome → AllowRule → Store → Store × Bool
unfolding write_persistent_rules
add_persistent_allow_rule w r s = (
  write_persistent_rules w (record s { persistent_rules = s.persistent_rules ++ r ∷ [] }),
  is_written w,
)

-- `createExactAllowRule`; `now` is the time stamp.
unfoldable pub create_exact_allow_rule : Text → Request → Option AllowRule
create_exact_allow_rule now q =
    if text_eq q.tool (text "bash")
    then (command_target q.targets >>= λ c.
        some (record { created_at = now; tool = text "bash"; kind = exact_command; value = c }))
    else if text_eq q.tool (text "write") || text_eq q.tool (text "edit")
    then (path_target q.targets >>= λ p.
        some
          (record { created_at = now; tool = q.tool; kind = exact_path; value = normalize_path p }))
    else none

abbrev pub known_prefixes : List Text
unfolding text
known_prefixes =
    text "npm install"
    ∷ text "pnpm install"
    ∷ text "pip install"
    ∷ text "uv pip install"
    ∷ text "brew install"
    ∷ text "git commit"
    ∷ text "git push"
    ∷ []

unfoldable pub command_prefix_of : Text → Option Text
command_prefix_of c = find (has_prefix c) known_prefixes

-- `path.posix.dirname` and `path.posix.basename`
pub record PosixPath : Type 0 where
  pub dirname : Text → Text
  pub basename : Text → Text

unfoldable pub conservative_path_glob : PosixPath → Text → Option Text
conservative_path_glob px p =
    if text_eq (px.dirname (normalize_path p)) (text "/etc/nginx")
    then (if is_empty (px.basename (normalize_path p)) then none else some (text "/etc/nginx/**"))
    else none

similar_command : Text → Text → Option Text → AllowRule
similar_command now c none = record {
  created_at = now;
  tool = text "bash";
  kind = exact_command;
  value = c;
}
similar_command now c (some p) = record {
  created_at = now;
  tool = text "bash";
  kind = command_prefix;
  value = p;
}

similar_path : Text → Text → Text → Option Text → AllowRule
similar_path now tool p none = record {
  created_at = now;
  tool = tool;
  kind = exact_path;
  value = normalize_path p;
}
similar_path now tool p (some g) = record {
  created_at = now;
  tool = tool;
  kind = path_glob;
  value = g;
}

unfoldable pub create_similar_allow_rule : PosixPath → Text → Request → Option AllowRule
unfolding similar_command similar_path
create_similar_allow_rule px now q =
    if text_eq q.tool (text "bash")
    then (command_target q.targets >>= λ c. some (similar_command now c (command_prefix_of c)))
    else if text_eq q.tool (text "write") || text_eq q.tool (text "edit")
    then (path_target q.targets >>= λ p.
        some (similar_path now q.tool p (conservative_path_glob px p)))
    else none
