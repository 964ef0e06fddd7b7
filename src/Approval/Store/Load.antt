-- ===== src/Approval/Store/Load.antt =====
-- Reading the file of persistent rules: src/approval/store.ts, `loadPersistentRules`.
use o_pi.Common.{Text, text, text_eq, Bool, List, [], ◌∷◌, Option, none, some, if◌then◌else◌, ◌>>=◌}
use o_pi.Approval.{AllowRule, exact_command, command_prefix, exact_path, path_glob}
use o_pi.Approval.Store.{Store, Kind}

-- The fields of an entry that are strings; `none` where a field is missing or of another type.
pub record Candidate : Type 0 where
  pub created_at : Option Text
  pub tool : Option Text
  pub kind : Option Text
  pub value : Option Text

-- What the parsed text holds: `rules` if that is an array, and each entry that is an object.
pub record ParsedFile : Type 0 where
  pub is_version_1 : Bool
  pub rules : Option (List (Option Candidate))

pub data ReadOutcome : Type 0 where
  not_found unreadable not_jsonc : ReadOutcome
  parsed : ParsedFile → ReadOutcome

unfoldable pub kind_of_name : Text → Option Kind
kind_of_name t =
    if text_eq t (text "exact_command")
    then some exact_command
    else if text_eq t (text "command_prefix")
    then some command_prefix
    else if text_eq t (text "exact_path")
    then some exact_path
    else if text_eq t (text "path_glob")
    then some path_glob
    else none

-- `isApprovalAllowRule`, with the rule that the entry then is.
unfoldable pub as_allow_rule : Option Candidate → Option AllowRule
unfolding kind_of_name
as_allow_rule entry = do
  c ← entry
  created_at ← c.created_at
  tool ← c.tool
  value ← c.value
  kind_text ← c.kind
  kind ← kind_of_name kind_text
  some (record { created_at = created_at; tool = tool; kind = kind; value = value })

unfoldable pub valid_rules : List (Option Candidate) → List AllowRule
valid_rules [] = []
valid_rules (e ∷ es) =
    let rest = valid_rules es in elim (as_allow_rule e) [ none ↦ rest | some r ↦ r ∷ rest ]

-- `none`: the shape is invalid, an exception.
unfoldable pub parse_persistent_rules : ParsedFile → Option (List AllowRule)
unfolding valid_rules
parse_persistent_rules f =
    if f.is_version_1 then (f.rules >>= λ es. some (valid_rules es)) else none

-- The store after the call; `none`: an exception, which leaves the store as it was.
unfoldable pub load_persistent_rules : ReadOutcome → Store → Option Store
unfolding parse_persistent_rules
load_persistent_rules not_found s = some (record s { persistent_rules = [] })
load_persistent_rules unreadable s = none
load_persistent_rules not_jsonc s = none
load_persistent_rules (parsed f) s =
    parse_persistent_rules f >>= λ rs. some (record s { persistent_rules = rs })
