-- ===== src/Prune/State.antt =====
-- The persisted state of pruning: src/prune/prune.ts, `parsePruneState` to `findVisibleToolCallIds`.
pub mod Visible
use o_pi.Common.{
  Text, text, text_eq, Bool, true, false, List, [], ◌∷◌, ◌++◌, Option, none, some, if◌then◌else◌,
  ◌>>=◌, includes,
}
use o_pi.Common.OrderedMap.{OrderedMap, get, put}
use o_pi.Prune.{Message, prune_tool_transactions, find_completed_tool_call_ids}

-- The fields of an entry's data; `none` where a field is missing or of another type. The items of
-- a list are `none` where they are not strings.
pub record RawState : Type 0 where
  pub operation : Option Text
  pub tool_call_ids : Option (List (Option Text))
  pub previous_tool_call_ids : Option (List (Option Text))
  pub restored_entry_id : Option Text

pub data PruneState : Type 0 where
  prune : List Text → List Text → PruneState
  restore : List Text → Text → PruneState

abbrev pub state_ids : PruneState → List Text
state_ids (prune ids previous) = ids
state_ids (restore ids entry) = ids

-- A session entry; `content` is `none` where it is no custom entry of the type "prune", or its data
-- are no object.
pub record Entry : Type 0 where
  pub id : Text
  pub content : Option RawState

all_strings : List (Option Text) → Option (List Text)
all_strings [] = some []
all_strings (x ∷ xs) = do t ← x; ts ← all_strings xs; some (t ∷ ts)

-- `[...new Set(value)]`
dedupe : List Text → List Text → List Text
dedupe seen [] = []
dedupe seen (t ∷ ts) =
    let old = dedupe seen ts in
    let fresh = dedupe (t ∷ seen) ts in if includes seen t then old else t ∷ fresh

unfoldable pub parse_string_array : Option (List (Option Text)) → Option (List Text)
unfolding all_strings dedupe
parse_string_array value = do items ← value; texts ← all_strings items; some (dedupe [] texts)

abbrev is_operation : Option Text → Text → Bool
is_operation none t = false
is_operation (some s) t = text_eq s t

unfoldable pub parse_prune_state : RawState → Option PruneState
unfolding parse_string_array
parse_prune_state r = parse_string_array r.tool_call_ids >>= λ ids.
    if is_operation r.operation (text "prune")
    then (parse_string_array r.previous_tool_call_ids >>= λ previous. some (prune ids previous))
    else if is_operation r.operation (text "restore")
    then (r.restored_entry_id >>= λ entry. some (restore ids entry))
    else none

abbrev entry_state : Entry → Option PruneState
entry_state e = e.content >>= parse_prune_state

-- The last entry whose data parse: `none` from the later entries leaves this one.
unfoldable pub read_prune_state : List Entry → Option PruneState
read_prune_state [] = none
read_prune_state (e ∷ es) = elim (read_prune_state es) [ none ↦ entry_state e | some s ↦ some s ]

abbrev pub ids_of : Option PruneState → List Text
ids_of none = []
ids_of (some s) = state_ids s

abbrev pub pruned_ids : List Entry → List Text
pruned_ids es = ids_of (read_prune_state es)

apply_state : List Message → Option PruneState → List Message
apply_state ms none = ms
apply_state ms (some s) = (prune_tool_transactions ms (state_ids s)).messages

unfoldable pub apply_persisted_tool_pruning : List Message → List Entry → List Message
unfolding apply_state
apply_persisted_tool_pruning ms es = apply_state ms (read_prune_state es)

unfoldable pub find_visible_tool_call_ids : List Message → List Entry → List Text
find_visible_tool_call_ids ms es =
    find_completed_tool_call_ids (apply_persisted_tool_pruning ms es) []

pub record Restorable : Type 0 where
  pub entry_id : Text
  pub ids : List Text
  pub previous : List Text

pub record Scan : Type 0 where
  pub prunes : OrderedMap Restorable
  pub restored : List Text

scan_state : Text → Option PruneState → Scan → Scan
scan_state id none s = s
scan_state id (some (prune ids previous)) s = record s {
  prunes = put id (record { entry_id = id; ids = ids; previous = previous }) s.prunes;
}
scan_state id (some (restore ids entry)) s = elim (get entry s.prunes) [
  | none ↦ s
  | some p ↦ record s { restored = entry ∷ s.restored }
]

unfoldable pub scan : List Entry → Scan → Scan
unfolding scan_state
scan [] s = s
scan (e ∷ es) s = scan es (scan_state e.id (entry_state e) s)

-- The last candidate that was not restored.
unfoldable pub last_candidate : List Text → OrderedMap Restorable → Option Restorable
last_candidate restored [] = none
last_candidate restored ((k, c) ∷ cs) = elim (last_candidate restored cs) [
  | none ↦ if includes restored c.entry_id then none else some c
  | some later ↦ some later
]

unfoldable pub find_restorable_prune_state : List Entry → Option Restorable
find_restorable_prune_state es =
    let s = scan es (record { prunes = []; restored = [] }) in last_candidate s.restored s.prunes
