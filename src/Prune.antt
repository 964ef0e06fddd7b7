-- ===== src/Prune.antt =====
-- Removal of finished tool transactions from the context: src/prune/prune.ts. The messages of the
-- roles that pruning passes on unread stand under `other`.
pub mod Cost
pub mod Kept
pub mod State
pub mod Tests
use o_pi.Common.{
  ℕ, ◌+◌, Text, Bool, true, false, ◌&&◌, ◌||◌, not, List, [], ◌∷◌, ◌++◌, any, keep, length,
  is_empty, includes, if◌then◌else◌,
}

pub data Block : Type 0 where
  text_block thinking : Text → Block
  -- the id, the name and the printed arguments
  tool_call : Text → Text → Text → Block

pub data StopReason : Type 0 where
  aborted error ended : StopReason

pub record Usage : Type 0 where
  pub total_tokens : ℕ
  pub input : ℕ
  pub output : ℕ
  pub cache_read : ℕ
  pub cache_write : ℕ

pub data ContentBlock : Type 0 where
  text_part : Text → ContentBlock
  image : ContentBlock

pub data Content : Type 0 where
  plain : Text → Content
  parts : List ContentBlock → Content

-- A summary has its text, the run of a command the command and its output.
pub data OtherMessage : Type 0 where
  user custom : Content → OtherMessage
  branch_summary compaction_summary : Text → OtherMessage
  bash_execution : Text → Text → OtherMessage

pub data Message : Type 0 where
  assistant : List Block → StopReason → Usage → Message
  -- the id of the call, the name of the tool and the content
  tool_result : Text → Text → Content → Message
  other : OtherMessage → Message

pub record PruneResult : Type 0 where
  pub messages : List Message
  pub removed_assistant_messages : ℕ
  pub removed_tool_calls : ℕ
  pub removed_tool_results : ℕ

-- `findCompletedToolCallIds`, with `excluded` as a list; a set is read by membership alone.
result_ids : List Text → List Message → List Text
result_ids excluded [] = []
result_ids excluded (tool_result id name content ∷ ms) =
    let rest = result_ids excluded ms in if includes excluded id then rest else id ∷ rest
result_ids excluded (_ ∷ ms) = result_ids excluded ms

call_ids : List Text → List Text → List Block → List Text
call_ids excluded results [] = []
call_ids excluded results (tool_call id name args ∷ bs) =
    let rest = call_ids excluded results bs in
    if includes results id && not (includes excluded id) then id ∷ rest else rest
call_ids excluded results (_ ∷ bs) = call_ids excluded results bs

completed_ids : List Text → List Text → List Message → List Text
completed_ids excluded results [] = []
completed_ids excluded results (assistant content stop usage ∷ ms) =
    call_ids excluded results content ++ completed_ids excluded results ms
completed_ids excluded results (_ ∷ ms) = completed_ids excluded results ms

unfoldable pub find_completed_tool_call_ids : List Message → List Text → List Text
unfolding result_ids call_ids completed_ids
find_completed_tool_call_ids ms excluded = completed_ids excluded (result_ids excluded ms) ms

-- The block calls a tool of the set.
abbrev pub calls : List Text → Block → Bool
calls ids (tool_call id name args) = includes ids id
calls ids _ = false

abbrev pub calls_other : List Text → Block → Bool
calls_other ids (tool_call id name args) = not (includes ids id)
calls_other ids _ = false

-- The filter of an assistant message's blocks.
abbrev pub block_stays : List Text → Bool → Block → Bool
block_stays ids remaining (tool_call id name args) = not (includes ids id)
block_stays ids remaining (thinking t) = remaining
block_stays ids remaining (text_block t) = true

abbrev empty_result : PruneResult
empty_result = record {
  messages = [];
  removed_assistant_messages = 0;
  removed_tool_calls = 0;
  removed_tool_results = 0;
}

abbrev with_message : Message → PruneResult → PruneResult
with_message m r = record r { messages = m ∷ r.messages }

-- One assistant message, given the blocks that are removed and the result for the rest.
prune_assistant : List Text → List Block → StopReason → Usage → PruneResult → PruneResult
prune_assistant ids content stop usage rest =
    let removed = keep (calls ids) content in
    if is_empty removed
    then with_message (assistant content stop usage) rest
    else (let counted = record rest {
      removed_tool_calls = rest.removed_tool_calls + length removed;
    } in
        let left = keep (block_stays ids (any (calls_other ids) content)) content in
        if is_empty left
        then record counted { removed_assistant_messages = rest.removed_assistant_messages + 1 }
        else with_message (assistant left stop usage) counted)

unfoldable pub prune_tool_transactions : List Message → List Text → PruneResult
unfolding prune_assistant
prune_tool_transactions [] ids = empty_result
prune_tool_transactions (tool_result id name content ∷ ms) ids =
    let rest = prune_tool_transactions ms ids in
    if includes ids id
    then record rest { removed_tool_results = rest.removed_tool_results + 1 }
    else with_message (tool_result id name content) rest
prune_tool_transactions (other t ∷ ms) ids = with_message (other t) (prune_tool_transactions ms ids)
prune_tool_transactions (assistant content stop usage ∷ ms) ids =
    prune_assistant ids content stop usage (prune_tool_transactions ms ids)
