-- ===== src/Prune/Tests.antt =====
-- The theorems on pruning at concrete inputs.
use o_pi.Common.{text, List, [], ◌∷◌, keep, In, none, some, ◌≡◌, ◌↔◌}
use o_pi.Prune.{
  Message, assistant, tool_result, other, user, plain, ended, Usage, text_block, thinking,
  tool_call, prune_tool_transactions,
}
use o_pi.Prune.Kept.{all_calls, all_results, all_texts, outside, prune_keeps}
use o_pi.Prune.State.{Entry, find_visible_tool_call_ids, pruned_ids}
use o_pi.Prune.State.Visible.{visible_iff}
use o_pi.Prune.Cost.{Scope, high, Tier, select_rates}
use o_pi.Prune.Cost.CommonPrefix.{Prefix, common_prefix-Prefix}
use o_pi.Prune.Cost.Rates.{Rated, select_rates-Rated}

abbrev no_usage : Usage
no_usage = record { total_tokens = 0; input = 0; output = 0; cache_read = 0; cache_write = 0 }

-- Two calls with their results; the first message has a text and a thought.
abbrev history : List Message
history =
    other (user (plain (text "go")))
    ∷ assistant
        (thinking (text "hm") ∷ text_block (text "look") ∷ tool_call (text "a") (text "ls") [] ∷ [])
        ended no_usage
    ∷ tool_result (text "a") (text "ls") (plain (text "files"))
    ∷ assistant (tool_call (text "b") (text "read") [] ∷ []) ended no_usage
    ∷ tool_result (text "b") (text "read") (plain (text "lines"))
    ∷ []

abbrev prune_entry : Entry
prune_entry = record {
  id = text "e1";
  content = some (record {
    operation = some (text "prune");
    tool_call_ids = some (some (text "b") ∷ []);
    previous_tool_call_ids = some [];
    restored_entry_id = none;
  });
}

prune_keeps_example :
    (all_calls (prune_tool_transactions history (text "b" ∷ [])).messages
      ≡ keep (outside (text "b" ∷ [])) (all_calls history))
    × (all_results (prune_tool_transactions history (text "b" ∷ [])).messages
        ≡ keep (outside (text "b" ∷ [])) (all_results history))
    × (all_texts (prune_tool_transactions history (text "b" ∷ [])).messages ≡ all_texts history)
prune_keeps_example = prune_keeps history (text "b" ∷ [])

visible_iff_example : In (text "a") (find_visible_tool_call_ids history (prune_entry ∷ [])) ↔ (
    In (text "a") (all_calls history)
    × In (text "a") (all_results history)
    × (¬ (In (text "a") (pruned_ids (prune_entry ∷ [])))))
visible_iff_example = visible_iff (text "a") history (prune_entry ∷ [])

abbrev counting : Scope
counting = record { count = λ t. record { tokens = 5; confidence = high }; image_tokens = 1000 }

common_prefix-Prefix_example :
    Prefix counting
      (other (user (plain (text "a"))) ∷ tool_result (text "i") (text "n") (plain (text "c")) ∷ [])
      (text "i" ∷ [])
      7
common_prefix-Prefix_example =
    common_prefix-Prefix counting
      (other (user (plain (text "a"))) ∷ tool_result (text "i") (text "n") (plain (text "c")) ∷ [])
      (text "i" ∷ []) 7

abbrev tiers : List Tier
tiers =
    record { rates = 2; input_tokens_above = 200 }
    ∷ record { rates = 1; input_tokens_above = 100 }
    ∷ []

select_rates-Rated_example : Rated 0 tiers 150 (select_rates 0 tiers 150)
select_rates-Rated_example = select_rates-Rated 0 tiers 150
