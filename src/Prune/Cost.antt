-- ===== src/Prune/Cost.antt =====
-- Token estimates and rates for a pruning: src/prune/prune.ts. The counting of tokens is a
-- parameter.
pub mod CommonPrefix
pub mod Rates
use o_pi.Common.{
  ℕ, ◌+◌, Text, text, trim, Bool, true, false, ◌&&◌, not, List, [], ◌∷◌, ◌++◌, any, Option, none,
  some, if◌then◌else◌, ltb, leb, is_empty, includes,
}
use o_pi.Prune.{
  Block, text_block, thinking, tool_call, StopReason, aborted, error, ended, Usage, Message,
  assistant, tool_result, other, calls, ContentBlock, text_part, image, Content, plain, parts, user,
  custom, branch_summary, compaction_summary, bash_execution,
}

pub data Confidence : Type 0 where
  exact high medium low : Confidence

abbrev pub rank : Confidence → ℕ
rank exact = 4
rank high = 3
rank medium = 2
rank low = 1

unfoldable pub lower_confidence : Confidence → Confidence → Confidence
lower_confidence a b = if leb (rank a) (rank b) then a else b

pub record Estimate : Type 0 where
  pub tokens : ℕ
  pub confidence : Confidence

abbrev pub empty_estimate : Estimate
empty_estimate = record { tokens = 0; confidence = high }

unfoldable pub combine_estimates : Estimate → Estimate → Estimate
unfolding lower_confidence
combine_estimates a b = record {
  tokens = a.tokens + b.tokens;
  confidence = lower_confidence a.confidence b.confidence;
}

pub record Scope : Type 0 where
  pub count : Text → Estimate
  pub image_tokens : ℕ

module _ (scope : Scope) where
  unfoldable pub count_text : Text → Estimate
  unfolding trim
  count_text t = if is_empty (trim t) then empty_estimate else scope.count t

  abbrev estimate_part : ContentBlock → Estimate
  estimate_part (text_part t) = count_text t
  estimate_part image = record { tokens = scope.image_tokens; confidence = low }

  -- `reduce` from the left
  estimate_parts : Estimate → List ContentBlock → Estimate
  unfolding combine_estimates count_text
  estimate_parts total [] = total
  estimate_parts total (b ∷ bs) = estimate_parts (combine_estimates total (estimate_part b)) bs

  abbrev estimate_content : Content → Estimate
  estimate_content (plain t) = count_text t
  estimate_content (parts bs) = estimate_parts empty_estimate bs

  abbrev estimate_block : Block → Estimate
  estimate_block (text_block t) = count_text t
  estimate_block (thinking t) = count_text t
  estimate_block (tool_call id name args) = count_text (name ++ text " " ++ args)

  estimate_blocks : Estimate → List Block → Estimate
  unfolding combine_estimates count_text text
  estimate_blocks total [] = total
  estimate_blocks total (b ∷ bs) = estimate_blocks (combine_estimates total (estimate_block b)) bs

  unfoldable pub estimate_message : Message → Estimate
  unfolding estimate_blocks estimate_parts combine_estimates count_text
  estimate_message (assistant content stop usage) = estimate_blocks empty_estimate content
  estimate_message (tool_result id name content) =
      combine_estimates (count_text name) (estimate_content content)
  estimate_message (other (user content)) = estimate_content content
  estimate_message (other (custom content)) = estimate_content content
  estimate_message (other (branch_summary summary)) = count_text summary
  estimate_message (other (compaction_summary summary)) = count_text summary
  estimate_message (other (bash_execution command output)) = count_text (command ++ 10 ∷ output)

  unfoldable pub estimate_messages : Estimate → List Message → Estimate
  unfolding estimate_message combine_estimates
  estimate_messages total [] = total
  estimate_messages total (m ∷ ms) =
      estimate_messages (combine_estimates total (estimate_message m)) ms

  unfoldable pub message_changes : Message → List Text → Bool
  message_changes (tool_result id name content) ids = includes ids id
  message_changes (assistant content stop usage) ids = any (calls ids) content
  message_changes (other t) ids = false

  unfoldable pub find_common_prefix_tokens : List Message → List Text → ℕ → ℕ
  unfolding message_changes estimate_message
  find_common_prefix_tokens [] ids tokens = tokens
  find_common_prefix_tokens (m ∷ ms) ids tokens =
      let rest = find_common_prefix_tokens ms ids (tokens + (estimate_message m).tokens) in
      if message_changes m ids then tokens else rest

unfoldable pub get_usage_context_tokens : Usage → ℕ
get_usage_context_tokens u =
    if ltb 0 u.total_tokens
    then u.total_tokens
    else u.input + u.output + u.cache_read + u.cache_write

abbrev stopped : StopReason → Bool
stopped ended = false
stopped _ = true

-- The loop from the end: a later message counts before an earlier one.
unfoldable pub get_last_usage : List Message → Option Usage
unfolding get_usage_context_tokens
get_last_usage [] = none
get_last_usage (assistant content stop usage ∷ ms) = elim (get_last_usage ms) [
  | some u ↦ some u
  | none ↦ if not (stopped stop) && ltb 0 (get_usage_context_tokens usage) then some usage else none
]
get_last_usage (m ∷ ms) = get_last_usage ms

abbrev wrote_cache : Message → Bool
wrote_cache (assistant content stop usage) = ltb 0 usage.cache_write
wrote_cache _ = false

unfoldable pub has_observed_cache_write : List Message → Bool
has_observed_cache_write ms = any wrote_cache ms

-- The rates of a model are known by a name each; a tier holds above its number of tokens.
pub record Tier : Type 0 where
  pub rates : ℕ
  pub input_tokens_above : ℕ

-- The threshold before any tier was taken is -1, here none.
abbrev pub above : ℕ → Option ℕ → Bool
above n none = true
above n (some t) = ltb t n

unfoldable pub select_from : ℕ → ℕ → Option ℕ → List Tier → ℕ
select_from tokens rates threshold [] = rates
select_from tokens rates threshold (t ∷ ts) =
    let taken = select_from tokens t.rates (some t.input_tokens_above) ts in
    let kept = select_from tokens rates threshold ts in
    if ltb t.input_tokens_above tokens && above t.input_tokens_above threshold then taken else kept

unfoldable pub select_rates : ℕ → List Tier → ℕ → ℕ
unfolding select_from
select_rates base tiers tokens = select_from tokens base none tiers
