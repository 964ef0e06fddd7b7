-- ===== src/Prune/Cost/CommonPrefix.antt =====
-- The tokens that a pruning leaves in front: src/prune/prune.ts.
use o_pi.Common.{
  ℕ, ◌+◌, Text, Bool, true, false, List, [], ◌∷◌, ◌++◌, any, keep, ◌≡◌, ◌≢◌, is_empty, inl, inr,
  refl, ap, ◌∙◌, arith, Bool-cases,
}
use o_pi.Prune.{
  Block, text_block, thinking, tool_call, Message, assistant, tool_result, other, calls,
  calls_other, block_stays, prune_tool_transactions, prune_assistant,
}
use o_pi.Prune.Cost.{Scope, estimate_message, message_changes, find_common_prefix_tokens}

keep-none : (p : Block → Bool) (bs : List Block) → any p bs ≡ false → keep p bs ≡ []
keep-none p [] h = refl
keep-none p (b ∷ bs) h = ground (arith, keep-none p bs)

keep-some : (p : Block → Bool) (bs : List Block) → any p bs ≡ true → is_empty (keep p bs) ≡ false
keep-some p [] h = cc
keep-some p (b ∷ bs) h = elim (Bool-cases (p b)) [
  | inl e ↦ rw e refl
  | inr e ↦ rw e (keep-some p bs (ground arith))
]

block_stays-calls :
    (ids : List Text) (remaining : Bool) (b : Block)
    → block_stays ids remaining b ≡ true
    → calls ids b ≡ false
block_stays-calls ids remaining (text_block t) h = refl
block_stays-calls ids remaining (thinking t) h = refl
block_stays-calls ids remaining (tool_call id name args) h = ground arith

-- No call of a removed id is among the blocks that stay.
no_calls_left :
    (ids : List Text) (remaining : Bool) (bs : List Block)
    → any (calls ids) (keep (block_stays ids remaining) bs) ≡ false
no_calls_left ids remaining [] = refl
no_calls_left ids remaining (b ∷ bs) = elim (Bool-cases (block_stays ids remaining b)) [
  | inl e ↦ rw (e, block_stays-calls ids remaining b e) (no_calls_left ids remaining bs)
  | inr e ↦ rw e (no_calls_left ids remaining bs)
]

first_content : List Message → List Block
first_content (assistant content stop usage ∷ ms) = content
first_content _ = []

module _ (scope : Scope) where
  -- A message that is said to change does not come out of the pruning as it is.
  changed-pruned :
      (m : Message) (ids : List Text)
      → message_changes scope m ids ≡ true
      → (prune_tool_transactions (m ∷ []) ids).messages ≢ m ∷ []
  unfolding message_changes prune_tool_transactions prune_assistant first_content
  changed-pruned (tool_result id name content) ids h = rw h (λ e. cc)
  changed-pruned (other t) ids h = cc
  changed-pruned (assistant content stop usage) ids h =
      let left = keep (block_stays ids (any (calls_other ids) content)) content in
      rw (keep-some (calls ids) content h) (elim (Bool-cases (is_empty left)) [
        | inl e ↦ rw e (λ p. cc)
        | inr e ↦ rw e (λ p. cc (
          ap (any (calls ids)) (ap first_content p),
          h,
          no_calls_left ids (any (calls_other ids) content) content,
        ))
      ])

  -- A message that does not change stands as it is in front of the pruned rest.
  unchanged-kept :
      (m : Message) (ms : List Message) (ids : List Text)
      → message_changes scope m ids ≡ false
      → (prune_tool_transactions (m ∷ ms) ids).messages
        ≡ m ∷ (prune_tool_transactions ms ids).messages
  unfolding message_changes prune_tool_transactions prune_assistant
  unchanged-kept (tool_result id name content) ms ids h = rw h refl
  unchanged-kept (other t) ms ids h = refl
  unchanged-kept (assistant content stop usage) ms ids h = rw (keep-none (calls ids) content h) refl

  unfoldable pub sum_tokens : List Message → ℕ
  sum_tokens [] = 0
  sum_tokens (m ∷ ms) = (estimate_message scope m).tokens + sum_tokens ms

  abbrev pub StartsChanged : List Message → List Text → Type 0
  StartsChanged [] ids = Unit
  StartsChanged (m ∷ ms) ids = (prune_tool_transactions (m ∷ []) ids).messages ≢ m ∷ []

  pub record Prefix (ms : List Message) (ids : List Text) (static : ℕ) : Type 0 where
    pub front : List Message
    pub rest : List Message
    pub split : ms ≡ front ++ rest
    pub left :
        (prune_tool_transactions ms ids).messages
        ≡ front ++ (prune_tool_transactions rest ids).messages
    pub changed : StartsChanged rest ids
    pub tokens : find_common_prefix_tokens scope ms ids static ≡ static + sum_tokens front

  -- The messages fall into a front, which pruning leaves as it is, and a rest that is empty or begins
  -- with a message that pruning, applied to it alone, does not give back; the common prefix counts the given tokens and the front's.
  pub common_prefix-Prefix :
      (ms : List Message) (ids : List Text) (static : ℕ) → Prefix ms ids static
  unfolding find_common_prefix_tokens sum_tokens
  common_prefix-Prefix [] ids static = record {
    front = [];
    rest = [];
    split = refl;
    left = refl;
    changed = tt;
    tokens = omega arith;
  }
  common_prefix-Prefix (m ∷ ms) ids static = elim (Bool-cases (message_changes scope m ids)) [
    | inl e ↦ record {
      front = [];
      rest = m ∷ ms;
      split = refl;
      left = refl;
      changed = changed-pruned m ids e;
      tokens = rw e (omega arith);
    }
    | inr e ↦
        let p = common_prefix-Prefix ms ids (static + (estimate_message scope m).tokens) in
        record {
          front = m ∷ p.front;
          rest = p.rest;
          split = ap (λ l. m ∷ l) p.split;
          left = unchanged-kept m ms ids e ∙ ap (λ l. m ∷ l) p.left;
          changed = p.changed;
          tokens = rw e (omega (arith, p.tokens));
        }
  ]
