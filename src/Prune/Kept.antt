-- ===== src/Prune/Kept.antt =====
-- What pruning leaves as it was: src/prune/prune.ts, `pruneToolTransactions`.
use o_pi.Common.{
  ◌⊎◌, ◌+◌, Text, Bool, true, false, not, List, [], ◌∷◌, ◌++◌, any, keep, length, is_empty,
  includes, ◌≡◌, refl, ap, sym, ◌∙◌, inl, inr, arith, Bool-cases, length-append,
}
use o_pi.Prune.{
  Block, text_block, thinking, tool_call, StopReason, Usage, OtherMessage, Message, assistant,
  tool_result, other, PruneResult, calls, calls_other, block_stays, prune_assistant,
  prune_tool_transactions,
}

-- The ids of the tool calls of a history, in order.
abbrev pub block_calls : List Block → List Text
block_calls [] = []
block_calls (tool_call id name args ∷ bs) = id ∷ block_calls bs
block_calls (_ ∷ bs) = block_calls bs

abbrev pub all_calls : List Message → List Text
all_calls [] = []
all_calls (assistant content stop usage ∷ ms) = block_calls content ++ all_calls ms
all_calls (_ ∷ ms) = all_calls ms

abbrev pub all_results : List Message → List Text
all_results [] = []
all_results (tool_result id name content ∷ ms) = id ∷ all_results ms
all_results (_ ∷ ms) = all_results ms

-- The texts that assistants wrote and the messages of other roles, in order.
abbrev pub block_texts : List Block → List (Text ⊎ OtherMessage)
block_texts [] = []
block_texts (text_block t ∷ bs) = inl t ∷ block_texts bs
block_texts (_ ∷ bs) = block_texts bs

abbrev pub all_texts : List Message → List (Text ⊎ OtherMessage)
all_texts [] = []
all_texts (assistant content stop usage ∷ ms) = block_texts content ++ all_texts ms
all_texts (other t ∷ ms) = inr t ∷ all_texts ms
all_texts (_ ∷ ms) = all_texts ms

abbrev pub outside : List Text → Text → Bool
outside ids id = not (includes ids id)

keep-append {ℓ} :
    {A : Type ℓ} (p : A → Bool) (xs ys : List A) → keep p (xs ++ ys) ≡ keep p xs ++ keep p ys
keep-append p [] ys = refl
keep-append p (x ∷ xs) ys = ground (arith, keep-append p xs ys)

module _ (ids : List Text) where
  calls_left :
      (b : Bool) (content : List Block)
      → block_calls (keep (block_stays ids b) content) ≡ keep (outside ids) (block_calls content)
  calls_left b [] = refl
  calls_left b (text_block t ∷ bs) = calls_left b bs
  calls_left true (thinking t ∷ bs) = calls_left true bs
  calls_left false (thinking t ∷ bs) = calls_left false bs
  calls_left b (tool_call id name args ∷ bs) = ground (arith, calls_left b bs)

  texts_left :
      (b : Bool) (content : List Block)
      → block_texts (keep (block_stays ids b) content) ≡ block_texts content
  texts_left b [] = refl
  texts_left b (text_block t ∷ bs) = ground (arith, texts_left b bs)
  texts_left true (thinking t ∷ bs) = texts_left true bs
  texts_left false (thinking t ∷ bs) = texts_left false bs
  texts_left b (tool_call id name args ∷ bs) = ground (arith, texts_left b bs)

  none_removed :
      (content : List Block)
      → is_empty (keep (calls ids) content) ≡ true
      → keep (outside ids) (block_calls content) ≡ block_calls content
  none_removed [] h = refl
  none_removed (text_block t ∷ bs) h = none_removed bs h
  none_removed (thinking t ∷ bs) h = none_removed bs h
  none_removed (tool_call id name args ∷ bs) h = ground (arith, none_removed bs)

  length-calls :
      (content : List Block)
      → length (keep (calls ids) content) + length (keep (outside ids) (block_calls content))
        ≡ length (block_calls content)
  length-calls [] = omega arith
  length-calls (text_block t ∷ bs) = length-calls bs
  length-calls (thinking t ∷ bs) = length-calls bs
  length-calls (tool_call id name args ∷ bs) = ground (arith, length-calls bs)

  empty_eq {ℓ} : {A : Type ℓ} (l : List A) → is_empty l ≡ true → l ≡ []
  empty_eq [] h = refl
  empty_eq (x ∷ l) h = cc

  module _ (content : List Block) (stop : StopReason) (usage : Usage) (rest : PruneResult) where
    abbrev after : PruneResult
    after = prune_assistant ids content stop usage rest

    abbrev stays : List Block
    stays = keep (block_stays ids (any (calls_other ids) content)) content

    -- The three ways of one message.
    data Way : Type 0 where
      untouched :
          is_empty (keep (calls ids) content) ≡ true
          → after ≡ record rest { messages = assistant content stop usage ∷ rest.messages }
          → Way
      dropped :
          stays ≡ []
          → after ≡ record rest {
            removed_assistant_messages = rest.removed_assistant_messages + 1;
            removed_tool_calls = rest.removed_tool_calls + length (keep (calls ids) content);
          }
          → Way
      shortened :
          after ≡ record rest {
            messages = assistant stays stop usage ∷ rest.messages;
            removed_tool_calls = rest.removed_tool_calls + length (keep (calls ids) content);
          }
          → Way

    way : Way
    unfolding prune_assistant
    way = elim (Bool-cases (is_empty (keep (calls ids) content))) [
      | inl e ↦ untouched e (rw e refl)
      | inr e ↦ elim (Bool-cases (is_empty stays)) [
        | inl f ↦ dropped (empty_eq stays f) (rw (e, f) refl)
        | inr f ↦ shortened (rw (e, f) refl)
      ]
    ]

    left_calls :
        all_calls after.messages
        ≡ keep (outside ids) (block_calls content) ++ all_calls rest.messages
    left_calls = elim way [
      | untouched e f ↦ rw f (ap (λ l. l ++ all_calls rest.messages) (sym (none_removed content e)))
      | dropped e f ↦
          rw f
            (ap (λ l. l ++ all_calls rest.messages) (sym (ap block_calls e) ∙ calls_left _ content))
      | shortened f ↦ rw f (ap (λ l. l ++ all_calls rest.messages) (calls_left _ content))
    ]

    left_texts : all_texts after.messages ≡ block_texts content ++ all_texts rest.messages
    left_texts = elim way [
      | untouched e f ↦ rw f refl
      | dropped e f ↦
          rw f
            (ap (λ l. l ++ all_texts rest.messages) (sym (ap block_texts e) ∙ texts_left _ content))
      | shortened f ↦ rw f (ap (λ l. l ++ all_texts rest.messages) (texts_left _ content))
    ]

    left_results : all_results after.messages ≡ all_results rest.messages
    left_results = elim way [
      | untouched e f ↦ rw f refl
      | dropped e f ↦ rw f refl
      | shortened f ↦ rw f refl
    ]

    left_counts :
        (after.removed_tool_calls ≡ rest.removed_tool_calls + length (keep (calls ids) content))
        × (after.removed_tool_results ≡ rest.removed_tool_results)
        × (after.removed_assistant_messages + length after.messages
            ≡ rest.removed_assistant_messages + length rest.messages + 1)
    left_counts = elim way [
      | untouched e f ↦ rw f (omega (arith, ap length (empty_eq _ e)), refl, omega arith)
      | dropped e f ↦ rw f (refl, refl, omega arith)
      | shortened f ↦ rw f (refl, refl, omega arith)
    ]

-- The calls and the results that stay are those outside the set, in their order, and the texts of
-- assistants and the messages of other roles all stay, in their order.
pub prune_keeps :
    (ms : List Message) (ids : List Text)
    → (all_calls (prune_tool_transactions ms ids).messages ≡ keep (outside ids) (all_calls ms))
      × (all_results (prune_tool_transactions ms ids).messages
          ≡ keep (outside ids) (all_results ms))
      × (all_texts (prune_tool_transactions ms ids).messages ≡ all_texts ms)
unfolding prune_tool_transactions
prune_keeps [] ids = (refl, refl, refl)
prune_keeps (tool_result id name content ∷ ms) ids =
    let (a, b, c) = prune_keeps ms ids in (ground arith, ground arith, ground arith)
prune_keeps (other t ∷ ms) ids = let (a, b, c) = prune_keeps ms ids in (a, b, ap (λ l. inr t ∷ l) c)
prune_keeps (assistant content stop usage ∷ ms) ids =
    let (a, b, c) = prune_keeps ms ids in
    let rest = prune_tool_transactions ms ids in
    (
      left_calls ids content stop usage rest
          ∙ ap (λ l. keep (outside ids) (block_calls content) ++ l) a
          ∙ sym (keep-append (outside ids) (block_calls content) (all_calls ms)),
      left_results ids content stop usage rest ∙ b,
      left_texts ids content stop usage rest ∙ ap (λ l. block_texts content ++ l) c,
    )

-- The counts of the result are exact: what is counted as removed and what stays make the whole.
pub prune_counts :
    (ms : List Message) (ids : List Text)
    → let r = prune_tool_transactions ms ids in
      (r.removed_tool_calls + length (all_calls r.messages) ≡ length (all_calls ms))
      × (r.removed_tool_results + length (all_results r.messages) ≡ length (all_results ms))
      × (r.removed_assistant_messages + r.removed_tool_results + length r.messages ≡ length ms)
unfolding prune_tool_transactions
prune_counts [] ids = omega arith
prune_counts (tool_result id name content ∷ ms) ids =
    let (a, b, c) = prune_counts ms ids in (ground arith, ground arith, ground arith)
prune_counts (other t ∷ ms) ids = let (a, b, c) = prune_counts ms ids in (a, b, omega arith)
prune_counts (assistant content stop usage ∷ ms) ids =
    let (a, b, c) = prune_counts ms ids in
    let rest = prune_tool_transactions ms ids in
    let (d, e, f) = left_counts ids content stop usage rest in
    (
      omega (
        arith,
        ap length (left_calls ids content stop usage rest),
        length-append (keep (outside ids) (block_calls content)) (all_calls rest.messages),
        length-append (block_calls content) (all_calls ms),
        length-calls ids content,
      ),
      omega (arith, ap length (left_results ids content stop usage rest)),
      omega arith,
    )
