-- ===== src/Prune/State/Visible.antt =====
-- Which tool calls the model still sees: src/prune/prune.ts, `findVisibleToolCallIds`.
use o_pi.Common.{
  subst, Text, true, List, [], ◌∷◌, In, In-append, In-append_left, In-append_right, In-keep,
  includes, includes_iff, Option, none, some, ◌≡◌, refl, sym, inl, inr, ◌↔◌, Bool-cases,
}
use o_pi.Prune.{
  Block, text_block, thinking, tool_call, Message, assistant, tool_result, other,
  find_completed_tool_call_ids, completed_ids, call_ids, result_ids, prune_tool_transactions,
}
use o_pi.Prune.Kept.{block_calls, all_calls, all_results, outside, prune_keeps}
use o_pi.Prune.State.{
  PruneState, ids_of, apply_state, Entry, read_prune_state, pruned_ids, state_ids,
  apply_persisted_tool_pruning, find_visible_tool_call_ids,
}

module _ (id : Text) where
  outside_iff : (ids : List Text) → (outside ids id ≡ true) ↔ (¬ (In id ids))
  outside_iff ids = (
    (λ h i. cc (h, (includes_iff ids id).1 i)),
    λ h. elim (Bool-cases (includes ids id)) [
      | inl e ↦ absurd (h ((includes_iff ids id).0 e))
      | inr e ↦ rw e refl
    ],
  )

  results_iff : (ms : List Message) → In id (result_ids [] ms) ↔ In id (all_results ms)
  unfolding result_ids includes
  results_iff [] = (λ h. h, λ h. h)
  results_iff (tool_result i name content ∷ ms) = (
    (λ h. elim h [ inl e ↦ inl e | inr k ↦ inr ((results_iff ms).0 k) ]),
    λ h. elim h [ inl e ↦ inl e | inr k ↦ inr ((results_iff ms).1 k) ],
  )
  results_iff (assistant content stop usage ∷ ms) = results_iff ms
  results_iff (other t ∷ ms) = results_iff ms

  block_iff :
      (results : List Text) (bs : List Block)
      → In id (call_ids [] results bs) ↔ (In id (block_calls bs) × In id results)
  unfolding call_ids includes
  block_iff results [] = (λ h. elim h [ ], λ h. h.0)
  block_iff results (text_block t ∷ bs) = block_iff results bs
  block_iff results (thinking t ∷ bs) = block_iff results bs
  block_iff results (tool_call i name args ∷ bs) =
      let (to, from) = block_iff results bs in
      elim (Bool-cases (includes results i)) [
        | inl e ↦ rw e (
          (λ h. elim h [
            | inl p ↦ (inl p, subst (λ x. In x results) p ((includes_iff results i).0 e))
            | inr k ↦ (inr (to k).0, (to k).1)
          ]),
          λ h. elim h.0 [ inl p ↦ inl p | inr k ↦ inr (from (k, h.1)) ],
        )
        | inr e ↦ rw e (
          (λ h. (inr (to h).0, (to h).1)),
          λ h. elim h.0 [
            | inl p ↦
                absurd (cc (e, (includes_iff results i).1 (subst (λ x. In x results) (sym p) h.1)))
            | inr k ↦ from (k, h.1)
          ],
        )
      ]

  completed_iff :
      (results : List Text) (ms : List Message)
      → In id (completed_ids [] results ms) ↔ (In id (all_calls ms) × In id results)
  unfolding completed_ids
  completed_iff results [] = (λ h. elim h [ ], λ h. h.0)
  completed_iff results (tool_result i name content ∷ ms) = completed_iff results ms
  completed_iff results (other t ∷ ms) = completed_iff results ms
  completed_iff results (assistant content stop usage ∷ ms) =
      let (to, from) = completed_iff results ms in
      let (here, back) = block_iff results content in
      (
        (λ h. elim (In-append id (call_ids [] results content) (completed_ids [] results ms) h) [
          | inl k ↦ (In-append_left id (block_calls content) (all_calls ms) (here k).0, (here k).1)
          | inr k ↦ (In-append_right id (block_calls content) (all_calls ms) (to k).0, (to k).1)
        ]),
        λ h. elim (In-append id (block_calls content) (all_calls ms) h.0) [
          | inl k ↦
              In-append_left id (call_ids [] results content) (completed_ids [] results ms)
                (back (k, h.1))
          | inr k ↦
              In-append_right id (call_ids [] results content) (completed_ids [] results ms)
                (from (k, h.1))
        ],
      )

-- A call is found completed exactly when the history holds the call and a result for it.
pub find_completed_iff :
    (id : Text) (ms : List Message)
    → In id (find_completed_tool_call_ids ms []) ↔ (In id (all_calls ms) × In id (all_results ms))
unfolding find_completed_tool_call_ids
find_completed_iff id ms =
    let c = completed_iff id (result_ids [] ms) ms in
    let r = results_iff id ms in ((λ h. ((c.0 h).0, r.0 (c.0 h).1)), λ h. c.1 (h.0, r.1 h.1))

pruned_iff :
    (id : Text) (ms : List Message) (ids : List Text)
    → let left = (prune_tool_transactions ms ids).messages in
      (In id (all_calls left) × In id (all_results left))
      ↔ (In id (all_calls ms) × In id (all_results ms) × (¬ (In id ids)))
pruned_iff id ms ids =
    let (calls, results, texts) = prune_keeps ms ids in
    let c = In-keep (outside ids) (all_calls ms) id in
    let r = In-keep (outside ids) (all_results ms) id in
    let o = outside_iff id ids in
    (
      (λ h.
          let (a, p) = c.0 (subst (In id) calls h.0) in
          let (b, q) = r.0 (subst (In id) results h.1) in (a, b, o.0 p)),
      λ h. (
        subst (In id) (sym calls) (c.1 (h.0, o.1 h.2)),
        subst (In id) (sym results) (r.1 (h.1, o.1 h.2)),
      ),
    )

-- A call is visible exactly when the unpruned history holds it with a result and the last prune
-- state of the session does not list it.
pub visible_iff :
    (id : Text) (ms : List Message) (es : List Entry)
    → In id (find_visible_tool_call_ids ms es)
      ↔ (In id (all_calls ms) × In id (all_results ms) × (¬ (In id (pruned_ids es))))
unfolding find_visible_tool_call_ids apply_persisted_tool_pruning
visible_iff id ms es = go (read_prune_state es)
  where
    go :
        (o : Option PruneState)
        → In id (find_completed_tool_call_ids (apply_state ms o) [])
          ↔ (In id (all_calls ms) × In id (all_results ms) × (¬ (In id (ids_of o))))
    go none =
        let (to, from) = find_completed_iff id ms in
        ((λ h. ((to h).0, (to h).1, λ k. k)), λ h. from (h.0, h.1))
    go (some s) =
        let (to, from) =
          find_completed_iff id (prune_tool_transactions ms (state_ids s)).messages in
        let (there, back) = pruned_iff id ms (state_ids s) in
        ((λ h. there (to h)), λ h. from (back h))
