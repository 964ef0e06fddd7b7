-- ===== src/Lsp/Changes/Applied.antt =====
-- What a server makes of a change: src/lsp/documents.ts.
use o_pi.Common.{
  ℕ, ◌+◌, ◌-◌, ◌≤◌, take, drop, slice, take-drop, drop-drop, Text, false, ◌++◌, append_assoc,
  length, ◌≡◌, sym, ap, ◌∙◌, arith,
}
use o_pi.Lsp.Changes.{
  shared_prefix, goes_on, suffix_loop, shared_suffix, splits_crlf, ContentChange,
  incremental_content_change,
}
use o_pi.Lsp.Changes.Positions.{offset_of}
use o_pi.Lsp.Changes.Reading.{offset_of-position_at}
use o_pi.Lsp.Changes.Shared.{shared_prefix-Prefix, take_same}
use o_pi.Lsp.Changes.Ending.{shared_suffix-Suffix, suffix_loop-ends}

-- The text of a server after a change, as the protocol states it: what is between the two positions is
-- replaced.
unfoldable pub apply_change : ContentChange → Text → Text
unfolding offset_of take drop
apply_change change t =
    take (offset_of t change.start) t ++ change.text ++ drop (offset_of t change.end) t

three_parts : (t : Text) (a b : ℕ) → a ≤ b → take a t ++ slice t a b ++ drop b t ≡ t
unfolding slice
three_parts t a b h =
    let e : drop b t ≡ drop (b - a) (drop a t) =
      ap (λ k. drop k t) {x = b} {y = a + (b - a)} (omega arith) ∙ sym (drop-drop (b - a) a t) in
    rw e (
      append_assoc (take a t) (take (b - a) (drop a t)) (drop (b - a) (drop a t))
      ∙ ap (λ l. take a t ++ l) (take-drop (b - a) (drop a t))
      ∙ take-drop a t)

-- Whatever the two texts are: the server that applies the change to the first one has the second one;
-- neither end of the replaced part is inside a line break; and the search for the shared end stops since
-- its condition fails.
pub apply_change-incremental :
    (previous next : Text)
    → (apply_change (incremental_content_change previous next) previous ≡ next)
      × (splits_crlf previous (shared_prefix previous next) ≡ false)
      × (splits_crlf previous
            (length previous - shared_suffix previous next (shared_prefix previous next))
          ≡ false)
      × (goes_on previous next
            (shared_prefix previous next)
            (suffix_loop (length previous) previous next (shared_prefix previous next) 0)
          ≡ false)
unfolding apply_change incremental_content_change
apply_change-incremental previous next =
    let p = shared_prefix previous next in
    let n = shared_suffix previous next p in
    let w = shared_prefix-Prefix previous next in
    let v = shared_suffix-Suffix previous next p in
    let here = w.shared.first in
    let there = v.shared.second in
    let l = w.shared.second in
    let start = offset_of-position_at previous p here w.first in
    let end = offset_of-position_at previous (length previous - n) (omega arith) v.first in
    (
      rw (start, end, take_same previous next p w.shared, v.shared.same)
          (three_parts next p (length next - n) (omega arith)),
      w.first,
      v.first,
      suffix_loop-ends (length previous) previous next p 0 (omega arith),
    )
