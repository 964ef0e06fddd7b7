-- ===== src/Filesystem/TextService/Paging.antt =====
-- Reading a file in pages: src/filesystem/services/text.ts. Each page asks for the line that the one
-- before it names as its continuation.
use o_pi.Common.{
  ℕ, zero, suc, ◌+◌, ◌-◌, ◌≤◌, ◌<◌, drop, drop-all, drop-append, Text, List, [], ◌∷◌, ◌++◌,
  append_assoc, append-nil, length, length-append, Option, none, some, ◌≡◌, ◌⊎◌, refl, sym, ap,
  subst, ◌∙◌, arith, inl, inr, All,
}
use o_pi.Filesystem.TextService.{line_records}
use o_pi.Filesystem.TextService.Records.{concat, line_records-whole}
use o_pi.Filesystem.TextService.Slices.{
  SliceOptions, TextSlice, SliceResult, fails, slices, describe_text, max_safe,
  validate_slice_options, slice_text_by_line_range,
}
use o_pi.Filesystem.TextService.Ranges.{
  Outcome, invalid, no_lines, beyond, no_room, reads, Page, slice_text_by_line_range-Outcome,
}

abbrev pub page_from : ℕ → ℕ → ℕ → SliceOptions
page_from lines bytes start = record {
  start_line = some start;
  end_line = none;
  max_lines = lines;
  max_bytes = bytes;
}

abbrev behind : Text → Option Text → Option Text
behind page none = none
behind page (some rest) = some (page ++ rest)

abbrev continued : (ℕ → Option Text) → Text → Option ℕ → Option Text
continued next page none = some page
continued next page (some n) = behind page (next n)

abbrev follow : (ℕ → Option Text) → SliceResult → Option Text
follow next (fails e) = none
follow next (slices s) = continued next s.content s.continuation

All-drop : (P : Text → Type 0) (n : ℕ) (rs : List Text) → All P rs → All P (drop n rs)
unfolding drop
All-drop P zero rs a = a
All-drop P (suc n) [] a = a
All-drop P (suc n) (r ∷ rs) (p, a) = All-drop P n rs a

All_middle :
    (P : Text → Type 0) (front : List Text) (r : Text) (back : List Text)
    → All P (front ++ r ∷ back)
    → P r
All_middle P [] r back (p, a) = p
All_middle P (f ∷ front) r back (p, a) = All_middle P front r back a

ℕ-cases : (n : ℕ) → (n ≡ 0) ⊎ (0 < n)
ℕ-cases zero = inl refl
ℕ-cases (suc n) = inr (omega arith)

concat-append : (rs ss : List Text) → concat (rs ++ ss) ≡ concat rs ++ concat ss
unfolding concat
concat-append [] ss = refl
concat-append (r ∷ rs) ss = rw (concat-append rs ss) (sym (append_assoc r (concat rs) (concat ss)))

concat_none : (rs : List Text) → length rs ≡ 0 → concat rs ≡ []
unfolding concat
concat_none [] e = refl
concat_none (r ∷ rs) e = absurd (omega arith)

module _ (byte_length : Text → ℕ) (raw : List ℕ) (t : Text) (lines bytes : ℕ) where
  -- The pages from a line on, as one text.
  unfoldable pub read_pages : ℕ → ℕ → Option Text
  unfolding slice_text_by_line_range describe_text
  read_pages zero start = none
  read_pages (suc fuel) start =
      follow (read_pages fuel)
        (slice_text_by_line_range byte_length (describe_text raw t) (page_from lines bytes start))

  valid :
      0 < lines
      → lines ≤ max_safe
      → 0 < bytes
      → bytes ≤ max_safe
      → (start : ℕ) → 0 < start
      → validate_slice_options (page_from lines bytes start) ≡ none
  unfolding validate_slice_options
  valid l m b n start pos = ground arith

  module _ (small : All (λ r. byte_length r ≤ bytes) (line_records t))
      (accepted : (start : ℕ)
        → 0 < start
        → validate_slice_options (page_from lines bytes start) ≡ none) where
    abbrev from : ℕ → Text
    from start = concat (drop (start - 1) (line_records t))

    rest_of :
        (start : ℕ) (s : TextSlice) (p : Page byte_length (page_from lines bytes start) t s)
        → from start ≡ s.content ++ from (suc s.end_line)
    rest_of start s p =
        let here : start - 1 ≡ length p.before = omega (arith, p.starts.1) in
        let there : suc s.end_line - 1 ≡ length (p.before ++ p.front) =
          omega (arith, p.ends, length-append p.before p.front) in
        let all = p.split ∙ append_assoc p.before p.front p.back in
        let rest : drop (length (p.before ++ p.front)) (line_records t) ≡ p.back =
          ap (drop (length (p.before ++ p.front))) p.split
          ∙ drop-append (p.before ++ p.front) p.back in
        let both : drop (length p.before) (line_records t) ≡ p.front ++ p.back =
          ap (drop (length p.before)) all ∙ drop-append p.before (p.front ++ p.back) in
        rw (here, there, rest, both, p.content) (concat-append p.front p.back)

    nothing_behind : from (suc (length (line_records t))) ≡ []
    unfolding concat
    nothing_behind =
        let e : suc (length (line_records t)) - 1 ≡ length (line_records t) = omega arith in
        rw (e, drop-all (length (line_records t)) (line_records t) (omega arith)) refl

    follow-from :
        (start : ℕ) (next : ℕ → Option Text) (r : SliceResult)
        → 0 < start
        → start ≤ length (line_records t)
        → ((n : ℕ) → start < n → n ≤ length (line_records t) → next n ≡ some (from n))
        → Outcome byte_length (page_from lines bytes start) t r
        → follow next r ≡ some (from start)
    follow-from start next (fails e) pos there rec (invalid h) =
        let v = accepted start pos in absurd cc
    follow-from start next (fails e) pos there rec (beyond g h) = absurd (omega arith)
    follow-from start next (fails x) pos there rec (no_room front r back e l f b) =
        let h =
          All_middle (λ q. byte_length q ≤ bytes) front r back
            (subst (All (λ q. byte_length q ≤ bytes)) e
              (All-drop (λ q. byte_length q ≤ bytes) (start - 1) (line_records t) small)) in
        absurd (omega arith)
    follow-from start next (slices s) pos there rec (no_lines h c k tr) =
        absurd (omega (arith, ap length h))
    follow-from start next (slices s) pos there rec (reads p) =
        let split = rest_of start s p in
        elim p.goes_on [
          | inl g ↦
              let last : s.end_line ≡ length (line_records t) = omega (arith, g.reached) in
              rw (g.continuation, split, last, nothing_behind)
                (ap some (sym (append-nil s.content)))
          | inr g ↦
              let h =
                rec (suc s.end_line) (omega (arith, p.ends, p.starts.1, p.moves))
                  (omega (arith, g.inside)) in
              rw (g.continuation, h, split) refl
        ]

    read_pages-from :
        (fuel start : ℕ)
        → 0 < start
        → start ≤ length (line_records t)
        → length (line_records t) < fuel + start
        → read_pages fuel start ≡ some (from start)
    unfolding read_pages
    read_pages-from zero start pos there f = absurd (omega arith)
    read_pages-from (suc fuel) start pos there f =
        follow-from start (read_pages fuel) _ pos there
          (λ n h l. read_pages-from fuel n (omega arith) l (omega arith))
          (slice_text_by_line_range-Outcome byte_length raw t (page_from lines bytes start))

    follow-empty :
        (next : ℕ → Option Text) (r : SliceResult)
        → length (line_records t) ≡ 0
        → Outcome byte_length (page_from lines bytes 1) t r
        → follow next r ≡ some []
    unfolding drop
    follow-empty next (fails e) none' (invalid h) = let v = accepted 1 (omega arith) in absurd cc
    follow-empty next (fails e) none' (beyond g h) = absurd (omega arith)
    follow-empty next (fails x) none' (no_room front r back e l f b) =
        absurd (omega (arith, ap length e, length-append front (r ∷ back), none'))
    follow-empty next (slices s) none' (no_lines h c k tr) = rw (k, c) refl
    follow-empty next (slices s) none' (reads p) = absurd (
        omega (
          arith,
          p.moves,
          ap length p.split,
          length-append (p.before ++ p.front) p.back,
          length-append p.before p.front,
        ))

  -- If the limits are positive safe integers and no single line has more bytes than a page may have, then
  -- reading page by page from the first line on ends, after at most one page for each line and
  -- one more, and the pages together are the whole text.
  pub read_pages-whole :
      All (λ r. byte_length r ≤ bytes) (line_records t)
      → 0 < lines
      → lines ≤ max_safe
      → 0 < bytes
      → bytes ≤ max_safe
      → read_pages (suc (length (line_records t))) 1 ≡ some t
  unfolding read_pages drop concat
  read_pages-whole small l m b n = elim (ℕ-cases (length (line_records t))) [
    | inl e ↦
        follow-empty small (valid l m b n) (read_pages (length (line_records t))) _ e
          (slice_text_by_line_range-Outcome byte_length raw t (page_from lines bytes 1))
        ∙ ap some (sym (concat_none (line_records t) e) ∙ line_records-whole t)
    | inr e ↦
        read_pages-from small (valid l m b n) (suc (length (line_records t))) 1 (omega arith)
          (omega arith) (omega arith)
        ∙ ap some (line_records-whole t)
  ]
