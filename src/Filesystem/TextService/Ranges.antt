-- ===== src/Filesystem/TextService/Ranges.antt =====
-- Every outcome of a read of lines: src/filesystem/services/text.ts.
use o_pi.Common.{
  ℕ, suc, ◌+◌, ◌-◌, ◌≤◌, ◌<◌, min, take, drop, take-drop, length-take, length-drop, Text, true,
  false, List, [], ◌∷◌, ◌++◌, append_assoc, length, length-append, Option, none, some, Option-cases,
  Bool-cases, if◌then◌else◌, ltb, ◌==◌, ◌≡◌, ◌⊎◌, refl, sym, ap, subst, ◌∙◌, arith, inl, inr,
}
use o_pi.Filesystem.TextService.{line_records}
use o_pi.Filesystem.TextService.Records.{concat}
use o_pi.Filesystem.TextService.Lines.{line_records-Lines, length-Lines}
use o_pi.Filesystem.TextService.Slices.{
  SliceOptions, SliceError, start_line_behind_file, line_too_large, TextSlice, SliceResult, fails,
  slices, describe_text, validate_slice_options, or_else, Taken, slice_loop, slice_of,
  slice_text_by_line_range,
}
use o_pi.Filesystem.TextService.Slicing.{
  total, Fit, Stops, at_end, full, Loop, stuck_at, takes, slice_loop-Loop,
}

pub total_lines-records :
    (raw : List ℕ) (t : Text) → (describe_text raw t).total_lines ≡ length (line_records t)
unfolding describe_text
total_lines-records raw t = length-Lines (line_records-Lines t)

abbrev pub first_line : SliceOptions → ℕ
first_line o = or_else o.start_line 1

-- The last line that is asked for and there.
abbrev pub last_line : SliceOptions → Text → ℕ
last_line o t = min (or_else o.end_line (length (line_records t))) (length (line_records t))

-- What valid options say.
record Valid (o : SliceOptions) : Type 0 where
  start : 0 < first_line o
  ends : (n : ℕ) → first_line o ≤ n → first_line o ≤ or_else o.end_line n
  lines : 0 < o.max_lines
  bytes : 0 < o.max_bytes

abbrev options : Option ℕ → Option ℕ → ℕ → ℕ → SliceOptions
options start end lines bytes = record {
  start_line = start;
  end_line = end;
  max_lines = lines;
  max_bytes = bytes;
}

validated_options :
    (start end : Option ℕ) (lines bytes : ℕ)
    → validate_slice_options (options start end lines bytes) ≡ none
    → Valid (options start end lines bytes)
unfolding validate_slice_options
validated_options none none lines bytes h = record {
  start = omega arith;
  ends = λ n g. g;
  lines = ground arith;
  bytes = ground arith;
}
validated_options none (some e) lines bytes h = record {
  start = omega arith;
  ends = λ n g. ground arith;
  lines = ground arith;
  bytes = ground arith;
}
validated_options (some s) none lines bytes h = record {
  start = ground arith;
  ends = λ n g. g;
  lines = ground arith;
  bytes = ground arith;
}
validated_options (some s) (some e) lines bytes h = record {
  start = ground arith;
  ends = λ n g. ground arith;
  lines = ground arith;
  bytes = ground arith;
}

validated : (o : SliceOptions) → validate_slice_options o ≡ none → Valid o
validated o h = validated_options o.start_line o.end_line o.max_lines o.max_bytes h

module _ (byte_length : Text → ℕ) where
  -- More lines follow, and the next one does not fit.
  pub record Continues (o : SliceOptions) (t : Text) (front back : List Text) (s : TextSlice)
      : Type 0 where
    pub continuation : s.continuation ≡ some (suc s.end_line)
    pub truncated : s.is_truncated ≡ true
    pub inside : s.end_line < last_line o t
    pub next : Text
    pub rest : List Text
    pub follows : back ≡ next ∷ rest
    pub limited :
        (o.max_lines ≤ length front) ⊎ (o.max_bytes < total byte_length front + byte_length next)

  pub record Ends (o : SliceOptions) (t : Text) (s : TextSlice) : Type 0 where
    pub continuation : s.continuation ≡ none
    pub truncated : s.is_truncated ≡ false
    pub reached : s.end_line ≡ last_line o t

  -- One line or more of the text, and those before and behind them.
  pub record Page (o : SliceOptions) (t : Text) (s : TextSlice) : Type 0 where
    pub before : List Text
    pub front : List Text
    pub back : List Text
    pub split : line_records t ≡ before ++ front ++ back
    pub content : s.content ≡ concat front
    pub starts : (s.start_line ≡ first_line o) × (suc (length before) ≡ first_line o)
    pub moves : 0 < length front
    pub ends : s.end_line ≡ length before + length front
    pub fits : Fit byte_length o front
    pub goes_on : Ends o t s ⊎ Continues o t front back s

  pub data Outcome (o : SliceOptions) (t : Text) : SliceResult → Type 0 where
    invalid : {e : SliceError} → validate_slice_options o ≡ some e → Outcome o t (fails e)
    no_lines :
        {s : TextSlice}
        → line_records t ≡ []
        → s.content ≡ []
        → s.continuation ≡ none
        → s.is_truncated ≡ false
        → Outcome o t (slices s)
    beyond :
        0 < length (line_records t)
        → length (line_records t) < first_line o
        → Outcome o t (fails start_line_behind_file)
    no_room :
        (front : List Text) (r : Text) (back : List Text)
        → drop (first_line o - 1) (line_records t) ≡ front ++ r ∷ back
        → first_line o + length front ≤ last_line o t
        → Fit byte_length o front
        → o.max_bytes < byte_length r
        → Outcome o t (fails line_too_large)
    reads : {s : TextSlice} → Page o t s → Outcome o t (slices s)

  abbrev lines_asked : SliceOptions → Text → ℕ
  lines_asked o t = suc (last_line o t) - first_line o

  moves :
      {o : SliceOptions} {lines line : ℕ} {front back : List Text} {next : Option ℕ}
      → Valid o
      → 0 < lines
      → lines ≤ length front + length back
      → Stops byte_length o lines line front front back next
      → 0 < length front
  unfolding total
  moves v l r (at_end (inl h)) = omega arith
  moves v l r (at_end (inr h)) = omega (arith, ap length h)
  moves v l r (full q rest e n h b (inl m)) = omega (arith, v.lines)
  moves {front = []} v l r (full q rest e n h b (inr m)) = absurd (omega arith)
  moves {front = f ∷ front} v l r (full q rest e n h b (inr m)) = omega arith

  module _ (o : SliceOptions) (t : Text) (v : Valid o)
      (there : first_line o ≤ length (line_records t)) where
    abbrev records : List Text
    records = line_records t

    asked :
        (0 < lines_asked o t)
        × (lines_asked o t ≤ length (drop (first_line o - 1) records))
        × (first_line o + lines_asked o t ≡ suc (last_line o t))
    asked =
        let e = v.ends (length records) there in
        (omega arith, omega (arith, length-drop (first_line o - 1) records, v.start), omega arith)

    goes_on :
        {s : TextSlice} {front back : List Text} {next : Option ℕ}
        → Stops byte_length o (lines_asked o t) (first_line o) front front back next
        → s.continuation ≡ next
        → suc s.end_line ≡ first_line o + length front
        → length front + length back ≡ length (drop (first_line o - 1) records)
        → length front ≤ lines_asked o t
        → s.is_truncated ≡ (elim next [ none ↦ false | some n ↦ true ])
        → Ends o t s ⊎ Continues o t front back s
    goes_on (at_end (inl h)) c e l m u =
        inl (record { continuation = c; truncated = u; reached = omega (arith, asked.2) })
    goes_on (at_end (inr h)) c e l m u = inl (record {
      continuation = c;
      truncated = u;
      reached = omega (arith, asked.2, asked.1, ap length h);
    })
    goes_on (full r rest q n h b lim) c e l m u = inr (record {
      continuation = c ∙ ap some (omega arith);
      truncated = u;
      inside = omega (arith, asked.2);
      next = r;
      rest = rest;
      follows = q;
      limited = lim;
    })

    Loop-Outcome :
        {k : Taken}
        → Loop byte_length o (lines_asked o t) (first_line o) (drop (first_line o - 1) records) [] k
        → Outcome o t (slice_of byte_length (first_line o) k)
    Loop-Outcome (stuck_at front r back e l f b) =
        no_room front r back e (omega (arith, asked.2)) f b
    Loop-Outcome (takes {next} {chosen} front back e c l f s) =
        let stops =
          subst (λ x. Stops byte_length o (lines_asked o t) (first_line o) x front back next) c s in
        let whole : length front + length back ≡ length (drop (first_line o - 1) records) =
          sym (ap length e ∙ length-append front back) in
        let some' = moves v asked.0 (omega (arith, asked.1)) stops in
        let full' : (length front == 0) ≡ false = ground arith in
        let before = length-take (first_line o - 1) records in
        rw c (
          reads (record {
            before = take (first_line o - 1) records;
            front = front;
            back = back;
            split =
                sym (take-drop (first_line o - 1) records) ∙ rw e (sym (append_assoc _ front back));
            content = refl;
            starts = (refl, omega (arith, v.start));
            moves = some';
            ends = rw full' (omega (arith, v.start));
            fits = subst (Fit byte_length o) c f;
            goes_on = goes_on stops refl (rw full' (omega (arith, v.start))) whole l refl;
          }))

  no_records : (rs : List Text) → (length rs == 0) ≡ true → rs ≡ []
  no_records [] h = refl
  no_records (r ∷ rs) h = absurd (ground arith)

  valid-Outcome :
      (t : Text) (o : SliceOptions)
      → Valid o
      → Outcome o t (
          if length (line_records t) == 0
          then slices (record {
            content = [];
            start_line = 1;
            end_line = 0;
            is_truncated = false;
            continuation = none;
          })
          else (if ltb (length (line_records t)) (first_line o)
              then fails start_line_behind_file
              else slice_of byte_length (first_line o) (
                  slice_loop byte_length o
                    (lines_asked o t)
                    (first_line o)
                    (drop (first_line o - 1) (line_records t))
                    []
                    0)))
  unfolding total
  valid-Outcome t o v = elim (Bool-cases (length (line_records t) == 0)) [
    | inl e ↦ rw e (no_lines (no_records (line_records t) e) refl refl refl)
    | inr e ↦ elim (Bool-cases (ltb (length (line_records t)) (first_line o))) [
      | inl f ↦ rw (e, f) (beyond (ground arith) (ground arith))
      | inr f ↦
          let there : first_line o ≤ length (line_records t) = ground arith in
          rw (e, f)
            (Loop-Outcome o t v there (
              slice_loop-Loop byte_length o (lines_asked o t) (first_line o)
                (drop (first_line o - 1) (line_records t)) [] 0 refl
                (record { lines = omega arith; bytes = omega arith })))
    ]
  ]

  -- A read ends in one of five ways: the options are invalid; the text has no line; the range begins
  -- behind the last line; a line of the range that is reached within the limits is larger than the limit
  -- of bytes; or the slice is one line or more of the text from the first line that is asked for, within
  -- both limits, and it either ends with the range or names the line behind it, which does not fit.
  pub slice_text_by_line_range-Outcome :
      (raw : List ℕ) (t : Text) (o : SliceOptions)
      → Outcome o t (slice_text_by_line_range byte_length (describe_text raw t) o)
  unfolding slice_text_by_line_range describe_text
  slice_text_by_line_range-Outcome raw t o = elim (Option-cases (validate_slice_options o)) [
    | inr (e, h) ↦ rw h (invalid h)
    | inl h ↦ rw (h, total_lines-records raw t) (valid-Outcome t o (validated o h))
  ]
