-- ===== src/Filesystem/TextService/Slices.antt =====
-- Ranges of lines: src/filesystem/services/text.ts. The number of bytes of the encoding of a text is a
-- parameter.
use o_pi.Common.{
  ℕ, zero, suc, ◌+◌, ◌-◌, min, drop, Text, Bool, true, false, not, ◌&&◌, ◌||◌, List, [], ◌∷◌, ◌++◌,
  length, Option, none, some, if◌then◌else◌, ltb, leb, ◌==◌,
}
use o_pi.Filesystem.TextService.{NewlineKind, detect_newline, logical_lines, line_records}
use o_pi.Filesystem.TextService.Records.{concat}

pub record SliceOptions : Type 0 where
  pub start_line : Option ℕ
  pub end_line : Option ℕ
  pub max_lines : ℕ
  pub max_bytes : ℕ

pub record TextContent : Type 0 where
  pub text : Text
  pub total_lines : ℕ
  pub newline : NewlineKind
  pub has_bom : Bool

pub data SliceError : Type 0 where
  start_line_not_positive : SliceError
  end_line_not_positive : SliceError
  start_line_behind_end_line : SliceError
  limits_not_positive : SliceError
  start_line_behind_file : SliceError
  line_too_large : SliceError

pub record TextSlice : Type 0 where
  pub content : Text
  pub start_line : ℕ
  pub end_line : ℕ
  pub is_truncated : Bool
  pub continuation : Option ℕ

pub data SliceResult : Type 0 where
  fails : SliceError → SliceResult
  slices : TextSlice → SliceResult

unfoldable pub has_utf8_bom : List ℕ → Bool
has_utf8_bom (a ∷ b ∷ c ∷ bytes) = a == 239 && b == 187 && c == 191
has_utf8_bom _ = false

-- The bytes of a file, and the text that they decode to, which `TextContent` keeps beside the rest.
unfoldable pub describe_text : List ℕ → Text → TextContent
unfolding logical_lines detect_newline has_utf8_bom
describe_text bytes t = record {
  text = t;
  total_lines = length (logical_lines t).lines;
  newline = detect_newline t;
  has_bom = has_utf8_bom bytes;
}

abbrev not_positive : Option ℕ → Bool
not_positive none = false
not_positive (some n) = ltb n 1

abbrev behind : Option ℕ → Option ℕ → Bool
behind (some m) (some n) = ltb n m
behind _ _ = false

-- `Number.MAX_SAFE_INTEGER`
abbrev pub max_safe : ℕ
max_safe = 9007199254740991

abbrev is_limit : ℕ → Bool
is_limit n = leb n max_safe && not (ltb n 1)

unfoldable pub validate_slice_options : SliceOptions → Option SliceError
validate_slice_options o =
    if not_positive o.start_line
    then some start_line_not_positive
    else (if not_positive o.end_line
        then some end_line_not_positive
        else (if behind o.start_line o.end_line
            then some start_line_behind_end_line
            else (if is_limit o.max_bytes && is_limit o.max_lines
                then none
                else some limits_not_positive)))

abbrev pub or_else : Option ℕ → ℕ → ℕ
or_else none n = n
or_else (some m) n = m

pub data Taken : Type 0 where
  too_large : Taken
  -- The selected records and the next line, if there is more than fits.
  taken : List Text → Option ℕ → Taken

module _ (byte_length : Text → ℕ) where
  -- The loop: the number of lines that are left of the range, the line and the records from there on,
  -- and what is selected.
  unfoldable pub slice_loop : SliceOptions → ℕ → ℕ → List Text → List Text → ℕ → Taken
  slice_loop o zero line rest selected bytes = taken selected none
  slice_loop o (suc lines) line [] selected bytes = taken selected none
  slice_loop o (suc lines) line (r ∷ rest) selected bytes =
      let more =
        slice_loop o lines (suc line) rest (selected ++ (r ∷ [])) (bytes + byte_length r) in
      if ltb o.max_bytes (byte_length r)
      then too_large
      else (if leb o.max_lines (length selected) || ltb o.max_bytes (bytes + byte_length r)
          then taken selected (some line)
          else more)

  abbrev is_some : Option ℕ → Bool
  is_some none = false
  is_some (some n) = true

  abbrev pub slice_of : ℕ → Taken → SliceResult
  slice_of start too_large = fails line_too_large
  slice_of start (taken selected next) = slices (record {
    content = concat selected;
    start_line = start;
    end_line = if length selected == 0 then start - 1 else start + length selected - 1;
    is_truncated = is_some next;
    continuation = next;
  })

  abbrev pub slice_from : TextContent → SliceOptions → ℕ → SliceResult
  slice_from file o start =
      if ltb file.total_lines start
      then fails start_line_behind_file
      else slice_of start (
          slice_loop o (suc (min (or_else o.end_line file.total_lines) file.total_lines) - start)
            start (drop (start - 1) (line_records file.text)) [] 0)

  abbrev slice_valid : TextContent → SliceOptions → Option SliceError → SliceResult
  slice_valid file o (some e) = fails e
  slice_valid file o none =
      if file.total_lines == 0
      then slices (record {
        content = [];
        start_line = 1;
        end_line = 0;
        is_truncated = false;
        continuation = none;
      })
      else slice_from file o (or_else o.start_line 1)

  unfoldable pub slice_text_by_line_range : TextContent → SliceOptions → SliceResult
  unfolding validate_slice_options slice_loop line_records drop concat
  slice_text_by_line_range file o = slice_valid file o (validate_slice_options o)
