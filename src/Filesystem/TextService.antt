-- ===== src/Filesystem/TextService.antt =====
-- Texts and their lines: src/filesystem/services/text.ts. Texts are UTF-16 code units; the number of
-- bytes of their encoding is a parameter.
pub mod Records
pub mod Lines
pub mod Slices
pub mod Slicing
pub mod Ranges
pub mod Paging
mod Tests
use o_pi.Common.{
  ℕ, zero, suc, ◌+◌, ◌-◌, ◌≤◌, min, drop, Text, is_empty, Bool, true, false, not, ◌&&◌, ◌||◌, List,
  [], ◌∷◌, ◌++◌, length, Option, none, some, if◌then◌else◌, ltb, leb, ◌==◌,
}

abbrev pub cr : ℕ
cr = 13

abbrev pub lf : ℕ
lf = 10

unfoldable pub is_cr : ℕ → Bool
is_cr c = c == cr

unfoldable pub is_lf : ℕ → Bool
is_lf c = c == lf

unfoldable pub is_cr_lf : ℕ → ℕ → Bool
is_cr_lf c d = c == cr && d == lf

unfoldable pub is_break : ℕ → Bool
is_break c = c == lf || c == cr

-- `text.replace(/\r\n/gu, "\n")`
unfoldable pub replace_cr_lf : Text → Text
replace_cr_lf [] = []
replace_cr_lf (c ∷ []) = c ∷ []
replace_cr_lf (c ∷ d ∷ t) = elim (is_cr_lf c d) [
  | true ↦ lf ∷ replace_cr_lf t
  | false ↦ c ∷ replace_cr_lf (d ∷ t)
]

-- `text.replace(/\r/gu, "\n")`
unfoldable pub replace_cr : Text → Text
replace_cr [] = []
replace_cr (c ∷ t) = (if is_cr c then lf else c) ∷ replace_cr t

unfoldable pub normalize_line_endings : Text → Text
unfolding replace_cr_lf replace_cr
normalize_line_endings t = replace_cr (replace_cr_lf t)

-- `text.split("\n")`, with the part that is being read.
unfoldable pub split_lines : Text → Text → List Text
split_lines part [] = part ∷ []
split_lines part (c ∷ t) = elim (is_lf c) [
  | true ↦ part ∷ split_lines [] t
  | false ↦ split_lines (part ++ (c ∷ [])) t
]

-- `text.endsWith("\n")`
unfoldable pub ends_with_lf : Text → Bool
ends_with_lf [] = false
ends_with_lf (c ∷ []) = is_lf c
ends_with_lf (c ∷ d ∷ t) = ends_with_lf (d ∷ t)

unfoldable pub pop : List Text → List Text
pop [] = []
pop (l ∷ []) = []
pop (l ∷ k ∷ ls) = l ∷ pop (k ∷ ls)

pub record LogicalLines : Type 0 where
  pub lines : List Text
  pub final_newline : Bool

abbrev pub lines_of : Text → LogicalLines
lines_of t = record {
  lines = if ends_with_lf t then pop (split_lines [] t) else split_lines [] t;
  final_newline = ends_with_lf t;
}

unfoldable pub logical_lines : Text → LogicalLines
unfolding normalize_line_endings split_lines ends_with_lf pop
logical_lines t =
    if is_empty t
    then record { lines = []; final_newline = false }
    else lines_of (normalize_line_endings t)

-- The loop of `lineRecords`, with the part from `start` up to the index.
unfoldable pub records_from : Text → Text → List Text
records_from part [] = if is_empty part then [] else part ∷ []
-- The last character ends a record in the loop if it is a line break, and behind it if it is none.
records_from part (c ∷ []) = (part ++ (c ∷ [])) ∷ []
records_from part (c ∷ d ∷ t) = elim (is_cr_lf c d) [
  | true ↦ (part ++ (c ∷ d ∷ [])) ∷ records_from [] t
  | false ↦ elim (is_break c) [
    | true ↦ (part ++ (c ∷ [])) ∷ records_from [] (d ∷ t)
    | false ↦ records_from (part ++ (c ∷ [])) (d ∷ t)
  ]
]

unfoldable pub line_records : Text → List Text
unfolding records_from
line_records t = records_from [] t

pub data NewlineKind : Type 0 where
  no_newline : NewlineKind
  mixed : NewlineKind
  crlf_only : NewlineKind
  lf_only : NewlineKind

pub record Breaks : Type 0 where
  pub lfs : ℕ
  pub crlfs : ℕ
  pub bare_crs : ℕ

-- The loop of `detectNewline`.
unfoldable pub count_newlines : Breaks → Text → Breaks
count_newlines b [] = b
count_newlines b (c ∷ []) = elim (is_cr c) [
  | true ↦ record b { bare_crs = suc b.bare_crs }
  | false ↦ if is_lf c then record b { lfs = suc b.lfs } else b
]
count_newlines b (c ∷ d ∷ t) = elim (is_cr c) [
  | true ↦ elim (is_lf d) [
    | true ↦ count_newlines (record b { crlfs = suc b.crlfs }) t
    | false ↦ count_newlines (record b { bare_crs = suc b.bare_crs }) (d ∷ t)
  ]
  | false ↦ count_newlines (if is_lf c then record b { lfs = suc b.lfs } else b) (d ∷ t)
]

abbrev pub newline_of : Breaks → NewlineKind
newline_of b =
    if b.lfs == 0 && b.crlfs == 0 && b.bare_crs == 0
    then no_newline
    else (if ltb 0 b.bare_crs || (ltb 0 b.lfs && ltb 0 b.crlfs)
        then mixed
        else (if ltb 0 b.crlfs then crlf_only else lf_only))

unfoldable pub detect_newline : Text → NewlineKind
unfolding count_newlines
detect_newline t = newline_of (count_newlines (record { lfs = 0; crlfs = 0; bare_crs = 0 }) t)
