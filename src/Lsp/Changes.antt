-- ===== src/Lsp/Changes.antt =====
-- The change that turns one text of a document into the next: src/lsp/documents.ts. Texts are UTF-16
-- code units, as the offsets are.
pub mod Positions
pub mod Steps
pub mod Reading
pub mod Splits
pub mod Shared
pub mod Ending
pub mod Applied
use o_pi.Common.{
  ℕ, zero, suc, ◌+◌, ◌-◌, min, take, drop, slice, Text, Bool, true, false, ◌&&◌, ◌||◌, List, [],
  ◌∷◌, ◌++◌, length, Option, none, some, if◌then◌else◌, ltb, leb, ◌==◌,
}
use o_pi.Filesystem.TextService.{cr, lf, is_cr_lf, is_break}

pub data ℤ : Type 0 where
  pos : ℕ → ℤ
  -- Below zero: `negsuc n` is `-n - 1`.
  negsuc : ℕ → ℤ

unfoldable pub difference : ℕ → ℕ → ℤ
difference m n = if leb n m then pos (m - n) else negsuc (n - m - 1)

pub record Position : Type 0 where
  pub line : ℕ
  pub character : ℤ

-- The loop of `positionAt`: the offset, the index, the line, its start, and the text from the index on.
unfoldable pub position_loop : ℕ → ℕ → ℕ → ℕ → Text → Position
unfolding difference
position_loop offset index line start [] = record {
  line = line;
  character = difference offset start;
}
position_loop offset index line start (c ∷ []) = elim (ltb index offset) [
  | false ↦ record { line = line; character = difference offset start }
  | true ↦ elim (is_break c) [
    | true ↦ position_loop offset (suc index) (suc line) (suc index) []
    | false ↦ position_loop offset (suc index) line start []
  ]
]
position_loop offset index line start (c ∷ d ∷ t) = elim (ltb index offset) [
  | false ↦ record { line = line; character = difference offset start }
  | true ↦ elim (is_cr_lf c d) [
    | true ↦ position_loop offset (index + 2) (suc line) (index + 2) t
    | false ↦ elim (is_break c) [
      | true ↦ position_loop offset (suc index) (suc line) (suc index) (d ∷ t)
      | false ↦ position_loop offset (suc index) line start (d ∷ t)
    ]
  ]
]

unfoldable pub position_at : Text → ℕ → Position
unfolding position_loop
position_at t offset = position_loop offset 0 0 0 t

-- `text.charCodeAt(index)`, which is NaN behind the end.
unfoldable pub char_at : Text → ℕ → Option ℕ
char_at [] i = none
char_at (c ∷ t) zero = some c
char_at (c ∷ t) (suc i) = char_at t i

abbrev pub is_code : Option ℕ → ℕ → Bool
is_code none c = false
is_code (some a) c = a == c

unfoldable pub splits_crlf : Text → ℕ → Bool
unfolding char_at
splits_crlf t offset =
    ltb 0 offset
    && ltb offset (length t)
    && is_code (char_at t (offset - 1)) cr
    && is_code (char_at t offset) lf

-- The first loop of `incrementalContentChange`.
unfoldable pub common_prefix : Text → Text → ℕ
common_prefix [] t = 0
common_prefix (a ∷ s) [] = 0
common_prefix (a ∷ s) (b ∷ t) = let rest = common_prefix s t in if a == b then suc rest else 0

unfoldable pub shared_prefix : Text → Text → ℕ
unfolding common_prefix splits_crlf
shared_prefix previous next =
    let prefix = common_prefix previous next in
    if splits_crlf previous prefix || splits_crlf next prefix then prefix - 1 else prefix

abbrev same_code : Option ℕ → Option ℕ → Bool
same_code (some a) (some b) = a == b
same_code _ _ = false

-- The condition of the second loop.
unfoldable pub goes_on : Text → Text → ℕ → ℕ → Bool
unfolding char_at
goes_on previous next prefix suffix =
    ltb suffix (length previous - prefix)
    && ltb suffix (length next - prefix)
    && same_code (char_at previous (length previous - suffix - 1))
        (char_at next (length next - suffix - 1))

-- The second loop.
unfoldable pub suffix_loop : ℕ → Text → Text → ℕ → ℕ → ℕ
unfolding goes_on
suffix_loop zero previous next prefix suffix = suffix
suffix_loop (suc fuel) previous next prefix suffix =
    let longer = suffix_loop fuel previous next prefix (suc suffix) in
    if goes_on previous next prefix suffix then longer else suffix

-- The third loop.
unfoldable pub shrink : Text → Text → ℕ → ℕ
unfolding splits_crlf
shrink previous next zero = zero
shrink previous next (suc n) =
    let shorter = shrink previous next n in
    if splits_crlf previous (length previous - suc n) || splits_crlf next (length next - suc n)
    then shorter
    else suc n

unfoldable pub shared_suffix : Text → Text → ℕ → ℕ
unfolding suffix_loop shrink
shared_suffix previous next prefix =
    shrink previous next (suffix_loop (length previous) previous next prefix 0)

pub record ContentChange : Type 0 where
  pub start : Position
  pub end : Position
  pub text : Text

unfoldable pub incremental_content_change : Text → Text → ContentChange
unfolding shared_prefix shared_suffix position_at slice
incremental_content_change previous next =
    let prefix = shared_prefix previous next in
    let suffix = shared_suffix previous next prefix in
    record {
      start = position_at previous prefix;
      end = position_at previous (length previous - suffix);
      text = slice next prefix (length next - suffix);
    }
