-- ===== src/Lsp/Changes/Positions.antt =====
-- Positions name offsets: src/lsp/documents.ts. What a position means is stated as the protocol of the
-- language servers has it: the lines end with a line feed, a carriage return or both, and a character
-- behind the end of its line means that end.
use o_pi.Common.{ℕ, zero, suc, ◌+◌, ◌-◌, min, Text, true, false, [], ◌∷◌, if◌then◌else◌, ◌≡◌}
use o_pi.Filesystem.TextService.{is_cr_lf, is_break}
use o_pi.Lsp.Changes.{pos, negsuc, Position}

unfoldable pub line_length : Text → ℕ
line_length [] = 0
line_length (c ∷ t) = let rest = line_length t in if is_break c then 0 else suc rest

-- How far a line and a character in it are, with so many characters of the line passed.
unfoldable pub distance : ℕ → Text → ℕ → ℕ → ℕ
unfolding line_length
distance passed t zero character = min character (passed + line_length t) - passed
distance passed [] (suc line) character = 0
distance passed (c ∷ []) (suc line) character = elim (is_break c) [
  | true ↦ suc (distance 0 [] line character)
  | false ↦ 1
]
distance passed (c ∷ d ∷ t) (suc line) character = elim (is_cr_lf c d) [
  | true ↦ 2 + distance 0 t line character
  | false ↦ elim (is_break c) [
    | true ↦ suc (distance 0 (d ∷ t) line character)
    | false ↦ suc (distance (suc passed) (d ∷ t) (suc line) character)
  ]
]

unfoldable pub offset_of : Text → Position → ℕ
unfolding distance
offset_of t p = elim p.character [
  | pos n ↦ distance 0 t p.line n
  | negsuc n ↦ distance 0 t p.line 0
]

-- Where the loop of `positionAt` ends, from its index on.
pub record Reached (offset index line start : ℕ) (t : Text) (p : Position) : Type 0 where
  pub lines : ℕ
  pub characters : ℕ
  pub at : p ≡ record { line = line + lines; character = pos characters }
  pub meant : distance (index - start) t lines characters ≡ offset - index
  pub same_line : lines ≡ 0 → characters ≡ offset - start
