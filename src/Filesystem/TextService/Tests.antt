-- ===== src/Filesystem/TextService/Tests.antt =====
-- The theorems on texts and lines at concrete inputs.
use o_pi.Common.{length, arith, Text, [], ◌∷◌, some, ◌≡◌}
use o_pi.Filesystem.TextService.{logical_lines, line_records, is_cr_lf, is_break, is_cr, is_lf}
use o_pi.Filesystem.TextService.Lines.{Lines, line_records-Lines}
use o_pi.Filesystem.TextService.Slices.{describe_text, slice_text_by_line_range}
use o_pi.Filesystem.TextService.Ranges.{Outcome, slice_text_by_line_range-Outcome}
use o_pi.Filesystem.TextService.Paging.{page_from, read_pages, read_pages-whole}

-- Two lines with a carriage return and a line feed each, and an end that is open.
abbrev three_lines : Text
three_lines = 97 ∷ 13 ∷ 10 ∷ 98 ∷ 13 ∷ 10 ∷ 99 ∷ []

line_records-Lines_example : Lines (line_records three_lines) (logical_lines three_lines).lines
line_records-Lines_example = line_records-Lines three_lines

slice_text_by_line_range-Outcome_example :
    Outcome length
      (page_from 1 4 2)
      three_lines
      (slice_text_by_line_range length (describe_text three_lines three_lines) (page_from 1 4 2))
slice_text_by_line_range-Outcome_example =
    slice_text_by_line_range-Outcome length three_lines three_lines (page_from 1 4 2)

read_pages-whole_example : read_pages length three_lines three_lines 2 4 4 1 ≡ some three_lines
unfolding line_records is_cr_lf is_break is_cr is_lf
read_pages-whole_example =
    read_pages-whole length three_lines three_lines 2 4
      (omega arith, (omega arith, (omega arith, tt))) (omega arith) (omega arith) (omega arith)
      (omega arith)
