-- ===== src/FileTools/Edit/Tests.antt =====
-- The theorems on edits at concrete inputs.
use o_pi.Common.{ℕ, length, arith, text, text_eq, true, false, List, [], ◌∷◌, some, refl}
use o_pi.Schema.Json.{Json, object, array, string, bool, member, end, cons, nil}
use o_pi.FileTools.Edit.{Replacement, ok, find_all, apply_replacements}
use o_pi.FileTools.Edit.Finding.{Occurrences, find_all-Occurrences}
use o_pi.FileTools.Edit.Outcome.{Outcome, apply_replacements-Outcome}
use o_pi.FileTools.Edit.Input.{EditParams, validate_edit_input}
use o_pi.FileTools.Edit.Snapshot.{Codec, MutationSnapshot, prepare_edit}
use o_pi.FileTools.Edit.Committed.{Commits, prepare_edit-Commits}

-- Two edits of a text of which the first replaces a word that stands in it twice.
abbrev edits : List Replacement
edits =
    record { old = text "ab"; new = text "x"; replace_all = true }
    ∷ record { old = text "c"; new = text ""; replace_all = false }
    ∷ []

find_all-Occurrences_example :
    Occurrences (text "aa") 0 (text "aaaabaa") (find_all (text "aaaabaa") (text "aa"))
unfolding text
find_all-Occurrences_example = find_all-Occurrences (text "aaaabaa") (text "aa") (omega arith)

apply_replacements-Outcome_example :
    Outcome (text "abcab") edits (apply_replacements (text "abcab") edits)
unfolding text
apply_replacements-Outcome_example =
    apply_replacements-Outcome (text "abcab") edits (omega arith, (omega arith, tt))

abbrev edit_params : Json ℕ
edit_params = object (
    member (text "path") (string (text "f")) (
      member (text "edits")
        (array (
          cons
            (object (
              member (text "old") (string (text "ab")) (
                member (text "new") (string (text "x"))
                  (member (text "replace_all") (bool true) end))))
            nil))
        end))

abbrev edit_input : EditParams
edit_input = record {
  path = text "f";
  edits = record { old = text "ab"; new = text "x"; replace_all = true } ∷ [];
}

-- The bytes are the characters.
abbrev ascii : Codec ℕ
ascii = record { decode_text = λ b. ok (b, false); encode = λ t. t; byte_length = length }

abbrev file_read : MutationSnapshot
file_read = record { is_there = true; bytes = text "abcab"; hash = text "h" }

prepare_edit-Commits_example :
    Commits ascii file_read edit_input.edits (some (text "h")) 8 (text "xcx")
unfolding text text_eq validate_edit_input prepare_edit
prepare_edit-Commits_example =
    prepare_edit-Commits ascii edit_params edit_input file_read (some (text "h")) 8 (text "xcx")
      (λ t. refl) refl refl
