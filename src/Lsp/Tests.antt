-- ===== src/Lsp/Tests.antt =====
-- The theorems on language servers at concrete inputs.
use o_pi.Common.{ℕ, some, true, false, ◌-◌, length, Text, text, List, [], ◌∷◌, ◌≡◌}
use o_pi.Lsp.Documents.{Context, new_documents, cached_symbols, eviction_candidate}
use o_pi.Lsp.Documents.Current.{IsValid}
use o_pi.Lsp.Documents.Runs.{
  Event, commits, marks_closed, touches, looks_up, caches, run, HasVersion, run-Current,
}
use o_pi.Lsp.Documents.Eviction.{Evicted, eviction_candidate-Evicted}
use o_pi.Lsp.Changes.{
  incremental_content_change, shared_prefix, shared_suffix, suffix_loop, splits_crlf, goes_on,
}
use o_pi.Lsp.Changes.Applied.{apply_change, apply_change-incremental}

-- A line break of two characters becomes one of a carriage return, and a word changes.
abbrev old_text : Text
old_text = 97 ∷ 13 ∷ 10 ∷ 98 ∷ 99 ∷ []

abbrev new_text : Text
new_text = 97 ∷ 13 ∷ 98 ∷ 100 ∷ 99 ∷ []

apply_change-incremental_example :
    (apply_change (incremental_content_change old_text new_text) old_text ≡ new_text)
    × (splits_crlf old_text (shared_prefix old_text new_text) ≡ false)
    × (splits_crlf old_text
          (length old_text - shared_suffix old_text new_text (shared_prefix old_text new_text))
        ≡ false)
    × (goes_on old_text new_text
          (shared_prefix old_text new_text)
          (suffix_loop (length old_text) old_text new_text (shared_prefix old_text new_text) 0)
        ≡ false)
apply_change-incremental_example = apply_change-incremental old_text new_text

abbrev document : Text → Context
document uri = record { uri = uri; path = uri; text = text "t"; language_id = text "ts" }

-- Two documents; the first one has symbols and a new version of the same text, and it is looked up.
abbrev opened : List (Event ℕ)
opened =
    commits (document (text "a")) 1 true false
    ∷ commits (document (text "b")) 1 true true
    ∷ caches (text "a") 1 7
    ∷ commits (document (text "a")) 2 true false
    ∷ looks_up (text "a") 2
    ∷ marks_closed (text "b")
    ∷ touches (text "a")
    ∷ []

run-Current_example :
    IsValid (run opened new_documents)
    × ((uri : Text) (version : ℕ) (x : ℕ)
        → (cached_symbols uri version (run opened new_documents)).0 ≡ some x
        → HasVersion (run opened new_documents) uri version)
run-Current_example = run-Current opened

eviction_candidate-Evicted_example :
    Evicted
      (text "c")
      (run opened new_documents).queues
      (run opened new_documents).states
      (eviction_candidate (text "c") (run opened new_documents))
eviction_candidate-Evicted_example =
    eviction_candidate-Evicted (text "c") (run opened new_documents)
