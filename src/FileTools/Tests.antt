-- ===== src/FileTools/Tests.antt =====
-- The theorems on the tools on files at concrete inputs.
use o_pi.Common.{Text, text, text_eq, List, [], ◌∷◌, none, some, refl, ◌≡◌}
use o_pi.Common.OrderedMap
use o_pi.FileTools.ObservationStore.{
  Version, Bridges, new_store, remember, recall, forget, key_for, attach,
}
use o_pi.FileTools.ObservationStore.Attached.{
  IsCounted, Event, attaches, detaches, remembers, run, run-IsCounted, recall-remember,
}

-- References are paths, and one bridge knows all of them.
abbrev plain : Bridges Text
plain = record { native_identity = λ b ref. some ref; fold_case = λ t. t }

abbrev seen : Version
seen = record { hash = text "h"; size_bytes = 4 }

abbrev twice : List (Event Text)
twice =
    attaches (text "w") ∷ attaches (text "w") ∷ remembers (text "a") seen ∷ detaches (text "w") ∷ []

run-IsCounted_example : IsCounted (run plain new_store twice)
run-IsCounted_example = run-IsCounted plain twice

recall-remember_example :
    (recall plain (text "b") (remember plain (text "a") seen (attach (text "w") new_store)).0
      ≡ none)
    × (recall plain (text "b") (forget plain (text "a") (attach (text "w") new_store)).0 ≡ none)
unfolding key_for attach OrderedMap.get OrderedMap.put text text_eq recall
recall-remember_example =
    recall-remember plain (text "a") (text "b") seen (attach (text "w") new_store) (text "a")
      (text "b") refl refl
