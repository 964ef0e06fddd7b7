-- ===== src/Filesystem/PathCatalog/Tests.antt =====
-- The edit distance at a concrete input.
use o_pi.Common.{ℕ, ◌≤◌, text, ◌≡◌, refl}
use o_pi.Filesystem.PathCatalog.{edit_distance}
use o_pi.Filesystem.PathCatalog.Scripts.{Script}
use o_pi.Filesystem.PathCatalog.Rows.{edit_distance-Script}

three_apart : edit_distance (text "kitten") (text "sitting") ≡ 3
unfolding edit_distance text
three_apart = refl

edit_distance-Script_example :
    Script (text "kitten") (text "sitting") (edit_distance (text "kitten") (text "sitting"))
    × ((n : ℕ)
        → Script (text "kitten") (text "sitting") n
        → edit_distance (text "kitten") (text "sitting") ≤ n)
edit_distance-Script_example = edit_distance-Script (text "kitten") (text "sitting")
