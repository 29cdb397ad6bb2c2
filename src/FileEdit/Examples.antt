-- ===== src/FileEdit/Examples.antt =====
-- Runs of `file_edit_run` of src/tool_file.c.
use cclaw.Prelude.{◌≡◌, refl, [], ◌∷◌, ◌++◌, none, some, Bytes, codes}
use cclaw.FileEdit.{done, fail, overlapping_edits, mem_count, file_edit_run}
use cclaw.FileEdit.Splice.{file_edit_run_lem}

one_edit :
    file_edit_run (some (codes "b") ∷ some (codes "XY") ∷ []) (codes "abc") ≡ done (codes "aXYc")
unfolding file_edit_run
one_edit = refl

file_edit_run_lem_example :
    (mem_count (codes "abc") (codes "b") ≡ 1)
    × (before : Bytes) × (behind : Bytes) × (codes "abc" ≡ before ++ (codes "b" ++ behind))
    × (codes "aXYc" ≡ before ++ codes "XY" ++ behind)
file_edit_run_lem_example =
    file_edit_run_lem (codes "abc") (codes "b") (codes "XY") (codes "aXYc") one_edit

-- the edits are matched against the original text, in any order
two_edits-test :
    file_edit_run (some (codes "c") ∷ none ∷ some (codes "a") ∷ some (codes "c") ∷ []) (codes "abc")
    ≡ done (codes "cb")
unfolding file_edit_run
two_edits-test = refl

overlap-test :
    file_edit_run (some (codes "ab") ∷ none ∷ some (codes "bc") ∷ none ∷ []) (codes "abc")
    ≡ fail overlapping_edits
unfolding file_edit_run
overlap-test = refl

-- occurrences that overlap are counted once, so this text is taken to be unique
aaa-test : mem_count (codes "aaa") (codes "aa") ≡ 1
unfolding mem_count
aaa-test = refl
