-- ===== src/Paths/Examples.antt =====
-- Runs of `path_under` and `glob_match` of src/tool_file.c.
use cclaw.Prelude.{◌≡◌, refl, true, false, some, codes}
use cclaw.Paths.{path_under, glob_match}

under-test : path_under (some (codes "/tmp//")) (codes "/tmp/a") ≡ true
unfolding path_under
under-test = refl

beside-test : path_under (some (codes "/tmp")) (codes "/tmpfile") ≡ false
unfolding path_under
beside-test = refl

deep-test : glob_match (codes "src/**/*.c") (codes "src/a/b.c") ≡ true
unfolding glob_match
deep-test = refl

slash-test : glob_match (codes "*.c") (codes "a/b.c") ≡ false
unfolding glob_match
slash-test = refl
