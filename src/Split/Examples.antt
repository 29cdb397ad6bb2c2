-- ===== src/Split/Examples.antt =====
-- Runs of `split_and_trim` of src/util.c.
use cclaw.Prelude.{◌≡◌, refl, [], ◌∷◌, some, none, take, codes}
use cclaw.Split.{split_and_trim, is_separator, skip_separators, token, after_token, split_rounds}
use cclaw.Split.Pieces.{pieces_at, separates, nonempty, split_and_trim_lem}

split_and_trim_lem_example :
    (split_and_trim (some (codes " a,, bc d")) 2
      ≡ take 2 (nonempty (pieces_at separates (codes " a,, bc d"))))
    × (split_and_trim none 2 ≡ [])
split_and_trim_lem_example = split_and_trim_lem (codes " a,, bc d") 2

two_tokens-test : split_and_trim (some (codes " a,, bc d")) 2 ≡ codes "a" ∷ codes "bc" ∷ []
unfolding split_and_trim is_separator skip_separators token after_token split_rounds
two_tokens-test = refl

pieces-test :
    nonempty (pieces_at separates (codes " a,, bc d")) ≡ codes "a" ∷ codes "bc" ∷ codes "d" ∷ []
unfolding pieces_at
pieces-test = refl
