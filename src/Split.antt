-- ===== src/Split.antt =====
-- `split_and_trim` of src/util.c, by which the lists of options are read: the admins of a channel, its
-- egress rules, a list of tools. A result is the text that the pointer of a token leads to when all is
-- written; the NUL behind each token stands in the place of its separator. A `max` below 1 is 0.
pub mod Pieces
mod Examples
use cclaw.Prelude.{
  ℕ, zero, suc, ◌+◌, ◌≤◌, ◌<◌, ◌≡◌, refl, sym, ap, ap₂, ◌∙◌, Bool, true, false, not, List, [], ◌∷◌,
  arith, Bytes, length, take, Option, some, none, ◌==◌, ◌||◌, if◌then◌else◌,
}

unfoldable pub is_separator : ℕ → Bool
is_separator c = c == b',' || c == b' ' || c == b'\t'

-- The string from `p` on, once the first inner loop ends.
unfoldable pub skip_separators : Bytes → Bytes
skip_separators [] = []
skip_separators (c ∷ p) = let rest = skip_separators p in if is_separator c then rest else c ∷ p

-- The second inner loop: what lies between `p` and `end`, and the string from `end` on.
unfoldable pub token : Bytes → Bytes
token [] = []
token (c ∷ p) = let rest = token p in if is_separator c then [] else c ∷ rest

unfoldable pub after_token : Bytes → Bytes
after_token [] = []
after_token (c ∷ p) = let rest = after_token p in if is_separator c then c ∷ p else rest

-- The token of a round from `p` to `end`, in front of those of the rounds after it, which there are
-- if `more` is no NUL.
abbrev pub with_token : Bytes → Bytes → List Bytes → List Bytes
with_token [] end others = []
with_token (c ∷ p) [] others = token (c ∷ p) ∷ []
with_token (c ∷ p) (more ∷ end) others = token (c ∷ p) ∷ others

abbrev pub behind : Bytes → Bytes
behind [] = []
behind (more ∷ end) = end

unfoldable pub split_rounds : ℕ → Bytes → ℕ → List Bytes
split_rounds zero p room = []
split_rounds (suc fuel) p zero = []
split_rounds (suc fuel) p (suc room) =
    let start = skip_separators p in
    with_token start (after_token start) (split_rounds fuel (behind (after_token start)) room)

unfoldable pub split_and_trim : Option Bytes → ℕ → List Bytes
split_and_trim none max = []
split_and_trim (some s) max = split_rounds (suc (length s)) s max
