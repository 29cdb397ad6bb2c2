-- ===== src/Paths.antt =====
-- `path_under` and `glob_match` of src/tool_file.c. A pattern is shorter with each round, so its
-- length is fuel enough.
mod Examples
use cclaw.Prelude.{
  ℕ, zero, suc, ◌+◌, ◌-◌, Bool, true, false, ◌&&◌, ◌||◌, not, List, [], ◌∷◌, Option, none, some,
  ◌==◌, if◌then◌else◌, Bytes, bytes_eq, length, take, drop, get_or,
}

-- `while (blen > 1 && base[blen - 1] == '/') blen--;`
unfoldable pub base_length : Bytes → ℕ → ℕ
base_length base zero = zero
base_length base (suc zero) = suc zero
base_length base (suc (suc n)) =
    let shorter = base_length base (suc n) in
    if get_or base (suc n) 0 == b'/' then shorter else suc (suc n)

abbrev pub at_boundary : Bytes → Bool
at_boundary [] = true
at_boundary (c ∷ s) = c == b'/'

unfoldable pub path_under : Option Bytes → Bytes → Bool
unfolding base_length
path_under none path = false
path_under (some []) path = false
path_under (some (c ∷ base)) path =
    let blen = base_length (c ∷ base) (length (c ∷ base)) in
    bytes_eq (take blen path) (take blen (c ∷ base)) && at_boundary (drop blen path)

-- `while (*pat == '/') pat++;`
unfoldable pub skip_slashes : Bytes → Bytes
skip_slashes [] = []
skip_slashes (c ∷ s) = let rest = skip_slashes s in if c == b'/' then rest else c ∷ s

-- `for (s = str;; s++)`: does a suffix match, up to the end or, for one star, to a slash?
unfoldable pub some_suffix : (Bytes → Bool) → Bool → Bytes → Bool
some_suffix matches stop [] = matches []
some_suffix matches stop (c ∷ s) =
    let later = some_suffix matches stop s in
    if matches (c ∷ s) then true else if stop && c == b'/' then false else later

-- Behind `**`: an empty pattern matches the rest.
abbrev pub double_star : (Bytes → Bytes → Bool) → Bytes → Bytes → Bool
double_star match [] str = true
double_star match (c ∷ pat) str = some_suffix (match (c ∷ pat)) false str

-- Behind one `*`: either a second one follows, or the run ends at a slash.
abbrev pub star : (Bytes → Bytes → Bool) → Bytes → Bytes → Bool
star match [] str = some_suffix (match []) true str
star match (c ∷ pat) str =
    if c == b'*'
    then double_star match (skip_slashes pat) str
    else some_suffix (match (c ∷ pat)) true str

-- `?`, or the byte itself.
abbrev pub one_byte : (Bytes → Bytes → Bool) → ℕ → Bytes → Bytes → Bool
one_byte match c pat [] = false
one_byte match c pat (x ∷ str) = (if c == b'?' then not (x == b'/') else c == x) && match pat str

unfoldable pub glob_from : ℕ → Bytes → Bytes → Bool
unfolding some_suffix skip_slashes
glob_from fuel [] [] = true
glob_from fuel [] (x ∷ str) = false
glob_from zero (c ∷ pat) str = false
glob_from (suc fuel) (c ∷ pat) str =
    let match = glob_from fuel in if c == b'*' then star match pat str else one_byte match c pat str

unfoldable pub glob_match : Bytes → Bytes → Bool
unfolding glob_from
glob_match pat str = glob_from (length pat) pat str
