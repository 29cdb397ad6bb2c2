-- ===== src/Split/Pieces.antt =====
-- What `split_and_trim` of src/util.c makes of a text, against the pieces between its separators.
use cclaw.Prelude.{
  ◌==◌, ◌||◌, ℕ, zero, suc, ◌≤◌, ◌<◌, ◌≡◌, refl, sym, ap, ◌∙◌, Bool, true, not, List, [], ◌∷◌,
  arith, Bytes, length, take, some, none, if◌then◌else◌,
}
use cclaw.Split.{
  is_separator, skip_separators, token, after_token, with_token, behind, split_rounds,
  split_and_trim,
}

-- The pieces between the separators of a text, empty ones too: one more than there are separators.
abbrev onto_first : ℕ → List Bytes → List Bytes
onto_first c [] = (c ∷ []) ∷ []
onto_first c (piece ∷ pieces) = (c ∷ piece) ∷ pieces

unfoldable pub pieces_at : (ℕ → Bool) → Bytes → List Bytes
pieces_at separates [] = [] ∷ []
pieces_at separates (c ∷ s) =
    let rest = pieces_at separates s in if separates c then [] ∷ rest else onto_first c rest

-- A comma, a blank and a tab separate.
abbrev pub separates : ℕ → Bool
separates c = c == 0x2C || c == 0x20 || c == 0x09

abbrev pub pieces : Bytes → List Bytes
pieces = pieces_at is_separator

abbrev pub nonempty : List Bytes → List Bytes
nonempty [] = []
nonempty ([] ∷ rest) = nonempty rest
nonempty ((c ∷ piece) ∷ rest) = (c ∷ piece) ∷ nonempty rest

-- The pieces behind the first.
abbrev others_of : Bytes → List Bytes
others_of [] = []
others_of (more ∷ end) = pieces end

pieces-token : (p : Bytes) → pieces p ≡ token p ∷ others_of (after_token p)
unfolding pieces_at token after_token
pieces-token [] = refl
pieces-token (c ∷ p) = ground (pieces-token p, arith)

nonempty-skip_separators : (p : Bytes) → nonempty (pieces (skip_separators p)) ≡ nonempty (pieces p)
unfolding pieces_at skip_separators
nonempty-skip_separators [] = refl
nonempty-skip_separators (c ∷ p) = ground (nonempty-skip_separators p, arith)

length-skip_separators : (p : Bytes) → length (skip_separators p) ≤ length p
unfolding skip_separators
length-skip_separators [] = omega arith
length-skip_separators (c ∷ p) = ground (length-skip_separators p, arith)

length-after_token : (p : Bytes) → length (after_token p) ≤ length p
unfolding after_token
length-after_token [] = omega arith
length-after_token (c ∷ p) = ground (length-after_token p, arith)

-- What a round starts at, when separators are skipped: the end or a byte of a token.
abbrev starts : Bytes → Bool
starts [] = true
starts (c ∷ p) = not (is_separator c)

starts-skip_separators : (p : Bytes) → starts (skip_separators p) ≡ true
unfolding skip_separators
starts-skip_separators [] = refl
starts-skip_separators (c ∷ p) = ground (starts-skip_separators p, arith)

take_nil : (room : ℕ) → take {A = Bytes} room [] ≡ []
take_nil zero = refl
take_nil (suc room) = refl

with_token_lem :
    (c : ℕ) (p end : Bytes) (others : List Bytes) (room : ℕ)
    → not (is_separator c) ≡ true
    → others ≡ take room (nonempty (pieces (behind end)))
    → with_token (c ∷ p) end others ≡ take (suc room) (nonempty (token (c ∷ p) ∷ others_of end))
unfolding token
with_token_lem c p [] others room h e = ground (take_nil room, arith)
with_token_lem c p (more ∷ end) others room h e = ground arith

with_token-pieces :
    (p : Bytes) (others : List Bytes) (room : ℕ)
    → starts p ≡ true
    → others ≡ take room (nonempty (pieces (behind (after_token p))))
    → with_token p (after_token p) others ≡ take (suc room) (nonempty (pieces p))
unfolding pieces_at
with_token-pieces [] others room h e = refl
with_token-pieces (c ∷ p) others room h e =
    with_token_lem c p (after_token (c ∷ p)) others room h e
    ∙ ap (λ x. take (suc room) (nonempty x)) (sym (pieces-token (c ∷ p)))

length-behind : (p : Bytes) (n : ℕ) → length p ≤ suc n → length (behind p) ≤ n
length-behind [] n h = omega arith
length-behind (more ∷ end) n h = omega arith

split_rounds-pieces :
    (fuel : ℕ) (p : Bytes) (room : ℕ)
    → length p < fuel
    → split_rounds fuel p room ≡ take room (nonempty (pieces p))
unfolding split_rounds skip_separators pieces_at
split_rounds-pieces zero p room h = absurd (omega arith)
split_rounds-pieces (suc fuel) p zero h = refl
split_rounds-pieces (suc fuel) [] (suc room) h = refl
split_rounds-pieces (suc fuel) (c ∷ p) (suc room) h =
    let start = skip_separators (c ∷ p) in
    let end = after_token start in
    let skipped = length-skip_separators (c ∷ p) in
    let passed = length-after_token start in
    let shorter = length-behind end (length p) (omega (arith, skipped, passed)) in
    with_token-pieces start _ room (starts-skip_separators (c ∷ p))
      (split_rounds-pieces fuel (behind end) room (omega (arith, shorter)))
    ∙ ap (take (suc room)) (nonempty-skip_separators (c ∷ p))

is_separator_eq : is_separator ≡ separates
unfolding is_separator
is_separator_eq = λ i c. separates c

-- The loops end, and the tokens are the pieces between the commas, blanks and tabs that are not empty, in their
-- order and the first `max` of them at most; there are none without a text.
pub split_and_trim_lem :
    (s : Bytes) (max : ℕ)
    → (split_and_trim (some s) max ≡ take max (nonempty (pieces_at separates s)))
      × (split_and_trim none max ≡ [])
unfolding split_and_trim
split_and_trim_lem s max = (
  split_rounds-pieces (suc (length s)) s max (omega arith)
      ∙ ap (λ t. take max (nonempty (pieces_at t s))) is_separator_eq,
  refl,
)
