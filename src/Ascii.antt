-- ===== src/Ascii.antt =====
-- src/util.c: case-insensitive comparison of C strings.
use cclaw.Prelude.{
  ℕ, zero, suc, ◌+◌, ◌≤◌, ◌≡◌, refl, ap₂, ◌↔◌, Bool, true, ◌&&◌, [], ◌∷◌, map, arith, leb, ◌==◌,
  if◌then◌else◌, Bytes, IsText,
}
use cclaw.Prelude.Int.{ℤ, sub_ℕ, is_zero, sub_ℕ-zero_iff}

unfoldable pub ascii_lower : ℕ → ℕ
ascii_lower c = if leb b'A' c && leb c b'Z' then c + 32 else c

-- The byte that a pointer at the front of the string reads.
abbrev pub first_byte : Bytes → ℕ
first_byte [] = 0
first_byte (c ∷ s) = c

-- The loop stops at the end of `a` or at the first difference, and the difference is the result.
unfoldable pub ascii_strcasecmp : Bytes → Bytes → ℤ
ascii_strcasecmp [] b = sub_ℕ (ascii_lower 0) (ascii_lower (first_byte b))
ascii_strcasecmp (x ∷ a) [] = sub_ℕ (ascii_lower x) (ascii_lower 0)
ascii_strcasecmp (x ∷ a) (y ∷ b) =
    if ascii_lower x == ascii_lower y
    then ascii_strcasecmp a b
    else sub_ℕ (ascii_lower x) (ascii_lower y)

-- A string with its letters in lower case: what the comparisons see of it.
abbrev pub fold_case : Bytes → Bytes
fold_case = map ascii_lower

pub ascii_lower_pos : (c : ℕ) → 1 ≤ c → 1 ≤ ascii_lower c
unfolding ascii_lower
ascii_lower_pos c h = ground arith

pub ascii_lower_zero : ascii_lower 0 ≡ 0
unfolding ascii_lower
ascii_lower_zero = refl

pub ascii_lower_idem : (c : ℕ) → ascii_lower (ascii_lower c) ≡ ascii_lower c
unfolding ascii_lower
ascii_lower_idem c = ground arith

pub fold_case_idem : (s : Bytes) → fold_case (fold_case s) ≡ fold_case s
fold_case_idem [] = refl
fold_case_idem (c ∷ s) = ap₂ ◌∷◌ (ascii_lower_idem c) (fold_case_idem s)

-- The predicate by which the sources use the comparison.
abbrev pub same_name : Bytes → Bytes → Bool
same_name a b = is_zero (ascii_strcasecmp a b)

same_name→fold_case :
    (a b : Bytes) → IsText a → IsText b → same_name a b ≡ true → fold_case a ≡ fold_case b
unfolding ascii_strcasecmp
same_name→fold_case [] [] ha hb h = refl
same_name→fold_case [] (y ∷ b) ha hb h = absurd (
    omega (
      arith,
      ascii_lower_zero,
      ascii_lower_pos y hb.0.0,
      (sub_ℕ-zero_iff (ascii_lower 0) (ascii_lower y)).0 h,
    ))
same_name→fold_case (x ∷ a) [] ha hb h = absurd (
    omega (
      arith,
      ascii_lower_zero,
      ascii_lower_pos x ha.0.0,
      (sub_ℕ-zero_iff (ascii_lower x) (ascii_lower 0)).0 h,
    ))
same_name→fold_case (x ∷ a) (y ∷ b) ha hb h = ground (arith, same_name→fold_case a b ha.1 hb.1)

fold_case→same_name : (a b : Bytes) → fold_case a ≡ fold_case b → same_name a b ≡ true
unfolding ascii_strcasecmp ascii_lower
fold_case→same_name [] [] h = refl
fold_case→same_name [] (y ∷ b) h = cc
fold_case→same_name (x ∷ a) [] h = cc
fold_case→same_name (x ∷ a) (y ∷ b) h = ground (arith, fold_case→same_name a b)

-- Two C strings compare equal exactly when they agree up to the case of their ASCII letters.
pub same_name_iff :
    (a b : Bytes) → IsText a → IsText b → (same_name a b ≡ true) ↔ (fold_case a ≡ fold_case b)
same_name_iff a b ha hb = (same_name→fold_case a b ha hb, fold_case→same_name a b)

-- The comparison of the first n bytes.
unfoldable pub ascii_strncasecmp : Bytes → Bytes → ℕ → ℤ
ascii_strncasecmp a b zero = sub_ℕ 0 0
ascii_strncasecmp [] b (suc n) = sub_ℕ (ascii_lower 0) (ascii_lower (first_byte b))
ascii_strncasecmp (x ∷ a) [] (suc n) = sub_ℕ (ascii_lower x) (ascii_lower 0)
ascii_strncasecmp (x ∷ a) (y ∷ b) (suc n) =
    if ascii_lower x == ascii_lower y
    then ascii_strncasecmp a b n
    else sub_ℕ (ascii_lower x) (ascii_lower y)
