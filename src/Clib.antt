-- ===== src/Clib.antt =====
-- The functions of the C standard library that the sources parse numbers and cut strings with.
use cclaw.Prelude.{
  ℕ, zero, suc, ◌+◌, ◌-◌, ◌*◌, ◌^◌, Bool, true, false, ◌&&◌, ◌||◌, [], ◌∷◌, ltb, leb, ◌==◌,
  if◌then◌else◌, Bytes,
}
use cclaw.Prelude.Int.{ℤ, pos, negsuc}

-- `isspace` in the C locale.
abbrev pub is_space : ℕ → Bool
is_space c = c == 32 || leb 9 c && leb c 13

abbrev pub is_digit : ℕ → Bool
is_digit c = leb b'0' c && leb c b'9'

unfoldable pub skip_space : Bytes → Bytes
skip_space [] = []
skip_space (c ∷ s) = let rest = skip_space s in if is_space c then rest else c ∷ s

-- The run of digits at the front, and what follows it.
unfoldable pub span_digits : Bytes → Bytes × Bytes
span_digits [] = ([], [])
span_digits (c ∷ s) =
    let rest = span_digits s in if is_digit c then (c ∷ rest.0, rest.1) else ([], c ∷ s)

unfoldable pub digits_value : ℕ → Bytes → ℕ
digits_value acc [] = acc
digits_value acc (c ∷ s) = digits_value (acc * 10 + (c - b'0')) s

abbrev pub split_sign : Bytes → Bool × Bytes
split_sign [] = (false, [])
split_sign (c ∷ s) =
    if c == b'-' then (true, s) else if c == b'+' then (false, s) else (false, c ∷ s)

-- `long` has 64 bits; a value out of range is clamped, with ERANGE.
abbrev pub long_max : ℕ
long_max = 2 ^ 63 - 1

abbrev pub clamp_long : Bool → ℕ → ℤ
clamp_long false n = if ltb long_max n then pos long_max else pos n
clamp_long true zero = pos 0
clamp_long true (suc n) = if ltb long_max n then negsuc long_max else negsuc n

-- Is the magnitude out of range?
abbrev pub out_of_long : Bool → ℕ → Bool
out_of_long false n = ltb long_max n
out_of_long true n = ltb (long_max + 1) n

-- `converted` is false where `*endptr` is the start of the text: no digit was read.
pub record Strtol : Type 0 where
  pub value : ℤ
  pub rest : Bytes
  pub converted : Bool
  pub erange : Bool

abbrev is_empty : Bytes → Bool
is_empty [] = true
is_empty (c ∷ s) = false

unfoldable pub strtol : Bytes → Strtol
unfolding skip_space span_digits digits_value
strtol s =
    let (negative, t) = split_sign (skip_space s) in
    let (digits, rest) = span_digits t in
    let n = digits_value 0 digits in
    if is_empty digits
    then record { value = pos 0; rest = s; converted = false; erange = false }
    else record {
      value = clamp_long negative n;
      rest = rest;
      converted = true;
      erange = out_of_long negative n;
    }
