-- ===== src/Cron/Field.antt =====
-- `parse_field` of src/cron.c. The 64-bit mask `*out` is the list of the bits that are set, each
-- below 64 since no field has a maximum above 59. Each round of the outer loop passes a comma or is
-- the last, so the text's length is fuel enough; the inner loop's counter grows by at least one.
use cclaw.Prelude.{
  ℕ, zero, suc, ◌+◌, ◌-◌, Bool, false, ◌||◌, List, [], ◌∷◌, ◌++◌, Option, none, some, ltb, leb,
  ◌==◌, if◌then◌else◌, Bytes, length,
}
use cclaw.Prelude.Int.{ℤ, pos, negsuc}
use cclaw.Clib.{strtol}

abbrev pub Mask : Type 0
Mask = List ℕ

-- `mask & (1ULL << i)`
unfoldable pub has_bit : Mask → ℕ → Bool
has_bit [] i = false
has_bit (b ∷ mask) i = b == i || has_bit mask i

-- `if (errno == ERANGE || v < min || v > max) return -1;`
abbrev pub in_range : ℕ → ℕ → Bool → ℤ → Bytes → Option (ℕ × Bytes)
in_range min max erange (negsuc n) p = none
in_range min max erange (pos n) p = if erange || ltb n min || ltb max n then none else some (n, p)

-- A number in range at the front of the text.
unfoldable pub number : ℕ → ℕ → Bytes → Option (ℕ × Bytes)
number min max p = let r = strtol p in in_range min max r.erange r.value r.rest

-- Behind the first number: `-` and the end of the range, or nothing.
abbrev with_start : ℕ → Option (ℕ × Bytes) → Option (ℕ × ℕ × Bytes)
with_start start none = none
with_start start (some (end, p)) = some (start, end, p)

unfoldable pub range_end : ℕ → ℕ → ℕ → Bytes → Option (ℕ × ℕ × Bytes)
range_end min max start [] = some (start, start, [])
range_end min max start (c ∷ p) =
    if c == b'-' then with_start start (number min max p) else some (start, start, c ∷ p)

abbrev range_at : ℕ → ℕ → Option (ℕ × Bytes) → Option (ℕ × ℕ × Bytes)
range_at min max none = none
range_at min max (some (start, p)) = range_end min max start p

-- `start` and `end` of one element, and the text behind them.
unfoldable pub range : ℕ → ℕ → Bytes → Option (ℕ × ℕ × Bytes)
unfolding range_end
range min max [] = range_at min max (number min max [])
range min max (c ∷ p) =
    if c == b'*' then some (min, max, p) else range_at min max (number min max (c ∷ p))

-- `step`, which is 1 where no `/` follows.
unfoldable pub step_of : ℕ → Bytes → Option (ℕ × Bytes)
step_of max [] = some (1, [])
step_of max (c ∷ p) = if c == b'/' then number 1 max p else some (1, c ∷ p)

-- `for (int i = start; i <= end; i += step)`, with the rounds left.
unfoldable pub bits_from : ℕ → ℕ → ℕ → ℕ → Mask
bits_from zero i end step = []
bits_from (suc rounds) i end step =
    let rest = bits_from rounds (i + step) end step in if leb i end then i ∷ rest else []

-- `if (*p == ',') p++; else if (*p != '\0') return -1;`
abbrev pub pass_comma : Bytes → Option Bytes
pass_comma [] = some []
pass_comma (c ∷ p) = if c == b',' then some p else none

abbrev with_bits : ℕ → ℕ → ℕ → Option Bytes → Option (Mask × Bytes)
with_bits start end step none = none
with_bits start end step (some q) = some (bits_from (end + 1 - start) start end step, q)

abbrev step_at : ℕ → ℕ → Option (ℕ × Bytes) → Option (Mask × Bytes)
step_at start end none = none
step_at start end (some (step, p)) = with_bits start end step (pass_comma p)

abbrev element_at : ℕ → Option (ℕ × ℕ × Bytes) → Option (Mask × Bytes)
element_at max none = none
element_at max (some (start, end, p)) = step_at start end (step_of max p)

-- One element: the bits it sets, and the text behind its comma.
unfoldable pub element : ℕ → ℕ → Bytes → Option (Mask × Bytes)
unfolding step_of bits_from
element min max p = element_at max (range min max p)

abbrev join : Mask → Option Mask → Option Mask
join bits none = none
join bits (some mask) = some (bits ++ mask)

unfoldable pub field_from : ℕ → ℕ → ℕ → Bytes → Option Mask
unfolding element
field_from fuel min max [] = some []
field_from zero min max (c ∷ p) = none
field_from (suc fuel) min max (c ∷ p) = elim (element min max (c ∷ p)) [
  | none ↦ none
  | some (bits, q) ↦ join bits (field_from fuel min max q)
]

unfoldable pub parse_field : Bytes → ℕ → ℕ → Option Mask
unfolding field_from element range number range_end step_of bits_from strtol
parse_field field min max = field_from (length field) min max field
