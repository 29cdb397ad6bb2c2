-- ===== src/Unicode.antt =====
-- src/unicode_normalize.c: the removal of invisible code points, and the repair of byte strings for
-- a reader that wants UTF-8. Each round takes at least one byte, so the length is fuel enough.
-- Sequences, Clean and Repair are about the repair.
pub mod Sequences
pub mod Clean
pub mod Repair
mod Examples
use cclaw.Prelude.{
  ℕ, zero, suc, ◌+◌, ◌-◌, ◌*◌, Bool, true, false, ◌&&◌, ◌||◌, not, List, [], ◌∷◌, ◌++◌, Option,
  none, some, ltb, leb, ◌==◌, if◌then◌else◌, Bytes, length, take, drop, bit_and, bit_or,
}

-- The loop over the continuation bytes, with their number left and the value so far.
unfoldable pub continuation : ℕ → ℕ → Bytes → Option ℕ
continuation zero v s = some v
continuation (suc k) v [] = none
continuation (suc k) v (b ∷ s) =
    let rest = continuation k (bit_or (v * 64) (bit_and b 0x3F)) s in
    if not (bit_and b 0xC0 == 0x80) then none else rest

abbrev pub with_length : ℕ → Option ℕ → Option (ℕ × ℕ)
with_length n none = none
with_length n (some cp) = some (n, cp)

-- A lead byte that announces n bytes, its own value bits being v.
unfoldable pub sequence : ℕ → ℕ → Bytes → Option (ℕ × ℕ)
unfolding continuation
sequence n v rest =
    if ltb (length rest + 1) n then none else with_length n (continuation (n - 1) v rest)

-- The length of the sequence at the front and its code point, or `none` where the C function
-- returns 0.
unfoldable pub decode_utf8_strict : Bytes → Option (ℕ × ℕ)
unfolding sequence
decode_utf8_strict [] = none
decode_utf8_strict (c ∷ rest) =
    if ltb c 0x80
    then some (1, c)
    else if bit_and c 0xE0 == 0xC0
    then sequence 2 (bit_and c 0x1F) rest
    else if bit_and c 0xF0 == 0xE0
    then sequence 3 (bit_and c 0x0F) rest
    else if bit_and c 0xF8 == 0xF0
    then sequence 4 (bit_and c 0x07) rest
    else none

unfoldable pub is_invisible : ℕ → Bool
is_invisible cp =
    leb 0x200B cp && leb cp 0x200F
    || leb 0x202A cp && leb cp 0x202E
    || cp == 0x2060
    || leb 0x2066 cp && leb cp 0x2069
    || cp == 0xFEFF
    || cp == 0x00AD
    || leb 0xFE00 cp && leb cp 0xFE0F

-- What one round writes.
abbrev pub strip_piece : Bool → Bytes → Option (ℕ × ℕ) → Bytes
strip_piece at_start s none = take 1 s
strip_piece at_start s (some (n, cp)) =
    if is_invisible cp && not (cp == 0xFEFF && at_start) then [] else take n s

-- How far one round moves.
abbrev pub advance : Option (ℕ × ℕ) → ℕ
advance none = 1
advance (some (n, cp)) = n

unfoldable pub strip_from : ℕ → Bool → Bytes → Bytes
strip_from zero at_start s = []
strip_from (suc f) at_start [] = []
strip_from (suc f) at_start (c ∷ s) =
    strip_piece at_start (c ∷ s) (decode_utf8_strict (c ∷ s))
    ++ strip_from f false (drop (advance (decode_utf8_strict (c ∷ s))) (c ∷ s))

-- The allocations are taken to succeed.
unfoldable pub unicode_strip_invisible : Option Bytes → Option Bytes
unfolding strip_from decode_utf8_strict is_invisible
unicode_strip_invisible none = none
unicode_strip_invisible (some s) = some (strip_from (length s) true s)

-- U+FFFD
abbrev pub replacement : Bytes
replacement = 0xEF ∷ 0xBF ∷ 0xBD ∷ []

abbrev pub is_surrogate : ℕ → Bool
is_surrogate cp = leb 0xD800 cp && leb cp 0xDFFF

abbrev pub sanitize_piece : Bytes → Option (ℕ × ℕ) → Bytes
sanitize_piece s none = replacement
sanitize_piece s (some (n, cp)) = if is_surrogate cp then replacement else take n s

unfoldable pub sanitize_from : ℕ → Bytes → Bytes
sanitize_from zero s = []
sanitize_from (suc f) [] = []
sanitize_from (suc f) (c ∷ s) =
    sanitize_piece (c ∷ s) (decode_utf8_strict (c ∷ s))
    ++ sanitize_from f (drop (advance (decode_utf8_strict (c ∷ s))) (c ∷ s))

-- The bound on the length concerns the allocation, which is taken to succeed.
unfoldable pub utf8_sanitize : Option Bytes → Option Bytes
unfolding sanitize_from decode_utf8_strict
utf8_sanitize none = none
utf8_sanitize (some s) = some (sanitize_from (length s) s)
