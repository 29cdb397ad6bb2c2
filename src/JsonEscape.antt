-- ===== src/JsonEscape.antt =====
-- src/json_escape.c: the escaping of a text for a JSON string, and back, into a buffer of `cap`
-- bytes of which `w` are written. Bounds is about what may be written. Each round of the decoder
-- takes at least one byte, so the length is fuel enough.
pub mod Bounds
pub mod RoundTrip
mod Examples
use cclaw.Prelude.{
  ℕ, zero, suc, ◌+◌, ◌-◌, ◌*◌, ◌/◌, ◌%◌, Bool, true, false, ◌&&◌, ◌||◌, List, [], ◌∷◌, ◌++◌, Option,
  none, some, ltb, leb, ◌==◌, if◌then◌else◌, Bytes, length, take, drop, get_or, bit_and, bit_or,
}

-- -1 is `none`.
unfoldable pub parse_hex_digit : ℕ → Option ℕ
parse_hex_digit c =
    if leb b'0' c && leb c b'9'
    then some (c - b'0')
    else if leb b'a' c && leb c b'f'
    then some (c - b'a' + 10)
    else if leb b'A' c && leb c b'F'
    then some (c - b'A' + 10)
    else none

-- `(cp << 4) | v` over the digits.
abbrev pub add_digit : ℕ → Option ℕ → Option ℕ
add_digit cp none = none
add_digit cp (some v) = some (cp * 16 + v)

unfoldable pub hex_value : Option ℕ → Bytes → Option ℕ
unfolding parse_hex_digit
hex_value none s = none
hex_value (some cp) [] = some cp
hex_value (some cp) (c ∷ s) = hex_value (add_digit cp (parse_hex_digit c)) s

-- A low surrogate `\uDC00`..`\uDFFF` behind the high one, with its six bytes.
abbrev pub low_value : Option ℕ → Option ℕ
low_value none = none
low_value (some lo) = if leb 0xDC00 lo && leb lo 0xDFFF then some lo else none

unfoldable pub low_surrogate : Bytes → Option ℕ
unfolding hex_value
low_surrogate s =
    if leb 6 (length s) && (get_or s 0 0 == b'\\' && get_or s 1 0 == b'u')
    then low_value (hex_value (some 0) (take 4 (drop 2 s)))
    else none

abbrev pub pair_at : ℕ → Bytes → Option ℕ → ℕ × Bytes
pair_at cp s none = (0xFFFD, s)
pair_at cp s (some lo) = (0x10000 + (cp - 0xD800) * 1024 + (lo - 0xDC00), drop 6 s)

-- The code point that is meant, and the text left.
unfoldable pub code_point : ℕ → Bytes → ℕ × Bytes
unfolding low_surrogate
code_point cp s =
    if leb 0xD800 cp && leb cp 0xDBFF
    then pair_at cp s (low_surrogate s)
    else if leb 0xDC00 cp && leb cp 0xDFFF
    then (0xFFFD, s)
    else (cp, s)

-- The UTF-8 form, or nothing where it does not fit.
unfoldable pub encode : ℕ → ℕ → ℕ → Bytes
encode cap w cp =
    if ltb cp 0x80
    then cp ∷ []
    else if ltb cp 0x800 && ltb (w + 1) cap
    then bit_or 0xC0 (cp / 64) ∷ bit_or 0x80 (bit_and cp 0x3F) ∷ []
    else if ltb cp 0x10000 && ltb (w + 2) cap
    then bit_or 0xE0 (cp / 4096)
      ∷ bit_or 0x80 (bit_and (cp / 64) 0x3F)
      ∷ bit_or 0x80 (bit_and cp 0x3F)
      ∷ []
    else if leb 0x10000 cp && ltb (w + 3) cap
    then bit_or 0xF0 (cp / 262144)
      ∷ bit_or 0x80 (bit_and (cp / 4096) 0x3F)
      ∷ bit_or 0x80 (bit_and (cp / 64) 0x3F)
      ∷ bit_or 0x80 (bit_and cp 0x3F)
      ∷ []
    else []

abbrev pub encoded : ℕ → ℕ → ℕ × Bytes → Bytes × Bytes
encoded cap w (cp, s) = (encode cap w cp, s)

abbrev pub unicode_at : ℕ → ℕ → Bytes → Option ℕ → Bytes × Bytes
unicode_at cap w s none = (b'u' ∷ [], s)
unicode_at cap w s (some cp) = encoded cap w (code_point cp (drop 4 s))

-- Behind `\u`: what is written, and the text left.
unfoldable pub unicode : ℕ → ℕ → Bytes → Bytes × Bytes
unfolding code_point encode hex_value
unicode cap w s =
    if leb 4 (length s) then unicode_at cap w s (hex_value (some 0) (take 4 s)) else (b'u' ∷ [], s)

-- Behind a backslash.
unfoldable pub escaped : ℕ → ℕ → ℕ → Bytes → Bytes × Bytes
unfolding unicode
escaped cap w c s =
    if c == b'n'
    then (10 ∷ [], s)
    else if c == b'r'
    then (13 ∷ [], s)
    else if c == b't'
    then (9 ∷ [], s)
    else if c == b'u'
    then unicode cap w s
    else (c ∷ [], s)

-- One round.
unfoldable pub unescape_one : ℕ → ℕ → ℕ → Bytes → Bytes × Bytes
unfolding escaped
unescape_one cap w c [] = (c ∷ [], [])
unescape_one cap w c (d ∷ s) = if c == b'\\' then escaped cap w d s else (c ∷ [], d ∷ s)

unfoldable pub unescape_from : ℕ → ℕ → ℕ → Bytes → Bytes
unfolding unescape_one
unescape_from zero cap w s = []
unescape_from (suc fuel) cap w [] = []
unescape_from (suc fuel) cap w (c ∷ s) =
    let (piece, rest) = unescape_one cap w c s in
    let later = unescape_from fuel cap (w + length piece) rest in
    if ltb w cap then piece ++ later else []

-- The bytes written to `dest`.
unfoldable pub json_unescape : ℕ → Bytes → Bytes
unfolding unescape_from
json_unescape cap src = unescape_from (length src) cap 0 src

abbrev pub hex_digit : ℕ → ℕ
hex_digit v = if ltb v 10 then b'0' + v else b'a' + (v - 10)

unfoldable pub escape_one : ℕ → Bytes
escape_one c =
    if c == b'"'
    then b'\\' ∷ b'"' ∷ []
    else if c == b'\\'
    then b'\\' ∷ b'\\' ∷ []
    else if c == 10
    then b'\\' ∷ b'n' ∷ []
    else if c == 13
    then b'\\' ∷ b'r' ∷ []
    else if c == 9
    then b'\\' ∷ b't' ∷ []
    else if ltb c 0x20
    then b'\\' ∷ b'u' ∷ b'0' ∷ b'0' ∷ hex_digit (c / 16) ∷ hex_digit (c % 16) ∷ []
    else c ∷ []

unfoldable pub escape_from : ℕ → ℕ → Bytes → Bytes
unfolding escape_one
escape_from cap w [] = []
escape_from cap w (c ∷ s) =
    let later = escape_from cap (w + length (escape_one c)) s in
    if ltb (w + 6) cap then escape_one c ++ later else []

-- The bytes written to `dest` in front of the NUL.
unfoldable pub json_escape : ℕ → Bytes → Bytes
unfolding escape_from
json_escape cap src = escape_from cap 0 src
