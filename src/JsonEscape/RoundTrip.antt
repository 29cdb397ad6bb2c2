-- ===== src/JsonEscape/RoundTrip.antt =====
-- What src/json_escape.c escapes, it reads back.
use cclaw.Prelude.{
  ℕ, zero, suc, ◌+◌, ◌*◌, ◌/◌, ◌%◌, ◌≤◌, ◌<◌, ◌≡◌, refl, ap, ◌∙◌, true, false, [], ◌∷◌, ◌++◌, some,
  ltb, leb, ltb→lt, lt→ltb, ◌==◌, Bytes, length, length-append, arith, Bool-cases, inl, inr,
}
use cclaw.JsonEscape.Bounds.{escape_one-short}
use cclaw.JsonEscape.{
  add_digit, unicode_at, encoded, parse_hex_digit, hex_value, code_point, encode, unicode, escaped,
  unescape_one, unescape_from, json_unescape, hex_digit, escape_one, escape_from, json_escape,
}

-- The whole text escaped, in a buffer without end.
unfoldable escape_all : Bytes → Bytes
escape_all [] = []
escape_all (c ∷ s) = escape_one c ++ escape_all s

escape_from-escape_all :
    (cap w : ℕ) (s : Bytes) → w + 6 * length s < cap → escape_from cap w s ≡ escape_all s
unfolding escape_from escape_all
escape_from-escape_all cap w [] h = refl
escape_from-escape_all cap w (c ∷ s) h =
    let short : length (escape_one c) ≤ 6 = escape_one-short c in
    rw (lt→ltb (w + 6) cap (omega arith)) (
      ap (λ later. escape_one c ++ later)
        (escape_from-escape_all cap (w + length (escape_one c)) s (omega (arith, short))))

parse_hex_digit-hex_digit : (v : ℕ) → v < 16 → parse_hex_digit (hex_digit v) ≡ some v
unfolding parse_hex_digit
parse_hex_digit-hex_digit v h = ground arith

hex_value-digit :
    (cp c v : ℕ) (s : Bytes)
    → parse_hex_digit c ≡ some v
    → hex_value (some cp) (c ∷ s) ≡ hex_value (some (cp * 16 + v)) s
unfolding hex_value
hex_value-digit cp c v s e = ap (λ o. hex_value (add_digit cp o) s) e

hex_value-nil : (a b : ℕ) → a ≡ b → hex_value (some a) [] ≡ some b
unfolding hex_value
hex_value-nil a b e = ap some e

hex_value-digits :
    (c : ℕ)
    → c < 32
    → hex_value (some 0) (b'0' ∷ b'0' ∷ hex_digit (c / 16) ∷ hex_digit (c % 16) ∷ []) ≡ some c
hex_value-digits c h =
    hex_value-digit 0 b'0' 0 _ (parse_hex_digit-hex_digit 0 (omega arith))
    ∙ hex_value-digit 0 b'0' 0 _ (parse_hex_digit-hex_digit 0 (omega arith))
    ∙ hex_value-digit 0 (hex_digit (c / 16)) (c / 16) _
        (parse_hex_digit-hex_digit (c / 16) (omega arith))
    ∙ ap (λ cp. hex_value (some cp) (hex_digit (c % 16) ∷ [])) (omega arith)
    ∙ hex_value-digit (c / 16) (hex_digit (c % 16)) (c % 16) _
        (parse_hex_digit-hex_digit (c % 16) (omega arith))
    ∙ hex_value-nil (c / 16 * 16 + c % 16) c (omega arith)

four_long : (n : ℕ) → leb 4 (suc (suc (suc (suc n)))) ≡ true
four_long n = ground arith

small_point :
    (cap w c : ℕ) (rest : Bytes) → c < 32 → encoded cap w (code_point c rest) ≡ (c ∷ [], rest)
unfolding code_point encode
small_point cap w c rest h =
    let low : leb 0xD800 c ≡ false = ground arith in
    let lower : leb 0xDC00 c ≡ false = ground arith in
    let ascii : ltb c 0x80 ≡ true = ground arith in rw (low, lower, ascii) refl

unicode-control :
    (cap w c : ℕ) (rest : Bytes)
    → c < 32
    → unicode cap w (b'0' ∷ b'0' ∷ hex_digit (c / 16) ∷ hex_digit (c % 16) ∷ rest) ≡ (c ∷ [], rest)
unfolding unicode code_point encode
unicode-control cap w c rest h = rw (four_long (length rest)) (
    ap (unicode_at cap w (b'0' ∷ b'0' ∷ hex_digit (c / 16) ∷ hex_digit (c % 16) ∷ rest))
      (hex_value-digits c h)
    ∙ small_point cap w c rest h)

-- How the escape of a byte begins, and that one round reads it.
record Reads (cap w c : ℕ) (rest : Bytes) : Type 0 where
  first : ℕ
  others : Bytes
  written : escape_one c ++ rest ≡ first ∷ others
  read : unescape_one cap w first others ≡ (c ∷ [], rest)

unescape_one-plain :
    (cap w c : ℕ) (rest : Bytes) → (c == b'\\') ≡ false → unescape_one cap w c rest ≡ (c ∷ [], rest)
unfolding unescape_one
unescape_one-plain cap w c [] e = refl
unescape_one-plain cap w c (d ∷ rest) e = rw e refl

abbrev piece_of : ℕ → Bytes → Bytes × Bytes
piece_of c rest = (c ∷ [], rest)

same_piece : (c d : ℕ) (rest : Bytes) → (c == d) ≡ true → piece_of d rest ≡ piece_of c rest
same_piece c d rest e = let same : d ≡ c = ground arith in ap (λ x. piece_of x rest) same

escape_one-Reads : (cap w c : ℕ) (rest : Bytes) → Reads cap w c rest
unfolding escape_one unescape_one escaped
escape_one-Reads cap w c rest = elim (Bool-cases (c == b'"')) [
  | inl e ↦ record {
    first = b'\\';
    others = b'"' ∷ rest;
    written = rw e refl;
    read = same_piece c b'"' rest e;
  }
  | inr quote ↦ elim (Bool-cases (c == b'\\')) [
    | inl e ↦ record {
      first = b'\\';
      others = b'\\' ∷ rest;
      written = rw (quote, e) refl;
      read = same_piece c b'\\' rest e;
    }
    | inr slash ↦ elim (Bool-cases (c == 10)) [
      | inl e ↦ record {
        first = b'\\';
        others = b'n' ∷ rest;
        written = rw (quote, slash, e) refl;
        read = same_piece c 10 rest e;
      }
      | inr line ↦ elim (Bool-cases (c == 13)) [
        | inl e ↦ record {
          first = b'\\';
          others = b'r' ∷ rest;
          written = rw (quote, slash, line, e) refl;
          read = same_piece c 13 rest e;
        }
        | inr return ↦ elim (Bool-cases (c == 9)) [
          | inl e ↦ record {
            first = b'\\';
            others = b't' ∷ rest;
            written = rw (quote, slash, line, return, e) refl;
            read = same_piece c 9 rest e;
          }
          | inr tab ↦ elim (Bool-cases (ltb c 0x20)) [
            | inl e ↦ record {
              first = b'\\';
              others = b'u' ∷ b'0' ∷ b'0' ∷ hex_digit (c / 16) ∷ hex_digit (c % 16) ∷ rest;
              written = rw (quote, slash, line, return, tab, e) refl;
              read = unicode-control cap w c rest (ltb→lt c 0x20 e);
            }
            | inr e ↦ record {
              first = c;
              others = rest;
              written = rw (quote, slash, line, return, tab, e) refl;
              read = unescape_one-plain cap w c rest slash;
            }
          ]
        ]
      ]
    ]
  ]
]

unescape_from-read :
    (fuel cap w c first : ℕ) (others rest : Bytes)
    → w < cap
    → unescape_one cap w first others ≡ (c ∷ [], rest)
    → unescape_from (suc fuel) cap w (first ∷ others) ≡ c ∷ unescape_from fuel cap (w + 1) rest
unfolding unescape_from
unescape_from-read fuel cap w c first others rest h e =
    rw (lt→ltb w cap h)
      (ap (λ (p : Bytes × Bytes). p.0 ++ unescape_from fuel cap (w + length p.0) p.1) e)

round-escape_one :
    (fuel cap w c : ℕ) (rest : Bytes)
    → w < cap
    → unescape_from (suc fuel) cap w (escape_one c ++ rest)
      ≡ c ∷ unescape_from fuel cap (w + 1) rest
round-escape_one fuel cap w c rest h =
    let r = escape_one-Reads cap w c rest in
    ap (unescape_from (suc fuel) cap w) r.written
    ∙ unescape_from-read fuel cap w c r.first r.others rest h r.read

unescape_from-escape_all :
    (fuel cap w : ℕ) (s : Bytes)
    → length s ≤ fuel
    → w + length s ≤ cap
    → unescape_from fuel cap w (escape_all s) ≡ s
unfolding escape_all unescape_from
unescape_from-escape_all zero cap w [] f h = refl
unescape_from-escape_all (suc fuel) cap w [] f h = refl
unescape_from-escape_all zero cap w (c ∷ s) f h = absurd (omega arith)
unescape_from-escape_all (suc fuel) cap w (c ∷ s) f h =
    round-escape_one fuel cap w c (escape_all s) (omega arith)
    ∙ ap (λ t. c ∷ t) (unescape_from-escape_all fuel cap (w + 1) s (omega arith) (omega arith))

escape_one-long : (c : ℕ) → 1 ≤ length (escape_one c)
unfolding escape_one
escape_one-long c = ground arith

length-escape_all : (s : Bytes) → length s ≤ length (escape_all s)
unfolding escape_all
length-escape_all [] = omega arith
length-escape_all (c ∷ s) =
    omega
      (arith, length-append (escape_one c) (escape_all s), escape_one-long c, length-escape_all s)

-- A text of any bytes that is escaped into a buffer of more than six times its length, and read back
-- into one of at least its length, is the text.
pub json_unescape-json_escape :
    (cap room : ℕ) (s : Bytes)
    → 6 * length s < cap
    → length s ≤ room
    → json_unescape room (json_escape cap s) ≡ s
unfolding json_unescape json_escape
json_unescape-json_escape cap room s h k =
    rw (escape_from-escape_all cap 0 s (omega arith)) (
      unescape_from-escape_all (length (escape_all s)) room 0 s (length-escape_all s) (omega arith))
