-- ===== src/JsonEscape/Bounds.antt =====
-- The buffers of src/json_escape.c are not overrun.
use cclaw.Prelude.{
  ℕ, zero, suc, ◌+◌, ◌≤◌, ◌<◌, [], ◌∷◌, Option, none, some, ltb, leb, ltb→lt, All, All-append,
  Bytes, length, length-append, take, drop, arith, Bool-cases, inl, inr,
}
use cclaw.JsonEscape.{
  encode, code_point, unicode_at, unicode, hex_value, escaped, unescape_one, unescape_from,
  json_unescape, escape_one, escape_from, json_escape,
}

encode-fits : (cap w cp : ℕ) → w < cap → w + length (encode cap w cp) ≤ cap
unfolding encode
encode-fits cap w cp h = ground arith

unicode_at-fits :
    (cap w : ℕ) (s : Bytes) (o : Option ℕ) → w < cap → w + length (unicode_at cap w s o).0 ≤ cap
unicode_at-fits cap w s none h = omega arith
unicode_at-fits cap w s (some cp) h = encode-fits cap w (code_point cp (drop 4 s)).0 h

unicode-fits : (cap w : ℕ) (s : Bytes) → w < cap → w + length (unicode cap w s).0 ≤ cap
unfolding unicode
unicode-fits cap w s h = elim (Bool-cases (leb 4 (length s))) [
  | inl e ↦ rw e (unicode_at-fits cap w s (hex_value (some 0) (take 4 s)) h)
  | inr e ↦ rw e (omega arith)
]

escaped-fits : (cap w c : ℕ) (s : Bytes) → w < cap → w + length (escaped cap w c s).0 ≤ cap
unfolding escaped
escaped-fits cap w c s h = ground (arith, unicode-fits cap w s h)

one-fits : (cap w c : ℕ) (s : Bytes) → w < cap → w + length (unescape_one cap w c s).0 ≤ cap
unfolding unescape_one
one-fits cap w c [] h = omega arith
one-fits cap w c (d ∷ s) h = ground (arith, escaped-fits cap w d s h)

unescape-fits :
    (fuel cap w : ℕ) (s : Bytes) → w ≤ cap → w + length (unescape_from fuel cap w s) ≤ cap
unfolding unescape_from
unescape-fits zero cap w s h = omega arith
unescape-fits (suc fuel) cap w [] h = omega arith
unescape-fits (suc fuel) cap w (c ∷ s) h = elim (Bool-cases (ltb w cap)) [
  | inr e ↦ rw e (omega arith)
  | inl e ↦
      let (piece, rest) = unescape_one cap w c s in
      let fits : w + length piece ≤ cap = one-fits cap w c s (ltb→lt w cap e) in
      let later = unescape-fits fuel cap (w + length piece) rest fits in
      rw e
        (omega (arith, length-append piece (unescape_from fuel cap (w + length piece) rest), later))
]

json_unescape-fits : (cap : ℕ) (src : Bytes) → length (json_unescape cap src) ≤ cap
unfolding json_unescape
json_unescape-fits cap src = omega (arith, unescape-fits (length src) cap 0 src)

-- A byte that may stand in a JSON string as it is, or as a part of an escape.
abbrev pub IsPrintable : ℕ → Type 0
IsPrintable b = 0x20 ≤ b

pub escape_one-short : (c : ℕ) → length (escape_one c) ≤ 6
unfolding escape_one
escape_one-short c = ground arith

escape_one-IsPrintable : (c : ℕ) → All IsPrintable (escape_one c)
unfolding escape_one
escape_one-IsPrintable c = ground arith

escape-fits : (cap w : ℕ) (s : Bytes) → w < cap → w + length (escape_from cap w s) < cap
unfolding escape_from
escape-fits cap w [] h = omega arith
escape-fits cap w (c ∷ s) h = elim (Bool-cases (ltb (w + 6) cap)) [
  | inr e ↦ rw e (omega arith)
  | inl e ↦
      let short = escape_one-short c in
      let room = ltb→lt (w + 6) cap e in
      let later = escape-fits cap (w + length (escape_one c)) s (omega arith) in
      rw e (
        omega (
          arith,
          length-append (escape_one c) (escape_from cap (w + length (escape_one c)) s),
          later,
        ))
]

escape-IsPrintable : (cap w : ℕ) (s : Bytes) → All IsPrintable (escape_from cap w s)
unfolding escape_from
escape-IsPrintable cap w [] = tt
escape-IsPrintable cap w (c ∷ s) = elim (Bool-cases (ltb (w + 6) cap)) [
  | inr e ↦ rw e tt
  | inl e ↦ rw e (
      All-append IsPrintable (escape_one c) (escape_from cap (w + length (escape_one c)) s)
        (escape_one-IsPrintable c) (escape-IsPrintable cap (w + length (escape_one c)) s))
]

-- Neither overruns its buffer, whatever the text is: with one of at least one byte, what `json_escape`
-- writes leaves room for its NUL, and holds no control byte; `json_unescape` writes at most `cap`
-- bytes.
pub json_escape_lem :
    (cap : ℕ) (src : Bytes)
    → 0 < cap
    → (length (json_escape cap src) < cap)
      × All IsPrintable (json_escape cap src)
      × (length (json_unescape cap src) ≤ cap)
unfolding json_escape
json_escape_lem cap src h = (
  omega (arith, escape-fits cap 0 src h),
  escape-IsPrintable cap 0 src,
  json_unescape-fits cap src,
)
