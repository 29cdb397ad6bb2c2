-- ===== src/JsonEscape/Examples.antt =====
-- Runs of src/json_escape.c.
use cclaw.Prelude.{◌≡◌, ◌≤◌, ◌<◌, refl, All, [], ◌∷◌, length, codes, arith}
use cclaw.JsonEscape.{json_escape, json_unescape}
use cclaw.JsonEscape.RoundTrip.{json_unescape-json_escape}
use cclaw.JsonEscape.Bounds.{IsPrintable, json_escape_lem}

json_escape_lem_example :
    (length (json_escape 12 (codes "a\nb")) < 12)
    × All IsPrintable (json_escape 12 (codes "a\nb"))
    × (length (json_unescape 12 (codes "a\nb")) ≤ 12)
json_escape_lem_example = json_escape_lem 12 (codes "a\nb") (omega arith)

-- a code point beyond the first plane, from its two halves
pair-test : json_unescape 8 (codes "\\ud83d\\ude00") ≡ 0xF0 ∷ 0x9F ∷ 0x98 ∷ 0x80 ∷ []
unfolding json_unescape
pair-test = refl

-- a character that does not fit is left out, and the text behind it is still decoded
left_out-test : json_unescape 3 (codes "a\\u20acb") ≡ codes "ab"
unfolding json_unescape
left_out-test = refl

json_unescape-json_escape_example :
    json_unescape 5 (json_escape 31 (codes "a\n\"b\\")) ≡ codes "a\n\"b\\"
json_unescape-json_escape_example =
    json_unescape-json_escape 31 5 (codes "a\n\"b\\") (omega arith) (omega arith)
