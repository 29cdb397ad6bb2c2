-- ===== src/Unicode/Examples.antt =====
-- Runs of the code of src/unicode_normalize.c.
use cclaw.Prelude.{◌≡◌, refl, [], ◌∷◌, some, Bytes, arith}
use cclaw.Unicode.{unicode_strip_invisible, utf8_sanitize}
use cclaw.Unicode.Repair.{IsClean, utf8_sanitize_lem}

utf8_sanitize_lem_example :
    (r : Bytes) × (utf8_sanitize (some (0x61 ∷ 0x80 ∷ 0x62 ∷ [])) ≡ some r)
    × IsClean r
    × (utf8_sanitize (some r) ≡ some r)
    × (IsClean (0x61 ∷ 0x80 ∷ 0x62 ∷ []) → r ≡ 0x61 ∷ 0x80 ∷ 0x62 ∷ [])
utf8_sanitize_lem_example =
    utf8_sanitize_lem (0x61 ∷ 0x80 ∷ 0x62 ∷ []) (omega arith, (omega arith, (omega arith, tt)))

stray-test :
    utf8_sanitize (some (0x61 ∷ 0x80 ∷ 0x62 ∷ [])) ≡ some (0x61 ∷ 0xEF ∷ 0xBF ∷ 0xBD ∷ 0x62 ∷ [])
unfolding utf8_sanitize
stray-test = refl

-- the overlong form of U+0000 is kept
overlong-test : utf8_sanitize (some (0xC0 ∷ 0x80 ∷ [])) ≡ some (0xC0 ∷ 0x80 ∷ [])
unfolding utf8_sanitize
overlong-test = refl

-- what is left around a removed zero-width space can form another one
nested-test :
    unicode_strip_invisible (some (0xE2 ∷ 0xE2 ∷ 0x80 ∷ 0x8B ∷ 0x80 ∷ 0x8B ∷ []))
    ≡ some (0xE2 ∷ 0x80 ∷ 0x8B ∷ [])
unfolding unicode_strip_invisible
nested-test = refl
