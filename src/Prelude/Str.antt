-- ===== src/Prelude/Str.antt =====
-- A C string: the bytes in front of its terminating NUL.
use Prim.Native.Nat.{ℕ, ◌≤◌}
use Prim.Native.Char.{code}
use Prim.Native.String.{String}
use mathlib.Core.Path.{◌≡◌, refl}
use mathlib.Core.Bool.{Bool, true, false, ◌&&◌}
use mathlib.Core.List.{List, [], ◌∷◌}
use native.Mathlib.Omega.{arith}
use cclaw.Prelude.Tests.{◌==◌}
use cclaw.Prelude.Lists.{All}

abbrev pub Bytes : Type 0
Bytes = List ℕ

-- A byte that can stand in a C string.
abbrev pub IsTextByte : ℕ → Type 0
IsTextByte c = (1 ≤ c) × (c ≤ 255)

abbrev pub IsText : Bytes → Type 0
IsText = All IsTextByte

abbrev pub IsByte : ℕ → Type 0
IsByte c = c ≤ 255

abbrev pub AreBytes : Bytes → Type 0
AreBytes = All IsByte

-- The bytes of a text literal, which is ASCII wherever it is used.
abbrev pub codes : String → Bytes
codes String.[] = []
codes (String.◌∷◌ c s) = code c ∷ codes s

-- `strcmp(a, b) == 0`, and `memcmp(a, b, n) == 0` on two arrays of n bytes.
abbrev pub bytes_eq : Bytes → Bytes → Bool
bytes_eq [] [] = true
bytes_eq [] (y ∷ b) = false
bytes_eq (x ∷ a) [] = false
bytes_eq (x ∷ a) (y ∷ b) = x == y && bytes_eq a b

pub bytes_eq→eq : (a b : Bytes) → bytes_eq a b ≡ true → a ≡ b
bytes_eq→eq [] [] h = refl
bytes_eq→eq [] (y ∷ b) h = ground arith
bytes_eq→eq (x ∷ a) [] h = ground arith
bytes_eq→eq (x ∷ a) (y ∷ b) h = ground (arith, bytes_eq→eq a b)

pub bytes_eq_refl : (a : Bytes) → bytes_eq a a ≡ true
bytes_eq_refl [] = refl
bytes_eq_refl (x ∷ a) = ground (arith, bytes_eq_refl a)
