-- ===== src/Base64.antt =====
-- `base64_encode` of src/util.c. The allocation is taken to succeed. RoundTrip reads it back.
pub mod RoundTrip
mod Examples
use cclaw.Prelude.{
  ℕ, zero, suc, ◌+◌, ◌*◌, ◌/◌, ◌≡◌, refl, List, [], ◌∷◌, ◌++◌, ap, arith, Bytes, codes, length,
  get_or, bit_and,
}

abbrev pub tbl : Bytes
tbl = codes "ABCDEFGHIJKLMNOPQRSTUVWXYZabcdefghijklmnopqrstuvwxyz0123456789+/"

-- The sums stand for `|`, whose operands share no bit.
abbrev pub group_of : ℕ → ℕ → ℕ → ℕ
group_of a b c = a * 65536 + b * 256 + c

abbrev pub digit_of : ℕ → ℕ
digit_of v = get_or tbl (bit_and v 63) 0

unfoldable pub base64_encode : Bytes → Bytes
base64_encode [] = []
base64_encode (a ∷ []) =
    let v = group_of a 0 0 in get_or tbl (v / 262144) 0 ∷ digit_of (v / 4096) ∷ b'=' ∷ b'=' ∷ []
base64_encode (a ∷ b ∷ []) =
    let v = group_of a b 0 in
    get_or tbl (v / 262144) 0 ∷ digit_of (v / 4096) ∷ digit_of (v / 64) ∷ b'=' ∷ []
base64_encode (a ∷ b ∷ c ∷ buf) =
    let v = group_of a b c in
    get_or tbl (v / 262144) 0
    ∷ digit_of (v / 4096)
    ∷ digit_of (v / 64)
    ∷ digit_of v
    ∷ base64_encode buf
