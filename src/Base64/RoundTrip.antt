-- ===== src/Base64/RoundTrip.antt =====
-- What `base64_encode` of src/util.c writes, RFC 4648 reads back.
use Prim.Native.Nat.{digits, bit_and-bitwise}
use cclaw.Prelude.{
  leb, ◌&&◌, ◌-◌, ℕ, zero, suc, ◌+◌, ◌*◌, ◌/◌, ◌%◌, ◌≤◌, ◌<◌, ◌≡◌, refl, sym, ap, ap₂, ◌∙◌, Bool,
  true, false, not, [], ◌∷◌, arith, Bytes, AreBytes, IsByte, length, get_or, bit_and, min,
  if◌then◌else◌, ◌==◌, ==_iff,
}
use cclaw.Host.Cidr.Bits.{table_holds, table_entry}
use cclaw.Base64.{tbl, group_of, digit_of, base64_encode}

-- The last `k` binary digits of a number, and the number that has those alone.
abbrev low : ℕ → ℕ → ℕ
low zero v = 0
low (suc k) v = low k (v / 2) * 2 + v % 2

abbrev ones : ℕ → ℕ
ones zero = 0
ones (suc k) = ones k * 2 + 1

min_zero : (x : ℕ) → min x 0 ≡ 0
min_zero zero = refl
min_zero (suc x) = omega arith

min_one : (x : ℕ) → x < 2 → min x 1 ≡ x
min_one zero h = refl
min_one (suc zero) h = refl
min_one (suc (suc x)) h = omega arith

low_zero : (k : ℕ) → low k 0 ≡ 0
low_zero zero = refl
low_zero (suc k) = omega (arith, low_zero k)

digits-none : (n v : ℕ) → digits (λ b. zero) min n v 0 ≡ 0
digits-none zero v = refl
digits-none (suc n) zero = refl
digits-none (suc n) (suc v) =
    ap₂ (λ x y. x * 2 + y) (digits-none n (suc v / 2)) (min_zero (suc v % 2))

digits-ones : (k n v : ℕ) → v ≤ n → digits (λ b. zero) min n v (ones k) ≡ low k v
digits-ones k zero v h = sym (low_zero k) ∙ ap (low k) (omega arith)
digits-ones k (suc n) zero h = sym (low_zero k)
digits-ones zero (suc n) (suc v) h = digits-none (suc n) (suc v)
digits-ones (suc k) (suc n) (suc v) h =
    ap₂ (λ x y. x * 2 + y)
      (ap (digits (λ b. zero) min n (suc v / 2)) (omega arith)
        ∙ digits-ones k n (suc v / 2) (omega arith))
      (ap (min (suc v % 2)) (omega arith) ∙ min_one (suc v % 2) (omega arith))

bit_and-63 : (v : ℕ) → bit_and v 63 ≡ v % 64
bit_and-63 v = bit_and-bitwise v 63 ∙ digits-ones 6 v v (omega arith) ∙ omega arith

-- The value of a digit by table 1 of RFC 4648; that of the padding is 0.
abbrev value : ℕ → ℕ
value c =
    if c == b'='
    then 0
    else if leb b'A' c && leb c b'Z'
    then c - b'A'
    else if leb b'a' c && leb c b'z'
    then c - b'a' + 26
    else if leb b'0' c && leb c b'9'
    then c - b'0' + 52
    else if c == b'+'
    then 62
    else if c == b'/'
    then 63
    else 64

-- The bytes of a group of four digits: whether the third and the fourth are padding, and the rest.
abbrev decode_group : ℕ → Bool → Bool → Bytes → Bytes
decode_group v true short rest = v / 65536 ∷ []
decode_group v false true rest = v / 65536 ∷ v / 256 % 256 ∷ []
decode_group v false false rest = v / 65536 ∷ v / 256 % 256 ∷ v % 256 ∷ rest

abbrev joined_value : ℕ → ℕ → ℕ → ℕ → ℕ
joined_value p q r s = ((p * 64 + q) * 64 + r) * 64 + s

unfoldable pub base64_decode : Bytes → Bytes
base64_decode (p ∷ q ∷ r ∷ s ∷ text) =
    decode_group (joined_value (value p) (value q) (value r) (value s)) (r == b'=') (s == b'=')
      (base64_decode text)
base64_decode _ = []

values : table_holds 64 (λ k. value (get_or tbl k 0) == k) ≡ true
unfolding table_holds
values = refl

no_padding : table_holds 64 (λ k. not (get_or tbl k 0 == b'=')) ≡ true
unfolding table_holds
no_padding = refl

value_entry : (k : ℕ) → k < 64 → value (get_or tbl k 0) ≡ k
value_entry k h = (==_iff _ _).0 (table_entry 64 _ k values h)

not_padding : (k : ℕ) → k < 64 → (get_or tbl k 0 == b'=') ≡ false
not_padding k h = ground (table_entry 64 _ k no_padding h, arith)

value-digit_of : (v : ℕ) → value (digit_of v) ≡ v % 64
value-digit_of v =
    ap (λ k. value (get_or tbl k 0)) (bit_and-63 v) ∙ value_entry (v % 64) (omega arith)

digit_of-not_padding : (v : ℕ) → (digit_of v == b'=') ≡ false
digit_of-not_padding v =
    ap (λ k. get_or tbl k 0 == b'=') (bit_and-63 v) ∙ not_padding (v % 64) (omega arith)

joined_digits :
    (p q r s v : ℕ)
    → v < 16777216
    → p ≡ v / 262144
    → q ≡ v / 4096 % 64
    → r ≡ v / 64 % 64
    → s ≡ v % 64
    → joined_value p q r s ≡ v
joined_digits p q r s v h hp hq hr hs = omega arith

group_bytes :
    (a b c : ℕ)
    → IsByte b
    → IsByte c
    → (group_of a b c / 65536 ≡ a) × (group_of a b c / 256 % 256 ≡ b) × (group_of a b c % 256 ≡ c)
group_bytes a b c hb hc = (omega arith, omega arith, omega arith)

-- The text that is written fills the block of four bytes for each three begun that is allocated for
-- it, with its NUL behind, and a reader with the alphabet of RFC 4648 has the bytes back from it,
-- whatever bytes they are.
pub base64_encode_lem :
    (buf : Bytes)
    → AreBytes buf
    → (length (base64_encode buf) ≡ (length buf + 2) / 3 * 4)
      × (base64_decode (base64_encode buf) ≡ buf)
unfolding base64_encode base64_decode
base64_encode_lem [] h = (refl, refl)
base64_encode_lem (a ∷ []) (ha, _) =
    let v = group_of a 0 0 in
    let whole =
      joined_digits _ _ 0 0 v (omega arith) (value_entry (v / 262144) (omega arith))
        (value-digit_of (v / 4096)) (omega arith) (omega arith) in
    (
      refl,
      λ i. (ap (λ x. x / 65536) whole ∙ (group_bytes a 0 0 (omega arith) (omega arith)).0) i ∷ [],
    )
base64_encode_lem (a ∷ b ∷ []) (ha, (hb, _)) =
    let v = group_of a b 0 in
    let whole =
      joined_digits _ _ _ 0 v (omega arith) (value_entry (v / 262144) (omega arith))
        (value-digit_of (v / 4096)) (value-digit_of (v / 64)) (omega arith) in
    (
      refl,
      ap₂ (λ x t. decode_group x t true []) whole (digit_of-not_padding (v / 64)) ∙ (λ i.
          (group_bytes a b 0 hb (omega arith)).0 i ∷ (group_bytes a b 0 hb (omega arith)).1 i ∷ []),
    )
base64_encode_lem (a ∷ b ∷ c ∷ buf) (ha, (hb, (hc, h))) =
    let v = group_of a b c in
    let (written, read) = base64_encode_lem buf h in
    let whole =
      joined_digits _ _ _ _ v (omega arith) (value_entry (v / 262144) (omega arith))
        (value-digit_of (v / 4096)) (value-digit_of (v / 64)) (value-digit_of v) in
    let bytes = group_bytes a b c hb hc in
    (
      omega (arith, written),
      (λ i.
            decode_group (whole i) (digit_of-not_padding (v / 64) i) (digit_of-not_padding v i)
              (read i))
          ∙ (λ i. bytes.0 i ∷ bytes.1 i ∷ bytes.2 i ∷ buf),
    )
