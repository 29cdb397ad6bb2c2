-- ===== src/Base64/Examples.antt =====
-- Runs of `base64_encode` of src/util.c.
use cclaw.Prelude.{◌≡◌, refl, ◌+◌, ◌*◌, ◌/◌, codes, length, arith}
use cclaw.Base64.{base64_encode}
use cclaw.Base64.RoundTrip.{base64_decode, base64_encode_lem}

base64_encode_lem_example :
    (length (base64_encode (codes "abcd")) ≡ (length (codes "abcd") + 2) / 3 * 4)
    × (base64_decode (base64_encode (codes "abcd")) ≡ codes "abcd")
base64_encode_lem_example =
    base64_encode_lem (codes "abcd") (omega arith, (omega arith, (omega arith, (omega arith, tt))))

two_bytes-test : base64_encode (codes "ab") ≡ codes "YWI="
unfolding base64_encode
two_bytes-test = refl

read-test : base64_decode (codes "YWI=") ≡ codes "ab"
unfolding base64_decode
read-test = refl
