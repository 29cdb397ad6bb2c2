-- ===== src/Host/Cidr/Mask.antt =====
-- The masking loop at the end of `cidr_parse` keeps the bits of the prefix and clears the rest.
use cclaw.Prelude.{
  ℕ, zero, suc, ◌+◌, ◌-◌, ◌*◌, ◌/◌, ◌%◌, ◌≤◌, ◌<◌, ◌≡◌, refl, ap, ◌∙◌, true, [], ◌∷◌, arith, ltb,
  ltb→lt, ◌==◌, ==_iff, bit_and, if◌then◌else◌, Bytes, AreBytes, length, get_or,
}
use cclaw.Host.Cidr.{keep_mask, mask_byte, mask_bytes}
use cclaw.Host.Cidr.Bits.{bit_of, bit_at, table_holds, table_entry}
use cclaw.Host.Cidr.Contains.{get_or-byte}

-- All bits of all bytes under all masks.
bit_table :
    table_holds 9 (λ k. table_holds 8 (λ j.
      table_holds 256
        (λ b. bit_of (bit_and b (keep_mask k)) j == (if ltb j k then bit_of b j else 0))))
    ≡ true
unfolding table_holds keep_mask bit_of
bit_table = refl

bit_of-masked :
    (b k j : ℕ)
    → b ≤ 255
    → k ≤ 8
    → j < 8
    → bit_of (bit_and b (keep_mask k)) j ≡ (if ltb j k then bit_of b j else 0)
bit_of-masked b k j hb hk hj = (==_iff _ _).0 (
    table_entry 256 _ b
      (table_entry 8 _ j (table_entry 9 _ k bit_table (omega arith)) (omega arith)) (omega arith))

byte_table : table_holds 9 (λ k. table_holds 256 (λ b. ltb (bit_and b (keep_mask k)) 256)) ≡ true
unfolding table_holds keep_mask
byte_table = refl

masked-IsByte : (b k : ℕ) → b ≤ 255 → k ≤ 8 → bit_and b (keep_mask k) ≤ 255
masked-IsByte b k hb hk = omega (
  arith,
  ltb→lt _ 256 (table_entry 256 _ b (table_entry 9 _ k byte_table (omega arith)) (omega arith)),
)

bit_of-zero : (j : ℕ) → j < 8 → bit_of 0 j ≡ 0
unfolding table_holds bit_of
bit_of-zero j h = (==_iff _ _).0 (table_entry 8 (λ i. bit_of 0 i == 0) j refl h)

-- Bit j of byte i is kept if it stands in the prefix and cleared if not.
bit_of-mask_byte :
    (len i b j : ℕ)
    → b ≤ 255
    → j < 8
    → bit_of (mask_byte len i b) j ≡ (if ltb (i * 8 + j) len then bit_of b j else 0)
unfolding mask_byte
bit_of-mask_byte len i b j hb hj =
    ground (arith, bit_of-zero j hj, bit_of-masked b (len - i * 8) j hb)

mask_byte-IsByte : (len i b : ℕ) → b ≤ 255 → mask_byte len i b ≤ 255
unfolding mask_byte
mask_byte-IsByte len i b hb = ground (arith, masked-IsByte b (len - i * 8) hb)

pub mask_bytes-AreBytes :
    (len n i : ℕ) (bs : Bytes) → AreBytes bs → AreBytes (mask_bytes len n i bs)
unfolding mask_bytes
mask_bytes-AreBytes len zero i bs h = h
mask_bytes-AreBytes len (suc n) i [] h = tt
mask_bytes-AreBytes len (suc n) i (b ∷ bs) h =
    (mask_byte-IsByte len i b h.0, mask_bytes-AreBytes len n (i + 1) bs h.1)

pub length-mask_bytes : (len n i : ℕ) (bs : Bytes) → length (mask_bytes len n i bs) ≡ length bs
unfolding mask_bytes
length-mask_bytes len zero i bs = refl
length-mask_bytes len (suc n) i [] = refl
length-mask_bytes len (suc n) i (b ∷ bs) = ap suc (length-mask_bytes len n (i + 1) bs)

get_or-mask_bytes :
    (len n i : ℕ) (bs : Bytes) (m : ℕ)
    → m < n
    → m < length bs
    → get_or (mask_bytes len n i bs) m 0 ≡ mask_byte len (i + m) (get_or bs m 0)
unfolding mask_bytes
get_or-mask_bytes len zero i bs m h k = absurd (omega arith)
get_or-mask_bytes len (suc n) i [] m h k = absurd (omega arith)
get_or-mask_bytes len (suc n) i (b ∷ bs) zero h k = ap (λ x. mask_byte len x b) (omega arith)
get_or-mask_bytes len (suc n) i (b ∷ bs) (suc m) h k =
    get_or-mask_bytes len n (i + 1) bs m (omega arith) (omega arith)
    ∙ ap (λ x. mask_byte len x (get_or bs m 0)) (omega arith)

-- The bits of the masked array, where the loop reaches.
pub bit_at-mask_bytes :
    (len n : ℕ) (bs : Bytes) (g : ℕ)
    → AreBytes bs
    → g < 8 * n
    → n ≤ length bs
    → bit_at (mask_bytes len n 0 bs) g ≡ (if ltb g len then bit_at bs g else 0)
bit_at-mask_bytes len n bs g hb h k =
    ap (λ x. bit_of x (g % 8)) (get_or-mask_bytes len n 0 bs (g / 8) (omega arith) (omega arith))
    ∙ bit_of-mask_byte len (0 + g / 8) (get_or bs (g / 8) 0) (g % 8) (get_or-byte bs (g / 8) hb)
        (omega arith)
    ∙ ap (λ x. if ltb x len then bit_of (get_or bs (g / 8) 0) (g % 8) else 0) (omega arith)
