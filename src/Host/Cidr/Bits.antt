-- ===== src/Host/Cidr/Bits.antt =====
-- The bits of a byte from the highest down, and what `keep_mask` selects of them.
use cclaw.Prelude.{
  ℕ, zero, suc, ◌+◌, ◌-◌, ◌*◌, ◌/◌, ◌%◌, ◌^◌, ◌≤◌, ◌<◌, ◌≡◌, refl, sym, ap, ◌∙◌, ◌↔◌, Bool, true,
  false, if◌then◌else◌, subst, arith, bit_and, ◌==◌, ==_iff, Bytes, get_or,
}
use native.Mathlib.Decide.{ℕ_discrete}
use cclaw.Host.Cidr.{keep_mask}

-- Bit j of a byte, bit 0 being the highest.
unfoldable pub bit_of : ℕ → ℕ → ℕ
bit_of b j = b / 2 ^ (7 - j) % 2

-- Bit i of an array of bytes in network order.
abbrev pub bit_at : Bytes → ℕ → ℕ
bit_at bs i = bit_of (get_or bs (i / 8) 0) (i % 8)

-- The number that the highest k bits make.
unfoldable pub high : ℕ → ℕ → ℕ
high b k = b / 2 ^ (8 - k)

high-suc : (b k : ℕ) → k ≤ 7 → high b (suc k) ≡ 2 * high b k + bit_of b k
unfolding high bit_of
high-suc b zero h = omega arith
high-suc b (suc zero) h = omega arith
high-suc b (suc (suc zero)) h = omega arith
high-suc b (suc (suc (suc zero))) h = omega arith
high-suc b (suc (suc (suc (suc zero)))) h = omega arith
high-suc b (suc (suc (suc (suc (suc zero))))) h = omega arith
high-suc b (suc (suc (suc (suc (suc (suc zero)))))) h = omega arith
high-suc b (suc (suc (suc (suc (suc (suc (suc zero))))))) h = omega arith
high-suc b (suc (suc (suc (suc (suc (suc (suc (suc k)))))))) h = absurd (omega arith)

bit_of-le : (b j : ℕ) → bit_of b j ≤ 1
unfolding bit_of
bit_of-le b j = omega arith

high_zero : (b : ℕ) → b ≤ 255 → high b 0 ≡ 0
unfolding high
high_zero b h = omega arith

pub high_eight : (b : ℕ) → high b 8 ≡ b
unfolding high
high_eight b = omega arith

module _ (a b : ℕ) (ha : a ≤ 255) (hb : b ≤ 255) where
  pub bits→high :
      (k : ℕ) → k ≤ 8 → ((j : ℕ) → j < k → bit_of a j ≡ bit_of b j) → high a k ≡ high b k
  bits→high zero hk same = omega (arith, high_zero a ha, high_zero b hb)
  bits→high (suc k) hk same = omega (
    arith,
    high-suc a k (omega arith),
    high-suc b k (omega arith),
    same k (omega arith),
    bits→high k (omega arith) (λ j h. same j (omega arith)),
  )

  high_down : (k : ℕ) → k ≤ 7 → high a (suc k) ≡ high b (suc k) → high a k ≡ high b k
  high_down k hk e = omega (arith, high-suc a k hk, high-suc b k hk, bit_of-le a k, bit_of-le b k)

  high_last : (k : ℕ) → k ≤ 7 → high a (suc k) ≡ high b (suc k) → bit_of a k ≡ bit_of b k
  high_last k hk e = omega (arith, high-suc a k hk, high-suc b k hk, bit_of-le a k, bit_of-le b k)

  pub high→bits : (k j : ℕ) → k ≤ 8 → high a k ≡ high b k → j < k → bit_of a j ≡ bit_of b j
  high→bits zero j hk e h = absurd (omega arith)
  high→bits (suc k) j hk e h = elim (ℕ_discrete j k) [
    | yes p ↦ subst (λ i. bit_of a i ≡ bit_of b i) (sym p) (high_last k (omega arith) e)
    | no n ↦ high→bits k j (omega arith) (high_down k (omega arith) e) (omega arith)
  ]

unfoldable pub table_holds : ℕ → (ℕ → Bool) → Bool
table_holds zero test = true
table_holds (suc k) test = let others = table_holds k test in if test k then others else false

pub table_entry :
    (size : ℕ) (test : ℕ → Bool) (i : ℕ) → table_holds size test ≡ true → i < size → test i ≡ true
unfolding table_holds
table_entry zero test i all inside = absurd (omega arith)
table_entry (suc k) test i all inside = ground (table_entry k test i, arith)

-- All bytes under all masks.
mask_table :
    table_holds 9 (λ k. table_holds 256 (λ b. bit_and b (keep_mask k) == high b k * 2 ^ (8 - k)))
    ≡ true
unfolding table_holds keep_mask high
mask_table = refl

pub bit_and-keep_mask :
    (b k : ℕ) → b ≤ 255 → k ≤ 8 → bit_and b (keep_mask k) ≡ high b k * 2 ^ (8 - k)
bit_and-keep_mask b k hb hk =
    (==_iff _ _).0 (table_entry 256 _ b (table_entry 9 _ k mask_table (omega arith)) (omega arith))

scaled : (k x y : ℕ) → k ≤ 8 → x * 2 ^ (8 - k) ≡ y * 2 ^ (8 - k) → x ≡ y
scaled zero x y h e = omega arith
scaled (suc zero) x y h e = omega arith
scaled (suc (suc zero)) x y h e = omega arith
scaled (suc (suc (suc zero))) x y h e = omega arith
scaled (suc (suc (suc (suc zero)))) x y h e = omega arith
scaled (suc (suc (suc (suc (suc zero))))) x y h e = omega arith
scaled (suc (suc (suc (suc (suc (suc zero)))))) x y h e = omega arith
scaled (suc (suc (suc (suc (suc (suc (suc zero))))))) x y h e = omega arith
scaled (suc (suc (suc (suc (suc (suc (suc (suc zero)))))))) x y h e = omega arith
scaled (suc (suc (suc (suc (suc (suc (suc (suc (suc k))))))))) x y h e = absurd (omega arith)

-- Two bytes agree under the mask exactly when their highest k bits agree.
pub masked_iff :
    (a b k : ℕ)
    → a ≤ 255
    → b ≤ 255
    → k ≤ 8
    → (bit_and a (keep_mask k) ≡ bit_and b (keep_mask k)) ↔ (high a k ≡ high b k)
masked_iff a b k ha hb hk = (
  λ e. scaled k _ _ hk (sym (bit_and-keep_mask a k ha hk) ∙ e ∙ bit_and-keep_mask b k hb hk),
  λ e.
      bit_and-keep_mask a k ha hk ∙ ap (λ x. x * 2 ^ (8 - k)) e ∙ sym (bit_and-keep_mask b k hb hk),
)
