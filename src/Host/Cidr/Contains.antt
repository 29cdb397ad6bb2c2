-- ===== src/Host/Cidr/Contains.antt =====
-- `cidr_contains`, `cidr_match` and `granted_exact`: a rule holds an address exactly when the
-- families agree and the first `prefix_len` bits do.
use cclaw.Prelude.{
  ℕ, zero, suc, ◌+◌, ◌*◌, ◌/◌, ◌%◌, ◌≤◌, ◌<◌, ◌≡◌, refl, sym, ap, ap₂, subst, ◌∙◌, ◌↔◌, inl, inr,
  true, List, [], ◌∷◌, some, arith, bit_and, Bool-cases, Bytes, AreBytes, length, take, get_or, Any,
  All, bytes_eq, bytes_eq→eq, bytes_eq_refl,
}
use native.Mathlib.Decide.{dec_lt}
use cclaw.Host.Cidr.{
  Family, inet, inet6, Cidr, keep_mask, same_front, cidr_contains, any_cidr_contains, cidr_match,
  full_len, addr_bytes,
}
use cclaw.Host.Cidr.Bits.{bit_of, bit_at, high, bits→high, high→bits, masked_iff, high_eight}

abbrev pub SameBits : ℕ → Bytes → Bytes → Type 0
SameBits n a b = (i : ℕ) → i < n → bit_at a i ≡ bit_at b i

-- An array of at least n bits.
abbrev pub HasBits : ℕ → Bytes → Type 0
HasBits n a = AreBytes a × (n ≤ 8 * length a)

pub get_or-byte : (a : Bytes) (i : ℕ) → AreBytes a → get_or a i 0 ≤ 255
get_or-byte [] i h = omega arith
get_or-byte (x ∷ a) zero h = h.0
get_or-byte (x ∷ a) (suc i) h = get_or-byte a i h.1

pub take→get_or :
    (n : ℕ) (a b : Bytes) (i : ℕ)
    → take n a ≡ take n b
    → n ≤ length a
    → n ≤ length b
    → i < n
    → get_or a i 0 ≡ get_or b i 0
take→get_or zero a b i e ha hb h = absurd (omega arith)
take→get_or (suc n) [] b i e ha hb h = absurd (omega arith)
take→get_or (suc n) (x ∷ a) [] i e ha hb h = absurd (omega arith)
take→get_or (suc n) (x ∷ a) (y ∷ b) zero e ha hb h = cc
take→get_or (suc n) (x ∷ a) (y ∷ b) (suc i) e ha hb h =
    take→get_or n a b i (cc) (omega arith) (omega arith) (omega arith)

get_or→take :
    (n : ℕ) (a b : Bytes)
    → n ≤ length a
    → n ≤ length b
    → ((i : ℕ) → i < n → get_or a i 0 ≡ get_or b i 0)
    → take n a ≡ take n b
get_or→take zero a b ha hb h = refl
get_or→take (suc n) [] b ha hb h = absurd (omega arith)
get_or→take (suc n) (x ∷ a) [] ha hb h = absurd (omega arith)
get_or→take (suc n) (x ∷ a) (y ∷ b) ha hb h =
    ap₂ ◌∷◌ (h 0 (omega arith))
      (get_or→take n a b (omega arith) (omega arith) (λ i k. h (suc i) (omega arith)))

-- What the two comparisons establish, for a length of q bytes and r bits.
abbrev FrontAgrees : ℕ → ℕ → Bytes → Bytes → Type 0
FrontAgrees q r a b =
    (take q a ≡ take q b) × (0 < r → high (get_or a q 0) r ≡ high (get_or b q 0) r)

module _ (n : ℕ) (a b : Bytes) (ha : HasBits n a) (hb : HasBits n b) where
  FrontAgrees→SameBits : FrontAgrees (n / 8) (n % 8) a b → SameBits n a b
  FrontAgrees→SameBits (front, last) i h = elim (dec_lt (i / 8) (n / 8)) [
    | yes p ↦
        ap (λ x. bit_of x (i % 8))
          (take→get_or (n / 8) a b (i / 8) front (omega (arith, ha.1)) (omega (arith, hb.1)) p)
    | no p ↦
        let e : i / 8 ≡ n / 8 = omega arith in
        subst (λ q. bit_of (get_or a q 0) (i % 8) ≡ bit_of (get_or b q 0) (i % 8)) (sym e)
          (high→bits (get_or a (n / 8) 0) (get_or b (n / 8) 0) (get_or-byte a (n / 8) ha.0)
            (get_or-byte b (n / 8) hb.0) (n % 8) (i % 8) (omega arith) (last (omega arith))
            (omega arith))
  ]

  byte_bits :
      (same : SameBits n a b) (m j : ℕ)
      → j < 8
      → m * 8 + j < n
      → bit_of (get_or a m 0) j ≡ bit_of (get_or b m 0) j
  byte_bits same m j hj h =
      let at : (m * 8 + j) / 8 ≡ m = omega arith in
      let in_byte : (m * 8 + j) % 8 ≡ j = omega arith in
      subst (λ q. bit_of (get_or a q 0) j ≡ bit_of (get_or b q 0) j) at
        (subst
          (λ r. bit_of (get_or a ((m * 8 + j) / 8) 0) r ≡ bit_of (get_or b ((m * 8 + j) / 8) 0) r)
          in_byte (same (m * 8 + j) h))

  SameBits→FrontAgrees : SameBits n a b → FrontAgrees (n / 8) (n % 8) a b
  SameBits→FrontAgrees same = (
    get_or→take (n / 8) a b (omega (arith, ha.1)) (omega (arith, hb.1)) (λ m hm.
        sym (high_eight (get_or a m 0))
        ∙ bits→high (get_or a m 0) (get_or b m 0) (get_or-byte a m ha.0) (get_or-byte b m hb.0) 8
            (omega arith) (λ j hj. byte_bits same m j hj (omega arith))
        ∙ high_eight (get_or b m 0)),
    λ pos.
        bits→high (get_or a (n / 8) 0) (get_or b (n / 8) 0) (get_or-byte a (n / 8) ha.0)
          (get_or-byte b (n / 8) hb.0) (n % 8) (omega arith)
          (λ j hj. byte_bits same (n / 8) j (omega arith) (omega arith)),
  )

-- The answer of `cidr_contains` in terms of its two comparisons.
contains_parts :
    (rule : Cidr) (family : Family) (addr : Bytes)
    → cidr_contains rule family addr ≡ true
    → (rule.family ≡ family)
      × (0 < rule.prefix_len / 8 → same_front (rule.prefix_len / 8) rule.prefix addr ≡ true)
      × (0 < rule.prefix_len % 8
          → bit_and (get_or rule.prefix (rule.prefix_len / 8) 0) (keep_mask (rule.prefix_len % 8))
            ≡ bit_and (get_or addr (rule.prefix_len / 8) 0) (keep_mask (rule.prefix_len % 8)))
unfolding cidr_contains
contains_parts rule family addr h = ground arith

parts_contain :
    (rule : Cidr) (family : Family) (addr : Bytes)
    → rule.family ≡ family
    → (0 < rule.prefix_len / 8 → same_front (rule.prefix_len / 8) rule.prefix addr ≡ true)
    → (0 < rule.prefix_len % 8
        → bit_and (get_or rule.prefix (rule.prefix_len / 8) 0) (keep_mask (rule.prefix_len % 8))
          ≡ bit_and (get_or addr (rule.prefix_len / 8) 0) (keep_mask (rule.prefix_len % 8)))
    → cidr_contains rule family addr ≡ true
unfolding cidr_contains
parts_contain rule family addr e f g = ground arith

-- A rule as `cidr_parse` leaves it: sixteen bytes, and no more prefix bits than its family has.
pub record IsCidr (rule : Cidr) : Type 0 where
  pub bytes : AreBytes rule.prefix
  pub size : length rule.prefix ≡ 16
  pub len_bound : rule.prefix_len ≤ full_len rule.family

-- An address as the callers pass it: at least the bytes of its family.
pub record IsAddr (family : Family) (addr : Bytes) : Type 0 where
  pub bytes : AreBytes addr
  pub size : addr_bytes family ≤ length addr

-- What a rule means: the families agree, and so do the first `prefix_len` bits.
abbrev pub CidrHolds : Cidr → Family → Bytes → Type 0
CidrHolds rule family addr = (rule.family ≡ family) × SameBits rule.prefix_len rule.prefix addr

full_len_bits : (family : Family) → full_len family ≡ 8 * addr_bytes family
full_len_bits inet = refl
full_len_bits inet6 = refl

full_len-le : (family : Family) → full_len family ≤ 128
full_len-le inet = omega arith
full_len-le inet6 = omega arith

rule-HasBits : (rule : Cidr) → IsCidr rule → HasBits rule.prefix_len rule.prefix
rule-HasBits rule w = (w.bytes, omega (arith, w.size, w.len_bound, full_len-le rule.family))

addr-HasBits :
    (rule : Cidr) (family : Family) (addr : Bytes)
    → IsCidr rule
    → IsAddr family addr
    → rule.family ≡ family
    → HasBits rule.prefix_len addr
addr-HasBits rule family addr w a e = (
  a.bytes,
  omega (
    arith,
    a.size,
    subst (λ f. rule.prefix_len ≤ full_len f) e w.len_bound,
    full_len_bits family,
  ),
)

masked_high :
    (rule : Cidr) (addr : Bytes)
    → AreBytes rule.prefix
    → AreBytes addr
    → (bit_and (get_or rule.prefix (rule.prefix_len / 8) 0) (keep_mask (rule.prefix_len % 8))
        ≡ bit_and (get_or addr (rule.prefix_len / 8) 0) (keep_mask (rule.prefix_len % 8)))
      ↔ (high (get_or rule.prefix (rule.prefix_len / 8) 0) (rule.prefix_len % 8)
          ≡ high (get_or addr (rule.prefix_len / 8) 0) (rule.prefix_len % 8))
masked_high rule addr hp ha =
    masked_iff (get_or rule.prefix (rule.prefix_len / 8) 0) (get_or addr (rule.prefix_len / 8) 0)
      (rule.prefix_len % 8) (get_or-byte rule.prefix _ hp) (get_or-byte addr _ ha) (omega arith)

take_front : (n : ℕ) (a b : Bytes) → (0 < n → same_front n a b ≡ true) → take n a ≡ take n b
take_front zero a b h = refl
take_front (suc n) a b h = bytes_eq→eq _ _ (h (omega arith))

-- `cidr_contains`, by memcmp on whole bytes and a mask on the last, decides `CidrHolds`.
pub cidr_contains_iff :
    (rule : Cidr) (family : Family) (addr : Bytes)
    → IsCidr rule
    → IsAddr family addr
    → (cidr_contains rule family addr ≡ true) ↔ CidrHolds rule family addr
cidr_contains_iff rule family addr w a = (
  λ h.
      let (e, front, last) = contains_parts rule family addr h in
      (
        e,
        FrontAgrees→SameBits rule.prefix_len rule.prefix addr (rule-HasBits rule w)
            (addr-HasBits rule family addr w a e)
            (
              take_front (rule.prefix_len / 8) rule.prefix addr front,
              λ k. (masked_high rule addr w.bytes a.bytes).0 (last k),
            ),
      ),
  λ (e, same).
      let (front, last) =
        SameBits→FrontAgrees rule.prefix_len rule.prefix addr (rule-HasBits rule w)
          (addr-HasBits rule family addr w a e) same in
      parts_contain rule family addr e
        (λ _.
          subst (λ x. bytes_eq (take (rule.prefix_len / 8) rule.prefix) x ≡ true) front
            (bytes_eq_refl (take (rule.prefix_len / 8) rule.prefix)))
        (λ k. (masked_high rule addr w.bytes a.bytes).1 (last k)),
)

Any-sound :
    (rules : List Cidr) (family : Family) (addr : Bytes)
    → All IsCidr rules
    → IsAddr family addr
    → any_cidr_contains rules family addr ≡ true
    → Any (λ r. CidrHolds r family addr) rules
unfolding any_cidr_contains
Any-sound [] family addr w a h = cc
Any-sound (r ∷ rules) family addr w a h = elim (Bool-cases (cidr_contains r family addr)) [
  | inl e ↦ inl ((cidr_contains_iff r family addr w.0 a).0 e)
  | inr e ↦ inr (Any-sound rules family addr w.1 a (rw e at h))
]

Any-complete :
    (rules : List Cidr) (family : Family) (addr : Bytes)
    → All IsCidr rules
    → IsAddr family addr
    → Any (λ r. CidrHolds r family addr) rules
    → any_cidr_contains rules family addr ≡ true
unfolding any_cidr_contains
Any-complete [] family addr w a h = elim h [ ]
Any-complete (r ∷ rules) family addr w a (inl c) = rw ((cidr_contains_iff r family addr w.0 a).1 c)
Any-complete (r ∷ rules) family addr w a (inr c) =
    ground (arith, Any-complete rules family addr w.1 a c)

-- Over well-formed rules, `cidr_match` accepts an address exactly when the first `prefix_len` bits
-- of some rule of its family are its own.
pub cidr_match_iff :
    (rules : List Cidr) (family : Family) (addr : Bytes)
    → All IsCidr rules
    → IsAddr family addr
    → (cidr_match (some rules) family (some addr) ≡ true) ↔ Any (λ r. CidrHolds r family addr) rules
unfolding cidr_match
cidr_match_iff rules family addr w a =
    (Any-sound rules family addr w a, Any-complete rules family addr w a)
