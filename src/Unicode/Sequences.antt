-- ===== src/Unicode/Sequences.antt =====
-- The UTF-8 sequences by the ranges of their bytes, apart from the masks and shifts of
-- `decode_utf8_strict` of src/unicode_normalize.c.
use Prim.Native.Nat.{digits, bit_or-bitwise}
use cclaw.Prelude.{
  ℕ, zero, suc, ◌+◌, ◌-◌, ◌*◌, ◌/◌, ◌%◌, ◌≤◌, ◌<◌, ◌≡◌, ◌⊎◌, refl, sym, ap, ap₂, ◌∙◌, Bool, true,
  false, ◌&&◌, not, ltb, leb, ◌==◌, if◌then◌else◌, max, [], ◌∷◌, none, some, none_ne, some_eq,
  arith, Bool-cases, inl, inr, Bytes, AreBytes, bit_and, bit_or,
}
use cclaw.Host.Cidr.Bits.{table_holds, table_entry}
use cclaw.Unicode.{continuation, sequence, decode_utf8_strict}

-- `k` continuation bytes follow, each with six more bits of the code point.
abbrev pub Tail : ℕ → ℕ → Bytes → ℕ → Type 0
Tail zero v s cp = v ≡ cp
Tail (suc k) v [] cp = ⊥
Tail (suc k) v (b ∷ s) cp = (128 ≤ b) × (b ≤ 191) × Tail k (v * 64 + (b - 128)) s cp

-- The text begins with a sequence of so many bytes for the code point. Overlong forms, and code
-- points beyond U+10FFFF, are sequences too.
pub data Sequence : Bytes → ℕ → ℕ → Type 0 where
  one : (a : ℕ) (s : Bytes) → a ≤ 127 → Sequence (a ∷ s) 1 a
  two : (a cp : ℕ) (s : Bytes) → 192 ≤ a → a ≤ 223 → Tail 1 (a - 192) s cp → Sequence (a ∷ s) 2 cp
  three : (a cp : ℕ) (s : Bytes) → 224 ≤ a → a ≤ 239 → Tail 2 (a - 224) s cp → Sequence (a ∷ s) 3 cp
  four : (a cp : ℕ) (s : Bytes) → 240 ≤ a → a ≤ 247 → Tail 3 (a - 240) s cp → Sequence (a ∷ s) 4 cp

-- The lowest `k` digits of a number are 0, and a number has no more than `k` digits.
abbrev Shifted : ℕ → ℕ → Type 0
Shifted zero a = Unit
Shifted (suc k) a = (a % 2 ≡ 0) × Shifted k (a / 2)

abbrev Below : ℕ → ℕ → Type 0
Below zero x = x ≡ 0
Below (suc k) x = Below k (x / 2)

digits-none : (n a : ℕ) → a ≤ n → digits (λ b. b) max n a 0 ≡ a
digits-none zero a h = omega arith
digits-none (suc n) zero h = refl
digits-none (suc n) (suc a) h =
    ap₂ (λ x y. x * 2 + y) (digits-none n (suc a / 2) (omega arith)) (max_right (suc a % 2))
    ∙ omega arith
  where
    max_right : (y : ℕ) → max y 0 ≡ y
    max_right y = omega arith

-- Numbers without a common digit are added.
digits-Shifted : (k n a x : ℕ) → a ≤ n → Shifted k a → Below k x → digits (λ b. b) max n a x ≡ a + x
digits-Shifted k zero a x h s b = omega arith
digits-Shifted k (suc n) zero x h s b = omega arith
digits-Shifted zero (suc n) (suc a) x h s b =
    ap (digits (λ b. b) max (suc n) (suc a)) b ∙ digits-none (suc n) (suc a) h ∙ omega arith
digits-Shifted (suc k) (suc n) (suc a) x h (even, s) b =
    ap₂ (λ y z. y * 2 + z) (digits-Shifted k n (suc a / 2) (x / 2) (omega arith) s b)
      (ap (λ y. max y (x % 2)) even)
    ∙ omega arith

bit_or-shifted : (v x : ℕ) → x < 64 → bit_or (v * 64) x ≡ v * 64 + x
bit_or-shifted v x h =
    bit_or-bitwise (v * 64) x
    ∙ digits-Shifted 6 (v * 64) (v * 64) x (omega arith)
        (omega arith, (omega arith, (omega arith, (omega arith, (omega arith, (omega arith, tt))))))
        (omega arith)

abbrev is_continuation : ℕ → Bool
is_continuation b = leb 128 b && leb b 191

continuation_bytes :
    table_holds 256 (λ b.
      if is_continuation b
      then (bit_and b 0xC0 == 0x80) && (bit_and b 0x3F == b - 128)
      else not (bit_and b 0xC0 == 0x80))
    ≡ true
unfolding table_holds
continuation_bytes = refl

abbrev two_mask : ℕ → Bool
two_mask c = bit_and c 0xE0 == 0xC0

abbrev three_mask : ℕ → Bool
three_mask c = bit_and c 0xF0 == 0xE0

abbrev four_mask : ℕ → Bool
four_mask c = bit_and c 0xF8 == 0xF0

abbrev lead_test : ℕ → Bool
lead_test c =
    if ltb c 192
    then (if ltb c 128 then true else not (two_mask c) && not (three_mask c) && not (four_mask c))
    else if ltb c 224
    then two_mask c && (bit_and c 0x1F == c - 192)
    else if ltb c 240
    then not (two_mask c) && three_mask c && (bit_and c 0x0F == c - 224)
    else if ltb c 248
    then not (two_mask c) && not (three_mask c) && four_mask c && (bit_and c 0x07 == c - 240)
    else not (two_mask c) && not (three_mask c) && not (four_mask c)

lead_bytes : table_holds 256 lead_test ≡ true
unfolding table_holds
lead_bytes = refl

continuation_step :
    (k v b : ℕ) (s : Bytes)
    → b ≤ 255
    → continuation (suc k) v (b ∷ s)
      ≡ (if is_continuation b then continuation k (v * 64 + (b - 128)) s else none)
unfolding continuation
continuation_step k v b s h =
    let entry = table_entry 256 _ b continuation_bytes (omega arith) in
    elim (Bool-cases (is_continuation b)) [
      | inr e ↦ let other : (bit_and b 0xC0 == 0x80) ≡ false = ground arith in rw (other, e) refl
      | inl e ↦
          let mark : (bit_and b 0xC0 == 0x80) ≡ true = ground arith in
          let bits : bit_and b 0x3F ≡ b - 128 = ground arith in
          rw (mark, e)
            (ap (λ n. continuation k n s)
              (ap (bit_or (v * 64)) bits ∙ bit_or-shifted v (b - 128) (ground arith)))
    ]

pub continuation→Tail :
    (k v : ℕ) (s : Bytes) (cp : ℕ) → AreBytes s → continuation k v s ≡ some cp → Tail k v s cp
unfolding continuation
continuation→Tail zero v s cp h e = some_eq v cp e
continuation→Tail (suc k) v [] cp h e = absurd (none_ne e)
continuation→Tail (suc k) v (b ∷ s) cp (hb, h) e =
    let step = sym (continuation_step k v b s hb) ∙ e in
    elim (Bool-cases (is_continuation b)) [
      | inl c ↦ (
        ground arith,
        ground arith,
        continuation→Tail k (v * 64 + (b - 128)) s cp h (rw c at step),
      )
      | inr c ↦ absurd (none_ne (rw c at step))
    ]

pub Tail→continuation :
    (k v : ℕ) (s : Bytes) (cp : ℕ) → AreBytes s → Tail k v s cp → continuation k v s ≡ some cp
unfolding continuation
Tail→continuation zero v s cp h e = ap some e
Tail→continuation (suc k) v [] cp h e = absurd e
Tail→continuation (suc k) v (b ∷ s) cp (hb, h) (lo, hi, e) =
    let c : is_continuation b ≡ true = ground arith in
    continuation_step k v b s hb ∙ rw c (Tail→continuation k (v * 64 + (b - 128)) s cp h e)

lead_entry : (c : ℕ) → c ≤ 255 → lead_test c ≡ true
lead_entry c h = table_entry 256 lead_test c lead_bytes (omega arith)

-- What the lead byte decides, by its range.
pub decode_one : (c : ℕ) (s : Bytes) → c ≤ 127 → decode_utf8_strict (c ∷ s) ≡ some (1, c)
unfolding decode_utf8_strict
decode_one c s h = let e : ltb c 0x80 ≡ true = ground arith in rw e refl

pub decode_two :
    (c : ℕ) (s : Bytes) → 192 ≤ c → c ≤ 223 → decode_utf8_strict (c ∷ s) ≡ sequence 2 (c - 192) s
unfolding decode_utf8_strict
decode_two c s lo hi =
    let entry = lead_entry c (omega arith) in
    let e : ltb c 0x80 ≡ false = ground arith in
    let two : two_mask c ≡ true = ground arith in
    let bits : bit_and c 0x1F ≡ c - 192 = ground arith in
    rw (e, two) (ap (λ v. sequence 2 v s) bits)

pub decode_three :
    (c : ℕ) (s : Bytes) → 224 ≤ c → c ≤ 239 → decode_utf8_strict (c ∷ s) ≡ sequence 3 (c - 224) s
unfolding decode_utf8_strict
decode_three c s lo hi =
    let entry = lead_entry c (omega arith) in
    let e : ltb c 0x80 ≡ false = ground arith in
    let two : two_mask c ≡ false = ground arith in
    let three : three_mask c ≡ true = ground arith in
    let bits : bit_and c 0x0F ≡ c - 224 = ground arith in
    rw (e, two, three) (ap (λ v. sequence 3 v s) bits)

pub decode_four :
    (c : ℕ) (s : Bytes) → 240 ≤ c → c ≤ 247 → decode_utf8_strict (c ∷ s) ≡ sequence 4 (c - 240) s
unfolding decode_utf8_strict
decode_four c s lo hi =
    let entry = lead_entry c (omega arith) in
    let e : ltb c 0x80 ≡ false = ground arith in
    let two : two_mask c ≡ false = ground arith in
    let three : three_mask c ≡ false = ground arith in
    let four : four_mask c ≡ true = ground arith in
    let bits : bit_and c 0x07 ≡ c - 240 = ground arith in
    rw (e, two, three, four) (ap (λ v. sequence 4 v s) bits)

pub decode_none :
    (c : ℕ) (s : Bytes)
    → 128 ≤ c
    → c ≤ 255
    → (c ≤ 191) ⊎ (248 ≤ c)
    → decode_utf8_strict (c ∷ s) ≡ none
unfolding decode_utf8_strict
decode_none c s lo hi out =
    let entry = lead_entry c hi in
    let e : ltb c 0x80 ≡ false = ground arith in
    let two : two_mask c ≡ false = ground arith in
    let three : three_mask c ≡ false = ground arith in
    let four : four_mask c ≡ false = ground arith in rw (e, two, three, four) refl
