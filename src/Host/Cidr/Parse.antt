-- ===== src/Host/Cidr/Parse.antt =====
-- `cidr_parse`: what a parsed rule is.
use cclaw.Prelude.{
  ℕ, zero, suc, ◌-◌, ◌*◌, ◌/◌, ◌%◌, ◌≤◌, ◌<◌, ◌≡◌, refl, sym, ap, subst, ◌∙◌, inl, inr, true, [],
  ◌∷◌, ◌++◌, Option, none, some, arith, ltb, leb, if◌then◌else◌, Bool-cases, Option-cases, some_eq,
  none_ne, Bytes, AreBytes, IsByte, length, get_or, All, replicate, length-append, All-append,
}
use cclaw.Host.Cidr.{
  Family, inet, inet6, Cidr, full_len, addr_bytes, mask_bytes, rule_of, literal_rule, len_or,
  cidr_parse, explicit_len, split_slash, all_digits, decimal, strtol_digits,
}
use cclaw.Host.Cidr.Bits.{bit_of, bit_at}
use cclaw.Host.Cidr.Contains.{IsCidr, SameBits}
use cclaw.Host.Cidr.Mask.{mask_bytes-AreBytes, length-mask_bytes, bit_at-mask_bytes}

replicate-AreBytes : (n : ℕ) → AreBytes (replicate n 0)
replicate-AreBytes zero = tt
replicate-AreBytes (suc n) = (omega arith, replicate-AreBytes n)

length-replicate : (n : ℕ) → length {A = ℕ} (replicate n 0) ≡ n
length-replicate zero = refl
length-replicate (suc n) = ap suc (length-replicate n)

get_or-append : (a b : Bytes) (m : ℕ) → m < length a → get_or (a ++ b) m 0 ≡ get_or a m 0
get_or-append [] b m h = absurd (omega arith)
get_or-append (x ∷ a) b zero h = refl
get_or-append (x ∷ a) b (suc m) h = get_or-append a b m (omega arith)

bits_of_family : (family : Family) → full_len family ≡ 8 * addr_bytes family
bits_of_family inet = refl
bits_of_family inet6 = refl

addr_bytes-le : (family : Family) → addr_bytes family ≤ 16
addr_bytes-le inet = omega arith
addr_bytes-le inet6 = omega arith

-- What a rule keeps of the literal that it was parsed from.
pub record RuleFor (family : Family) (explicit : Option ℕ) (lit : Bytes) (r : Cidr) : Type 0 where
  pub well_formed : IsCidr r
  pub same_family : r.family ≡ family
  pub len : r.prefix_len ≡ len_or explicit (full_len family)
  pub keeps : SameBits r.prefix_len r.prefix lit
  pub clears : (i : ℕ) → r.prefix_len ≤ i → i < full_len family → bit_at r.prefix i ≡ 0

module _ (family : Family) (lit : Bytes) (bytes : AreBytes lit)
    (size : length lit ≡ addr_bytes family) where
  abbrev padded : Bytes
  padded = lit ++ replicate (16 - length lit) 0

  length-padded : length padded ≡ 16
  length-padded = omega (
    arith,
    length-append lit (replicate (16 - length lit) 0),
    length-replicate (16 - length lit),
    addr_bytes-le family,
  )

  padded-AreBytes : AreBytes padded
  padded-AreBytes = All-append IsByte lit _ bytes (replicate-AreBytes (16 - length lit))

  masked_bit :
      (n g : ℕ)
      → g < full_len family
      → bit_at (mask_bytes n (addr_bytes family) 0 padded) g ≡ (if ltb g n then bit_at lit g else 0)
  masked_bit n g h =
      bit_at-mask_bytes n (addr_bytes family) padded g padded-AreBytes
        (omega (arith, bits_of_family family)) (omega (arith, length-padded, addr_bytes-le family))
      ∙ ap (λ x. if ltb g n then bit_of x (g % 8) else 0)
          (get_or-append lit (replicate (16 - length lit) 0) (g / 8)
            (omega (arith, bits_of_family family)))

  rule_at :
      (explicit : Option ℕ) (n : ℕ)
      → n ≡ len_or explicit (full_len family)
      → n ≤ full_len family
      → RuleFor family explicit lit (record {
        family = family;
        prefix = mask_bytes n (addr_bytes family) 0 padded;
        prefix_len = n;
      })
  rule_at explicit n e h = record {
    well_formed = record {
      bytes = mask_bytes-AreBytes n (addr_bytes family) 0 padded padded-AreBytes;
      size = length-mask_bytes n (addr_bytes family) 0 padded ∙ length-padded;
      len_bound = h;
    };
    same_family = refl;
    len = e;
    keeps = λ i k. ground (arith, masked_bit n i);
    clears = λ i k l. ground (arith, masked_bit n i);
  }

  pub rule_of-RuleFor :
      (explicit : Option ℕ) (r : Cidr)
      → rule_of family explicit lit ≡ some r
      → RuleFor family explicit lit r
  unfolding rule_of
  rule_of-RuleFor explicit r h =
      elim (Bool-cases (ltb (full_len family) (len_or explicit (full_len family)))) [
        | inl e ↦ absurd (none_ne (rw e at h))
        | inr e ↦
            subst (RuleFor family explicit lit) (some_eq _ r (rw e at h))
              (rule_at explicit (len_or explicit (full_len family)) refl (ground arith))
      ]

-- Every byte is a digit.
abbrev pub AreDigits : Bytes → Type 0
AreDigits = All (λ c. (b'0' ≤ c) × (c ≤ b'9'))

all_digits_sound : (s : Bytes) → all_digits s ≡ true → AreDigits s
unfolding all_digits
all_digits_sound [] h = tt
all_digits_sound (c ∷ s) h = ground (arith, all_digits_sound s)

strtol_digits-le : (s : Bytes) → strtol_digits s ≤ 128 → strtol_digits s ≡ decimal 0 s
unfolding strtol_digits
strtol_digits-le s h = omega arith

-- A prefix length that is accepted: a run of digits, not empty, with a value of at most 128.
abbrev pub IsLength : Bytes → ℕ → Type 0
IsLength t n = (1 ≤ length t) × AreDigits t × (n ≡ decimal 0 t) × (n ≤ 128)

-- What stands behind the slash where the parse goes on.
abbrev pub LengthText : Option Bytes → Option ℕ → Type 0
LengthText none explicit = explicit ≡ none
LengthText (some t) none = ⊥
LengthText (some t) (some n) = IsLength t n

explicit_len-LengthText :
    (behind : Option Bytes) (explicit : Option ℕ)
    → explicit_len behind ≡ some explicit
    → LengthText behind explicit
unfolding explicit_len
explicit_len-LengthText none explicit h = sym (some_eq none explicit h)
explicit_len-LengthText (some []) explicit h = absurd (none_ne h)
explicit_len-LengthText (some (c ∷ t)) none h = ground arith
explicit_len-LengthText (some (c ∷ t)) (some n) h =
    let digits : all_digits (c ∷ t) ≡ true = ground arith in
    let value : n ≡ strtol_digits (c ∷ t) = ground arith in
    let bound : strtol_digits (c ∷ t) ≤ 128 = ground arith in
    (
      omega arith,
      all_digits_sound (c ∷ t) digits,
      value ∙ strtol_digits-le (c ∷ t) bound,
      subst (λ x. x ≤ 128) (sym value) bound,
    )

-- What `inet_pton` documents: an address of the family, in network order.
abbrev pub ReadsAddresses : (Family → Bytes → Option Bytes) → Type 0
ReadsAddresses inet_pton =
    (family : Family) (s lit : Bytes)
    → inet_pton family s ≡ some lit
    → AreBytes lit × (length lit ≡ addr_bytes family)

-- How a rule was read: the literal in front of the slash, and the length behind it if there is one.
pub record Parsed (inet_pton : Family → Bytes → Option Bytes) (s : Bytes) (r : Cidr) : Type 0 where
  pub lit : Bytes
  pub explicit : Option ℕ
  pub literal : inet_pton r.family (split_slash s).0 ≡ some lit
  pub length_text : LengthText (split_slash s).1 explicit
  pub rule : RuleFor r.family explicit lit r

module _ (inet_pton : Family → Bytes → Option Bytes) (reads : ReadsAddresses inet_pton) where
  literal_rule-RuleFor :
      (explicit : Option ℕ) (s : Bytes) (r : Cidr)
      → literal_rule inet_pton explicit s ≡ some r
      → (lit : Bytes) × (inet_pton r.family s ≡ some lit) × RuleFor r.family explicit lit r
  unfolding literal_rule
  literal_rule-RuleFor explicit s r h = elim (Option-cases (inet_pton inet s)) [
    | inl e ↦ elim (Option-cases (inet_pton inet6 s)) [
      | inl f ↦ absurd (none_ne (rw (e, f, literal_rule) at h))
      | inr (lit, f) ↦ in_family inet6 lit f (rw (e, f, literal_rule) at h)
    ]
    | inr (lit, e) ↦ in_family inet lit e (rw (e, literal_rule) at h)
  ]
    where
      in_family :
          (family : Family) (lit : Bytes)
          → inet_pton family s ≡ some lit
          → rule_of family explicit lit ≡ some r
          → (lit : Bytes) × (inet_pton r.family s ≡ some lit) × RuleFor r.family explicit lit r
      in_family family lit e g =
          let (bytes, size) = reads family s lit e in
          let rf = rule_of-RuleFor family lit bytes size explicit r g in
          (
            lit,
            subst (λ f. inet_pton f s ≡ some lit) (sym rf.same_family) e,
            subst (λ f. RuleFor f explicit lit r) (sym rf.same_family) rf,
          )

  -- A rule that `cidr_parse` returns comes from a literal of its family in front of the first
  -- slash and, where there is a slash, from a non-empty run of digits behind it worth at most 128.
  -- It is well formed, its first `prefix_len` bits are the literal's, and its other bits are clear.
  pub cidr_parse-Parsed :
      (s : Bytes) (r : Cidr) → cidr_parse inet_pton (some s) ≡ some r → Parsed inet_pton s r
  unfolding cidr_parse
  cidr_parse-Parsed s r h = elim (Bool-cases (leb 50 (length (split_slash s).0))) [
    | inl e ↦ absurd (none_ne (rw e at h))
    | inr e ↦ elim (Option-cases (explicit_len (split_slash s).1)) [
      | inl f ↦ absurd (none_ne (rw (e, f) at h))
      | inr (explicit, f) ↦
          let (lit, l, rf) = literal_rule-RuleFor explicit (split_slash s).0 r (rw (e, f) at h) in
          record {
            lit = lit;
            explicit = explicit;
            literal = l;
            length_text = explicit_len-LengthText (split_slash s).1 explicit f;
            rule = rf;
          }
    ]
  ]
