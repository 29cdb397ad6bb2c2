-- ===== src/Host/Cidr/Exact.antt =====
-- `granted_exact`: only a rule with every bit of the address in its prefix counts.
use cclaw.Prelude.{
  false, ◌&&◌, not, Bool-cases, ◌*◌, ◌/◌, ◌%◌, ◌≤◌, ◌≡◌, refl, ap, subst, ◌↔◌, inl, inr, true, List,
  [], ◌∷◌, some, arith, Bytes, take, Any, All, bytes_eq, bytes_eq→eq, bytes_eq_refl,
}
use cclaw.Host.Cidr.{
  Family, inet, inet6, Cidr, cidr_match, full_len, addr_bytes, any_exact, granted_exact,
}
use cclaw.Host.Cidr.Contains.{IsCidr, IsAddr, CidrHolds, cidr_match_iff, take→get_or}
use cclaw.Host.Cidr.Bits.{bit_of}

-- A rule that names the one address: its family, full length and bytes.
abbrev pub NamesExactly : Family → Bytes → Cidr → Type 0
NamesExactly family addr r =
    (r.family ≡ family)
    × (r.prefix_len ≡ full_len family)
    × (take (addr_bytes family) r.prefix ≡ take (addr_bytes family) addr)

any_exact_sound :
    (rules : List Cidr) (family : Family) (addr : Bytes)
    → any_exact rules family addr ≡ true
    → Any (NamesExactly family addr) rules
unfolding any_exact
any_exact_sound [] family addr h = cc
any_exact_sound (r ∷ rules) family addr h = ground (
  arith,
  any_exact_sound rules family addr,
  bytes_eq→eq (take (addr_bytes family) r.prefix) (take (addr_bytes family) addr),
)

any_exact_complete :
    (rules : List Cidr) (family : Family) (addr : Bytes)
    → Any (NamesExactly family addr) rules
    → any_exact rules family addr ≡ true
unfolding any_exact
any_exact_complete [] family addr h = elim h [ ]
any_exact_complete (r ∷ rules) family addr (inl (e, f, g)) = ground (
  arith,
  subst (λ x. bytes_eq (take (addr_bytes family) r.prefix) x ≡ true) g
      (bytes_eq_refl (take (addr_bytes family) r.prefix)),
)
any_exact_complete (r ∷ rules) family addr (inr c) =
    ground (arith, any_exact_complete rules family addr c)

granted_exact_iff :
    (rules : List Cidr) (family : Family) (addr : Bytes)
    → (granted_exact (some rules) family (some addr) ≡ true) ↔ Any (NamesExactly family addr) rules
unfolding granted_exact
granted_exact_iff rules family addr =
    (any_exact_sound rules family addr, any_exact_complete rules family addr)

full_bits : (family : Family) → full_len family ≡ 8 * addr_bytes family
full_bits inet = refl
full_bits inet6 = refl

addr_bytes-le : (family : Family) → addr_bytes family ≤ 16
addr_bytes-le inet = omega arith
addr_bytes-le inet6 = omega arith

NamesExactly-CidrHolds :
    (r : Cidr) (family : Family) (addr : Bytes)
    → IsCidr r
    → IsAddr family addr
    → NamesExactly family addr r
    → CidrHolds r family addr
NamesExactly-CidrHolds r family addr w a (e, f, g) = (
  e,
  λ i h.
      ap (λ x. bit_of x (i % 8))
        (take→get_or (addr_bytes family) r.prefix addr (i / 8) g
          (omega (arith, w.size, addr_bytes-le family)) a.size (omega (arith, full_bits family))),
)

Any-NamesExactly :
    (rules : List Cidr) (family : Family) (addr : Bytes)
    → All IsCidr rules
    → IsAddr family addr
    → Any (NamesExactly family addr) rules
    → Any (λ r. CidrHolds r family addr) rules
Any-NamesExactly [] family addr w a h = h
Any-NamesExactly (r ∷ rules) family addr w a (inl c) =
    inl (NamesExactly-CidrHolds r family addr w.0 a c)
Any-NamesExactly (r ∷ rules) family addr w a (inr c) =
    inr (Any-NamesExactly rules family addr w.1 a c)

exact-cidr_match :
    (rules : List Cidr) (family : Family) (addr : Bytes)
    → All IsCidr rules
    → IsAddr family addr
    → granted_exact (some rules) family (some addr) ≡ true
    → cidr_match (some rules) family (some addr) ≡ true
exact-cidr_match rules family addr w a h =
    (cidr_match_iff rules family addr w a).1
      (Any-NamesExactly rules family addr w a ((granted_exact_iff rules family addr).0 h))

-- Over well-formed rules, `granted_exact` accepts exactly when some rule names the one address: a rule
-- with a shorter prefix that holds the address does not count. And an exact grant is a grant: it
-- accepts nothing that `cidr_match` refuses over the same rules.
pub granted_exact_lem :
    (rules : List Cidr) (family : Family) (addr : Bytes)
    → All IsCidr rules
    → IsAddr family addr
    → ((granted_exact (some rules) family (some addr) ≡ true)
        ↔ Any (NamesExactly family addr) rules)
      × (granted_exact (some rules) family (some addr)
            && not (cidr_match (some rules) family (some addr))
          ≡ false)
granted_exact_lem rules family addr w a = (
  granted_exact_iff rules family addr,
  elim (Bool-cases (granted_exact (some rules) family (some addr))) [
    | inl e ↦ rw (e, exact-cidr_match rules family addr w a e) refl
    | inr e ↦ rw e refl
  ],
)
