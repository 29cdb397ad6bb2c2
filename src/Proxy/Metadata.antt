-- ===== src/Proxy/Metadata.antt =====
-- The metadata carve-out of src/proxy.c: whatever the clients ask for, an address in a metadata
-- range is dialled only where a rule names exactly that address. This file has the facts about one address
-- and one operation on the blessed set; Requests carries them through a request and a run.
use cclaw.Prelude.{
  ℕ, zero, suc, ◌-◌, ◌≤◌, ◌≡◌, refl, sym, ap, ap₂, subst, ◌∙◌, Bool, true, List, [], ◌∷◌, ◌++◌,
  Option, none, some, none_ne, some_eq, arith, leb, Bool-cases, Option-cases, inl, inr, Bytes,
  length, take, drop, length-take, length-drop, replicate, bytes_eq, bytes_eq→eq,
}
use cclaw.Host.Cidr.{Family, inet, inet6, Cidr, addr_bytes, same_family, same_front, granted_exact}
use cclaw.Proxy.{
  permitted_at, bin_of, mapped_prefix, Platform, ProxyContext, ProxyBlessedAddr, ip_to_bin,
  in_metadata_range, numeric_ip_permitted, addr_permitted,
}
use cclaw.Proxy.Bless.{is_entry_for, find_blessed, bless_at, bless_add}
use cclaw.Proxy.Bless.Laws.{AllAddrs, bless_entries-All}
use cclaw.Proxy.Handle.{Outcome, connect_failed, sni_denied, relayed}

-- In a metadata range only if exactly granted.
abbrev pub Vetted : Option (List Cidr) → Family → Bytes → Type 0
Vetted rules family bin =
    in_metadata_range family bin ≡ true → granted_exact rules family (some bin) ≡ true

-- The text of a numeric address that is vetted.
abbrev pub VettedText : Platform → Option (List Cidr) → Bytes → Type 0
VettedText sys rules ip =
    (family : Family) × (bin : Bytes) × (ip_to_bin sys ip ≡ some (family, bin))
    × Vetted rules family bin

-- Whatever the outcome dialled was vetted.
abbrev pub DialsVetted : Platform → Option (List Cidr) → Outcome → Type 0
DialsVetted sys rules (connect_failed ip port) = VettedText sys rules ip
DialsVetted sys rules (sni_denied ip port) = VettedText sys rules ip
DialsVetted sys rules (relayed ip port) = VettedText sys rules ip
DialsVetted sys rules _ = Unit

-- The rules are these, and every blessed address is vetted.
pub record IsGuarded (rules : Option (List Cidr)) (ctx : ProxyContext) : Type 0 where
  pub same_rules : ctx.cidr_rules ≡ rules
  pub entries : AllAddrs (λ f a. Vetted rules f (take (addr_bytes f) a)) ctx.blessed

take-take : (n : ℕ) (a : Bytes) → take n (take n a) ≡ take n a
take-take zero a = refl
take-take (suc n) [] = refl
take-take (suc n) (x ∷ a) = ap (λ t. x ∷ t) (take-take n a)

take-take_append : (n : ℕ) (a b : Bytes) → n ≤ length a → take n (take n a ++ b) ≡ take n a
take-take_append zero a b h = refl
take-take_append (suc n) [] b h = absurd (omega arith)
take-take_append (suc n) (x ∷ a) b h = ap (λ t. x ∷ t) (take-take_append n a b (omega arith))

-- What `inet_pton` documents about lengths.
abbrev pub ReadsLengths : Platform → Type 0
ReadsLengths sys =
    (family : Family) (s lit : Bytes)
    → sys.inet_pton family s ≡ some lit
    → length lit ≡ addr_bytes family

module _ (sys : Platform) (reads : ReadsLengths sys) where
  -- A numeric address has exactly the bytes of its family.
  pub ip_to_bin-size :
      (ip : Bytes) (family : Family) (bin : Bytes)
      → ip_to_bin sys ip ≡ some (family, bin)
      → (take (addr_bytes family) bin ≡ bin) × (addr_bytes family ≤ length bin)
  unfolding ip_to_bin
  ip_to_bin-size ip family bin h = elim (Option-cases (sys.inet_pton inet ip)) [
    | inr (a4, e) ↦
        sized inet (take 4 a4) (take-take 4 a4)
          (omega (arith, length-take 4 a4, reads inet ip a4 e))
          (ap (λ o. bin_of o (sys.inet_pton inet6 ip)) e) h
    | inl e ↦ elim (Option-cases (sys.inet_pton inet6 ip)) [
      | inl f ↦ absurd (none_ne (sym (ap₂ bin_of e f) ∙ h))
      | inr (a6, f) ↦ elim (Bool-cases (bytes_eq (take 12 a6) mapped_prefix)) [
        | inl m ↦
            sized inet (take 4 (drop 12 a6)) (take-take 4 (drop 12 a6))
              (omega (arith, length-take 4 (drop 12 a6), length-drop 12 a6, reads inet6 ip a6 f))
              (ap₂ bin_of e f ∙ rw (m, bin_of)) h
        | inr m ↦
            sized inet6 (take 16 a6) (take-take 16 a6)
              (omega (arith, length-take 16 a6, reads inet6 ip a6 f))
              (ap₂ bin_of e f ∙ rw (m, bin_of)) h
      ]
    ]
  ]
    where
      sized :
          (f : Family) (b : Bytes)
          → take (addr_bytes f) b ≡ b
          → addr_bytes f ≤ length b
          → ip_to_bin sys ip ≡ some (f, b)
          → ip_to_bin sys ip ≡ some (family, bin)
          → (take (addr_bytes family) bin ≡ bin) × (addr_bytes family ≤ length bin)
      sized f b t l e g =
          subst
            (λ (r : Family × Bytes).
              (take (addr_bytes r.0) r.1 ≡ r.1) × (addr_bytes r.0 ≤ length r.1))
            (some_eq (f, b) (family, bin) (sym e ∙ g)) (t, l)

same_family→eq : (f g : Family) → same_family f g ≡ true → f ≡ g
same_family→eq f g h = ground arith

pub numeric_ip_permitted-Vetted :
    (sys : Platform) (ctx : ProxyContext) (ip : Bytes) (family : Family) (bin : Bytes)
    (public : Bool)
    → numeric_ip_permitted sys ctx ip family bin public ≡ true
    → Vetted ctx.cidr_rules family bin
unfolding numeric_ip_permitted
numeric_ip_permitted-Vetted sys ctx ip family bin public h m = rw m at h

pub find_blessed-Vetted :
    (rules : Option (List Cidr)) (now : ℕ) (family : Family) (bin : Bytes)
    (bs : List ProxyBlessedAddr) (via : Bool)
    → find_blessed now family bin bs ≡ some via
    → AllAddrs (λ f a. Vetted rules f (take (addr_bytes f) a)) bs
    → Vetted rules family (take (addr_bytes family) bin)
unfolding find_blessed
find_blessed-Vetted rules now family bin [] via h a = absurd (none_ne h)
find_blessed-Vetted rules now family bin (b ∷ bs) via h a = elim (Bool-cases (leb b.expiry now)) [
  | inl e ↦ find_blessed-Vetted rules now family bin bs via (rw e at h) a.1
  | inr e ↦ elim (Bool-cases (is_entry_for family bin b)) [
    | inl f ↦ entry_Vetted (ground arith) (ground arith)
    | inr f ↦ find_blessed-Vetted rules now family bin bs via (rw (e, f) at h) a.1
  ]
]
  where
    entry_Vetted :
        same_family b.family family ≡ true
        → same_front (addr_bytes family) b.addr bin ≡ true
        → Vetted rules family (take (addr_bytes family) bin)
    entry_Vetted sf fr = subst (Vetted rules family) (bytes_eq→eq _ _ fr) (
        subst (λ g. Vetted rules g (take (addr_bytes g) b.addr)) (same_family→eq b.family family sf)
          a.0)

module _ (sys : Platform) (reads : ReadsLengths sys) (rules : Option (List Cidr)) where
  pub bless_add-IsGuarded :
      (ctx : ProxyContext) (now : ℕ) (ip : Bytes) (via : Bool)
      → ((family : Family) (bin : Bytes)
          → ip_to_bin sys ip ≡ some (family, bin)
          → Vetted rules family bin)
      → IsGuarded rules ctx
      → IsGuarded rules (bless_add sys ctx now ip via)
  unfolding bless_add
  bless_add-IsGuarded ctx now ip via v g = go (ip_to_bin sys ip) refl
    where
      go :
          (o : Option (Family × Bytes))
          → ip_to_bin sys ip ≡ o
          → IsGuarded rules (bless_at ctx now via o)
      go none e = g
      go (some (family, bin)) e =
          let (t, l) = ip_to_bin-size sys reads ip family bin e in
          record {
            same_rules = g.same_rules;
            entries =
                bless_entries-All (λ f a. Vetted rules f (take (addr_bytes f) a)) now family bin via
                  ctx.blessed
                  (subst (Vetted rules family)
                    (sym (
                      take-take_append (addr_bytes family) bin
                        (replicate (16 - addr_bytes family) 0) l
                      ∙ t))
                    (v family bin e))
                  g.entries;
          }

  pub addr_permitted-VettedText :
      (ctx : ProxyContext) (ip : Bytes)
      → ctx.cidr_rules ≡ rules
      → addr_permitted sys ctx ip ≡ true
      → VettedText sys rules ip
  unfolding addr_permitted
  addr_permitted-VettedText ctx ip e h = go (ip_to_bin sys ip) refl h
    where
      go :
          (o : Option (Family × Bytes))
          → ip_to_bin sys ip ≡ o
          → permitted_at sys ctx ip o ≡ true
          → VettedText sys rules ip
      go none f k = cc
      go (some (family, bin)) f k = (
        family,
        bin,
        f,
        subst (λ r. Vetted r family bin) e
            (numeric_ip_permitted-Vetted sys ctx ip family bin true k),
      )

  -- The text stands for one address, so what is known of it holds of each reading.
  pub VettedText-all :
      (ip : Bytes)
      → VettedText sys rules ip
      → (family : Family) (bin : Bytes) → ip_to_bin sys ip ≡ some (family, bin)
      → Vetted rules family bin
  VettedText-all ip (f, b, e, v) family bin h =
      subst (λ (r : Family × Bytes). Vetted rules r.0 r.1)
        (some_eq (f, b) (family, bin) (sym e ∙ h)) v
