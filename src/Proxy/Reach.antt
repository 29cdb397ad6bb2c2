-- ===== src/Proxy/Reach.antt =====
-- What a dialled text reaches, read apart from `ip_to_bin` of src/proxy.c: an address in a metadata
-- range only if it is exactly granted, in whatever spelling.
use cclaw.Prelude.{
  ℕ, zero, suc, ◌≡◌, ◌≢◌, refl, sym, ap, ap₂, ◌∙◌, ◌++◌, ◌∷◌, List, [], Option, some, none, arith,
  Bytes, length, take, drop, take-append-drop, bytes_eq, bytes_eq→eq, Bool-cases, inl, inr,
}
use cclaw.Host.Cidr.{Family, inet, inet6, Cidr}
use cclaw.Proxy.{Platform, ip_to_bin, bin_of, mapped_prefix}
use cclaw.Proxy.Handle.{Outcome, connect_failed, sni_denied, relayed}
use cclaw.Proxy.Metadata.{Vetted, VettedText, VettedText-all, DialsVetted, ReadsLengths}

-- ::ffff:0:0/96 of RFC 4291, with the IPv4 address behind it.
abbrev pub mapped_address : Bytes → Bytes
mapped_address a = 0 ∷ 0 ∷ 0 ∷ 0 ∷ 0 ∷ 0 ∷ 0 ∷ 0 ∷ 0 ∷ 0 ∷ 255 ∷ 255 ∷ a

-- The address that a connection to the text goes to: an IPv4 literal's, the IPv4 address inside a
-- mapped IPv6 literal, or that of any other IPv6 literal.
pub data Reaches (sys : Platform) (ip : Bytes) : Family → Bytes → Type 0 where
  literal : (a : Bytes) → sys.inet_pton inet ip ≡ some a → Reaches sys ip inet a
  mapped :
      (a : Bytes)
      → sys.inet_pton inet ip ≡ none
      → sys.inet_pton inet6 ip ≡ some (mapped_address a)
      → Reaches sys ip inet a
  literal6 :
      (a : Bytes)
      → sys.inet_pton inet ip ≡ none
      → sys.inet_pton inet6 ip ≡ some a
      → ((b : Bytes) → a ≢ mapped_address b)
      → Reaches sys ip inet6 a

-- Whatever the text reaches is vetted.
abbrev pub VettedReach : Platform → Option (List Cidr) → Bytes → Type 0
VettedReach sys rules ip =
    (family : Family) (bin : Bytes) → Reaches sys ip family bin → Vetted rules family bin

abbrev pub DialsReach : Platform → Option (List Cidr) → Outcome → Type 0
DialsReach sys rules (connect_failed ip port) = VettedReach sys rules ip
DialsReach sys rules (sni_denied ip port) = VettedReach sys rules ip
DialsReach sys rules (relayed ip port) = VettedReach sys rules ip
DialsReach sys rules _ = Unit

take_whole : (n : ℕ) (a : Bytes) → length a ≡ n → take n a ≡ a
take_whole zero [] h = refl
take_whole zero (c ∷ a) h = absurd (omega arith)
take_whole (suc n) [] h = absurd (omega arith)
take_whole (suc n) (c ∷ a) h = ap (λ t. c ∷ t) (take_whole n a (omega arith))

module _ (sys : Platform) (reads : ReadsLengths sys) (ip : Bytes) where
  Reaches-ip_to_bin :
      (family : Family) (bin : Bytes)
      → Reaches sys ip family bin
      → ip_to_bin sys ip ≡ some (family, bin)
  unfolding ip_to_bin bin_of
  Reaches-ip_to_bin _ _ (literal a e) =
      ap (λ o. bin_of o (sys.inet_pton inet6 ip)) e
      ∙ ap (λ b. some (inet, b)) (take_whole 4 a (reads inet ip a e))
  Reaches-ip_to_bin _ _ (mapped a e f) =
      ap₂ bin_of e f
      ∙ ap (λ b. some (inet, b))
          (take_whole 4 a (omega (arith, reads inet6 ip (mapped_address a) f)))
  Reaches-ip_to_bin _ _ (literal6 a e f other) =
      ap₂ bin_of e f ∙ (elim (Bool-cases (bytes_eq (take 12 a) mapped_prefix)) [
        | inl m ↦ absurd (
            other (drop 12 a)
              (sym (take-append-drop 12 a) ∙ ap (λ t. t ++ drop 12 a) (bytes_eq→eq _ _ m)))
        | inr m ↦ rw m (ap (λ b. some (inet6, b)) (take_whole 16 a (reads inet6 ip a f)))
      ])

  VettedText-VettedReach :
      (rules : Option (List Cidr)) → VettedText sys rules ip → VettedReach sys rules ip
  VettedText-VettedReach rules v family bin r =
      VettedText-all sys reads rules ip v family bin (Reaches-ip_to_bin family bin r)

pub DialsVetted-DialsReach :
    (sys : Platform) (reads : ReadsLengths sys) (rules : Option (List Cidr)) (o : Outcome)
    → DialsVetted sys rules o
    → DialsReach sys rules o
DialsVetted-DialsReach sys reads rules (connect_failed ip port) v =
    VettedText-VettedReach sys reads ip rules v
DialsVetted-DialsReach sys reads rules (sni_denied ip port) v =
    VettedText-VettedReach sys reads ip rules v
DialsVetted-DialsReach sys reads rules (relayed ip port) v =
    VettedText-VettedReach sys reads ip rules v
DialsVetted-DialsReach sys reads rules _ v = tt
