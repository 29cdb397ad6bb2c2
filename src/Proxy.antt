-- ===== src/Proxy.antt =====
-- src/proxy.c and src/http_policy.c: the credential proxy of a shell child, which decides where the
-- sandbox may connect. `ProxyContext` is the state that a call's connections share; its three
-- lists and its relay count are changed only under the mutex `blessed_mu`, so every operation here
-- is one critical section. The system's address functions are the parameter `Platform`.
-- The children model the blessed set (Bless), a client's request (Handle), the TLS walk (Sni), and
-- prove what may be reached (Metadata, Reach).
pub mod Bless
pub mod Handle
pub mod Metadata
pub mod Reach
pub mod Sni
pub mod Requests
pub mod Runs
mod Examples
use cclaw.Prelude.{
  ℕ, zero, suc, ◌+◌, ◌-◌, ◌*◌, ◌/◌, ◌^◌, Bool, true, false, ◌&&◌, ◌||◌, not, List, [], ◌∷◌, ◌++◌,
  Option, none, some, ltb, leb, ◌==◌, if◌then◌else◌, Bytes, length, take, drop, get_or, bytes_eq,
  bit_and, replicate,
}
use cclaw.Host.Rules.{RuleList, host_match}
use cclaw.Host.Cover.{host_covered}
use cclaw.Host.Cidr.{
  Family, inet, inet6, Cidr, cidr_match, granted_exact, addr_bytes, same_family, same_front,
}

-- `inet_pton` and `inet_ntop`.
pub record Platform : Type 0 where
  pub inet_pton : Family → Bytes → Option Bytes
  pub inet_ntop : Family → Bytes → Bytes

-- `addr` is an array of 16 bytes.
pub record ProxyBlessedAddr : Type 0 where
  pub family : Family
  pub addr : Bytes
  pub expiry : ℕ
  pub via_hostname : Bool

pub record ProxyContext : Type 0 where
  pub host_rules : Option RuleList
  pub cidr_rules : Option (List Cidr)
  pub deny_rules : Option RuleList
  pub blessed : List ProxyBlessedAddr
  pub relay_count : ℕ
  pub contacted : List Bytes
  pub denied : List Bytes
  pub sni_strict_port : ℕ

-- 169.254.0.0/16, fe80::/10 and fd00:ec2::254/128
abbrev pub metadata_ranges : List Cidr
metadata_ranges =
    record { family = inet; prefix = 169 ∷ 254 ∷ replicate 14 0; prefix_len = 16 }
    ∷ record { family = inet6; prefix = 0xfe ∷ 0x80 ∷ replicate 14 0; prefix_len = 10 }
    ∷ record {
      family = inet6;
      prefix = 0xfd ∷ 0x00 ∷ 0x0e ∷ 0xc2 ∷ (replicate 10 0 ++ 0x02 ∷ 0x54 ∷ []);
      prefix_len = 128;
    }
    ∷ []

unfoldable pub in_metadata_range : Family → Bytes → Bool
in_metadata_range family addr = cidr_match (some metadata_ranges) family (some addr)

abbrev pub mapped_prefix : Bytes
mapped_prefix = replicate 10 0 ++ 0xff ∷ 0xff ∷ []

-- The address as a number in host order, of which `http_is_private_ip` tests the top bits.
abbrev pub v4_number : Bytes → ℕ
v4_number a = ((get_or a 0 0 * 256 + get_or a 1 0) * 256 + get_or a 2 0) * 256 + get_or a 3 0

unfoldable pub private_v4 : Bytes → Bool
private_v4 a =
    let h = v4_number a in
    h / 2 ^ 24 == 127
    || h / 2 ^ 24 == 10
    || h / 2 ^ 24 == 0
    || bit_and h 0xFFF00000 == 0xAC100000
    || h / 2 ^ 16 == 192 * 256 + 168
    || h / 2 ^ 16 == 169 * 256 + 254
    || bit_and h 0xFFC00000 == 0x64400000

abbrev pub loopback_v6 : Bytes
loopback_v6 = replicate 15 0 ++ 1 ∷ []

unfoldable pub bin_of : Option Bytes → Option Bytes → Option (Family × Bytes)
bin_of (some a4) v6 = some (inet, take 4 a4)
bin_of none none = none
bin_of none (some a6) =
    if bytes_eq (take 12 a6) mapped_prefix
    then some (inet, take 4 (drop 12 a6))
    else some (inet6, take 16 a6)

module _ (sys : Platform) where
  open sys use {inet_pton, inet_ntop}

  -- The function calls itself on the text of the address inside a mapped one. That text is an IPv4
  -- address, so two levels are enough.
  unfoldable pub private_ip : ℕ → Bytes → Bool
  private_ip zero ip = false
  private_ip (suc fuel) ip = elim (inet_pton inet ip) [
    | some a4 ↦ private_v4 a4
    | none ↦ elim (inet_pton inet6 ip) [
      | none ↦ false
      | some a6 ↦
          let embedded = private_ip fuel (inet_ntop inet (drop 12 a6)) in
          if bytes_eq a6 loopback_v6
          then true
          else if bytes_eq a6 (replicate 16 0)
          then true
          else if get_or a6 0 0 == 0xfe && bit_and (get_or a6 1 0) 0xc0 == 0x80
          then true
          else if bit_and (get_or a6 0 0) 0xfe == 0xfc
          then true
          else if bytes_eq (take 12 a6) mapped_prefix
          then embedded
          else false
    ]
  ]

  unfoldable pub http_is_private_ip : Bytes → Bool
  unfolding private_ip private_v4
  http_is_private_ip = private_ip 2

  -- The family and the bytes of a numeric address, a mapped one in its IPv4 form: the IPv4 parse
  -- comes first.
  unfoldable pub ip_to_bin : Bytes → Option (Family × Bytes)
  unfolding bin_of
  ip_to_bin ip = bin_of (inet_pton inet ip) (inet_pton inet6 ip)

  unfoldable pub numeric_ip_permitted : ProxyContext → Bytes → Family → Bytes → Bool → Bool
  numeric_ip_permitted ctx ip family bin allow_public =
      if in_metadata_range family bin
      then granted_exact ctx.cidr_rules family (some bin)
      else if allow_public && not (http_is_private_ip ip)
      then true
      else cidr_match ctx.cidr_rules family (some bin)

  abbrev pub decide_at : ProxyContext → Bytes → Option (Family × Bytes) → Bool
  decide_at ctx host none = host_match ctx.host_rules (some host)
  decide_at ctx host (some (family, bin)) = numeric_ip_permitted ctx host family bin false

  -- The deny labels come first, then numeric addresses, then the hostname rules.
  unfoldable pub host_decide : ProxyContext → Bytes → Bool
  host_decide ctx host =
      if host_covered ctx.deny_rules (some host) then false else decide_at ctx host (ip_to_bin host)

  abbrev pub permitted_at : ProxyContext → Bytes → Option (Family × Bytes) → Bool
  permitted_at ctx ip none = false
  permitted_at ctx ip (some (family, bin)) = numeric_ip_permitted ctx ip family bin true

  unfoldable pub addr_permitted : ProxyContext → Bytes → Bool
  addr_permitted ctx ip = permitted_at ctx ip (ip_to_bin ip)
