-- ===== src/Proxy/Bless.antt =====
-- The blessed set of src/proxy.c: addresses that passed the allowlist, for a limited time.
pub mod Laws
pub mod Found
use cclaw.Prelude.{
  ℕ, zero, suc, ◌+◌, ◌-◌, ◌≤◌, ◌<◌, ◌≡◌, refl, sym, ap, ◌∙◌, ◌≢◌, Bool, true, false, ◌&&◌, ◌||◌,
  not, List, [], ◌∷◌, ◌++◌, Option, none, some, none_ne, some_eq, arith, ltb, leb, ◌==◌,
  if◌then◌else◌, Bool-cases, inl, inr, Bytes, length, take, get_or, replicate, All, length-append,
  All-append,
}
use cclaw.Host.Cidr.{Family, addr_bytes, same_family, same_front}
use cclaw.Proxy.{Platform, ProxyContext, ProxyBlessedAddr, ip_to_bin}

abbrev pub bless_max : ℕ
bless_max = 256

abbrev pub bless_ttl_secs : ℕ
bless_ttl_secs = 60

-- The entry holds this address.
abbrev pub is_entry_for : Family → Bytes → ProxyBlessedAddr → Bool
is_entry_for family bin b = same_family b.family family && same_front (addr_bytes family) b.addr bin

-- The search of `bless_contains`: whether the first live entry came from a hostname.
unfoldable pub find_blessed : ℕ → Family → Bytes → List ProxyBlessedAddr → Option Bool
find_blessed now family bin [] = none
find_blessed now family bin (b ∷ bs) =
    let rest = find_blessed now family bin bs in
    if leb b.expiry now
    then rest
    else if is_entry_for family bin b
    then some b.via_hostname
    else rest

-- `for (i …) if (blessed[i].expiry > now)`, compacting in place.
unfoldable pub drop_expired : ℕ → List ProxyBlessedAddr → List ProxyBlessedAddr
drop_expired now [] = []
drop_expired now (b ∷ bs) =
    let rest = drop_expired now bs in if ltb now b.expiry then b ∷ rest else rest

-- The entry refreshed, if there is one.
unfoldable pub refresh :
    ℕ → Family → Bytes → Bool → List ProxyBlessedAddr → Option (List ProxyBlessedAddr)
refresh now family bin via [] = none
refresh now family bin via (b ∷ bs) =
    let later = refresh now family bin via bs in
    if is_entry_for family bin b
    then some
        (record b { expiry = now + bless_ttl_secs; via_hostname = b.via_hostname || via } ∷ bs)
    else elim later [ none ↦ none | some bs' ↦ some (b ∷ bs') ]

-- The index of the entry that expires first, from index i on, the best so far being given.
unfoldable pub oldest_from : ℕ → ℕ → ℕ → List ProxyBlessedAddr → ℕ
oldest_from i best least [] = best
oldest_from i best least (b ∷ bs) =
    oldest_from (i + 1) (if ltb b.expiry least then i else best)
      (if ltb b.expiry least then b.expiry else least) bs

unfoldable pub last_of : ProxyBlessedAddr → List ProxyBlessedAddr → ProxyBlessedAddr
last_of b [] = b
last_of b (c ∷ bs) = last_of c bs

abbrev pub set_entry : List ProxyBlessedAddr → ℕ → ProxyBlessedAddr → List ProxyBlessedAddr
set_entry [] i v = []
set_entry (b ∷ bs) zero v = v ∷ bs
set_entry (b ∷ bs) (suc i) v = b ∷ set_entry bs i v

abbrev pub drop_last : List ProxyBlessedAddr → List ProxyBlessedAddr
drop_last [] = []
drop_last (b ∷ []) = []
drop_last (b ∷ c ∷ bs) = b ∷ drop_last (c ∷ bs)

-- `blessed[oldest] = blessed[count - 1]; count--;`
unfoldable pub evict_oldest : List ProxyBlessedAddr → List ProxyBlessedAddr
unfolding oldest_from last_of
evict_oldest [] = []
evict_oldest (b ∷ bs) = drop_last (set_entry (b ∷ bs) (oldest_from 1 0 b.expiry bs) (last_of b bs))

abbrev pub pad16 : Family → Bytes → Bytes
pad16 family bin = take (addr_bytes family) bin ++ replicate (16 - addr_bytes family) 0

abbrev pub new_entry : ℕ → Family → Bytes → Bool → ProxyBlessedAddr
new_entry now family bin via = record {
  family = family;
  addr = pad16 family bin;
  expiry = now + bless_ttl_secs;
  via_hostname = via;
}

abbrev pub append_entry : ProxyBlessedAddr → List ProxyBlessedAddr → List ProxyBlessedAddr
append_entry e bs = (if leb bless_max (length bs) then evict_oldest bs else bs) ++ e ∷ []

abbrev pub refreshed_or :
    Option (List ProxyBlessedAddr) → List ProxyBlessedAddr → List ProxyBlessedAddr
refreshed_or none added = added
refreshed_or (some refreshed) added = refreshed

unfoldable pub bless_entries :
    ℕ → Family → Bytes → Bool → List ProxyBlessedAddr → List ProxyBlessedAddr
unfolding drop_expired refresh evict_oldest
bless_entries now family bin via blessed =
    refreshed_or (refresh now family bin via (drop_expired now blessed))
      (append_entry (new_entry now family bin via) (drop_expired now blessed))

abbrev pub contains_at : ProxyContext → ℕ → Option (Family × Bytes) → Option Bool
contains_at ctx now none = none
contains_at ctx now (some (family, bin)) = find_blessed now family bin ctx.blessed

abbrev pub bless_at : ProxyContext → ℕ → Bool → Option (Family × Bytes) → ProxyContext
bless_at ctx now via none = ctx
bless_at ctx now via (some (family, bin)) = record ctx {
  blessed = bless_entries now family bin via ctx.blessed;
}

module _ (sys : Platform) where
  unfoldable pub bless_contains : ProxyContext → ℕ → Bytes → Option Bool
  unfolding find_blessed
  bless_contains ctx now ip = contains_at ctx now (ip_to_bin sys ip)

  unfoldable pub bless_add : ProxyContext → ℕ → Bytes → Bool → ProxyContext
  unfolding bless_entries
  bless_add ctx now ip via = bless_at ctx now via (ip_to_bin sys ip)
