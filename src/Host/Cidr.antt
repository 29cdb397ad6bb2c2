-- ===== src/Host/Cidr.antt =====
-- Address rules of src/host_match.c: `Cidr`, `cidr_parse`, `cidr_contains`, `cidr_match` and
-- `granted_exact`. `inet_pton` is the platform's, so it is a parameter: a parser for each family
-- that returns the bytes of the address in network order.
-- Bits proves what the masks do, Contains and Parse what the operations mean.
pub mod Bits
pub mod Contains
pub mod Exact
pub mod Mask
pub mod Parse
use cclaw.Prelude.{
  ℕ, zero, suc, ◌+◌, ◌-◌, ◌*◌, ◌/◌, ◌%◌, ◌^◌, ◌≤◌, ◌≡◌, Bool, true, false, ◌&&◌, ◌||◌, not, List,
  [], ◌∷◌, ◌++◌, Option, none, some, ltb, leb, ◌==◌, bit_and, min, if◌then◌else◌, Bytes, length,
  take, drop, get_or, replicate, bytes_eq,
}

pub data Family : Type 0 where
  inet inet6 : Family

abbrev pub same_family : Family → Family → Bool
same_family inet inet = true
same_family inet6 inet6 = true
same_family _ _ = false

-- `prefix` is an array of 16 bytes, of which an IPv4 rule uses the first four.
pub record Cidr : Type 0 where
  pub family : Family
  pub prefix : Bytes
  pub prefix_len : ℕ

-- (unsigned char)(0xFF << (8 - keep))
unfoldable pub keep_mask : ℕ → ℕ
keep_mask keep = (255 * 2 ^ (8 - keep)) % 256

-- `memcmp(a, b, n) == 0`
abbrev pub same_front : ℕ → Bytes → Bytes → Bool
same_front n a b = bytes_eq (take n a) (take n b)

unfoldable pub cidr_contains : Cidr → Family → Bytes → Bool
cidr_contains rule family addr =
    let bytes = rule.prefix_len / 8 in
    let bits = rule.prefix_len % 8 in
    let mask = keep_mask bits in
    if not (same_family rule.family family)
    then false
    else if ltb 0 bytes && not (same_front bytes rule.prefix addr)
    then false
    else if ltb 0 bits
        && not (bit_and (get_or rule.prefix bytes 0) mask == bit_and (get_or addr bytes 0) mask)
    then false
    else true

unfoldable pub any_cidr_contains : List Cidr → Family → Bytes → Bool
any_cidr_contains [] family addr = false
any_cidr_contains (r ∷ rules) family addr =
    if cidr_contains r family addr then true else any_cidr_contains rules family addr

-- `rules` and `addr` may be NULL.
unfoldable pub cidr_match : Option (List Cidr) → Family → Option Bytes → Bool
unfolding any_cidr_contains
cidr_match none family addr = false
cidr_match (some rules) family none = false
cidr_match (some rules) family (some addr) = any_cidr_contains rules family addr

abbrev pub full_len : Family → ℕ
full_len inet = 32
full_len inet6 = 128

abbrev pub addr_bytes : Family → ℕ
addr_bytes inet = 4
addr_bytes inet6 = 16

unfoldable pub any_exact : List Cidr → Family → Bytes → Bool
any_exact [] family addr = false
any_exact (r ∷ rules) family addr =
    let rest = any_exact rules family addr in
    if not (same_family r.family family)
    then rest
    else if not (r.prefix_len == full_len family)
    then rest
    else if same_front (addr_bytes family) r.prefix addr
    then true
    else rest

unfoldable pub granted_exact : Option (List Cidr) → Family → Option Bytes → Bool
unfolding any_exact
granted_exact none family addr = false
granted_exact (some rules) family none = false
granted_exact (some rules) family (some addr) = any_exact rules family addr

-- What the loop at the end of `cidr_parse` does to byte i.
unfoldable pub mask_byte : ℕ → ℕ → ℕ → ℕ
mask_byte prefix_len i b =
    let bit_start = i * 8 in
    if leb prefix_len bit_start
    then 0
    else if ltb prefix_len (bit_start + 8)
    then bit_and b (keep_mask (prefix_len - bit_start))
    else b

-- That loop, with the number of rounds left and the index of the next byte.
unfoldable pub mask_bytes : ℕ → ℕ → ℕ → Bytes → Bytes
mask_bytes prefix_len zero i bs = bs
mask_bytes prefix_len (suc n) i [] = []
mask_bytes prefix_len (suc n) i (b ∷ bs) =
    mask_byte prefix_len i b ∷ mask_bytes prefix_len n (i + 1) bs

-- `strchr(s, '/')`: the text in front of the first slash, and what follows it.
unfoldable pub split_slash : Bytes → Bytes × Option Bytes
split_slash [] = ([], none)
split_slash (c ∷ s) =
    let rest = split_slash s in if c == b'/' then ([], some s) else (c ∷ rest.0, rest.1)

unfoldable pub all_digits : Bytes → Bool
all_digits [] = true
all_digits (c ∷ s) = if ltb c b'0' || ltb b'9' c then false else all_digits s

unfoldable pub decimal : ℕ → Bytes → ℕ
decimal acc [] = acc
decimal acc (c ∷ s) = decimal (acc * 10 + (c - b'0')) s

-- `strtol` in base ten on a run of digits: a value out of range becomes LONG_MAX.
unfoldable pub strtol_digits : Bytes → ℕ
unfolding decimal
strtol_digits s = min (decimal 0 s) (2 ^ 63 - 1)

-- INET6_ADDRSTRLEN + 4
abbrev pub addr_buf_size : ℕ
addr_buf_size = 50

-- The prefix length behind the slash: `none` is the error, and where there is no slash there is no
-- explicit length.
unfoldable pub explicit_len : Option Bytes → Option (Option ℕ)
unfolding all_digits strtol_digits
explicit_len none = some none
explicit_len (some []) = none
explicit_len (some (c ∷ s)) =
    if not (all_digits (c ∷ s))
    then none
    else if ltb 128 (strtol_digits (c ∷ s))
    then none
    else some (some (strtol_digits (c ∷ s)))

abbrev pub len_or : Option ℕ → ℕ → ℕ
len_or none d = d
len_or (some n) d = n

-- The rule for the bytes of a parsed literal, with its host bits cleared.
unfoldable pub rule_of : Family → Option ℕ → Bytes → Option Cidr
unfolding mask_bytes mask_byte
rule_of family explicit lit =
    let prefix_len = len_or explicit (full_len family) in
    if ltb (full_len family) prefix_len
    then none
    else some (record {
      family = family;
      prefix = mask_bytes prefix_len (addr_bytes family) 0 (lit ++ replicate (16 - length lit) 0);
      prefix_len = prefix_len;
    })

module _ (inet_pton : Family → Bytes → Option Bytes) where
  -- The two attempts to read the literal.
  unfoldable pub literal_rule : Option ℕ → Bytes → Option Cidr
  unfolding rule_of
  literal_rule explicit buf = elim (inet_pton inet buf) [
    | some a4 ↦ rule_of inet explicit a4
    | none ↦ elim (inet_pton inet6 buf) [ some a6 ↦ rule_of inet6 explicit a6 | none ↦ none ]
  ]

  unfoldable pub cidr_parse : Option Bytes → Option Cidr
  unfolding literal_rule split_slash explicit_len
  cidr_parse none = none
  cidr_parse (some s) =
      let (addr, behind) = split_slash s in
      if leb addr_buf_size (length addr)
      then none
      else elim (explicit_len behind) [ none ↦ none | some explicit ↦ literal_rule explicit addr ]
