-- ===== src/Proxy/Bless/Found.antt =====
-- An address that was blessed is found for as long as its time runs and the array has room.
use cclaw.Prelude.{
  All, Option, false, leb, ℕ, zero, suc, ◌+◌, ◌-◌, ◌≤◌, ◌<◌, ◌≡◌, refl, sym, ap, subst, ◌≢◌, Bool,
  true, List, [], ◌∷◌, ◌++◌, none, some, none_ne, some_eq, arith, Bool-cases, Option-cases, inl,
  inr, Bytes, length, take, replicate, bytes_eq_refl, bytes_eq,
}
use cclaw.Host.Cidr.{Family, inet, inet6, addr_bytes, same_family, same_front}
use cclaw.Proxy.{Platform, ProxyContext, ProxyBlessedAddr, ip_to_bin}
use cclaw.Proxy.Bless.{
  bless_ttl_secs, is_entry_for, find_blessed, drop_expired, refresh, pad16, new_entry,
  bless_entries, bless_contains, bless_add, contains_at, bless_at, append_entry, bless_max,
}
use cclaw.Proxy.Bless.Laws.{bless_entries_cases, bless_entries-grows, drop_expired-le}

module _ (later : ℕ) (family : Family) (bin : Bytes) where
  -- A live entry for the address, wherever it stands, is found.
  find_blessed-append :
      (bs : List ProxyBlessedAddr) (e : ProxyBlessedAddr)
      → later < e.expiry
      → is_entry_for family bin e ≡ true
      → find_blessed later family bin (bs ++ e ∷ []) ≢ none
  unfolding find_blessed
  find_blessed-append [] e live here h = ground arith
  find_blessed-append (b ∷ bs) e live here h = ground (arith, find_blessed-append bs e live here)

  find_blessed-refresh :
      (now : ℕ) (via : Bool) (bs out : List ProxyBlessedAddr)
      → later < now + bless_ttl_secs
      → refresh now family bin via bs ≡ some out
      → find_blessed later family bin out ≢ none
  unfolding find_blessed refresh
  find_blessed-refresh now via [] out live h = absurd (none_ne h)
  find_blessed-refresh now via (b ∷ bs) out live h = elim (Bool-cases (is_entry_for family bin b)) [
    | inl e ↦
        subst (λ l. find_blessed later family bin l ≢ none) (some_eq _ out (rw e at h))
          (λ k. ground arith)
    | inr e ↦ elim (Option-cases (refresh now family bin via bs)) [
      | inl f ↦ absurd (none_ne (rw (e, f) at h))
      | inr (rest, f) ↦
          subst (λ l. find_blessed later family bin l ≢ none) (some_eq _ out (rw (e, f) at h))
            (λ k. ground (arith, find_blessed-refresh now via bs rest live f))
    ]
  ]

take-pad16 : (n m : ℕ) (a : Bytes) → n ≤ length a → take n (take n a ++ replicate m 0) ≡ take n a
take-pad16 zero m a h = refl
take-pad16 (suc n) m [] h = absurd (omega arith)
take-pad16 (suc n) m (x ∷ a) h = ap (λ t. x ∷ t) (take-pad16 n m a (omega arith))

same_family_refl : (f : Family) → same_family f f ≡ true
same_family_refl inet = refl
same_family_refl inet6 = refl

new_entry-is_entry_for :
    (now : ℕ) (family : Family) (bin : Bytes) (via : Bool)
    → addr_bytes family ≤ length bin
    → is_entry_for family bin (new_entry now family bin via) ≡ true
new_entry-is_entry_for now family bin via h =
    let front = take-pad16 (addr_bytes family) (16 - addr_bytes family) bin h in
    let same : same_front (addr_bytes family) (pad16 family bin) bin ≡ true =
      subst (λ x. bytes_eq x (take (addr_bytes family) bin) ≡ true) (sym front)
        (bytes_eq_refl (take (addr_bytes family) bin)) in
    rw (same_family_refl family) same

pub bless_entries-found :
    (now later : ℕ) (family : Family) (bin : Bytes) (via : Bool) (bs : List ProxyBlessedAddr)
    → addr_bytes family ≤ length bin
    → later < now + bless_ttl_secs
    → find_blessed later family bin (bless_entries now family bin via bs) ≢ none
bless_entries-found now later family bin via bs h live =
    elim (bless_entries_cases now family bin via bs) [
      | inl (_, e) ↦
          subst (λ l. find_blessed later family bin l ≢ none) (sym e)
            (find_blessed-append later family bin _ (new_entry now family bin via) live
              (new_entry-is_entry_for now family bin via h))
      | inr e ↦
          find_blessed-refresh later family bin now via (drop_expired now bs)
            (bless_entries now family bin via bs) live e
    ]

module _ (later : ℕ) (family : Family) (bin : Bytes) where
  abbrev Present : List ProxyBlessedAddr → Type 0
  Present bs = find_blessed later family bin bs ≢ none

  -- The end of other entries' time takes none that still lives.
  find_blessed-drop_expired :
      (now : ℕ) (bs : List ProxyBlessedAddr)
      → now ≤ later
      → Present bs
      → Present (drop_expired now bs)
  unfolding find_blessed drop_expired
  find_blessed-drop_expired now [] h p = p
  find_blessed-drop_expired now (b ∷ bs) h p =
      λ k. ground (arith, find_blessed-drop_expired now bs h)

  find_blessed-added :
      (bs : List ProxyBlessedAddr) (e : ProxyBlessedAddr) → Present bs → Present (bs ++ e ∷ [])
  unfolding find_blessed
  find_blessed-added [] e p = absurd (p refl)
  find_blessed-added (b ∷ bs) e p = λ k. ground (arith, find_blessed-added bs e)

  find_blessed-refreshed :
      (now : ℕ) (f : Family) (a : Bytes) (via : Bool) (bs out : List ProxyBlessedAddr)
      → later < now + bless_ttl_secs
      → refresh now f a via bs ≡ some out
      → Present bs
      → Present out
  unfolding find_blessed refresh
  find_blessed-refreshed now f a via [] out live h p = absurd (none_ne h)
  find_blessed-refreshed now f a via (b ∷ bs) out live h p =
      elim (Bool-cases (is_entry_for f a b)) [
        | inl e ↦ subst Present (some_eq _ out (rw e at h)) (λ k. ground arith)
        | inr e ↦ elim (Option-cases (refresh now f a via bs)) [
          | inl x ↦ absurd (none_ne (rw (e, x) at h))
          | inr (rest, x) ↦
              let later_entries = find_blessed-refreshed now f a via bs rest live x in
              subst Present (some_eq _ out (rw (e, x) at h)) (λ k. ground (arith, later_entries))
        ]
      ]

  -- A bless that finds room keeps every address that lives on.
  bless_entries-keeps :
      (now : ℕ) (f : Family) (a : Bytes) (via : Bool) (bs : List ProxyBlessedAddr)
      → now ≤ later
      → later < now + bless_ttl_secs
      → length bs < bless_max
      → Present bs
      → Present (bless_entries now f a via bs)
  bless_entries-keeps now f a via bs h live room p =
      let stays = find_blessed-drop_expired now bs h p in
      elim (bless_entries_cases now f a via bs) [
        | inr e ↦ find_blessed-refreshed now f a via (drop_expired now bs) _ live e stays
        | inl (_, e) ↦ subst Present (sym e) (
            append_entry-room (new_entry now f a via) (drop_expired now bs)
              (omega (arith, drop_expired-le now bs)) stays)
      ]
    where
      append_entry-room :
          (e : ProxyBlessedAddr) (bs : List ProxyBlessedAddr)
          → length bs < bless_max
          → Present bs
          → Present (append_entry e bs)
      append_entry-room e bs room p =
          let some_room : leb bless_max (length bs) ≡ false = ground arith in
          rw some_room (find_blessed-added bs e p)

-- A later call of `bless_add`.
pub record Blessing : Type 0 where
  pub now : ℕ
  pub ip : Bytes
  pub via_hostname : Bool

module _ (sys : Platform) where
  abbrev pub bless_all : ProxyContext → List Blessing → ProxyContext
  bless_all ctx [] = ctx
  bless_all ctx (b ∷ others) = bless_all (bless_add sys ctx b.now b.ip b.via_hostname) others

  bless_add-keeps :
      (later : ℕ) (family : Family) (bin : Bytes) (ctx : ProxyContext) (b : Blessing)
      → b.now ≤ later
      → later < b.now + bless_ttl_secs
      → length ctx.blessed < bless_max
      → Present later family bin ctx.blessed
      → Present later family bin (bless_add sys ctx b.now b.ip b.via_hostname).blessed
        × (length (bless_add sys ctx b.now b.ip b.via_hostname).blessed ≤ suc (length ctx.blessed))
  unfolding bless_add
  bless_add-keeps later family bin ctx b h live room p = go (ip_to_bin sys b.ip)
    where
      go :
          (o : Option (Family × Bytes))
          → Present later family bin (bless_at ctx b.now b.via_hostname o).blessed
            × (length (bless_at ctx b.now b.via_hostname o).blessed ≤ suc (length ctx.blessed))
      go none = (p, omega arith)
      go (some (f, a)) = (
        bless_entries-keeps later family bin b.now f a b.via_hostname ctx.blessed h live room p,
        bless_entries-grows b.now f a b.via_hostname ctx.blessed,
      )

  bless_all-keeps :
      (now later : ℕ) (family : Family) (bin : Bytes) (ctx : ProxyContext) (others : List Blessing)
      → later < now + bless_ttl_secs
      → All (λ b. (now ≤ b.now) × (b.now ≤ later)) others
      → length ctx.blessed + length others ≤ bless_max
      → Present later family bin ctx.blessed
      → Present later family bin (bless_all ctx others).blessed
  bless_all-keeps now later family bin ctx [] live times room p = p
  bless_all-keeps now later family bin ctx (b ∷ others) live ((after, before), times) room p =
      let (stays, more) =
        bless_add-keeps later family bin ctx b before (omega arith) (omega arith) p in
      bless_all-keeps now later family bin (bless_add sys ctx b.now b.ip b.via_hostname) others live
        times (omega (arith, more)) stays

just_blessed :
    (sys : Platform) (ctx : ProxyContext) (now later : ℕ) (ip : Bytes) (via : Bool)
    (family : Family) (bin : Bytes)
    → ip_to_bin sys ip ≡ some (family, bin)
    → addr_bytes family ≤ length bin
    → later < now + 60
    → Present later family bin (bless_add sys ctx now ip via).blessed
unfolding bless_add
just_blessed sys ctx now later ip via family bin e h live =
    subst (λ o. find_blessed later family bin (bless_at ctx now via o).blessed ≢ none) (sym e)
      (bless_entries-found now later family bin via ctx.blessed h live)

-- An address that is numeric and was just blessed is in the set until its 60 seconds are over,
-- whatever is blessed meanwhile, as long as the array has room for it: no eviction takes place then,
-- and the one that may make room for the address itself does not take it.
pub bless_contains-bless_add :
    (sys : Platform) (ctx : ProxyContext) (now later : ℕ) (ip : Bytes) (via : Bool)
    (family : Family) (bin : Bytes) (others : List Blessing)
    → ip_to_bin sys ip ≡ some (family, bin)
    → addr_bytes family ≤ length bin
    → later < now + 60
    → All (λ b. (now ≤ b.now) × (b.now ≤ later)) others
    → length (bless_add sys ctx now ip via).blessed + length others ≤ 256
    → bless_contains sys (bless_all sys (bless_add sys ctx now ip via) others) later ip ≢ none
unfolding bless_contains
bless_contains-bless_add sys ctx now later ip via family bin others e h live times room =
    subst (λ o. contains_at (bless_all sys (bless_add sys ctx now ip via) others) later o ≢ none)
      (sym e)
      (bless_all-keeps sys now later family bin (bless_add sys ctx now ip via) others live times
        room (just_blessed sys ctx now later ip via family bin e h live))
