-- ===== src/Proxy/Bless/Laws.antt =====
-- The blessed set stays within its array, keeps what is true of its addresses, and holds an address
-- that has just been blessed.
use cclaw.Prelude.{
  ℕ, zero, suc, ◌-◌, ◌≤◌, ◌≡◌, refl, sym, ap, subst, ◌∙◌, Bool, List, [], ◌∷◌, none, some, none_ne,
  some_eq, arith, ltb, leb, Bool-cases, Option-cases, inl, inr, Bytes, length, All, length-append,
  All-append, not_leb, ◌⊎◌,
}
use cclaw.Host.Cidr.{Family}
use cclaw.Proxy.{ProxyBlessedAddr}
use cclaw.Proxy.Bless.{
  bless_max, is_entry_for, drop_expired, refresh, oldest_from, last_of, set_entry, drop_last,
  evict_oldest, pad16, new_entry, append_entry, refreshed_or, bless_entries,
}

pub drop_expired-le :
    (now : ℕ) (bs : List ProxyBlessedAddr) → length (drop_expired now bs) ≤ length bs
unfolding drop_expired
drop_expired-le now [] = omega arith
drop_expired-le now (b ∷ bs) = ground (arith, drop_expired-le now bs)

length-refresh :
    (now : ℕ) (family : Family) (bin : Bytes) (via : Bool) (bs : List ProxyBlessedAddr)
    {out : List ProxyBlessedAddr}
    → refresh now family bin via bs ≡ some out
    → length out ≡ length bs
unfolding refresh
length-refresh now family bin via [] h = cc
length-refresh now family bin via (b ∷ bs) {out} h =
    elim (Option-cases (refresh now family bin via bs)) [
      | inl e ↦ ground arith
      | inr (later, e) ↦ ground (arith, length-refresh now family bin via bs {out = later} e)
    ]

length-set_entry :
    (bs : List ProxyBlessedAddr) (i : ℕ) (v : ProxyBlessedAddr)
    → length (set_entry bs i v) ≡ length bs
length-set_entry [] i v = refl
length-set_entry (b ∷ bs) zero v = refl
length-set_entry (b ∷ bs) (suc i) v = ap suc (length-set_entry bs i v)

length-drop_last :
    (b : ProxyBlessedAddr) (bs : List ProxyBlessedAddr) → length (drop_last (b ∷ bs)) ≡ length bs
length-drop_last b [] = refl
length-drop_last b (c ∷ bs) = ap suc (length-drop_last c bs)

length-drop_last_pred : (bs : List ProxyBlessedAddr) → length (drop_last bs) ≡ length bs - 1
length-drop_last_pred [] = refl
length-drop_last_pred (b ∷ bs) = omega (arith, length-drop_last b bs)

length-evict_oldest : (bs : List ProxyBlessedAddr) → length (evict_oldest bs) ≡ length bs - 1
unfolding evict_oldest
length-evict_oldest [] = refl
length-evict_oldest (b ∷ bs) =
    length-drop_last_pred _
    ∙ ap (λ n. n - 1) (length-set_entry (b ∷ bs) (oldest_from 1 0 b.expiry bs) (last_of b bs))

-- The two ways in which an address is blessed.
pub bless_entries_cases :
    (now : ℕ) (family : Family) (bin : Bytes) (via : Bool) (bs : List ProxyBlessedAddr)
    → ((refresh now family bin via (drop_expired now bs) ≡ none)
        × (bless_entries now family bin via bs
            ≡ append_entry (new_entry now family bin via) (drop_expired now bs)))
      ⊎ (refresh now family bin via (drop_expired now bs)
          ≡ some (bless_entries now family bin via bs))
unfolding bless_entries
bless_entries_cases now family bin via bs =
    elim (Option-cases (refresh now family bin via (drop_expired now bs))) [
      | inl e ↦ inl (
        e,
        ap (λ o. refreshed_or o (append_entry (new_entry now family bin via) (drop_expired now bs)))
            e,
      )
      | inr (out, e) ↦ inr (
          e
          ∙ ap some (
              sym (
                ap
                  (λ o.
                    refreshed_or o
                      (append_entry (new_entry now family bin via) (drop_expired now bs)))
                  e)))
    ]

append_entry-bounded :
    (e : ProxyBlessedAddr) (bs : List ProxyBlessedAddr)
    → length bs ≤ bless_max
    → length (append_entry e bs) ≤ bless_max
append_entry-bounded e bs h = elim (Bool-cases (leb bless_max (length bs))) [
  | inl full ↦
      rw full (omega (arith, length-append (evict_oldest bs) (e ∷ []), length-evict_oldest bs))
  | inr room ↦
      rw room (omega (arith, length-append bs (e ∷ []), not_leb bless_max (length bs) room))
]

-- The array of 256 entries is never overrun.
pub bless_entries-bounded :
    (now : ℕ) (family : Family) (bin : Bytes) (via : Bool) (bs : List ProxyBlessedAddr)
    → length bs ≤ bless_max
    → length (bless_entries now family bin via bs) ≤ bless_max
bless_entries-bounded now family bin via bs h = elim (bless_entries_cases now family bin via bs) [
  | inl (_, e) ↦
      rw e (append_entry-bounded _ (drop_expired now bs) (omega (arith, drop_expired-le now bs)))
  | inr e ↦
      omega
        (arith, length-refresh now family bin via (drop_expired now bs) e, drop_expired-le now bs)
]

append_entry-grows :
    (e : ProxyBlessedAddr) (bs : List ProxyBlessedAddr)
    → length (append_entry e bs) ≤ suc (length bs)
append_entry-grows e bs = elim (Bool-cases (leb bless_max (length bs))) [
  | inl full ↦
      rw full (omega (arith, length-append (evict_oldest bs) (e ∷ []), length-evict_oldest bs))
  | inr room ↦ rw room (omega (arith, length-append bs (e ∷ [])))
]

pub bless_entries-grows :
    (now : ℕ) (family : Family) (bin : Bytes) (via : Bool) (bs : List ProxyBlessedAddr)
    → length (bless_entries now family bin via bs) ≤ suc (length bs)
bless_entries-grows now family bin via bs = elim (bless_entries_cases now family bin via bs) [
  | inl (_, e) ↦ rw e (
      omega (
        arith,
        append_entry-grows (new_entry now family bin via) (drop_expired now bs),
        drop_expired-le now bs,
      ))
  | inr e ↦
      omega
        (arith, length-refresh now family bin via (drop_expired now bs) e, drop_expired-le now bs)
]

-- A property of the addresses alone.
abbrev pub AllAddrs : (Family → Bytes → Type 0) → List ProxyBlessedAddr → Type 0
AllAddrs P = All (λ b. P b.family b.addr)

module _ (P : Family → Bytes → Type 0) where
  drop_expired-All :
      (now : ℕ) (bs : List ProxyBlessedAddr) → AllAddrs P bs → AllAddrs P (drop_expired now bs)
  unfolding drop_expired
  drop_expired-All now [] h = tt
  drop_expired-All now (b ∷ bs) h = elim (Bool-cases (ltb now b.expiry)) [
    | inl e ↦ rw e (h.0, drop_expired-All now bs h.1)
    | inr e ↦ rw e (drop_expired-All now bs h.1)
  ]

  refresh-All :
      (now : ℕ) (family : Family) (bin : Bytes) (via : Bool) (bs out : List ProxyBlessedAddr)
      → refresh now family bin via bs ≡ some out
      → AllAddrs P bs
      → AllAddrs P out
  unfolding refresh
  refresh-All now family bin via [] out h a = absurd (none_ne h)
  refresh-All now family bin via (b ∷ bs) out h a = elim (Bool-cases (is_entry_for family bin b)) [
    | inl e ↦ subst (AllAddrs P) (some_eq _ out (rw e at h)) (a.0, a.1)
    | inr e ↦ elim (Option-cases (refresh now family bin via bs)) [
      | inl f ↦ absurd (none_ne (rw (e, f) at h))
      | inr (later, f) ↦
          subst (AllAddrs P) (some_eq _ out (rw (e, f) at h))
            (a.0, refresh-All now family bin via bs later f a.1)
    ]
  ]

  set_entry-All :
      (bs : List ProxyBlessedAddr) (i : ℕ) (v : ProxyBlessedAddr)
      → AllAddrs P bs
      → P v.family v.addr
      → AllAddrs P (set_entry bs i v)
  set_entry-All [] i v h p = tt
  set_entry-All (b ∷ bs) zero v h p = (p, h.1)
  set_entry-All (b ∷ bs) (suc i) v h p = (h.0, set_entry-All bs i v h.1 p)

  drop_last-All : (bs : List ProxyBlessedAddr) → AllAddrs P bs → AllAddrs P (drop_last bs)
  drop_last-All [] h = tt
  drop_last-All (b ∷ []) h = tt
  drop_last-All (b ∷ c ∷ bs) h = (h.0, drop_last-All (c ∷ bs) h.1)

  last_of-P :
      (b : ProxyBlessedAddr) (bs : List ProxyBlessedAddr)
      → AllAddrs P (b ∷ bs)
      → P (last_of b bs).family (last_of b bs).addr
  unfolding last_of
  last_of-P b [] h = h.0
  last_of-P b (c ∷ bs) h = last_of-P c bs h.1

  evict_oldest-All : (bs : List ProxyBlessedAddr) → AllAddrs P bs → AllAddrs P (evict_oldest bs)
  unfolding evict_oldest
  evict_oldest-All [] h = tt
  evict_oldest-All (b ∷ bs) h =
      drop_last-All _ (set_entry-All (b ∷ bs) _ (last_of b bs) h (last_of-P b bs h))

  append_entry-All :
      (e : ProxyBlessedAddr) (bs : List ProxyBlessedAddr)
      → P e.family e.addr
      → AllAddrs P bs
      → AllAddrs P (append_entry e bs)
  append_entry-All e bs p h = elim (Bool-cases (leb bless_max (length bs))) [
    | inl full ↦ rw full (All-append _ (evict_oldest bs) (e ∷ []) (evict_oldest-All bs h) (p, tt))
    | inr room ↦ rw room (All-append _ bs (e ∷ []) h (p, tt))
  ]

  -- Blessing keeps a property of all addresses that the new one has too.
  pub bless_entries-All :
      (now : ℕ) (family : Family) (bin : Bytes) (via : Bool) (bs : List ProxyBlessedAddr)
      → P family (pad16 family bin)
      → AllAddrs P bs
      → AllAddrs P (bless_entries now family bin via bs)
  bless_entries-All now family bin via bs p h = elim (bless_entries_cases now family bin via bs) [
    | inl (_, e) ↦ subst (AllAddrs P) (sym e) (
        append_entry-All (new_entry now family bin via) (drop_expired now bs) p
          (drop_expired-All now bs h))
    | inr e ↦
        refresh-All now family bin via (drop_expired now bs) (bless_entries now family bin via bs) e
          (drop_expired-All now bs h)
  ]
