-- ===== src/Proxy/Requests.antt =====
-- What holds of every request to src/proxy.c, and of every run of requests.
use cclaw.Prelude.{
  ℕ, ◌+◌, ◌≡◌, refl, subst, Bool, true, false, ◌&&◌, not, List, [], ◌∷◌, Option, none, some,
  none_ne, some_eq, arith, ltb, if◌then◌else◌, Bool-cases, inl, inr, Bytes, take, drop, bytes_eq,
}
use cclaw.Host.Cidr.{Family, Cidr}
use cclaw.Proxy.{Platform, ProxyContext, ip_to_bin, host_decide, decide_at, addr_permitted}
use cclaw.Proxy.Bless.{bless_contains, bless_add, contains_at}
use cclaw.Proxy.Metadata.{
  Vetted, VettedText, VettedText-all, DialsVetted, IsGuarded, ReadsLengths, ip_to_bin-size,
  numeric_ip_permitted-Vetted, find_blessed-Vetted, bless_add-IsGuarded, addr_permitted-VettedText,
}
use cclaw.Proxy.Reach.{DialsReach, DialsVetted-DialsReach}
use cclaw.Proxy.Handle.{
  Env, Outcome, connect_failed, sni_denied, relayed, record_host, relay_release, first_of_two,
  bless_resolved, bless_answer, resolve_and_bless, answer_resolve, handle_resolve, dial_and_relay,
  connect_blessed, connect_numeric, connect_resolved, connect_name, connect_target, connect_port,
  connect_split, handle_connect, handle_client, split_last_colon, parse_port, max_relays,
  resolve_word,
}

host_decide-parts :
    (sys : Platform) (ctx : ProxyContext) (host : Bytes)
    → host_decide sys ctx host ≡ true
    → decide_at sys ctx host (ip_to_bin sys host) ≡ true
unfolding host_decide
host_decide-parts sys ctx host h = ground arith

module _ (sys : Platform) (reads : ReadsLengths sys) (rules : Option (List Cidr)) where
  -- What is shown of a request: the state stays guarded, and what was dialled was vetted.
  abbrev Safe : ProxyContext × Outcome → Type 0
  Safe (ctx, out) = IsGuarded rules ctx × DialsVetted sys rules out

  -- The answer of a resolution, if there is one, is vetted.
  abbrev Answered : ProxyContext × Option Bytes → Type 0
  Answered (ctx, none) = IsGuarded rules ctx
  Answered (ctx, some ip) = IsGuarded rules ctx × VettedText sys rules ip

  answered :
      (ctx : ProxyContext) (got : Option Bytes)
      → IsGuarded rules ctx
      → ((ip : Bytes) → got ≡ some ip → VettedText sys rules ip)
      → Answered (ctx, got)
  answered ctx none g v = g
  answered ctx (some ip) g v = (g, v ip refl)

  keeps_first :
      (got : Option Bytes) (ip : Bytes)
      → ((x : Bytes) → got ≡ some x → VettedText sys rules x)
      → VettedText sys rules ip
      → (x : Bytes) → first_of_two sys got ip ≡ some x
      → VettedText sys rules x
  keeps_first none ip v w x e = subst (VettedText sys rules) (some_eq ip x e) w
  keeps_first (some y) ip v w x e = v x e

  bless_resolved-Answered :
      (now : ℕ) (ips : List Bytes) (ctx : ProxyContext) (got : Option Bytes)
      → IsGuarded rules ctx
      → ((ip : Bytes) → got ≡ some ip → VettedText sys rules ip)
      → Answered (bless_resolved sys now ips ctx got)
  unfolding bless_resolved
  bless_resolved-Answered now [] ctx got g v = answered ctx got g v
  bless_resolved-Answered now (ip ∷ ips) ctx got g v =
      elim (Bool-cases (addr_permitted sys ctx ip)) [
        | inl e ↦
            let w = addr_permitted-VettedText sys reads rules ctx ip g.same_rules e in
            rw (e, bless_resolved)
              (bless_resolved-Answered now ips (bless_add sys ctx now ip true)
                (first_of_two sys got ip)
                (bless_add-IsGuarded sys reads rules ctx now ip true
                  (VettedText-all sys reads rules ip w) g)
                (keeps_first got ip v w))
        | inr e ↦ rw (e, bless_resolved) (bless_resolved-Answered now ips ctx got g v)
      ]

  resolve_and_bless-Answered :
      (env : Env) (ctx : ProxyContext) (host : Bytes)
      → IsGuarded rules ctx
      → Answered (resolve_and_bless sys env ctx host)
  unfolding resolve_and_bless
  resolve_and_bless-Answered env ctx host g = go (env.resolved host)
    where
      go : (o : Option (List Bytes)) → Answered (bless_answer sys env.now ctx o)
      go none = g
      go (some ips) = bless_resolved-Answered env.now ips ctx none g (λ ip e. absurd (none_ne e))

  dial_and_relay-Safe :
      (env : Env) (ctx : ProxyContext) (dial : Bytes) (port : ℕ) (gate : Bool)
      → IsGuarded rules ctx
      → VettedText sys rules dial
      → Safe (dial_and_relay sys env ctx dial port gate)
  unfolding dial_and_relay
  dial_and_relay-Safe env ctx dial port gate g v =
      elim (Bool-cases (ltb ctx.relay_count max_relays)) [
        | inr full ↦ rw full (g, tt)
        | inl room ↦ rw room (held (env.dials dial port) (gate && not (env.sni_allows port)))
      ]
    where
      slot : ProxyContext
      slot = relay_release (record ctx { relay_count = ctx.relay_count + 1 })

      freed : IsGuarded rules slot
      freed = elim (Bool-cases (ltb 0 (ctx.relay_count + 1))) [
        | inl e ↦ rw e (record { same_rules = g.same_rules; entries = g.entries })
        | inr e ↦ rw e (record { same_rules = g.same_rules; entries = g.entries })
      ]

      held :
          (dials stops : Bool)
          → Safe (
              if not dials
              then (slot, connect_failed dial port)
              else if stops
              then (slot, sni_denied dial port)
              else (slot, relayed dial port))
      held false stops = (freed, v)
      held true true = (freed, v)
      held true false = (freed, v)

  handle_resolve-Safe :
      (env : Env) (ctx : ProxyContext) (host : Bytes)
      → IsGuarded rules ctx
      → Safe (handle_resolve sys env ctx host)
  unfolding handle_resolve
  handle_resolve-Safe env ctx host g = elim (Bool-cases (host_decide sys ctx host)) [
    | inr e ↦ rw e (record { same_rules = g.same_rules; entries = g.entries }, tt)
    | inl e ↦
        rw e (go (resolve_and_bless sys env ctx host) (resolve_and_bless-Answered env ctx host g))
  ]
    where
      go : (r : ProxyContext × Option Bytes) → Answered r → Safe (answer_resolve sys host r)
      go (c, none) a = (record { same_rules = a.same_rules; entries = a.entries }, tt)
      go (c, some ip) (a, v) = (record { same_rules = a.same_rules; entries = a.entries }, tt)

  -- A numeric target that the rules admit is vetted.
  decided :
      (ctx : ProxyContext) (target : Bytes) (family : Family) (bin : Bytes)
      → IsGuarded rules ctx
      → ip_to_bin sys target ≡ some (family, bin)
      → host_decide sys ctx target ≡ true
      → VettedText sys rules target
  decided ctx target family bin g e h = (
    family,
    bin,
    e,
    subst (λ r. Vetted r family bin) g.same_rules
        (numeric_ip_permitted-Vetted sys ctx target family bin false
          (subst (λ o. decide_at sys ctx target o ≡ true) e (host_decide-parts sys ctx target h))),
  )

  connect_numeric-Safe :
      (env : Env) (ctx : ProxyContext) (target : Bytes) (port : ℕ) (family : Family) (bin : Bytes)
      → IsGuarded rules ctx
      → ip_to_bin sys target ≡ some (family, bin)
      → Safe (connect_numeric sys env ctx target port family bin)
  unfolding connect_numeric
  connect_numeric-Safe env ctx target port family bin g e =
      go (bless_contains sys ctx env.now target) refl
    where
      blessed_text :
          (via : Bool)
          → bless_contains sys ctx env.now target ≡ some via
          → VettedText sys rules target
      blessed_text via h = (
        family,
        bin,
        e,
        subst (Vetted rules family) (ip_to_bin-size sys reads target family bin e).0 (
            find_blessed-Vetted rules env.now family bin ctx.blessed via
              (subst (λ o. contains_at ctx env.now o ≡ some via) e (unfold bless_contains in h))
              g.entries),
      )

      go :
          (o : Option Bool)
          → bless_contains sys ctx env.now target ≡ o
          → Safe (connect_blessed sys env ctx target port family bin o)
      go (some via) h = dial_and_relay-Safe env ctx target port _ g (blessed_text via h)
      go none h = elim (Bool-cases (host_decide sys ctx target)) [
        | inr d ↦ rw d (record { same_rules = g.same_rules; entries = g.entries }, tt)
        | inl d ↦
            let v = decided ctx target family bin g e d in
            let b =
              bless_add-IsGuarded sys reads rules ctx env.now target false
                (VettedText-all sys reads rules target v) g in
            rw d (
              dial_and_relay-Safe env (record_host (bless_add sys ctx env.now target false) target)
                target port false (record { same_rules = b.same_rules; entries = b.entries }) v)
      ]

  connect_name-Safe :
      (env : Env) (ctx : ProxyContext) (target : Bytes) (port : ℕ)
      → IsGuarded rules ctx
      → Safe (connect_name sys env ctx target port)
  unfolding connect_name
  connect_name-Safe env ctx target port g = elim (Bool-cases (host_decide sys ctx target)) [
    | inr e ↦ rw e (record { same_rules = g.same_rules; entries = g.entries }, tt)
    | inl e ↦
        rw e
          (go (resolve_and_bless sys env ctx target) (resolve_and_bless-Answered env ctx target g))
  ]
    where
      go :
          (r : ProxyContext × Option Bytes)
          → Answered r
          → Safe (connect_resolved sys env target port r)
      go (c, none) a = (record { same_rules = a.same_rules; entries = a.entries }, tt)
      go (c, some ip) (a, v) =
          dial_and_relay-Safe env (record_host c target) ip port true
            (record { same_rules = a.same_rules; entries = a.entries }) v

  connect_port-Safe :
      (env : Env) (ctx : ProxyContext) (target : Bytes) (port : Option ℕ)
      → IsGuarded rules ctx
      → Safe (connect_port sys env ctx target port)
  connect_port-Safe env ctx target none g = (g, tt)
  connect_port-Safe env ctx target (some port) g = go (ip_to_bin sys target) refl
    where
      go :
          (o : Option (Family × Bytes))
          → ip_to_bin sys target ≡ o
          → Safe (connect_target sys env ctx target port o)
      go none e = connect_name-Safe env ctx target port g
      go (some (family, bin)) e = connect_numeric-Safe env ctx target port family bin g e

  handle_connect-Safe :
      (env : Env) (ctx : ProxyContext) (preamble : Bytes)
      → IsGuarded rules ctx
      → Safe (handle_connect sys env ctx preamble)
  unfolding handle_connect
  handle_connect-Safe env ctx preamble g = go (split_last_colon preamble)
    where
      go : (o : Option (Bytes × Bytes)) → Safe (connect_split sys env ctx o)
      go none = (g, tt)
      go (some (target, port_text)) = connect_port-Safe env ctx target (parse_port port_text) g

  client-Safe :
      (env : Env) (ctx : ProxyContext) (line : Option Bytes)
      → IsGuarded rules ctx
      → Safe (handle_client sys env ctx line)
  unfolding handle_client
  client-Safe env ctx none g = (g, tt)
  client-Safe env ctx (some []) g = (g, tt)
  client-Safe env ctx (some (c ∷ s)) g =
      elim (Bool-cases (bytes_eq (take 8 (c ∷ s)) (resolve_word sys))) [
        | inl e ↦ rw e (handle_resolve-Safe env ctx (drop 8 (c ∷ s)) g)
        | inr e ↦ rw e (handle_connect-Safe env ctx (c ∷ s) g)
      ]

  -- One request keeps the blessed set free of metadata addresses that are not exactly granted, and
  -- dials none: not by name, by resolution, by literal, nor by the spelling of an IPv4 address as a
  -- mapped IPv6 one.
  pub handle_client-Safe :
      (env : Env) (ctx : ProxyContext) (line : Option Bytes)
      → IsGuarded rules ctx
      → IsGuarded rules (handle_client sys env ctx line).0
        × DialsVetted sys rules (handle_client sys env ctx line).1
        × DialsReach sys rules (handle_client sys env ctx line).1
  handle_client-Safe env ctx line g =
      let (kept, vetted) = client-Safe env ctx line g in
      (
        kept,
        vetted,
        DialsVetted-DialsReach sys reads rules (handle_client sys env ctx line).1 vetted,
      )
