-- ===== src/Proxy/Handle.antt =====
-- The requests of a client of src/proxy.c: `RESOLVE <host>` and `<host>:<port>`.
-- What the network answers during one request is `Env`: the clock, the texts of the addresses that
-- getaddrinfo and inet_ntop give for a name, whether a dial succeeds, and the verdict of the
-- check of the client's TLS greeting.
use cclaw.Prelude.{
  ℕ, ◌+◌, ◌-◌, Bool, true, false, ◌&&◌, ◌||◌, not, List, [], ◌∷◌, ◌++◌, Option, none, some, ltb,
  ◌==◌, if◌then◌else◌, Bytes, length, take, drop, bytes_eq, codes,
}
use cclaw.Prelude.Int.{ℤ, pos, negsuc}
use cclaw.Clib.{strtol}
use cclaw.Host.Cidr.{Family, granted_exact}
use cclaw.Proxy.{Platform, ProxyContext, ip_to_bin, host_decide, addr_permitted}
use cclaw.Proxy.Bless.{bless_contains, bless_add}

pub record Env : Type 0 where
  pub now : ℕ
  pub resolved : Bytes → Option (List Bytes)
  pub dials : Bytes → ℕ → Bool
  pub sni_allows : ℕ → Bool

pub data Outcome : Type 0 where
  closed : Outcome
  resolve_denied resolve_failed : Outcome
  address : Bytes → Outcome
  bad_preamble : Outcome
  denied : Outcome
  relay_full : Outcome
  connect_failed : Bytes → ℕ → Outcome
  sni_denied relayed : Bytes → ℕ → Outcome

abbrev pub contacted_max : ℕ
contacted_max = 64

abbrev pub max_relays : ℕ
max_relays = 64

abbrev pub holds_text : Bytes → List Bytes → Bool
holds_text host [] = false
holds_text host (h ∷ hs) = if bytes_eq h host then true else holds_text host hs

-- `record_host` and `record_denied`: without repeats, and what does not fit is dropped.
unfoldable pub record_text : Bytes → List Bytes → List Bytes
record_text [] hs = hs
record_text (c ∷ host) hs =
    if holds_text (c ∷ host) hs
    then hs
    else if ltb (length hs) contacted_max
    then hs ++ (c ∷ host) ∷ []
    else hs

abbrev pub record_host : ProxyContext → Bytes → ProxyContext
record_host ctx host = record ctx { contacted = record_text host ctx.contacted }

abbrev pub record_denied : ProxyContext → Bytes → ProxyContext
record_denied ctx host = record ctx { denied = record_text host ctx.denied }

unfoldable pub relay_acquire : ProxyContext → Option ProxyContext
relay_acquire ctx =
    if ltb ctx.relay_count max_relays
    then some (record ctx { relay_count = ctx.relay_count + 1 })
    else none

unfoldable pub relay_release : ProxyContext → ProxyContext
relay_release ctx =
    if ltb 0 ctx.relay_count then record ctx { relay_count = ctx.relay_count - 1 } else ctx

-- `strrchr(preamble, ':')`: the text in front of the last colon, and what follows it.
unfoldable pub split_last_colon : Bytes → Option (Bytes × Bytes)
split_last_colon [] = none
split_last_colon (c ∷ s) = elim (split_last_colon s) [
  | some (a, b) ↦ some (c ∷ a, b)
  | none ↦ if c == b':' then some ([], s) else none
]

abbrev port_value : ℤ → Option ℕ
port_value (pos n) = if ltb n 1 || ltb 65535 n then none else some n
port_value (negsuc n) = none

abbrev at_end : Bytes → Bool
at_end [] = true
at_end (c ∷ s) = false

unfoldable pub parse_port : Bytes → Option ℕ
parse_port s =
    let r = strtol s in if not r.converted || not (at_end r.rest) then none else port_value r.value

module _ (sys : Platform) where
  -- The first address is kept.
  abbrev pub first_of_two : Option Bytes → Bytes → Option Bytes
  first_of_two none ip = some ip
  first_of_two (some first) ip = some first

  -- The loop over the addresses of a name: those that are permitted are blessed, and the first of
  -- them is the answer.
  unfoldable pub bless_resolved :
      ℕ → List Bytes → ProxyContext → Option Bytes → ProxyContext × Option Bytes
  bless_resolved now [] ctx got = (ctx, got)
  bless_resolved now (ip ∷ ips) ctx got =
      let passed = addr_permitted sys ctx ip in
      bless_resolved now ips (if passed then bless_add sys ctx now ip true else ctx)
        (if passed then first_of_two got ip else got)

  abbrev pub bless_answer : ℕ → ProxyContext → Option (List Bytes) → ProxyContext × Option Bytes
  bless_answer now ctx none = (ctx, none)
  bless_answer now ctx (some ips) = bless_resolved now ips ctx none

  unfoldable pub resolve_and_bless : Env → ProxyContext → Bytes → ProxyContext × Option Bytes
  unfolding bless_resolved
  resolve_and_bless env ctx host = bless_answer env.now ctx (env.resolved host)

  abbrev pub answer_resolve : Bytes → ProxyContext × Option Bytes → ProxyContext × Outcome
  answer_resolve host (ctx, some ip) = (record_host ctx host, address ip)
  answer_resolve host (ctx, none) = (record_denied ctx host, resolve_failed)

  unfoldable pub handle_resolve : Env → ProxyContext → Bytes → ProxyContext × Outcome
  handle_resolve env ctx host =
      if not (host_decide sys ctx host)
      then (record_denied ctx host, resolve_denied)
      else answer_resolve host (resolve_and_bless env ctx host)

  abbrev pub relay_at :
      Env → ProxyContext → Bytes → ℕ → Bool → Option ProxyContext → ProxyContext × Outcome
  relay_at env ctx dial port sni_gate none = (ctx, relay_full)
  relay_at env ctx dial port sni_gate (some held) =
      if not (env.dials dial port)
      then (relay_release held, connect_failed dial port)
      else if sni_gate && not (env.sni_allows port)
      then (relay_release held, sni_denied dial port)
      else (relay_release held, relayed dial port)

  -- From the relay slot on: the dial, the check of the TLS greeting, the relay.
  unfoldable pub dial_and_relay : Env → ProxyContext → Bytes → ℕ → Bool → ProxyContext × Outcome
  unfolding relay_acquire relay_release
  dial_and_relay env ctx dial port sni_gate =
      relay_at env ctx dial port sni_gate (relay_acquire ctx)

  abbrev pub connect_blessed :
      Env → ProxyContext → Bytes → ℕ → Family → Bytes → Option Bool → ProxyContext × Outcome
  connect_blessed env ctx target port family bin (some via_host) =
      dial_and_relay env ctx target port
        (via_host && not (granted_exact ctx.cidr_rules family (some bin)))
  connect_blessed env ctx target port family bin none =
      if host_decide sys ctx target
      then dial_and_relay env (record_host (bless_add sys ctx env.now target false) target) target
          port false
      else (record_denied ctx target, denied)

  unfoldable pub connect_numeric :
      Env → ProxyContext → Bytes → ℕ → Family → Bytes → ProxyContext × Outcome
  connect_numeric env ctx target port family bin =
      connect_blessed env ctx target port family bin (bless_contains sys ctx env.now target)

  abbrev pub connect_resolved :
      Env → Bytes → ℕ → ProxyContext × Option Bytes → ProxyContext × Outcome
  connect_resolved env target port (ctx, some ip) =
      dial_and_relay env (record_host ctx target) ip port true
  connect_resolved env target port (ctx, none) = (record_denied ctx target, resolve_failed)

  unfoldable pub connect_name : Env → ProxyContext → Bytes → ℕ → ProxyContext × Outcome
  connect_name env ctx target port =
      if not (host_decide sys ctx target)
      then (record_denied ctx target, denied)
      else connect_resolved env target port (resolve_and_bless env ctx target)

  abbrev pub connect_target :
      Env → ProxyContext → Bytes → ℕ → Option (Family × Bytes) → ProxyContext × Outcome
  connect_target env ctx target port (some (family, bin)) =
      connect_numeric env ctx target port family bin
  connect_target env ctx target port none = connect_name env ctx target port

  abbrev pub connect_port : Env → ProxyContext → Bytes → Option ℕ → ProxyContext × Outcome
  connect_port env ctx target none = (ctx, bad_preamble)
  connect_port env ctx target (some port) =
      connect_target env ctx target port (ip_to_bin sys target)

  abbrev pub connect_split : Env → ProxyContext → Option (Bytes × Bytes) → ProxyContext × Outcome
  connect_split env ctx none = (ctx, bad_preamble)
  connect_split env ctx (some (target, port_text)) =
      connect_port env ctx target (parse_port port_text)

  unfoldable pub handle_connect : Env → ProxyContext → Bytes → ProxyContext × Outcome
  unfolding connect_numeric connect_name
  handle_connect env ctx preamble = connect_split env ctx (split_last_colon preamble)

  abbrev pub resolve_word : Bytes
  resolve_word = codes "RESOLVE "

  -- One client connection, from its first line on; `none` is a failed read of that line.
  unfoldable pub handle_client : Env → ProxyContext → Option Bytes → ProxyContext × Outcome
  handle_client env ctx none = (ctx, closed)
  handle_client env ctx (some []) = (ctx, closed)
  handle_client env ctx (some (c ∷ s)) =
      if bytes_eq (take 8 (c ∷ s)) resolve_word
      then handle_resolve env ctx (drop 8 (c ∷ s))
      else handle_connect env ctx (c ∷ s)
