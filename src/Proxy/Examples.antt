-- ===== src/Proxy/Examples.antt =====
-- The proxy at concrete inputs.
use cclaw.Prelude.{
  false, ◌≤◌, ◌≡◌, refl, ◌≢◌, true, List, [], ◌∷◌, ◌++◌, Option, none, some, arith, codes,
  if◌then◌else◌, bytes_eq, Bytes, All, replicate, length,
}
use cclaw.Host.Rules.{RuleList, host_match, rule_matches}
use cclaw.Host.Cidr.{
  Family, inet, inet6, cidr_parse, cidr_match, cidr_contains, keep_mask, granted_exact,
}
use cclaw.Proxy.{
  Platform, ProxyContext, ip_to_bin, host_decide, in_metadata_range, numeric_ip_permitted,
  addr_permitted, http_is_private_ip,
}
use cclaw.Proxy.Bless.{bless_add, bless_contains, bless_entries, bless_max}
use cclaw.Proxy.Bless.Laws.{bless_entries-bounded}
use cclaw.Proxy.Bless.Found.{Blessing, bless_all, bless_contains-bless_add}
use cclaw.Proxy.Metadata.{DialsVetted, IsGuarded, ReadsLengths}
use cclaw.Proxy.Handle.{
  Env, relayed, denied, handle_client, handle_connect, handle_resolve, split_last_colon, parse_port,
  resolve_and_bless, dial_and_relay, record_text,
}
use cclaw.Clib.{strtol}
use cclaw.Ascii.{ascii_strcasecmp, ascii_lower}
use cclaw.Host.Cover.{host_covered}
use cclaw.Proxy.Reach.{DialsReach}
use cclaw.Proxy.Requests.{handle_client-Safe}
use cclaw.Proxy.Runs.{proxy_bind, serve, proxy_bind-DialsVetted}
use cclaw.Proxy.Sni.{found, parse_client_hello_sni}
use cclaw.Proxy.Sni.Safe.{IsSound, parse_client_hello_sni-IsSound}

-- A platform that knows the metadata address, in both spellings, and one public address.
abbrev sample_pton : Family → Bytes → Option Bytes
sample_pton inet s =
    if bytes_eq s (codes "169.254.169.254")
    then some (169 ∷ 254 ∷ 169 ∷ 254 ∷ [])
    else if bytes_eq s (codes "93.184.216.34")
    then some (93 ∷ 184 ∷ 216 ∷ 34 ∷ [])
    else none
sample_pton inet6 s =
    if bytes_eq s (codes "::ffff:169.254.169.254")
    then some (replicate 10 0 ++ 255 ∷ 255 ∷ 169 ∷ 254 ∷ 169 ∷ 254 ∷ [])
    else none

abbrev sample_sys : Platform
sample_sys = record { inet_pton = sample_pton; inet_ntop = λ f b. codes "169.254.169.254" }

sample-ReadsLengths : ReadsLengths sample_sys
sample-ReadsLengths inet s lit h = ground arith
sample-ReadsLengths inet6 s lit h = ground arith

abbrev grants : RuleList
grants = some (codes "*") ∷ []

abbrev sample_env : Env
sample_env = record {
  now = 1000;
  resolved = λ host. some (codes "169.254.169.254" ∷ codes "93.184.216.34" ∷ []);
  dials = λ ip port. true;
  sni_allows = λ port. true;
}

abbrev requests : List (Env × Option Bytes)
requests =
    (sample_env, some (codes "example.com:443"))
    ∷ (sample_env, some (codes "[::ffff:169.254.169.254]:80"))
    ∷ (sample_env, some (codes "169.254.169.254:80"))
    ∷ []

-- The name resolves to the metadata address too, and only the public one is dialled; the raw
-- literal is refused although the allowlist holds the star.
served :
    serve sample_sys (proxy_bind sample_sys grants none) (
      (sample_env, some (codes "example.com:443"))
      ∷ (sample_env, some (codes "169.254.169.254:80"))
      ∷ [])
    ≡ relayed (codes "93.184.216.34") 443 ∷ denied ∷ []
unfolding serve proxy_bind handle_client handle_connect handle_resolve split_last_colon parse_port
    strtol ip_to_bin host_decide numeric_ip_permitted in_metadata_range granted_exact cidr_match
    cidr_contains keep_mask http_is_private_ip addr_permitted resolve_and_bless bless_contains
    bless_add dial_and_relay record_text host_match rule_matches ascii_strcasecmp ascii_lower
    host_covered cidr_parse
served = refl

proxy_bind-DialsVetted_example :
    All
      (λ o.
        DialsVetted sample_sys (proxy_bind sample_sys grants none).cidr_rules o
        × DialsReach sample_sys (proxy_bind sample_sys grants none).cidr_rules o)
      (serve sample_sys (proxy_bind sample_sys grants none) requests)
proxy_bind-DialsVetted_example =
    proxy_bind-DialsVetted sample_sys grants none requests sample-ReadsLengths

abbrev fresh : ProxyContext
fresh = record {
  host_rules = some grants;
  cidr_rules = none;
  deny_rules = none;
  blessed = [];
  relay_count = 0;
  contacted = [];
  denied = [];
  sni_strict_port = 443;
}

handle_client-Safe_example :
    IsGuarded none (handle_client sample_sys sample_env fresh (some (codes "example.com:443"))).0
    × DialsVetted sample_sys none
        (handle_client sample_sys sample_env fresh (some (codes "example.com:443"))).1
    × DialsReach sample_sys none
        (handle_client sample_sys sample_env fresh (some (codes "example.com:443"))).1
handle_client-Safe_example =
    handle_client-Safe sample_sys sample-ReadsLengths none sample_env fresh
      (some (codes "example.com:443")) (record { same_rules = refl; entries = tt })

bless_entries-bounded_example :
    length (bless_entries 1000 inet (93 ∷ 184 ∷ 216 ∷ 34 ∷ []) true []) ≤ bless_max
bless_entries-bounded_example =
    bless_entries-bounded 1000 inet (93 ∷ 184 ∷ 216 ∷ 34 ∷ []) true [] (omega arith)

abbrev blessings : List Blessing
blessings = record { now = 1030; ip = codes "169.254.169.254"; via_hostname = false } ∷ []

bless_contains-bless_add_example :
    bless_contains sample_sys
      (bless_all sample_sys
        (bless_add sample_sys fresh 1000 (codes "93.184.216.34") true)
        blessings)
      1059
      (codes "93.184.216.34")
    ≢ none
unfolding ip_to_bin bless_add
bless_contains-bless_add_example =
    bless_contains-bless_add sample_sys fresh 1000 1059 (codes "93.184.216.34") true inet
      (93 ∷ 184 ∷ 216 ∷ 34 ∷ []) blessings refl (omega arith) (omega arith)
      ((omega arith, omega arith), tt) (omega arith)

-- A hello with a host name of three bytes in its server_name extension.
abbrev sample_hello : Bytes
sample_hello =
    0x16
    ∷ 3
    ∷ 1
    ∷ 0
    ∷ 59
    ∷ 1
    ∷ 0
    ∷ 0
    ∷ 55
    ∷ 3
    ∷ 3
    ∷ (replicate 32 0
        ++ 0 ∷ 0 ∷ 2 ∷ 0x13 ∷ 1 ∷ 1 ∷ 0 ∷ 0 ∷ 12 ∷ 0 ∷ 0 ∷ 0 ∷ 8 ∷ 0 ∷ 6 ∷ 0 ∷ 0 ∷ 3 ∷ codes "a.b")

hello_has_a_name : parse_client_hello_sni sample_hello 256 ≡ found (codes "a.b")
unfolding parse_client_hello_sni
hello_has_a_name = refl

parse_client_hello_sni-IsSound_example : IsSound 256 (parse_client_hello_sni sample_hello 256)
parse_client_hello_sni-IsSound_example = parse_client_hello_sni-IsSound sample_hello 256
