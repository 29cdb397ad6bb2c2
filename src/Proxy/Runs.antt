-- ===== src/Proxy/Runs.antt =====
-- `proxy_bind` of src/proxy.c, which sorts the grants into address rules and hostname rules, and runs
-- of requests from there. Requests of different connections interleave in the program; each locked
-- operation keeps `IsGuarded` by itself, and a run here is the sequence of whole requests.
use cclaw.Prelude.{refl, List, [], ◌∷◌, Option, none, some, Bytes, All}
use cclaw.Host.Rules.{RuleList}
use cclaw.Host.Cidr.{Cidr, cidr_parse}
use cclaw.Proxy.{Platform, ProxyContext}
use cclaw.Proxy.Metadata.{IsGuarded, DialsVetted, ReadsLengths}
use cclaw.Proxy.Reach.{DialsReach}
use cclaw.Proxy.Handle.{Env, Outcome, handle_client}
use cclaw.Proxy.Requests.{handle_client-Safe}

module _ (sys : Platform) where
  abbrev pub sort_grant : Bytes → Option Cidr → RuleList × List Cidr → RuleList × List Cidr
  sort_grant h none (names, cidrs) = (some h ∷ names, cidrs)
  sort_grant h (some c) (names, cidrs) = (names, c ∷ cidrs)

  -- The loop over the grants: entries that are NULL are skipped.
  unfoldable pub partition_grants : RuleList → RuleList × List Cidr
  partition_grants [] = ([], [])
  partition_grants (none ∷ hosts) = partition_grants hosts
  partition_grants (some h ∷ hosts) =
      sort_grant h (cidr_parse sys.inet_pton (some h)) (partition_grants hosts)

  abbrev pub rule_arrays : RuleList → Option RuleList × Option (List Cidr)
  rule_arrays [] = (none, none)
  rule_arrays (h ∷ hosts) =
      (some (partition_grants (h ∷ hosts)).0, some (partition_grants (h ∷ hosts)).1)

  -- The context that a successful bind leaves.
  unfoldable pub proxy_bind : RuleList → Option RuleList → ProxyContext
  unfolding partition_grants
  proxy_bind hosts deny = record {
    host_rules = (rule_arrays hosts).0;
    cidr_rules = (rule_arrays hosts).1;
    deny_rules = deny;
    blessed = [];
    relay_count = 0;
    contacted = [];
    denied = [];
    sni_strict_port = 443;
  }

  -- The outcomes of a run of requests, each with what the network answers it.
  unfoldable pub serve : ProxyContext → List (Env × Option Bytes) → List Outcome
  serve ctx [] = []
  serve ctx ((env, line) ∷ rest) =
      (handle_client sys env ctx line).1 ∷ serve (handle_client sys env ctx line).0 rest

serve-DialsVetted :
    (sys : Platform) (reads : ReadsLengths sys) (rules : Option (List Cidr)) (ctx : ProxyContext)
    (requests : List (Env × Option Bytes))
    → IsGuarded rules ctx
    → All (λ o. DialsVetted sys rules o × DialsReach sys rules o) (serve sys ctx requests)
unfolding serve
serve-DialsVetted sys reads rules ctx [] g = tt
serve-DialsVetted sys reads rules ctx ((env, line) ∷ rest) g =
    let (g', v, reach) = handle_client-Safe sys reads rules env ctx line g in
    ((v, reach), serve-DialsVetted sys reads rules (handle_client sys env ctx line).0 rest g')

-- From the bind on, whatever the clients ask and the name servers answer, every address that is
-- dialled, in whatever spelling, is outside the metadata ranges or named exactly by a grant.
pub proxy_bind-DialsVetted :
    (sys : Platform) (hosts : RuleList) (deny : Option RuleList)
    (requests : List (Env × Option Bytes))
    → ReadsLengths sys
    → All
        (λ o.
          DialsVetted sys (proxy_bind sys hosts deny).cidr_rules o
          × DialsReach sys (proxy_bind sys hosts deny).cidr_rules o)
        (serve sys (proxy_bind sys hosts deny) requests)
unfolding proxy_bind
proxy_bind-DialsVetted sys hosts deny requests reads =
    serve-DialsVetted sys reads _ (proxy_bind sys hosts deny) requests
      (record { same_rules = refl; entries = tt })
