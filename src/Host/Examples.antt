-- ===== src/Host/Examples.antt =====
-- Host rules, labels and address rules at concrete inputs.
use cclaw.Prelude.{
  ◌&&◌, not, false, ◌≡◌, refl, ◌↔◌, true, false, [], ◌∷◌, Option, none, some, arith, codes,
  if◌then◌else◌, bytes_eq, Bytes, Any, replicate,
}
use cclaw.Ascii.{ascii_lower, ascii_strcasecmp}
use cclaw.Host.Rules.{host_match, host_match_iff, SomeRuleCovers, RuleList, rule_matches}
use cclaw.Host.Cover.{host_covered, host_covered_plain, IsUnder, label_covers}
use cclaw.Host.Scan.{
  host_in_text, scan_text, is_host_char, span_host, trim_edges, trim_left, trim_right, token_fits,
  copy_out,
}
use cclaw.Host.Scan.Found.{CoveredRun, Written, host_in_text-none_iff, host_in_text-CoveredRun}
use cclaw.Host.Cidr.{
  Family, inet, inet6, Cidr, cidr_match, cidr_contains, granted_exact, cidr_parse, keep_mask,
}
use cclaw.Host.Cidr.Contains.{IsCidr, IsAddr, CidrHolds, cidr_match_iff}
use cclaw.Host.Cidr.Exact.{NamesExactly, granted_exact_lem}
use cclaw.Host.Cidr.Parse.{Parsed, cidr_parse-Parsed, ReadsAddresses}

abbrev github : RuleList
github = none ∷ some (codes ".github.com") ∷ []

suffix_accepts : host_match (some github) (some (codes "API.github.com")) ≡ true
unfolding host_match rule_matches ascii_strcasecmp ascii_lower
suffix_accepts = refl

suffix_refuses : host_match (some github) (some (codes "evilgithub.com")) ≡ false
unfolding host_match rule_matches ascii_strcasecmp ascii_lower
suffix_refuses = refl

host_match_iff_example :
    (host_match (some github) (some (codes "api.github.com")) ≡ true)
    ↔ SomeRuleCovers github (codes "api.github.com")
host_match_iff_example = host_match_iff github (codes "api.github.com") (omega arith) (omega arith)

host_covered_plain_example :
    (host_covered (some (some (codes "chase.com") ∷ [])) (some (codes "mychase.com")) ≡ true)
    ↔ IsUnder (codes "chase.com") (codes "mychase.com")
host_covered_plain_example =
    host_covered_plain (codes "chase.com") (codes "mychase.com") (omega arith) (omega arith)
      (omega arith) (λ e. cc e) (omega arith)

abbrev chase : RuleList
chase = some (codes "chase.com") ∷ []

abbrev command : Bytes
command = codes "curl https://api.chase.com./x"

host_in_text-none_iff_example :
    (host_in_text (some chase) (some command) 64 ≡ none)
    ↔ ¬ ((run : Bytes) × CoveredRun chase command run)
host_in_text-none_iff_example = host_in_text-none_iff chase command 64 (omega arith)

found_host : host_in_text (some chase) (some command) 64 ≡ some (codes "api.chase.com")
unfolding host_in_text scan_text is_host_char span_host trim_edges trim_left trim_right token_fits
    copy_out host_covered label_covers host_match rule_matches ascii_strcasecmp ascii_lower
found_host = refl

host_in_text-CoveredRun_example :
    (run : Bytes) × CoveredRun chase command run
    × Written 64 (trim_edges run) (codes "api.chase.com")
host_in_text-CoveredRun_example = host_in_text-CoveredRun chase command 64 (omega arith) found_host

-- 10.16.0.0/12
abbrev ten_sixteen : Cidr
ten_sixteen = record { family = inet; prefix = 10 ∷ 16 ∷ replicate 14 0; prefix_len = 12 }

-- 10.31.255.1/32
abbrev one_host : Cidr
one_host = record { family = inet; prefix = 10 ∷ 31 ∷ 255 ∷ 1 ∷ replicate 12 0; prefix_len = 32 }

abbrev inside : Bytes
inside = 10 ∷ 31 ∷ 255 ∷ 1 ∷ []

ten_sixteen-IsCidr : IsCidr ten_sixteen
ten_sixteen-IsCidr = record { bytes = omega arith; size = refl; len_bound = omega arith }

one_host-IsCidr : IsCidr one_host
one_host-IsCidr = record { bytes = omega arith; size = refl; len_bound = omega arith }

inside-IsAddr : IsAddr inet inside
inside-IsAddr = record { bytes = omega arith; size = omega arith }

cidr_match_iff_example :
    (cidr_match (some (ten_sixteen ∷ [])) inet (some inside) ≡ true)
    ↔ Any (λ r. CidrHolds r inet inside) (ten_sixteen ∷ [])
cidr_match_iff_example =
    cidr_match_iff (ten_sixteen ∷ []) inet inside (ten_sixteen-IsCidr, tt) inside-IsAddr

range_holds : cidr_match (some (ten_sixteen ∷ [])) inet (some inside) ≡ true
unfolding cidr_match cidr_contains keep_mask
range_holds = refl

range_is_not_exact : granted_exact (some (ten_sixteen ∷ [])) inet (some inside) ≡ false
unfolding granted_exact
range_is_not_exact = refl

granted : granted_exact (some (ten_sixteen ∷ one_host ∷ [])) inet (some inside) ≡ true
unfolding granted_exact
granted = refl

granted_exact_lem_example :
    ((granted_exact (some (ten_sixteen ∷ one_host ∷ [])) inet (some inside) ≡ true)
      ↔ Any (NamesExactly inet inside) (ten_sixteen ∷ one_host ∷ []))
    × (granted_exact (some (ten_sixteen ∷ one_host ∷ [])) inet (some inside)
          && not (cidr_match (some (ten_sixteen ∷ one_host ∷ [])) inet (some inside))
        ≡ false)
granted_exact_lem_example =
    granted_exact_lem (ten_sixteen ∷ one_host ∷ []) inet inside
      (ten_sixteen-IsCidr, (one_host-IsCidr, tt)) inside-IsAddr

-- An address parser that knows one literal of each family.
abbrev sample_pton : Family → Bytes → Option Bytes
sample_pton inet s = if bytes_eq s (codes "10.31.255.1") then some inside else none
sample_pton inet6 s = if bytes_eq s (codes "::") then some (replicate 16 0) else none

sample_pton-ReadsAddresses : ReadsAddresses sample_pton
sample_pton-ReadsAddresses inet s lit h = ground arith
sample_pton-ReadsAddresses inet6 s lit h = ground arith

masked : cidr_parse sample_pton (some (codes "10.31.255.1/12")) ≡ some ten_sixteen
unfolding cidr_parse keep_mask
masked = refl

empty_length_is_refused : cidr_parse sample_pton (some (codes "10.31.255.1/")) ≡ none
unfolding cidr_parse keep_mask
empty_length_is_refused = refl

cidr_parse-Parsed_example : Parsed sample_pton (codes "10.31.255.1/12") ten_sixteen
cidr_parse-Parsed_example =
    cidr_parse-Parsed sample_pton sample_pton-ReadsAddresses (codes "10.31.255.1/12") ten_sixteen
      masked
