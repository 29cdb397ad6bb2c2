-- ===== src/Host/Scan.antt =====
-- `is_host_char` and `host_in_text` of src/host_match.c: the scan of free text for a covered host.
-- The text that is left strictly shrinks each round, so its length is fuel enough.
pub mod Runs
pub mod Found
use cclaw.Prelude.{
  ℕ, zero, suc, ◌+◌, ◌-◌, ◌<◌, ◌≤◌, ◌≡◌, refl, sym, ap, subst, ◌∙◌, ◌↔◌, ◌≢◌, ◌⊎◌, inl, inr, Bool,
  true, false, ◌&&◌, ◌||◌, not, List, [], ◌∷◌, ◌++◌, Option, none, some, arith, ltb, leb, ◌==◌, min,
  if◌then◌else◌, Bool-cases, Bytes, IsText, length, take,
}
use cclaw.Host.Rules.{RuleList}
use cclaw.Host.Cover.{any_label_covers}

unfoldable pub is_host_char : ℕ → Bool
is_host_char c =
    leb b'a' c && leb c b'z'
    || leb b'A' c && leb c b'Z'
    || leb b'0' c && leb c b'9'
    || c == b'.'
    || c == b'-'

-- `while (*p && is_host_char(*p)) p++;`: the run passed over, and what is left.
unfoldable pub span_host : Bytes → Bytes × Bytes
span_host [] = ([], [])
span_host (c ∷ s) =
    let rest = span_host s in if is_host_char c then (c ∷ rest.0, rest.1) else ([], c ∷ s)

abbrev pub is_edge : ℕ → Bool
is_edge c = c == b'.' || c == b'-'

unfoldable pub trim_left : Bytes → Bytes
trim_left [] = []
trim_left (c ∷ s) = let rest = trim_left s in if is_edge c then rest else c ∷ s

unfoldable pub push_left : ℕ → Bytes → Bytes
push_left c [] = if is_edge c then [] else c ∷ []
push_left c (x ∷ s) = c ∷ x ∷ s

unfoldable pub trim_right : Bytes → Bytes
unfolding push_left
trim_right [] = []
trim_right (c ∷ s) = push_left c (trim_right s)

unfoldable pub trim_edges : Bytes → Bytes
trim_edges run = trim_right (trim_left run)

-- `char token[254]`: an empty or longer token is passed over.
unfoldable pub token_fits : Bytes → Bool
token_fits token = not (length token == 0) && ltb (length token) 254

-- The scan, with `none` for a clean text and the first covered token for a hit.
unfoldable pub scan_text : ℕ → RuleList → Bytes → Option Bytes
scan_text zero labels text = none
scan_text (suc fuel) labels [] = none
scan_text (suc fuel) labels (c ∷ s) =
    let skip = scan_text fuel labels s in
    let (run, rest) = span_host (c ∷ s) in
    let next = scan_text fuel labels rest in
    let token = trim_edges run in
    if not (is_host_char c)
    then skip
    else if token_fits token && any_label_covers labels token
    then some token
    else next

-- What `host_in_text` leaves in `out_host`, a buffer of `out_cap` bytes.
unfoldable pub copy_out : ℕ → Bytes → Bytes
copy_out out_cap token = if out_cap == 0 then [] else take (min (length token) (out_cap - 1)) token

abbrev pub report : ℕ → Option Bytes → Option Bytes
report out_cap none = none
report out_cap (some token) = some (copy_out out_cap token)

unfoldable pub host_in_text : Option RuleList → Option Bytes → ℕ → Option Bytes
host_in_text none text out_cap = none
host_in_text (some []) text out_cap = none
host_in_text (some (l ∷ labels)) none out_cap = none
host_in_text (some (l ∷ labels)) (some text) out_cap =
    report out_cap (scan_text (length text + 1) (l ∷ labels) text)
