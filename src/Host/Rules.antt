-- ===== src/Host/Rules.antt =====
-- `host_match` of src/host_match.c: exact rules, suffix rules and the bare "*".
use cclaw.Prelude.{
  ℕ, zero, suc, ◌+◌, ◌-◌, ◌<◌, ◌≡◌, refl, sym, ap, subst, ◌∙◌, ◌↔◌, ◌≢◌, ◌⊎◌, inl, inr, Bool, true,
  false, ◌&&◌, List, [], ◌∷◌, ◌++◌, Option, none, some, arith, ltb, ◌==◌, if◌then◌else◌, Bool-cases,
  Bytes, IsText, length, drop, take, length-append, take-append-drop, length-map, All-drop,
}
use native.Mathlib.Decide.{ℕ_discrete}
use cclaw.Ascii.{fold_case, same_name, same_name_iff, first_byte, ascii_lower}

-- A parsed rule array: `char **rules` may be NULL, and so may each of its entries.
abbrev pub RuleList : Type 0
RuleList = List (Option Bytes)

abbrev is_empty : Bytes → Bool
is_empty [] = true
is_empty (c ∷ s) = false

-- One round of the loop, on a rule that is not NULL.
unfoldable pub rule_matches : Bytes → Bytes → Bool
rule_matches [] host = same_name host []
rule_matches (c ∷ d) host =
    let rlen = length (c ∷ d) in
    if c == b'*' && is_empty d
    then true
    else if c == b'.'
    then (if length host == rlen - 1 && same_name host d
        then true
        else if ltb rlen (length host)
        then same_name (drop (length host - rlen) host) (c ∷ d)
        else false)
    else same_name host (c ∷ d)

unfoldable pub any_rule_matches : RuleList → Bytes → Bool
any_rule_matches [] host = false
any_rule_matches (none ∷ rules) host = any_rule_matches rules host
any_rule_matches (some r ∷ rules) host =
    if rule_matches r host then true else any_rule_matches rules host

unfoldable pub host_match : Option RuleList → Option Bytes → Bool
unfolding any_rule_matches
host_match none host = false
host_match (some rules) none = false
host_match (some rules) (some host) = any_rule_matches rules host

-- What a rule means, with no lengths and no pointers in it.
pub data RuleCovers (r host : Bytes) : Type 0 where
  any_host : r ≡ b'*' ∷ [] → RuleCovers r host
  exact : first_byte r ≢ b'.' → fold_case host ≡ fold_case r → RuleCovers r host
  base_name : (d : Bytes) → r ≡ b'.' ∷ d → fold_case host ≡ fold_case d → RuleCovers r host
  subdomain :
      (d p t : Bytes)
      → r ≡ b'.' ∷ d
      → host ≡ p ++ t
      → p ≢ []
      → fold_case t ≡ fold_case r
      → RuleCovers r host

-- Some entry that is not NULL covers the host.
abbrev pub SomeRuleCovers : RuleList → Bytes → Type 0
SomeRuleCovers [] host = ⊥
SomeRuleCovers (none ∷ rules) host = SomeRuleCovers rules host
SomeRuleCovers (some r ∷ rules) host = RuleCovers r host ⊎ SomeRuleCovers rules host

-- Every entry that is not NULL is a C string.
abbrev pub AreTexts : RuleList → Type 0
AreTexts [] = Unit
AreTexts (none ∷ rules) = AreTexts rules
AreTexts (some r ∷ rules) = IsText r × AreTexts rules

drop-append : (p t : Bytes) → drop (length p) (p ++ t) ≡ t
drop-append [] t = refl
drop-append (x ∷ p) t = drop-append p t

length-fold_case : (a b : Bytes) → fold_case a ≡ fold_case b → length a ≡ length b
length-fold_case a b e = sym (length-map ascii_lower a) ∙ ap length e ∙ length-map ascii_lower b

length-pos : (p : Bytes) → p ≢ [] → 0 < length p
length-pos [] n = absurd (n refl)
length-pos (x ∷ p) n = omega arith

take-ne-nil : (n : ℕ) (s : Bytes) → 0 < n → 0 < length s → take n s ≢ []
take-ne-nil zero s h k e = absurd (omega arith)
take-ne-nil (suc n) [] h k e = absurd (omega arith)
take-ne-nil (suc n) (x ∷ s) h k e = cc

suffix_at : (k : ℕ) (p t : Bytes) → length t ≡ k → drop (length (p ++ t) - k) (p ++ t) ≡ t
suffix_at k p t e =
    let at : length (p ++ t) - k ≡ length p = omega (arith, length-append p t) in
    ap (λ n. drop n (p ++ t)) at ∙ drop-append p t

-- The two ways in which a suffix rule accepts.
dot_accepts :
    (d host : Bytes)
    → rule_matches (b'.' ∷ d) host ≡ true
    → (same_name host d ≡ true)
      ⊎ ((length d + 1 < length host)
          × (same_name (drop (length host - (length d + 1)) host) (b'.' ∷ d) ≡ true))
unfolding rule_matches
dot_accepts d host m = ground arith

other_rule :
    (c : ℕ) (d host : Bytes)
    → c ≢ b'.'
    → rule_matches (c ∷ d) host ≡ true
    → ((c ∷ d) ≡ b'*' ∷ []) ⊎ (same_name host (c ∷ d) ≡ true)
unfolding rule_matches
other_rule c [] host n m = ground arith
other_rule c (x ∷ d) host n m = ground arith

dot_sound :
    (d host : Bytes)
    → IsText (b'.' ∷ d)
    → IsText host
    → rule_matches (b'.' ∷ d) host ≡ true
    → RuleCovers (b'.' ∷ d) host
dot_sound d host hr hh m = elim (dot_accepts d host m) [
  | inl e ↦ base_name d refl ((same_name_iff host d hh hr.1).0 e)
  | inr (lt, e) ↦
      let k = length host - (length d + 1) in
      subdomain d (take k host) (drop k host) refl (sym (take-append-drop k host))
        (take-ne-nil k host (omega arith) (omega arith))
        ((same_name_iff (drop k host) (b'.' ∷ d) (All-drop _ k host hh) hr).0 e)
]

rule_matches→RuleCovers :
    (r host : Bytes) → IsText r → IsText host → rule_matches r host ≡ true → RuleCovers r host
unfolding rule_matches
rule_matches→RuleCovers [] host hr hh m =
    exact (λ e. absurd (omega arith)) ((same_name_iff host [] hh hr).0 m)
rule_matches→RuleCovers (c ∷ d) host hr hh m = elim (ℕ_discrete c b'.') [
  | yes e ↦
      subst (λ x. RuleCovers (x ∷ d) host) (sym e)
        (dot_sound d host ((omega arith, omega arith), hr.1) hh
          (subst (λ x. rule_matches (x ∷ d) host ≡ true) e m))
  | no n ↦ elim (other_rule c d host n m) [
    | inl e ↦ any_host e
    | inr e ↦ exact n ((same_name_iff host (c ∷ d) hh hr).0 e)
  ]
]

-- Where a rule does not begin with a dot and is no star, it is compared as a whole.
exact_accepts :
    (r host : Bytes) → first_byte r ≢ b'.' → same_name host r ≡ true → rule_matches r host ≡ true
unfolding rule_matches
exact_accepts [] host n e = e
exact_accepts (c ∷ d) host n e = ground arith

dot_complete :
    (d host : Bytes)
    → (length host ≡ length d) × (same_name host d ≡ true)
      ⊎ (length d + 1 < length host)
        × (same_name (drop (length host - (length d + 1)) host) (b'.' ∷ d) ≡ true)
    → rule_matches (b'.' ∷ d) host ≡ true
unfolding rule_matches
dot_complete d host h = ground arith

sub_complete :
    (d p t : Bytes)
    → IsText (b'.' ∷ d)
    → IsText (p ++ t)
    → p ≢ []
    → fold_case t ≡ fold_case (b'.' ∷ d)
    → rule_matches (b'.' ∷ d) (p ++ t) ≡ true
sub_complete d p t hr hh n g =
    let len : length t ≡ length d + 1 = omega (arith, length-fold_case t (b'.' ∷ d) g) in
    dot_complete d (p ++ t) (
      inr (
        omega (arith, length-append p t, length-pos p n),
        (same_name_iff _ (b'.' ∷ d) (All-drop _ (length (p ++ t) - (length d + 1)) (p ++ t) hh)
              hr).1
            (ap fold_case (suffix_at (length d + 1) p t len) ∙ g),
      ))

RuleCovers→rule_matches :
    (r host : Bytes) → IsText r → IsText host → RuleCovers r host → rule_matches r host ≡ true
unfolding rule_matches
RuleCovers→rule_matches r host hr hh (any_host e) = rw e
RuleCovers→rule_matches r host hr hh (exact n e) =
    exact_accepts r host n ((same_name_iff host r hh hr).1 e)
RuleCovers→rule_matches r host hr hh (base_name d e f) =
    subst (λ x. rule_matches x host ≡ true) (sym e)
      (dot_complete d host
        (inl (length-fold_case host d f, (same_name_iff host d hh (subst IsText e hr).1).1 f)))
RuleCovers→rule_matches r host hr hh (subdomain d p t e f n g) =
    subst (λ x. rule_matches x host ≡ true) (sym e)
      (subst (λ x. rule_matches (b'.' ∷ d) x ≡ true) (sym f)
        (sub_complete d p t (subst IsText e hr) (subst IsText f hh) n (g ∙ ap fold_case e)))

pub rule_matches_iff :
    (r host : Bytes) → IsText r → IsText host → (rule_matches r host ≡ true) ↔ RuleCovers r host
rule_matches_iff r host hr hh =
    (rule_matches→RuleCovers r host hr hh, RuleCovers→rule_matches r host hr hh)

any_rule_sound :
    (rules : RuleList) (host : Bytes)
    → AreTexts rules
    → IsText host
    → any_rule_matches rules host ≡ true
    → SomeRuleCovers rules host
unfolding any_rule_matches
any_rule_sound [] host hr hh m = cc
any_rule_sound (none ∷ rules) host hr hh m = any_rule_sound rules host hr hh m
any_rule_sound (some r ∷ rules) host hr hh m = elim (Bool-cases (rule_matches r host)) [
  | inl e ↦ inl (rule_matches→RuleCovers r host hr.0 hh e)
  | inr e ↦ inr (any_rule_sound rules host hr.1 hh (ground arith))
]

any_rule_complete :
    (rules : RuleList) (host : Bytes)
    → AreTexts rules
    → IsText host
    → SomeRuleCovers rules host
    → any_rule_matches rules host ≡ true
unfolding any_rule_matches
any_rule_complete [] host hr hh m = elim m [ ]
any_rule_complete (none ∷ rules) host hr hh m = any_rule_complete rules host hr hh m
any_rule_complete (some r ∷ rules) host hr hh (inl c) =
    rw (RuleCovers→rule_matches r host hr.0 hh c)
any_rule_complete (some r ∷ rules) host hr hh (inr c) =
    ground (arith, any_rule_complete rules host hr.1 hh c)

-- `host_match` accepts a host exactly when some rule that is not NULL covers it: the bare "*", a
-- rule equal to it up to ASCII case, or a rule ".d" where the host is d or ends in ".d" behind at
-- least one byte, so that the suffix always begins at a dot.
pub host_match_iff :
    (rules : RuleList) (host : Bytes)
    → AreTexts rules
    → IsText host
    → (host_match (some rules) (some host) ≡ true) ↔ SomeRuleCovers rules host
unfolding host_match
host_match_iff rules host hr hh =
    (any_rule_sound rules host hr hh, any_rule_complete rules host hr hh)
