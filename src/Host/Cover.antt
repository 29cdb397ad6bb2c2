-- ===== src/Host/Cover.antt =====
-- `label_covers` and `host_covered` of src/host_match.c: a label stands for itself and for its
-- subdomains.
use cclaw.Prelude.{
  ℕ, ◌+◌, ◌<◌, ◌≡◌, refl, sym, ap, ◌∙◌, ◌↔◌, ◌≢◌, ◌⊎◌, inl, inr, Bool, true, false, ◌&&◌, not, [],
  ◌∷◌, ◌++◌, Option, none, some, arith, ltb, ◌==◌, if◌then◌else◌, Bool-cases, Bytes, IsText, length,
}
use cclaw.Ascii.{fold_case, first_byte}
use cclaw.Host.Rules.{
  RuleList, host_match, host_match_iff, RuleCovers, AreTexts, any_host, exact, base_name, subdomain,
}

-- `char suffixed[256]`: a longer suffix rule is not tried.
abbrev pub suffixed_size : ℕ
suffixed_size = 256

unfoldable pub label_covers : Bytes → Bytes → Bool
label_covers label token =
    if host_match (some (some label ∷ [])) (some token)
    then true
    else if not (first_byte label == b'.') && ltb (length (b'.' ∷ label)) suffixed_size
    then host_match (some (some (b'.' ∷ label) ∷ [])) (some token)
    else false

unfoldable pub any_label_covers : RuleList → Bytes → Bool
any_label_covers [] host = false
any_label_covers (none ∷ labels) host = any_label_covers labels host
any_label_covers (some l ∷ labels) host =
    if label_covers l host then true else any_label_covers labels host

unfoldable pub host_covered : Option RuleList → Option Bytes → Bool
unfolding any_label_covers
host_covered none host = false
host_covered (some labels) none = false
host_covered (some labels) (some host) = any_label_covers labels host

-- The label as a rule, or the label behind a dot as a rule where it fits the buffer.
abbrev pub LabelCovers : Bytes → Bytes → Type 0
LabelCovers label token =
    RuleCovers label token
    ⊎ (first_byte label ≢ b'.')
      × (length label + 1 < suffixed_size)
      × RuleCovers (b'.' ∷ label) token

abbrev pub SomeLabelCovers : RuleList → Bytes → Type 0
SomeLabelCovers [] host = ⊥
SomeLabelCovers (none ∷ labels) host = SomeLabelCovers labels host
SomeLabelCovers (some l ∷ labels) host = LabelCovers l host ⊎ SomeLabelCovers labels host

one_rule_iff :
    (r host : Bytes)
    → IsText r
    → IsText host
    → (host_match (some (some r ∷ [])) (some host) ≡ true) ↔ RuleCovers r host
one_rule_iff r host hr hh =
    let e = host_match_iff (some r ∷ []) host (hr, tt) hh in
    (λ m. elim (e.0 m) [ inl c ↦ c | inr n ↦ absurd n ], λ c. e.1 (inl c))

label_accepts :
    (label token : Bytes)
    → label_covers label token ≡ true
    → (host_match (some (some label ∷ [])) (some token) ≡ true)
      ⊎ (first_byte label ≢ b'.')
        × (length label + 1 < suffixed_size)
        × (host_match (some (some (b'.' ∷ label) ∷ [])) (some token) ≡ true)
unfolding label_covers
label_accepts label token m = ground arith

label_completes :
    (label token : Bytes)
    → (host_match (some (some label ∷ [])) (some token) ≡ true)
      ⊎ (first_byte label ≢ b'.')
        × (length label + 1 < suffixed_size)
        × (host_match (some (some (b'.' ∷ label) ∷ [])) (some token) ≡ true)
    → label_covers label token ≡ true
unfolding label_covers
label_completes label token h = ground arith

dotted-IsText : (s : Bytes) → IsText s → IsText (b'.' ∷ s)
dotted-IsText s h = ((omega arith, omega arith), h)

pub label_covers_iff :
    (label token : Bytes)
    → IsText label
    → IsText token
    → (label_covers label token ≡ true) ↔ LabelCovers label token
label_covers_iff label token hl ht = (
  λ m. elim (label_accepts label token m) [
    | inl e ↦ inl ((one_rule_iff label token hl ht).0 e)
    | inr (n, short, e) ↦
        inr (n, short, (one_rule_iff (b'.' ∷ label) token (dotted-IsText label hl) ht).0 e)
  ],
  λ c. label_completes label token (elim c [
    | inl e ↦ inl ((one_rule_iff label token hl ht).1 e)
    | inr (n, short, e) ↦
        inr (n, short, (one_rule_iff (b'.' ∷ label) token (dotted-IsText label hl) ht).1 e)
  ]),
)

any_label_sound :
    (labels : RuleList) (host : Bytes)
    → AreTexts labels
    → IsText host
    → any_label_covers labels host ≡ true
    → SomeLabelCovers labels host
unfolding any_label_covers
any_label_sound [] host hl hh m = cc
any_label_sound (none ∷ labels) host hl hh m = any_label_sound labels host hl hh m
any_label_sound (some l ∷ labels) host hl hh m = elim (Bool-cases (label_covers l host)) [
  | inl e ↦ inl ((label_covers_iff l host hl.0 hh).0 e)
  | inr e ↦ inr (any_label_sound labels host hl.1 hh (ground arith))
]

any_label_complete :
    (labels : RuleList) (host : Bytes)
    → AreTexts labels
    → IsText host
    → SomeLabelCovers labels host
    → any_label_covers labels host ≡ true
unfolding any_label_covers
any_label_complete [] host hl hh m = elim m [ ]
any_label_complete (none ∷ labels) host hl hh m = any_label_complete labels host hl hh m
any_label_complete (some l ∷ labels) host hl hh (inl c) = rw ((label_covers_iff l host hl.0 hh).1 c)
any_label_complete (some l ∷ labels) host hl hh (inr c) =
    ground (arith, any_label_complete labels host hl.1 hh c)

pub any_label_iff :
    (labels : RuleList) (host : Bytes)
    → AreTexts labels
    → IsText host
    → (any_label_covers labels host ≡ true) ↔ SomeLabelCovers labels host
any_label_iff labels host hl hh =
    (any_label_sound labels host hl hh, any_label_complete labels host hl hh)

-- A subdomain of d, or d itself, up to ASCII case.
abbrev pub IsUnder : Bytes → Bytes → Type 0
IsUnder d host =
    (fold_case host ≡ fold_case d)
    ⊎ ((p : Bytes) × (t : Bytes) × (host ≡ p ++ t)
        × (p ≢ [])
        × (fold_case t ≡ fold_case (b'.' ∷ d)))

RuleCovers-exact :
    (d host : Bytes)
    → first_byte d ≢ b'.'
    → d ≢ b'*' ∷ []
    → RuleCovers d host
    → fold_case host ≡ fold_case d
RuleCovers-exact d host n s (any_host e) = absurd (s e)
RuleCovers-exact d host n s (exact _ e) = e
RuleCovers-exact d host n s (base_name b e _) = absurd (n (ap first_byte e))
RuleCovers-exact d host n s (subdomain b p t e _ _ _) = absurd (n (ap first_byte e))

tail_eq : (d e : Bytes) (c : ℕ) → c ∷ d ≡ c ∷ e → d ≡ e
tail_eq d e c h = cc

RuleCovers-dot : (d host : Bytes) → RuleCovers (b'.' ∷ d) host → IsUnder d host
RuleCovers-dot d host (any_host e) = absurd (ground arith)
RuleCovers-dot d host (exact n e) = absurd (n refl)
RuleCovers-dot d host (base_name b e f) = inl (f ∙ ap fold_case (sym (tail_eq d b b'.' e)))
RuleCovers-dot d host (subdomain b p t e f n g) = inr (p, t, f, n, g)

IsUnder→RuleCovers : (d host : Bytes) → IsUnder d host → RuleCovers (b'.' ∷ d) host
IsUnder→RuleCovers d host (inl e) = base_name d refl e
IsUnder→RuleCovers d host (inr (p, t, e, n, f)) = subdomain d p t refl e n f

-- A plain label, which begins with no dot, is not the star and fits the buffer, covers exactly the
-- hosts that are the label's domain or lie under it at a dot: "chase.com" covers "api.chase.com"
-- and not "mychase.com".
pub host_covered_plain :
    (d host : Bytes)
    → IsText d
    → IsText host
    → first_byte d ≢ b'.'
    → d ≢ b'*' ∷ []
    → length d + 1 < 256
    → (host_covered (some (some d ∷ [])) (some host) ≡ true) ↔ IsUnder d host
unfolding host_covered
host_covered_plain d host hd hh n s short =
    let e = any_label_iff (some d ∷ []) host (hd, tt) hh in
    (
      λ m. elim (e.0 m) [
        | inl (inl c) ↦ inl (RuleCovers-exact d host n s c)
        | inl (inr (_, _, c)) ↦ RuleCovers-dot d host c
        | inr z ↦ absurd z
      ],
      λ u. e.1 (inl (inr (n, short, IsUnder→RuleCovers d host u))),
    )
