-- ===== src/Host/Scan/Found.antt =====
-- What a scan finds: a hit is a maximal run of host characters that a label covers, and every such
-- run makes the scan end in a hit.
use cclaw.Prelude.{
  ℕ, zero, suc, ◌+◌, ◌<◌, ◌≤◌, ◌≡◌, refl, sym, ap, subst, ◌∙◌, ◌↔◌, ◌⊎◌, take, drop,
  take-append-drop, length-take, min, leb, not_leb, inl, inr, Bool, true, false, ◌&&◌, [], ◌∷◌,
  ◌++◌, none, some, arith, if◌then◌else◌, Bool-cases, Option-cases, Bytes, length, length-append,
}
use cclaw.Host.Rules.{RuleList, AreTexts}
use cclaw.Host.Cover.{any_label_covers, any_label_iff, SomeLabelCovers}
use cclaw.Host.Scan.{
  is_host_char, span_host, trim_edges, token_fits, scan_text, host_in_text, copy_out, report,
}
use cclaw.Host.Scan.Runs.{
  IsHostRun, StartsOutside, EndsOutside, RunAt, span_host-splits, span_host-stops, span_host-append,
  span_host-shrinks, span_host-bounded, EndsOutside-tail, span_host-EndsOutside, trim_edges-IsText,
  trim_edges-nil, RunAt-skip, RunAt-behind, RunAt-front,
}

-- The test of one round: the token is short enough and some label covers it.
abbrev pub is_hit : RuleList → Bytes → Bool
is_hit labels run = token_fits (trim_edges run) && any_label_covers labels (trim_edges run)

scan_skip :
    (f c : ℕ) (labels : RuleList) (s : Bytes)
    → is_host_char c ≡ false
    → scan_text (suc f) labels (c ∷ s) ≡ scan_text f labels s
unfolding scan_text
scan_skip f c labels s e = rw e

scan_run :
    (f c : ℕ) (labels : RuleList) (s run rest : Bytes)
    → is_host_char c ≡ true
    → span_host (c ∷ s) ≡ (run, rest)
    → scan_text (suc f) labels (c ∷ s)
      ≡ (if is_hit labels run then some (trim_edges run) else scan_text f labels rest)
unfolding scan_text
scan_run f c labels s run rest e sp = rw (e, sp)

-- A maximal run whose trimmed text fits the token buffer and is covered by some label.
abbrev pub CoveredRun : RuleList → Bytes → Bytes → Type 0
CoveredRun labels text run =
    RunAt text run
    × (1 ≤ length (trim_edges run))
    × (length (trim_edges run) < 254)
    × SomeLabelCovers labels (trim_edges run)

is_hit-parts :
    (labels : RuleList) (run : Bytes)
    → is_hit labels run ≡ true
    → (1 ≤ length (trim_edges run))
      × (length (trim_edges run) < 254)
      × (any_label_covers labels (trim_edges run) ≡ true)
unfolding token_fits
is_hit-parts labels run h = ground arith

parts-is_hit :
    (labels : RuleList) (run : Bytes)
    → 1 ≤ length (trim_edges run)
    → length (trim_edges run) < 254
    → any_label_covers labels (trim_edges run) ≡ true
    → is_hit labels run ≡ true
unfolding token_fits
parts-is_hit labels run h k c = ground arith

CoveredRun→is_hit :
    (labels : RuleList) (text run : Bytes)
    → AreTexts labels
    → CoveredRun labels text run
    → is_hit labels run ≡ true
CoveredRun→is_hit labels text run hl (at, lo, hi, c) =
    parts-is_hit labels run lo hi
      ((any_label_iff labels (trim_edges run) hl (trim_edges-IsText run at.inside)).1 c)

is_hit→CoveredRun :
    (labels : RuleList) (text run : Bytes)
    → AreTexts labels
    → RunAt text run
    → is_hit labels run ≡ true
    → CoveredRun labels text run
is_hit→CoveredRun labels text run hl at h =
    let (lo, hi, c) = is_hit-parts labels run h in
    (at, lo, hi, (any_label_iff labels (trim_edges run) hl (trim_edges-IsText run at.inside)).0 c)

-- A hit comes from a maximal run of the text.
abbrev pub HitIn : RuleList → Bytes → Bytes → Type 0
HitIn labels text token =
    (run : Bytes) × RunAt text run × (is_hit labels run ≡ true) × (token ≡ trim_edges run)

some_eq {ℓ} : {A : Type ℓ} (a b : A) → some a ≡ some b → a ≡ b
some_eq a b h = cc

pub scan_text-HitIn :
    (f : ℕ) (labels : RuleList) (s : Bytes) {token : Bytes}
    → scan_text f labels s ≡ some token
    → HitIn labels s token
unfolding scan_text
scan_text-HitIn zero labels s h = cc
scan_text-HitIn (suc f) labels [] h = cc
scan_text-HitIn (suc f) labels (c ∷ s) {token} h = elim (Bool-cases (is_host_char c)) [
  | inr e ↦
      let (run, at, hit, t) = scan_text-HitIn f labels s (sym (scan_skip f c labels s e) ∙ h) in
      (run, RunAt-skip c s run e at, hit, t)
  | inl e ↦
      let step = sym (scan_run f c labels s _ _ e refl) ∙ h in
      elim (Bool-cases (is_hit labels (span_host (c ∷ s)).0)) [
        | inl hit ↦ (
          (span_host (c ∷ s)).0,
          RunAt-front (c ∷ s),
          hit,
          sym (some_eq _ token (rw hit at step)),
        )
        | inr miss ↦
            let (run, at, hit, t) =
              scan_text-HitIn f labels (span_host (c ∷ s)).1 (rw miss at step) in
            (
              run,
              RunAt-behind (c ∷ s) _ _ run (span_host-splits (c ∷ s)) (span_host-stops (c ∷ s))
                  (is_hit-parts labels run hit).0 at,
              hit,
              t,
            )
      ]
]

-- A run that the labels cover makes the scan end in a hit, whatever stands in front of it.
scan_text-hits :
    (f : ℕ) (labels : RuleList) (before run after : Bytes)
    → EndsOutside before
    → IsHostRun run
    → StartsOutside after
    → is_hit labels run ≡ true
    → length (before ++ (run ++ after)) < f
    → (token : Bytes) × (scan_text f labels (before ++ (run ++ after)) ≡ some token)
scan_text-hits zero labels before run after l i r hit fuel = absurd (omega arith)
scan_text-hits (suc f) labels [] [] after l i r hit fuel =
    absurd (omega (arith, trim_edges-nil, (is_hit-parts labels [] hit).0))
scan_text-hits (suc f) labels [] (c ∷ run) after l i r hit fuel = (
  trim_edges (c ∷ run),
  scan_run f c labels (run ++ after) (c ∷ run) after i.0 (span_host-append (c ∷ run) after i r)
      ∙ rw hit,
)
scan_text-hits (suc f) labels (x ∷ b) run after l i r hit fuel =
    elim (Bool-cases (is_host_char x)) [
      | inr e ↦
          let (token, h) =
            scan_text-hits f labels b run after (EndsOutside-tail x b l) i r hit (omega arith) in
          (token, scan_skip f x labels (b ++ (run ++ after)) e ∙ h)
      | inl e ↦
          let step =
            scan_run f x labels (b ++ (run ++ after)) _ _ e
              (span_host-bounded x b (run ++ after) l) in
          elim (Bool-cases (is_hit labels (span_host (x ∷ b)).0)) [
            | inl early ↦ (trim_edges (span_host (x ∷ b)).0, step ∙ rw early)
            | inr miss ↦
                let (token, h) =
                  scan_text-hits f labels (span_host (x ∷ b)).1 run after
                    (span_host-EndsOutside (x ∷ b) l) i r hit
                    (omega (
                      arith,
                      span_host-shrinks x b e,
                      length-append b (run ++ after),
                      length-append (span_host (x ∷ b)).1 (run ++ after),
                    )) in
                (token, step ∙ rw miss h)
          ]
    ]

scan_text-hits_run :
    (labels : RuleList) (text run : Bytes)
    → AreTexts labels
    → CoveredRun labels text run
    → (token : Bytes) × (scan_text (length text + 1) labels text ≡ some token)
scan_text-hits_run labels text run hl c =
    let at = c.0 in
    let (token, h) =
      scan_text-hits (length text + 1) labels at.before run at.after at.left_end at.inside
        at.right_end (CoveredRun→is_hit labels text run hl c)
        (omega (arith, ap length at.splits)) in
    (token, ap (scan_text (length text + 1) labels) at.splits ∙ h)

-- What a buffer of `out_cap` bytes holds of a token: its front, with room for the NUL where there is
-- a buffer, and no less than fits.
pub record Written (out_cap : ℕ) (token out : Bytes) : Type 0 where
  pub front : (rest : Bytes) × (token ≡ out ++ rest)
  pub fits : 1 ≤ out_cap → length out < out_cap
  pub nothing : out_cap ≡ 0 → out ≡ []
  pub full : (out ≡ token) ⊎ (out_cap ≤ length out + 1)

take_all : (n : ℕ) (s : Bytes) → length s ≤ n → take n s ≡ s
take_all zero [] h = refl
take_all zero (c ∷ s) h = absurd (omega arith)
take_all (suc n) [] h = refl
take_all (suc n) (c ∷ s) h = ap (λ t. c ∷ t) (take_all n s (omega arith))

cut-Written : (n : ℕ) (token : Bytes) → Written (suc n) token (take (min (length token) n) token)
cut-Written n token =
    let m = min (length token) n in
    record {
      front = (drop m token, sym (take-append-drop m token));
      fits = λ _. omega (arith, length-take m token);
      nothing = λ z. absurd (omega arith);
      full = elim (Bool-cases (leb (length token) n)) [
        | inl e ↦ inl (take_all m token (ground arith))
        | inr e ↦ inr (omega (arith, not_leb (length token) n e, length-take m token))
      ];
    }

copy_out-Written : (out_cap : ℕ) (token : Bytes) → Written out_cap token (copy_out out_cap token)
unfolding copy_out
copy_out-Written zero token = record {
  front = (token, refl);
  fits = λ h. absurd (omega arith);
  nothing = λ _. refl;
  full = inr (omega arith);
}
copy_out-Written (suc n) token = subst (Written (suc n) token) (ground arith) (cut-Written n token)

-- The scan of a text reports no host exactly when no maximal run of [A-Za-z0-9.-] in it, trimmed of
-- its edge dots and hyphens, fits the 254 byte token buffer and is covered by some label.
pub host_in_text-none_iff :
    (labels : RuleList) (text : Bytes) (out_cap : ℕ)
    → AreTexts labels
    → (host_in_text (some labels) (some text) out_cap ≡ none)
      ↔ ¬ ((run : Bytes) × CoveredRun labels text run)
unfolding host_in_text
host_in_text-none_iff [] text out_cap hl = (λ _ (run, c). c.3, λ _. refl)
host_in_text-none_iff (l ∷ labels) text out_cap hl = (
  λ h (run, c).
      let (token, s) = scan_text-hits_run (l ∷ labels) text run hl c in
      cc (h, ap (report out_cap) s),
  λ n. elim (Option-cases (scan_text (length text + 1) (l ∷ labels) text)) [
    | inl e ↦ ap (report out_cap) e
    | inr (token, e) ↦
        let (run, at, hit, t) = scan_text-HitIn (length text + 1) (l ∷ labels) text e in
        absurd (n (run, is_hit→CoveredRun (l ∷ labels) text run hl at hit))
  ],
)

-- A reported host is the trimmed text of such a run: all of it, or as much as leaves room for the NUL in
-- the caller's buffer of `out_cap` bytes; nothing is written to a buffer of none.
pub host_in_text-CoveredRun :
    (labels : RuleList) (text : Bytes) (out_cap : ℕ) {out : Bytes}
    → AreTexts labels
    → host_in_text (some labels) (some text) out_cap ≡ some out
    → (run : Bytes) × CoveredRun labels text run × Written out_cap (trim_edges run) out
unfolding host_in_text
host_in_text-CoveredRun [] text out_cap hl h = cc
host_in_text-CoveredRun (l ∷ labels) text out_cap {out} hl h =
    elim (Option-cases (scan_text (length text + 1) (l ∷ labels) text)) [
      | inl e ↦ cc (ap (report out_cap) e)
      | inr (token, e) ↦
          let (run, at, hit, t) = scan_text-HitIn (length text + 1) (l ∷ labels) text e in
          (
            run,
            is_hit→CoveredRun (l ∷ labels) text run hl at hit,
            subst (Written out_cap (trim_edges run))
                (some_eq (copy_out out_cap (trim_edges run)) out
                  (sym (sym h ∙ ap (report out_cap) e ∙ ap (λ x. some (copy_out out_cap x)) t)))
                (copy_out-Written out_cap (trim_edges run)),
          )
    ]
