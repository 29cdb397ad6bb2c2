-- ===== src/Host/Scan/Runs.antt =====
-- Maximal runs of host characters in a text, and the span and the trims that the scan applies.
use cclaw.Prelude.{
  ℕ, ◌≤◌, ◌≡◌, refl, sym, ap, subst, ◌∙◌, inl, inr, true, false, [], ◌∷◌, ◌++◌, arith, Bool-cases,
  Bytes, IsText, IsTextByte, length, All, append_assoc,
}
use cclaw.Host.Scan.{is_host_char, span_host, is_edge, trim_left, push_left, trim_right, trim_edges}

abbrev pub IsHostRun : Bytes → Type 0
IsHostRun = All (λ c. is_host_char c ≡ true)

-- The next byte, if there is one, is no host character.
abbrev pub StartsOutside : Bytes → Type 0
StartsOutside [] = Unit
StartsOutside (c ∷ s) = is_host_char c ≡ false

-- The last byte, if there is one, is no host character.
abbrev pub EndsOutside : Bytes → Type 0
EndsOutside [] = Unit
EndsOutside (c ∷ []) = is_host_char c ≡ false
EndsOutside (c ∷ d ∷ s) = EndsOutside (d ∷ s)

-- A maximal run of host characters of the text, with what stands on its two sides.
pub record RunAt (text run : Bytes) : Type 0 where
  pub before : Bytes
  pub after : Bytes
  pub splits : text ≡ before ++ (run ++ after)
  pub inside : IsHostRun run
  pub left_end : EndsOutside before
  pub right_end : StartsOutside after

pub span_host-run : (s : Bytes) → IsHostRun (span_host s).0
unfolding span_host
span_host-run [] = tt
span_host-run (c ∷ s) = elim (Bool-cases (is_host_char c)) [
  | inl e ↦ rw e (e, span_host-run s)
  | inr e ↦ rw e tt
]

pub span_host-splits : (s : Bytes) → s ≡ (span_host s).0 ++ (span_host s).1
unfolding span_host
span_host-splits [] = refl
span_host-splits (c ∷ s) = elim (Bool-cases (is_host_char c)) [
  | inl e ↦ rw e (ap (λ t. c ∷ t) (span_host-splits s))
  | inr e ↦ rw e refl
]

pub span_host-stops : (s : Bytes) → StartsOutside (span_host s).1
unfolding span_host
span_host-stops [] = tt
span_host-stops (c ∷ s) = elim (Bool-cases (is_host_char c)) [
  | inl e ↦ rw e (span_host-stops s)
  | inr e ↦ rw e e
]

-- A run in front of something else is what the span passes over.
pub span_host-append :
    (run rest : Bytes) → IsHostRun run → StartsOutside rest → span_host (run ++ rest) ≡ (run, rest)
unfolding span_host
span_host-append [] [] h o = refl
span_host-append [] (c ∷ rest) h o = rw o refl
span_host-append (c ∷ run) rest h o = rw (h.0, span_host-append run rest h.1 o) refl

pub span_host-le : (s : Bytes) → length (span_host s).1 ≤ length s
unfolding span_host
span_host-le [] = omega arith
span_host-le (c ∷ s) = elim (Bool-cases (is_host_char c)) [
  | inl e ↦ rw e (omega (arith, span_host-le s))
  | inr e ↦ rw e (omega arith)
]

-- The rest behind a run is no longer than the text behind the run's first byte.
pub span_host-shrinks :
    (c : ℕ) (s : Bytes) → is_host_char c ≡ true → length (span_host (c ∷ s)).1 ≤ length s
unfolding span_host
span_host-shrinks c s e = rw e (span_host-le s)

-- A text that ends outside bounds every run that begins in it.
pub span_host-bounded :
    (x : ℕ) (b rest : Bytes)
    → EndsOutside (x ∷ b)
    → span_host ((x ∷ b) ++ rest) ≡ ((span_host (x ∷ b)).0, (span_host (x ∷ b)).1 ++ rest)
unfolding span_host
span_host-bounded x [] rest o = rw o refl
span_host-bounded x (d ∷ b) rest o = elim (Bool-cases (is_host_char x)) [
  | inl e ↦ rw e (ap (λ (r : Bytes × Bytes). (x ∷ r.0, r.1)) (span_host-bounded d b rest o))
  | inr e ↦ rw e refl
]

pub EndsOutside-tail : (x : ℕ) (b : Bytes) → EndsOutside (x ∷ b) → EndsOutside b
EndsOutside-tail x [] o = tt
EndsOutside-tail x (d ∷ b) o = o

pub span_host-EndsOutside : (s : Bytes) → EndsOutside s → EndsOutside (span_host s).1
unfolding span_host
span_host-EndsOutside [] o = tt
span_host-EndsOutside (c ∷ s) o = elim (Bool-cases (is_host_char c)) [
  | inl e ↦ rw e (span_host-EndsOutside s (EndsOutside-tail c s o))
  | inr e ↦ rw e o
]

pub host_char-IsTextByte : (c : ℕ) → is_host_char c ≡ true → IsTextByte c
unfolding is_host_char
host_char-IsTextByte c h = ground arith

pub IsHostRun-IsText : (s : Bytes) → IsHostRun s → IsText s
IsHostRun-IsText [] h = tt
IsHostRun-IsText (c ∷ s) h = (host_char-IsTextByte c h.0, IsHostRun-IsText s h.1)

pub trim_left-IsText : (s : Bytes) → IsText s → IsText (trim_left s)
unfolding trim_left
trim_left-IsText [] h = tt
trim_left-IsText (c ∷ s) h = elim (Bool-cases (is_edge c)) [
  | inl e ↦ rw e (trim_left-IsText s h.1)
  | inr e ↦ rw e h
]

pub push_left-IsText : (c : ℕ) (s : Bytes) → IsTextByte c → IsText s → IsText (push_left c s)
unfolding push_left
push_left-IsText c [] hc h = elim (Bool-cases (is_edge c)) [
  | inl e ↦ rw e tt
  | inr e ↦ rw e (hc, tt)
]
push_left-IsText c (x ∷ s) hc h = (hc, h)

pub trim_right-IsText : (s : Bytes) → IsText s → IsText (trim_right s)
unfolding trim_right
trim_right-IsText [] h = tt
trim_right-IsText (c ∷ s) h = push_left-IsText c (trim_right s) h.0 (trim_right-IsText s h.1)

pub trim_edges-IsText : (run : Bytes) → IsHostRun run → IsText (trim_edges run)
unfolding trim_edges
trim_edges-IsText run h = trim_right-IsText _ (trim_left-IsText run (IsHostRun-IsText run h))

pub trim_edges-nil : length (trim_edges []) ≡ 0
unfolding trim_edges trim_left trim_right
trim_edges-nil = refl

pub EndsOutside-append :
    (p : Bytes) (x : ℕ) (b : Bytes) → EndsOutside (x ∷ b) → EndsOutside (p ++ x ∷ b)
EndsOutside-append [] x b o = o
EndsOutside-append (c ∷ []) x b o = o
EndsOutside-append (c ∷ d ∷ p) x b o = EndsOutside-append (d ∷ p) x b o

pub EndsOutside-cons :
    (c : ℕ) (b : Bytes) → is_host_char c ≡ false → EndsOutside b → EndsOutside (c ∷ b)
EndsOutside-cons c [] e o = e
EndsOutside-cons c (d ∷ b) e o = o

-- A run of the text behind the first byte, if that is outside, is a run of the whole text.
pub RunAt-skip : (c : ℕ) (s run : Bytes) → is_host_char c ≡ false → RunAt s run → RunAt (c ∷ s) run
RunAt-skip c s run e at = record {
  before = c ∷ at.before;
  after = at.after;
  splits = ap (λ t. c ∷ t) at.splits;
  inside = at.inside;
  left_end = EndsOutside-cons c at.before e at.left_end;
  right_end = at.right_end;
}

pub no_run_outside :
    (run after : Bytes)
    → IsHostRun run
    → 1 ≤ length (trim_edges run)
    → StartsOutside (run ++ after)
    → ⊥
no_run_outside [] after h k o = omega (arith, trim_edges-nil)
no_run_outside (c ∷ run) after h k o = cc (h.0, o)

-- A run of the text behind a maximal run is a run of the whole text.
pub RunAt-behind :
    (text passed rest run : Bytes)
    → text ≡ passed ++ rest
    → StartsOutside rest
    → 1 ≤ length (trim_edges run)
    → RunAt rest run
    → RunAt text run
RunAt-behind text passed rest run e o k at = go at.before at.splits at.left_end
  where
    go : (b : Bytes) → rest ≡ b ++ (run ++ at.after) → EndsOutside b → RunAt text run
    go [] sp l = absurd (no_run_outside run at.after at.inside k (subst StartsOutside sp o))
    go (x ∷ b) sp l = record {
      before = passed ++ x ∷ b;
      after = at.after;
      splits = e ∙ ap (λ t. passed ++ t) sp ∙ sym (append_assoc passed (x ∷ b) (run ++ at.after));
      inside = at.inside;
      left_end = EndsOutside-append passed x b l;
      right_end = at.right_end;
    }

-- The first run of a text that begins inside one.
pub RunAt-front : (s : Bytes) → RunAt s (span_host s).0
RunAt-front s = record {
  before = [];
  after = (span_host s).1;
  splits = span_host-splits s;
  inside = span_host-run s;
  left_end = tt;
  right_end = span_host-stops s;
}
