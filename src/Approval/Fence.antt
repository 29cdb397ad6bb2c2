-- ===== src/Approval/Fence.antt =====
-- `append_fence_escaped` of src/approval.c: text that a model wrote, put in a fenced block.
use cclaw.Prelude.{
  ℕ, ◌+◌, ◌≤◌, ◌≡◌, refl, sym, ap, subst, true, ==_iff, [], ◌∷◌, if◌then◌else◌, Bytes, ◌==◌,
  Bool-cases, inl, inr, arith,
}

abbrev pub backtick : ℕ
backtick = 96

abbrev pub space : ℕ
space = 32

-- `run` is the number of backticks just written, 0, 1 or 2.
unfoldable pub fence_from : ℕ → Bytes → Bytes
fence_from run [] = []
fence_from run (c ∷ s) =
    let plain = fence_from 0 s in
    let longer = fence_from (run + 1) s in
    let fresh = fence_from 1 s in
    if c == backtick then (if run == 2 then space ∷ c ∷ fresh else c ∷ longer) else c ∷ plain

unfoldable pub append_fence_escaped : Bytes → Bytes → Bytes
unfolding fence_from
append_fence_escaped [] s = fence_from 0 s
append_fence_escaped (c ∷ out) s = let rest = append_fence_escaped out s in c ∷ rest

-- No more than two backticks in a row, with `run` of them just before.
abbrev pub HasNoFence : ℕ → Bytes → Type 0
HasNoFence run [] = run ≤ 2
HasNoFence run (c ∷ s) =
    let next = HasNoFence (run + 1) s in
    let again = HasNoFence 0 s in (run ≤ 2) × (if c == backtick then next else again)

split_run :
    (run c : ℕ) (s : Bytes)
    → run ≤ 2
    → (c == backtick) ≡ true
    → HasNoFence 1 (fence_from 1 s)
    → HasNoFence run (space ∷ c ∷ fence_from 1 s)
split_run run c s h e k = (h, (omega arith, rw e k))

fence_from-HasNoFence : (run : ℕ) (s : Bytes) → run ≤ 2 → HasNoFence run (fence_from run s)
unfolding fence_from
fence_from-HasNoFence run [] h = h
fence_from-HasNoFence run (c ∷ s) h = elim (Bool-cases (c == backtick)) [
  | inr e ↦ rw (e, e) (h, fence_from-HasNoFence 0 s (omega arith))
  | inl e ↦ elim (Bool-cases (run == 2)) [
    | inl r ↦ rw (e, r) (split_run run c s h e (fence_from-HasNoFence 1 s (omega arith)))
    | inr r ↦ rw (e, r, e) (h, fence_from-HasNoFence (run + 1) s (ground arith))
  ]
]

-- The second text is the first with spaces put in, in front of backticks only.
pub data Spaced : Bytes → Bytes → Type 0 where
  end : Spaced [] []
  same : (c : ℕ) (s t : Bytes) → Spaced s t → Spaced (c ∷ s) (c ∷ t)
  space_before : (s t : Bytes) → Spaced s t → Spaced (backtick ∷ s) (space ∷ backtick ∷ t)

fence_from-Spaced : (run : ℕ) (s : Bytes) → Spaced s (fence_from run s)
unfolding fence_from
fence_from-Spaced run [] = end
fence_from-Spaced run (c ∷ s) = elim (Bool-cases (c == backtick)) [
  | inr e ↦ rw e (same c s _ (fence_from-Spaced 0 s))
  | inl e ↦ elim (Bool-cases (run == 2)) [
    | inl r ↦
        rw (e, r)
          (subst (λ b. Spaced (b ∷ s) (space ∷ b ∷ fence_from 1 s)) (sym ((==_iff c backtick).0 e))
            (space_before s _ (fence_from-Spaced 1 s)))
    | inr r ↦ rw (e, r) (same c s _ (fence_from-Spaced (run + 1) s))
  ]
]

HasNoFence-le : (run : ℕ) (s : Bytes) → HasNoFence run s → run ≤ 2
HasNoFence-le run [] h = h
HasNoFence-le run (c ∷ s) h = h.0

fence_from-plain : (run : ℕ) (s : Bytes) → HasNoFence run s → fence_from run s ≡ s
unfolding fence_from
fence_from-plain run [] h = refl
fence_from-plain run (c ∷ s) h = elim (Bool-cases (c == backtick)) [
  | inr e ↦ rw e (ap (λ t. c ∷ t) (fence_from-plain 0 s (rw e at h.1)))
  | inl e ↦
      let later : HasNoFence (run + 1) s = rw e at h.1 in
      elim (Bool-cases (run == 2)) [
        | inl r ↦ absurd (omega (arith, HasNoFence-le (run + 1) s later, (==_iff run 2).0 r))
        | inr r ↦ rw (e, r) (ap (λ t. c ∷ t) (fence_from-plain (run + 1) s later))
      ]
]

-- Text that is escaped for a fenced block holds no three backticks in a row, so it cannot close the
-- block; it is the text with nothing changed but spaces put in front of backticks, and a text that
-- holds no three of them is left as it is.
pub append_fence_escaped-HasNoFence :
    (s : Bytes)
    → HasNoFence 0 (append_fence_escaped [] s)
      × Spaced s (append_fence_escaped [] s)
      × (HasNoFence 0 s → append_fence_escaped [] s ≡ s)
unfolding append_fence_escaped
append_fence_escaped-HasNoFence s =
    (fence_from-HasNoFence 0 s (omega arith), fence_from-Spaced 0 s, fence_from-plain 0 s)
