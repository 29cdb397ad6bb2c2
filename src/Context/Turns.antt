-- ===== src/Context/Turns.antt =====
-- The cuts of src/context.c fall between turns, and inside the plan.
use cclaw.Prelude.{
  ℕ, zero, suc, ◌≤◌, ◌<◌, ◌≡◌, ◌≢◌, ◌⊎◌, inl, inr, refl, List, [], ◌∷◌, leb, ◌==◌, length, arith,
  Bool-cases, not_leb,
}
use cclaw.Context.{
  PlanEntry, entry, snap_to_turn_start, cut_from, clamp, plan_find_cut, keep_loop,
  context_compaction_keep_from,
}

-- A cut at k leaves no turn on both its sides: the entries at k - 1 and at k are of two turns.
pub data AtTurnStart (entries : List PlanEntry) : ℕ → Type 0 where
  at_front : AtTurnStart entries 0
  between :
      (i : ℕ)
      → (entry entries (suc i)).turn_id ≢ (entry entries i).turn_id
      → AtTurnStart entries (suc i)

snap-AtTurnStart :
    (entries : List PlanEntry) (i : ℕ) → AtTurnStart entries (snap_to_turn_start entries i)
unfolding snap_to_turn_start
snap-AtTurnStart entries zero = at_front
snap-AtTurnStart entries (suc i) =
    elim (Bool-cases ((entry entries (suc i)).turn_id == (entry entries i).turn_id)) [
      | inl e ↦ rw e (snap-AtTurnStart entries i)
      | inr e ↦ rw e (between i (λ same. ground arith))
    ]

snap-le : (entries : List PlanEntry) (i : ℕ) → snap_to_turn_start entries i ≤ i
unfolding snap_to_turn_start
snap-le entries zero = omega arith
snap-le entries (suc i) = ground (arith, snap-le entries i)

clamp-lt : (count cut : ℕ) → 0 < count → clamp count cut < count
clamp-lt count cut h = ground arith

-- `plan_find_cut` of a plan that has entries is an index of one of them, at which a turn starts:
-- at least one entry is kept, and no turn is split.
pub plan_find_cut-AtTurnStart :
    (entries : List PlanEntry) (budget : ℕ)
    → 0 < length entries
    → (plan_find_cut entries budget < length entries)
      × AtTurnStart entries (plan_find_cut entries budget)
unfolding plan_find_cut
plan_find_cut-AtTurnStart [] budget h = absurd (omega arith)
plan_find_cut-AtTurnStart (e ∷ entries) budget h =
    let count = length (e ∷ entries) in
    let cut = clamp count (cut_from count (e ∷ entries) budget 0 count) in
    (
      omega (
        arith,
        snap-le (e ∷ entries) cut,
        clamp-lt count (cut_from count (e ∷ entries) budget 0 count) h,
      ),
      snap-AtTurnStart (e ∷ entries) cut,
    )

-- `context_compaction_keep_from` either keeps everything, with 0, or leaves at least two entries to
-- be summarized and at least one to be kept, and splits no turn.
pub context_compaction_keep_from-AtTurnStart :
    (entries : List PlanEntry) (target_tokens : ℕ)
    → (context_compaction_keep_from entries target_tokens ≡ 0)
      ⊎ ((2 ≤ context_compaction_keep_from entries target_tokens)
          × (context_compaction_keep_from entries target_tokens < length entries)
          × AtTurnStart entries (context_compaction_keep_from entries target_tokens))
unfolding context_compaction_keep_from
context_compaction_keep_from-AtTurnStart [] target_tokens = inl refl
context_compaction_keep_from-AtTurnStart (e ∷ entries) target_tokens =
    let count = length (e ∷ entries) in
    let loop = keep_loop (e ∷ entries) target_tokens 0 count in
    let cut = clamp count loop in
    elim (Bool-cases (leb (snap_to_turn_start (e ∷ entries) cut) 1)) [
      | inl c ↦ rw c (inl refl)
      | inr c ↦ rw c (
          inr (
            omega (arith, not_leb (snap_to_turn_start (e ∷ entries) cut) 1 c),
            omega (arith, snap-le (e ∷ entries) cut, clamp-lt count loop (omega arith)),
            snap-AtTurnStart (e ∷ entries) cut,
          ))
    ]
