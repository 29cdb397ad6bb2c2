-- ===== src/Context.antt =====
-- src/context.c: where a session's history is cut. `plan_find_cut` finds the oldest entry that fits
-- the budget, `context_compaction_keep_from` the first that a compaction keeps; both step back to
-- the start of a turn. The counts and budgets are not negative, and their sums not cut.
pub mod Turns
mod Examples
use cclaw.Prelude.{
  ℕ, zero, suc, ◌+◌, ◌-◌, ◌<◌, Bool, true, false, ◌&&◌, List, [], ◌∷◌, Option, none, some, ltb, leb,
  ◌==◌, if◌then◌else◌, length, get_elem?,
}

pub data Role : Type 0 where
  role_system role_user role_assistant role_tool role_compaction : Role

-- The fields that the cut reads.
pub record PlanEntry : Type 0 where
  pub role : Role
  pub turn_id : ℕ
  pub token_estimate : ℕ
  pub tool_call_count : ℕ

abbrev pub no_entry : PlanEntry
no_entry = record { role = role_system; turn_id = 0; token_estimate = 0; tool_call_count = 0 }

-- `entries[i]`; no index below is out of range.
abbrev pub entry : List PlanEntry → ℕ → PlanEntry
entry [] i = no_entry
entry (e ∷ entries) zero = e
entry (e ∷ entries) (suc i) = entry entries i

abbrev pub is_tool : Role → Bool
is_tool role_tool = true
is_tool _ = false

abbrev pub is_assistant : Role → Bool
is_assistant role_assistant = true
is_assistant _ = false

unfoldable pub snap_to_turn_start : List PlanEntry → ℕ → ℕ
snap_to_turn_start entries zero = zero
snap_to_turn_start entries (suc i) =
    let earlier = snap_to_turn_start entries i in
    if (entry entries (suc i)).turn_id == (entry entries i).turn_id then earlier else suc i

-- Backwards past the tool results in front of `group_start`.
unfoldable pub past_tools : List PlanEntry → ℕ → ℕ
past_tools entries zero = zero
past_tools entries (suc g) =
    let earlier = past_tools entries g in if is_tool (entry entries g).role then earlier else suc g

-- The assistant entry that made the calls, if it stands in front.
unfoldable pub past_owner : List PlanEntry → ℕ → ℕ
past_owner entries zero = zero
past_owner entries (suc g) =
    if is_assistant (entry entries g).role && ltb 0 (entry entries g).tool_call_count
    then g
    else suc g

unfoldable pub group_start : List PlanEntry → ℕ → ℕ
unfolding past_tools past_owner
group_start entries i =
    if is_tool (entry entries i).role then past_owner entries (past_tools entries i) else i

-- The tokens of n entries from index j on.
unfoldable pub group_tokens : List PlanEntry → ℕ → ℕ → ℕ
group_tokens entries j zero = 0
group_tokens entries j (suc n) = (entry entries j).token_estimate + group_tokens entries (suc j) n

-- The loop, with i + 1 as its counter: 0 where all fits. A group starts at i or before, so the
-- counter shrinks and is fuel enough.
unfoldable pub cut_from : ℕ → List PlanEntry → ℕ → ℕ → ℕ → ℕ
unfolding group_start group_tokens
cut_from zero entries budget total n = 0
cut_from (suc fuel) entries budget total zero = 0
cut_from (suc fuel) entries budget total (suc i) =
    let start = group_start entries i in
    let sum = total + group_tokens entries start (i + 1 - start) in
    let rest = cut_from fuel entries budget sum start in if ltb budget sum then i + 1 else rest

-- `if (cut >= count) cut = count - 1;`
abbrev pub clamp : ℕ → ℕ → ℕ
clamp count cut = if leb count cut then count - 1 else cut

unfoldable pub plan_find_cut : List PlanEntry → ℕ → ℕ
unfolding cut_from snap_to_turn_start
plan_find_cut [] budget = 0
plan_find_cut (e ∷ entries) budget =
    let count = length (e ∷ entries) in
    snap_to_turn_start (e ∷ entries) (clamp count (cut_from count (e ∷ entries) budget 0 count))

unfoldable pub keep_loop : List PlanEntry → ℕ → ℕ → ℕ → ℕ
keep_loop entries target_tokens cumulative zero = 0
keep_loop entries target_tokens cumulative (suc i) =
    let sum = cumulative + (entry entries i).token_estimate in
    let rest = keep_loop entries target_tokens sum i in
    if ltb target_tokens sum then i + 1 else rest

-- A NULL plan is one with no entry.
unfoldable pub context_compaction_keep_from : List PlanEntry → ℕ → ℕ
unfolding keep_loop snap_to_turn_start
context_compaction_keep_from [] target_tokens = 0
context_compaction_keep_from (e ∷ entries) target_tokens =
    let count = length (e ∷ entries) in
    let keep_from =
      snap_to_turn_start (e ∷ entries)
        (clamp count (keep_loop (e ∷ entries) target_tokens 0 count)) in
    if leb keep_from 1 then 0 else keep_from
