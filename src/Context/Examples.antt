-- ===== src/Context/Examples.antt =====
-- Runs of the cuts of src/context.c on a plan of two turns.
use cclaw.Prelude.{ℕ, ◌≡◌, ◌≤◌, ◌<◌, ◌⊎◌, refl, List, [], ◌∷◌, length, arith}
use cclaw.Context.{
  Role, role_user, role_assistant, role_tool, PlanEntry, plan_find_cut,
  context_compaction_keep_from,
}
use cclaw.Context.Turns.{
  AtTurnStart, plan_find_cut-AtTurnStart, context_compaction_keep_from-AtTurnStart,
}

abbrev plain : Role → ℕ → PlanEntry
plain r turn = record { role = r; turn_id = turn; token_estimate = 10; tool_call_count = 1 }

abbrev two_turns : List PlanEntry
two_turns =
    plain role_user 1
    ∷ plain role_assistant 1
    ∷ plain role_user 2
    ∷ plain role_assistant 2
    ∷ plain role_tool 2
    ∷ []

-- the newest three entries fit, and a smaller budget still keeps their turn
cut-test : plan_find_cut two_turns 35 ≡ 2
unfolding plan_find_cut
cut-test = refl

small_cut-test : plan_find_cut two_turns 5 ≡ 2
unfolding plan_find_cut
small_cut-test = refl

plan_find_cut-AtTurnStart_example :
    (plan_find_cut two_turns 35 < length two_turns)
    × AtTurnStart two_turns (plan_find_cut two_turns 35)
plan_find_cut-AtTurnStart_example = plan_find_cut-AtTurnStart two_turns 35 (omega arith)

context_compaction_keep_from-AtTurnStart_example :
    (context_compaction_keep_from two_turns 35 ≡ 0)
    ⊎ ((2 ≤ context_compaction_keep_from two_turns 35)
        × (context_compaction_keep_from two_turns 35 < length two_turns)
        × AtTurnStart two_turns (context_compaction_keep_from two_turns 35))
context_compaction_keep_from-AtTurnStart_example =
    context_compaction_keep_from-AtTurnStart two_turns 35
