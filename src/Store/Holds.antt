-- ===== src/Store/Holds.antt =====
-- The quiesce lease of an agent, `agent_hold_*` of src/db.c: while it lasts no new turn opens for the
-- agent. `seconds` is positive, and so is every `hold_until` that is not NULL.
use cclaw.Prelude.{
  ℕ, ◌+◌, Bool, true, false, ◌&&◌, List, Option, none, some, if◌then◌else◌, Bytes, bytes_eq, ltb,
  ◌==◌,
}
use cclaw.Store.{Agent}
use cclaw.Store.Sql.{update_where, count_where}

abbrev pub is_agent : Bytes → Agent → Bool
is_agent name a = bytes_eq a.name name

-- `hold_until IS NULL OR hold_until < unixepoch()`
abbrev pub is_over : ℕ → Option ℕ → Bool
is_over now none = true
is_over now (some until) = ltb until now

abbrev pub is_holder : Bytes → Option Bytes → Bool
is_holder holder none = false
is_holder holder (some h) = bytes_eq h holder

abbrev pub can_acquire : Bytes → ℕ → Agent → Bool
can_acquire name now a = is_agent name a && is_over now a.hold_until

abbrev pub holds : Bytes → Bytes → Agent → Bool
holds name holder a = is_agent name a && is_holder holder a.hold_holder

-- The rows, and whether one was changed: the C functions' 0.
unfoldable pub agent_hold_acquire : List Agent → ℕ → Bytes → ℕ → Bytes → List Agent × Bool
unfolding update_where count_where
agent_hold_acquire agents now name seconds holder = if seconds == 0 then (agents, false) else (
  update_where (can_acquire name now)
      (λ a. record a { hold_until = some (now + seconds); hold_holder = some holder }) agents,
  ltb 0 (count_where (can_acquire name now) agents),
)

unfoldable pub agent_hold_refresh : List Agent → ℕ → Bytes → ℕ → Bytes → List Agent × Bool
unfolding update_where count_where
agent_hold_refresh agents now name seconds holder = if seconds == 0 then (agents, false) else (
  update_where (holds name holder) (λ a. record a { hold_until = some (now + seconds) }) agents,
  ltb 0 (count_where (holds name holder) agents),
)

unfoldable pub agent_hold_release : List Agent → Bytes → Bytes → List Agent × Bool
unfolding update_where count_where
agent_hold_release agents name holder = (
  update_where (holds name holder) (λ a. record a { hold_until = none; hold_holder = none }) agents,
  ltb 0 (count_where (holds name holder) agents),
)
