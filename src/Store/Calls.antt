-- ===== src/Store/Calls.antt =====
-- The rows of `tool_calls` and their status, of src/db.c. A call is claimed by the test of its
-- status in the statement that changes it.
use cclaw.Prelude.{
  ℕ, ◌≡◌, refl, ap, ap₂, and_false, Bool, true, false, ◌&&◌, List, [], ◌∷◌, Option, none, some,
  Bytes, bytes_eq, ltb, ◌==◌, All,
}
use cclaw.Store.{CallStatus, pending, running, finished, ToolCall}
use cclaw.Store.Sql.{
  update_where, count_where, exists_where, select_where, update_where-none,
  count_where-update_where, count_where-zero, zero-count_where, All-update_where,
}

abbrev pub is_pending : CallStatus → Bool
is_pending pending = true
is_pending _ = false

abbrev pub is_running : CallStatus → Bool
is_running running = true
is_running _ = false

-- `session_id=? AND call_id=?`
abbrev pub is_call : ℕ → Bytes → ToolCall → Bool
is_call session_id call_id t = t.session_id == session_id && bytes_eq t.call_id call_id

abbrev pub resolver : Option Bytes → Option Bytes → Option Bytes
resolver none old = old
resolver (some by) old = some by

-- A NULL `resolved_by` leaves the column alone. True is the C function's 0.
unfoldable pub db_tool_call_set_status :
    List ToolCall → ℕ → Bytes → CallStatus → Option Bytes → List ToolCall × Bool
unfolding update_where count_where
db_tool_call_set_status calls session_id call_id status resolved_by = (
  update_where (is_call session_id call_id)
      (λ t. record t { status = status; resolved_by = resolver resolved_by t.resolved_by }) calls,
  ltb 0 (count_where (is_call session_id call_id) calls),
)

abbrev pub can_claim : ℕ → Bytes → ToolCall → Bool
can_claim session_id call_id t = is_call session_id call_id t && is_pending t.status

abbrev pub can_unclaim : ℕ → Bytes → ToolCall → Bool
can_unclaim session_id call_id t = is_call session_id call_id t && is_running t.status

abbrev pub with_status : CallStatus → ToolCall → ToolCall
with_status status t = record t { status = status }

-- Whether this caller is the one that claimed the call.
unfoldable pub db_tool_call_claim : List ToolCall → ℕ → Bytes → List ToolCall × Bool
unfolding update_where count_where
db_tool_call_claim calls session_id call_id = (
  update_where (can_claim session_id call_id) (with_status running) calls,
  ltb 0 (count_where (can_claim session_id call_id) calls),
)

unfoldable pub db_tool_call_unclaim : List ToolCall → ℕ → Bytes → List ToolCall
unfolding update_where
db_tool_call_unclaim calls session_id call_id =
    update_where (can_unclaim session_id call_id) (with_status pending) calls

unfoldable pub db_tool_call_complete_by_call : List ToolCall → ℕ → Bytes → ℕ → List ToolCall × Bool
unfolding update_where count_where
db_tool_call_complete_by_call calls session_id call_id result_entry_id = (
  update_where (is_call session_id call_id)
      (λ t. record t { status = finished; result_entry_id = some result_entry_id }) calls,
  ltb 0 (count_where (is_call session_id call_id) calls),
)

unfoldable pub db_tool_call_any_running : List ToolCall → ℕ → Bool
unfolding exists_where
db_tool_call_any_running calls session_id =
    exists_where (λ t. t.session_id == session_id && is_running t.status) calls

-- The rows of `db_tool_call_get_pending`, less the columns it joins in from `entries`.
unfoldable pub db_tool_call_get_pending : List ToolCall → ℕ → List ToolCall
unfolding select_where
db_tool_call_get_pending calls session_id =
    select_where (λ t. t.session_id == session_id && is_pending t.status) calls

-- What another process may do between two claims of a call: anything to other calls, and to this
-- one anything that does not make it pending again.
pub data Between (session_id : ℕ) (call_id : Bytes) : Type 0 where
  claim : ℕ → Bytes → Between session_id call_id
  complete : ℕ → Bytes → ℕ → Between session_id call_id
  set_status :
      (s : ℕ) (c : Bytes) (status : CallStatus) (by : Option Bytes)
      → is_pending status ≡ false
      → Between session_id call_id

module _ (session_id : ℕ) (call_id : Bytes) where
  unfoldable pub after : List (Between session_id call_id) → List ToolCall → List ToolCall
  unfolding db_tool_call_claim db_tool_call_complete_by_call db_tool_call_set_status
  after [] calls = calls
  after (claim s c ∷ bs) calls = after bs (db_tool_call_claim calls s c).0
  after (complete s c e ∷ bs) calls = after bs (db_tool_call_complete_by_call calls s c e).0
  after (set_status s c status by _ ∷ bs) calls =
      after bs (db_tool_call_set_status calls s c status by).0

  abbrev Settled : ToolCall → Type 0
  Settled t = can_claim session_id call_id t ≡ false

  after-Settled :
      (bs : List (Between session_id call_id)) (calls : List ToolCall)
      → All Settled calls
      → All Settled (after bs calls)
  unfolding after db_tool_call_claim db_tool_call_complete_by_call db_tool_call_set_status
  after-Settled [] calls h = h
  after-Settled (claim s c ∷ bs) calls h =
      after-Settled bs (update_where (can_claim s c) (with_status running) calls) (
        All-update_where Settled (can_claim s c) (with_status running) calls
          (λ t _ _. and_false (is_call session_id call_id t) false refl) h)
  after-Settled (complete s c e ∷ bs) calls h = after-Settled bs _ (
      All-update_where Settled (is_call s c)
        (λ t. record t { status = finished; result_entry_id = some e }) calls
        (λ t _ _. and_false (is_call session_id call_id t) false refl) h)
  after-Settled (set_status s c status by np ∷ bs) calls h = after-Settled bs _ (
      All-update_where Settled (is_call s c)
        (λ t. record t { status = status; resolved_by = resolver by t.resolved_by }) calls
        (λ t _ _. and_false (is_call session_id call_id t) (is_pending status) np) h)

  -- A call is claimed once: after a claim, whatever the others then claim, complete or set to another
  -- status than pending, in whatever order, a second claim of the call fails and changes nothing.
  pub db_tool_call_claim-once :
      (calls : List ToolCall) (bs : List (Between session_id call_id))
      → db_tool_call_claim
          (after bs (db_tool_call_claim calls session_id call_id).0)
          session_id
          call_id
        ≡ (after bs (db_tool_call_claim calls session_id call_id).0, false)
  unfolding db_tool_call_claim
  db_tool_call_claim-once calls bs =
      let first = update_where (can_claim session_id call_id) (with_status running) calls in
      let settled : All Settled first = zero-count_where (can_claim session_id call_id) first (
        count_where-update_where (can_claim session_id call_id) (with_status running) calls
          (λ t _. and_false (is_call session_id call_id t) false refl)) in
      let none_left =
        count_where-zero (can_claim session_id call_id) (after bs first)
          (after-Settled bs first settled) in
      ap₂ (λ a b. (a, b))
        (update_where-none (can_claim session_id call_id) (with_status running) (after bs first)
          none_left)
        (ap (ltb 0) none_left)
