-- ===== src/Approval/Rows.antt =====
-- The statements of src/approval.c that insert, find and change a row.
use cclaw.Prelude.{
  ℕ, ◌+◌, Bool, ◌&&◌, List, [], ◌∷◌, ◌++◌, reverse, Option, none, some, if◌then◌else◌, Bytes, ltb,
  ◌==◌, map,
}
use cclaw.Store.Sql.{update_where, select_where, count_where, first_where}
use cclaw.Approval.{
  Approval, pending, approved, denied, consumed, is_pending, is_approved, has_id, same_text,
  or_text, approval_park_required, rerun,
}

-- `id` is the row id that SQLite gives, `now` the clock, `timeout` the value of
-- `approval_timeout_seconds`.
unfoldable pub approval_create :
    List Approval
    → (id now timeout session_id : ℕ)
    → (tool_call_id tool_name park_reason args_json resolve : Option Bytes) → List Approval
approval_create rows id now timeout session_id tool_call_id tool_name park_reason args_json
      resolve =
    rows
    ++ (record {
      id = id;
      session_id = session_id;
      tool_call_id = tool_call_id;
      tool_name = tool_name;
      park_reason = some (or_text park_reason approval_park_required);
      args_json = args_json;
      resolve = or_text resolve rerun;
      state = pending;
      decided_via = none;
      requested_at = now;
      expires_at = some (now + timeout);
    })
      ∷ []

-- `ORDER BY requested_at ASC, id ASC LIMIT 1` on rows in the order of their ids.
abbrev pub earlier : Approval → Option Approval → Option Approval
earlier a none = some a
earlier a (some b) = if ltb b.requested_at a.requested_at then some b else some a

unfoldable pub oldest : List Approval → Option Approval
oldest [] = none
oldest (a ∷ rows) = earlier a (oldest rows)

abbrev pub is_open_of : ℕ → Approval → Bool
is_open_of session_id a = a.session_id == session_id && is_pending a.state

unfoldable pub approval_get_pending : List Approval → ℕ → Option Approval
unfolding oldest select_where
approval_get_pending rows session_id = oldest (select_where (is_open_of session_id) rows)

abbrev pub is_for_call : ℕ → Bytes → Approval → Bool
is_for_call session_id tool_call_id a =
    a.session_id == session_id && same_text a.tool_call_id (some tool_call_id)

-- The newest row of the call.
unfoldable pub approval_get_for_tool_call : List Approval → ℕ → Option Bytes → Option Approval
unfolding first_where
approval_get_for_tool_call rows session_id none = none
approval_get_for_tool_call rows session_id (some tool_call_id) =
    first_where (is_for_call session_id tool_call_id) (reverse rows)

abbrev pub can_consume : ℕ → Approval → Bool
can_consume id a = has_id id a && is_approved a.state

abbrev pub spend : Approval → Approval
spend a = record a { state = consumed }

-- The rows, and whether exactly one was changed: the C function's 0.
unfoldable pub approval_consume : List Approval → ℕ → List Approval × Bool
unfolding update_where count_where
approval_consume rows id =
    (update_where (can_consume id) spend rows, count_where (can_consume id) rows == 1)

abbrev pub can_resolve : ℕ → Approval → Bool
can_resolve id a = has_id id a && is_pending a.state

abbrev pub decide : Bool → Option Bytes → Approval → Approval
decide grant via a = record a { state = if grant then approved else denied; decided_via = via }

-- The rows, and the row that was decided; `none` where none, or not one alone, was pending.
unfoldable pub approval_resolve :
    List Approval → ℕ → Bool → Option Bytes → List Approval × Option Approval
unfolding update_where count_where first_where
approval_resolve rows id grant via =
    let after = update_where (can_resolve id) (decide grant via) rows in
    (after, if count_where (can_resolve id) rows == 1 then first_where (has_id id) after else none)

-- The ids that `approval_pending_ids` lists, without their print in a buffer; its result is their
-- number.
unfoldable pub approval_pending_ids : List Approval → ℕ → List ℕ
unfolding select_where
approval_pending_ids rows session_id = map (λ a. a.id) (select_where (is_open_of session_id) rows)
