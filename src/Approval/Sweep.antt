-- ===== src/Approval/Sweep.antt =====
-- The sweeps over approvals, of src/sweep.c, and the deferred decision of src/resolve.c. The notice
-- that answers an unparked call, the wake-ups and `run_advance` are not part of it.
use cclaw.Prelude.{
  ℕ, Bool, false, ◌&&◌, List, [], ◌∷◌, ◌++◌, Option, none, some, if◌then◌else◌, Bytes, codes, take,
}
use cclaw.Store.{Session, ToolCall, Process, finished, tool_running}
use cclaw.Store.Sql.{first_where, exists_where}
use cclaw.Store.Sessions.{is_awaiting_approval, session_set_state}
use cclaw.Store.Sessions
use cclaw.Store.Calls.{is_call, is_pending, db_tool_call_set_status}
use cclaw.Approval.{Approval, has_id}
use cclaw.Approval
use cclaw.Approval.Gate.{Tables}
use cclaw.Approval.Due.{approval_list_expired, approval_list_block_due}
use cclaw.Approval.Flow.{ApprovalDecision, approval_deny, Effect, Resolver, resolve_approval}

-- The test of the invariant in the transaction: the approval, its session and its call all wait.
abbrev pub call_waits : List ToolCall → ℕ → Option Bytes → Bool
call_waits calls session_id none = false
call_waits calls session_id (some call_id) =
    exists_where (λ t. is_call session_id call_id t && is_pending t.status) calls

unfoldable pub is_parked : Tables → Approval → Bool
unfolding exists_where
is_parked t a =
    Approval.is_pending a.state
    && (exists_where (λ s. Sessions.has_id a.session_id s && is_awaiting_approval s.state)
          t.sessions
        && call_waits t.tool_calls a.session_id a.tool_call_id)

-- The commit, where both updates changed a row, and the rollback.
abbrev pub commit_if : Tables → List ToolCall × Bool → List Session × Bool → Tables
commit_if t (calls, answered) (sessions, moved) =
    if answered && moved then record t { sessions = sessions; tool_calls = calls } else t

abbrev pub call_text : Option Bytes → Bytes
call_text none = []
call_text (some call_id) = take 127 call_id

abbrev pub unpark_row : Resolver → Tables → Option Approval → Tables
unpark_row r t none = t
unpark_row r t (some a) =
    if is_parked t a
    then commit_if t
        (db_tool_call_set_status t.tool_calls a.session_id (call_text a.tool_call_id) finished
          (some (codes "block_window")))
        (session_set_state r.me r.now t.sessions a.session_id tool_running)
    else t

unfoldable pub approval_unpark_block_window : Resolver → Tables → ℕ → Tables
unfolding is_parked first_where
approval_unpark_block_window r t approval_id =
    unpark_row r t (first_where (has_id approval_id) t.approvals)

unfoldable pub unpark_all : Resolver → List ℕ → Tables → Tables
unfolding approval_unpark_block_window
unpark_all r [] t = t
unpark_all r (id ∷ ids) t = unpark_all r ids (approval_unpark_block_window r t id)

unfoldable pub approval_sweep_block_window : Resolver → List Process → ℕ → Tables → Tables
unfolding unpark_all approval_list_block_due
approval_sweep_block_window r processes block t =
    unpark_all r (approval_list_block_due t.approvals t.sessions processes r.now block r.me) t

unfoldable pub expire_all : Resolver → List ℕ → Tables → Tables × List Effect
unfolding resolve_approval
expire_all r [] t = (t, [])
expire_all r (id ∷ ids) t =
    let (u, effects) = resolve_approval r approval_deny (some (codes "auto:expired")) t id in
    let (v, later) = expire_all r ids u in (v, effects ++ later)

unfoldable pub approval_sweep_expired : Resolver → List Process → Tables → Tables × List Effect
unfolding expire_all approval_list_expired
approval_sweep_expired r processes t =
    expire_all r (approval_list_expired t.approvals t.sessions processes r.now r.me) t

-- `g_deferred`; an id of 0 is `none`.
pub record Deferred : Type 0 where
  pub id : ℕ
  pub decision : ApprovalDecision
  pub via : Bytes

abbrev pub approval_defer_decision : ℕ → ApprovalDecision → Bytes → Deferred
approval_defer_decision id decision via = record { id = id; decision = decision; via = take 23 via }

-- It is cleared before it is resolved.
unfoldable pub approval_flush_deferred :
    Resolver → Option Deferred → Tables → Option Deferred × (Tables × List Effect)
unfolding resolve_approval
approval_flush_deferred r none t = (none, (t, []))
approval_flush_deferred r (some d) t = (none, resolve_approval r d.decision (some d.via) t d.id)
