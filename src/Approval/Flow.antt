-- ===== src/Approval/Flow.antt =====
-- `resolve_approval` of src/resolve.c: what a decision does. Beside the tables it changes, what it
-- does elsewhere is a list of effects, in their order: the text of the messages is not part of it,
-- nor are the deadline `grant_expires_at` that `apply_grant` is given, and the wake-up and the
-- `run_advance` behind it.
use cclaw.Prelude.{
  ℕ, Bool, true, false, ◌&&◌, not, List, [], ◌∷◌, reverse, Option, none, some, if◌then◌else◌, Bytes,
  bytes_eq, codes,
}
use cclaw.Store.{Session, ToolCall, tool_running, finished}
use cclaw.Store.Sql.{first_where}
use cclaw.Store.Sessions.{has_id, is_awaiting_approval, session_set_state, session_get_agent_name}
use cclaw.Store.Calls.{is_call, is_pending, db_tool_call_set_status}
use cclaw.Approval.{Approval, same_text, rerun, approval_is_sensitive}
use cclaw.Approval.Rows.{approval_resolve, approval_consume}
use cclaw.Approval.Gate.{Tables}

pub data ApprovalDecision : Type 0 where
  approval_deny approval_once approval_always : ApprovalDecision

pub data ApprovalPostWindow : Type 0 where
  pw_rerun_approved pw_rerun_denied pw_apply_granted pw_apply_denied pw_apply_failed pw_expired :
      ApprovalPostWindow

-- `apply_grant`, the tool's mode set to silent, a notice in the inbox, and the call's tool result.
pub data Effect : Type 0 where
  grant_applied : Approval → Effect
  mode_silent : (agent : Bytes) (tool : Option Bytes) → Effect
  delivered : Approval → ApprovalPostWindow → Effect
  tool_result : (is_error : Bool) → Effect

abbrev pub is_approval : ApprovalDecision → Bool
is_approval approval_deny = false
is_approval _ = true

abbrev pub is_always : ApprovalDecision → Bool
is_always approval_always = true
is_always _ = false

abbrev pub is_apply : Approval → Bool
is_apply a = bytes_eq a.resolve (codes "apply")

abbrev pub is_expiry : Option Bytes → Bool
is_expiry via = same_text via (some (codes "auto:expired"))

abbrev pub waits_for : Option ToolCall → Option Session → Bool
waits_for (some c) (some s) = is_pending c.status && is_awaiting_approval s.state
waits_for _ _ = false

abbrev pub newest_call : List ToolCall → ℕ → Option Bytes → Option ToolCall
newest_call calls session_id none = none
newest_call calls session_id (some call_id) =
    first_where (is_call session_id call_id) (reverse calls)

unfoldable pub approval_is_post_window : Tables → ℕ → Option Bytes → Bool
unfolding first_where
approval_is_post_window t session_id tool_call_id = not (
    waits_for (newest_call t.tool_calls session_id tool_call_id)
      (first_where (has_id session_id) t.sessions))

-- The process's instance and clock, and whether `apply_grant` fails on a row.
pub record Resolver : Type 0 where
  pub me : Bytes
  pub now : ℕ
  pub apply_fails : Approval → Bool

module _ (r : Resolver) (decision : ApprovalDecision) (via : Option Bytes) where
  abbrev pub post_apply : Approval → List Effect
  post_apply a =
      if is_always decision
      then grant_applied a
        ∷ delivered a (if r.apply_fails a then pw_apply_failed else pw_apply_granted)
        ∷ []
      else delivered a (if is_expiry via then pw_expired else pw_apply_denied) ∷ []

  abbrev pub post_rerun : Approval → List Effect
  post_rerun a =
      delivered a (
        if is_approval decision
        then pw_rerun_approved
        else if is_expiry via
        then pw_expired
        else pw_rerun_denied)
      ∷ []

  unfoldable pub resolve_approval_post_window : Approval → List Effect
  resolve_approval_post_window a = if is_apply a then post_apply a else post_rerun a

  -- The tool result for the call, which is then done; nothing where the row has no call.
  abbrev pub result_for : Tables → Approval → Option Bytes → Bool → Tables × List Effect
  result_for t a none is_error = (t, [])
  result_for t a (some call_id) is_error = (
    record t {
      tool_calls = (db_tool_call_set_status t.tool_calls a.session_id call_id finished via).0;
    },
    tool_result is_error ∷ [],
  )

  abbrev pub silence : Approval → Option Bytes → List Effect
  silence a none = []
  silence a (some agent) =
      if approval_is_sensitive (some a) then [] else mode_silent agent a.tool_name ∷ []

  abbrev pub rerun_result : Tables → Approval → ApprovalDecision → Tables × List Effect
  rerun_result t a approval_deny = result_for t a a.tool_call_id true
  rerun_result t a approval_once = (t, [])
  rerun_result t a approval_always = (t, silence a (session_get_agent_name t.sessions a.session_id))

  abbrev pub apply_result : Tables → Approval → ApprovalDecision → Tables × List Effect
  apply_result t a approval_deny = result_for t a a.tool_call_id true
  apply_result t a approval_once = result_for t a a.tool_call_id true
  apply_result t a approval_always =
      let (u, effects) = result_for t a a.tool_call_id (r.apply_fails a) in
      (u, grant_applied a ∷ effects)

  -- The turn goes on.
  abbrev pub resume : Approval → Tables × List Effect → Tables × List Effect
  resume a (t, effects) = (
    record t { sessions = (session_set_state r.me r.now t.sessions a.session_id tool_running).0 },
    effects,
  )

  abbrev pub in_window : Tables → Approval → Tables × List Effect
  in_window t a =
      resume a
        (if bytes_eq a.resolve rerun then rerun_result t a decision else apply_result t a decision)

  abbrev pub spend_up_front : Tables → Approval → Tables
  spend_up_front t a =
      if is_approval decision && is_apply a
      then record t { approvals = (approval_consume t.approvals a.id).0 }
      else t

  abbrev pub resolved : Tables → Option Approval → Tables × List Effect
  resolved t none = (t, [])
  resolved t (some a) =
      let u = spend_up_front t a in
      if approval_is_post_window u a.session_id a.tool_call_id
      then (u, resolve_approval_post_window a)
      else in_window u a

  unfoldable pub resolve_approval : Tables → ℕ → Tables × List Effect
  unfolding approval_is_post_window resolve_approval_post_window
  resolve_approval t id =
      let (rows, found) = approval_resolve t.approvals id (is_approval decision) via in
      resolved (record t { approvals = rows }) found
