-- ===== src/Approval/Effects.antt =====
-- What a decision may do, under `resolve_approval` of src/resolve.c.
use cclaw.Prelude.{ℕ, ◌≡◌, ◌≢◌, false, List, Option, none, some, Bytes, All, bytes_eq}
use cclaw.Store.Sessions.{session_get_agent_name}
use cclaw.Approval.{Approval, rerun, approval_is_sensitive}
use cclaw.Approval.Rows.{approval_resolve}
use cclaw.Approval.Gate.{Tables}
use cclaw.Approval.Flow.{
  ApprovalDecision, approval_always, is_approval, Effect, grant_applied, mode_silent, delivered,
  tool_result, Resolver,
}

module _ (r : Resolver) (decision : ApprovalDecision) (via : Option Bytes) where
  -- The row as the decision leaves it.
  abbrev pub decided_row : Tables → ℕ → Option Approval
  decided_row t id = (approval_resolve t.approvals id (is_approval decision) via).1

  -- What must hold for an effect: a grant is applied only by an approver who said always, for a row
  -- that was pending and asks for a grant; a tool is set to run unasked only by one who said always, for
  -- such a row that asks to run a call again on no labelled host, for the agent of its session.
  abbrev pub Justified : Tables → ℕ → Effect → Type 0
  Justified t id (grant_applied a) =
      (decided_row t id ≡ some a)
      × (decision ≡ approval_always)
      × (bytes_eq a.resolve rerun ≡ false)
  Justified t id (mode_silent agent tool) =
      (a : Approval) × (decided_row t id ≡ some a)
      × (decision ≡ approval_always)
      × (approval_is_sensitive (some a) ≡ false)
      × (tool ≡ a.tool_name)
      × (session_get_agent_name t.sessions a.session_id ≡ some agent)
  Justified t id (delivered a outcome) = decided_row t id ≡ some a
  Justified t id (tool_result is_error) =
      (a : Approval) × (decided_row t id ≡ some a) × (a.tool_call_id ≢ none)

module _ (r : Resolver) (via : Option Bytes) (t : Tables) (id : ℕ) where
  abbrev Just : ApprovalDecision → List Effect → Type 0
  Just decision effects = All (Justified r decision via t id) effects
