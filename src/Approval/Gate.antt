-- ===== src/Approval/Gate.antt =====
-- The gate in front of a tool call, `dispatch_gate` of src/dispatch.c. What its tests of the grants,
-- the filter, the policy, the hooks, the labels and the secrets answer are the fields of Facts; a
-- call that asks goes to the table of approvals. The prompt to the approver and the texts of answers are
-- not part of it.
use cclaw.Prelude.{
  ℕ, Bool, false, not, List, Option, none, some, if◌then◌else◌, Bytes, ltb, leb, ◌==◌, ◌&&◌, length,
  codes,
}
use cclaw.Store.{Session, ToolCall, SessionState, finished, awaiting_approval, tool_running}
use cclaw.Store.Sessions.{session_set_state}
use cclaw.Store.Calls.{db_tool_call_set_status}
use cclaw.Approval.{
  Approval, ApprovalState, pending, approved, denied, consumed, approval_park_required,
  approval_park_sensitive, rerun, is_pending,
}
use cclaw.Approval.Rows.{
  approval_create, approval_get_for_tool_call, approval_consume, approval_pending_ids,
}
use cclaw.Approval.Tickets.{JsonTree, Request, approval_take_ticket, approval_find_pending_match}

pub data HookGate : Type 0 where
  gate_allow gate_ask gate_deny : HookGate

pub data PolicyEffect : Type 0 where
  policy_allow policy_deny policy_ask policy_error : PolicyEffect

abbrev pub rank : HookGate → ℕ
rank gate_allow = 0
rank gate_ask = 1
rank gate_deny = 2

-- `if (h > gate) gate = h`
abbrev pub raise : HookGate → HookGate → HookGate
raise h gate = if ltb (rank gate) (rank h) then h else gate

-- The call, and what the tests find: `granted`, `allowed` and `valid` for the tool and its arguments,
-- `silent` its mode, `policy` allow where it has none, `hook` for the gating hooks, `sensitive` for a
-- labelled host in the arguments, `bound` that every secret used is bound to where it goes.
pub record Facts : Type 0 where
  pub session_id : ℕ
  pub call_id : Bytes
  pub name : Bytes
  pub arguments : Bytes
  pub granted : Bool
  pub allowed : Bool
  pub valid : Bool
  pub silent : Bool
  pub policy : PolicyEffect
  pub hook : HookGate
  pub sensitive : Bool
  pub bound : Bool

-- The process: its instance, the clock, the approvals' deadline and number, the next row's id, whether
-- it is the daemon, and `approval_block_seconds_for_session` of the session.
pub record Setting : Type 0 where
  pub me : Bytes
  pub now : ℕ
  pub timeout : ℕ
  pub max_pending : ℕ
  pub next_id : ℕ
  pub daemon : Bool
  pub block_seconds : ℕ

pub record Tables : Type 0 where
  pub approvals : List Approval
  pub sessions : List Session
  pub tool_calls : List ToolCall

-- `answered` is the C function's 1 with what it writes for the call, `parked` its 2, `go` its 0.
pub data Verdict : Type 0 where
  answered : (detail : Bytes) → Verdict
  parked : Verdict
  go : (sens_once : Bool) → Verdict

pub data Check : Type 0 where
  refuse : (detail : Bytes) → Check
  ask let_go : Check

-- The three tests behind the policy, with the gate it leaves.
abbrev pub after_policy : Facts → HookGate → Check
after_policy f gate = elim (raise f.hook gate) [
  | gate_deny ↦ refuse (codes "hook:deny")
  | gate_ask ↦ if f.bound then ask else refuse (codes "secret:unbound")
  | gate_allow ↦
      if f.bound then (if f.sensitive then ask else let_go) else refuse (codes "secret:unbound")
]

abbrev pub mode_gate : Facts → HookGate
mode_gate f = if f.silent then gate_allow else gate_ask

abbrev pub policy_check : Facts → PolicyEffect → Check
policy_check f policy_error = refuse (codes "policy:error")
policy_check f policy_deny = refuse (codes "policy:deny")
policy_check f policy_ask = after_policy f gate_ask
policy_check f policy_allow = after_policy f (mode_gate f)

unfoldable pub gate_check : Facts → Check
gate_check f =
    if not f.granted
    then refuse (codes "not_granted")
    else if not f.allowed
    then refuse (codes "tool_filter")
    else if not f.valid
    then refuse (codes "bad_args")
    else policy_check f f.policy

abbrev pub answer : Tables → Facts → Bytes → Tables × Verdict
answer t f detail = (
  record t {
    tool_calls =
        (db_tool_call_set_status t.tool_calls f.session_id f.call_id finished (some detail)).0;
  },
  answered detail,
)

-- The session is set to another state.
abbrev pub in_state : Tables → Setting → Facts → SessionState → Tables
in_state t s f to = record t {
  sessions = (session_set_state s.me s.now t.sessions f.session_id to).0;
}

-- The call is answered with a notice where its approval is still pending, and the turn goes on.
abbrev pub in_background : Tables → Setting → Facts → Option Approval → Tables × Verdict
in_background t s f none = (t, parked)
in_background t s f (some bg) =
    if is_pending bg.state
    then answer (in_state t s f tool_running) f (codes "approval:background")
    else (t, parked)

-- The turn is frozen; a daemon with a block window of zero seconds does not leave it so.
abbrev pub park : Tables → Setting → Facts → Tables × Verdict
park t s f =
    if s.daemon && s.block_seconds == 0
    then in_background (in_state t s f awaiting_approval) s f
        (approval_get_for_tool_call t.approvals f.session_id (some f.call_id))
    else (in_state t s f awaiting_approval, parked)

abbrev pub park_why : Facts → Bytes
park_why f = if f.sensitive then approval_park_sensitive else approval_park_required

abbrev pub request_of : Facts → Request
request_of f = record {
  session_id = f.session_id;
  park_reason = some (park_why f);
  tool_name = some f.name;
  args_json = some f.arguments;
}

abbrev pub create_and_park : Tables → Setting → Facts → Tables × Verdict
create_and_park t s f =
    park
      (record t {
        approvals =
            approval_create t.approvals s.next_id s.now s.timeout f.session_id (some f.call_id)
              (some f.name) (some (park_why f)) (some f.arguments) (some rerun);
      })
      s f

abbrev pub ask_dup : Tables → Setting → Facts → Option ℕ → Tables × Verdict
ask_dup t s f (some dup) = answer t f (codes "approval:dup")
ask_dup t s f none =
    if leb s.max_pending (length (approval_pending_ids t.approvals f.session_id))
    then answer t f (codes "approval:cap")
    else create_and_park t s f

module _ (j : JsonTree) where
  -- The call has no row, or one that was spent; the ticket, if any, was taken from the table.
  abbrev pub ask_ticket : Tables → Setting → Facts → List Approval × Option ℕ → Tables × Verdict
  ask_ticket t s f (rows, some ticket) = (record t { approvals = rows }, go f.sensitive)
  ask_ticket t s f (rows, none) =
      ask_dup (record t { approvals = rows }) s f
        (approval_find_pending_match j rows (request_of f))

  abbrev pub try_ticket : Tables → Setting → Facts → List Approval × Option ℕ
  try_ticket t s f =
      if f.sensitive
      then (t.approvals, none)
      else approval_take_ticket j t.approvals s.now (request_of f)

  abbrev pub ask_state : Tables → Setting → Facts → ℕ → ApprovalState → Tables × Verdict
  ask_state t s f id denied = answer t f (codes "denied")
  ask_state t s f id approved =
      (record t { approvals = (approval_consume t.approvals id).0 }, go f.sensitive)
  ask_state t s f id pending = park t s f
  ask_state t s f id consumed = ask_ticket t s f (try_ticket t s f)

  abbrev pub ask_row : Tables → Setting → Facts → Option Approval → Tables × Verdict
  ask_row t s f none = ask_ticket t s f (try_ticket t s f)
  ask_row t s f (some a) = ask_state t s f a.id a.state

  abbrev pub at_check : Tables → Setting → Facts → Check → Tables × Verdict
  at_check t s f (refuse detail) = answer t f detail
  at_check t s f ask =
      ask_row t s f (approval_get_for_tool_call t.approvals f.session_id (some f.call_id))
  at_check t s f let_go = (t, go false)

  unfoldable pub dispatch_gate : Tables → Setting → Facts → Tables × Verdict
  unfolding gate_check
  dispatch_gate t s f = at_check t s f (gate_check f)
