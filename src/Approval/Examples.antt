-- ===== src/Approval/Examples.antt =====
-- Runs of src/approval.c, of the gate of src/dispatch.c and of src/resolve.c on a small table.
use cclaw.Prelude.{
  ◌&&◌, ◌==◌, ◌≡◌, ◌≢◌, ◌≤◌, refl, true, false, List, [], ◌∷◌, none, some, codes, Bytes, bytes_eq,
  arith, max,
}
use cclaw.Prelude.Int.{pos}
use cclaw.Store.{Session, SessionState, awaiting_approval, tool_running, ToolCall, CallStatus}
use cclaw.Store
use cclaw.Store.Sql.{first_where, count_where}
use cclaw.Store.Sessions
use cclaw.Store.Sessions.{session_get_agent_name}
use cclaw.Approval.{Approval, pending, approved, denied, has_id, approval_park_required, rerun}
use cclaw.Approval.Rows.{
  approval_create, approval_resolve, approval_get_for_tool_call, approval_pending_ids,
}
use cclaw.Approval.Tickets.{JsonTree, Request, approval_find_pending_match, approval_take_ticket}
use cclaw.Approval.Decisions.{ApprovalCall, resolve, consume, run, Became, run-Follows}
use cclaw.Approval.Spent.{approval_take_ticket-once}
use cclaw.Approval.Gate.{
  Facts, Setting, Tables, gate_allow, policy_allow, dispatch_gate, go, parked, answered,
}
use cclaw.Approval.Authority.{Cleared, Authority, dispatch_gate-Authority}
use cclaw.Approval.Parked.{HasOpen, dispatch_gate-HasOpen}
use cclaw.Approval.Bound.{open_number, dispatch_gate-number}
use cclaw.Approval.Due.{approval_list_expired, approval_block_seconds}
use cclaw.Approval.Fence.{HasNoFence, append_fence_escaped, Spaced, append_fence_escaped-HasNoFence}
use cclaw.Approval.Flow.{
  approval_always, approval_deny, Resolver, resolve_approval, mode_silent, approval_is_post_window,
}
use cclaw.Approval.Effects.{decided_row}
use cclaw.Approval.Settled.{TurnAfter, resolve_approval-once, resolve_approval-TurnAfter}

-- Documents that are equal to the letter only.
abbrev texts : JsonTree
texts = record { Node = Bytes; node_eq = bytes_eq; json_tree = λ s. some (s ∷ []) }

abbrev waiting : Approval
waiting = record {
  id = 1;
  session_id = 7;
  tool_call_id = some (codes "c1");
  tool_name = some (codes "shell");
  park_reason = some approval_park_required;
  args_json = some (codes "{}");
  resolve = rerun;
  state = pending;
  decided_via = none;
  requested_at = 100;
  expires_at = some 400;
}

-- A yes that came too late for its own call.
abbrev late : Approval
late = record waiting {
  id = 2;
  tool_call_id = some (codes "c0");
  state = approved;
  decided_via = some (codes "cli");
}

abbrev rows : List Approval
rows = waiting ∷ late ∷ []

abbrev some_calls : List ApprovalCall
some_calls = resolve 1 true (some (codes "cli")) ∷ consume 1 ∷ resolve 1 false none ∷ []

first_row : first_where (has_id 1) rows ≡ some waiting
unfolding first_where
first_row = refl

run-Follows_example : Became 1 waiting (run texts some_calls rows)
run-Follows_example = run-Follows texts some_calls rows 1 waiting first_row

abbrev same_request : Request
same_request = record {
  session_id = 7;
  park_reason = some approval_park_required;
  tool_name = some (codes "shell");
  args_json = some (codes "{}");
}

one_row : count_where (has_id 2) rows ≤ 1
unfolding count_where
one_row = omega arith

taken-test : (approval_take_ticket texts rows 200 same_request).1 ≡ some 2
unfolding approval_take_ticket
taken-test = refl

-- an approval that has expired is no ticket
expired-test : (approval_take_ticket texts rows 400 same_request).1 ≡ none
unfolding approval_take_ticket
expired-test = refl

approval_take_ticket-once_example :
    (approval_take_ticket texts
      (run texts some_calls (approval_take_ticket texts rows 200 same_request).0)
      210
      same_request).1
    ≢ some 2
approval_take_ticket-once_example =
    approval_take_ticket-once 2 texts rows 200 same_request some_calls 210 same_request one_row
      taken-test (tt, (tt, (tt, tt)))

abbrev parked_session : Session
parked_session = record {
  id = 7;
  name = none;
  agent_name = some (codes "ada");
  channel_name = none;
  chat_id = none;
  parent_session_id = none;
  depth = 0;
  state = awaiting_approval;
  owner_instance = some (codes "p1");
  turn_iteration = 1;
  updated_at = 100;
}

abbrev frozen_call : ToolCall
frozen_call = record {
  session_id = 7;
  call_id = codes "c1";
  name = codes "shell";
  status = Store.pending;
  resolved_by = none;
  result_entry_id = none;
}

abbrev tables : Tables
tables = record { approvals = rows; sessions = parked_session ∷ []; tool_calls = frozen_call ∷ [] }

abbrev setting : Setting
setting = record {
  me = codes "p1";
  now = 200;
  timeout = 300;
  max_pending = 3;
  next_id = 3;
  daemon = true;
  block_seconds = 60;
}

-- A new call for what was approved late.
abbrev facts : Facts
facts = record {
  session_id = 7;
  call_id = codes "c9";
  name = codes "shell";
  arguments = codes "{}";
  granted = true;
  allowed = true;
  valid = true;
  silent = false;
  policy = policy_allow;
  hook = gate_allow;
  sensitive = false;
  bound = true;
}

goes-test : (dispatch_gate texts tables setting facts).1 ≡ go false
unfolding dispatch_gate approval_get_for_tool_call approval_take_ticket
goes-test = refl

dispatch_gate-Authority_example :
    Cleared facts
    × Authority texts tables setting facts (dispatch_gate texts tables setting facts).0 false
dispatch_gate-Authority_example = dispatch_gate-Authority texts tables setting facts false goes-test

-- The same, where a labelled host is in the arguments: the ticket does not cover it.
abbrev sensitive_facts : Facts
sensitive_facts = record facts { sensitive = true }

parks-test : (dispatch_gate texts tables setting sensitive_facts).1 ≡ parked
unfolding dispatch_gate approval_get_for_tool_call approval_find_pending_match approval_pending_ids
parks-test = refl

dispatch_gate-HasOpen_example :
    HasOpen 7 (dispatch_gate texts tables setting sensitive_facts).0.approvals
    × ((setting.daemon && setting.block_seconds == 0) ≡ false)
dispatch_gate-HasOpen_example =
    dispatch_gate-HasOpen texts tables setting sensitive_facts parks-test

dispatch_gate-number_example :
    open_number 7 (dispatch_gate texts tables setting sensitive_facts).0.approvals
    ≤ max (open_number 7 tables.approvals) 3
dispatch_gate-number_example = dispatch_gate-number texts tables setting sensitive_facts

-- With no block window the call is answered at once, its approval still pending.
background-test :
    (dispatch_gate texts tables (record setting { block_seconds = 0 }) sensitive_facts).1
    ≡ answered (codes "approval:background")
unfolding dispatch_gate approval_get_for_tool_call approval_find_pending_match approval_pending_ids
    approval_create
background-test = refl

denied-test :
    (dispatch_gate texts tables setting (record facts { granted = false })).1
    ≡ answered (codes "not_granted")
unfolding dispatch_gate
denied-test = refl

abbrev resolver : Resolver
resolver = record { me = codes "p1"; now = 210; apply_fails = λ a. false }

silent-test :
    (resolve_approval resolver approval_always (some (codes "cli")) tables 1).1
    ≡ mode_silent (codes "ada") (some (codes "shell")) ∷ []
unfolding resolve_approval approval_resolve session_get_agent_name
silent-test = refl

-- where a labelled host is meant, always is once
sensitive-test :
    (resolve_approval resolver approval_always
      (some (codes "cli"))
      (record tables {
        approvals = (record waiting { park_reason = some (codes "sensitive_target") }) ∷ [];
      })
      1).1
    ≡ []
unfolding resolve_approval approval_resolve session_get_agent_name
sensitive-test = refl

resolve_approval-once_example :
    resolve_approval resolver approval_deny none
      (record tables {
        approvals =
            run texts some_calls
              (resolve_approval resolver approval_always none tables 1).0.approvals;
      })
      1
    ≡ (
      record tables {
        approvals =
            run texts some_calls
              (resolve_approval resolver approval_always none tables 1).0.approvals;
      },
      [],
    )
resolve_approval-once_example =
    resolve_approval-once texts resolver resolver approval_always approval_deny none none tables
      (record tables {
        approvals =
            run texts some_calls
              (resolve_approval resolver approval_always none tables 1).0.approvals;
      })
      1 some_calls (tt, (tt, (tt, tt))) refl

decided-test :
    decided_row resolver approval_deny none tables 1 ≡ some (record waiting { state = denied })
unfolding approval_resolve
decided-test = refl

session-test : first_where (Sessions.has_id 7) tables.sessions ≡ some parked_session
unfolding first_where
session-test = refl

in_time-test : approval_is_post_window tables 7 (some (codes "c1")) ≡ false
unfolding approval_is_post_window
in_time-test = refl

resolve_approval-TurnAfter_example :
    TurnAfter false 7 tables (resolve_approval resolver approval_deny none tables 1).0
resolve_approval-TurnAfter_example =
    resolve_approval-TurnAfter resolver approval_deny none tables 1
      (record waiting { state = denied }) parked_session false decided-test session-test
      in_time-test

append_fence_escaped-HasNoFence_example :
    HasNoFence 0 (append_fence_escaped [] (codes "a````b"))
    × Spaced (codes "a````b") (append_fence_escaped [] (codes "a````b"))
    × (HasNoFence 0 (codes "a````b") → append_fence_escaped [] (codes "a````b") ≡ codes "a````b")
append_fence_escaped-HasNoFence_example = append_fence_escaped-HasNoFence (codes "a````b")

fence-test : append_fence_escaped [] (codes "a````b") ≡ codes "a`` ``b"
unfolding append_fence_escaped
fence-test = refl

-- the block never outlasts the deadline, and an explicit 0 is kept
block-test :
    approval_block_seconds (some (pos 900)) 60 300
      ∷ approval_block_seconds (some (pos 0)) 60 300
      ∷ []
    ≡ 300 ∷ 0 ∷ []
unfolding approval_block_seconds
block-test = refl

expired_list-test : approval_list_expired rows (parked_session ∷ []) [] 500 (codes "p2") ≡ 1 ∷ []
unfolding approval_list_expired
expired_list-test = refl
