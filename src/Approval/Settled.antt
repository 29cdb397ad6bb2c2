-- ===== src/Approval/Settled.antt =====
-- What `resolve_approval` of src/resolve.c leaves: a row that is not decided again, and a turn that
-- goes on.
use cclaw.Prelude.{
  ℕ, ◌≡◌, refl, sym, ap, subst, ◌∙◌, Bool, true, false, ◌&&◌, List, [], Option, none, some,
  if◌then◌else◌, if_both, Bytes, ◌==◌, All, bytes_eq, and_true,
}
use cclaw.Store.{Session, tool_running}
use cclaw.Store.Sql.{first_where, first_where-update_where, first_where-test}
use cclaw.Store.Sessions.{has_id, session_set_state, can_set, stamp, may_go}
use cclaw.Approval.{Approval, rerun}
use cclaw.Approval.Rows.{approval_resolve}
use cclaw.Approval.Tickets.{JsonTree}
use cclaw.Approval.Decisions.{ApprovalCall, run}
use cclaw.Approval.Spent.{
  IsFresh, NotOpen, resolve-NotOpen, consume-NotOpen, run-NotOpen, closed-resolve,
}
use cclaw.Approval.Gate.{Tables}
use cclaw.Approval.Effects.{decided_row}
use cclaw.Approval.Flow.{
  ApprovalDecision, approval_deny, approval_once, approval_always, is_approval, is_apply, Effect,
  Resolver, approval_is_post_window, result_for, rerun_result, apply_result, resume, in_window,
  spend_up_front, resolved, resolve_approval,
}

module _ (r : Resolver) (via : Option Bytes) (u : Tables) (a : Approval) where
  result-approvals :
      (decision : ApprovalDecision) (call : Option Bytes) (is_error : Bool)
      → (result_for r decision via u a call is_error).0.approvals ≡ u.approvals
  result-approvals decision none is_error = refl
  result-approvals decision (some c) is_error = refl

  rerun-approvals :
      (decision : ApprovalDecision)
      → (rerun_result r decision via u a decision).0.approvals ≡ u.approvals
  rerun-approvals approval_deny = result-approvals approval_deny a.tool_call_id true
  rerun-approvals approval_once = refl
  rerun-approvals approval_always = refl

  apply-approvals :
      (decision : ApprovalDecision)
      → (apply_result r decision via u a decision).0.approvals ≡ u.approvals
  apply-approvals approval_deny = result-approvals approval_deny a.tool_call_id true
  apply-approvals approval_once = result-approvals approval_once a.tool_call_id true
  apply-approvals approval_always =
      result-approvals approval_always a.tool_call_id (r.apply_fails a)

  window-approvals :
      (decision : ApprovalDecision) → (in_window r decision via u a).0.approvals ≡ u.approvals
  window-approvals decision =
      if_both (λ (x : Tables × List Effect). x.0.approvals ≡ u.approvals) (bytes_eq a.resolve rerun)
        _ _ (rerun-approvals decision) (apply-approvals decision)

module _ (r : Resolver) (decision : ApprovalDecision) (via : Option Bytes) (id : ℕ) where
  spend-NotOpen :
      (u : Tables) (a : Approval)
      → All (NotOpen id) u.approvals
      → All (NotOpen id) (spend_up_front r decision via u a).approvals
  spend-NotOpen u a h =
      if_both (λ (v : Tables). All (NotOpen id) v.approvals) (is_approval decision && is_apply a) _
        _ (consume-NotOpen id a.id u.approvals h) h

  resolved-NotOpen :
      (u : Tables) (found : Option Approval)
      → All (NotOpen id) u.approvals
      → All (NotOpen id) (resolved r decision via u found).0.approvals
  resolved-NotOpen u none h = h
  resolved-NotOpen u (some a) h =
      let v = spend_up_front r decision via u a in
      let closed = spend-NotOpen u a h in
      if_both (λ (x : Tables × List Effect). All (NotOpen id) x.0.approvals)
        (approval_is_post_window v a.session_id a.tool_call_id) _ _ closed
        (subst (All (NotOpen id)) (sym (window-approvals r via v a decision)) closed)

  -- What a decision leaves: no row of its id is pending.
  resolve_approval-NotOpen :
      (t : Tables) → All (NotOpen id) (resolve_approval r decision via t id).0.approvals
  unfolding resolve_approval
  resolve_approval-NotOpen t =
      resolved-NotOpen _ _ (resolve-NotOpen id t.approvals (is_approval decision) via)

-- A decision takes effect once: after it, whatever statements of src/approval.c run on the approvals
-- other than one that inserts its id again, and whatever becomes of the other tables, another decision on it changes
-- no table and has no effect.
pub resolve_approval-once :
    (j : JsonTree) (r again : Resolver) (decision next : ApprovalDecision)
    (via later_via : Option Bytes) (t u : Tables) (id : ℕ) (calls : List ApprovalCall)
    → All (IsFresh id) calls
    → u.approvals ≡ run j calls (resolve_approval r decision via t id).0.approvals
    → resolve_approval again next later_via u id ≡ (u, [])
unfolding resolve_approval
resolve_approval-once j r again decision next via later_via t u id calls f e =
    let closed : All (NotOpen id) u.approvals =
      subst (All (NotOpen id)) (sym e)
        (run-NotOpen id j calls _ f (resolve_approval-NotOpen r decision via id t)) in
    ap
      (λ (x : List Approval × Option Approval).
        resolved again next later_via (record u { approvals = x.0 }) x.1)
      (closed-resolve id u.approvals (is_approval next) later_via closed)

-- The session of the id runs its tools.
abbrev pub Runs : ℕ → Tables → Type 0
Runs id t = (s : Session) × (first_where (has_id id) t.sessions ≡ some s) × (s.state ≡ tool_running)

set_state-running :
    (me : Bytes) (now : ℕ) (sessions : List Session) (id : ℕ) (s : Session)
    → first_where (has_id id) sessions ≡ some s
    → (s' : Session) × (first_where
          (has_id id)
          (session_set_state me now sessions id tool_running).0
        ≡ some s')
      × (s'.state ≡ tool_running)
unfolding session_set_state may_go
set_state-running me now sessions id s f =
    let found =
      first_where-update_where (has_id id) (can_set id tool_running) (stamp me tool_running now)
        sessions s (λ x. refl) f in
    let moves = and_true (s.id == id) true (first_where-test (has_id id) sessions s f) refl in
    (stamp me tool_running now s, rw moves at found, refl)

module _ (r : Resolver) (via : Option Bytes) (u : Tables) (a : Approval) where
  result-sessions :
      (decision : ApprovalDecision) (call : Option Bytes) (is_error : Bool)
      → (result_for r decision via u a call is_error).0.sessions ≡ u.sessions
  result-sessions decision none is_error = refl
  result-sessions decision (some c) is_error = refl

  rerun-sessions :
      (decision : ApprovalDecision)
      → (rerun_result r decision via u a decision).0.sessions ≡ u.sessions
  rerun-sessions approval_deny = result-sessions approval_deny a.tool_call_id true
  rerun-sessions approval_once = refl
  rerun-sessions approval_always = refl

  apply-sessions :
      (decision : ApprovalDecision)
      → (apply_result r decision via u a decision).0.sessions ≡ u.sessions
  apply-sessions approval_deny = result-sessions approval_deny a.tool_call_id true
  apply-sessions approval_once = result-sessions approval_once a.tool_call_id true
  apply-sessions approval_always = result-sessions approval_always a.tool_call_id (r.apply_fails a)

  resume-Runs :
      (s : Session) (x : Tables × List Effect)
      → x.0.sessions ≡ u.sessions
      → first_where (has_id a.session_id) u.sessions ≡ some s
      → Runs a.session_id (resume r approval_deny via a x).0
  resume-Runs s x same f =
      set_state-running r.me r.now x.0.sessions a.session_id s
        (ap (first_where (has_id a.session_id)) same ∙ f)

  window-Runs :
      (decision : ApprovalDecision) (s : Session)
      → first_where (has_id a.session_id) u.sessions ≡ some s
      → Runs a.session_id (in_window r decision via u a).0
  window-Runs decision s f =
      resume-Runs s
        (if bytes_eq a.resolve rerun
          then rerun_result r decision via u a decision
          else apply_result r decision via u a decision)
        (if_both (λ (x : Tables × List Effect). x.0.sessions ≡ u.sessions)
          (bytes_eq a.resolve rerun) _ _ (rerun-sessions decision) (apply-sessions decision))
        f

  -- Spending a row up front changes nothing that the window depends on.
  abbrev SameTurn : Tables → Type 0
  SameTurn v =
      (v.sessions ≡ u.sessions)
      × (approval_is_post_window v a.session_id a.tool_call_id
          ≡ approval_is_post_window u a.session_id a.tool_call_id)

  spend-SameTurn : (decision : ApprovalDecision) → SameTurn (spend_up_front r decision via u a)
  unfolding approval_is_post_window
  spend-SameTurn decision =
      if_both SameTurn (is_approval decision && is_apply a) _ _ (refl, refl) (refl, refl)

resolved-Runs :
    (r : Resolver) (decision : ApprovalDecision) (via : Option Bytes) (u : Tables) (a : Approval)
    (s : Session)
    → first_where (has_id a.session_id) u.sessions ≡ some s
    → approval_is_post_window u a.session_id a.tool_call_id ≡ false
    → Runs a.session_id (resolved r decision via u (some a)).0
resolved-Runs r decision via u a s f w =
    let v = spend_up_front r decision via u a in
    let (same, window) = spend-SameTurn r via u a decision in
    rw (window ∙ w)
      (window-Runs r via v a decision s (ap (first_where (has_id a.session_id)) same ∙ f))

post_window_same :
    (t : Tables) (rows : List Approval) (id : ℕ) (call : Option Bytes)
    → approval_is_post_window (record t { approvals = rows }) id call
      ≡ approval_is_post_window t id call
unfolding approval_is_post_window
post_window_same t rows id call = refl

resolve_approval-running :
    (r : Resolver) (decision : ApprovalDecision) (via : Option Bytes) (t : Tables) (id : ℕ)
    (a : Approval) (s : Session)
    → decided_row r decision via t id ≡ some a
    → first_where (has_id a.session_id) t.sessions ≡ some s
    → approval_is_post_window t a.session_id a.tool_call_id ≡ false
    → Runs a.session_id (resolve_approval r decision via t id).0
unfolding resolve_approval
resolve_approval-running r decision via t id a s e f w =
    let rows = (approval_resolve t.approvals id (is_approval decision) via).0 in
    subst
      (λ found. Runs a.session_id (resolved r decision via (record t { approvals = rows }) found).0)
      (sym e)
      (resolved-Runs r decision via (record t { approvals = rows }) a s f
        (post_window_same t rows a.session_id a.tool_call_id ∙ w))

-- What becomes of the session's turn under a decision that was too late, or in time.
abbrev pub TurnAfter : Bool → ℕ → Tables → Tables → Type 0
TurnAfter true id before after =
    (after.sessions ≡ before.sessions) × (after.tool_calls ≡ before.tool_calls)
TurnAfter false id before after = Runs id after

resolved-late :
    (r : Resolver) (decision : ApprovalDecision) (via : Option Bytes) (u : Tables) (a : Approval)
    → approval_is_post_window u a.session_id a.tool_call_id ≡ true
    → TurnAfter true a.session_id u (resolved r decision via u (some a)).0
resolved-late r decision via u a w =
    let v = spend_up_front r decision via u a in
    let (same, window) = spend-SameTurn r via u a decision in
    rw (window ∙ w) (
      if_both (λ (x : Tables). TurnAfter true a.session_id u x) (is_approval decision && is_apply a)
        _ _ (refl, refl) (refl, refl))

-- A decision in time lets the turn go on: where it finds its row while the row's call and session
-- still wait for it, the session runs its tools again. One that is late leaves the turn alone: no
-- session and no call changes.
pub resolve_approval-TurnAfter :
    (r : Resolver) (decision : ApprovalDecision) (via : Option Bytes) (t : Tables) (id : ℕ)
    (a : Approval) (s : Session) (late : Bool)
    → decided_row r decision via t id ≡ some a
    → first_where (has_id a.session_id) t.sessions ≡ some s
    → approval_is_post_window t a.session_id a.tool_call_id ≡ late
    → TurnAfter late a.session_id t (resolve_approval r decision via t id).0
unfolding resolve_approval
resolve_approval-TurnAfter r decision via t id a s false e f w =
    resolve_approval-running r decision via t id a s e f w
resolve_approval-TurnAfter r decision via t id a s true e f w =
    let rows = (approval_resolve t.approvals id (is_approval decision) via).0 in
    subst
      (λ found.
        TurnAfter true a.session_id t
          (resolved r decision via (record t { approvals = rows }) found).0)
      (sym e)
      (resolved-late r decision via (record t { approvals = rows }) a
        (post_window_same t rows a.session_id a.tool_call_id ∙ w))
