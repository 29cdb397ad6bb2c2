-- ===== src/Store/Sessions.antt =====
-- The states of a session, of src/db.c: `session_set_state`, which checks the transition and stamps
-- the owner in one statement, and the plain accessors of a session's columns.
use cclaw.Prelude.{
  ℕ, ◌+◌, Bool, true, false, ◌&&◌, ◌||◌, not, List, [], ◌∷◌, Option, none, some, if◌then◌else◌,
  Bytes, ltb, ◌==◌,
}
use cclaw.Store.{
  SessionState, idle, llm_running, tool_running, awaiting_approval, Session, InboxRow,
}
use cclaw.Store.Sql.{update_where, count_where, first_where, exists_where}

abbrev pub is_idle : SessionState → Bool
is_idle idle = true
is_idle _ = false

abbrev pub is_awaiting_approval : SessionState → Bool
is_awaiting_approval awaiting_approval = true
is_awaiting_approval _ = false

-- `state IN ('llm_running','tool_running')`
abbrev pub is_running : SessionState → Bool
is_running llm_running = true
is_running tool_running = true
is_running _ = false

-- The guard of the statement: may a session in the state `from` go to `to`?
unfoldable pub may_go : SessionState → SessionState → Bool
may_go to from =
    if is_idle to
    then not (is_idle from)
    else if is_awaiting_approval to
    then is_running from
    else true

-- `g_owner_instance`, bound as NULL where it is empty.
abbrev pub owner_of : Bytes → Option Bytes
owner_of [] = none
owner_of (c ∷ s) = some (c ∷ s)

abbrev pub stamp : Bytes → SessionState → ℕ → Session → Session
stamp me to now s = record s {
  state = to;
  updated_at = now;
  turn_iteration = if is_idle to then 0 else s.turn_iteration;
  owner_instance = if is_idle to then none else owner_of me;
}

abbrev pub has_id : ℕ → Session → Bool
has_id id s = s.id == id

abbrev pub can_set : ℕ → SessionState → Session → Bool
can_set id to s = has_id id s && may_go to s.state

-- The rows left, and whether one was changed: the C function's 0. `me` is the process's instance.
unfoldable pub session_set_state : Bytes → ℕ → List Session → ℕ → SessionState → List Session × Bool
unfolding update_where count_where may_go
session_set_state me now sessions session_id state = (
  update_where (can_set session_id state) (stamp me state now) sessions,
  count_where (can_set session_id state) sessions == 1,
)

unfoldable pub session_set_iteration : List Session → ℕ → ℕ → List Session
unfolding update_where
session_set_iteration sessions session_id iter =
    update_where (has_id session_id) (λ s. record s { turn_iteration = iter }) sessions

abbrev pub iteration_of : Option Session → Option ℕ
iteration_of none = none
iteration_of (some s) = some s.turn_iteration

-- The rows and the new value, with `none` for -1.
unfoldable pub session_bump_iteration : List Session → ℕ → List Session × Option ℕ
unfolding update_where first_where
session_bump_iteration sessions session_id =
    let rows =
      update_where (has_id session_id) (λ s. record s { turn_iteration = s.turn_iteration + 1 })
        sessions in
    (rows, iteration_of (first_where (has_id session_id) rows))

abbrev pub agent_of : Option Session → Option Bytes
agent_of none = none
agent_of (some s) = s.agent_name

unfoldable pub session_get_agent_name : List Session → ℕ → Option Bytes
unfolding first_where
session_get_agent_name sessions session_id = agent_of (first_where (has_id session_id) sessions)

abbrev pub depth_of : Option Session → ℕ
depth_of none = 0
depth_of (some s) = s.depth

unfoldable pub session_get_depth : List Session → ℕ → ℕ
unfolding first_where
session_get_depth sessions session_id = depth_of (first_where (has_id session_id) sessions)

-- SESSION_IN_FLIGHT
abbrev pub in_flight : List InboxRow → Session → Bool
in_flight inbox s =
    not (is_idle s.state) || exists_where (λ i. i.session_id == s.id && not i.consumed) inbox

abbrev pub has_parent : Session → Bool
has_parent s = is_positive s.parent_session_id
  where
    is_positive : Option ℕ → Bool
    is_positive none = false
    is_positive (some p) = ltb 0 p

unfoldable pub session_count_active_agents : List Session → List InboxRow → ℕ
unfolding count_where exists_where
session_count_active_agents sessions inbox =
    count_where (λ s. has_parent s && in_flight inbox s) sessions
