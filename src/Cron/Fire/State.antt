-- ===== src/Cron/Fire/State.antt =====
-- What the fires of src/cron.c read: the jobs, the sessions, the inbox and the routes, and the tests and
-- queries on them. Of sessions equally recent the first is taken.
use cclaw.Prelude.{
  ℕ, ◌+◌, Bool, true, false, ◌&&◌, ◌||◌, not, List, [], ◌∷◌, Option, none, some, if◌then◌else◌,
  Bytes, bytes_eq, codes, ltb, ◌==◌,
}
use cclaw.Prelude.Int.{ℤ, pos, is_pos}
use cclaw.Store.{Session, InboxRow}
use cclaw.Store.Sql.{select_where, first_where, exists_where}
use cclaw.Store.Sessions.{is_idle}
use cclaw.Cron.Next.{Clock}
use cclaw.Cron.Table.{JobRow, same_id, coalesce}

-- A row of `channel_routes`.
pub record Route : Type 0 where
  pub channel_name : Bytes
  pub chat_id : Bytes
  pub session_id : ℕ

pub record World : Type 0 where
  pub jobs : List JobRow
  pub sessions : List Session
  pub inbox : List InboxRow
  pub routes : List Route

pub data CronScriptRc : Type 0 where
  spawned busy : CronScriptRc
  failed : (why : Bytes) → CronScriptRc

-- The clock and the time; `streak` the newest error where the last three fires of a job failed; `runner`
-- the script dispatcher of the daemon; `scan` what the scanners leave of a payload; `max_active`
-- is 0 for no limit; the ids that SQLite gives.
pub record FireEnv : Type 0 where
  pub clock : Clock
  pub now : ℕ
  pub streak : JobRow → Option Bytes
  pub runner : JobRow → ℕ → CronScriptRc
  pub scan : Bytes → Bytes
  pub max_active : ℕ
  pub next_session : World → ℕ
  pub next_row : World → ℕ

abbrev pub filled : Option Bytes → Bool
filled none = false
filled (some []) = false
filled (some (c ∷ s)) = true

abbrev pub is_text : Bytes → Option Bytes → Bool
is_text s none = false
is_text s (some t) = bytes_eq t s

abbrev pub has_payload : JobRow → Bool
has_payload j = filled j.task || filled j.script

abbrev pub is_new : JobRow → Bool
is_new j = is_text (codes "new") j.target

abbrev pub is_pin : JobRow → Bool
is_pin j = is_text (codes "pin") j.target

abbrev pub is_recurring : JobRow → Bool
is_recurring j = same_id (coalesce j.run_at) (pos 0)

abbrev pub chat_bound : JobRow → Bool
chat_bound j = filled j.channel_name && filled j.chat_id

abbrev pub agent_or : Bytes → Option Bytes → Bytes
agent_or owner none = owner
agent_or owner (some []) = owner
agent_or owner (some (c ∷ s)) = c ∷ s

-- `target_agent`, or the job's own.
abbrev pub fire_agent : JobRow → Bytes
fire_agent j = agent_or j.agent_name j.target_agent

abbrev pub later : Session → Option Session → Option Session
later s none = some s
later s (some t) = if ltb s.updated_at t.updated_at then some t else some s

-- `ORDER BY updated_at DESC LIMIT 1`
unfoldable pub latest : List Session → Option Session
latest [] = none
latest (s ∷ sessions) = later s (latest sessions)

unfoldable pub recent_session : List Session → Bytes → Option Session
unfolding latest select_where
recent_session sessions agent = latest (select_where (λ s. is_text agent s.agent_name) sessions)

abbrev pub at_id : ℤ → Session → Bool
at_id id s = same_id (pos s.id) id

unfoldable pub session_exists : List Session → ℤ → Bool
unfolding exists_where
session_exists sessions id = is_pos id && exists_where (at_id id) sessions

abbrev pub idle_row : Option Session → Bool
idle_row none = true
idle_row (some s) = is_idle s.state

unfoldable pub session_is_idle : List Session → ℤ → Bool
unfolding first_where
session_is_idle sessions id = idle_row (first_where (at_id id) sessions)

-- 0, -1 and 1 of `routed_session`.
pub data Routed : Type 0 where
  unrouted lost : Routed
  routed_to : (session_id : ℕ) → Routed

abbrev pub owned_by : Bytes → Option Session → Routed
owned_by agent none = unrouted
owned_by agent (some s) = if is_text agent s.agent_name then routed_to s.id else lost

abbrev pub is_route : Option Bytes → Option Bytes → Route → Bool
is_route channel chat r = is_text r.channel_name channel && is_text r.chat_id chat

abbrev pub session_of : List Session → Bytes → Option Route → Routed
session_of sessions agent none = unrouted
session_of sessions agent (some r) =
    owned_by agent (first_where (at_id (pos r.session_id)) sessions)

unfoldable pub routed_session : World → Option Bytes → Option Bytes → Bytes → Routed
unfolding first_where
routed_session w channel chat agent =
    session_of w.sessions agent (first_where (is_route channel chat) w.routes)

-- An undrained fire of the job in the session's inbox.
abbrev pub is_fire : ℕ → Bytes → InboxRow → Bool
is_fire session_id name i =
    i.session_id == session_id
    && (not i.consumed && (bytes_eq i.source (codes "cron") && is_text name i.source_ref))

unfoldable pub fire_pending : World → ℕ → Bytes → Bool
unfolding exists_where
fire_pending w session_id name = exists_where (is_fire session_id name) w.inbox

abbrev pub is_job : ℤ → JobRow → Bool
is_job id r = same_id r.id id

abbrev pub or_none : Bytes → Bytes
or_none [] = codes "(none recorded)"
or_none (c ∷ s) = c ∷ s

abbrev pub parent_of : World → JobRow → Option Session
parent_of w j =
    if chat_bound j
    then none
    else latest (
        select_where (λ s. is_text j.agent_name s.agent_name && not (is_text (codes "cron") s.name))
          w.sessions)

abbrev pub parent_id : Option Session → Option ℕ
parent_id none = none
parent_id (some s) = some s.id

abbrev pub depth_under : Option Session → ℕ
depth_under none = 0
depth_under (some s) = s.depth + 1

abbrev pub text_or : Option Bytes → Bytes
text_or none = []
text_or (some s) = s
