-- ===== src/Cron/Fire.antt =====
-- The firing of due jobs, the second half of src/cron.c: `fire_due`, `reschedule_due` and
-- `run_due_jobs`, on the jobs, the sessions, the inbox and the routes. The wake-ups and the notice to a
-- chat are not modelled; of sessions equally recent the first is taken.
mod State
mod Destination
pub use State.{
  Route, World, CronScriptRc, FireEnv, filled, is_text, has_payload, is_new, is_pin, is_recurring,
  chat_bound, agent_or, fire_agent, later, at_id, idle_row, Routed, owned_by, is_route, session_of,
  is_fire, is_job, or_none, parent_of, parent_id, depth_under, text_or, spawned, busy, failed,
  unrouted, lost, routed_to,
}
unfoldable pub use State.{
  latest, recent_session, session_exists, session_is_idle, routed_session, fire_pending,
}
pub use Destination.{
  Target, late_bound, to_ℕ, known, follow, routed_id, route_of, deliver_to, refuse_fire, no_session,
}
unfoldable pub use Destination.{target_of}
use cclaw.Prelude.{
  ℕ, ◌+◌, Bool, true, false, ◌&&◌, ◌||◌, not, List, [], ◌∷◌, ◌++◌, Option, none, some,
  if◌then◌else◌, Bytes, bytes_eq, codes, ltb, leb, ◌==◌, take,
}
use cclaw.Prelude.Int.{ℤ, pos, negsuc, is_pos}
use cclaw.Store.{Session, idle, InboxRow}
use cclaw.Store.Sql.{update_where, select_where, first_where, exists_where}
use cclaw.Store.Sessions.{is_idle, session_count_active_agents}
use cclaw.Store.Inbox.{inbox_insert}
use cclaw.Cron.Next.{Clock}
use cclaw.Cron.Table.{JobRow, same_id, coalesce}

-- The session that the fire used is remembered.
abbrev pub stamp_session : World → JobRow → ℕ → World
stamp_session w j session_id =
    if is_new j || is_pos j.session_id
    then record w {
      jobs = update_where (is_job j.id) (λ r. record r { session_id = pos session_id }) w.jobs;
    }
    else w

-- The session of the previous fire is not at rest.
abbrev pub still_running : World → JobRow → Bool
still_running w j =
    is_recurring j
    && (session_exists w.sessions j.session_id && not (session_is_idle w.sessions j.session_id))

abbrev pub with_session : World → Session → World
with_session w s = record w { sessions = w.sessions ++ s ∷ [] }

module _ (env : FireEnv) where
  abbrev pub insert_for : World → ℕ → Bytes → Option Bytes → Bytes → World
  insert_for w session_id source ref payload = record w {
    inbox = inbox_insert w.inbox (env.next_row w) session_id (some source) ref payload;
  }

  abbrev pub tell_owner : World → Bytes → Option Bytes → Bytes → Option Session → World
  tell_owner w source ref text none = w
  tell_owner w source ref text (some owner) = insert_for w owner.id source ref text

  unfoldable pub fire_error : World → JobRow → Bytes → World
  unfolding recent_session inbox_insert
  fire_error w j why =
      tell_owner w (codes "cron_error") (some j.name)
        (take 639 (codes "cron job '" ++ j.name ++ codes "' did not fire: " ++ why))
        (recent_session w.sessions j.agent_name)

  unfoldable pub pause_job : World → JobRow → Bytes → World
  unfolding recent_session inbox_insert update_where
  pause_job w j detail =
      tell_owner
        (record w { jobs = update_where (is_job j.id) (λ r. record r { enabled = false }) w.jobs })
        (codes "system") none
        (take 767 (
          codes "cron job '"
          ++ j.name
          ++ codes "' is paused: 3 consecutive fires failed. Last error: "
          ++ or_none detail
          ++ codes ". Fix it and set the job again with the same name to re-enable it."))
        (recent_session w.sessions j.agent_name)

  -- The new session of a fire.
  unfoldable pub fresh_session : World → JobRow → Session
  unfolding latest select_where
  fresh_session w j = record {
    id = env.next_session w;
    name = some (codes "cron");
    agent_name = some (fire_agent j);
    channel_name = if chat_bound j then j.channel_name else none;
    chat_id = if chat_bound j then j.chat_id else none;
    parent_session_id = parent_id (parent_of w j);
    depth = depth_under (parent_of w j);
    state = idle;
    owner_instance = none;
    turn_iteration = 0;
    updated_at = env.now;
  }

  abbrev pub run_script : World → JobRow → ℕ → CronScriptRc → World
  run_script w j session_id busy = w
  run_script w j session_id (failed why) = fire_error w j why
  run_script w j session_id spawned = stamp_session w j session_id

  -- The payload.
  unfoldable pub launch : World → JobRow → ℕ → World
  unfolding fire_error inbox_insert update_where
  launch w j session_id =
      if filled j.script
      then run_script w j session_id (env.runner j session_id)
      else if filled j.task
      then stamp_session
          (insert_for w session_id (codes "cron") (some j.name) (env.scan (text_or j.task))) j
          session_id
      else stamp_session w j session_id

  abbrev pub at_limit : World → Bool
  at_limit w =
      ltb 0 env.max_active && leb env.max_active (session_count_active_agents w.sessions w.inbox)

  unfoldable pub fire_new : World → JobRow → World
  unfolding session_count_active_agents session_exists session_is_idle fresh_session launch
  fire_new w j =
      if at_limit w
      then w
      else if still_running w j
      then w
      else launch (with_session w (fresh_session w j)) j (fresh_session w j).id

  abbrev pub fire_at : World → JobRow → Target → World
  fire_at w j no_session = w
  fire_at w j (refuse_fire why) = fire_error w j why
  fire_at w j (deliver_to session_id) =
      if has_payload j && fire_pending w session_id j.name then w else launch w j session_id

  abbrev pub fire_routed : World → JobRow → Routed → World
  fire_routed w j lost = fire_error w j (codes "that chat no longer routes to this agent")
  fire_routed w j unrouted =
      if is_new j
      then (if chat_bound j
          then fire_error w j (codes "that chat no longer routes to this agent")
          else fire_new w j)
      else fire_at w j (target_of w j unrouted)
  fire_routed w j (routed_to session_id) =
      if is_new j then fire_new w j else fire_at w j (target_of w j (routed_to session_id))

  abbrev pub fire_unless : World → JobRow → Option Bytes → World
  fire_unless w j (some detail) = pause_job w j detail
  fire_unless w j none = fire_routed w j (route_of w j)

  unfoldable pub fire_due : World → JobRow → World
  unfolding pause_job fire_error fire_new launch target_of routed_session fire_pending
  fire_due w j =
      if is_new j && not (has_payload j)
      then w
      else fire_unless w j (if is_recurring j then env.streak j else none)
