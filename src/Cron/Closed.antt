-- ===== src/Cron/Closed.antt =====
-- What every fire of src/cron.c keeps: a property of the world that its inserts, stamps, pauses and new
-- sessions keep.
use cclaw.Prelude.{ℕ, false, ◌&&◌, not, Option, none, some, if◌then◌else◌, if_both, Bytes, codes}
use cclaw.Store.{Session}
use cclaw.Store.Sql.{update_where}
use cclaw.Cron.Table.{JobRow}
use cclaw.Cron.Fire.{
  World, FireEnv, is_job, is_new, has_payload, fire_due, fire_unless, fire_routed, fire_at,
  fire_new, fire_error, pause_job, launch, run_script, stamp_session, insert_for, text_or, at_limit,
  still_running, with_session, fresh_session, tell_owner, CronScriptRc, busy, failed, spawned,
  filled, Target, no_session, refuse_fire, deliver_to, Routed, lost, unrouted, routed_to,
  chat_bound, target_of, route_of, fire_pending, recent_session, is_recurring,
}

module _ (env : FireEnv) (P : World → Type 0)
    (told : (w : World) (sid : ℕ) (source : Bytes) (ref : Option Bytes) (text : Bytes)
      → P w
      → P (insert_for env w sid source ref text))
    (stamped : (w : World) (j : JobRow) (sid : ℕ) → P w → P (stamp_session w j sid))
    (paused : (w : World) (j : JobRow)
      → P w
      → P (record w {
        jobs = update_where (is_job j.id) (λ r. record r { enabled = false }) w.jobs;
      }))
    (opened : (w : World) (s : Session) → P w → P (with_session w s)) where
  tell-keeps :
      (w : World) (source : Bytes) (ref : Option Bytes) (text : Bytes) (owner : Option Session)
      → P w
      → P (tell_owner env w source ref text owner)
  tell-keeps w source ref text none h = h
  tell-keeps w source ref text (some s) h = told w s.id source ref text h

  error-keeps : (w : World) (j : JobRow) (why : Bytes) → P w → P (fire_error env w j why)
  unfolding fire_error
  error-keeps w j why h = tell-keeps w _ _ _ (recent_session w.sessions j.agent_name) h

  pause-keeps : (w : World) (j : JobRow) (detail : Bytes) → P w → P (pause_job env w j detail)
  unfolding pause_job
  pause-keeps w j detail h =
      tell-keeps _ _ _ _ (recent_session w.sessions j.agent_name) (paused w j h)

  script-keeps :
      (w : World) (j : JobRow) (sid : ℕ) (rc : CronScriptRc) → P w → P (run_script env w j sid rc)
  script-keeps w j sid busy h = h
  script-keeps w j sid (failed why) h = error-keeps w j why h
  script-keeps w j sid spawned h = stamped w j sid h

  launch-keeps : (w : World) (j : JobRow) (sid : ℕ) → P w → P (launch env w j sid)
  unfolding launch
  launch-keeps w j sid h =
      if_both P (filled j.script) _ _ (script-keeps w j sid (env.runner j sid) h) (
        if_both P (filled j.task) _ _
          (stamped (insert_for env w sid (codes "cron") (some j.name) (env.scan (text_or j.task))) j
            sid (told w sid (codes "cron") (some j.name) (env.scan (text_or j.task)) h))
          (stamped w j sid h))

  new-keeps : (w : World) (j : JobRow) → P w → P (fire_new env w j)
  unfolding fire_new
  new-keeps w j h = if_both P (at_limit env w) _ _ h (
      if_both P (still_running w j) _ _ h (
        launch-keeps (with_session w (fresh_session env w j)) j (fresh_session env w j).id
          (opened w (fresh_session env w j) h)))

  at-keeps : (w : World) (j : JobRow) (t : Target) → P w → P (fire_at env w j t)
  at-keeps w j no_session h = h
  at-keeps w j (refuse_fire why) h = error-keeps w j why h
  at-keeps w j (deliver_to sid) h =
      if_both P (has_payload j && fire_pending w sid j.name) _ _ h (launch-keeps w j sid h)

  routed-keeps : (w : World) (j : JobRow) (route : Routed) → P w → P (fire_routed env w j route)
  routed-keeps w j lost h = error-keeps w j _ h
  routed-keeps w j unrouted h =
      if_both P (is_new j) _ _
        (if_both P (chat_bound j) _ _ (error-keeps w j _ h) (new-keeps w j h))
        (at-keeps w j (target_of w j unrouted) h)
  routed-keeps w j (routed_to sid) h =
      if_both P (is_new j) _ _ (new-keeps w j h) (at-keeps w j (target_of w j (routed_to sid)) h)

  unless-keeps :
      (w : World) (j : JobRow) (detail : Option Bytes) → P w → P (fire_unless env w j detail)
  unless-keeps w j (some detail) h = pause-keeps w j detail h
  unless-keeps w j none h = routed-keeps w j (route_of w j) h

  pub fire_due-keeps : (w : World) (j : JobRow) → P w → P (fire_due env w j)
  unfolding fire_due
  fire_due-keeps w j h =
      if_both P (is_new j && not (has_payload j)) _ _ h
        (unless-keeps w j (if is_recurring j then env.streak j else none) h)
