-- ===== src/Cron/Tick.antt =====
-- One tick of the clock, `run_due_jobs` of src/cron.c: every due job is fired and rescheduled.
use cclaw.Prelude.{ℕ, Bool, false, ◌&&◌, not, List, [], ◌∷◌, Option, none, some, if◌then◌else◌}
use cclaw.Prelude.Int.{ℤ, pos, ltb_ℤ, is_pos, add_ℕ}
use cclaw.Store.Sql.{update_where, delete_where, select_where}
use cclaw.Cron.Next.{Clock, cron_next_run}
use cclaw.Cron.Table.{JobRow, coalesce}
use cclaw.Cron.Fire.{World, FireEnv, is_job, fire_due}

-- `enabled=1 AND next_run_at <= ?`
abbrev pub is_due : ℕ → JobRow → Bool
is_due now j = j.enabled && not (ltb_ℤ (pos now) j.next_run_at)

abbrev pub set_next : ℤ → JobRow → JobRow
set_next next r = record r { next_run_at = next }

abbrev pub advance_by : JobRow → Option ℕ → List JobRow → List JobRow
advance_by j none jobs = update_where (is_job j.id) (λ r. record r { enabled = false }) jobs
advance_by j (some next) jobs = update_where (is_job j.id) (set_next (pos next)) jobs

-- A one-shot is deleted, an interval starts again, an expression gives the next run, and one that
-- gives none is disabled. The column `last_run_at` is left out.
unfoldable pub reschedule_due : Clock → ℕ → JobRow → List JobRow → List JobRow
unfolding update_where delete_where
reschedule_due clock now j jobs =
    if is_pos (coalesce j.run_at)
    then delete_where (is_job j.id) jobs
    else if is_pos (coalesce j.interval_s)
    then update_where (is_job j.id) (set_next (add_ℕ now (coalesce j.interval_s))) jobs
    else advance_by j (cron_next_run clock j.cron_expr now) jobs

unfoldable pub fire_all : FireEnv → List JobRow → World → World
unfolding fire_due reschedule_due
fire_all env [] w = w
fire_all env (j ∷ due) w =
    let fired = fire_due env w j in
    fire_all env due (record fired { jobs = reschedule_due env.clock env.now j fired.jobs })

unfoldable pub run_due_jobs : FireEnv → World → World
unfolding select_where fire_all
run_due_jobs env w = fire_all env (select_where (is_due env.now) w.jobs) w
