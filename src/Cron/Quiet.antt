-- ===== src/Cron/Quiet.antt =====
-- A tick of src/cron.c leaves no job due, so that the next one does not find it again; Fired and
-- Held have what it does for the jobs that were.
use cclaw.Prelude.{
  ℕ, suc, ◌≡◌, refl, sym, subst, ◌∙◌, true, false, ◌||◌, not, ltb, lt→ltb, none_ne, List, [], ◌∷◌,
  Option, none, some, if_both, Bytes, All, All-weaken, Bool-cases, inl, inr, and_false, false≢true,
  arith,
}
use cclaw.Prelude.Int.{ℤ, pos, negsuc, ltb_ℤ, is_pos, add_ℕ}
use cclaw.Store.Sql.{
  update_where, select_where, exists_where, All-update_where, All-update_where_to,
  All-delete_where_to, IsIn, All-self,
}
use cclaw.Cron.Next.{Clock, cron_next_run}
use cclaw.Cron.Run.{cron_next_run-IsRun}
use cclaw.Cron.Table.{JobRow, same_id, coalesce}
use cclaw.Cron.Fire.{World, FireEnv, is_job, is_new, fire_due, fire_pending, session_exists}
use cclaw.Cron.Fired.{Follows, run_due_jobs-fires}
use cclaw.Cron.Held.{HasJob, NoneDue, run_due_jobs-HasJob}
use cclaw.Cron.Closed.{fire_due-keeps}
use cclaw.Cron.Tick.{is_due, set_next, advance_by, reschedule_due, fire_all, run_due_jobs}

-- A fire disables jobs and stamps their session: what both keep of every job, it keeps.
module _ (env : FireEnv) (Q : JobRow → Type 0)
    (disabled : (r : JobRow) → Q r → Q (record r { enabled = false }))
    (stamped : (r : JobRow) (id : ℤ) → Q r → Q (record r { session_id = id })) where
  pub fire_due-Keeps : (w : World) (j : JobRow) → All Q w.jobs → All Q (fire_due env w j).jobs
  fire_due-Keeps =
      fire_due-keeps env (λ w. All Q w.jobs) (λ w sid source ref text h. h)
        (λ w j sid h.
          if_both (λ (u : World). All Q u.jobs) (is_new j || is_pos j.session_id) _ _
            (All-update_where Q (is_job j.id) (λ r. record r { session_id = pos sid }) w.jobs
              (λ r t k. stamped r (pos sid) k) h)
            h)
        (λ w j h.
          All-update_where Q (is_job j.id) (λ r. record r { enabled = false }) w.jobs
            (λ r t k. disabled r k) h)
        (λ w s h. h)

module _ (now : ℕ) where
  -- A job that is due waits in the list.
  abbrev Listed : List JobRow → JobRow → Type 0
  Listed due r = is_due now r ≡ true → exists_where (λ j. is_job j.id r) due ≡ true

  Listed-not_due : (due : List JobRow) (r : JobRow) → is_due now r ≡ false → Listed due r
  Listed-not_due due r e d = absurd (false≢true (sym e ∙ d))

  -- The head of the list is no longer waited for by other jobs.
  Listed-tail :
      (j : JobRow) (due : List JobRow) (r : JobRow)
      → is_job j.id r ≡ false
      → Listed (j ∷ due) r
      → Listed due r
  unfolding exists_where
  Listed-tail j due r e k d = rw e at (k d)

  next-Listed :
      (z : ℤ) (due : List JobRow) (r : JobRow)
      → ltb_ℤ (pos now) z ≡ true
      → Listed due (set_next z r)
  next-Listed z due r e =
      Listed-not_due due (set_next z r) (and_false r.enabled (not (ltb_ℤ (pos now) z)) (rw e refl))

  set_next-Listed :
      (z : ℤ) (j : JobRow) (due jobs : List JobRow)
      → ltb_ℤ (pos now) z ≡ true
      → All (Listed (j ∷ due)) jobs
      → All (Listed due) (update_where (is_job j.id) (set_next z) jobs)
  set_next-Listed z j due jobs e h =
      All-update_where_to (Listed (j ∷ due)) (Listed due) (is_job j.id) (set_next z) jobs
        (λ r t k. next-Listed z due r e) (λ r t k. Listed-tail j due r t k) h

  interval_later : (z : ℤ) → is_pos z ≡ true → ltb_ℤ (pos now) (add_ℕ now z) ≡ true
  interval_later (pos n) h = ground arith
  interval_later (negsuc n) h = absurd (false≢true h)

  run_later :
      (clock : Clock) (expr : Option Bytes) (next : ℕ)
      → cron_next_run clock expr now ≡ some next
      → ltb now next ≡ true
  unfolding cron_next_run
  run_later clock none next h = absurd (none_ne h)
  run_later clock (some expr) next h =
      lt→ltb now next (cron_next_run-IsRun clock expr now next h).later

  advance-Listed :
      (clock : Clock) (j : JobRow) (next : Option ℕ) (due jobs : List JobRow)
      → cron_next_run clock j.cron_expr now ≡ next
      → All (Listed (j ∷ due)) jobs
      → All (Listed due) (advance_by j next jobs)
  advance-Listed clock j (some next) due jobs e h =
      set_next-Listed (pos next) j due jobs (run_later clock j.cron_expr next e) h
  advance-Listed clock j none due jobs e h =
      All-update_where_to (Listed (j ∷ due)) (Listed due) (is_job j.id)
        (λ r. record r { enabled = false }) jobs
        (λ r t k. Listed-not_due due (record r { enabled = false }) refl)
        (λ r t k. Listed-tail j due r t k) h

  reschedule-Listed :
      (clock : Clock) (j : JobRow) (due jobs : List JobRow)
      → All (Listed (j ∷ due)) jobs
      → All (Listed due) (reschedule_due clock now j jobs)
  unfolding reschedule_due
  reschedule-Listed clock j due jobs h =
      if_both (All (Listed due)) (is_pos (coalesce j.run_at)) _ _
        (All-delete_where_to (Listed (j ∷ due)) (Listed due) (is_job j.id) jobs
          (λ r t k. Listed-tail j due r t k) h)
        (elim (Bool-cases (is_pos (coalesce j.interval_s))) [
          | inl e ↦ rw e (
              set_next-Listed (add_ℕ now (coalesce j.interval_s)) j due jobs
                (interval_later (coalesce j.interval_s) e) h)
          | inr e ↦
              rw e (advance-Listed clock j (cron_next_run clock j.cron_expr now) due jobs refl h)
        ])

  same_id_refl : (id : ℤ) → same_id id id ≡ true
  same_id_refl (pos n) = ground arith
  same_id_refl (negsuc n) = ground arith

  Listed-due :
      (jobs : List JobRow) (r : JobRow) → IsIn r jobs → Listed (select_where (is_due now) jobs) r
  unfolding select_where exists_where
  Listed-due [] r h d = absurd h
  Listed-due (j ∷ jobs) r (inl same) d =
      let due_j : is_due now j ≡ true = subst (λ x. is_due now x ≡ true) (sym same) d in
      let it : is_job j.id r ≡ true = subst (λ x. is_job j.id x ≡ true) same (same_id_refl j.id) in
      rw (due_j, it) refl
  Listed-due (j ∷ jobs) r (inr later) d =
      let rest = Listed-due jobs r later d in
      if_both (λ (l : List JobRow). exists_where (λ (k : JobRow). is_job k.id r) l ≡ true)
        (is_due now j) _ _ (if_both (λ b. b ≡ true) (is_job j.id r) _ _ refl rest) rest

unlisted : (now : ℕ) (r : JobRow) → Listed now [] r → is_due now r ≡ false
unfolding exists_where
unlisted now r k = elim (Bool-cases (is_due now r)) [
  | inl d ↦ absurd (false≢true (k d))
  | inr d ↦ d
]

fire_all-quiet :
    (env : FireEnv) (due : List JobRow) (w : World)
    → All (Listed env.now due) w.jobs
    → All (λ r. is_due env.now r ≡ false) (fire_all env due w).jobs
unfolding fire_all
fire_all-quiet env [] w h =
    All-weaken (Listed env.now []) (λ r. is_due env.now r ≡ false) w.jobs
      (λ r k. unlisted env.now r k) h
fire_all-quiet env (j ∷ due) w h = fire_all-quiet env due _ (
    reschedule-Listed env.now env.clock j due (fire_due env w j).jobs (
      fire_due-Keeps env (Listed env.now (j ∷ due))
        (λ r k. Listed-not_due env.now (j ∷ due) (record r { enabled = false }) refl) (λ r id k. k)
        w j h))

-- A tick ends with no job due. It fires each due job with a task that follows a session or is pinned
-- to it, outside any chat: where that session exists and the job is not to be paused, its inbox then holds
-- an undrained fire of the job's name. And it loses no job but the one-shots that were due: the
-- others are still there, disabled or due at a later time.
pub run_due_jobs-quiet :
    (env : FireEnv) (w : World)
    → All (λ r. is_due env.now r ≡ false) (run_due_jobs env w).jobs
      × ((r : JobRow) (sid : ℕ)
          → IsIn r w.jobs
          → is_due env.now r ≡ true
          → Follows env r sid
          → session_exists w.sessions (pos (suc sid)) ≡ true
          → fire_pending (run_due_jobs env w) (suc sid) r.name ≡ true)
      × ((id : ℤ)
          → NoneDue id env.now w.jobs
          → HasJob id w.jobs
          → HasJob id (run_due_jobs env w).jobs)
unfolding run_due_jobs
run_due_jobs-quiet env w = (
  fire_all-quiet env (select_where (is_due env.now) w.jobs) w (
      All-weaken (λ r. IsIn r w.jobs) (Listed env.now (select_where (is_due env.now) w.jobs)) w.jobs
        (Listed-due env.now w.jobs) (All-self w.jobs)),
  run_due_jobs-fires env w,
  run_due_jobs-HasJob env w,
)
