-- ===== src/Cron/Held.antt =====
-- The jobs that a tick of src/cron.c keeps: all but the one-shots that were due.
use cclaw.Prelude.{
  ℕ, ◌≡◌, refl, sym, ap, subst, ◌∙◌, true, false, Bool, ◌&&◌, ◌||◌, List, [], ◌∷◌, Option, none,
  some, if_both, Bool-cases, inl, inr, false≢true,
}
use cclaw.Prelude.Int.{ℤ, pos, negsuc, is_pos, add_ℕ, sub_ℕ-zero_iff}
use cclaw.Store.Sql.{update_where, delete_where, select_where, exists_where}
use cclaw.Cron.Next.{Clock, cron_next_run}
use cclaw.Cron.Table.{JobRow, same_id, coalesce}
use cclaw.Cron.Fire.{World, FireEnv, is_job, is_new, fire_due}
use cclaw.Cron.Tick.{is_due, set_next, advance_by, reschedule_due, fire_all, run_due_jobs}
use cclaw.Cron.Closed.{fire_due-keeps}

same_id→eq : (a b : ℤ) → same_id a b ≡ true → a ≡ b
same_id→eq (pos m) (pos n) h = ap pos ((sub_ℕ-zero_iff m n).0 h)
same_id→eq (negsuc m) (negsuc n) h = ap negsuc ((sub_ℕ-zero_iff m n).0 h)
same_id→eq (pos m) (negsuc n) h = absurd (false≢true h)
same_id→eq (negsuc m) (pos n) h = absurd (false≢true h)

-- The row of an id is in the table.
abbrev pub HasJob : ℤ → List JobRow → Type 0
HasJob id jobs = exists_where (is_job id) jobs ≡ true

module _ (id : ℤ) where
  exists_where-update :
      (test : JobRow → Bool) (set : JobRow → JobRow) (jobs : List JobRow)
      → ((r : JobRow) → is_job id (set r) ≡ is_job id r)
      → HasJob id jobs
      → HasJob id (update_where test set jobs)
  unfolding exists_where update_where
  exists_where-update test set [] same h = h
  exists_where-update test set (r ∷ jobs) same h = elim (Bool-cases (is_job id r)) [
    | inl e ↦ elim (Bool-cases (test r)) [ inl t ↦ rw (t, same r, e) refl | inr t ↦ rw (t, e) refl ]
    | inr e ↦ elim (Bool-cases (test r)) [
      | inl t ↦ rw (t, same r, e) (exists_where-update test set jobs same (rw e at h))
      | inr t ↦ rw (t, e) (exists_where-update test set jobs same (rw e at h))
    ]
  ]

  exists_where-delete :
      (test : JobRow → Bool) (jobs : List JobRow)
      → ((r : JobRow) → is_job id r ≡ true → test r ≡ false)
      → HasJob id jobs
      → HasJob id (delete_where test jobs)
  unfolding exists_where delete_where
  exists_where-delete test [] other h = h
  exists_where-delete test (r ∷ jobs) other h = elim (Bool-cases (is_job id r)) [
    | inl e ↦ rw (other r e, e) refl
    | inr e ↦
        let rest = exists_where-delete test jobs other (rw e at h) in
        if_both (λ (l : List JobRow). HasJob id l) (test r) _ _ rest
          (if_both (λ b. b ≡ true) (is_job id r) _ _ refl rest)
  ]

  fire_due-HasJob :
      (env : FireEnv) (w : World) (j : JobRow)
      → HasJob id w.jobs
      → HasJob id (fire_due env w j).jobs
  fire_due-HasJob env =
      fire_due-keeps env (λ w. HasJob id w.jobs) (λ w s source ref text h. h)
        (λ w j s h.
          if_both (λ (u : World). HasJob id u.jobs) (is_new j || is_pos j.session_id) _ _
            (exists_where-update (is_job j.id) (λ r. record r { session_id = pos s }) w.jobs
              (λ r. refl) h)
            h)
        (λ w j h.
          exists_where-update (is_job j.id) (λ r. record r { enabled = false }) w.jobs (λ r. refl)
            h)
        (λ w s h. h)

  -- The job is a one-shot with this id.
  abbrev pub is_one_shot : JobRow → Bool
  is_one_shot j = is_pos (coalesce j.run_at) && same_id j.id id

  reschedule-HasJob :
      (clock : Clock) (now : ℕ) (j : JobRow) (jobs : List JobRow)
      → is_one_shot j ≡ false
      → HasJob id jobs
      → HasJob id (reschedule_due clock now j jobs)
  unfolding reschedule_due
  reschedule-HasJob clock now j jobs other h = elim (Bool-cases (is_pos (coalesce j.run_at))) [
    | inl shot ↦
        rw shot (
          exists_where-delete (is_job j.id) jobs (λ r e. other_id r.id j.id e (rw shot at other)) h)
    | inr recurs ↦ rw recurs (
        if_both (HasJob id) (is_pos (coalesce j.interval_s)) _ _
          (exists_where-update (is_job j.id) (set_next (add_ℕ now (coalesce j.interval_s))) jobs
            (λ r. refl) h)
          (advanced (cron_next_run clock j.cron_expr now)))
  ]
    where
      other_id : (a b : ℤ) → same_id a id ≡ true → same_id b id ≡ false → same_id a b ≡ false
      other_id a b e n = elim (Bool-cases (same_id a b)) [
        | inr d ↦ d
        | inl d ↦
            absurd (false≢true (sym n ∙ subst (λ x. same_id x id ≡ true) (same_id→eq a b d) e))
      ]

      advanced : (next : Option ℕ) → HasJob id (advance_by j next jobs)
      advanced none =
          exists_where-update (is_job j.id) (λ r. record r { enabled = false }) jobs (λ r. refl) h
      advanced (some next) =
          exists_where-update (is_job j.id) (set_next (pos next)) jobs (λ r. refl) h

  fire_all-HasJob :
      (env : FireEnv) (due : List JobRow) (w : World)
      → exists_where is_one_shot due ≡ false
      → HasJob id w.jobs
      → HasJob id (fire_all env due w).jobs
  unfolding fire_all exists_where
  fire_all-HasJob env [] w none_due h = h
  fire_all-HasJob env (j ∷ due) w none_due h = elim (Bool-cases (is_one_shot j)) [
    | inl e ↦ absurd (false≢true (sym (rw e at none_due)))
    | inr e ↦ fire_all-HasJob env due _ (rw e at none_due) (
        reschedule-HasJob env.clock env.now j (fire_due env w j).jobs e (fire_due-HasJob env w j h))
  ]

  -- No one-shot of this id is due.
  abbrev pub NoneDue : ℕ → List JobRow → Type 0
  NoneDue now jobs = exists_where (λ j. is_due now j && is_one_shot j) jobs ≡ false

  due-one_shot :
      (now : ℕ) (jobs : List JobRow)
      → NoneDue now jobs
      → exists_where is_one_shot (select_where (is_due now) jobs) ≡ false
  unfolding exists_where select_where
  due-one_shot now [] h = refl
  due-one_shot now (j ∷ jobs) h = elim (Bool-cases (is_due now j)) [
    | inr e ↦ rw e (due-one_shot now jobs (rw e at h))
    | inl e ↦ elim (Bool-cases (is_one_shot j)) [
      | inl o ↦ absurd (false≢true (sym (rw (e, o) at h)))
      | inr o ↦ rw (e, o) (due-one_shot now jobs (rw (e, o) at h))
    ]
  ]

-- No other job is lost.
pub run_due_jobs-HasJob :
    (env : FireEnv) (w : World) (id : ℤ)
    → NoneDue id env.now w.jobs
    → HasJob id w.jobs
    → HasJob id (run_due_jobs env w).jobs
unfolding run_due_jobs
run_due_jobs-HasJob env w id n h =
    fire_all-HasJob id env (select_where (is_due env.now) w.jobs) w
      (due-one_shot id env.now w.jobs n) h
