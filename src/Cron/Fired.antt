-- ===== src/Cron/Fired.antt =====
-- What a tick of src/cron.c does for the jobs that are due: one that follows a session is fired into it.
use cclaw.Prelude.{
  ℕ, suc, ◌≡◌, refl, sym, ap, subst, ◌∙◌, true, false, Bool, ◌&&◌, ◌||◌, List, [], ◌∷◌, ◌++◌, none,
  if◌then◌else◌, if_both, Bytes, bytes_eq_refl, Bool-cases, inl, inr, false≢true, and_true,
  and_right, and_left, arith,
}
use cclaw.Prelude.Int.{ℤ, pos, is_pos}
use cclaw.Store.Inbox.{inbox_insert}
use cclaw.Store.Sql.{select_where, exists_where, IsIn}
use cclaw.Cron.Table.{JobRow, same_id}
use cclaw.Cron.Fire.{
  World, FireEnv, is_new, is_pin, has_payload, fire_due, fire_unless, fire_routed, fire_at, launch,
  filled, chat_bound, target_of, route_of, is_fire, fire_pending, session_exists, is_recurring,
  deliver_to, unrouted,
}
use cclaw.Cron.Tick.{is_due, fire_all, run_due_jobs}
use cclaw.Cron.Closed.{fire_due-keeps}

exists_where-append :
    {A : Type 0} (test : A → Bool) (rows more : List A)
    → exists_where test rows ≡ true
    → exists_where test (rows ++ more) ≡ true
unfolding exists_where
exists_where-append test [] more h = absurd (false≢true h)
exists_where-append test (r ∷ rows) more h = elim (Bool-cases (test r)) [
  | inl e ↦ rw e refl
  | inr e ↦ rw e (exists_where-append test rows more (rw e at h))
]

exists_where-last :
    {A : Type 0} (test : A → Bool) (rows : List A) (r : A)
    → test r ≡ true
    → exists_where test (rows ++ r ∷ []) ≡ true
unfolding exists_where
exists_where-last test [] r h = rw h refl
exists_where-last test (s ∷ rows) r h =
    if_both (λ b. b ≡ true) (test s) _ _ refl (exists_where-last test rows r h)

module _ (env : FireEnv) where
  -- An undrained fire stays in the inbox through every other fire.
  fire_due-pending :
      (sid : ℕ) (name : Bytes) (w : World) (j : JobRow)
      → fire_pending w sid name ≡ true
      → fire_pending (fire_due env w j) sid name ≡ true
  unfolding fire_pending inbox_insert
  fire_due-pending sid name =
      fire_due-keeps env (λ w. fire_pending w sid name ≡ true)
        (λ w s source ref text h. exists_where-append (is_fire sid name) w.inbox _ h)
        (λ w j s h.
          if_both (λ (u : World). fire_pending u sid name ≡ true) (is_new j || is_pos j.session_id)
            _ _ h h)
        (λ w j h. h) (λ w s h. h)

  fire_due-exists :
      (id : ℤ) (w : World) (j : JobRow)
      → session_exists w.sessions id ≡ true
      → session_exists (fire_due env w j).sessions id ≡ true
  unfolding session_exists
  fire_due-exists id =
      fire_due-keeps env (λ w. session_exists w.sessions id ≡ true) (λ w s source ref text h. h)
        (λ w j s h.
          if_both (λ (u : World). session_exists u.sessions id ≡ true)
            (is_new j || is_pos j.session_id) _ _ h h)
        (λ w j h. h)
        (λ w s h.
          and_true _ _ (and_left _ _ h) (exists_where-append _ w.sessions _ (and_right _ _ h)))

  -- A job with a task that follows a session, or is pinned to it, outside any chat, and is not to be paused.
  pub record Follows (j : JobRow) (session_id : ℕ) : Type 0 where
    pub task : filled j.task ≡ true
    pub no_script : filled j.script ≡ false
    pub old_session : is_new j ≡ false
    pub no_chat : chat_bound j ≡ false
    pub session : j.session_id ≡ pos (suc session_id)
    pub not_failing : env.streak j ≡ none

  target-Follows :
      (w : World) (j : JobRow) (sid : ℕ)
      → Follows j sid
      → session_exists w.sessions (pos (suc sid)) ≡ true
      → target_of w j unrouted ≡ deliver_to (suc sid)
  unfolding target_of
  target-Follows w j sid f e =
      let bound : same_id (pos (suc sid)) (pos 0) ≡ false = ground arith in
      if_both (λ t. t ≡ deliver_to (suc sid)) (is_pin j) _ _ (rw (f.session, e) refl)
        (rw (f.session, bound, e) refl)

  launch-pending :
      (w : World) (j : JobRow) (sid : ℕ)
      → filled j.task ≡ true
      → filled j.script ≡ false
      → fire_pending (launch env w j sid) sid j.name ≡ true
  unfolding launch fire_pending inbox_insert
  launch-pending w j sid task script =
      let there =
        exists_where-last (is_fire sid j.name) w.inbox _
          (and_true _ _ (ground arith) (bytes_eq_refl j.name)) in
      rw (script, task)
        (if_both (λ (u : World). fire_pending u sid j.name ≡ true) (is_new j || is_pos j.session_id)
          _ _ there there)

  at-pending :
      (w : World) (j : JobRow) (sid : ℕ)
      → filled j.task ≡ true
      → filled j.script ≡ false
      → fire_pending (fire_at env w j (deliver_to sid)) sid j.name ≡ true
  at-pending w j sid task script = elim (Bool-cases (has_payload j && fire_pending w sid j.name)) [
    | inl e ↦ rw e (and_right (has_payload j) _ e)
    | inr e ↦ rw e (launch-pending w j sid task script)
  ]

  fire_due-fires :
      (w : World) (j : JobRow) (sid : ℕ)
      → Follows j sid
      → session_exists w.sessions (pos (suc sid)) ≡ true
      → fire_pending (fire_due env w j) (suc sid) j.name ≡ true
  unfolding fire_due
  fire_due-fires w j sid f e =
      let no_streak : (if is_recurring j then env.streak j else none) ≡ none =
        if_both (λ o. o ≡ none) (is_recurring j) _ _ f.not_failing refl in
      let unbound : route_of w j ≡ unrouted = rw f.no_chat refl in
      let paused_or : fire_due env w j
          ≡ fire_unless env w j (if is_recurring j then env.streak j else none) =
        rw f.old_session refl in
      let direct : fire_routed env w j unrouted ≡ fire_at env w j (target_of w j unrouted) =
        rw f.old_session refl in
      let way =
        paused_or
        ∙ ap (fire_unless env w j) no_streak
        ∙ ap (fire_routed env w j) unbound
        ∙ direct
        ∙ ap (fire_at env w j) (target-Follows w j sid f e) in
      subst (λ u. fire_pending u (suc sid) j.name ≡ true) (sym way)
        (at-pending w j (suc sid) f.task f.no_script)

  fire_all-pending :
      (sid : ℕ) (name : Bytes) (due : List JobRow) (w : World)
      → fire_pending w sid name ≡ true
      → fire_pending (fire_all env due w) sid name ≡ true
  unfolding fire_all fire_pending
  fire_all-pending sid name [] w h = h
  fire_all-pending sid name (j ∷ due) w h =
      fire_all-pending sid name due _ (fire_due-pending sid name w j h)

  fire_all-fires :
      (due : List JobRow) (w : World) (r : JobRow) (sid : ℕ)
      → IsIn r due
      → Follows r sid
      → session_exists w.sessions (pos (suc sid)) ≡ true
      → fire_pending (fire_all env due w) (suc sid) r.name ≡ true
  unfolding fire_all fire_pending
  fire_all-fires [] w r sid m f e = absurd m
  fire_all-fires (j ∷ due) w r sid (inr m) f e =
      fire_all-fires due _ r sid m f (fire_due-exists (pos (suc sid)) w j e)
  fire_all-fires (j ∷ due) w r sid (inl same) f e = fire_all-pending (suc sid) r.name due _ (
      subst (λ k. fire_pending (fire_due env w k) (suc sid) r.name ≡ true) (sym same)
        (fire_due-fires w r sid f e))

select_where-IsIn :
    (now : ℕ) (jobs : List JobRow) (r : JobRow)
    → IsIn r jobs
    → is_due now r ≡ true
    → IsIn r (select_where (is_due now) jobs)
unfolding select_where
select_where-IsIn now [] r h e = absurd h
select_where-IsIn now (j ∷ jobs) r (inl same) e =
    let due_j : is_due now j ≡ true = subst (λ x. is_due now x ≡ true) (sym same) e in
    rw due_j (inl same)
select_where-IsIn now (j ∷ jobs) r (inr later) e =
    let rest = select_where-IsIn now jobs r later e in
    if_both (λ (l : List JobRow). IsIn r l) (is_due now j) _ _ (inr rest) rest

-- A due job is fired.
pub run_due_jobs-fires :
    (env : FireEnv) (w : World) (r : JobRow) (sid : ℕ)
    → IsIn r w.jobs
    → is_due env.now r ≡ true
    → Follows env r sid
    → session_exists w.sessions (pos (suc sid)) ≡ true
    → fire_pending (run_due_jobs env w) (suc sid) r.name ≡ true
unfolding run_due_jobs fire_pending
run_due_jobs-fires env w r sid m d f e =
    fire_all-fires env (select_where (is_due env.now) w.jobs) w r sid
      (select_where-IsIn env.now w.jobs r m d) f e
