-- ===== src/Cron/OneFire.antt =====
-- A job's prompt waits once: what src/cron.c puts in an inbox when it fires.
use cclaw.Prelude.{
  ℕ, ◌≤◌, ◌≡◌, refl, sym, subst, true, false, ◌&&◌, ◌||◌, not, List, [], ◌∷◌, Option, none, some,
  if◌then◌else◌, if_both, Bytes, bytes_eq, bytes_eq→eq, codes, ◌==◌, All, All-weaken, Bool-cases,
  inl, inr, and_right, and_false, arith,
}
use cclaw.Prelude.Int.{is_pos}
use cclaw.Store.{Session}
use cclaw.Store.Sql.{
  count_where, select_where, count_where-append, count_where-append_miss, exists_where-count_where,
  count_where-zero,
}
use cclaw.Store.Inbox.{inbox_insert}
use cclaw.Cron.Table.{JobRow}
use cclaw.Cron.Fire.{
  World, FireEnv, is_fire, fire_pending, has_payload, is_new, fire_due, fire_unless, fire_routed,
  fire_at, fire_new, fire_error, pause_job, launch, run_script, stamp_session, insert_for, text_or,
  at_limit, still_running, with_session, fresh_session, tell_owner, CronScriptRc, busy, failed,
  spawned, filled, Target, no_session, refuse_fire, deliver_to, Routed, lost, unrouted, routed_to,
  chat_bound, target_of, route_of, recent_session, is_recurring,
}
use cclaw.Cron.Tick.{is_due, fire_all, run_due_jobs, reschedule_due}

abbrev pub OneFire : World → Type 0
OneFire w = (session_id : ℕ) (name : Bytes) → count_where (is_fire session_id name) w.inbox ≤ 1

-- A new session has no rows in the inbox: its id was never used.
abbrev pub NewIsEmpty : FireEnv → Type 0
NewIsEmpty env = (w : World) → All (λ i. (i.session_id == env.next_session w) ≡ false) w.inbox

module _ (env : FireEnv) (new_empty : NewIsEmpty env) where
  -- A row that is no fire changes no count.
  insert-miss :
      (w : World) (sid : ℕ) (source : Bytes) (ref : Option Bytes) (text : Bytes)
      → bytes_eq source (codes "cron") ≡ false
      → OneFire w
      → OneFire (insert_for env w sid source ref text)
  unfolding inbox_insert
  insert-miss w sid source ref text e h s n =
      subst (λ k. k ≤ 1)
        (sym (count_where-append_miss (is_fire s n) w.inbox _ (and_false (sid == s) _ (rw e refl))))
        (h s n)

  insert-fire :
      (w : World) (sid : ℕ) (name text : Bytes)
      → count_where (is_fire sid name) w.inbox ≡ 0
      → OneFire w
      → OneFire (insert_for env w sid (codes "cron") (some name) text)
  unfolding inbox_insert
  insert-fire w sid name text e h s n = elim (Bool-cases ((sid == s) && bytes_eq name n)) [
    | inr miss ↦
        subst (λ k. k ≤ 1) (sym (count_where-append_miss (is_fire s n) w.inbox _ (ground arith)))
          (h s n)
    | inl hit ↦
        let same : sid ≡ s = ground arith in
        let same_name = bytes_eq→eq name n (and_right (sid == s) (bytes_eq name n) hit) in
        let unmet : count_where (is_fire s n) w.inbox ≡ 0 =
          subst (λ k. count_where (is_fire k n) w.inbox ≡ 0) same
            (subst (λ m. count_where (is_fire sid m) w.inbox ≡ 0) same_name e) in
        omega (arith, count_where-append (is_fire s n) w.inbox _, unmet)
  ]

  stamp-OneFire : (w : World) (j : JobRow) (sid : ℕ) → OneFire w → OneFire (stamp_session w j sid)
  stamp-OneFire w j sid h = if_both OneFire (is_new j || is_pos j.session_id) _ _ h h

  tell-OneFire :
      (w : World) (source : Bytes) (ref : Option Bytes) (text : Bytes) (owner : Option Session)
      → bytes_eq source (codes "cron") ≡ false
      → OneFire w
      → OneFire (tell_owner env w source ref text owner)
  tell-OneFire w source ref text none e h = h
  tell-OneFire w source ref text (some s) e h = insert-miss w s.id source ref text e h

  error-OneFire :
      (w : World) (j : JobRow) (why : Bytes) → OneFire w → OneFire (fire_error env w j why)
  unfolding fire_error
  error-OneFire w j why h =
      tell-OneFire w (codes "cron_error") _ _ (recent_session w.sessions j.agent_name) refl h

  pause-OneFire :
      (w : World) (j : JobRow) (detail : Bytes) → OneFire w → OneFire (pause_job env w j detail)
  unfolding pause_job
  pause-OneFire w j detail h =
      tell-OneFire _ (codes "system") _ _ (recent_session w.sessions j.agent_name) refl h

  script-OneFire :
      (w : World) (j : JobRow) (sid : ℕ) (rc : CronScriptRc)
      → OneFire w
      → OneFire (run_script env w j sid rc)
  script-OneFire w j sid busy h = h
  script-OneFire w j sid (failed why) h = error-OneFire w j why h
  script-OneFire w j sid spawned h = stamp-OneFire w j sid h

  launch-OneFire :
      (w : World) (j : JobRow) (sid : ℕ)
      → (filled j.task ≡ true → count_where (is_fire sid j.name) w.inbox ≡ 0)
      → OneFire w
      → OneFire (launch env w j sid)
  unfolding launch
  launch-OneFire w j sid room h =
      if_both OneFire (filled j.script) _ _ (script-OneFire w j sid (env.runner j sid) h)
        (elim (Bool-cases (filled j.task)) [
          | inr e ↦ rw e (stamp-OneFire w j sid h)
          | inl e ↦ rw e (
              stamp-OneFire
                (insert_for env w sid (codes "cron") (some j.name) (env.scan (text_or j.task))) j
                sid (insert-fire w sid j.name (env.scan (text_or j.task)) (room e) h))
        ])

  fresh-room :
      (w : World) (j : JobRow) → count_where (is_fire (fresh_session env w j).id j.name) w.inbox ≡ 0
  unfolding fresh_session
  fresh-room w j = count_where-zero (is_fire (env.next_session w) j.name) w.inbox (
      All-weaken (λ i. (i.session_id == env.next_session w) ≡ false)
        (λ i. is_fire (env.next_session w) j.name i ≡ false) w.inbox (λ i e. rw e refl)
        (new_empty w))

  new-OneFire : (w : World) (j : JobRow) → OneFire w → OneFire (fire_new env w j)
  unfolding fire_new
  new-OneFire w j h = if_both OneFire (at_limit env w) _ _ h (
      if_both OneFire (still_running w j) _ _ h (
        launch-OneFire (with_session w (fresh_session env w j)) j (fresh_session env w j).id
          (λ e. fresh-room w j) h))

  at-OneFire : (w : World) (j : JobRow) (t : Target) → OneFire w → OneFire (fire_at env w j t)
  unfolding fire_pending
  at-OneFire w j no_session h = h
  at-OneFire w j (refuse_fire why) h = error-OneFire w j why h
  at-OneFire w j (deliver_to sid) h =
      elim (Bool-cases (has_payload j && fire_pending w sid j.name)) [
        | inl e ↦ rw e h
        | inr e ↦ rw e (
            launch-OneFire w j sid
              (λ task. exists_where-count_where (is_fire sid j.name) w.inbox (ground arith)) h)
      ]

  routed-OneFire :
      (w : World) (j : JobRow) (route : Routed) → OneFire w → OneFire (fire_routed env w j route)
  routed-OneFire w j lost h = error-OneFire w j _ h
  routed-OneFire w j unrouted h =
      if_both OneFire (is_new j) _ _
        (if_both OneFire (chat_bound j) _ _ (error-OneFire w j _ h) (new-OneFire w j h))
        (at-OneFire w j (target_of w j unrouted) h)
  routed-OneFire w j (routed_to sid) h =
      if_both OneFire (is_new j) _ _ (new-OneFire w j h)
        (at-OneFire w j (target_of w j (routed_to sid)) h)

  unless-OneFire :
      (w : World) (j : JobRow) (detail : Option Bytes)
      → OneFire w
      → OneFire (fire_unless env w j detail)
  unless-OneFire w j (some detail) h = pause-OneFire w j detail h
  unless-OneFire w j none h = routed-OneFire w j (route_of w j) h

  fire_due-OneFire : (w : World) (j : JobRow) → OneFire w → OneFire (fire_due env w j)
  unfolding fire_due
  fire_due-OneFire w j h =
      if_both OneFire (is_new j && not (has_payload j)) _ _ h
        (unless-OneFire w j (if is_recurring j then env.streak j else none) h)

  fire_all-OneFire : (due : List JobRow) (w : World) → OneFire w → OneFire (fire_all env due w)
  unfolding fire_all
  fire_all-OneFire [] w h = h
  fire_all-OneFire (j ∷ due) w h =
      let fired = fire_due env w j in
      fire_all-OneFire due (record fired { jobs = reschedule_due env.clock env.now j fired.jobs })
        (fire_due-OneFire w j h)

  -- Jobs do not pile up: a tick leaves in no session's inbox more than one undrained fire of one
  -- name, if there was no more before it, however many jobs are due and wherever they are routed.
  pub run_due_jobs-OneFire : (w : World) → OneFire w → OneFire (run_due_jobs env w)
  unfolding run_due_jobs
  run_due_jobs-OneFire w h = fire_all-OneFire (select_where (is_due env.now) w.jobs) w h
