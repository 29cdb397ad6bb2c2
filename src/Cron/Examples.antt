-- ===== src/Cron/Examples.antt =====
-- Runs of the code of src/cron.c on a clock whose months have thirty days, and on a small table.
use cclaw.Prelude.{
  suc, inl, ℕ, ◌≡◌, refl, ◌+◌, ◌≤◌, ◌==◌, All, length, ◌-◌, ◌*◌, ◌/◌, ◌%◌, inl, true, false, List,
  [], ◌∷◌, none, some, if◌then◌else◌, Bytes, codes, bytes_eq, arith, some_eq, sym, ap, ◌∙◌,
  false≢true,
}
use cclaw.Prelude.Int.{ℤ, pos}
use cclaw.Cron.Field.{parse_field}
use cclaw.Cron.Next.{Clock, Expr, cron_next_run, search_from}
use cclaw.Cron.Document.{Json, CronDoc, cron_doc_parse}
use cclaw.Cron.Merge.{pin_word}
use cclaw.Cron.Table.{JobRow, Database, find_job, cron_upsert, cron_remove}
use cclaw.Store.{Session, idle, InboxRow}
use cclaw.Store.Sql.{count_where, IsIn}
use cclaw.Cron.Fire.{World, FireEnv, busy, session_exists, fire_pending}
use cclaw.Cron.Tick.{is_due, run_due_jobs}
use cclaw.Cron.Fired.{run_due_jobs-fires, Follows}
use cclaw.Cron.Held.{HasJob, NoneDue}
use cclaw.Cron.Quiet.{run_due_jobs-quiet}
use cclaw.Cron.OneFire.{OneFire, NewIsEmpty, run_due_jobs-OneFire}
use cclaw.Cron.Run.{IsRun, cron_next_run-IsRun, search_from-enough}
use cclaw.Cron.Kept.{Keeps, cron_upsert-others, cron_upsert-Keeps}

abbrev day_clock : Clock
day_clock = record {
  localtime = λ t. record {
    tm_year = 70;
    tm_mon = t / (86400 * 30);
    tm_mday = t / 86400 % 30 + 1;
    tm_wday = t / 86400 % 7;
    tm_hour = t / 3600 % 24;
    tm_min = t / 60 % 60;
    tm_sec = t % 60;
  };
  mktime = λ tm. some ((tm.tm_mon * 30 + tm.tm_mday - 1) * 86400);
}

every_field-test : parse_field (codes "1-9/4,30") 0 59 ≡ some (1 ∷ 5 ∷ 9 ∷ 30 ∷ [])
unfolding parse_field
every_field-test = refl

-- a range that runs backwards sets no bit, and is no error
backwards-test : parse_field (codes "5-3") 0 59 ≡ some []
unfolding parse_field
backwards-test = refl

half_past : cron_next_run day_clock (some (codes "30 9 2 * *")) 100 ≡ some (86400 + 9 * 3600 + 1800)
unfolding cron_next_run
half_past = refl

cron_next_run-IsRun_example : IsRun day_clock (codes "30 9 2 * *") 100 (86400 + 9 * 3600 + 1800)
cron_next_run-IsRun_example =
    cron_next_run-IsRun day_clock (codes "30 9 2 * *") 100 (86400 + 9 * 3600 + 1800) half_past

abbrev each_minute : Expr
each_minute = record {
  minutes = 3 ∷ [];
  hours = 0 ∷ [];
  doms = 1 ∷ [];
  months = 1 ∷ [];
  dows = 0 ∷ [];
}

search_from-enough_example :
    search_from day_clock 500 300 each_minute 60 ≡ search_from day_clock 240 300 each_minute 60
search_from-enough_example =
    search_from-enough day_clock 240 500 300 each_minute 60 (omega arith) (omega arith)

-- A document with a name alone.
abbrev name_only : Bytes → Json
name_only n = record {
  valid_object = true;
  str = λ k. if bytes_eq k (codes "name") then some n else none;
  int = λ k z. z;
  has = λ k. false;
}

abbrev job : ℕ → Bytes → JobRow
job id name = record {
  id = pos id;
  agent_name = codes "main";
  name = name;
  cron_expr = some (codes "0 9 * * *");
  run_at = none;
  interval_s = none;
  session_id = pos 7;
  task = some (codes "report");
  script = none;
  channel_name = none;
  chat_id = none;
  target = some pin_word;
  target_agent = none;
  enabled = false;
  next_run_at = pos 32400;
}

abbrev two_jobs : Database
two_jobs = record { jobs = job 1 (codes "first") ∷ job 2 (codes "second") ∷ []; sessions = [] }

abbrev sample_id : List JobRow → ℤ
sample_id jobs = pos 3

abbrev parsed : Bytes → CronDoc
parsed n = record {
  name = some n;
  cron_expr = none;
  in_seconds = pos 0;
  prompt = none;
  script = none;
  session_id = pos 0;
  session = none;
  agent = none;
  channel_name = none;
  chat_id = none;
  has_expr = false;
  has_seconds = false;
  has_prompt = false;
  has_script = false;
  has_session = false;
  has_session_id = false;
  has_agent = false;
  has_channel = false;
  has_chat = false;
}

parsed-second : cron_doc_parse (some (name_only (codes "second"))) ≡ some (parsed (codes "second"))
unfolding cron_doc_parse
parsed-second = refl

second-found :
    find_job (codes "main") (codes "second") two_jobs.jobs ≡ some (job 2 (codes "second"))
unfolding find_job
second-found = refl

second-accepted :
    (cron_upsert day_clock 0
      (pos 60)
      sample_id
      two_jobs
      (some (codes "main"))
      (pos 0)
      (some (name_only (codes "second")))).error
    ≡ none
unfolding cron_upsert
second-accepted = refl

cron_upsert-Keeps_example :
    Keeps day_clock 0 (pos 60) sample_id (codes "main") (codes "second") (job 2 (codes "second")) (
      cron_upsert day_clock 0
        (pos 60)
        sample_id
        two_jobs
        (some (codes "main"))
        (pos 0)
        (some (name_only (codes "second"))))
cron_upsert-Keeps_example =
    cron_upsert-Keeps day_clock 0 (pos 60) sample_id two_jobs (some (codes "main")) (pos 0)
      (some (name_only (codes "second"))) (parsed (codes "second")) b's' (codes "econd")
      (job 2 (codes "second")) parsed-second refl second-found (inl refl) second-accepted

not_first :
    (d : CronDoc)
    → cron_doc_parse (some (name_only (codes "second"))) ≡ some d
    → (codes "main" ≡ codes "main") × (d.name ≡ some (codes "first"))
    → ⊥
not_first d p (a, q) =
    let same : parsed (codes "second") ≡ d =
      some_eq (parsed (codes "second")) d (sym parsed-second ∙ p) in
    let names : codes "second" ≡ codes "first" =
      some_eq (codes "second") (codes "first") (ap (λ x. x.name) same ∙ q) in
    absurd (false≢true (sym (ap (λ n. bytes_eq n (codes "second")) names)))

cron_upsert-others_example :
    find_job
      (codes "main")
      (codes "first")
      (cron_upsert day_clock 0
        (pos 60)
        sample_id
        two_jobs
        (some (codes "main"))
        (pos 0)
        (some (name_only (codes "second")))).db.jobs
    ≡ find_job (codes "main") (codes "first") two_jobs.jobs
cron_upsert-others_example =
    cron_upsert-others day_clock 0 (pos 60) sample_id two_jobs (some (codes "main")) (pos 0)
      (some (name_only (codes "second"))) (codes "main") (codes "first") not_first

remove-test : (cron_remove two_jobs (pos 2) (some (codes "other"))).1 ≡ false
unfolding cron_remove
remove-test = refl

-- A tick on an interval job, whose owner has one session.
abbrev pulse : JobRow
pulse = record {
  id = pos 1;
  agent_name = codes "ada";
  name = codes "pulse";
  cron_expr = some [];
  run_at = none;
  interval_s = some (pos 60);
  session_id = pos 7;
  task = some (codes "tick");
  script = none;
  channel_name = none;
  chat_id = none;
  target = none;
  target_agent = none;
  enabled = true;
  next_run_at = pos 100;
}

abbrev ada : Session
ada = record {
  id = 7;
  name = none;
  agent_name = some (codes "ada");
  channel_name = none;
  chat_id = none;
  parent_session_id = none;
  depth = 0;
  state = idle;
  owner_instance = none;
  turn_iteration = 0;
  updated_at = 50;
}

abbrev world : World
world = record { jobs = pulse ∷ []; sessions = ada ∷ []; inbox = []; routes = [] }

unfoldable above : List InboxRow → ℕ
above [] = 0
above (i ∷ rows) = i.session_id + 1 + above rows

abbrev fire_env : FireEnv
fire_env = record {
  clock = day_clock;
  now = 130;
  streak = λ j. none;
  runner = λ j sid. busy;
  scan = λ s. s;
  max_active = 0;
  next_session = λ w. above w.inbox;
  next_row = λ w. length w.inbox + 1;
}

fired-test :
    (run_due_jobs fire_env world).inbox
    ≡ (record {
      id = 1;
      session_id = 7;
      source = codes "cron";
      source_ref = some (codes "pulse");
      payload = codes "tick";
      consumed = false;
    })
      ∷ []
unfolding run_due_jobs
fired-test = refl

next-test : (run_due_jobs fire_env world).jobs ≡ (record pulse { next_run_at = pos 190 }) ∷ []
unfolding run_due_jobs
next-test = refl

run_due_jobs-quiet_example :
    All (λ r. is_due 130 r ≡ false) (run_due_jobs fire_env world).jobs
    × ((r : JobRow) (sid : ℕ)
        → IsIn r world.jobs
        → is_due 130 r ≡ true
        → Follows fire_env r sid
        → session_exists world.sessions (pos (suc sid)) ≡ true
        → fire_pending (run_due_jobs fire_env world) (suc sid) r.name ≡ true)
    × ((id : ℤ)
        → NoneDue id 130 world.jobs
        → HasJob id world.jobs
        → HasJob id (run_due_jobs fire_env world).jobs)
run_due_jobs-quiet_example = run_due_jobs-quiet fire_env world

pulse-Follows : Follows fire_env pulse 6
pulse-Follows = record {
  task = refl;
  no_script = refl;
  old_session = refl;
  no_chat = refl;
  session = refl;
  not_failing = refl;
}

pulse-fired : fire_pending (run_due_jobs fire_env world) 7 (codes "pulse") ≡ true
unfolding session_exists
pulse-fired = run_due_jobs-fires fire_env world pulse 6 (inl refl) refl pulse-Follows refl

below :
    (rows : List InboxRow) (n : ℕ) → above rows ≤ n → All (λ i. (i.session_id == n) ≡ false) rows
unfolding above
below [] n h = tt
below (i ∷ rows) n h = (ground arith, below rows n (omega arith))

above_all : NewIsEmpty fire_env
above_all w = below w.inbox (above w.inbox) (omega arith)

world-OneFire : OneFire world
unfolding count_where
world-OneFire s n = omega arith

run_due_jobs-OneFire_example : OneFire (run_due_jobs fire_env world)
run_due_jobs-OneFire_example = run_due_jobs-OneFire fire_env above_all world world-OneFire
