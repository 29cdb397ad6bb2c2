-- ===== src/Cron/Table.antt =====
-- The writer of the table `cron_jobs` in src/cron.c: `row_load`, `caller_chat`, `cron_doc_check`,
-- `merged_write`, `cron_upsert` and `cron_remove`. The table is the list of
-- its rows, on which each SQL text is translated; the statements are taken to prepare and to run,
-- and the id of a new row is the one SQLite picks, the parameter `fresh_id`.
use cclaw.Prelude.{
  ℕ, Bool, true, false, ◌&&◌, List, [], ◌∷◌, Option, none, some, if◌then◌else◌, Bytes, bytes_eq,
}
use cclaw.Prelude.Int.{ℤ, pos, negsuc, ltb_ℤ, is_pos, sub_ℕ, is_zero}
use cclaw.Cron.Next.{Clock}
use cclaw.Cron.Document.{Json, CronDoc, cron_doc_parse}
use cclaw.Cron.Merge.{
  CronError, invalid_json, no_name, not_saved, Result, ok, err, CronRow, CronMerged, merged_mode,
  doc_check_merged, blank, merge_schedule, merge_target, or_null,
}

-- A row of the table, less the columns that an upsert leaves alone, with NULL for `none`.
pub record JobRow : Type 0 where
  pub id : ℤ
  pub agent_name : Bytes
  pub name : Bytes
  pub cron_expr : Option Bytes
  pub run_at : Option ℤ
  pub interval_s : Option ℤ
  pub session_id : ℤ
  pub task : Option Bytes
  pub script : Option Bytes
  pub channel_name : Option Bytes
  pub chat_id : Option Bytes
  pub target : Option Bytes
  pub target_agent : Option Bytes
  pub enabled : Bool
  pub next_run_at : ℤ

-- `sessions` gives the channel and the chat of a session that exists.
pub record Database : Type 0 where
  pub jobs : List JobRow
  pub sessions : List (ℤ × (Option Bytes × Option Bytes))

-- `agent ? agent : ""`
abbrev pub text_of : Option Bytes → Bytes
text_of none = []
text_of (some s) = s

abbrev pub coalesce : Option ℤ → ℤ
coalesce none = pos 0
coalesce (some n) = n

abbrev pub same_id : ℤ → ℤ → Bool
same_id (pos m) (pos n) = is_zero (sub_ℕ m n)
same_id (negsuc m) (negsuc n) = is_zero (sub_ℕ m n)
same_id _ _ = false

-- `WHERE agent_name=?1 AND name=?2`
abbrev pub is_key : Bytes → Bytes → JobRow → Bool
is_key agent name j = bytes_eq j.agent_name agent && bytes_eq j.name name

unfoldable pub find_job : Bytes → Bytes → List JobRow → Option JobRow
find_job agent name [] = none
find_job agent name (j ∷ jobs) =
    let rest = find_job agent name jobs in if is_key agent name j then some j else rest

abbrev pub row_of : Option JobRow → CronRow
row_of none = record {
  found = false;
  id = pos 0;
  run_at = pos 0;
  interval_s = pos 0;
  session_id = pos 0;
  next_run_at = pos 0;
  expr = none;
  task = none;
  script = none;
  target = none;
  target_agent = none;
  channel = none;
  chat = none;
}
row_of (some j) = record {
  found = true;
  id = j.id;
  run_at = coalesce j.run_at;
  interval_s = coalesce j.interval_s;
  session_id = j.session_id;
  next_run_at = j.next_run_at;
  expr = j.cron_expr;
  task = j.task;
  script = j.script;
  target = j.target;
  target_agent = j.target_agent;
  channel = j.channel_name;
  chat = j.chat_id;
}

unfoldable pub row_load : Database → Option Bytes → Bytes → CronRow
unfolding find_job
row_load db agent name = row_of (find_job (text_of agent) name db.jobs)

unfoldable pub chat_of : List (ℤ × (Option Bytes × Option Bytes)) → ℤ → Option Bytes × Option Bytes
chat_of [] sid = (none, none)
chat_of ((id, chat) ∷ sessions) sid =
    let rest = chat_of sessions sid in if same_id id sid then chat else rest

-- The calling session's channel and chat.
unfoldable pub caller_chat : Database → ℤ → Option Bytes × Option Bytes
unfolding chat_of
caller_chat db sid = if is_pos sid then chat_of db.sessions sid else (none, none)

abbrev checked_doc : Database → Option Bytes → CronDoc → Option Bytes → Option CronError
checked_doc db agent d none = some no_name
checked_doc db agent d (some []) = some no_name
checked_doc db agent d (some (c ∷ s)) = doc_check_merged d (row_load db agent (c ∷ s))

abbrev check_parsed : Database → Option Bytes → Option CronDoc → Option CronError
check_parsed db agent none = some invalid_json
check_parsed db agent (some d) = checked_doc db agent d d.name

-- 0 is `none`; -1 comes with its error.
unfoldable pub cron_doc_check : Database → Option Bytes → Option Json → Option CronError
unfolding cron_doc_parse doc_check_merged row_load
cron_doc_check db agent doc = check_parsed db agent (cron_doc_parse doc)

abbrev pub if_pos : ℤ → Option ℤ
if_pos n = if is_pos n then some n else none

-- The row that the statement writes over one of that id.
abbrev pub job_of : ℤ → Bytes → Bytes → CronMerged → JobRow
job_of id agent name m = record {
  id = id;
  agent_name = agent;
  name = name;
  cron_expr = some (text_of m.expr);
  run_at = if_pos m.run_at;
  interval_s = if_pos m.interval_s;
  session_id = m.session_id;
  task = some (text_of m.task);
  script = m.script;
  channel_name = m.chan;
  chat_id = m.chat;
  target = m.target;
  target_agent = m.target_agent;
  enabled = true;
  next_run_at = m.next_run_at;
}

-- `INSERT ... ON CONFLICT(agent_name,name) DO UPDATE ... RETURNING id`: the rows and the id.
unfoldable pub put_job : ℤ → Bytes → Bytes → CronMerged → List JobRow → List JobRow × ℤ
put_job fresh agent name m [] = (job_of fresh agent name m ∷ [], fresh)
put_job fresh agent name m (j ∷ jobs) =
    let rest = put_job fresh agent name m jobs in
    if is_key agent name j then (job_of j.id agent name m ∷ jobs, j.id) else (j ∷ rest.0, rest.1)

-- What `cron_upsert` returns and writes through its pointers, beside the database it leaves.
pub record Upsert : Type 0 where
  pub db : Database
  pub id : ℤ
  pub updated : Bool
  pub error : Option CronError

abbrev pub failed : Database → CronError → Upsert
failed db e = record { db = db; id = negsuc 0; updated = false; error = some e }

module _ (clock : Clock) (now : ℕ) (floor : ℤ) (fresh_id : List JobRow → ℤ) where
  unfoldable pub merged_write : Database → Option Bytes → Bytes → CronMerged → Database × ℤ
  unfolding put_job
  merged_write db agent name m =
      let (jobs, id) = put_job (fresh_id db.jobs) (text_of agent) name m db.jobs in
      (record db { jobs = jobs }, id)

  -- The payloads: what the document names, or what the row has.
  abbrev pub with_payload : CronDoc → CronRow → CronMerged → CronMerged
  with_payload d row m = record m {
    task = if d.has_prompt then d.prompt else some (text_of row.task);
    script = if d.has_script then or_null d.script else row.script;
  }

  -- The mode of a document that was accepted; an error leaves NULL.
  abbrev pub mode_of : Result (Option Bytes) → Option Bytes
  mode_of (ok mode) = mode
  mode_of (err e) = none

  unfoldable pub merged_job : Database → ℤ → CronDoc → CronRow → CronMerged → CronMerged
  unfolding caller_chat merge_target merged_mode
  merged_job db caller d row m =
      let (cc, ct) = caller_chat db caller in
      merge_target d row (mode_of (merged_mode d row))
        (if is_pos caller then caller else row.session_id) cc ct (with_payload d row m)

  abbrev pub written : CronRow → Database × ℤ → Upsert
  written row (db, id) = record {
    db = db;
    id = id;
    updated = is_pos id && row.found;
    error = if ltb_ℤ id (pos 0) then some not_saved else none;
  }

  abbrev pub upsert_scheduled :
      Database → Option Bytes → ℤ → Bytes → CronDoc → CronRow → Result CronMerged → Upsert
  upsert_scheduled db agent caller name d row (err e) = failed db e
  upsert_scheduled db agent caller name d row (ok m) =
      written row (merged_write db agent name (merged_job db caller d row m))

  abbrev pub upsert_checked :
      Database → Option Bytes → ℤ → Bytes → CronDoc → CronRow → Option CronError → Upsert
  upsert_checked db agent caller name d row (some e) = failed db e
  upsert_checked db agent caller name d row none =
      upsert_scheduled db agent caller name d row (merge_schedule clock now floor d row blank)

  abbrev pub upsert_row : Database → Option Bytes → ℤ → Bytes → CronDoc → CronRow → Upsert
  upsert_row db agent caller name d row =
      upsert_checked db agent caller name d row (doc_check_merged d row)

  abbrev pub upsert_named : Database → Option Bytes → ℤ → CronDoc → Option Bytes → Upsert
  upsert_named db agent caller d none = failed db no_name
  upsert_named db agent caller d (some []) = failed db no_name
  upsert_named db agent caller d (some (c ∷ s)) =
      upsert_row db agent caller (c ∷ s) d (row_load db agent (c ∷ s))

  abbrev pub upsert_parsed : Database → Option Bytes → ℤ → Option CronDoc → Upsert
  upsert_parsed db agent caller none = failed db invalid_json
  upsert_parsed db agent caller (some d) = upsert_named db agent caller d d.name

  unfoldable pub cron_upsert : Database → Option Bytes → ℤ → Option Json → Upsert
  unfolding cron_doc_parse doc_check_merged row_load merge_schedule merged_write merged_job
  cron_upsert db agent caller doc = upsert_parsed db agent caller (cron_doc_parse doc)

-- `DELETE FROM cron_jobs WHERE id=? AND agent_name=?`: the rows left, and whether one went.
unfoldable pub remove_job : ℤ → Bytes → List JobRow → List JobRow × Bool
remove_job id agent [] = ([], false)
remove_job id agent (j ∷ jobs) =
    let rest = remove_job id agent jobs in
    if same_id j.id id && bytes_eq j.agent_name agent then (rest.0, true) else (j ∷ rest.0, rest.1)

-- True is the C function's 0.
unfoldable pub cron_remove : Database → ℤ → Option Bytes → Database × Bool
unfolding remove_job
cron_remove db job_id agent =
    let (jobs, gone) = remove_job job_id (text_of agent) db.jobs in
    (record db { jobs = jobs }, gone)
