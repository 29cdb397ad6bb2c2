-- ===== src/Cron/Merge.antt =====
-- The merging of a document into a stored job: `cron_schedule_check`, `merged_mode`,
-- `doc_check_merged`, `merge_schedule` and `merge_target` of src/cron.c. The 64-bit sums are not
-- cut. The error texts are the constructors of `CronError`.
use cclaw.Prelude.{
  ℕ, Bool, true, false, ◌&&◌, ◌||◌, not, [], ◌∷◌, Option, none, some, if◌then◌else◌, Bytes, codes,
  bytes_eq,
}
use cclaw.Prelude.Int.{ℤ, pos, ltb_ℤ, add_ℕ, is_pos, is_zero, sub_ℕ}
use cclaw.Cron.Next.{Clock, cron_next_run}
use cclaw.Cron.Document.{CronDoc}

pub data CronError : Type 0 where
  invalid_json no_name new_cannot_pin pinned_cannot_new no_schedule agent_needs_new
        channel_needs_new invalid_schedule not_saved :
      CronError

pub data Result {ℓ} (A : Type ℓ) : Type ℓ where
  ok : A → Result A
  err : CronError → Result A

-- The row that a name finds; `found` is false for one that is about to be created.
pub record CronRow : Type 0 where
  pub found : Bool
  pub id : ℤ
  pub run_at : ℤ
  pub interval_s : ℤ
  pub session_id : ℤ
  pub next_run_at : ℤ
  pub expr : Option Bytes
  pub task : Option Bytes
  pub script : Option Bytes
  pub target : Option Bytes
  pub target_agent : Option Bytes
  pub channel : Option Bytes
  pub chat : Option Bytes

pub record CronMerged : Type 0 where
  pub expr : Option Bytes
  pub task : Option Bytes
  pub script : Option Bytes
  pub target : Option Bytes
  pub target_agent : Option Bytes
  pub chan : Option Bytes
  pub chat : Option Bytes
  pub run_at : ℤ
  pub interval_s : ℤ
  pub next_run_at : ℤ
  pub session_id : ℤ

-- `p && p[0]`
abbrev pub non_empty : Option Bytes → Bool
non_empty none = false
non_empty (some []) = false
non_empty (some (c ∷ s)) = true

abbrev pub is_some : Option Bytes → Bool
is_some none = false
is_some (some s) = true

abbrev pub pin_word : Bytes
pin_word = codes "pin"

abbrev pub new_word : Bytes
new_word = codes "new"

-- `p && strcmp(p, word) == 0`
unfoldable pub is_word : Bytes → Option Bytes → Bool
is_word word none = false
is_word word (some s) = bytes_eq s word

-- The mode NULL is `none`.
unfoldable pub merged_mode : CronDoc → CronRow → Result (Option Bytes)
unfolding is_word
merged_mode d row =
    let was_pin = is_word pin_word row.target in
    let was_new = is_word new_word row.target in
    if d.has_session_id && was_new
    then err new_cannot_pin
    else if d.has_session && was_pin
    then err pinned_cannot_new
    else if d.has_session_id
    then ok (some pin_word)
    else if d.has_session || was_new
    then ok (some new_word)
    else if was_pin
    then ok (some pin_word)
    else ok none

abbrev pub has_schedule : CronDoc → CronRow → Bool
has_schedule d row =
    d.has_expr
    || d.has_seconds
    || row.found && (non_empty row.expr || is_pos row.run_at || is_pos row.interval_s)

-- The checks behind the mode, which they end with.
abbrev pub check_at : CronDoc → CronRow → Result (Option Bytes) → Option CronError
check_at d row (err e) = some e
check_at d row (ok mode) =
    if not (has_schedule d row)
    then some no_schedule
    else if d.has_agent && not (is_word new_word mode)
    then some agent_needs_new
    else if (d.has_channel || d.has_chat) && not (is_word new_word mode)
    then some channel_needs_new
    else none

-- The error text, or `none` for NULL.
unfoldable pub doc_check_merged : CronDoc → CronRow → Option CronError
unfolding merged_mode
doc_check_merged d row = check_at d row (merged_mode d row)

-- CRON_SCHED_OK with the next run, and the other verdicts.
pub data CronSchedRc : Type 0 where
  sched_ok : ℤ → CronSchedRc
  sched_none sched_both sched_bad_expr sched_floor : CronSchedRc

-- Two consecutive fires, measured against the floor.
abbrev second_fire : ℤ → ℕ → Option ℕ → CronSchedRc
second_fire floor next none = sched_bad_expr
second_fire floor next (some n2) =
    if ltb_ℤ (sub_ℕ n2 next) floor then sched_floor else sched_ok (pos next)

abbrev first_fire : Clock → Option Bytes → ℤ → Option ℕ → CronSchedRc
first_fire clock cron_expr floor none = sched_bad_expr
first_fire clock cron_expr floor (some next) =
    second_fire floor next (cron_next_run clock cron_expr next)

abbrev pub or_empty : Option Bytes → Option Bytes
or_empty none = some []
or_empty (some s) = some s

-- `CronMerged m = {0}`
abbrev pub blank : CronMerged
blank = record {
  expr = none;
  task = none;
  script = none;
  target = none;
  target_agent = none;
  chan = none;
  chat = none;
  run_at = pos 0;
  interval_s = pos 0;
  next_run_at = pos 0;
  session_id = pos 0;
}

abbrev pub new_schedule : CronDoc → CronMerged → CronSchedRc → Result CronMerged
new_schedule d m (sched_ok next) = ok (record m {
  expr = if d.has_expr then d.cron_expr else some [];
  run_at = if d.has_seconds then next else pos 0;
  interval_s = pos 0;
  next_run_at = next;
})
new_schedule d m _ = err invalid_schedule

module _ (clock : Clock) (now : ℕ) (floor : ℤ) where
  -- `now` is `time(NULL)` and `floor` the setting cron_min_interval_seconds.
  unfoldable pub cron_schedule_check : Option Bytes → ℤ → CronSchedRc
  unfolding cron_next_run
  cron_schedule_check cron_expr in_seconds =
      let has_expr = non_empty cron_expr in
      let has_secs = not (is_zero in_seconds) in
      if has_expr && has_secs
      then sched_both
      else if not has_expr && not has_secs
      then sched_none
      else if has_expr
      then first_fire clock cron_expr floor (cron_next_run clock cron_expr now)
      else if ltb_ℤ in_seconds floor
      then sched_floor
      else sched_ok (add_ℕ now in_seconds)

  unfoldable pub merge_schedule : CronDoc → CronRow → CronMerged → Result CronMerged
  unfolding cron_schedule_check
  merge_schedule d row m =
      let checked =
        cron_schedule_check (if d.has_expr then d.cron_expr else none)
          (if d.has_seconds then d.in_seconds else pos 0) in
      if not d.has_expr && not d.has_seconds
      then ok (record m {
        expr = or_empty row.expr;
        run_at = row.run_at;
        interval_s = row.interval_s;
        next_run_at = row.next_run_at;
      })
      else new_schedule d m checked

-- An empty target agent is NULL.
abbrev pub or_null : Option Bytes → Option Bytes
or_null o = if non_empty o then o else none

-- `cc` and `ct` are the caller's chat.
unfoldable pub merge_target :
    CronDoc → CronRow → Option Bytes → ℤ → Option Bytes → Option Bytes → CronMerged → CronMerged
merge_target d row mode anchor cc ct m =
    if is_word pin_word mode
    then record m {
      target = mode;
      target_agent = none;
      chan = none;
      chat = none;
      session_id = if d.has_session_id then d.session_id else row.session_id;
    }
    else if is_word new_word mode
    then record m {
      target = mode;
      target_agent = or_null (if d.has_agent then d.agent else row.target_agent);
      chan = if d.has_channel || d.has_chat then d.channel_name else row.channel;
      chat = if d.has_channel || d.has_chat then d.chat_id else row.chat;
      session_id = if is_word new_word row.target then row.session_id else pos 0;
    }
    else record m {
      target = mode;
      target_agent = none;
      chan = if is_some cc || is_some ct then cc else row.channel;
      chat = if is_some cc || is_some ct then ct else row.chat;
      session_id = anchor;
    }
