-- ===== src/Cron/Next.antt =====
-- `cron_next_run` of src/cron.c, and `cron_schedule_check` over it. Times are counted from the
-- epoch and not negative; -1 is `none`. `localtime_r` and `mktime` are the parameter `Clock`. Each
-- round moves the time forward or returns, so the width of the window is fuel enough.
use cclaw.Prelude.{
  ℕ, zero, suc, ◌+◌, ◌-◌, ◌*◌, ◌%◌, Bool, ◌||◌, not, List, [], ◌∷◌, Option, none, some, ltb, leb,
  ◌==◌, if◌then◌else◌, Bytes, take,
}
use cclaw.Cron.Field.{Mask, has_bit, parse_field}

-- `struct tm`, less the fields that the code neither reads nor writes.
pub record Tm : Type 0 where
  pub tm_year : ℕ
  pub tm_mon : ℕ
  pub tm_mday : ℕ
  pub tm_wday : ℕ
  pub tm_hour : ℕ
  pub tm_min : ℕ
  pub tm_sec : ℕ

-- `mktime` gives `none` where it fails. Its argument's `tm_isdst` is -1.
pub record Clock : Type 0 where
  pub localtime : ℕ → Tm
  pub mktime : Tm → Option ℕ

-- `strtok_r(s, " \t", &saveptr)` until it returns NULL: the tokens, with the one under way first.
abbrev is_blank : ℕ → Bool
is_blank c = c == 32 || c == 9

abbrev push_char : ℕ → List Bytes → List Bytes
push_char c [] = (c ∷ []) ∷ []
push_char c (tok ∷ toks) = (c ∷ tok) ∷ toks

abbrev close_token : List Bytes → List Bytes
close_token [] = [] ∷ []
close_token ([] ∷ toks) = [] ∷ toks
close_token ((c ∷ tok) ∷ toks) = [] ∷ (c ∷ tok) ∷ toks

unfoldable pub open_tokens : Bytes → List Bytes
open_tokens [] = [] ∷ []
open_tokens (c ∷ s) =
    let later = open_tokens s in if is_blank c then close_token later else push_char c later

abbrev pub drop_empty : List Bytes → List Bytes
drop_empty [] = []
drop_empty ([] ∷ toks) = toks
drop_empty ((c ∷ tok) ∷ toks) = (c ∷ tok) ∷ toks

unfoldable pub tokens : Bytes → List Bytes
unfolding open_tokens
tokens s = drop_empty (open_tokens s)

pub record Expr : Type 0 where
  pub minutes : Mask
  pub hours : Mask
  pub doms : Mask
  pub months : Mask
  pub dows : Mask

abbrev all_fields :
    Option Mask → Option Mask → Option Mask → Option Mask → Option Mask → Option Expr
all_fields (some mi) (some h) (some d) (some mo) (some w) =
    some (record { minutes = mi; hours = h; doms = d; months = mo; dows = w })
all_fields _ _ _ _ _ = none

-- The first five tokens; those behind them are not looked at.
abbrev pub five_fields : List Bytes → Option Expr
five_fields (f0 ∷ f1 ∷ f2 ∷ f3 ∷ f4 ∷ _) =
    all_fields (parse_field f0 0 59) (parse_field f1 0 23) (parse_field f2 1 31)
      (parse_field f3 1 12) (parse_field f4 0 6)
five_fields _ = none

-- `char buf[128]` takes the first 127 bytes.
unfoldable pub parse_expr : Bytes → Option Expr
unfolding tokens parse_field
parse_expr cron_expr = five_fields (tokens (take 127 cron_expr))

pub data Round : Type 0 where
  fire : Round
  jump : Option ℕ → Round

abbrev pub window : ℕ
window = 366 * 24 * 3600

-- `after + 60`, rounded down to the minute.
abbrev pub first_minute : ℕ → ℕ
first_minute after = after + 60 - (after + 60) % 60

module _ (clock : Clock) where
  open clock use {localtime, mktime}

  unfoldable pub local_midnight : Tm → Option ℕ
  local_midnight tm = mktime (record tm { tm_hour = 0; tm_min = 0; tm_sec = 0 })

  -- The body of the loop up to its last test: return this time, or go on with another.
  unfoldable pub round : Expr → ℕ → Round
  unfolding local_midnight has_bit
  round e t =
      let tm = localtime t in
      if not (has_bit e.months (tm.tm_mon + 1))
      then jump (local_midnight (record tm { tm_mon = tm.tm_mon + 1; tm_mday = 1 }))
      else if not (has_bit e.doms tm.tm_mday) || not (has_bit e.dows tm.tm_wday)
      then jump (local_midnight (record tm { tm_mday = tm.tm_mday + 1 }))
      else if not (has_bit e.hours tm.tm_hour)
      then jump (some (t + 3600 - tm.tm_min * 60))
      else if not (has_bit e.minutes tm.tm_min)
      then jump (some (t + 60))
      else fire

  -- `while (t < limit)`, with the rounds left.
  unfoldable pub search_from : ℕ → ℕ → Expr → ℕ → Option ℕ
  unfolding round
  search_from zero limit e t = none
  search_from (suc rounds) limit e t =
      if ltb t limit
      then elim (round e t) [
        | fire ↦ some t
        | jump none ↦ none
        | jump (some u) ↦
            let later = search_from rounds limit e u in if leb u t then none else later
      ]
      else none

  abbrev search_at : ℕ → Option Expr → Option ℕ
  search_at t none = none
  search_at t (some e) = search_from window (t + window) e t

  unfoldable pub cron_next_run : Option Bytes → ℕ → Option ℕ
  unfolding search_from parse_expr
  cron_next_run none after = none
  cron_next_run (some cron_expr) after = search_at (first_minute after) (parse_expr cron_expr)
