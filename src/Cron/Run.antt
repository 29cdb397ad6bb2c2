-- ===== src/Cron/Run.antt =====
-- What `cron_next_run` of src/cron.c promises of the time it returns, and that its loop ends.
use cclaw.Prelude.{
  ℕ, zero, suc, ◌+◌, ◌-◌, ◌*◌, ◌≤◌, ◌<◌, ◌≡◌, refl, subst, Bool, true, ◌||◌, not, Option, none,
  some, none_ne, some_eq, ltb, leb, ltb→lt, not_leb, if◌then◌else◌, Bytes, arith, Bool-cases,
  Option-cases, inl, inr,
}
use cclaw.Cron.Field.{has_bit}
use cclaw.Cron.Next.{
  Clock, Expr, parse_expr, Round, fire, jump, local_midnight, round, search_from, window,
  first_minute, cron_next_run,
}

module _ (clock : Clock) where
  open clock use {localtime, mktime}

  -- The five fields of the expression all hold of the local time at t.
  pub record FiresAt (e : Expr) (t : ℕ) : Type 0 where
    month : has_bit e.months ((localtime t).tm_mon + 1) ≡ true
    dom : has_bit e.doms (localtime t).tm_mday ≡ true
    dow : has_bit e.dows (localtime t).tm_wday ≡ true
    hour : has_bit e.hours (localtime t).tm_hour ≡ true
    minute : has_bit e.minutes (localtime t).tm_min ≡ true

  tests_of :
      (m d w h n : Bool) (j1 j2 j3 j4 : Option ℕ)
      → (if not m
          then jump j1
          else if not d || not w
          then jump j2
          else if not h
          then jump j3
          else if not n
          then jump j4
          else fire)
        ≡ fire
      → (m ≡ true) × (d ≡ true) × (w ≡ true) × (h ≡ true) × (n ≡ true)
  tests_of m d w h n j1 j2 j3 j4 e = ground arith

  round-FiresAt : (e : Expr) (t : ℕ) → round clock e t ≡ fire → FiresAt e t
  unfolding round
  round-FiresAt e t h =
      let tm = localtime t in
      let (m, d, w, o, n) =
        tests_of (has_bit e.months (tm.tm_mon + 1)) (has_bit e.doms tm.tm_mday)
          (has_bit e.dows tm.tm_wday) (has_bit e.hours tm.tm_hour) (has_bit e.minutes tm.tm_min)
          (local_midnight clock (record tm { tm_mon = tm.tm_mon + 1; tm_mday = 1 }))
          (local_midnight clock (record tm { tm_mday = tm.tm_mday + 1 }))
          (some (t + 3600 - tm.tm_min * 60)) (some (t + 60)) h in
      record { month = m; dom = d; dow = w; hour = o; minute = n }

  -- One round of the loop, f being the rounds behind it.
  abbrev after_round : (ℕ → Option ℕ) → ℕ → Round → Option ℕ
  after_round f t r = elim r [
    | fire ↦ some t
    | jump none ↦ none
    | jump (some v) ↦ let rest = f v in if leb v t then none else rest
  ]

  after_round-FiresAt :
      (f : ℕ → Option ℕ) (limit : ℕ) (e : Expr) (t u : ℕ) (r : Round)
      → t < limit
      → ((v : ℕ) → f v ≡ some u → (v ≤ u) × (u < limit) × FiresAt e u)
      → round clock e t ≡ r
      → after_round f t r ≡ some u
      → (t ≤ u) × (u < limit) × FiresAt e u
  after_round-FiresAt f limit e t u fire lt later q k =
      let same = some_eq t u k in
      (omega arith, omega arith, subst (FiresAt e) same (round-FiresAt e t q))
  after_round-FiresAt f limit e t u (jump none) lt later q k = absurd (none_ne k)
  after_round-FiresAt f limit e t u (jump (some v)) lt later q k = elim (Bool-cases (leb v t)) [
    | inl c ↦ absurd (none_ne (rw c at k))
    | inr c ↦
        let (le, below, fires) = later v (rw c at k) in (omega (arith, not_leb v t c), below, fires)
  ]

  search-FiresAt :
      (rounds limit : ℕ) (e : Expr) (t u : ℕ)
      → search_from clock rounds limit e t ≡ some u
      → (t ≤ u) × (u < limit) × FiresAt e u
  unfolding search_from
  search-FiresAt zero limit e t u h = absurd (none_ne h)
  search-FiresAt (suc rounds) limit e t u h = elim (Bool-cases (ltb t limit)) [
    | inr c ↦ absurd (none_ne (rw c at h))
    | inl c ↦
        after_round-FiresAt (search_from clock rounds limit e) limit e t u (round clock e t)
          (ltb→lt t limit c) (λ v k. search-FiresAt rounds limit e v u k) refl (rw c at h)
  ]

  after_round-more :
      (f g : ℕ → Option ℕ) (t : ℕ) (r : Round)
      → ((v : ℕ) → t < v → f v ≡ g v)
      → after_round f t r ≡ after_round g t r
  after_round-more f g t fire same = refl
  after_round-more f g t (jump none) same = refl
  after_round-more f g t (jump (some v)) same = elim (Bool-cases (leb v t)) [
    | inl c ↦ rw c
    | inr c ↦ rw c (same v (not_leb v t c))
  ]

  -- The loop ends: whatever `localtime_r` and `mktime` answer, a number of rounds that covers the
  -- window up to the limit gives what any larger number gives.
  pub search_from-enough :
      (rounds n limit : ℕ) (e : Expr) (t : ℕ)
      → limit ≤ t + rounds
      → rounds ≤ n
      → search_from clock n limit e t ≡ search_from clock rounds limit e t
  unfolding search_from
  search_from-enough zero zero limit e t h le = refl
  search_from-enough zero (suc n) limit e t h le = elim (Bool-cases (ltb t limit)) [
    | inl c ↦ absurd (omega (arith, ltb→lt t limit c))
    | inr c ↦ rw c
  ]
  search_from-enough (suc rounds) zero limit e t h le = absurd (omega arith)
  search_from-enough (suc rounds) (suc n) limit e t h le = elim (Bool-cases (ltb t limit)) [
    | inr c ↦ rw c
    | inl c ↦ rw c (
        after_round-more (search_from clock n limit e) (search_from clock rounds limit e) t
          (round clock e t)
          (λ v lt. search_from-enough rounds n limit e v (omega arith) (omega arith)))
  ]

  -- What a time must be for the expression to run at it next.
  pub record IsRun (cron_expr : Bytes) (after t : ℕ) : Type 0 where
    expr : Expr
    parsed : parse_expr cron_expr ≡ some expr
    pub later : after < t
    within : t < first_minute after + window
    fires : FiresAt expr t

  -- A time that `cron_next_run` returns lies after the given one, within the 366 days from the
  -- next minute on, and all five fields of the expression, which parses, hold of its local time.
  pub cron_next_run-IsRun :
      (cron_expr : Bytes) (after t : ℕ)
      → cron_next_run clock (some cron_expr) after ≡ some t
      → IsRun cron_expr after t
  unfolding cron_next_run
  cron_next_run-IsRun cron_expr after t h = elim (Option-cases (parse_expr cron_expr)) [
    | inl c ↦ absurd (none_ne (rw c at h))
    | inr (e, c) ↦
        let (le, below, fires) =
          search-FiresAt window (first_minute after + window) e (first_minute after) t
            (rw c at h) in
        record { expr = e; parsed = c; later = omega (arith, le); within = below; fires = fires }
  ]
