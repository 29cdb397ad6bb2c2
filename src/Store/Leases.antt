-- ===== src/Store/Leases.antt =====
-- The leases of src/db.c over runs of calls by several processes: the hold of an agent keeps every
-- other holder out until it is over, and the clean-up of the process registry leaves the live ones.
use cclaw.Prelude.{
  ℕ, ◌+◌, ◌≤◌, ◌<◌, ◌≡◌, ◌≢◌, refl, sym, ap, ◌∙◌, Bool, true, false, List, [], ◌∷◌, none, some,
  arith, if_both, All-weaken, ap₂, Bytes, bytes_eq→eq, Bool-cases, inl, inr, ltb, ltb→lt, ◌==◌,
  false≢true, All, and_right, and_false,
}
use cclaw.Store.{Agent}
use cclaw.Store.Sql.{
  update_where, count_where, update_where-none, count_where-zero, count_where-only,
  All-update_where,
}
use cclaw.Store.Holds.{
  is_agent, is_over, is_holder, can_acquire, holds, agent_hold_acquire, agent_hold_refresh,
  agent_hold_release,
}

-- A call on the lease of any agent, with its time and its holder.
pub data HoldCall : Type 0 where
  acquire refresh : (now : ℕ) (name : Bytes) (seconds : ℕ) (holder : Bytes) → HoldCall
  release : (now : ℕ) (name holder : Bytes) → HoldCall

abbrev pub time_of : HoldCall → ℕ
time_of (acquire now name seconds holder) = now
time_of (refresh now name seconds holder) = now
time_of (release now name holder) = now

abbrev pub caller_of : HoldCall → Bytes
caller_of (acquire now name seconds holder) = holder
caller_of (refresh now name seconds holder) = holder
caller_of (release now name holder) = holder

unfoldable pub hold_step : HoldCall → List Agent → List Agent
unfolding agent_hold_acquire agent_hold_refresh agent_hold_release
hold_step (acquire now name seconds holder) agents =
    (agent_hold_acquire agents now name seconds holder).0
hold_step (refresh now name seconds holder) agents =
    (agent_hold_refresh agents now name seconds holder).0
hold_step (release now name holder) agents = (agent_hold_release agents name holder).0

unfoldable pub hold_run : List HoldCall → List Agent → List Agent
unfolding hold_step
hold_run [] agents = agents
hold_run (c ∷ calls) agents = hold_run calls (hold_step c agents)

module _ (name holder : Bytes) (until : ℕ) where
  -- The agent of that name is held by the holder, at least up to the time.
  abbrev pub HeldBy : Agent → Type 0
  HeldBy a =
      is_agent name a ≡ true
      → (a.hold_holder ≡ some holder) × ((u : ℕ) × (a.hold_until ≡ some u) × (until ≤ u))

  -- A call by another holder, before the lease is over.
  abbrev pub IsRival : HoldCall → Type 0
  IsRival c = (caller_of c ≢ holder) × (time_of c ≤ until)

  not_over :
      (now : ℕ) (a : Agent)
      → now ≤ until
      → HeldBy a
      → is_agent name a ≡ true
      → is_over now a.hold_until ≡ false
  not_over now a le h e = let (_, held) = h e in let (u, eq, far) = held in rw eq (ground arith)

  not_theirs :
      (other : Bytes) (a : Agent)
      → other ≢ holder
      → HeldBy a
      → is_agent name a ≡ true
      → is_holder other a.hold_holder ≡ false
  not_theirs other a ne h e = elim (Bool-cases (is_holder other a.hold_holder)) [
    | inr f ↦ f
    | inl f ↦ let (eq, _) = h e in absurd (ne (sym (bytes_eq→eq holder other (rw eq at f))))
  ]

  step-HeldBy :
      (c : HoldCall) (agents : List Agent)
      → IsRival c
      → All HeldBy agents
      → All HeldBy (hold_step c agents)
  unfolding hold_step agent_hold_acquire agent_hold_refresh agent_hold_release
  step-HeldBy (acquire now n seconds other) agents (ne, le) h =
      if_both (λ (r : List Agent × Bool). All HeldBy r.0) (seconds == 0) (agents, false) _ h
        (All-update_where HeldBy (can_acquire n now)
          (λ a. record a { hold_until = some (now + seconds); hold_holder = some other }) agents
          (λ a t k e. absurd (
            false≢true (
              sym (not_over now a le k e) ∙ and_right (is_agent n a) (is_over now a.hold_until) t)))
          h)
  step-HeldBy (refresh now n seconds other) agents (ne, le) h =
      if_both (λ (r : List Agent × Bool). All HeldBy r.0) (seconds == 0) (agents, false) _ h
        (All-update_where HeldBy (holds n other)
          (λ a. record a { hold_until = some (now + seconds) }) agents
          (λ a t k e. absurd (
            false≢true (
              sym (not_theirs other a ne k e)
              ∙ and_right (is_agent n a) (is_holder other a.hold_holder) t)))
          h)
  step-HeldBy (release now n other) agents (ne, le) h =
      All-update_where HeldBy (holds n other)
        (λ a. record a { hold_until = none; hold_holder = none }) agents
        (λ a t k e. absurd (
          false≢true (
            sym (not_theirs other a ne k e)
            ∙ and_right (is_agent n a) (is_holder other a.hold_holder) t)))
        h

  run-HeldBy :
      (calls : List HoldCall) (agents : List Agent)
      → All IsRival calls
      → All HeldBy agents
      → All HeldBy (hold_run calls agents)
  unfolding hold_run
  run-HeldBy [] agents r h = h
  run-HeldBy (c ∷ calls) agents (rc, r) h =
      run-HeldBy calls (hold_step c agents) r (step-HeldBy c agents rc h)

  over_rows :
      (now : ℕ) (agents : List Agent)
      → count_where (is_agent name) agents ≤ 1
      → 0 < count_where (can_acquire name now) agents
      → All (λ a. is_agent name a ≡ true → is_over now a.hold_until ≡ true) agents
  over_rows now agents one some_row =
      count_where-only (is_agent name) (λ a. is_over now a.hold_until) agents one some_row

  abbrev taken : ℕ → Agent → Agent
  taken end a = record a { hold_until = some end; hold_holder = some holder }

  take_rows :
      (now seconds : ℕ) (agents : List Agent)
      → until ≤ now + seconds
      → All (λ a. is_agent name a ≡ true → is_over now a.hold_until ≡ true) agents
      → All HeldBy (update_where (can_acquire name now) (taken (now + seconds)) agents)
  unfolding update_where
  take_rows now seconds [] le h = tt
  take_rows now seconds (a ∷ agents) le (ha, h) =
      let rest = take_rows now seconds agents le h in
      elim (Bool-cases (is_agent name a)) [
        | inl e ↦ rw (e, ha e) ((λ _. (refl, (now + seconds, refl, le))), rest)
        | inr e ↦ rw e ((λ t. absurd (false≢true (sym e ∙ t))), rest)
      ]

  not_free : (later : ℕ) (a : Agent) → later ≤ until → HeldBy a → can_acquire name later a ≡ false
  not_free later a le h = elim (Bool-cases (is_agent name a)) [
    | inl e ↦ and_false (is_agent name a) (is_over later a.hold_until) (not_over later a le h e)
    | inr e ↦ rw e refl
  ]

  acquired-HeldBy :
      (now seconds : ℕ) (agents : List Agent)
      → (agent_hold_acquire agents now name seconds holder).1 ≡ true
      → until ≤ now + seconds
      → count_where (is_agent name) agents ≤ 1
      → All HeldBy (agent_hold_acquire agents now name seconds holder).0
  unfolding agent_hold_acquire
  acquired-HeldBy now seconds agents done le one = elim (Bool-cases (seconds == 0)) [
    | inl z ↦ absurd (false≢true (rw z at done))
    | inr z ↦ rw z (
        take_rows now seconds agents le (
          over_rows now agents one
            (ltb→lt 0 (count_where (can_acquire name now) agents) (rw z at done))))
  ]

  rival-fails :
      (later more : ℕ) (other : Bytes) (agents : List Agent)
      → later ≤ until
      → All HeldBy agents
      → agent_hold_acquire agents later name more other ≡ (agents, false)
  unfolding agent_hold_acquire
  rival-fails later more other agents le h =
      let none_left : count_where (can_acquire name later) agents ≡ 0 =
        count_where-zero (can_acquire name later) agents (
          All-weaken HeldBy (λ a. can_acquire name later a ≡ false) agents
            (λ a k. not_free later a le k) h) in
      if_both (λ (r : List Agent × Bool). r ≡ (agents, false)) (more == 0) _ _ refl
        (ap₂ (λ a b. (a, b)) (update_where-none (can_acquire name later) _ agents none_left)
          (ap (ltb 0) none_left))

-- Once a holder has acquired the lease of an agent, whose name is that of one row at most, it has it
-- alone for the seconds it asked for: whatever the other holders call up to then on whatever
-- agents, in whatever order, an attempt of any of them to acquire it up to then fails and changes
-- nothing.
pub hold_run-exclusive :
    (agents : List Agent) (now seconds : ℕ) (name holder : Bytes) (calls : List HoldCall)
    (later more : ℕ) (other : Bytes)
    → (agent_hold_acquire agents now name seconds holder).1 ≡ true
    → count_where (is_agent name) agents ≤ 1
    → All (IsRival name holder (now + seconds)) calls
    → later ≤ now + seconds
    → agent_hold_acquire
        (hold_run calls (agent_hold_acquire agents now name seconds holder).0)
        later
        name
        more
        other
      ≡ (hold_run calls (agent_hold_acquire agents now name seconds holder).0, false)
hold_run-exclusive agents now seconds name holder calls later more other done one r le =
    let held = (agent_hold_acquire agents now name seconds holder).0 in
    rival-fails name holder (now + seconds) later more other (hold_run calls held) le (
      run-HeldBy name holder (now + seconds) calls held r
        (acquired-HeldBy name holder (now + seconds) now seconds agents done (omega arith) one))
