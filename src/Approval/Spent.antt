-- ===== src/Approval/Spent.antt =====
-- One approval is one decision and one use: what src/approval.c refuses once a row is decided or
-- spent, whatever ran in between.
use cclaw.Prelude.{
  ℕ, ◌≤◌, ◌≡◌, ◌≢◌, refl, sym, ap, ap₂, subst, ◌∙◌, Bool, true, false, List, [], ◌∷◌, Option, none,
  some, Bytes, ◌==◌, All, All-append, All-weaken, Bool-cases, inl, inr, none_ne, some_eq, and_right,
  and_true, and_false, false≢true, arith,
}
use cclaw.Store.Sql.{
  update_where, count_where, All-update_where, All-update_where_to, update_where-none,
  count_where-zero, count_where-only, zero-count_where, count_where-update_where,
}
use cclaw.Approval.{Approval, ApprovalState, consumed, is_pending, is_approved, has_id}
use cclaw.Approval.Rows.{
  approval_create, approval_consume, approval_resolve, can_consume, can_resolve, spend, decide,
}
use cclaw.Approval.Tickets.{
  JsonTree, Request, Answers, tickets, take_it, approval_match_state, approval_match_state-Answers,
  approval_take_ticket,
}
use cclaw.Approval.Decisions.{ApprovalCall, create, resolve, consume, take_ticket, step, run}

module _ (id : ℕ) where
  -- A statement that does not insert a row under the id.
  abbrev pub IsFresh : ApprovalCall → Type 0
  IsFresh (create i _ _ _ _ _ _ _ _) = (i == id) ≡ false
  IsFresh (resolve _ _ _) = Unit
  IsFresh (consume _) = Unit
  IsFresh (take_ticket _ _) = Unit

  -- The rows of the id that a run leaves out of a state, if each statement does.
  record Lasts (Q : Approval → Type 0) : Type 0 where
    decided :
        (i : ℕ) (grant : Bool) (via : Option Bytes) (a : Approval)
        → can_resolve i a ≡ true
        → Q a
        → Q (decide grant via a)
    spent : (i : ℕ) (a : Approval) → can_consume i a ≡ true → Q a → Q (spend a)
    created : (a : Approval) → has_id id a ≡ false → Q a

  take_it-All :
      (Q : Approval → Type 0)
      → Lasts Q
      → (found : Option ℕ) (rows : List Approval) → All Q rows
      → All Q (take_it rows found).0
  unfolding approval_consume
  take_it-All Q l none rows h = h
  take_it-All Q l (some i) rows h = All-update_where Q (can_consume i) spend rows (l.spent i) h

  step-All :
      (j : JsonTree) (Q : Approval → Type 0)
      → Lasts Q
      → (c : ApprovalCall) (rows : List Approval) → IsFresh c
      → All Q rows
      → All Q (step j c rows)
  unfolding step approval_create approval_resolve approval_consume approval_take_ticket
  step-All j Q l (create i now timeout s call tool reason args res) rows f h =
      All-append Q rows _ h (l.created _ f, tt)
  step-All j Q l (resolve i grant via) rows f h =
      All-update_where Q (can_resolve i) (decide grant via) rows (l.decided i grant via) h
  step-All j Q l (consume i) rows f h = All-update_where Q (can_consume i) spend rows (l.spent i) h
  step-All j Q l (take_ticket now q) rows f h =
      take_it-All Q l (approval_match_state j rows (tickets now) q) rows h

  run-All :
      (j : JsonTree) (Q : Approval → Type 0)
      → Lasts Q
      → (calls : List ApprovalCall) (rows : List Approval) → All IsFresh calls
      → All Q rows
      → All Q (run j calls rows)
  unfolding run
  run-All j Q l [] rows f h = h
  run-All j Q l (c ∷ calls) rows (fc, f) h =
      run-All j Q l calls (step j c rows) f (step-All j Q l c rows fc h)

  abbrev pub NotOpen : Approval → Type 0
  NotOpen a = can_resolve id a ≡ false

  decide-NotOpen : (grant : Bool) (via : Option Bytes) (a : Approval) → NotOpen (decide grant via a)
  decide-NotOpen true via a = and_false (has_id id a) false refl
  decide-NotOpen false via a = and_false (has_id id a) false refl

  NotOpen-lasts : Lasts NotOpen
  NotOpen-lasts = record {
    decided = λ i grant via a _ _. decide-NotOpen grant via a;
    spent = λ i a _ _. and_false (has_id id a) false refl;
    created = λ a e. rw e refl;
  }

  abbrev IsSpent : Approval → Type 0
  IsSpent a = has_id id a ≡ true → a.state ≡ consumed

  IsSpent-lasts : Lasts IsSpent
  IsSpent-lasts = record {
    decided = λ i grant via a t h e.
        absurd (never_both a.state (h e) (and_right (has_id i a) (is_pending a.state) t));
    spent = λ i a t h e. refl;
    created = λ a f e. absurd (false≢true (sym f ∙ e));
  }
    where
      never_both : (s : ApprovalState) → s ≡ consumed → is_pending s ≡ true → ⊥
      never_both s e t = false≢true (rw e at t)

  pub resolve-NotOpen :
      (rows : List Approval) (grant : Bool) (via : Option Bytes)
      → All NotOpen (approval_resolve rows id grant via).0
  unfolding approval_resolve
  resolve-NotOpen rows grant via =
      zero-count_where (can_resolve id) (update_where (can_resolve id) (decide grant via) rows) (
        count_where-update_where (can_resolve id) (decide grant via) rows
          (λ a t. decide-NotOpen grant via a))

  pub consume-NotOpen :
      (i : ℕ) (rows : List Approval) → All NotOpen rows → All NotOpen (approval_consume rows i).0
  unfolding approval_consume
  consume-NotOpen i rows h =
      All-update_where NotOpen (can_consume i) spend rows (NotOpen-lasts.spent i) h

  pub run-NotOpen :
      (j : JsonTree) (calls : List ApprovalCall) (rows : List Approval)
      → All IsFresh calls
      → All NotOpen rows
      → All NotOpen (run j calls rows)
  run-NotOpen j calls rows f h = run-All j NotOpen NotOpen-lasts calls rows f h

  -- A row that is not pending is not decided.
  pub closed-resolve :
      (rows : List Approval) (grant : Bool) (via : Option Bytes)
      → All NotOpen rows
      → approval_resolve rows id grant via ≡ (rows, none)
  unfolding approval_resolve
  closed-resolve rows grant via h =
      let none_left : count_where (can_resolve id) rows ≡ 0 =
        count_where-zero (can_resolve id) rows h in
      ap₂ (λ a b. (a, b)) (update_where-none (can_resolve id) (decide grant via) rows none_left)
        (rw none_left refl)

  -- One decision: once an approval was resolved, and whatever statements of src/approval.c run after
  -- that other than one that inserts its id again, resolving it another time changes nothing and finds no row.
  pub approval_resolve-once :
      (j : JsonTree) (rows : List Approval) (calls : List ApprovalCall) (grant again : Bool)
      (via later_via : Option Bytes)
      → All IsFresh calls
      → approval_resolve (run j calls (approval_resolve rows id grant via).0) id again later_via
        ≡ (run j calls (approval_resolve rows id grant via).0, none)
  approval_resolve-once j rows calls grant again via later_via f =
      let first = (approval_resolve rows id grant via).0 in
      closed-resolve (run j calls first) again later_via
        (run-NotOpen j calls first f (resolve-NotOpen rows grant via))

  take_it-some :
      (found : Option ℕ) (rows : List Approval)
      → (take_it rows found).1 ≡ some id
      → (take_it rows found ≡ ((approval_consume rows id).0, some id))
        × (found ≡ some id)
        × ((approval_consume rows id).1 ≡ true)
  take_it-some none rows h = absurd (none_ne h)
  take_it-some (some i) rows h = elim (Bool-cases (approval_consume rows i).1) [
    | inr e ↦ absurd (none_ne (rw e at h))
    | inl e ↦
        let same : i ≡ id = some_eq i id (rw e at h) in
        subst
          (λ k.
            (take_it rows (some i) ≡ ((approval_consume rows k).0, some k))
            × (some i ≡ some k)
            × ((approval_consume rows k).1 ≡ true))
          same (rw e refl, refl, e)
  ]

  -- A row that was consumed, where no other row has the id.
  consumed-IsSpent :
      (rows : List Approval)
      → count_where (has_id id) rows ≤ 1
      → (approval_consume rows id).1 ≡ true
      → All IsSpent (approval_consume rows id).0
  unfolding approval_consume
  consumed-IsSpent rows one h =
      let used : All (λ a. has_id id a ≡ true → is_approved a.state ≡ true) rows =
        count_where-only (has_id id) (λ a. is_approved a.state) rows one (ground arith) in
      All-update_where_to (λ a. has_id id a ≡ true → is_approved a.state ≡ true) IsSpent
        (can_consume id) spend rows (λ a t u e. refl)
        (λ a t u e.
          absurd (false≢true (sym t ∙ and_true (has_id id a) (is_approved a.state) e (u e))))
        used

  unspent : (rows : List Approval) → All IsSpent rows → (approval_consume rows id).1 ≡ true → ⊥
  unfolding approval_consume
  unspent rows h used =
      let gone : count_where (can_consume id) rows ≡ 0 =
        count_where-zero (can_consume id) rows
          (All-weaken IsSpent (λ a. can_consume id a ≡ false) rows spent_row h) in
      absurd (false≢true (rw gone at used))
    where
      spent_row : (a : Approval) → IsSpent a → can_consume id a ≡ false
      spent_row a k = elim (Bool-cases (has_id id a)) [
        | inl e ↦ and_false (has_id id a) (is_approved a.state) (rw (k e) refl)
        | inr e ↦ rw e refl
      ]

  -- One use: a ticket that was taken is not taken again, whatever statements of src/approval.c run
  -- after that other than one that inserts its id again, by whatever request at whatever time. The id is that of no
  -- other row.
  pub approval_take_ticket-once :
      (j : JsonTree) (rows : List Approval) (now : ℕ) (q : Request) (calls : List ApprovalCall)
      (later : ℕ) (r : Request)
      → count_where (has_id id) rows ≤ 1
      → (approval_take_ticket j rows now q).1 ≡ some id
      → All IsFresh calls
      → (approval_take_ticket j (run j calls (approval_take_ticket j rows now q).0) later r).1
        ≢ some id
  unfolding approval_take_ticket
  approval_take_ticket-once j rows now q calls later r one h f again =
      let (moved, _, used) = take_it-some (approval_match_state j rows (tickets now) q) rows h in
      let taken = (approval_take_ticket j rows now q).0 in
      let spent : All IsSpent taken =
        subst (All IsSpent) (sym (ap (λ t. t.0) moved)) (consumed-IsSpent rows one used) in
      let after = run j calls taken in
      let (_, _, reused) =
        take_it-some (approval_match_state j after (tickets later) r) after again in
      unspent after (run-All j IsSpent IsSpent-lasts calls taken f spent) reused

-- A ticket is taken by a request that it covers and for which it is used up: the row was approved
-- and not expired, of the session, for the reason and of the tool of the request, for the same
-- arguments, and a frozen call to run again; it is the one row that was changed.
pub approval_take_ticket-Answers :
    (j : JsonTree) (rows : List Approval) (now : ℕ) (q : Request) (id : ℕ)
    → (approval_take_ticket j rows now q).1 ≡ some id
    → Answers j rows (tickets now) q id
      × (approval_take_ticket j rows now q ≡ ((approval_consume rows id).0, some id))
unfolding approval_take_ticket
approval_take_ticket-Answers j rows now q id h =
    let (moved, found, _) = take_it-some id (approval_match_state j rows (tickets now) q) rows h in
    (approval_match_state-Answers j rows (tickets now) q id found, moved)
