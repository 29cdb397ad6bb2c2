-- ===== src/Approval/Decisions.antt =====
-- What any run of the statements of src/approval.c keeps of an approval: what was asked, the order of
-- its states, and the one decision.
use cclaw.Prelude.{
  ℕ, ◌≡◌, refl, sym, ap, ◌∙◌, Bool, true, false, List, [], ◌∷◌, Option, none, some, if◌then◌else◌,
  Bytes, Bool-cases, inl, inr, and_right, false≢true,
}
use cclaw.Store.Sql.{update_where, first_where, first_where-update_where, first_where-append}
use cclaw.Approval.{
  Approval, ApprovalState, pending, approved, denied, consumed, is_pending, is_approved, has_id,
}
use cclaw.Approval.Rows.{
  approval_create, approval_consume, approval_resolve, can_consume, can_resolve, spend, decide,
}
use cclaw.Approval.Tickets.{
  JsonTree, Request, tickets, take_it, approval_match_state, approval_take_ticket,
}

-- A statement of src/approval.c on the table, by any process. The denial by a recovery in src/db.c and
-- the insertion of an approved row by src/admin_api.c are not among them.
pub data ApprovalCall : Type 0 where
  create :
      (id now timeout session_id : ℕ)
      (tool_call_id tool_name park_reason args_json resolve : Option Bytes)
      → ApprovalCall
  resolve : (id : ℕ) (grant : Bool) (decided_via : Option Bytes) → ApprovalCall
  consume : (id : ℕ) → ApprovalCall
  take_ticket : (now : ℕ) (q : Request) → ApprovalCall

module _ (j : JsonTree) where
  unfoldable pub step : ApprovalCall → List Approval → List Approval
  unfolding approval_create approval_resolve approval_consume approval_take_ticket
  step (create id now timeout session_id call tool reason args res) rows =
      approval_create rows id now timeout session_id call tool reason args res
  step (resolve id grant via) rows = (approval_resolve rows id grant via).0
  step (consume id) rows = (approval_consume rows id).0
  step (take_ticket now q) rows = (approval_take_ticket j rows now q).0

  unfoldable pub run : List ApprovalCall → List Approval → List Approval
  unfolding step
  run [] rows = rows
  run (c ∷ calls) rows = run calls (step c rows)

-- How a row may change: a decision once, and only an approval is spent.
pub data Moves : ApprovalState → ApprovalState → Type 0 where
  stay : (s : ApprovalState) → Moves s s
  approve : Moves pending approved
  refuse : Moves pending denied
  use_up : Moves approved consumed
  approve_and_use_up : Moves pending consumed

Moves-trans : {a b c : ApprovalState} → Moves a b → Moves b c → Moves a c
Moves-trans (stay s) n = n
Moves-trans approve (stay _) = approve
Moves-trans approve use_up = approve_and_use_up
Moves-trans refuse (stay _) = refuse
Moves-trans use_up (stay _) = use_up
Moves-trans approve_and_use_up (stay _) = approve_and_use_up

still_decided : {a b : ApprovalState} → Moves a b → is_pending a ≡ false → is_pending b ≡ false
still_decided (stay s) e = e
still_decided approve e = refl
still_decided refuse e = refl
still_decided use_up e = refl
still_decided approve_and_use_up e = refl

-- The second row is what became of the first: every column but the state and the decider is as it
-- was, the state moved forward, and the decider of a decided row is as it was.
pub record Follows (a b : Approval) : Type 0 where
  request : b ≡ record a { state = b.state; decided_via = b.decided_via }
  moved : Moves a.state b.state
  decider : is_pending a.state ≡ false → b.decided_via ≡ a.decided_via

Follows-refl : (a : Approval) → Follows a a
Follows-refl a = record { request = refl; moved = stay a.state; decider = λ _. refl }

Follows-trans : (a b c : Approval) → Follows a b → Follows b c → Follows a c
Follows-trans a b c f g = record {
  request =
      g.request
      ∙ ap {A = Approval} {B = Approval}
          (λ x. record x { state = c.state; decided_via = c.decided_via }) f.request;
  moved = Moves-trans f.moved g.moved;
  decider = λ e. g.decider (still_decided f.moved e) ∙ f.decider e;
}

spend-Follows : (id : ℕ) (a : Approval) → can_consume id a ≡ true → Follows a (spend a)
spend-Follows id a h = record {
  request = refl;
  moved = from a.state (and_right (has_id id a) (is_approved a.state) h);
  decider = λ _. refl;
}
  where
    from : (s : ApprovalState) → is_approved s ≡ true → Moves s consumed
    from approved e = use_up
    from pending e = absurd (false≢true e)
    from denied e = absurd (false≢true e)
    from consumed e = absurd (false≢true e)

decide-Follows :
    (id : ℕ) (grant : Bool) (via : Option Bytes) (a : Approval)
    → can_resolve id a ≡ true
    → Follows a (decide grant via a)
decide-Follows id grant via a h =
    let open_row = and_right (has_id id a) (is_pending a.state) h in
    record {
      request = refl;
      moved = from a.state grant open_row;
      decider = λ e. absurd (false≢true (sym e ∙ open_row));
    }
  where
    from :
        (s : ApprovalState) (g : Bool)
        → is_pending s ≡ true
        → Moves s (if g then approved else denied)
    from pending true e = approve
    from pending false e = refuse
    from approved g e = absurd (false≢true e)
    from denied g e = absurd (false≢true e)
    from consumed g e = absurd (false≢true e)

-- What became of the row that an id names.
pub record Became (id : ℕ) (a : Approval) (rows : List Approval) : Type 0 where
  row : Approval
  found : first_where (has_id id) rows ≡ some row
  follows : Follows a row

update-Became :
    (id : ℕ) (test : Approval → Bool) (set : Approval → Approval) (rows : List Approval)
    (a : Approval)
    → ((r : Approval) → has_id id (set r) ≡ has_id id r)
    → ((r : Approval) → test r ≡ true → Follows r (set r))
    → first_where (has_id id) rows ≡ some a
    → Became id a (update_where test set rows)
update-Became id test set rows a same f e =
    let found = first_where-update_where (has_id id) test set rows a same e in
    elim (Bool-cases (test a)) [
      | inl t ↦ record { row = set a; found = rw t at found; follows = f a t }
      | inr t ↦ record { row = a; found = rw t at found; follows = Follows-refl a }
    ]

take_it-Became :
    (id : ℕ) (found : Option ℕ) (rows : List Approval) (a : Approval)
    → first_where (has_id id) rows ≡ some a
    → Became id a (take_it rows found).0
unfolding approval_consume
take_it-Became id none rows a e = record { row = a; found = e; follows = Follows-refl a }
take_it-Became id (some i) rows a e =
    update-Became id (can_consume i) spend rows a (λ r. refl) (spend-Follows i) e

module _ (j : JsonTree) where
  step-Became :
      (id : ℕ) (c : ApprovalCall) (rows : List Approval) (a : Approval)
      → first_where (has_id id) rows ≡ some a
      → Became id a (step j c rows)
  unfolding step approval_create approval_resolve approval_consume approval_take_ticket
  step-Became id (create _ _ _ _ _ _ _ _ _) rows a e = record {
    row = a;
    found = first_where-append (has_id id) rows _ a e;
    follows = Follows-refl a;
  }
  step-Became id (resolve i grant via) rows a e =
      update-Became id (can_resolve i) (decide grant via) rows a (λ r. refl)
        (decide-Follows i grant via) e
  step-Became id (consume i) rows a e =
      update-Became id (can_consume i) spend rows a (λ r. refl) (spend-Follows i) e
  step-Became id (take_ticket now q) rows a e =
      take_it-Became id (approval_match_state j rows (tickets now) q) rows a e

  -- Whatever statements of src/approval.c run, in whatever order, the row that an id named is still
  -- there: it asks for what it asked for, to the letter, its state has moved only forward (a pending approval is
  -- approved or denied, an approved one is consumed), and who decided it is kept once it is decided.
  pub run-Follows :
      (calls : List ApprovalCall) (rows : List Approval) (id : ℕ) (a : Approval)
      → first_where (has_id id) rows ≡ some a
      → Became id a (run j calls rows)
  unfolding run
  run-Follows [] rows id a e = record { row = a; found = e; follows = Follows-refl a }
  run-Follows (c ∷ calls) rows id a e =
      let one = step-Became id c rows a e in
      let rest = run-Follows calls (step j c rows) id one.row one.found in
      record {
        row = rest.row;
        found = rest.found;
        follows = Follows-trans a one.row rest.row one.follows rest.follows;
      }
