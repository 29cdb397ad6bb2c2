-- ===== src/Store/Queue.antt =====
-- The inbox of src/db.c as a queue: each session's texts are delivered in the order in which they came,
-- each of them once.
use cclaw.Prelude.{
  ℕ, zero, suc, ◌+◌, ◌≡◌, refl, ap, ap₂, subst, ◌∙◌, Bool, true, false, not, List, [], ◌∷◌, ◌++◌,
  append-nil, map-append, map, Option, if◌then◌else◌, Bytes, ◌==◌, take, drop, and_left, Bool-cases,
  inl, inr, arith,
}
use cclaw.Store.{InboxRow}
use cclaw.Store.Inbox.{
  Entry, is_waiting, tagged, tagged_text, source_or_cli, inbox_insert, consume_rows,
  inbox_consume_into_entries_locked,
}
use cclaw.Store.Sql.{select_where, select_where-append}

-- What a session's inbox is to its users: the texts that wait, the oldest first.
unfoldable pub queue : ℕ → List InboxRow → List Bytes
unfolding select_where
queue session_id rows = map tagged (select_where (is_waiting session_id) rows)

abbrev pub contents : List Entry → List Bytes
contents = map (λ e. e.content)

-- The texts that were delivered to a session, the oldest first.
unfoldable pub delivered : ℕ → List Entry → List Bytes
unfolding select_where
delivered session_id entries = contents (select_where (λ e. e.session_id == session_id) entries)

consume_rows-own :
    (reader : ℕ) (rows : List InboxRow) (limit next parent : ℕ)
    → let m = consume_rows reader rows limit next parent in
      (delivered reader m.entries ≡ take limit (queue reader rows))
      × (queue reader m.rows ≡ drop limit (queue reader rows))
unfolding consume_rows queue select_where delivered
consume_rows-own reader [] zero next parent = (refl, refl)
consume_rows-own reader [] (suc limit) next parent = (refl, refl)
consume_rows-own reader (i ∷ rows) zero next parent = (refl, refl)
consume_rows-own reader (i ∷ rows) (suc limit) next parent =
    elim (Bool-cases (is_waiting reader i)) [
      | inl e ↦
          let (texts, left) = consume_rows-own reader rows limit (next + 1) next in
          let mine = and_left (i.session_id == reader) (not i.consumed) e in
          rw (e, mine) (ap (λ l. tagged i ∷ l) texts, left)
      | inr e ↦ rw (e, e) (consume_rows-own reader rows (suc limit) next parent)
    ]

consume_rows-other :
    (reader session_id : ℕ) (rows : List InboxRow) (limit next parent : ℕ)
    → (reader == session_id) ≡ false
    → let m = consume_rows session_id rows limit next parent in
      (delivered reader m.entries ≡ []) × (queue reader m.rows ≡ queue reader rows)
unfolding consume_rows queue select_where delivered
consume_rows-other reader session_id [] limit next parent n = (refl, refl)
consume_rows-other reader session_id (i ∷ rows) zero next parent n = (refl, refl)
consume_rows-other reader session_id (i ∷ rows) (suc limit) next parent n =
    elim (Bool-cases (is_waiting session_id i)) [
      | inl e ↦
          let (texts, left) = consume_rows-other reader session_id rows limit (next + 1) next n in
          let its = and_left (i.session_id == session_id) (not i.consumed) e in
          let theirs : (i.session_id == reader) ≡ false = ground arith in
          rw (e, theirs) (texts, left)
      | inr e ↦
          let (texts, left) = consume_rows-other reader session_id rows (suc limit) next parent n in
          elim (Bool-cases (is_waiting reader i)) [
            | inl w ↦ rw (e, w) (texts, ap (λ l. tagged i ∷ l) left)
            | inr w ↦ rw (e, w) (texts, left)
          ]
    ]

-- The tables of the inbox, and a call on them by any process.
pub record Post : Type 0 where
  pub inbox : List InboxRow
  pub entries : List Entry
  pub leaf_of : ℕ → ℕ

pub data PostCall : Type 0 where
  insert : (id session_id : ℕ) (source source_ref : Option Bytes) (payload : Bytes) → PostCall
  consume : (session_id next limit : ℕ) → PostCall

abbrev pub set_leaf : (ℕ → ℕ) → ℕ → ℕ → ℕ → ℕ
set_leaf leaf_of session_id leaf k = if k == session_id then leaf else leaf_of k

unfoldable pub post_step : PostCall → Post → Post
unfolding inbox_insert inbox_consume_into_entries_locked
post_step (insert id session_id source source_ref payload) p = record p {
  inbox = inbox_insert p.inbox id session_id source source_ref payload;
}
post_step (consume session_id next limit) p =
    let c =
      inbox_consume_into_entries_locked p.inbox p.entries session_id (p.leaf_of session_id) next
        limit in
    record {
      inbox = c.inbox;
      entries = c.entries;
      leaf_of = set_leaf p.leaf_of session_id c.leaf_id;
    }

unfoldable pub post_run : List PostCall → Post → Post
unfolding post_step
post_run [] p = p
post_run (c ∷ calls) p = post_run calls (post_step c p)

-- The queue of a session: what waits, and what was delivered.
pub record QueueState : Type 0 where
  pub waiting : List Bytes
  pub done : List Bytes

abbrev pub queue_step : ℕ → PostCall → QueueState → QueueState
queue_step reader (insert id session_id source source_ref payload) q =
    if session_id == reader
    then record q {
      waiting = q.waiting ++ tagged_text (source_or_cli source) source_ref payload ∷ [];
    }
    else q
queue_step reader (consume session_id next limit) q =
    if reader == session_id
    then record { waiting = drop limit q.waiting; done = q.done ++ take limit q.waiting }
    else q

abbrev pub queue_run : ℕ → List PostCall → QueueState → QueueState
queue_run reader [] q = q
queue_run reader (c ∷ calls) q = queue_run reader calls (queue_step reader c q)

abbrev pub view : ℕ → Post → QueueState
view reader p = record { waiting = queue reader p.inbox; done = delivered reader p.entries }

delivered-append :
    (reader : ℕ) (a b : List Entry)
    → delivered reader (a ++ b) ≡ delivered reader a ++ delivered reader b
unfolding delivered
delivered-append reader a b =
    ap contents (select_where-append (λ e. e.session_id == reader) a b)
    ∙ map-append (λ e. e.content) _ _

queue-insert :
    (reader : ℕ) (rows : List InboxRow) (i : InboxRow)
    → queue reader (rows ++ i ∷ []) ≡ queue reader rows ++ queue reader (i ∷ [])
unfolding queue
queue-insert reader rows i =
    ap (map tagged) (select_where-append (is_waiting reader) rows (i ∷ [])) ∙ map-append tagged _ _

abbrev state_of : List Bytes → List Bytes → QueueState
state_of waiting done = record { waiting = waiting; done = done }

queue_one :
    (reader : ℕ) (i : InboxRow)
    → i.consumed ≡ false
    → queue reader (i ∷ []) ≡ (if i.session_id == reader then tagged i ∷ [] else [])
unfolding queue select_where
queue_one reader i fresh = elim (Bool-cases (i.session_id == reader)) [
  | inl e ↦ rw (e, fresh) refl
  | inr e ↦ rw e refl
]

insert-view :
    (reader : ℕ) (i : InboxRow) (p : Post)
    → i.consumed ≡ false
    → queue reader (p.inbox ++ i ∷ []) ≡ (
        if i.session_id == reader
        then queue reader p.inbox ++ tagged i ∷ []
        else queue reader p.inbox)
insert-view reader i p fresh =
    queue-insert reader p.inbox i
    ∙ ap (λ l. queue reader p.inbox ++ l) (queue_one reader i fresh)
    ∙ last (i.session_id == reader)
  where
    last :
        (b : Bool)
        → queue reader p.inbox ++ (if b then tagged i ∷ [] else [])
          ≡ (if b then queue reader p.inbox ++ tagged i ∷ [] else queue reader p.inbox)
    last true = refl
    last false = append-nil (queue reader p.inbox)

own-view :
    (reader next limit : ℕ) (p : Post)
    → view reader (post_step (consume reader next limit) p)
      ≡ state_of
          (drop limit (queue reader p.inbox))
          (delivered reader p.entries ++ take limit (queue reader p.inbox))
unfolding post_step inbox_consume_into_entries_locked
own-view reader next limit p =
    let (texts, left) = consume_rows-own reader p.inbox limit next (p.leaf_of reader) in
    ap₂ state_of left
      (delivered-append reader p.entries _ ∙ ap (λ l. delivered reader p.entries ++ l) texts)

other-view :
    (reader session_id next limit : ℕ) (p : Post)
    → (reader == session_id) ≡ false
    → view reader (post_step (consume session_id next limit) p) ≡ view reader p
unfolding post_step inbox_consume_into_entries_locked
other-view reader session_id next limit p n =
    let (texts, left) =
      consume_rows-other reader session_id p.inbox limit next (p.leaf_of session_id) n in
    ap₂ state_of left (
      delivered-append reader p.entries _
      ∙ ap (λ l. delivered reader p.entries ++ l) texts
      ∙ append-nil (delivered reader p.entries))

step-view :
    (reader : ℕ) (c : PostCall) (p : Post)
    → view reader (post_step c p) ≡ queue_step reader c (view reader p)
unfolding post_step inbox_insert
step-view reader (insert id session_id source source_ref payload) p =
    let i : InboxRow = record {
      id = id;
      session_id = session_id;
      source = source_or_cli source;
      source_ref = source_ref;
      payload = payload;
      consumed = false;
    } in
    let moved = insert-view reader i p refl in
    elim (Bool-cases (session_id == reader)) [
      | inl e ↦ rw e (ap (λ w. state_of w (delivered reader p.entries)) (rw e at moved))
      | inr e ↦ rw e (ap (λ w. state_of w (delivered reader p.entries)) (rw e at moved))
    ]
step-view reader (consume session_id next limit) p = elim (Bool-cases (reader == session_id)) [
  | inl e ↦
      let same : reader ≡ session_id = ground arith in
      rw e (
        subst
          (λ s.
            view reader (post_step (consume s next limit) p)
            ≡ state_of (drop limit (queue reader p.inbox))
                (delivered reader p.entries ++ take limit (queue reader p.inbox)))
          same (own-view reader next limit p))
  | inr e ↦ rw e (other-view reader session_id next limit p e)
]

-- The inbox refines a queue for each session: whatever is inserted and moved for whatever sessions in
-- whatever order, what waits for a session and what was delivered to it are what a queue holds that
-- appends each text of the session and moves up to a limit from its front.
pub post_run-view :
    (reader : ℕ) (calls : List PostCall) (p : Post)
    → view reader (post_run calls p) ≡ queue_run reader calls (view reader p)
unfolding post_run
post_run-view reader [] p = refl
post_run-view reader (c ∷ calls) p =
    post_run-view reader calls (post_step c p) ∙ ap (queue_run reader calls) (step-view reader c p)
