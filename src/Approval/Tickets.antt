-- ===== src/Approval/Tickets.antt =====
-- Which row answers for a call, in src/approval.c: two calls ask for the same when their arguments
-- are the same document. The nodes that SQLite's `json_tree` lists are a parameter.
use cclaw.Prelude.{
  ℕ, ◌≡◌, Bool, true, false, ◌&&◌, List, [], ◌∷◌, reverse, Option, none, some, if◌then◌else◌, Bytes,
  bytes_eq, ltb, ◌==◌, take, All-take, All-reverse, inl, inr, Option-cases, none_ne, some_eq,
}
use cclaw.Store.Sql.{
  select_where, first_where, exists_where, first_where-test, IsIn, All-self, All-select_where,
  All-first_where,
}
use cclaw.Approval.{Approval, is_pending, is_approved, same_text, rerun}
use cclaw.Approval.Rows.{approval_consume}

-- `json_tree`: the full keys, types and atoms of a text's nodes, or `none` for what is not JSON, and
-- SQL's equality on them.
pub record JsonTree : Type 1 where
  pub Node : Type 0
  pub node_eq : Node → Node → Bool
  pub json_tree : Bytes → Option (List Node)

-- Which states a search reads: a pending row, or an approved one that has not expired.
pub data Search : Type 0 where
  open_ones : Search
  tickets : (now : ℕ) → Search

-- `expires_at IS NOT NULL AND expires_at > unixepoch()`
abbrev pub is_unexpired : ℕ → Option ℕ → Bool
is_unexpired now none = false
is_unexpired now (some t) = ltb now t

abbrev pub in_search : Search → Approval → Bool
in_search open_ones a = is_pending a.state
in_search (tickets now) a = is_approved a.state && is_unexpired now a.expires_at

-- What a call asks for: its session, the reason to park, the tool and the arguments.
pub record Request : Type 0 where
  pub session_id : ℕ
  pub park_reason : Option Bytes
  pub tool_name : Option Bytes
  pub args_json : Option Bytes

abbrev pub is_candidate : Search → Request → Approval → Bool
is_candidate search q a =
    a.session_id == q.session_id
    && (in_search search a
        && (bytes_eq a.resolve rerun
            && (same_text a.park_reason q.park_reason && same_text a.tool_name q.tool_name)))

module _ {ℓ} {A : Type ℓ} where
  -- `NOT EXISTS (SELECT ... EXCEPT SELECT ...)`
  unfoldable pub covered : (A → A → Bool) → List A → List A → Bool
  unfolding exists_where
  covered same [] ys = true
  covered same (x ∷ xs) ys = exists_where (same x) ys && covered same xs ys

abbrev pub id_of : Option Approval → Option ℕ
id_of none = none
id_of (some a) = some a.id

abbrev pub take_it : List Approval → Option ℕ → List Approval × Option ℕ
take_it rows none = (rows, none)
take_it rows (some id) =
    let (after, spent) = approval_consume rows id in (after, if spent then some id else none)

module _ (j : JsonTree) where
  abbrev pub same_nodes : Option (List j.Node) → Option (List j.Node) → Bool
  same_nodes none b = false
  same_nodes (some a) none = false
  same_nodes (some a) (some b) = covered j.node_eq a b && covered j.node_eq b a

  unfoldable pub capability_match : Option Bytes → Option Bytes → Bool
  unfolding covered
  capability_match none b = false
  capability_match (some a) none = false
  capability_match (some a) (some b) =
      if bytes_eq a b then true else same_nodes (j.json_tree a) (j.json_tree b)

  abbrev pub matches : Request → Approval → Bool
  matches q a = capability_match a.args_json q.args_json

  -- The newest eight candidates are compared; `none` is the C function's 0.
  unfoldable pub approval_match_state : List Approval → Search → Request → Option ℕ
  unfolding select_where first_where capability_match
  approval_match_state rows search q =
      id_of (first_where (matches q) (take 8 (reverse (select_where (is_candidate search q) rows))))

  unfoldable pub approval_find_pending_match : List Approval → Request → Option ℕ
  unfolding approval_match_state
  approval_find_pending_match rows q = approval_match_state rows open_ones q

  -- The rows, and the id of the ticket that was spent.
  unfoldable pub approval_take_ticket : List Approval → ℕ → Request → List Approval × Option ℕ
  unfolding approval_match_state approval_consume
  approval_take_ticket rows now q = take_it rows (approval_match_state rows (tickets now) q)

-- A row that answers for a request: it is one of the table's, of the request's session, reason and
-- tool, in the state that is searched, and asks for the same.
pub record Answers (j : JsonTree) (rows : List Approval) (search : Search) (q : Request) (id : ℕ)
    : Type 0 where
  pub row : Approval
  pub stored : IsIn row rows
  pub named : row.id ≡ id
  pub candidate : is_candidate search q row ≡ true
  pub same : capability_match j row.args_json q.args_json ≡ true

pub approval_match_state-Answers :
    (j : JsonTree) (rows : List Approval) (search : Search) (q : Request) (id : ℕ)
    → approval_match_state j rows search q ≡ some id
    → Answers j rows search q id
unfolding approval_match_state
approval_match_state-Answers j rows search q id h =
    let found = select_where (is_candidate search q) rows in
    let newest = take 8 (reverse found) in
    elim (Option-cases (first_where (matches j q) newest)) [
      | inl e ↦ absurd (none_ne (rw e at h))
      | inr (a, e) ↦
          let all =
            All-select_where (λ r. IsIn r rows) (is_candidate search q) rows (All-self rows) in
          let Q : Approval → Type 0 = (λ r. IsIn r rows × (is_candidate search q r ≡ true)) in
          let (stored, candidate) =
            All-first_where Q (matches j q) newest a e
              (All-take Q 8 (reverse found) (All-reverse Q found all)) in
          record {
            row = a;
            stored = stored;
            named = some_eq a.id id (rw e at h);
            candidate = candidate;
            same = first_where-test (matches j q) newest a e;
          }
    ]
