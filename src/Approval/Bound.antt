-- ===== src/Approval/Bound.antt =====
-- How many approvals a session may have open, through the gate of src/dispatch.c.
use cclaw.Prelude.{
  ℕ, ◌≤◌, ◌≡◌, ◌==◌, refl, sym, ap, ◌∙◌, true, false, ◌&&◌, List, Option, none, some, if_both, leb,
  not_leb, length, length-map, Bool-cases, inl, inr, false≢true, and_false, and_right, max, arith,
}
use cclaw.Store.Sql.{
  select_where, count_where, count_where-same, count_where-append, length-select_where,
}
use cclaw.Store.{awaiting_approval}
use cclaw.Approval.{
  Approval, ApprovalState, pending, approved, denied, consumed, is_pending, is_approved, has_id,
  rerun,
}
use cclaw.Approval.Rows.{
  approval_create, approval_consume, approval_pending_ids, approval_get_for_tool_call, is_open_of,
  can_consume, spend,
}
use cclaw.Approval.Tickets.{
  JsonTree, tickets, take_it, approval_match_state, approval_take_ticket,
  approval_find_pending_match,
}
use cclaw.Approval.Gate.{
  Facts, Setting, Tables, Verdict, Check, refuse, ask, let_go, gate_check, request_of, try_ticket,
  ask_ticket, ask_dup, park, park_why, in_state, in_background, ask_state, ask_row, at_check,
  dispatch_gate,
}

module _ (session_id : ℕ) where
  abbrev pub open_number : List Approval → ℕ
  open_number rows = length (approval_pending_ids rows session_id)

  open_number_eq :
      (rows : List Approval) → open_number rows ≡ count_where (is_open_of session_id) rows
  unfolding approval_pending_ids
  open_number_eq rows =
      length-map (λ a. a.id) (select_where (is_open_of session_id) rows)
      ∙ length-select_where (is_open_of session_id) rows

  not_open_approved : (s : ApprovalState) → is_approved s ≡ true → is_pending s ≡ false
  not_open_approved approved e = refl
  not_open_approved denied e = refl
  not_open_approved consumed e = refl
  not_open_approved pending e = absurd (false≢true e)

  consume-number :
      (id : ℕ) (rows : List Approval) → open_number (approval_consume rows id).0 ≡ open_number rows
  unfolding approval_consume
  consume-number id rows =
      open_number_eq (approval_consume rows id).0
      ∙ count_where-same (is_open_of session_id) (can_consume id) spend rows unaffected
      ∙ sym (open_number_eq rows)
    where
      unaffected :
          (a : Approval)
          → can_consume id a ≡ true
          → is_open_of session_id (spend a) ≡ is_open_of session_id a
      unaffected a e =
          and_false (a.session_id == session_id) false refl
          ∙ sym (
              and_false (a.session_id == session_id) (is_pending a.state)
                (not_open_approved a.state (and_right (has_id id a) (is_approved a.state) e)))

  take_it-number :
      (found : Option ℕ) (rows : List Approval)
      → open_number (take_it rows found).0 ≡ open_number rows
  take_it-number none rows = refl
  take_it-number (some id) rows = consume-number id rows

module _ (j : JsonTree) (t : Tables) (s : Setting) (f : Facts) where
  abbrev opened : Tables → ℕ
  opened u = open_number f.session_id u.approvals

  abbrev Within : Tables × Verdict → Type 0
  Within r = opened r.0 ≤ max (opened t) s.max_pending

  park-approvals : (u : Tables) → (park u s f).0.approvals ≡ u.approvals
  park-approvals u =
      if_both (λ (r : Tables × Verdict). r.0.approvals ≡ u.approvals)
        (s.daemon && s.block_seconds == 0) _ _
        (background (approval_get_for_tool_call u.approvals f.session_id (some f.call_id))) refl
    where
      background :
          (o : Option Approval)
          → (in_background (in_state u s f awaiting_approval) s f o).0.approvals ≡ u.approvals
      background none = refl
      background (some a) =
          if_both (λ (r : Tables × Verdict). r.0.approvals ≡ u.approvals) (is_pending a.state) _ _
            refl refl

  dup-Within :
      (rows : List Approval) (dup : Option ℕ)
      → open_number f.session_id rows ≡ opened t
      → Within (ask_dup (record t { approvals = rows }) s f dup)
  unfolding approval_create
  dup-Within rows (some dup) e = omega (arith, e)
  dup-Within rows none e =
      elim (Bool-cases (leb s.max_pending (length (approval_pending_ids rows f.session_id)))) [
        | inl full ↦ rw full (omega (arith, e))
        | inr room ↦
            let less =
              not_leb s.max_pending (length (approval_pending_ids rows f.session_id)) room in
            let created =
              approval_create rows s.next_id s.now s.timeout f.session_id (some f.call_id)
                (some f.name) (some (park_why f)) (some f.arguments) (some rerun) in
            rw room (
              omega (
                arith,
                less,
                open_number_eq f.session_id rows,
                ap (open_number f.session_id) (park-approvals (record t { approvals = created })),
                open_number_eq f.session_id created,
                count_where-append (is_open_of f.session_id) rows _,
              ))
      ]

  try_ticket-number : open_number f.session_id (try_ticket j t s f).0 ≡ opened t
  unfolding approval_take_ticket
  try_ticket-number =
      if_both (λ (r : List Approval × Option ℕ). open_number f.session_id r.0 ≡ opened t)
        f.sensitive _ _ refl
        (take_it-number f.session_id
          (approval_match_state j t.approvals (tickets s.now) (request_of f)) t.approvals)

  ticket-Within :
      (r : List Approval × Option ℕ)
      → open_number f.session_id r.0 ≡ opened t
      → Within (ask_ticket j t s f r)
  ticket-Within (rows, some id) e = omega (arith, e)
  ticket-Within (rows, none) e =
      dup-Within rows (approval_find_pending_match j rows (request_of f)) e

  state-Within : (id : ℕ) (state : ApprovalState) → Within (ask_state j t s f id state)
  state-Within id denied = omega arith
  state-Within id pending = omega (arith, ap (open_number f.session_id) (park-approvals t))
  state-Within id approved = omega (arith, consume-number f.session_id id t.approvals)
  state-Within id consumed = ticket-Within (try_ticket j t s f) try_ticket-number

  row-Within : (r : Option Approval) → Within (ask_row j t s f r)
  row-Within none = ticket-Within (try_ticket j t s f) try_ticket-number
  row-Within (some a) = state-Within a.id a.state

  check-Within : (c : Check) → Within (at_check j t s f c)
  check-Within (refuse detail) = omega arith
  check-Within let_go = omega arith
  check-Within ask = row-Within _

  -- The gate opens an approval for a session only while fewer are open than the setting allows: a
  -- call leaves no more of them open than that, or than there were.
  pub dispatch_gate-number :
      open_number f.session_id (dispatch_gate j t s f).0.approvals
      ≤ max (open_number f.session_id t.approvals) s.max_pending
  unfolding dispatch_gate
  dispatch_gate-number = check-Within (gate_check f)
