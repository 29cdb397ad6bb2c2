-- ===== src/Approval/Parked.antt =====
-- What the gate of src/dispatch.c leaves in the table of approvals for those who decide: a parked
-- session has something to decide, and no session has more than the setting allows.
use cclaw.Prelude.{
  ℕ, ◌≡◌, ◌≢◌, refl, sym, ap, subst, ◌∙◌, Bool, true, false, ◌&&◌, Bool-cases, List, [], ◌∷◌, ◌++◌,
  reverse, Option, none, some, if_both, Bytes, ◌==◌, leb, ltb, length, inl, inr, none_ne,
  bytes_eq_refl, false≢true, and_left, and_true, All-reverse, arith,
}
use mathlib.Core.List.{reverse-append}
use cclaw.Store.Sql.{IsIn, All-self, All-first_where, first_where-test, first_where, select_where}
use cclaw.Approval.{
  Approval, ApprovalState, pending, approved, denied, consumed, same_text, is_pending,
}
use cclaw.Approval.Rows.{
  approval_create, approval_get_for_tool_call, approval_get_pending, approval_pending_ids, oldest,
  is_open_of, is_for_call, earlier,
}
use cclaw.Approval.Tickets.{JsonTree, approval_find_pending_match}
use cclaw.Approval.Gate.{
  Facts, Setting, Tables, Verdict, parked, Check, refuse, ask, let_go, gate_check, request_of,
  try_ticket, ask_ticket, ask_dup, create_and_park, park, ask_state, ask_row, at_check,
  dispatch_gate,
}

module _ (session_id : ℕ) where
  -- Some approval of the session waits for a decision.
  abbrev pub HasOpen : List Approval → Type 0
  HasOpen rows = approval_get_pending rows session_id ≢ none

  oldest-some : (rows : List Approval) (a : Approval) → IsIn a rows → oldest rows ≢ none
  unfolding oldest
  oldest-some [] a h = absurd h
  oldest-some (b ∷ rows) a h = earlier_some (oldest rows)
    where
      earlier_some : (o : Option Approval) → earlier b o ≢ none
      earlier_some none e = none_ne (sym e)
      earlier_some (some c) q =
          if_both (λ o. o ≢ none) (ltb c.requested_at b.requested_at) (some c) (some b)
            (λ e. none_ne (sym e)) (λ e. none_ne (sym e)) q

  select_where-IsIn :
      (test : Approval → Bool) (rows : List Approval) (a : Approval)
      → IsIn a rows
      → test a ≡ true
      → IsIn a (select_where test rows)
  unfolding select_where
  select_where-IsIn test [] a h e = absurd h
  select_where-IsIn test (b ∷ rows) a (inl same) e =
      rw (subst (λ x. test x ≡ true) (sym same) e) (inl same)
  select_where-IsIn test (b ∷ rows) a (inr later) e =
      let rest = select_where-IsIn test rows a later e in
      if_both (λ l. IsIn a l) (test b) _ _ (inr rest) rest

  stored-HasOpen :
      (rows : List Approval) (a : Approval)
      → IsIn a rows
      → is_open_of session_id a ≡ true
      → HasOpen rows
  unfolding approval_get_pending
  stored-HasOpen rows a h e =
      oldest-some (select_where (is_open_of session_id) rows) a
        (select_where-IsIn (is_open_of session_id) rows a h e)

  IsIn-last : (rows : List Approval) (a : Approval) → IsIn a (rows ++ a ∷ [])
  IsIn-last [] a = inl refl
  IsIn-last (b ∷ rows) a = inr (IsIn-last rows a)

  newest-append :
      (call_id : Bytes) (rows : List Approval) (a : Approval)
      → is_for_call session_id call_id a ≡ true
      → approval_get_for_tool_call (rows ++ a ∷ []) session_id (some call_id) ≡ some a
  unfolding approval_get_for_tool_call first_where
  newest-append call_id rows a e =
      ap (first_where (is_for_call session_id call_id)) (reverse-append rows (a ∷ [])) ∙ rw e refl

  found-IsIn :
      (call_id : Bytes) (rows : List Approval) (a : Approval)
      → approval_get_for_tool_call rows session_id (some call_id) ≡ some a
      → IsIn a rows × (a.session_id == session_id ≡ true)
  unfolding approval_get_for_tool_call
  found-IsIn call_id rows a h = (
    All-first_where (λ r. IsIn r rows) (is_for_call session_id call_id) (reverse rows) a h
        (All-reverse (λ r. IsIn r rows) rows (All-self rows)),
    and_left (a.session_id == session_id) (same_text a.tool_call_id (some call_id))
        (first_where-test (is_for_call session_id call_id) (reverse rows) a h),
  )

abbrev parks : Verdict → Bool
parks parked = true
parks _ = false

not_parking : {v : Verdict} → parks v ≡ false → v ≡ parked → ⊥
not_parking e h = false≢true (sym e ∙ ap parks h)

module _ (j : JsonTree) (t : Tables) (s : Setting) (f : Facts) where
  abbrev Waits : Tables × Verdict → Type 0
  Waits r =
      r.1 ≡ parked
      → HasOpen f.session_id r.0.approvals × ((s.daemon && s.block_seconds == 0) ≡ false)

  -- The row of the call is still pending when the window is looked at.
  park-Waits :
      (u : Tables) (a : Approval)
      → approval_get_for_tool_call u.approvals f.session_id (some f.call_id) ≡ some a
      → is_pending a.state ≡ true
      → HasOpen f.session_id u.approvals
      → Waits (park u s f)
  park-Waits u a e p waits = elim (Bool-cases (s.daemon && s.block_seconds == 0)) [
    | inl zero_window ↦ rw (zero_window, e, p) (λ h. absurd (not_parking refl h))
    | inr window ↦ rw window (λ h. (waits, refl))
  ]

  create-Waits : (t : Tables) → Waits (create_and_park t s f)
  unfolding approval_create
  create-Waits t =
      park-Waits _ _
        (newest-append f.session_id f.call_id t.approvals _
          (and_true _ _ (ground arith) (bytes_eq_refl f.call_id)))
        refl (stored-HasOpen f.session_id _ _ (IsIn-last f.session_id t.approvals _) (ground arith))

  dup-Waits : (t : Tables) (dup : Option ℕ) → Waits (ask_dup t s f dup)
  dup-Waits t (some dup) = λ h. absurd (not_parking refl h)
  dup-Waits t none =
      if_both Waits (leb s.max_pending (length (approval_pending_ids t.approvals f.session_id))) _ _
        (λ h. absurd (not_parking refl h)) (create-Waits t)

  ticket-Waits : (r : List Approval × Option ℕ) → Waits (ask_ticket j t s f r)
  ticket-Waits (rows, some id) = λ h. absurd (not_parking refl h)
  ticket-Waits (rows, none) =
      dup-Waits (record t { approvals = rows }) (approval_find_pending_match j rows (request_of f))

  state-Waits :
      (a : Approval) (state : ApprovalState)
      → approval_get_for_tool_call t.approvals f.session_id (some f.call_id) ≡ some a
      → a.state ≡ state
      → Waits (ask_state j t s f a.id state)
  state-Waits a denied e k = λ h. absurd (not_parking refl h)
  state-Waits a approved e k = λ h. absurd (not_parking refl h)
  state-Waits a consumed e k = ticket-Waits (try_ticket j t s f)
  state-Waits a pending e k =
      let (stored, mine) = found-IsIn f.session_id f.call_id t.approvals a e in
      park-Waits t a e (rw k refl)
        (stored-HasOpen f.session_id t.approvals a stored (and_true _ _ mine (rw k refl)))

  row-Waits :
      (r : Option Approval)
      → approval_get_for_tool_call t.approvals f.session_id (some f.call_id) ≡ r
      → Waits (ask_row j t s f r)
  row-Waits none e = ticket-Waits (try_ticket j t s f)
  row-Waits (some a) e = state-Waits a a.state e refl

  check-Waits : (c : Check) → Waits (at_check j t s f c)
  check-Waits (refuse detail) = λ h. absurd (not_parking refl h)
  check-Waits let_go = λ h. absurd (not_parking refl h)
  check-Waits ask = row-Waits _ refl

  -- A call that the gate parks leaves its session with a pending approval to decide, and no daemon
  -- with a block window of zero seconds parks one.
  pub dispatch_gate-HasOpen :
      (dispatch_gate j t s f).1 ≡ parked
      → HasOpen f.session_id (dispatch_gate j t s f).0.approvals
        × ((s.daemon && s.block_seconds == 0) ≡ false)
  unfolding dispatch_gate
  dispatch_gate-HasOpen = check-Waits (gate_check f)
