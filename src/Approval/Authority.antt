-- ===== src/Approval/Authority.antt =====
-- What lets a call through the gate of src/dispatch.c, and what a parked call waits for.
use cclaw.Prelude.{
  ℕ, ◌≡◌, ◌≢◌, refl, sym, ap, subst, ◌∙◌, Bool, true, false, ◌&&◌, ◌==◌, List, Option, none, some,
  if◌then◌else◌, if_both, leb, length, Bool-cases, inl, inr, none_ne, false≢true, arith,
}
use cclaw.Approval.{Approval, ApprovalState, pending, approved, denied, consumed, is_pending}
use cclaw.Store.{awaiting_approval}
use cclaw.Approval.Rows.{approval_get_for_tool_call, approval_consume, approval_pending_ids}
use cclaw.Approval.Tickets.{
  JsonTree, Answers, tickets, approval_take_ticket, approval_find_pending_match,
}
use cclaw.Approval.Spent.{approval_take_ticket-Answers}
use cclaw.Approval.Gate.{
  gate_allow, gate_deny, policy_allow, policy_deny, policy_error, Facts, Setting, Tables, Verdict,
  go, Check, refuse, ask, let_go, gate_check, request_of, try_ticket, ask_ticket, ask_dup, in_state,
  in_background, park, ask_state, ask_row, at_check, dispatch_gate,
}

-- No test forbids the call.
pub record Cleared (f : Facts) : Type 0 where
  granted : f.granted ≡ true
  allowed : f.allowed ≡ true
  valid : f.valid ≡ true
  policy : (f.policy ≢ policy_error) × (f.policy ≢ policy_deny)
  hook : f.hook ≢ gate_deny
  bound : f.bound ≡ true

-- No test asks for an approval.
pub record Unasked (f : Facts) : Type 0 where
  silent : f.silent ≡ true
  policy : f.policy ≡ policy_allow
  hook : f.hook ≡ gate_allow
  sensitive : f.sensitive ≡ false

-- The authority on which a call goes, with what that does to the tables and whether the call is let
-- reach the labelled host once.
pub data Authority (j : JsonTree) (t : Tables) (s : Setting) (f : Facts)
    : Tables → Bool → Type 0 where
  unasked : Unasked f → Authority j t s f t false
  own :
      (a : Approval)
      → approval_get_for_tool_call t.approvals f.session_id (some f.call_id) ≡ some a
      → a.state ≡ approved
      → Authority j t s f
          (record t { approvals = (approval_consume t.approvals a.id).0 })
          f.sensitive
  ticket :
      (id : ℕ)
      → f.sensitive ≡ false
      → Answers j t.approvals (tickets s.now) (request_of f) id
      → Authority j t s f (record t { approvals = (approval_consume t.approvals id).0 }) false

abbrev opens : Check → Bool
opens (refuse detail) = false
opens ask = true
opens let_go = true

gate_check-Cleared : (f : Facts) → opens (gate_check f) ≡ true → Cleared f
unfolding gate_check
gate_check-Cleared f h = record {
  granted = ground arith;
  allowed = ground arith;
  valid = ground arith;
  policy = (λ e. ground arith, λ e. ground arith);
  hook = λ e. ground arith;
  bound = ground arith;
}

gate_check-Unasked : (f : Facts) → gate_check f ≡ let_go → Unasked f
unfolding gate_check
gate_check-Unasked f h = record {
  silent = ground arith;
  policy = ground arith;
  hook = ground arith;
  sensitive = ground arith;
}

abbrev goes : Verdict → Bool
goes (go once) = true
goes _ = false

go_eq : (a b : Bool) → go a ≡ go b → a ≡ b
go_eq a b h = cc

not_going : {v : Verdict} {once : Bool} → goes v ≡ false → v ≡ go once → ⊥
not_going e h = false≢true (sym e ∙ ap goes h)

if_false : {A : Type 0} (b : Bool) (x y : A) → b ≡ false → (if b then x else y) ≡ y
if_false b x y e = rw e refl

module _ (j : JsonTree) (t : Tables) (s : Setting) (f : Facts) where
  abbrev Lets : Tables × Verdict → Type 0
  Lets r = (once : Bool) → r.1 ≡ go once → Authority j t s f r.0 once

  park-stays : (u : Tables) → goes (park u s f).1 ≡ false
  park-stays u =
      if_both (λ (r : Tables × Verdict). goes r.1 ≡ false) (s.daemon && s.block_seconds == 0) _ _
        (background (approval_get_for_tool_call u.approvals f.session_id (some f.call_id))) refl
    where
      background :
          (o : Option Approval)
          → goes (in_background (in_state u s f awaiting_approval) s f o).1 ≡ false
      background none = refl
      background (some a) =
          if_both (λ (r : Tables × Verdict). goes r.1 ≡ false) (is_pending a.state) _ _ refl refl

  dup-stays :
      (rows : List Approval) (dup : Option ℕ)
      → goes (ask_dup (record t { approvals = rows }) s f dup).1 ≡ false
  dup-stays rows (some dup) = refl
  dup-stays rows none =
      if_both (λ (r : Tables × Verdict). goes r.1 ≡ false)
        (leb s.max_pending (length (approval_pending_ids rows f.session_id))) _ _ refl
        (park-stays _)

  taken-Lets :
      (rows : List Approval) (id : ℕ)
      → try_ticket j t s f ≡ (rows, some id)
      → Authority j t s f (record t { approvals = rows }) f.sensitive
  taken-Lets rows id e = elim (Bool-cases f.sensitive) [
    | inl y ↦ absurd (none_ne (ap (λ r. r.1) (rw y at e)))
    | inr n ↦
        let take_eq : approval_take_ticket j t.approvals s.now (request_of f) ≡ (rows, some id) =
          sym (if_false f.sensitive _ _ n) ∙ e in
        let (answers, moved) =
          approval_take_ticket-Answers j t.approvals s.now (request_of f) id
            (ap (λ r. r.1) take_eq) in
        subst (λ x. Authority j t s f (record t { approvals = x }) f.sensitive)
          (ap (λ r. r.0) (sym moved ∙ take_eq))
          (subst (Authority j t s f _) (sym n) (ticket id n answers))
  ]

  result-Lets :
      (r : List Approval × Option ℕ) → try_ticket j t s f ≡ r → Lets (ask_ticket j t s f r)
  result-Lets (rows, none) e once h =
      absurd (not_going (dup-stays rows (approval_find_pending_match j rows (request_of f))) h)
  result-Lets (rows, some id) e once h =
      subst (Authority j t s f (record t { approvals = rows })) (go_eq f.sensitive once h)
        (taken-Lets rows id e)

  state-Lets :
      (a : Approval) (state : ApprovalState)
      → approval_get_for_tool_call t.approvals f.session_id (some f.call_id) ≡ some a
      → a.state ≡ state
      → Lets (ask_state j t s f a.id state)
  state-Lets a denied e k once h = absurd (not_going refl h)
  state-Lets a pending e k once h = absurd (not_going (park-stays t) h)
  state-Lets a consumed e k once h = result-Lets (try_ticket j t s f) refl once h
  state-Lets a approved e k once h =
      subst (Authority j t s f _) (go_eq f.sensitive once h) (own a e k)

  row-Lets :
      (r : Option Approval)
      → approval_get_for_tool_call t.approvals f.session_id (some f.call_id) ≡ r
      → Lets (ask_row j t s f r)
  row-Lets none e once h = result-Lets (try_ticket j t s f) refl once h
  row-Lets (some a) e once h = state-Lets a a.state e refl once h

  check-Lets : (c : Check) → gate_check f ≡ c → Lets (at_check j t s f c)
  check-Lets (refuse detail) e once h = absurd (not_going refl h)
  check-Lets ask e once h = row-Lets _ refl once h
  check-Lets let_go e once h =
      subst (Authority j t s f t) (go_eq false once h) (unasked (gate_check-Unasked f e))

  check-opens : (c : Check) (once : Bool) → (at_check j t s f c).1 ≡ go once → opens c ≡ true
  check-opens (refuse detail) once h = absurd (not_going refl h)
  check-opens ask once h = refl
  check-opens let_go once h = refl

  -- A call is let through only where nothing forbids it and something allows it: the tool is granted,
  -- the session's filter, the policy and the hooks do not deny it, its arguments are an object and
  -- its secrets are bound; and either no test asks, or an approval was used up for it: the one of
  -- the call itself, or, where no labelled host is in the arguments, one of the session that was
  -- approved for the same tool and the same arguments and has not expired. Only the call's own
  -- approval opens the way to a labelled host.
  pub dispatch_gate-Authority :
      (once : Bool)
      → (dispatch_gate j t s f).1 ≡ go once
      → Cleared f × Authority j t s f (dispatch_gate j t s f).0 once
  unfolding dispatch_gate
  dispatch_gate-Authority once h = (
    gate_check-Cleared f (check-opens (gate_check f) once h),
    check-Lets (gate_check f) refl once h,
  )
