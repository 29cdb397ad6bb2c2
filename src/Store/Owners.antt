-- ===== src/Store/Owners.antt =====
-- Who owns a session, and which states follow which, under `session_set_state` of src/db.c.
use cclaw.Prelude.{
  ℕ, ◌≡◌, ◌≢◌, ◌↔◌, inl, inr, refl, sym, subst, ◌∙◌, true, false, List, [], ◌∷◌, none, some,
  none_ne, some_eq, arith, Bytes, All, Bool-cases, ◌==◌, false≢true,
}
use cclaw.Store.{
  SessionState, idle, llm_running, tool_running, compacting, rate_limited, awaiting_approval,
  Session,
}
use cclaw.Store.Sql.{count_where, first_where, All-update_where}
use cclaw.Store.Sessions.{is_idle, may_go, stamp, has_id, can_set, session_set_state}

-- The busy states follow any state, a park only a running one, and rest any other than itself.
pub data Transition : SessionState → SessionState → Type 0 where
  to_llm : (from : SessionState) → Transition from llm_running
  to_tool : (from : SessionState) → Transition from tool_running
  to_compacting : (from : SessionState) → Transition from compacting
  to_rate_limited : (from : SessionState) → Transition from rate_limited
  park_llm : Transition llm_running awaiting_approval
  park_tool : Transition tool_running awaiting_approval
  rest_llm : Transition llm_running idle
  rest_tool : Transition tool_running idle
  rest_compacting : Transition compacting idle
  rest_rate_limited : Transition rate_limited idle
  rest_awaiting : Transition awaiting_approval idle

may_go→Transition : (to from : SessionState) → may_go to from ≡ true → Transition from to
unfolding may_go
may_go→Transition idle idle h = absurd (false≢true h)
may_go→Transition idle llm_running h = rest_llm
may_go→Transition idle tool_running h = rest_tool
may_go→Transition idle compacting h = rest_compacting
may_go→Transition idle rate_limited h = rest_rate_limited
may_go→Transition idle awaiting_approval h = rest_awaiting
may_go→Transition llm_running from h = to_llm from
may_go→Transition tool_running from h = to_tool from
may_go→Transition compacting from h = to_compacting from
may_go→Transition rate_limited from h = to_rate_limited from
may_go→Transition awaiting_approval llm_running h = park_llm
may_go→Transition awaiting_approval tool_running h = park_tool
may_go→Transition awaiting_approval idle h = absurd (false≢true h)
may_go→Transition awaiting_approval compacting h = absurd (false≢true h)
may_go→Transition awaiting_approval rate_limited h = absurd (false≢true h)
may_go→Transition awaiting_approval awaiting_approval h = absurd (false≢true h)

Transition→may_go : {from to : SessionState} → Transition from to → may_go to from ≡ true
unfolding may_go
Transition→may_go (to_llm from) = refl
Transition→may_go (to_tool from) = refl
Transition→may_go (to_compacting from) = refl
Transition→may_go (to_rate_limited from) = refl
Transition→may_go park_llm = refl
Transition→may_go park_tool = refl
Transition→may_go rest_llm = refl
Transition→may_go rest_tool = refl
Transition→may_go rest_compacting = refl
Transition→may_go rest_rate_limited = refl
Transition→may_go rest_awaiting = refl

-- `id` is the primary key.
abbrev pub IsKeyed : List Session → Type 0
IsKeyed [] = Unit
IsKeyed (s ∷ rows) = All (λ r. (r.id == s.id) ≡ false) rows × IsKeyed rows

no_other :
    (id : ℕ) (to : SessionState) (s : Session) (rows : List Session)
    → (s.id == id) ≡ true
    → All (λ r. (r.id == s.id) ≡ false) rows
    → count_where (can_set id to) rows ≡ 0
unfolding count_where
no_other id to s [] e h = refl
no_other id to s (r ∷ rows) e (hr, h) =
    let miss : (r.id == id) ≡ false = ground arith in rw miss (no_other id to s rows e h)

count_iff :
    (id : ℕ) (to : SessionState) (rows : List Session)
    → IsKeyed rows
    → ((count_where (can_set id to) rows == 1) ≡ true)
      ↔ ((s : Session) × (first_where (has_id id) rows ≡ some s) × Transition s.state to)
unfolding count_where first_where
count_iff id to [] k = (λ h. absurd (false≢true h), λ (s, e, t). absurd (none_ne e))
count_iff id to (r ∷ rows) (fresh, k) = elim (Bool-cases (r.id == id)) [
  | inr e ↦ rw e (count_iff id to rows k)
  | inl e ↦ elim (Bool-cases (may_go to r.state)) [
    | inl m ↦ (
      λ h. (r, rw e refl, may_go→Transition to r.state m),
      λ (s, f, t). rw (e, m, no_other id to r rows e fresh) refl,
    )
    | inr m ↦ (
      λ h. absurd (false≢true (rw (e, m, no_other id to r rows e fresh) at h)),
      λ (s, f, t). absurd (
          false≢true (
            sym m
            ∙ subst (λ x. may_go to x.state ≡ true) (sym (some_eq r s (rw e at f)))
                (Transition→may_go t))),
    )
  ]
]

-- `session_set_state` succeeds exactly when the session exists and a transition leads from
-- its state to the new one.
pub session_set_state_iff :
    (me : Bytes) (now : ℕ) (sessions : List Session) (session_id : ℕ) (state : SessionState)
    → IsKeyed sessions
    → ((session_set_state me now sessions session_id state).1 ≡ true) ↔ (
        (s : Session) × (first_where (has_id session_id) sessions ≡ some s)
        × Transition s.state state)
unfolding session_set_state
session_set_state_iff me now sessions session_id state k = count_iff session_id state sessions k

-- A session is idle exactly when nobody owns it.
pub record OwnerRule (s : Session) : Type 0 where
  pub unowned : is_idle s.state ≡ true → s.owner_instance ≡ none
  pub owned : is_idle s.state ≡ false → s.owner_instance ≢ none

stamp-OwnerRule :
    (me : Bytes) (to : SessionState) (now : ℕ) (s : Session)
    → me ≢ []
    → OwnerRule (stamp me to now s)
stamp-OwnerRule [] to now s ne = absurd (ne refl)
stamp-OwnerRule (c ∷ me) to now s ne = elim (Bool-cases (is_idle to)) [
  | inl e ↦ record { unowned = λ h. rw e refl; owned = λ h. absurd (false≢true (sym h ∙ e)) }
  | inr e ↦ record {
    unowned = λ h. absurd (false≢true (sym e ∙ h));
    owned = λ h. rw e (λ q. absurd (none_ne (sym q)));
  }
]

-- One call, by any process.
pub record SetState : Type 0 where
  pub me : Bytes
  pub now : ℕ
  pub session_id : ℕ
  pub state : SessionState

unfoldable pub run : List SetState → List Session → List Session
unfolding session_set_state
run [] sessions = sessions
run (c ∷ calls) sessions = run calls (session_set_state c.me c.now sessions c.session_id c.state).0

-- Whatever processes with an instance id set whatever states in whatever order, a session is idle
-- exactly when no process owns it.
pub run-OwnerRule :
    (calls : List SetState) (sessions : List Session)
    → All (λ c. c.me ≢ []) calls
    → All OwnerRule sessions
    → All OwnerRule (run calls sessions)
unfolding run session_set_state
run-OwnerRule [] sessions n h = h
run-OwnerRule (c ∷ calls) sessions (n, ns) h =
    run-OwnerRule calls (session_set_state c.me c.now sessions c.session_id c.state).0 ns (
      All-update_where OwnerRule (can_set c.session_id c.state) (stamp c.me c.state c.now) sessions
        (λ s t o. stamp-OwnerRule c.me c.state c.now s n) h)
