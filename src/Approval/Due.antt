-- ===== src/Approval/Due.antt =====
-- The deadlines of src/approval.c: how long a turn is blocked on an approval, and which approvals the
-- sweeps of a process find. A configuration value is what `atoi` reads, `none` where it is unset.
use cclaw.Prelude.{
  ℕ, ◌+◌, Bool, true, false, ◌&&◌, ◌||◌, not, List, [], ◌∷◌, Option, none, some, if◌then◌else◌,
  Bytes, bytes_eq, ltb, ◌==◌, map,
}
use cclaw.Prelude.Int.{ℤ, pos, negsuc}
use cclaw.Store.{Session, Process}
use cclaw.Store.Sql.{exists_where, select_where}
use cclaw.Store.Sessions.{is_awaiting_approval}
use cclaw.Store.Processes.{is_instance}
use cclaw.Approval.{Approval, is_pending}

-- `default` is the registry's default value, which is positive.
abbrev pub approval_timeout_seconds : ℤ → ℕ → ℕ
approval_timeout_seconds (pos n) default = if ltb 0 n then n else default
approval_timeout_seconds (negsuc n) default = default

abbrev pub block_value : Option ℤ → ℕ → ℕ
block_value none default = default
block_value (some (pos n)) default = n
block_value (some (negsuc n)) default = 0

unfoldable pub approval_block_seconds : Option ℤ → ℕ → ℕ → ℕ
approval_block_seconds raw default timeout =
    let block = block_value raw default in if ltb timeout block then timeout else block

unfoldable pub approval_block_seconds_for_session : Bool → Option ℤ → ℕ → ℕ → ℕ
unfolding approval_block_seconds
approval_block_seconds_for_session ambient raw default timeout =
    if ambient then 0 else approval_block_seconds raw default timeout

-- `owner_instance IS NULL OR owner_instance = ?me OR owner_instance NOT IN processes`, for a `me`
-- that is NULL where it is empty.
abbrev pub is_me : Bytes → Bytes → Bool
is_me [] owner = false
is_me (c ∷ me) owner = bytes_eq owner (c ∷ me)

unfoldable pub is_mine : Bytes → List Process → Option Bytes → Bool
unfolding exists_where
is_mine me processes none = true
is_mine me processes (some owner) =
    is_me me owner || not (exists_where (is_instance owner) processes)

-- `JOIN sessions s ON s.id = a.session_id`, on a test of the two rows.
abbrev pub joined : List Session → (Session → Bool) → Approval → Bool
joined sessions test a = exists_where (λ s. s.id == a.session_id && test s) sessions

abbrev pub is_past : ℕ → Option ℕ → Bool
is_past now none = false
is_past now (some t) = ltb t now

unfoldable pub approval_list_expired :
    List Approval → List Session → List Process → ℕ → Bytes → List ℕ
unfolding select_where exists_where is_mine
approval_list_expired rows sessions processes now me =
    map (λ a. a.id)
      (select_where
        (λ a.
          is_pending a.state
          && (is_past now a.expires_at
              && joined sessions (λ s. is_mine me processes s.owner_instance) a))
        rows)

unfoldable pub approval_list_block_due :
    List Approval → List Session → List Process → ℕ → ℕ → Bytes → List ℕ
unfolding select_where exists_where is_mine
approval_list_block_due rows sessions processes now block_sec me =
    map (λ a. a.id)
      (select_where
        (λ a.
          is_pending a.state
          && (ltb (a.requested_at + block_sec) now
              && joined sessions
                  (λ s. is_awaiting_approval s.state && is_mine me processes s.owner_instance) a))
        rows)
