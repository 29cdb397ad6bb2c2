-- ===== src/Approval.antt =====
-- The approvals of src/approval.c: the rows of the table `approvals` in the order of their ids. Rows
-- holds the statements that make and change a row, Tickets the matching of a call with a row, Gate
-- the use of both by src/dispatch.c, Flow what a decision does, Due the deadlines, Sweep what runs on
-- them, Fence the escape in a summary; the others hold what is true of them. Statements are taken to
-- prepare and to run, each is one step, and ids and times are not negative.
pub mod Rows
pub mod Decisions
pub mod Tickets
pub mod Spent
pub mod Gate
pub mod Authority
pub mod Parked
pub mod Bound
pub mod Flow
pub mod Effects
pub mod Settled
pub mod Due
pub mod Sweep
pub mod Fence
mod Examples
use cclaw.Prelude.{ℕ, Bool, true, false, Option, none, some, Bytes, bytes_eq, codes, ◌==◌}

pub data ApprovalState : Type 0 where
  pending approved denied consumed : ApprovalState

-- The columns that may be NULL are options.
pub record Approval : Type 0 where
  pub id : ℕ
  pub session_id : ℕ
  pub tool_call_id : Option Bytes
  pub tool_name : Option Bytes
  pub park_reason : Option Bytes
  pub args_json : Option Bytes
  pub resolve : Bytes
  pub state : ApprovalState
  pub decided_via : Option Bytes
  pub requested_at : ℕ
  pub expires_at : Option ℕ

abbrev pub is_pending : ApprovalState → Bool
is_pending pending = true
is_pending _ = false

abbrev pub is_approved : ApprovalState → Bool
is_approved approved = true
is_approved _ = false

abbrev pub approval_park_required : Bytes
approval_park_required = codes "approval_required"

abbrev pub approval_park_sensitive : Bytes
approval_park_sensitive = codes "sensitive_target"

abbrev pub rerun : Bytes
rerun = codes "rerun"

-- SQL's `IS` on two texts.
abbrev pub same_text : Option Bytes → Option Bytes → Bool
same_text none none = true
same_text none (some b) = false
same_text (some a) none = false
same_text (some a) (some b) = bytes_eq a b

abbrev pub or_text : Option Bytes → Bytes → Bytes
or_text none default = default
or_text (some a) default = a

abbrev pub has_id : ℕ → Approval → Bool
has_id id a = a.id == id

abbrev pub approval_is_sensitive : Option Approval → Bool
approval_is_sensitive none = false
approval_is_sensitive (some a) = same_text a.park_reason (some approval_park_sensitive)
