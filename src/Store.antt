-- ===== src/Store.antt =====
-- The tables that the processes of an installation share, of src/db.c and templates/schema.sql, as
-- lists of their rows in the order of their ids, and the statements of src/db.c on them. Statements
-- are taken to prepare and to run, ids and times are not negative, and `now` is `unixepoch()`. One
-- statement, and one `BEGIN IMMEDIATE` block, is one step: SQLite lets no other write between.
-- Sql holds the statements' common shapes, the other children a table each.
pub mod Sql
pub mod Sessions
pub mod Owners
pub mod Calls
pub mod Processes
pub mod Holds
pub mod Leases
pub mod Inbox
pub mod Queue
mod Examples
use cclaw.Prelude.{ℕ, Bool, List, Option, Bytes}

pub data SessionState : Type 0 where
  idle llm_running tool_running compacting rate_limited awaiting_approval : SessionState

-- `parent_session_id` is -1 in the table where it is `none` here.
pub record Session : Type 0 where
  pub id : ℕ
  pub name : Option Bytes
  pub agent_name : Option Bytes
  pub channel_name : Option Bytes
  pub chat_id : Option Bytes
  pub parent_session_id : Option ℕ
  pub depth : ℕ
  pub state : SessionState
  pub owner_instance : Option Bytes
  pub turn_iteration : ℕ
  pub updated_at : ℕ

pub data CallStatus : Type 0 where
  pending running background finished : CallStatus

-- `finished` is the text 'done'.
pub record ToolCall : Type 0 where
  pub session_id : ℕ
  pub call_id : Bytes
  pub name : Bytes
  pub status : CallStatus
  pub resolved_by : Option Bytes
  pub result_entry_id : Option ℕ

pub record InboxRow : Type 0 where
  pub id : ℕ
  pub session_id : ℕ
  pub source : Bytes
  pub source_ref : Option Bytes
  pub payload : Bytes
  pub consumed : Bool

pub record Process : Type 0 where
  pub instance_id : Bytes
  pub pid : ℕ
  pub mode : Bytes
  pub heartbeat_at : ℕ

-- The columns of `agents` that the quiesce lease uses.
pub record Agent : Type 0 where
  pub name : Bytes
  pub hold_until : Option ℕ
  pub hold_holder : Option Bytes
