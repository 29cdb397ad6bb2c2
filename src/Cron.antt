-- ===== src/Cron.antt =====
-- src/cron.c: the jobs that run by the clock. Field and Next hold the schedule expressions, Document
-- the tool's JSON document, Merge the merging of a document into a stored job, Table the writer of
-- the table `cron_jobs`, Fire and Tick the firing of due jobs. What is proved stands beside them, in
-- Run (the next fire), Modes (target modes), Kept (what an upsert keeps), Fired, Held, Quiet and OneFire
-- (what a tick does and leaves).
pub mod Field
pub mod Next
pub mod Document
pub mod Merge
pub mod Table
pub mod Run
pub mod Modes
pub mod Kept
pub mod Fire
pub mod Tick
pub mod Closed
pub mod Fired
pub mod Held
pub mod Quiet
pub mod OneFire
mod Examples
