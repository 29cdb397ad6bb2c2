-- ===== src/Lib.antt =====
-- A model of the parts of CClaw that decide what may be reached, what is kept and what is cut, in
-- the C sources under src/.
--
-- Processes of one installation share a database: src/db.c keeps the sessions with their states and
-- owners, the tool calls, the inbox and the leases. A tool call passes the gate of src/dispatch.c, which
-- may ask for an approval; src/approval.c keeps the approvals, and src/resolve.c does what a
-- decision says.
--
-- A shell child of CClaw reaches the network only through the proxy of src/proxy.c, which asks the
-- host and address rules of src/host_match.c and the private address test of src/http_policy.c.
-- Jobs by the clock are written by src/cron.c, which finds their next run and fires them. A
-- session's history is cut by src/context.c before it is sent to a model; texts on their way are
-- repaired by src/unicode_normalize.c and escaped by src/json_escape.c; lists in options are split by
-- src/util.c; and a model edits files by
-- src/tool_file.c.
--
-- Prelude     shared names, tests, lists, C strings and integers
-- Ascii       the comparisons of src/util.c
-- Clib        strtol and its parts, of the C library
-- Host        src/host_match.c: Rules (host_match), Cover (host_covered), Scan (host_in_text), and
--             Cidr (cidr_parse, cidr_match, granted_exact)
-- Proxy       src/proxy.c and src/http_policy.c: ProxyContext is the state, Bless the blessed set
--             (bless_add, bless_contains), Handle a client's request (handle_client), Sni the TLS
--             walk (parse_client_hello_sni, sni_check), Metadata, Reach, Requests and Runs what is dialled
-- Unicode     src/unicode_normalize.c: utf8_sanitize and unicode_strip_invisible
-- Cron        src/cron.c: Field (parse_field), Next (cron_next_run), Document (cron_doc_parse),
--             Merge (merged_mode, doc_check_merged, merge_schedule, merge_target) and Table
--             (row_load, merged_write, cron_upsert, cron_remove), Fire (fire_due) and Tick
--             (reschedule_due, run_due_jobs)
-- Context     src/context.c: plan_find_cut and context_compaction_keep_from
-- JsonEscape  src/json_escape.c: json_escape and json_unescape
-- FileEdit    src/tool_file.c: the text part of file_edit_run
-- Paths       src/tool_file.c: path_under and glob_match
-- Store       src/db.c: Sql the statements' shapes, Sessions (session_set_state), Calls
--             (db_tool_call_claim), Inbox (inbox_consume_into_entries_locked), Processes
--             (process_gc_dead), Holds (agent_hold_acquire); Owners, Leases and Queue runs of them
-- Approval    src/approval.c, dispatch_gate of src/dispatch.c and resolve_approval of src/resolve.c:
--             Rows, Tickets (approval_take_ticket), Due, Sweep (src/sweep.c), Fence, Gate and Flow
--             hold the code; Decisions, Spent, Authority, Parked, Bound, Effects and Settled what is
--             true of it
-- Base64      src/util.c: base64_encode
-- Split       src/util.c: split_and_trim
-- Buf         src/buf.c: buf_append, buf_take and template_render
--
-- A C string is the list of its bytes in front of the NUL, a pointer that may be NULL an Option, and
-- an error a value. Loops that are not structural take fuel: the length of the text where each round
-- passes a byte, the extensions' total length for the TLS walk, and the width of the window of 366
-- days for the search of the next run, whose rounds each move the time forward; that the walk and
-- the search never run out is stated with them.
--
-- Parameters stand for the system: inet_pton and inet_ntop (Platform), the name servers, the clock
-- and the dials (Env), localtime_r and mktime (Clock), and SQLite's reading of a JSON document (Json).
-- A table is the list of its rows, on which each SQL text is translated; statements are taken to
-- prepare and to run, each as one step, and allocations to succeed. json_tree is a parameter
-- (JsonTree), and so are a process's pid that is gone and the failure of apply_grant.
--
-- Not modelled: threads, sockets and processes, the database's schema and its other tables, what
-- the gate's tests of grants, policy and hooks do, the texts of notices, the streak of failed
-- fires, the turn's state machine, the tools but for file_edit's text, the model calls and
-- channels, the front ends, and the libraries under vendor/.
pub mod Prelude
pub mod Ascii
pub mod Clib
pub mod Host
pub mod Proxy
pub mod Unicode
pub mod Cron
pub mod Context
pub mod JsonEscape
pub mod FileEdit
pub mod Paths
pub mod Buf
pub mod Base64
pub mod Split
pub mod Store
pub mod Approval
