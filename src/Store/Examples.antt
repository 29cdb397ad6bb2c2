-- ===== src/Store/Examples.antt =====
-- Runs of the statements of src/db.c on small tables.
use cclaw.Prelude.{
  ◌≡◌, ◌↔◌, refl, sym, true, false, List, [], ◌∷◌, none, some, All, codes, arith, none_ne,
  false≢true, ◌≤◌, take, ◌==◌,
}
use cclaw.Store.{
  idle, llm_running, tool_running, awaiting_approval, Session, pending, ToolCall, Process, Agent,
}
use cclaw.Store.Sessions.{session_set_state}
use cclaw.Store.Sessions
use cclaw.Store.Sql.{first_where, count_where}
use cclaw.Store.Owners.{Transition, OwnerRule, SetState, run, session_set_state_iff, run-OwnerRule}
use cclaw.Store.Calls.{db_tool_call_claim, Between, claim, complete, after, db_tool_call_claim-once}
use cclaw.Store.Processes.{process_gc_dead}
use cclaw.Store.Holds.{is_agent, agent_hold_acquire}
use cclaw.Store.Leases.{HoldCall, acquire, release, hold_run, hold_run-exclusive}
use cclaw.Store.Queue.{Post, PostCall, insert, consume, post_run, view, queue_run, post_run-view}

abbrev busy : Session
busy = record {
  id = 7;
  name = none;
  agent_name = some (codes "ada");
  channel_name = none;
  chat_id = none;
  parent_session_id = none;
  depth = 0;
  state = tool_running;
  owner_instance = some (codes "p1");
  turn_iteration = 3;
  updated_at = 100;
}

abbrev resting : Session
resting = record busy { id = 8; state = idle; owner_instance = none }

abbrev two_sessions : List Session
two_sessions = busy ∷ resting ∷ []

session_set_state_iff_example :
    ((session_set_state (codes "p1") 120 two_sessions 7 awaiting_approval).1 ≡ true) ↔ (
      (s : Session) × (first_where (Sessions.has_id 7) two_sessions ≡ some s)
      × Transition s.state awaiting_approval)
session_set_state_iff_example =
    session_set_state_iff (codes "p1") 120 two_sessions 7 awaiting_approval ((refl, tt), (tt, tt))

-- an idle session cannot park
no_park-test : (session_set_state (codes "p1") 120 two_sessions 8 awaiting_approval).1 ≡ false
unfolding session_set_state
no_park-test = refl

busy-OwnerRule : OwnerRule busy
busy-OwnerRule = record { unowned = λ h. absurd (false≢true h); owned = λ h e. none_ne (sym e) }

resting-OwnerRule : OwnerRule resting
resting-OwnerRule = record { unowned = λ h. refl; owned = λ h. absurd (false≢true (sym h)) }

abbrev two_calls : List SetState
two_calls =
    (record { me = codes "p1"; now = 105; session_id = 7; state = idle })
    ∷ (record { me = codes "p2"; now = 106; session_id = 8; state = llm_running })
    ∷ []

run-OwnerRule_example : All OwnerRule (run two_calls two_sessions)
run-OwnerRule_example =
    run-OwnerRule two_calls two_sessions ((λ e. cc), ((λ e. cc), tt))
      (busy-OwnerRule, (resting-OwnerRule, tt))

abbrev calls_of : List ToolCall
calls_of =
    (record {
      session_id = 7;
      call_id = codes "c1";
      name = codes "shell";
      status = pending;
      resolved_by = none;
      result_entry_id = none;
    })
    ∷ []

abbrev between : List (Between 7 (codes "c1"))
between = claim 7 (codes "c1") ∷ complete 7 (codes "c2") 12 ∷ []

db_tool_call_claim-once_example :
    db_tool_call_claim
      (after 7 (codes "c1") between (db_tool_call_claim calls_of 7 (codes "c1")).0)
      7
      (codes "c1")
    ≡ (after 7 (codes "c1") between (db_tool_call_claim calls_of 7 (codes "c1")).0, false)
db_tool_call_claim-once_example = db_tool_call_claim-once 7 (codes "c1") calls_of between

first_claim-test : (db_tool_call_claim calls_of 7 (codes "c1")).1 ≡ true
unfolding db_tool_call_claim
first_claim-test = refl

abbrev agents_of : List Agent
agents_of = (record { name = codes "ada"; hold_until = none; hold_holder = none }) ∷ []

held-test : (agent_hold_acquire agents_of 100 (codes "ada") 60 (codes "deploy")).1 ≡ true
unfolding agent_hold_acquire
held-test = refl

one_agent : count_where (is_agent (codes "ada")) agents_of ≤ 1
unfolding count_where
one_agent = omega arith

abbrev rivals : List HoldCall
rivals =
    acquire 110 (codes "ada") 90 (codes "other") ∷ release 120 (codes "ada") (codes "other") ∷ []

hold_run-exclusive_example :
    agent_hold_acquire
      (hold_run rivals (agent_hold_acquire agents_of 100 (codes "ada") 60 (codes "deploy")).0)
      150
      (codes "ada")
      10
      (codes "third")
    ≡ (
      hold_run rivals (agent_hold_acquire agents_of 100 (codes "ada") 60 (codes "deploy")).0,
      false,
    )
hold_run-exclusive_example =
    hold_run-exclusive agents_of 100 60 (codes "ada") (codes "deploy") rivals 150 10 (codes "third")
      held-test one_agent (((λ e. cc), omega arith), (((λ e. cc), omega arith), tt)) (omega arith)

-- the holder that died is found out by its pid, the stale one by its time
abbrev processes_of : List Process
processes_of =
    (record { instance_id = codes "p1"; pid = 11; mode = codes "daemon"; heartbeat_at = 100 })
    ∷ (record { instance_id = codes "p2"; pid = 12; mode = codes "cli"; heartbeat_at = 100 })
    ∷ (record { instance_id = codes "p3"; pid = 13; mode = codes "cli"; heartbeat_at = 10 })
    ∷ []

gc-test : process_gc_dead (λ pid. pid == 12) 60 110 processes_of ≡ take 1 processes_of
unfolding process_gc_dead
gc-test = refl

abbrev empty_post : Post
empty_post = record { inbox = []; entries = []; leaf_of = λ s. 0 }

abbrev post_calls : List PostCall
post_calls =
    insert 1 7 none none (codes "hello")
    ∷ insert 2 8 (some (codes "cron")) (some (codes "daily")) (codes "tick")
    ∷ insert 3 7 (some (codes "web")) none (codes "again")
    ∷ consume 7 40 1
    ∷ []

post_run-view_example :
    view 7 (post_run post_calls empty_post) ≡ queue_run 7 post_calls (view 7 empty_post)
post_run-view_example = post_run-view 7 post_calls empty_post

queue-test :
    queue_run 7 post_calls (record { waiting = []; done = [] })
    ≡ record { waiting = codes "again" ∷ []; done = codes "hello" ∷ [] }
queue-test = refl

tag-test :
    (queue_run 8 post_calls (record { waiting = []; done = [] })).waiting
    ≡ codes "[cron: daily] tick" ∷ []
tag-test = refl
