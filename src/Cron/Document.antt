-- ===== src/Cron/Document.antt =====
-- `CronDoc` and `cron_doc_parse` of src/cron.c and src/cron.h. The tool's JSON arguments are read
-- by SQLite, whose answers are the parameter `Json`; the allocations are taken to succeed.
use cclaw.Prelude.{Bool, Option, none, some, if◌then◌else◌, Bytes, codes}
use cclaw.Prelude.Int.{ℤ, pos}

-- What the helpers of src/tool_args.c and `doc_has` answer on one document.
pub record Json : Type 0 where
  pub valid_object : Bool
  pub str : Bytes → Option Bytes
  pub int : Bytes → ℤ → ℤ
  pub has : Bytes → Bool

pub record CronDoc : Type 0 where
  pub name : Option Bytes
  pub cron_expr : Option Bytes
  pub in_seconds : ℤ
  pub prompt : Option Bytes
  pub script : Option Bytes
  pub session_id : ℤ
  pub session : Option Bytes
  pub agent : Option Bytes
  pub channel_name : Option Bytes
  pub chat_id : Option Bytes
  pub has_expr : Bool
  pub has_seconds : Bool
  pub has_prompt : Bool
  pub has_script : Bool
  pub has_session : Bool
  pub has_session_id : Bool
  pub has_agent : Bool
  pub has_channel : Bool
  pub has_chat : Bool

-- A NULL document is `none`.
unfoldable pub cron_doc_parse : Option Json → Option CronDoc
cron_doc_parse none = none
cron_doc_parse (some doc) =
    if doc.valid_object
    then some (record {
      name = doc.str (codes "name");
      cron_expr = doc.str (codes "cron_expr");
      in_seconds = doc.int (codes "in_seconds") (pos 0);
      prompt = doc.str (codes "prompt");
      script = doc.str (codes "script");
      session_id = doc.int (codes "session_id") (pos 0);
      session = doc.str (codes "session");
      agent = doc.str (codes "agent");
      channel_name = doc.str (codes "channel_name");
      chat_id = doc.str (codes "chat_id");
      has_expr = doc.has (codes "cron_expr");
      has_seconds = doc.has (codes "in_seconds");
      has_prompt = doc.has (codes "prompt");
      has_script = doc.has (codes "script");
      has_session = doc.has (codes "session");
      has_session_id = doc.has (codes "session_id");
      has_agent = doc.has (codes "agent");
      has_channel = doc.has (codes "channel_name");
      has_chat = doc.has (codes "chat_id");
    })
    else none
