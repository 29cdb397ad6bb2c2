-- ===== src/Store/Inbox.antt =====
-- The inbox of a session, `inbox_*` of src/db.c: a queue that is moved into the session's chain of
-- entries in one transaction. Of an entry only the id, the parent, the session and the text are
-- modelled, the session exists, and SQLite's new ids are taken to be consecutive.
use cclaw.Prelude.{
  ℕ, zero, suc, ◌+◌, Bool, true, false, ◌&&◌, not, List, [], ◌∷◌, ◌++◌, Option, none, some,
  if◌then◌else◌, Bytes, bytes_eq, codes, ◌==◌, length,
}
use cclaw.Store.{InboxRow}
use cclaw.Store.Sql.{count_where}

pub record Entry : Type 0 where
  pub id : ℕ
  pub parent_id : ℕ
  pub session_id : ℕ
  pub content : Bytes

abbrev pub source_or_cli : Option Bytes → Bytes
source_or_cli none = codes "cli"
source_or_cli (some source) = source

-- `id` is the new row's.
unfoldable pub inbox_insert :
    List InboxRow → (id session_id : ℕ) → (source source_ref : Option Bytes) → Bytes → List InboxRow
inbox_insert rows id session_id source source_ref payload =
    rows
    ++ (record {
      id = id;
      session_id = session_id;
      source = source_or_cli source;
      source_ref = source_ref;
      payload = payload;
      consumed = false;
    })
      ∷ []

abbrev pub is_waiting : ℕ → InboxRow → Bool
is_waiting session_id i = i.session_id == session_id && not i.consumed

unfoldable pub inbox_count : List InboxRow → ℕ → ℕ
unfolding count_where
inbox_count rows session_id = count_where (is_waiting session_id) rows

-- The text of the entry: the payload behind a tag of what it refers to.
abbrev pub tag_of : Bytes → Bytes → Bytes
tag_of source ref =
    if bytes_eq source (codes "cron")
    then codes "[cron: " ++ ref ++ codes "] "
    else if bytes_eq source (codes "agent_result")
    then codes "[sub-agent session " ++ ref ++ codes "] "
    else codes "[" ++ source ++ codes " " ++ ref ++ codes "] "

abbrev pub tagged_text : Bytes → Option Bytes → Bytes → Bytes
tagged_text source none payload = payload
tagged_text source (some ref) payload = tag_of source ref ++ payload

abbrev pub tagged : InboxRow → Bytes
tagged i = tagged_text i.source i.source_ref i.payload

-- The loop over the rows that wait, with the number it may still take, the id that SQLite gives
-- next, and the parent of the next entry: the rows, the new entries, and the last parent.
pub record Moved : Type 0 where
  pub rows : List InboxRow
  pub entries : List Entry
  pub leaf : ℕ

abbrev pub entry_of : ℕ → ℕ → InboxRow → Entry
entry_of next parent i = record {
  id = next;
  parent_id = parent;
  session_id = i.session_id;
  content = tagged i;
}

unfoldable pub consume_rows : ℕ → List InboxRow → (limit next parent : ℕ) → Moved
consume_rows session_id [] limit next parent = record { rows = []; entries = []; leaf = parent }
consume_rows session_id (i ∷ rows) zero next parent = record {
  rows = i ∷ rows;
  entries = [];
  leaf = parent;
}
consume_rows session_id (i ∷ rows) (suc limit) next parent =
    let kept = consume_rows session_id rows (suc limit) next parent in
    let rest = consume_rows session_id rows limit (next + 1) next in
    if is_waiting session_id i
    then record {
      rows = (record i { consumed = true }) ∷ rest.rows;
      entries = entry_of next parent i ∷ rest.entries;
      leaf = rest.leaf;
    }
    else record { rows = i ∷ kept.rows; entries = kept.entries; leaf = kept.leaf }

-- The tables, with the leaf of the session; `moved` is the C function's result.
pub record Consumed : Type 0 where
  pub inbox : List InboxRow
  pub entries : List Entry
  pub leaf_id : ℕ
  pub moved : ℕ

unfoldable pub inbox_consume_into_entries_locked :
    List InboxRow → List Entry → (session_id leaf_id next limit : ℕ) → Consumed
unfolding consume_rows
inbox_consume_into_entries_locked rows entries session_id leaf_id next limit =
    let m = consume_rows session_id rows limit next leaf_id in
    record {
      inbox = m.rows;
      entries = entries ++ m.entries;
      leaf_id = m.leaf;
      moved = length m.entries;
    }
