-- ===== src/Store/Processes.antt =====
-- The registry of live processes, `process_*` of src/db.c. `gone` is `kill(pid, 0)` failing with
-- ESRCH for a pid; the random id of a new process is the argument `token`.
use cclaw.Prelude.{
  ℕ, ◌+◌, Bool, false, ◌&&◌, not, List, [], ◌∷◌, ◌++◌, Option, none, some, if◌then◌else◌, Bytes,
  bytes_eq, ltb, leb,
}
use cclaw.Store.{Process}
use cclaw.Store.Sql.{update_where, delete_where, first_where}

abbrev pub is_instance : Bytes → Process → Bool
is_instance id p = bytes_eq p.instance_id id

-- The id and the rows, or `none` for -1; `token` is empty where SQLite gives no token.
unfoldable pub process_register :
    Bytes → Bytes → ℕ → ℕ → List Process → Option (Bytes × List Process)
process_register [] mode pid now rows = none
process_register (c ∷ token) mode pid now rows = some (
  c ∷ token,
  rows ++ (record { instance_id = c ∷ token; pid = pid; mode = mode; heartbeat_at = now }) ∷ [],
)

unfoldable pub process_heartbeat : Bytes → ℕ → List Process → List Process
unfolding update_where
process_heartbeat [] now rows = rows
process_heartbeat (c ∷ id) now rows =
    update_where (is_instance (c ∷ id)) (λ p. record p { heartbeat_at = now }) rows

unfoldable pub process_unregister : Bytes → List Process → List Process
unfolding delete_where
process_unregister [] rows = rows
process_unregister (c ∷ id) rows = delete_where (is_instance (c ∷ id)) rows

module _ (gone : ℕ → Bool) where
  abbrev pub is_dead : Process → Bool
  is_dead p = ltb 0 p.pid && gone p.pid

  -- The ids that the second pass collects.
  unfoldable pub dead_ids : List Process → List Bytes
  dead_ids [] = []
  dead_ids (p ∷ rows) = let rest = dead_ids rows in if is_dead p then p.instance_id ∷ rest else rest

  unfoldable pub unregister_all : List Bytes → List Process → List Process
  unfolding process_unregister
  unregister_all [] rows = rows
  unregister_all (id ∷ ids) rows = unregister_all ids (process_unregister id rows)

  -- `unixepoch() - heartbeat_at > ttl`
  abbrev pub is_stale : ℕ → ℕ → Process → Bool
  is_stale ttl_sec now p = ltb (p.heartbeat_at + ttl_sec) now

  unfoldable pub process_gc_dead : ℕ → ℕ → List Process → List Process
  unfolding delete_where dead_ids unregister_all
  process_gc_dead ttl_sec now rows =
      let fresh = delete_where (is_stale ttl_sec now) rows in unregister_all (dead_ids fresh) fresh

  abbrev live_at : ℕ → ℕ → Option Process → Bool
  live_at ttl_sec now none = false
  live_at ttl_sec now (some p) =
      leb now (p.heartbeat_at + ttl_sec) && (ltb 0 p.pid && not (gone p.pid))

  unfoldable pub process_is_live : Bytes → ℕ → ℕ → List Process → Bool
  unfolding first_where
  process_is_live [] ttl_sec now rows = false
  process_is_live (c ∷ id) ttl_sec now rows =
      live_at ttl_sec now (first_where (is_instance (c ∷ id)) rows)
