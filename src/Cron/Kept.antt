-- ===== src/Cron/Kept.antt =====
-- What `cron_upsert` of src/cron.c keeps: the other jobs, and the mode and the id of the one it
-- writes over.
use cclaw.Prelude.{
  ℕ, ◌≡◌, refl, sym, ap, subst, ◌∙◌, true, false, List, [], ◌∷◌, Option, none, some, none_ne,
  some_eq, arith, Bool-cases, inl, inr, ◌⊎◌, if◌then◌else◌, Bytes, bytes_eq, bytes_eq→eq,
  bytes_eq_refl,
}
use cclaw.Prelude.Int.{ℤ, is_pos}
use cclaw.Cron.Next.{Clock}
use cclaw.Cron.Document.{Json, CronDoc, cron_doc_parse}
use cclaw.Cron.Merge.{
  CronError, Result, ok, err, CronRow, CronMerged, blank, pin_word, new_word, merged_mode,
  doc_check_merged, merge_schedule,
}
use cclaw.Cron.Table.{
  JobRow, Database, text_of, is_key, find_job, row_of, row_load, job_of, put_job, Upsert,
  merged_write, merged_job, mode_of, with_payload, upsert_checked, upsert_scheduled, upsert_row,
  upsert_named, upsert_parsed, cron_upsert, caller_chat,
}
use cclaw.Cron.Modes.{kept_pin, kept_new, merge_target-target, check-accepts}

is_key→eq :
    (agent name : Bytes) (j : JobRow)
    → is_key agent name j ≡ true
    → (j.agent_name ≡ agent) × (j.name ≡ name)
is_key→eq agent name j h =
    let (a, n) : (bytes_eq j.agent_name agent ≡ true) × (bytes_eq j.name name ≡ true) =
      ground arith in
    (bytes_eq→eq j.agent_name agent a, bytes_eq→eq j.name name n)

job_of-is_key :
    (id : ℤ) (agent name : Bytes) (m : CronMerged)
    → is_key agent name (job_of id agent name m) ≡ true
job_of-is_key id agent name m = ground (arith, bytes_eq_refl agent, bytes_eq_refl name)

-- A row of one key is not found under another.
other_key :
    (agent name agent' name' : Bytes) (j : JobRow)
    → is_key agent name j ≡ true
    → ((agent ≡ agent') × (name ≡ name') → ⊥)
    → is_key agent' name' j ≡ false
other_key agent name agent' name' j h ne = elim (Bool-cases (is_key agent' name' j)) [
  | inr e ↦ e
  | inl e ↦
      let (a, n) = is_key→eq agent name j h in
      let (a', n') = is_key→eq agent' name' j e in absurd (ne (sym a ∙ a', sym n ∙ n'))
]

put_job-others :
    (fresh : ℤ) (agent name : Bytes) (m : CronMerged) (jobs : List JobRow) (agent' name' : Bytes)
    → ((agent ≡ agent') × (name ≡ name') → ⊥)
    → find_job agent' name' (put_job fresh agent name m jobs).0 ≡ find_job agent' name' jobs
unfolding put_job find_job
put_job-others fresh agent name m [] agent' name' ne =
    rw
      (other_key agent name agent' name' (job_of fresh agent name m)
        (job_of-is_key fresh agent name m) ne)
      refl
put_job-others fresh agent name m (j ∷ jobs) agent' name' ne =
    elim (Bool-cases (is_key agent name j)) [
      | inl e ↦
          rw
            (
              e,
              other_key agent name agent' name' (job_of j.id agent name m)
                  (job_of-is_key j.id agent name m) ne,
              other_key agent name agent' name' j e ne,
            )
            refl
      | inr e ↦ rw (e, put_job-others fresh agent name m jobs agent' name' ne) refl
    ]

put_job-found :
    (fresh : ℤ) (agent name : Bytes) (m : CronMerged) (jobs : List JobRow) (j : JobRow)
    → find_job agent name jobs ≡ some j
    → find_job agent name (put_job fresh agent name m jobs).0 ≡ some (job_of j.id agent name m)
unfolding put_job find_job
put_job-found fresh agent name m [] j h = absurd (none_ne h)
put_job-found fresh agent name m (i ∷ jobs) j h = elim (Bool-cases (is_key agent name i)) [
  | inl e ↦
      let same = some_eq i j (rw e at h) in
      rw (e, job_of-is_key i.id agent name m) (ap (λ k. some (job_of k.id agent name m)) same)
  | inr e ↦ rw (e, e) (put_job-found fresh agent name m jobs j (rw e at h))
]

module _ (clock : Clock) (now : ℕ) (floor : ℤ) (fresh_id : List JobRow → ℤ) where
  checked-others :
      (db : Database) (agent : Option Bytes) (caller : ℤ) (name : Bytes) (d : CronDoc)
      (row : CronRow) (agent' name' : Bytes)
      → ((text_of agent ≡ agent') × (name ≡ name') → ⊥)
      → (o : Option CronError)
      → find_job agent' name'
          (upsert_checked clock now floor fresh_id db agent caller name d row o).db.jobs
        ≡ find_job agent' name' db.jobs
  unfolding merged_write
  checked-others db agent caller name d row agent' name' ne (some e) = refl
  checked-others db agent caller name d row agent' name' ne none =
      go (merge_schedule clock now floor d row blank)
    where
      go :
          (r : Result CronMerged)
          → find_job agent' name'
              (upsert_scheduled clock now floor fresh_id db agent caller name d row r).db.jobs
            ≡ find_job agent' name' db.jobs
      go (err e) = refl
      go (ok m) =
          put_job-others (fresh_id db.jobs) (text_of agent) name
            (merged_job clock now floor fresh_id db caller d row m) db.jobs agent' name' ne

  -- An upsert changes no job but the one its document names: under every other pair of an agent
  -- and a name the table holds what it held, whether the upsert succeeds or fails.
  pub cron_upsert-others :
      (db : Database) (agent : Option Bytes) (caller : ℤ) (doc : Option Json) (agent' name' : Bytes)
      → ((d : CronDoc)
          → cron_doc_parse doc ≡ some d
          → (text_of agent ≡ agent') × (d.name ≡ some name')
          → ⊥)
      → find_job agent' name' (cron_upsert clock now floor fresh_id db agent caller doc).db.jobs
        ≡ find_job agent' name' db.jobs
  unfolding cron_upsert
  cron_upsert-others db agent caller doc agent' name' ne = go (cron_doc_parse doc) refl
    where
      named :
          (d : CronDoc) (o : Option Bytes)
          → cron_doc_parse doc ≡ some d
          → d.name ≡ o
          → find_job agent' name'
              (upsert_named clock now floor fresh_id db agent caller d o).db.jobs
            ≡ find_job agent' name' db.jobs
      named d none p q = refl
      named d (some []) p q = refl
      named d (some (c ∷ s)) p q =
          checked-others db agent caller (c ∷ s) d (row_load db agent (c ∷ s)) agent' name'
            (λ (a, n). ne d p (a, q ∙ ap some n)) (doc_check_merged d (row_load db agent (c ∷ s)))

      go :
          (o : Option CronDoc)
          → cron_doc_parse doc ≡ o
          → find_job agent' name' (upsert_parsed clock now floor fresh_id db agent caller o).db.jobs
            ≡ find_job agent' name' db.jobs
      go none p = refl
      go (some d) p = named d d.name p refl

  -- The job that an accepted document writes over keeps its id, and the mode it had.
  abbrev pub Keeps : Bytes → Bytes → JobRow → Upsert → Type 0
  Keeps agent name j r =
      (k : JobRow) × (find_job agent name r.db.jobs ≡ some k)
      × (k.target ≡ j.target)
      × (k.id ≡ j.id)
      × (k.enabled ≡ true)

  merged_job-target :
      (db : Database) (caller : ℤ) (d : CronDoc) (row : CronRow) (m : CronMerged)
      → (merged_job clock now floor fresh_id db caller d row m).target
        ≡ mode_of clock now floor fresh_id (merged_mode d row)
  unfolding merged_job
  merged_job-target db caller d row m =
      merge_target-target d row (mode_of clock now floor fresh_id (merged_mode d row))
        (if is_pos caller then caller else row.session_id) ((caller_chat db caller).0)
        ((caller_chat db caller).1) (with_payload clock now floor fresh_id d row m)

  checked-Keeps :
      (db : Database) (agent : Option Bytes) (caller : ℤ) (name : Bytes) (d : CronDoc) (j : JobRow)
      → find_job (text_of agent) name db.jobs ≡ some j
      → (j.target ≡ some pin_word) ⊎ (j.target ≡ some new_word)
      → (upsert_row clock now floor fresh_id db agent caller name d (row_of (some j))).error ≡ none
      → Keeps
          (text_of agent)
          name
          j
          (upsert_row clock now floor fresh_id db agent caller name d (row_of (some j)))
  unfolding merged_write
  checked-Keeps db agent caller name d j found mode = checked (doc_check_merged d row) refl
    where
      row : CronRow
      row = row_of (some j)

      scheduled :
          (r : Result CronMerged)
          → (merged : Option Bytes) × (merged_mode d row ≡ ok merged)
          → (upsert_scheduled clock now floor fresh_id db agent caller name d row r).error ≡ none
          → Keeps
              (text_of agent)
              name
              j
              (upsert_scheduled clock now floor fresh_id db agent caller name d row r)
      scheduled (err e) q h = absurd (none_ne (sym h))
      scheduled (ok m) (merged, q) h =
          let w = merged_job clock now floor fresh_id db caller d row m in
          let is_mode : w.target ≡ merged =
            merged_job-target db caller d row m ∙ ap (mode_of clock now floor fresh_id) q in
          let same : merged ≡ j.target = elim mode [
            | inl t ↦ kept_pin d row merged t q ∙ sym t
            | inr t ↦ kept_new d row merged t q ∙ sym t
          ] in
          (
            job_of j.id (text_of agent) name w,
            put_job-found (fresh_id db.jobs) (text_of agent) name w db.jobs j found,
            is_mode ∙ same,
            refl,
            refl,
          )

      checked :
          (o : Option CronError)
          → doc_check_merged d row ≡ o
          → (upsert_checked clock now floor fresh_id db agent caller name d row o).error ≡ none
          → Keeps
              (text_of agent)
              name
              j
              (upsert_checked clock now floor fresh_id db agent caller name d row o)
      checked (some e) q h = absurd (none_ne (sym h))
      checked none q h =
          scheduled (merge_schedule clock now floor d row blank) (check-accepts d row q) h

  -- A job that is pinned, or that fires in fresh sessions, keeps that mode and its id in every
  -- upsert that reports no error, and is enabled after it: no document turns one into the other.
  pub cron_upsert-Keeps :
      (db : Database) (agent : Option Bytes) (caller : ℤ) (doc : Option Json) (d : CronDoc) (c : ℕ)
      (s : Bytes) (j : JobRow)
      → cron_doc_parse doc ≡ some d
      → d.name ≡ some (c ∷ s)
      → find_job (text_of agent) (c ∷ s) db.jobs ≡ some j
      → (j.target ≡ some pin_word) ⊎ (j.target ≡ some new_word)
      → (cron_upsert clock now floor fresh_id db agent caller doc).error ≡ none
      → Keeps (text_of agent) (c ∷ s) j (cron_upsert clock now floor fresh_id db agent caller doc)
  unfolding cron_upsert
  cron_upsert-Keeps db agent caller doc d c s j p q found mode h =
      let whole : cron_upsert clock now floor fresh_id db agent caller doc
          ≡ upsert_row clock now floor fresh_id db agent caller (c ∷ s) d (row_of (some j)) =
        ap (upsert_parsed clock now floor fresh_id db agent caller) p
        ∙ ap (upsert_named clock now floor fresh_id db agent caller d) q
        ∙ ap (λ o. upsert_row clock now floor fresh_id db agent caller (c ∷ s) d (row_of o))
            found in
      subst (Keeps (text_of agent) (c ∷ s) j) (sym whole)
        (checked-Keeps db agent caller (c ∷ s) d j found mode (sym (ap (λ r. r.error) whole) ∙ h))
