-- ===== src/Cron/Modes.antt =====
-- The target modes that `merged_mode` and `merge_target` of src/cron.c keep and write.
use cclaw.Prelude.{
  ◌≡◌, ◌≢◌, refl, sym, ap, Bool, true, false, ◌&&◌, ◌||◌, Option, none, some, none_ne, false≢true,
  Bool-cases, inl, inr, if◌then◌else◌, Bytes,
}
use cclaw.Prelude.Int.{ℤ}
use cclaw.Cron.Document.{CronDoc}
use cclaw.Cron.Merge.{
  CronError, new_cannot_pin, pinned_cannot_new, Result, ok, err, CronRow, CronMerged, pin_word,
  new_word, is_word, merged_mode, check_at, doc_check_merged, merge_target,
}

-- The tests of `merged_mode` on any two modes.
mode_tree : Bool → Bool → Bool → Bool → CronError → CronError → Result (Option Bytes)
mode_tree pinned fresh was_pin was_new e f =
    if pinned && was_new
    then err e
    else if fresh && was_pin
    then err f
    else if pinned
    then ok (some pin_word)
    else if fresh || was_new
    then ok (some new_word)
    else if was_pin
    then ok (some pin_word)
    else ok none

ok_eq : (a b : Option Bytes) → ok a ≡ ok b → a ≡ b
ok_eq a b h = ap value h
  where
    value : Result (Option Bytes) → Option Bytes
    value (ok v) = v
    value (err e) = none

err_ne : {e : CronError} {a : Option Bytes} → err e ≢ ok a
err_ne h = false≢true (ap is_ok h)
  where
    is_ok : Result (Option Bytes) → Bool
    is_ok (ok v) = true
    is_ok (err e) = false

tree_pin :
    (pinned fresh : Bool) (e f : CronError) (mode : Option Bytes)
    → mode_tree pinned fresh true false e f ≡ ok mode
    → mode ≡ some pin_word
unfolding mode_tree
tree_pin true true e f mode h = absurd (err_ne h)
tree_pin true false e f mode h = sym (ok_eq (some pin_word) mode h)
tree_pin false true e f mode h = absurd (err_ne h)
tree_pin false false e f mode h = sym (ok_eq (some pin_word) mode h)

tree_new :
    (pinned fresh : Bool) (e f : CronError) (mode : Option Bytes)
    → mode_tree pinned fresh false true e f ≡ ok mode
    → mode ≡ some new_word
unfolding mode_tree
tree_new true fresh e f mode h = absurd (err_ne h)
tree_new false true e f mode h = sym (ok_eq (some new_word) mode h)
tree_new false false e f mode h = sym (ok_eq (some new_word) mode h)

-- A mode that was stored survives every document that `merged_mode` accepts.
pub kept_pin :
    (d : CronDoc) (row : CronRow) (mode : Option Bytes)
    → row.target ≡ some pin_word
    → merged_mode d row ≡ ok mode
    → mode ≡ some pin_word
unfolding merged_mode is_word mode_tree
kept_pin d row mode t h =
    tree_pin d.has_session_id d.has_session new_cannot_pin pinned_cannot_new mode (rw t at h)

pub kept_new :
    (d : CronDoc) (row : CronRow) (mode : Option Bytes)
    → row.target ≡ some new_word
    → merged_mode d row ≡ ok mode
    → mode ≡ some new_word
unfolding merged_mode is_word mode_tree
kept_new d row mode t h =
    tree_new d.has_session_id d.has_session new_cannot_pin pinned_cannot_new mode (rw t at h)

pub merge_target-target :
    (d : CronDoc) (row : CronRow) (mode : Option Bytes) (anchor : ℤ) (cc ct : Option Bytes)
    (m : CronMerged)
    → (merge_target d row mode anchor cc ct m).target ≡ mode
unfolding merge_target
merge_target-target d row mode anchor cc ct m = elim (Bool-cases (is_word pin_word mode)) [
  | inl e ↦ rw e refl
  | inr e ↦ elim (Bool-cases (is_word new_word mode)) [
    | inl f ↦ rw (e, f) refl
    | inr f ↦ rw (e, f) refl
  ]
]

pub check-accepts :
    (d : CronDoc) (row : CronRow)
    → doc_check_merged d row ≡ none
    → (mode : Option Bytes) × (merged_mode d row ≡ ok mode)
unfolding doc_check_merged
check-accepts d row h = go (merged_mode d row) h
  where
    go :
        (r : Result (Option Bytes))
        → check_at d row r ≡ none
        → (mode : Option Bytes) × (r ≡ ok mode)
    go (ok mode) h = (mode, refl)
    go (err e) h = absurd (none_ne (sym h))
