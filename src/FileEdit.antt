-- ===== src/FileEdit.antt =====
-- src/tool_file.c: the part of `file_edit_run` between the reading of the file and its writing, with
-- `mem_count`, `mem_offset` and `edit_off_cmp`. Every round of the scans passes a byte, so a text's
-- length is fuel enough. Splice is about the result of an edit.
pub mod Splice
mod Examples
use cclaw.Prelude.{
  ℕ, zero, suc, ◌+◌, ◌-◌, ◌*◌, Bool, true, false, ◌&&◌, ◌||◌, not, List, [], ◌∷◌, ◌++◌, Option,
  none, some, ltb, leb, ◌==◌, if◌then◌else◌, Bytes, bytes_eq, length, take, drop,
}

pub data EditError : Type 0 where
  invalid_edits too_many_edits file_too_large old_text_empty old_text_not_found old_text_not_unique
        overlapping_edits :
      EditError

pub data EditResult {ℓ} (A : Type ℓ) : Type ℓ where
  done : A → EditResult A
  fail : EditError → EditResult A

pub record EditOp : Type 0 where
  pub old_text : Bytes
  pub new_text : Bytes
  pub off : ℕ

-- `memcmp(hay, ned, nlen) == 0`, where the needle is known to fit.
abbrev pub starts : Bytes → Bytes → Bool
starts hay ned = bytes_eq (take (length ned) hay) ned

-- The loop of `mem_count` from one position on.
unfoldable pub count_from : ℕ → Bytes → Bytes → ℕ
count_from zero hay ned = 0
count_from (suc fuel) hay ned =
    let behind = count_from fuel (drop (length ned) hay) ned in
    let next = count_from fuel (drop 1 hay) ned in
    if leb (length ned) (length hay) then (if starts hay ned then 1 + behind else next) else 0

unfoldable pub mem_count : Bytes → Bytes → ℕ
unfolding count_from
mem_count hay ned =
    if length ned == 0 || ltb (length hay) (length ned)
    then 0
    else count_from (length hay + 1) hay ned

-- -1 is `none`.
abbrev pub shift : Option ℕ → Option ℕ
shift none = none
shift (some i) = some (i + 1)

unfoldable pub offset_from : Bytes → Bytes → Option ℕ
offset_from [] ned = none
offset_from (c ∷ hay) ned =
    let next = offset_from hay ned in
    if leb (length ned) (length (c ∷ hay))
    then (if starts (c ∷ hay) ned then some 0 else shift next)
    else none

unfoldable pub mem_offset : Bytes → Bytes → Option ℕ
unfolding offset_from
mem_offset hay ned =
    if length ned == 0 || ltb (length hay) (length ned) then none else offset_from hay ned

-- The offset of a text that was counted once; -1 is never cast.
abbrev pub op_at : Bytes → Bytes → Option ℕ → EditResult EditOp
op_at op np none = fail old_text_not_found
op_at op np (some off) = done (record { old_text = op; new_text = np; off = off })

-- One round of the loop over the pairs.
unfoldable pub edit_op : Bytes → Bytes → Bytes → EditResult EditOp
edit_op orig op np =
    if length op == 0
    then fail old_text_empty
    else if mem_count orig op == 0
    then fail old_text_not_found
    else if ltb 1 (mem_count orig op)
    then fail old_text_not_unique
    else op_at op np (mem_offset orig op)

abbrev pub text_of : Option Bytes → Bytes
text_of none = []
text_of (some s) = s

abbrev pub cons_op : EditResult EditOp → EditResult (List EditOp) → EditResult (List EditOp)
cons_op (fail e) ops = fail e
cons_op (done o) (fail e) = fail e
cons_op (done o) (done ops) = done (o ∷ ops)

-- `pairs` is [old1, new1, old2, new2, ...].
unfoldable pub edit_ops : Bytes → List (Option Bytes) → EditResult (List EditOp)
unfolding edit_op
edit_ops orig (op ∷ np ∷ pairs) =
    cons_op (edit_op orig (text_of op) (text_of np)) (edit_ops orig pairs)
edit_ops orig _ = done []

-- `qsort` by the offset.
unfoldable pub insert_op : EditOp → List EditOp → List EditOp
insert_op o [] = o ∷ []
insert_op o (p ∷ ops) =
    let later = insert_op o ops in if leb o.off p.off then o ∷ p ∷ ops else p ∷ later

unfoldable pub sort_ops : List EditOp → List EditOp
unfolding insert_op
sort_ops [] = []
sort_ops (o ∷ ops) = insert_op o (sort_ops ops)

unfoldable pub overlap : List EditOp → Bool
overlap [] = false
overlap (o ∷ []) = false
overlap (o ∷ p ∷ ops) = ltb p.off (o.off + length o.old_text) || overlap (p ∷ ops)

-- The copying of the chunks between the edits and of the new texts, from `cursor` on.
unfoldable pub splice : Bytes → ℕ → List EditOp → Bytes
splice orig cursor [] = drop cursor orig
splice orig cursor (o ∷ ops) =
    take (o.off - cursor) (drop cursor orig)
    ++ o.new_text
    ++ splice orig (o.off + length o.old_text) ops

abbrev pub splice_sorted : Bytes → List EditOp → EditResult Bytes
splice_sorted orig ops = if overlap ops then fail overlapping_edits else done (splice orig 0 ops)

abbrev pub splice_at : Bytes → EditResult (List EditOp) → EditResult Bytes
splice_at orig (fail e) = fail e
splice_at orig (done ops) = splice_sorted orig (sort_ops ops)

unfoldable pub is_odd : {A : Type 0} → List A → Bool
is_odd [] = false
is_odd (x ∷ xs) = not (is_odd xs)

-- FILE_EDIT_MAX_EDITS and FILE_EDIT_MAX_FILE
abbrev pub max_edits : ℕ
max_edits = 32

abbrev pub max_file : ℕ
max_file = 1024 * 1024

-- The text that is written over the file's, or the error.
unfoldable pub file_edit_run : List (Option Bytes) → Bytes → EditResult Bytes
unfolding edit_ops mem_count mem_offset sort_ops overlap splice is_odd
file_edit_run pairs orig =
    if ltb (length pairs) 2 || is_odd pairs
    then fail invalid_edits
    else if ltb (2 * max_edits) (length pairs)
    then fail too_many_edits
    else if ltb max_file (length orig)
    then fail file_too_large
    else splice_at orig (edit_ops orig pairs)
