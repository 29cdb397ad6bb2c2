-- ===== src/FileEdit/Splice.antt =====
-- What one edit of src/tool_file.c makes of a text.
use cclaw.Prelude.{
  ℕ, ◌||◌, zero, suc, ◌+◌, ◌-◌, ◌≡◌, refl, sym, ap, subst, ◌∙◌, Bool, true, false, [], ◌∷◌, ◌++◌,
  Option, none, some, none_ne, some_eq, ltb, leb, ◌==◌, Bytes, bytes_eq→eq, length, take, drop,
  take-append-drop, arith, Bool-cases, inl, inr, false≢true,
}
use cclaw.FileEdit.{
  EditResult, done, fail, EditOp, starts, shift, cons_op, offset_from, mem_offset, mem_count, op_at,
  edit_op, splice_at, splice, file_edit_run, max_file, overlap, sort_ops,
}

shift-some : (o : Option ℕ) (i : ℕ) → shift o ≡ some i → (k : ℕ) × (o ≡ some k) × (suc k ≡ i)
shift-some none i h = absurd (none_ne h)
shift-some (some k) i h = let e = some_eq (k + 1) i h in (k, refl, omega arith)

offset_from-starts :
    (hay ned : Bytes) (i : ℕ) → offset_from hay ned ≡ some i → take (length ned) (drop i hay) ≡ ned
unfolding offset_from
offset_from-starts [] ned i h = absurd (none_ne h)
offset_from-starts (c ∷ hay) ned i h = elim (Bool-cases (leb (length ned) (length (c ∷ hay)))) [
  | inr e ↦ absurd (none_ne (rw e at h))
  | inl e ↦ elim (Bool-cases (starts (c ∷ hay) ned)) [
    | inl f ↦
        subst (λ k. take (length ned) (drop k (c ∷ hay)) ≡ ned) (some_eq 0 i (rw (e, f) at h))
          (bytes_eq→eq (take (length ned) (c ∷ hay)) ned f)
    | inr f ↦
        let (k, q, same) = shift-some (offset_from hay ned) i (rw (e, f) at h) in
        subst (λ k. take (length ned) (drop k (c ∷ hay)) ≡ ned) same
          (offset_from-starts hay ned k q)
  ]
]

drop-nil : (m : ℕ) → drop {A = ℕ} m [] ≡ []
drop-nil zero = refl
drop-nil (suc m) = refl

drop-drop : (m n : ℕ) (s : Bytes) → drop m (drop n s) ≡ drop (n + m) s
drop-drop m zero s = let e : m ≡ 0 + m = omega arith in ap (λ k. drop k s) e
drop-drop m (suc n) [] = drop-nil m ∙ sym (drop-nil (suc n + m))
drop-drop m (suc n) (c ∷ s) =
    let e : suc (n + m) ≡ suc n + m = omega arith in drop-drop m n s ∙ ap (λ k. drop k (c ∷ s)) e

mem_offset-offset_from :
    (hay ned : Bytes) (i : ℕ) → mem_offset hay ned ≡ some i → offset_from hay ned ≡ some i
unfolding mem_offset
mem_offset-offset_from hay ned i h =
    elim (Bool-cases (length ned == 0 || ltb (length hay) (length ned))) [
      | inl e ↦ absurd (none_ne (rw e at h))
      | inr e ↦ rw e at h
    ]

is_done : EditResult EditOp → Bool
is_done (done o) = true
is_done (fail e) = false

op_of : EditResult EditOp → EditOp → EditOp
op_of (done o) d = o
op_of (fail e) d = d

-- The operation that a round makes of its pair: a copy of the pair, at an occurrence.
edit_op-parts :
    (orig op np : Bytes) (o : EditOp)
    → edit_op orig op np ≡ done o
    → (mem_count orig op ≡ 1)
      × (o.old_text ≡ op)
      × (o.new_text ≡ np)
      × (mem_offset orig op ≡ some o.off)
unfolding edit_op is_done op_of
edit_op-parts orig op np o h = elim (Bool-cases (length op == 0)) [
  | inl e ↦ absurd (false≢true (ap is_done (rw e at h)))
  | inr e ↦ elim (Bool-cases (mem_count orig op == 0)) [
    | inl f ↦ absurd (false≢true (ap is_done (rw (e, f) at h)))
    | inr f ↦ elim (Bool-cases (ltb 1 (mem_count orig op))) [
      | inl g ↦ absurd (false≢true (ap is_done (rw (e, f, g) at h)))
      | inr g ↦
          let (old, new, off) = at_offset (mem_offset orig op) (rw (e, f, g) at h) in
          (ground arith, old, new, off)
    ]
  ]
]
  where
    at_offset :
        (m : Option ℕ)
        → op_at op np m ≡ done o
        → (o.old_text ≡ op) × (o.new_text ≡ np) × (m ≡ some o.off)
    at_offset none k = absurd (false≢true (ap is_done k))
    at_offset (some i) k =
        let same : record { old_text = op; new_text = np; off = i } ≡ o = ap (λ r. op_of r o) k in
        (
          sym (ap (λ x. x.old_text) same),
          sym (ap (λ x. x.new_text) same),
          ap (λ x. some x.off) same,
        )

-- The text of a result.
text_of_result : EditResult Bytes → Bytes
text_of_result (done s) = s
text_of_result (fail e) = []

is_text : EditResult Bytes → Bool
is_text (done s) = true
is_text (fail e) = false

one_splice :
    (orig op np out : Bytes) (r : EditResult EditOp)
    → edit_op orig op np ≡ r
    → splice_at orig (cons_op r (done [])) ≡ done out
    → (mem_count orig op ≡ 1)
      × (before : Bytes) × (behind : Bytes) × (orig ≡ before ++ (op ++ behind))
      × (out ≡ before ++ np ++ behind)
unfolding splice sort_ops overlap is_text text_of_result
one_splice orig op np out (fail e) q h = absurd (false≢true (ap is_text h))
one_splice orig op np out (done o) q h =
    let (once, old, new, off) = edit_op-parts orig op np o q in
    let here = offset_from-starts orig op o.off (mem_offset-offset_from orig op o.off off) in
    let before = take o.off orig in
    let behind = drop (length op) (drop o.off orig) in
    let width : length o.old_text ≡ length op = ap length old in
    let result : take (o.off - 0) orig ++ o.new_text ++ drop (o.off + length o.old_text) orig
        ≡ out =
      ap text_of_result h in
    let same_off : o.off ≡ o.off - 0 = omega arith in
    let last : drop (o.off + length o.old_text) orig ≡ behind =
      ap (λ k. drop (o.off + k) orig) width ∙ sym (drop-drop (length op) o.off orig) in
    let split : op ++ behind ≡ drop o.off orig =
      ap (λ x. x ++ behind) (sym here) ∙ take-append-drop (length op) (drop o.off orig) in
    (
      once,
      before,
      behind,
      sym (ap (λ x. before ++ x) split ∙ take-append-drop o.off orig),
      sym result
          ∙ ap (λ k. take k orig ++ o.new_text ++ drop (o.off + length o.old_text) orig)
              (sym same_off)
          ∙ ap (λ x. before ++ x ++ drop (o.off + length o.old_text) orig) new
          ∙ ap (λ x. before ++ np ++ x) last,
    )

-- Where `file_edit_run` accepts one pair of texts, the old text occurs in the file, is counted once,
-- and the result is the file with that occurrence replaced by the new text and every other byte kept.
pub file_edit_run_lem :
    (orig op np out : Bytes)
    → file_edit_run (some op ∷ some np ∷ []) orig ≡ done out
    → (mem_count orig op ≡ 1)
      × (before : Bytes) × (behind : Bytes) × (orig ≡ before ++ (op ++ behind))
      × (out ≡ before ++ np ++ behind)
unfolding file_edit_run is_text
file_edit_run_lem orig op np out h = elim (Bool-cases (ltb max_file (length orig))) [
  | inl e ↦ absurd (false≢true (ap is_text (rw e at h)))
  | inr e ↦ one_splice orig op np out (edit_op orig op np) refl (rw e at h)
]
