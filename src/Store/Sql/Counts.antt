-- ===== src/Store/Sql/Counts.antt =====
-- How many rows satisfy a test, before and after the statements.
use cclaw.Prelude.{
  suc, ◌≤◌, ◌<◌, ◌≡◌, ◌&&◌, ◌++◌, false≢true, and_left, All-weaken, refl, sym, ap, ◌∙◌, inl, inr,
  Bool, true, false, List, [], ◌∷◌, arith, length, if◌then◌else◌, All, Bool-cases,
}
use cclaw.Store.Sql.Statements.{update_where, select_where, count_where, exists_where}

module _ {ℓ} {A : Type ℓ} where
  pub update_where-none :
      (test : A → Bool) (set : A → A) (rows : List A)
      → count_where test rows ≡ 0
      → update_where test set rows ≡ rows
  unfolding update_where count_where
  update_where-none test set [] h = refl
  update_where-none test set (r ∷ rows) h = elim (Bool-cases (test r)) [
    | inl e ↦ absurd (omega (arith, rw e at h))
    | inr e ↦ rw e (ap (λ rest. r ∷ rest) (update_where-none test set rows (rw e at h)))
  ]

  pub count_where-zero :
      (test : A → Bool) (rows : List A) → All (λ r. test r ≡ false) rows → count_where test rows ≡ 0
  unfolding count_where
  count_where-zero test [] h = refl
  count_where-zero test (r ∷ rows) (hr, h) = rw hr (count_where-zero test rows h)

  pub zero-count_where :
      (test : A → Bool) (rows : List A) → count_where test rows ≡ 0 → All (λ r. test r ≡ false) rows
  unfolding count_where
  zero-count_where test [] h = tt
  zero-count_where test (r ∷ rows) h = elim (Bool-cases (test r)) [
    | inl e ↦ absurd (omega (arith, rw e at h))
    | inr e ↦ (e, zero-count_where test rows (rw e at h))
  ]

  -- After an update that makes its own test fail, no row is left that would be changed again.
  pub count_where-update_where :
      (test : A → Bool) (set : A → A) (rows : List A)
      → ((r : A) → test r ≡ true → test (set r) ≡ false)
      → count_where test (update_where test set rows) ≡ 0
  unfolding update_where count_where
  count_where-update_where test set [] h = refl
  count_where-update_where test set (r ∷ rows) h = elim (Bool-cases (test r)) [
    | inl e ↦ rw (e, h r e) (count_where-update_where test set rows h)
    | inr e ↦ rw (e, e) (count_where-update_where test set rows h)
  ]

  pub count_where-le :
      (test wider : A → Bool) (rows : List A)
      → ((r : A) → test r ≡ true → wider r ≡ true)
      → count_where test rows ≤ count_where wider rows
  unfolding count_where
  count_where-le test wider [] h = omega arith
  count_where-le test wider (r ∷ rows) h =
      let rest = count_where-le test wider rows h in
      elim (Bool-cases (test r)) [
        | inl e ↦ rw (e, h r e) (omega (arith, rest))
        | inr e ↦ elim (Bool-cases (wider r)) [
          | inl w ↦ rw (e, w) (omega (arith, rest))
          | inr w ↦ rw (e, w) rest
        ]
      ]

  -- Where `key` finds one row at most and some row satisfies both tests, it is that row.
  pub count_where-only :
      (key test : A → Bool) (rows : List A)
      → count_where key rows ≤ 1
      → 0 < count_where (λ r. key r && test r) rows
      → All (λ r. key r ≡ true → test r ≡ true) rows
  unfolding count_where
  count_where-only key test [] one more = tt
  count_where-only key test (r ∷ rows) one more = elim (Bool-cases (key r)) [
    | inr e ↦ (
      (λ t. absurd (false≢true (sym e ∙ t))),
      count_where-only key test rows (rw e at one) (rw e at more),
    )
    | inl e ↦
        let no_more : count_where key rows ≡ 0 = omega (arith, rw e at one) in
        (
          λ _. elim (Bool-cases (test r)) [
            | inl t ↦ t
            | inr t ↦ absurd (
                omega (
                  arith,
                  rw (e, t) at more,
                  count_where-le (λ s. key s && test s) key rows
                      (λ s b. and_left (key s) (test s) b),
                ))
          ],
          All-weaken (λ s. key s ≡ false) (λ s. key s ≡ true → test s ≡ true) rows
              (λ s f t. absurd (false≢true (sym f ∙ t))) (zero-count_where key rows no_more),
        )
  ]

  pub count_where-same :
      (test changed : A → Bool) (set : A → A) (rows : List A)
      → ((r : A) → changed r ≡ true → test (set r) ≡ test r)
      → count_where test (update_where changed set rows) ≡ count_where test rows
  unfolding count_where update_where
  count_where-same test changed set [] h = refl
  count_where-same test changed set (r ∷ rows) h =
      let rest = count_where-same test changed set rows h in
      elim (Bool-cases (changed r)) [ inl e ↦ rw (e, h r e, rest) refl | inr e ↦ rw (e, rest) refl ]

  pub count_where-append :
      (test : A → Bool) (rows : List A) (r : A)
      → count_where test (rows ++ r ∷ []) ≤ suc (count_where test rows)
  unfolding count_where
  count_where-append test [] r = elim (Bool-cases (test r)) [
    | inl e ↦ rw e (omega arith)
    | inr e ↦ rw e (omega arith)
  ]
  count_where-append test (s ∷ rows) r =
      let rest = count_where-append test rows r in
      elim (Bool-cases (test s)) [ inl e ↦ rw e (omega (arith, rest)) | inr e ↦ rw e rest ]

  pub length-select_where :
      (test : A → Bool) (rows : List A) → length (select_where test rows) ≡ count_where test rows
  unfolding select_where count_where
  length-select_where test [] = refl
  length-select_where test (r ∷ rows) = elim (Bool-cases (test r)) [
    | inl e ↦ rw e (ap suc (length-select_where test rows))
    | inr e ↦ rw e (length-select_where test rows)
  ]

  pub select_where-append :
      (test : A → Bool) (rows more : List A)
      → select_where test (rows ++ more) ≡ select_where test rows ++ select_where test more
  unfolding select_where
  select_where-append test [] more = refl
  select_where-append test (r ∷ rows) more = elim (Bool-cases (test r)) [
    | inl e ↦ rw e (ap (λ rest. r ∷ rest) (select_where-append test rows more))
    | inr e ↦ rw e (select_where-append test rows more)
  ]

  pub exists_where-count_where :
      (test : A → Bool) (rows : List A) → exists_where test rows ≡ false → count_where test rows ≡ 0
  unfolding exists_where count_where
  exists_where-count_where test [] h = refl
  exists_where-count_where test (r ∷ rows) h = elim (Bool-cases (test r)) [
    | inl e ↦ absurd (false≢true (sym (rw e at h)))
    | inr e ↦ rw e (exists_where-count_where test rows (rw e at h))
  ]

  pub count_where-append_miss :
      (test : A → Bool) (rows : List A) (r : A)
      → test r ≡ false
      → count_where test (rows ++ r ∷ []) ≡ count_where test rows
  unfolding count_where
  count_where-append_miss test [] r e = rw e refl
  count_where-append_miss test (s ∷ rows) r e =
      ap (λ n. if test s then suc n else n) (count_where-append_miss test rows r e)
