-- ===== src/Store/Sql/Finds.antt =====
-- What the query for one row finds, before and after an update or an insertion.
use cclaw.Prelude.{
  ◌≡◌, ◌++◌, refl, sym, subst, inl, inr, Bool, true, List, [], ◌∷◌, none, some, none_ne, some_eq,
  if◌then◌else◌, Bool-cases,
}
use cclaw.Store.Sql.Statements.{update_where, first_where}

module _ {ℓ} {A : Type ℓ} where
  -- The row that a key finds, after an update that leaves the key alone.
  pub first_where-update_where :
      (key test : A → Bool) (set : A → A) (rows : List A) (r : A)
      → ((s : A) → key (set s) ≡ key s)
      → first_where key rows ≡ some r
      → first_where key (update_where test set rows) ≡ some (if test r then set r else r)
  unfolding update_where first_where
  first_where-update_where key test set [] r same h = absurd (none_ne h)
  first_where-update_where key test set (s ∷ rows) r same h = elim (Bool-cases (key s)) [
    | inl e ↦
        subst
          (λ x.
            first_where key (update_where test set (s ∷ rows)) ≡ some (if test x then set x else x))
          (some_eq s r (rw e at h))
          (elim (Bool-cases (test s)) [ inl t ↦ rw (t, same s, e) refl | inr t ↦ rw (t, e) refl ])
    | inr e ↦ elim (Bool-cases (test s)) [
      | inl t ↦ rw (t, same s, e) (first_where-update_where key test set rows r same (rw e at h))
      | inr t ↦ rw (t, e) (first_where-update_where key test set rows r same (rw e at h))
    ]
  ]

  pub first_where-update_where-none :
      (key test : A → Bool) (set : A → A) (rows : List A)
      → ((s : A) → key (set s) ≡ key s)
      → first_where key rows ≡ none
      → first_where key (update_where test set rows) ≡ none
  unfolding update_where first_where
  first_where-update_where-none key test set [] same h = refl
  first_where-update_where-none key test set (s ∷ rows) same h = elim (Bool-cases (key s)) [
    | inl e ↦ absurd (none_ne (sym (rw e at h)))
    | inr e ↦ elim (Bool-cases (test s)) [
      | inl t ↦ rw (t, same s, e) (first_where-update_where-none key test set rows same (rw e at h))
      | inr t ↦ rw (t, e) (first_where-update_where-none key test set rows same (rw e at h))
    ]
  ]

  -- What a query finds satisfies its test, and all that holds of every row.
  pub first_where-test :
      (test : A → Bool) (rows : List A) (r : A) → first_where test rows ≡ some r → test r ≡ true
  unfolding first_where
  first_where-test test [] r h = absurd (none_ne h)
  first_where-test test (s ∷ rows) r h = elim (Bool-cases (test s)) [
    | inl e ↦ subst (λ x. test x ≡ true) (some_eq s r (rw e at h)) e
    | inr e ↦ first_where-test test rows r (rw e at h)
  ]

  pub first_where-append :
      (key : A → Bool) (rows more : List A) (r : A)
      → first_where key rows ≡ some r
      → first_where key (rows ++ more) ≡ some r
  unfolding first_where
  first_where-append key [] more r h = absurd (none_ne h)
  first_where-append key (s ∷ rows) more r h = elim (Bool-cases (key s)) [
    | inl e ↦ rw e (rw e at h)
    | inr e ↦ rw e (first_where-append key rows more r (rw e at h))
  ]
