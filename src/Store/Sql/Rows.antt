-- ===== src/Store/Sql/Rows.antt =====
-- What the statements keep on every row.
use cclaw.Prelude.{
  ◌≡◌, All-weaken, refl, subst, inl, inr, Bool, true, false, List, [], ◌∷◌, some, none_ne, some_eq,
  All, Bool-cases,
}
use cclaw.Store.Sql.Statements.{update_where, delete_where, select_where, first_where, IsIn}

module _ {ℓ κ} {A : Type ℓ} where
  -- What holds of every row after an update, from what held before.
  pub All-update_where_to :
      (P Q : A → Type κ) (test : A → Bool) (set : A → A) (rows : List A)
      → ((r : A) → test r ≡ true → P r → Q (set r))
      → ((r : A) → test r ≡ false → P r → Q r)
      → All P rows
      → All Q (update_where test set rows)
  unfolding update_where
  All-update_where_to P Q test set [] changed kept h = tt
  All-update_where_to P Q test set (r ∷ rows) changed kept (hr, h) =
      let rest = All-update_where_to P Q test set rows changed kept h in
      elim (Bool-cases (test r)) [
        | inl e ↦ rw e (changed r e hr, rest)
        | inr e ↦ rw e (kept r e hr, rest)
      ]

  -- An update keeps what its assignment keeps on the rows that it changes.
  pub All-update_where :
      (P : A → Type κ) (test : A → Bool) (set : A → A) (rows : List A)
      → ((r : A) → test r ≡ true → P r → P (set r))
      → All P rows
      → All P (update_where test set rows)
  All-update_where P test set rows keeps h =
      All-update_where_to P P test set rows keeps (λ r e hr. hr) h

  pub All-delete_where_to :
      (P Q : A → Type κ) (test : A → Bool) (rows : List A)
      → ((r : A) → test r ≡ false → P r → Q r)
      → All P rows
      → All Q (delete_where test rows)
  unfolding delete_where
  All-delete_where_to P Q test [] kept h = tt
  All-delete_where_to P Q test (r ∷ rows) kept (hr, h) =
      let rest = All-delete_where_to P Q test rows kept h in
      elim (Bool-cases (test r)) [ inl e ↦ rw e rest | inr e ↦ rw e (kept r e hr, rest) ]

module _ {A : Type 0} where
  pub All-self : (rows : List A) → All (λ r. IsIn r rows) rows
  All-self [] = tt
  All-self (r ∷ rows) = (
    inl refl,
    All-weaken (λ s. IsIn s rows) (λ s. IsIn s (r ∷ rows)) rows (λ s m. inr m) (All-self rows),
  )

module _ {ℓ κ} {A : Type ℓ} where
  pub All-select_where :
      (Q : A → Type κ) (test : A → Bool) (rows : List A)
      → All Q rows
      → All (λ r. Q r × (test r ≡ true)) (select_where test rows)
  unfolding select_where
  All-select_where Q test [] h = tt
  All-select_where Q test (r ∷ rows) (hr, h) = elim (Bool-cases (test r)) [
    | inl e ↦ rw e ((hr, e), All-select_where Q test rows h)
    | inr e ↦ rw e (All-select_where Q test rows h)
  ]

  pub All-first_where :
      (Q : A → Type κ) (test : A → Bool) (rows : List A) (r : A)
      → first_where test rows ≡ some r
      → All Q rows
      → Q r
  unfolding first_where
  All-first_where Q test [] r e h = absurd (none_ne e)
  All-first_where Q test (s ∷ rows) r e (hs, h) = elim (Bool-cases (test s)) [
    | inl t ↦ subst Q (some_eq s r (rw t at e)) hs
    | inr t ↦ All-first_where Q test rows r (rw t at e) h
  ]
