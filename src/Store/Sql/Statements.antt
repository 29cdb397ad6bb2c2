-- ===== src/Store/Sql/Statements.antt =====
-- The statements as functions of the list of a table's rows.
use cclaw.Prelude.{
  ℕ, suc, ◌≡◌, ◌⊎◌, Bool, true, false, List, [], ◌∷◌, Option, none, some, if◌then◌else◌,
}

module _ {ℓ} {A : Type ℓ} where
  unfoldable pub update_where : (A → Bool) → (A → A) → List A → List A
  update_where test set [] = []
  update_where test set (r ∷ rows) =
      let rest = update_where test set rows in if test r then set r ∷ rest else r ∷ rest

  unfoldable pub delete_where : (A → Bool) → List A → List A
  delete_where test [] = []
  delete_where test (r ∷ rows) =
      let rest = delete_where test rows in if test r then rest else r ∷ rest

  unfoldable pub select_where : (A → Bool) → List A → List A
  select_where test [] = []
  select_where test (r ∷ rows) =
      let rest = select_where test rows in if test r then r ∷ rest else rest

  -- `sqlite3_changes` of an update, and `COUNT(*)`.
  unfoldable pub count_where : (A → Bool) → List A → ℕ
  count_where test [] = 0
  count_where test (r ∷ rows) =
      let rest = count_where test rows in if test r then suc rest else rest

  unfoldable pub first_where : (A → Bool) → List A → Option A
  first_where test [] = none
  first_where test (r ∷ rows) = let rest = first_where test rows in if test r then some r else rest

  unfoldable pub exists_where : (A → Bool) → List A → Bool
  exists_where test [] = false
  exists_where test (r ∷ rows) = let rest = exists_where test rows in if test r then true else rest

-- One of the rows is this one.
abbrev pub IsIn : {A : Type 0} → A → List A → Type 0
IsIn r [] = ⊥
IsIn r (s ∷ rows) = (s ≡ r) ⊎ IsIn r rows
