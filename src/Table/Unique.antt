-- ===== src/Table/Unique.antt =====
-- Columns in which no two rows of a table agree.
use oidc_test_idp.Prelude.{String, eq_iff, ◌≡◌, ◌≢◌, Bool, some, arith, inl, inr, Option-cases}
use oidc_test_idp.Table.{
  Table, get, put, delete, update_where, get-put, get-delete, get-update_where,
}

module _ {R : Type 0} (column : R → String) where
  -- Two rows with one entry are one row.
  abbrev pub HasUnique : Table R → Type 0
  HasUnique t =
      (j k : String) (r s : R) → get j t ≡ some r → get k t ≡ some s → column r ≡ column s → j ≡ k

  -- A row whose entry no other row has goes in.
  pub put-HasUnique :
      (k : String) (row : R) (t : Table R)
      → ((j : String) (r : R) → get j t ≡ some r → k ≢ j → column r ≢ column row)
      → HasUnique t
      → HasUnique (put k row t)
  put-HasUnique k row t free unique i j r s e f same = ground (
    arith,
    get-put k i row t,
    get-put k j row t,
    eq_iff k i,
    eq_iff k j,
    free i r,
    free j s,
    unique i j r s,
  )

  pub delete-HasUnique : (k : String) (t : Table R) → HasUnique t → HasUnique (delete k t)
  delete-HasUnique k t unique i j r s e f same =
      ground (arith, get-delete k i t, get-delete k j t, unique i j r s)

  -- An update that leaves the column alone keeps it unique.
  pub update_where-HasUnique :
      (q : R → Bool) (f : R → R) (t : Table R)
      → ((r : R) → column (f r) ≡ column r)
      → HasUnique t
      → HasUnique (update_where q f t)
  update_where-HasUnique q f t same unique i j r s e h eq = elim (Option-cases (get i t)) [
    | inl a ↦ ground (arith, get-update_where q f i t)
    | inr (r', a) ↦ elim (Option-cases (get j t)) [
      | inl b ↦ ground (arith, get-update_where q f j t)
      | inr (s', b) ↦ ground (
        arith,
        get-update_where q f i t,
        get-update_where q f j t,
        same r',
        same s',
        unique i j r' s',
      )
    ]
  ]
