-- ===== src/Table.antt =====
-- A table of the database (migrations/*.sql): its rows in rowid order, each under its primary key.
pub mod Unique
use oidc_test_idp.Prelude.{
  String, ◌≡◌, refl, Bool, false, Option, none, some, List, [], ◌∷◌, arith, ◌==◌, eq_iff,
  if◌then◌else◌,
}

abbrev pub Table {ℓ} : Type ℓ → Type ℓ
Table R = List (String × R)

module _ {ℓ} {R : Type ℓ} where
  -- SELECT … WHERE <primary key> = k
  unfoldable pub get : String → Table R → Option R
  get k [] = none
  get k ((j, r) ∷ t) = if j == k then some r else get k t

  -- INSERT … ON CONFLICT(<primary key>) DO UPDATE
  unfoldable pub put : String → R → Table R → Table R
  put k r [] = (k, r) ∷ []
  put k r ((j, q) ∷ t) = if j == k then (j, r) ∷ t else (j, q) ∷ put k r t

  -- INSERT: refused where the primary key is taken.
  unfoldable pub insert : String → R → Table R → Option (Table R)
  unfolding get put
  insert k r t = elim (get k t) [ none ↦ some (put k r t) | some _ ↦ none ]

  -- DELETE … WHERE <primary key> = k
  unfoldable pub delete : String → Table R → Table R
  delete k [] = []
  delete k ((j, r) ∷ t) = let rest = delete k t in if j == k then rest else (j, r) ∷ rest

  -- DELETE … WHERE q
  unfoldable pub delete_where : (R → Bool) → Table R → Table R
  delete_where q [] = []
  delete_where q ((j, r) ∷ t) = let rest = delete_where q t in if q r then rest else (j, r) ∷ rest

  -- UPDATE … SET f WHERE q
  unfoldable pub update_where : (R → Bool) → (R → R) → Table R → Table R
  update_where q f [] = []
  update_where q f ((j, r) ∷ t) = (j, if q r then f r else r) ∷ update_where q f t

  -- SELECT … WHERE q LIMIT 1, in rowid order.
  unfoldable pub find : (R → Bool) → Table R → Option (String × R)
  find q [] = none
  find q ((j, r) ∷ t) = if q r then some (j, r) else find q t

  pub get-put :
      (k j : String) (r : R) (t : Table R)
      → get j (put k r t) ≡ (if k == j then some r else get j t)
  unfolding get put
  get-put k j r [] = refl
  get-put k j r ((i, q) ∷ t) = ground (arith, eq_iff k j, eq_iff i k, eq_iff i j, get-put k j r t)

  pub get-delete :
      (k j : String) (t : Table R) → get j (delete k t) ≡ (if k == j then none else get j t)
  unfolding get delete
  get-delete k j [] = ground arith
  get-delete k j ((i, q) ∷ t) = ground (arith, eq_iff k j, eq_iff i k, eq_iff i j, get-delete k j t)

  -- A new key goes in, and the table reads as after `put`.
  pub insert-put :
      (k : String) (r : R) (t : Table R) → get k t ≡ none → insert k r t ≡ some (put k r t)
  unfolding insert
  insert-put k r t h = rw (h, insert)

  -- No row that meets the condition is left.
  pub get-delete_where_sound :
      (q : R → Bool) (j : String) (r : R) (t : Table R)
      → get j (delete_where q t) ≡ some r
      → q r ≡ false
  unfolding get delete_where
  get-delete_where_sound q j r [] h = cc
  get-delete_where_sound q j r ((i, s) ∷ t) h = ground (arith, get-delete_where_sound q j r t)

  -- The others stay.
  pub get-delete_where_kept :
      (q : R → Bool) (j : String) (r : R) (t : Table R)
      → get j t ≡ some r
      → q r ≡ false
      → get j (delete_where q t) ≡ some r
  unfolding get delete_where
  get-delete_where_kept q j r [] h k = cc
  get-delete_where_kept q j r ((i, s) ∷ t) h k = ground (arith, get-delete_where_kept q j r t)

  pub get-update_where :
      (q : R → Bool) (f : R → R) (j : String) (t : Table R)
      → get j (update_where q f t)
        ≡ elim (get j t) [ none ↦ none | some r ↦ some (if q r then f r else r) ]
  unfolding get update_where
  get-update_where q f j [] = refl
  get-update_where q f j ((i, s) ∷ t) = ground (arith, get-update_where q f j t)

  -- A condition that finds no row holds of none, and one that finds a row holds of it.
  pub find-none :
      (q : R → Bool) (j : String) (r : R) (t : Table R)
      → find q t ≡ none
      → get j t ≡ some r
      → q r ≡ false
  unfolding find get
  find-none q j r [] h e = cc
  find-none q j r ((i, s) ∷ t) h e = ground (arith, find-none q j r t)

pub ruleset table_laws = (get-put, get-delete, get-update_where)
