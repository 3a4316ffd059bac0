-- ===== src/Seed/Once.antt =====
-- `ApplyIfEmpty` (internal/seed/seed.go) run twice.
use oidc_test_idp.Prelude.{
  ℕ, ◌+◌, ◌<◌, String, ◌==◌, ◌≡◌, refl, true, ◌||◌, Option, some, arith, ltb, ℤ, length, inl, inr,
  Option-cases, Bool-cases,
}
use oidc_test_idp.Platform.{Platform, Healthy}
use oidc_test_idp.Db.{World, Result, ok}
use oidc_test_idp.Db.Statements.{counted_on, query_lem}
use oidc_test_idp.Repo.Settings.{count_config}
use oidc_test_idp.Seed.{File, apply_chosen, apply_if_empty}
use oidc_test_idp.Seed.Rows.{IsConfigured, applied}

-- The seed has a user or a client.
abbrev pub HasRows : File → Type 0
HasRows seed = 0 < length seed.users + length seed.clients

-- The second run succeeds and changes nothing.
abbrev pub IsUnchanged : World → Result (Unit {0}) × World → Type 0
IsUnchanged w q = (q.0 ≡ ok tt) × (q.1.db ≡ w.db)

module _ (p : Platform) (healthy : Healthy p) (bearer jwt : ℤ) (read_file : String → Option String)
    (decode : String → Option File) (default_seed : File) where
  count_config_lem :
      (w : World)
      → count_config p w ≡ (ok (length w.clients, length w.users), counted_on (counted_on w))
  unfolding count_config
  count_config_lem w = ground (
    arith,
    query_lem p healthy (λ d. some (length d.clients)) w,
    query_lem p healthy (λ d. some (length d.users)) (counted_on w),
  )

  is_configured_lem : (m n : ℕ) → 0 < m + n → (ltb 0 m || ltb 0 n) ≡ true
  is_configured_lem m n h = ground arith

  -- While the driver works, a configured database is left as it is, whatever the path names.
  apply_if_empty-IsUnchanged :
      (path : String) (w : World)
      → IsConfigured w.db
      → IsUnchanged w (apply_if_empty bearer jwt p read_file decode default_seed path w)
  unfolding apply_if_empty
  apply_if_empty-IsUnchanged path w h =
      rw (count_config_lem w, is_configured_lem (length w.clients) (length w.users) h) (refl, refl)

  -- A run on an empty database that succeeds has applied a seed.
  apply_chosen-IsConfigured :
      (path : String) (w : World)
      → HasRows default_seed
      → ((t : String) (seed : File) → decode t ≡ some seed → HasRows seed)
      → (apply_chosen bearer jwt p read_file decode default_seed path w).0 ≡ ok tt
      → IsConfigured (apply_chosen bearer jwt p read_file decode default_seed path w).1.db
  unfolding apply_chosen
  apply_chosen-IsConfigured path w def rows h = elim (Bool-cases (path == "")) [
    | inl e ↦ ground (arith, e, applied p bearer jwt default_seed w def)
    | inr e ↦ elim (Option-cases (read_file path)) [
      | inl n ↦ ground (arith, e, n)
      | inr (t, r) ↦ elim (Option-cases (decode t)) [
        | inl n ↦ ground (arith, e, r, n)
        | inr (seed, s) ↦ ground (arith, e, r, s, applied p bearer jwt seed w (rows t seed s))
      ]
    ]
  ]

  -- A run that succeeds leaves a configured database.
  apply_if_empty-IsConfigured :
      (path : String) (w : World)
      → HasRows default_seed
      → ((t : String) (seed : File) → decode t ≡ some seed → HasRows seed)
      → (apply_if_empty bearer jwt p read_file decode default_seed path w).0 ≡ ok tt
      → IsConfigured (apply_if_empty bearer jwt p read_file decode default_seed path w).1.db
  unfolding apply_if_empty
  apply_if_empty-IsConfigured path w def rows h =
      elim (Bool-cases (ltb 0 (length w.clients) || ltb 0 (length w.users))) [
        | inl e ↦ ground (arith, count_config_lem w, e)
        | inr e ↦ ground (
          arith,
          count_config_lem w,
          e,
          apply_chosen-IsConfigured path (counted_on (counted_on w)) def rows,
        )
      ]

  -- While the driver works and no seed is empty, after a run of ApplyIfEmpty that succeeded a
  -- second run succeeds and changes nothing, whatever its path names.
  pub apply_if_empty_twice :
      (path next : String) (w : World)
      → HasRows default_seed
      → ((t : String) (seed : File) → decode t ≡ some seed → HasRows seed)
      → (apply_if_empty bearer jwt p read_file decode default_seed path w).0 ≡ ok tt
      → IsUnchanged (apply_if_empty bearer jwt p read_file decode default_seed path w).1 (
          apply_if_empty bearer jwt p read_file decode default_seed next
            (apply_if_empty bearer jwt p read_file decode default_seed path w).1)
  apply_if_empty_twice path next w def rows h =
      apply_if_empty-IsUnchanged next _ (apply_if_empty-IsConfigured path w def rows h)
