-- ===== src/Db/Migrate/Twice.antt =====
-- `migrate` of internal/storage/db.go run twice.
use mathlib.Core.Path.{subst}
use oidc_test_idp.Prelude.{
  ℕ, String, ◌==◌, eq_refl, ◌≡◌, refl, sym, ap, ◌∙◌, Bool, true, false, ◌||◌, Option, some, List,
  [], ◌∷◌, ◌++◌, arith, any, All, Option-cases, inl, inr, ◌⊎◌,
}
use oidc_test_idp.Db.Migrate.{
  DirEntry, Store, MigrationError, Outcome, migrated, stopped, names_of, counted, create_table,
  record_migration, apply_migration, migrate_one, migrate_all, migrate, sort_strings,
  migration_names,
}

any-append :
    {A : Type 0} (q : A → Bool) (xs ys : List A) → any q (xs ++ ys) ≡ (any q xs || any q ys)
any-append q [] ys = refl
any-append q (x ∷ xs) ys = ground (arith, any-append q xs ys)

Outcome-cases : (o : Outcome) → (o ≡ migrated) ⊎ ((e : MigrationError) × (o ≡ stopped e))
Outcome-cases migrated = inl refl
Outcome-cases (stopped e) = inr (e, refl)

module _ {Schema : Type 0} (run_sql : ℕ → String → Schema → Bool × Schema)
    (read_dir : Option (List DirEntry)) (read_file : String → Option String) where
  -- The name is recorded.
  abbrev pub IsApplied : String → Store Schema → Type 0
  IsApplied name s = any (λ a. a == name) (names_of s.applied) ≡ true

  -- The run succeeds and changes nothing but the number of statements.
  abbrev pub IsIdle : Store Schema → Outcome × Store Schema → Type 0
  IsIdle s r =
      (r.0 ≡ migrated) × (r.1.schema ≡ s.schema) × (names_of r.1.applied ≡ names_of s.applied)

  module _ (fault : ℕ → Bool) where
    one_done :
        (name : String) (s : Store Schema)
        → (migrate_one fault run_sql read_dir read_file name s).0 ≡ migrated
        → IsApplied name (migrate_one fault run_sql read_dir read_file name s).1
    unfolding migrate_one apply_migration record_migration
    one_done name s h =
        ground (arith, any-append (λ a. a == name) (names_of s.applied) (name ∷ []), eq_refl name)

    one_kept :
        (name other : String) (s : Store Schema)
        → IsApplied other s
        → IsApplied other (migrate_one fault run_sql read_dir read_file name s).1
    unfolding migrate_one apply_migration record_migration
    one_kept name other s h =
        ground (arith, any-append (λ a. a == other) (names_of s.applied) (name ∷ []))

    all_kept :
        (names : List String) (other : String) (s : Store Schema)
        → IsApplied other s
        → IsApplied other (migrate_all fault run_sql read_dir read_file names s).1
    unfolding migrate_all
    all_kept [] other s h = h
    all_kept (name ∷ names) other s h = ground (
      arith,
      one_kept name other s h,
      all_kept names other (migrate_one fault run_sql read_dir read_file name s).1,
    )

    -- The loop after a migration that succeeds.
    all_step :
        (name : String) (names : List String) (s : Store Schema)
        → (migrate_one fault run_sql read_dir read_file name s).0 ≡ migrated
        → migrate_all fault run_sql read_dir read_file (name ∷ names) s
          ≡ migrate_all fault run_sql read_dir read_file names
              (migrate_one fault run_sql read_dir read_file name s).1
    unfolding migrate_all
    all_step name names s h = rw h refl

    all_stopped :
        (name : String) (names : List String) (s : Store Schema) (x : MigrationError)
        → (migrate_one fault run_sql read_dir read_file name s).0 ≡ stopped x
        → (migrate_all fault run_sql read_dir read_file (name ∷ names) s).0 ≡ stopped x
    unfolding migrate_all
    all_stopped name names s x h = rw h refl

    migrate_all-All :
        (names : List String) (s : Store Schema)
        → (migrate_all fault run_sql read_dir read_file names s).0 ≡ migrated
        → All
            (λ name. IsApplied name (migrate_all fault run_sql read_dir read_file names s).1)
            names
    migrate_all-All [] s h = tt
    migrate_all-All (name ∷ names) s h =
        let one = migrate_one fault run_sql read_dir read_file name s in
        elim (Outcome-cases one.0) [
          | inl e ↦
              subst (λ q. All (λ n. IsApplied n q.1) (name ∷ names)) (sym (all_step name names s e))
                (
                  all_kept names name one.1 (one_done name s e),
                  migrate_all-All names one.1 (ap (λ q. q.0) (sym (all_step name names s e)) ∙ h),
                )
          | inr (x, e) ↦ ground (arith, all_stopped name names s x e)
        ]

  module _ (fault : ℕ → Bool) (healthy : (n : ℕ) → fault n ≡ false) where
    one_idle :
        (name : String) (s : Store Schema)
        → IsApplied name s
        → migrate_one fault run_sql read_dir read_file name s
          ≡ (migrated, counted fault run_sql read_dir read_file s)
    unfolding migrate_one
    one_idle name s h = ground (arith, healthy s.statements, h)

    migrate_all-IsIdle :
        (names : List String) (s : Store Schema)
        → All (λ name. IsApplied name s) names
        → IsIdle s (migrate_all fault run_sql read_dir read_file names s)
    unfolding migrate_all
    migrate_all-IsIdle [] s h = (refl, refl, refl)
    migrate_all-IsIdle (name ∷ names) s (h, hs) =
        rw (one_idle name s h)
          (migrate_all-IsIdle names (counted fault run_sql read_dir read_file s) hs)

  migrate_lem :
      (fault : ℕ → Bool) (s : Store Schema) (es : List DirEntry)
      → (create_table fault run_sql read_dir read_file s).0 ≡ migrated
      → read_dir ≡ some es
      → migrate fault run_sql read_dir read_file s
        ≡ migrate_all fault run_sql read_dir read_file
            (sort_strings (migration_names es))
            (create_table fault run_sql read_dir read_file s).1
  unfolding migrate
  migrate_lem fault s es e f = ground (arith, e, f)

  -- A run that succeeds has read the directory, and the names in it are applied then.
  migrate_done :
      (fault : ℕ → Bool) (s : Store Schema)
      → (migrate fault run_sql read_dir read_file s).0 ≡ migrated
      → (es : List DirEntry) × (read_dir ≡ some es)
        × All
            (λ name. IsApplied name (migrate fault run_sql read_dir read_file s).1)
            (sort_strings (migration_names es))
  unfolding migrate
  migrate_done fault s h =
      let made = create_table fault run_sql read_dir read_file s in
      elim (Outcome-cases made.0) [
        | inr (x, e) ↦ ground (arith, e)
        | inl e ↦ elim (Option-cases read_dir) [
          | inl n ↦ ground (arith, e, n)
          | inr (es, f) ↦ (
            es,
            f,
            subst (λ q. All (λ n. IsApplied n q.1) (sort_strings (migration_names es)))
                (sym (migrate_lem fault s es e f))
                (migrate_all-All fault (sort_strings (migration_names es)) made.1
                  (ap (λ q. q.0) (sym (migrate_lem fault s es e f)) ∙ h)),
          )
        ]
      ]

  migrate-IsIdle :
      (fault : ℕ → Bool) (s : Store Schema) (es : List DirEntry)
      → ((n : ℕ) → fault n ≡ false)
      → read_dir ≡ some es
      → All (λ name. IsApplied name s) (sort_strings (migration_names es))
      → IsIdle s (migrate fault run_sql read_dir read_file s)
  unfolding create_table
  migrate-IsIdle fault s es healthy listed done =
      let made = record (counted fault run_sql read_dir read_file s) {
        applied = some (names_of s.applied);
      } in
      subst (IsIdle s)
        (sym (
          migrate_lem fault s es (rw (healthy s.statements) refl) listed
          ∙ ap
              (λ q.
                migrate_all fault run_sql read_dir read_file (sort_strings (migration_names es)) q)
              (rw (healthy s.statements) refl)))
        (migrate_all-IsIdle fault healthy (sort_strings (migration_names es)) made done)

  -- After a run of migrate that succeeded, whatever the driver did, a second run while the driver
  -- works succeeds and changes neither the schema and its rows nor the names that are recorded.
  pub migrate_twice :
      (fault steady : ℕ → Bool) (s : Store Schema)
      → ((n : ℕ) → steady n ≡ false)
      → (migrate fault run_sql read_dir read_file s).0 ≡ migrated
      → IsIdle
          (migrate fault run_sql read_dir read_file s).1
          (migrate steady run_sql read_dir read_file (migrate fault run_sql read_dir read_file s).1)
  migrate_twice fault steady s healthy h =
      let (es, listed, done) = migrate_done fault s h in
      migrate-IsIdle steady (migrate fault run_sql read_dir read_file s).1 es healthy listed done
