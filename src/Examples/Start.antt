-- ===== src/Examples/Start.antt =====
-- Examples for what happens at the start: migrations, seeding, keys.
use oidc_test_idp.Prelude.{
  ℕ, zero, suc, String, ◌≡◌, ◌==◌, refl, true, false, none, some, Option, List, [], ◌∷◌, arith,
  Bool, pos, if◌then◌else◌,
}
use oidc_test_idp.Table.{find, delete, put}
use oidc_test_idp.Db.{ok, query, exec}
use oidc_test_idp.Db.Migrate.{
  DirEntry, Store, migrated, migrate, migrate_all, migrate_one, apply_migration, record_migration,
  create_table, sort_strings, migration_names,
}
use oidc_test_idp.Db.Migrate.Twice.{IsIdle, migrate_twice}
use oidc_test_idp.Seed.{
  File, apply_if_empty, apply, apply_users, apply_clients, seed_id, apply_chosen, user_from_seed,
}
use oidc_test_idp.Seed.Default.{default_seed}
use oidc_test_idp.Seed.Once.{IsUnchanged, HasRows, apply_if_empty_twice}
use oidc_test_idp.Provider.{Bytes, KeyCoding, crypto_key}
use oidc_test_idp.Provider.Stable.{KeyTrips, IsStable, crypto_key_twice}
use oidc_test_idp.Storage.Keys.{SigningKey, key_set}
use oidc_test_idp.Storage.Keys.Start.{signature_algorithms}
use oidc_test_idp.Storage.Keys.Start.Algorithms.{IsAdvertised, signature_algorithms-key_set}
use oidc_test_idp.Storage.Assertions.{get_key_by_id_and_client_id}
use oidc_test_idp.Storage.Assertions.Registered.{get_key-save_client}
use oidc_test_idp.Repo.Clients.{save_client}
use oidc_test_idp.Repo.Settings.{count_config}
use oidc_test_idp.Repo.Users.{save_user, put_user}
use oidc_test_idp.Sample.Tree.{print, read, read-print, print-ne-nil}
use oidc_test_idp.Sample.Codec.{list, un_list, un_list-list, nat, un_nat, un_nat-nat}
use oidc_test_idp.Sample.{sample, sample-Healthy}
use oidc_test_idp.Examples.Keys.{plain_keys, keys, signing}
use oidc_test_idp.Examples.Fixtures.{shop, empty_db, at_start}

-- A schema that is the list of the texts that have run.
abbrev run_sql : ℕ → String → List String → Bool × List String
run_sql n s texts = (true, s ∷ texts)

abbrev read_dir : Option (List DirEntry)
read_dir = some (
    record { name = "0002_b.sql"; is_dir = false }
    ∷ record { name = "embed.go"; is_dir = false }
    ∷ record { name = "0001_a.sql"; is_dir = false }
    ∷ [])

abbrev read_file : String → Option String
read_file name = some name

abbrev steady : ℕ → Bool
steady n = false

abbrev new_store : Store (List String)
new_store = record { schema = []; applied = none; statements = 0 }

abbrev migrated_store : Store (List String)
migrated_store = record {
  schema = "0002_b.sql" ∷ "0001_a.sql" ∷ [];
  applied = some ("0001_a.sql" ∷ "0002_b.sql" ∷ []);
  statements = 7;
}

first_run : migrate steady run_sql read_dir read_file new_store ≡ (migrated, migrated_store)
unfolding migrate migrate_all migrate_one apply_migration record_migration create_table sort_strings
    migration_names
first_run = refl

migrate_twice_example :
    IsIdle run_sql read_dir read_file (migrate steady run_sql read_dir read_file new_store).1 (
      migrate steady run_sql read_dir read_file
        (migrate steady run_sql read_dir read_file new_store).1)
migrate_twice_example =
    migrate_twice run_sql read_dir read_file steady steady new_store (λ n. refl) (rw first_run refl)

-- No file is read, and no text decodes.
abbrev no_file : String → Option String
no_file path = none

abbrev no_seed : String → Option File
no_seed s = none

seeded :
    (apply_if_empty (pos 0) (pos 1) sample no_file no_seed default_seed "" (at_start empty_db)).0
    ≡ ok tt
unfolding apply_if_empty apply_chosen apply apply_users apply_clients seed_id save_user save_client
    put_user count_config query exec default_seed find delete put user_from_seed
seeded = refl

default_seed-HasRows : HasRows default_seed
unfolding default_seed
default_seed-HasRows = omega arith

apply_if_empty_twice_example :
    IsUnchanged
      (apply_if_empty (pos 0) (pos 1) sample no_file no_seed default_seed "" (at_start empty_db)).1
      (apply_if_empty
        (pos 0)
        (pos 1)
        sample
        no_file
        no_seed
        default_seed
        "seed.yaml"
        (apply_if_empty
          (pos 0)
          (pos 1)
          sample
          no_file
          no_seed
          default_seed
          ""
          (at_start empty_db)).1)
apply_if_empty_twice_example =
    apply_if_empty_twice sample sample-Healthy (pos 0) (pos 1) no_file no_seed default_seed ""
      "seed.yaml" (at_start empty_db) default_seed-HasRows (λ t seed h. cc) seeded

-- Bytes as the text of a tree.
abbrev coding : KeyCoding
coding = record {
  decode = λ s. some (un_list nat un_nat (read s));
  encode = λ raw. print (list nat un_nat raw) "";
  sum256 = λ raw. raw;
}

coding-KeyTrips : KeyTrips coding
coding-KeyTrips = record {
  trip = λ raw. rw (read-print (list nat un_nat raw), un_list-list nat un_nat un_nat-nat raw) refl;
  full = λ raw h. print-ne-nil (list nat un_nat raw) "";
}

abbrev zeros : ℕ → Bytes
zeros zero = []
zeros (suc n) = 0 ∷ zeros n

crypto_key_twice_example :
    ((key : Bytes) × ((crypto_key sample coding (some (zeros 32)) (at_start empty_db)).0
        ≡ ok (key, "key1")))
    × IsStable sample sample-Healthy coding coding-KeyTrips
        (crypto_key sample coding (some (zeros 32)) (at_start empty_db))
        (crypto_key sample coding none
          (crypto_key sample coding (some (zeros 32)) (at_start empty_db)).1)
crypto_key_twice_example =
    crypto_key_twice sample sample-Healthy coding coding-KeyTrips (zeros 32) none
      (at_start empty_db) refl

signature_algorithms-key_set_example :
    (ks : List (SigningKey String)) × (algs : List String) × ((key_set sample plain_keys keys
        signing).0
      ≡ ok ks)
    × ((signature_algorithms sample plain_keys keys signing).0 ≡ ok algs)
    × IsAdvertised sample plain_keys ks algs
signature_algorithms-key_set_example = signature_algorithms-key_set sample plain_keys keys signing

-- Each text is a set of one key, named by the text.
abbrev one_key : String → Option (String → List String)
one_key s = some (λ id. if id == "k" then s ∷ [] else [])

get_key-save_client_example :
    (get_key_by_id_and_client_id sample one_key "k" "shop"
      (save_client sample (record shop { jwks = "keys" }) (at_start empty_db)).1).0
    ≡ ok "keys"
get_key-save_client_example =
    get_key-save_client sample sample-Healthy one_key (record shop { jwks = "keys" }) "k" "shop"
      (at_start empty_db)
