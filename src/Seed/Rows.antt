-- ===== src/Seed/Rows.antt =====
-- The rows that applying a seed (internal/seed/seed.go) leaves.
use oidc_test_idp.Prelude.{
  ◌+◌, ◌<◌, String, ◌≡◌, refl, List, [], ◌∷◌, arith, ℤ, length, inl, inr, ◌⊎◌, sym, ap, ◌∙◌,
}
use mathlib.Core.Path.{subst}
use oidc_test_idp.Table.{Table, put}
use oidc_test_idp.Platform.{Platform}
use oidc_test_idp.Models.{Client, User}
use oidc_test_idp.Db.{Db, World, ok, M, ◌>>=◌, ◌>>◌, exec}
use oidc_test_idp.Db.Statements.{Result-cases}
use oidc_test_idp.Db.Keeps.{Keeps, keeps_rules, Keeps-exec, Keeps-pure, Keeps-bind}
use oidc_test_idp.Repo.Clients.{save_client, client_row}
use oidc_test_idp.Repo.Users.{save_user, put_user, user_row}
use oidc_test_idp.Seed.{
  UserSeed, ClientSeed, File, user_from_seed, client_from_seed, seed_id, apply_users, apply_clients,
  apply,
}

List-cases :
    {A : Type 0} → (xs : List A) → (xs ≡ []) ⊎ ((x : A) × (rest : List A) × (xs ≡ x ∷ rest))
List-cases [] = inl refl
List-cases (x ∷ rest) = inr (x, rest, refl)

-- There is a client or a user.
abbrev pub IsConfigured : Db → Type 0
IsConfigured d = 0 < length d.clients + length d.users

length-put : {R : Type 0} (k : String) (r : R) (t : Table R) → 0 < length (put k r t)
unfolding put
length-put k r [] = omega arith
length-put k r ((j, q) ∷ t) = ground arith

save_client-IsConfigured : (p : Platform) (c : Client) → Keeps IsConfigured (save_client p c)
unfolding save_client
save_client-IsConfigured p c =
    Keeps-exec p _ (λ d q h s. ground (arith, length-put c.id (client_row p c) d.clients))

save_user-IsConfigured : (p : Platform) (u : User) → Keeps IsConfigured (save_user p u)
unfolding save_user put_user
save_user-IsConfigured p u =
    Keeps-exec p _ (λ d q h s. ground (arith, length-put u.id (user_row p u) d.users))

module _ (p : Platform) (bearer jwt : ℤ) where
  apply_clients-IsConfigured :
      (cs : List ClientSeed) → Keeps IsConfigured (apply_clients bearer jwt p cs)
  unfolding apply_clients
  apply_clients-IsConfigured [] = Keeps-pure tt
  apply_clients-IsConfigured (c ∷ cs) =
      Keeps-bind _ _ (save_client-IsConfigured p _) (λ _. apply_clients-IsConfigured cs)

  Keeps-seed_id : {P : Db → Type 0} → (id : String) → Keeps P (seed_id bearer jwt p id)
  unfolding seed_id
  Keeps-seed_id id = search keeps_rules

  apply_users-IsConfigured : (us : List UserSeed) → Keeps IsConfigured (apply_users bearer jwt p us)
  unfolding apply_users
  apply_users-IsConfigured [] = Keeps-pure tt
  apply_users-IsConfigured (u ∷ us) =
      Keeps-bind _ _ (Keeps-seed_id u.id)
        (λ id. Keeps-bind _ _ (save_user-IsConfigured p _) (λ _. apply_users-IsConfigured us))

  saved_client :
      (c : Client) (w : World)
      → (save_client p c w).0 ≡ ok tt
      → IsConfigured (save_client p c w).1.db
  unfolding save_client exec
  saved_client c w h = ground (arith, length-put c.id (client_row p c) w.clients)

  saved_user :
      (u : User) (w : World) → (save_user p u w).0 ≡ ok tt → IsConfigured (save_user p u w).1.db
  unfolding save_user exec put_user
  saved_user u w h = ground (arith, length-put u.id (user_row p u) w.users)

  -- If a sequence succeeds, so does its first action, and the rest from there.
  bind_ok :
      {A B : Type 0} (m : M A) (f : A → M B) (w : World) (b : B)
      → ((m >>= f) w).0 ≡ ok b
      → (a : A) × ((m w).0 ≡ ok a) × ((f a (m w).1).0 ≡ ok b) × ((m >>= f) w ≡ f a (m w).1)
  bind_ok m f w b h = elim (Result-cases (m w).0) [
    | inl (a, e) ↦ (a, e, ground (arith, e), ground (arith, e))
    | inr (x, e) ↦ ground (arith, e)
  ]

  applied_clients :
      (c : ClientSeed) (cs : List ClientSeed) (w : World)
      → (apply_clients bearer jwt p (c ∷ cs) w).0 ≡ ok tt
      → IsConfigured (apply_clients bearer jwt p (c ∷ cs) w).1.db
  unfolding apply_clients
  applied_clients c cs w h =
      let (a, e, f, g) =
        bind_ok (save_client p (client_from_seed bearer jwt c)) (λ _. apply_clients bearer jwt p cs)
          w tt h in
      rw g ((apply_clients-IsConfigured cs).at _ (saved_client (client_from_seed bearer jwt c) w e))

  applied_users :
      (u : UserSeed) (us : List UserSeed) (w : World)
      → (apply_users bearer jwt p (u ∷ us) w).0 ≡ ok tt
      → IsConfigured (apply_users bearer jwt p (u ∷ us) w).1.db
  unfolding apply_users
  applied_users u us w h =
      let (id, e, f, g) =
        bind_ok (seed_id bearer jwt p u.id)
          (λ (id : String). save_user p (user_from_seed id u) >> apply_users bearer jwt p us) w tt
          h in
      let (a, e', f', g') =
        bind_ok (save_user p (user_from_seed id u)) (λ _. apply_users bearer jwt p us)
          (seed_id bearer jwt p u.id w).1 tt f in
      rw (g, g') ((apply_users-IsConfigured us).at _ (saved_user (user_from_seed id u) _ e'))

  -- A seed with a user or a client configures the database, if it is applied without an error.
  pub applied :
      (seed : File) (w : World)
      → 0 < length seed.users + length seed.clients
      → (apply bearer jwt p seed w).0 ≡ ok tt
      → IsConfigured (apply bearer jwt p seed w).1.db
  unfolding apply
  applied seed w some_row h =
      let (a, e, f, g) =
        bind_ok (apply_users bearer jwt p seed.users) (λ _. apply_clients bearer jwt p seed.clients)
          w tt h in
      rw g (elim (List-cases seed.users) [
        | inr (u, us, d) ↦ (apply_clients-IsConfigured seed.clients).at _ (
            subst (λ l. IsConfigured (apply_users bearer jwt p l w).1.db) (sym d)
              (applied_users u us w
                (ap (λ (l : List UserSeed). (apply_users bearer jwt p l w).0) (sym d) ∙ e)))
        | inl d ↦ elim (List-cases seed.clients) [
          | inr (c, cs, d') ↦
              subst
                (λ l.
                  IsConfigured
                    (apply_clients bearer jwt p l (apply_users bearer jwt p seed.users w).1).1.db)
                (sym d')
                (applied_clients c cs _ (
                  ap
                    (λ (l : List ClientSeed).
                      (apply_clients bearer jwt p l (apply_users bearer jwt p seed.users w).1).0)
                    (sym d')
                  ∙ f))
          | inl d' ↦ ground (
            arith,
            ap (λ (l : List UserSeed). length l) d,
            ap (λ (l : List ClientSeed). length l) d',
          )
        ]
      ])
