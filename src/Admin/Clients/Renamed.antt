-- ===== src/Admin/Clients/Renamed.antt =====
-- What a client form leaves in the store, a changed id included.
use oidc_test_idp.Prelude.{
  ◌==◌, ◌≡◌, ◌≢◌, refl, ◌∙◌, ap, eq_refl, eq-false_of_ne, none, arith, Bool-cases, inl, inr, Bool,
  true, false, not, ◌&&◌, ◌||◌, if◌then◌else◌,
}
use oidc_test_idp.Table
use oidc_test_idp.Table.{Table, get-delete}
use oidc_test_idp.Json.{Object}
use oidc_test_idp.Platform.{Platform, Healthy}
use oidc_test_idp.Http.{HttpRequest}
use oidc_test_idp.Models.{Client}
use oidc_test_idp.Db.{ClientRow, Db, World, Result, ok}
use oidc_test_idp.Db.Statements.{exec_lem}
use oidc_test_idp.Db.Keeps.{Keeps, keeps_rules}
use oidc_test_idp.Repo.Clients
use oidc_test_idp.Repo.Clients.{client_row, list_clients}
use oidc_test_idp.Admin.{Answer, Notice, unsupported_signing_alg, invalid_jwks}
use oidc_test_idp.Admin.Pages.{Library, clients_error}
use oidc_test_idp.Admin.Users.Saved.{is_redirect}
use oidc_test_idp.Admin.Clients.{
  client_of_form, is_unsupported, is_bad_jwks, store_client, remove_renamed, save_client,
}
use oidc_test_idp.Prelude.Split.{trim_space}
use oidc_test_idp.Admin.Users.Described.{ReadsClaims, claims_of-reads}
use oidc_test_idp.Admin.Clients.Described.{
  IsSigning, IsKeySet, IsClientOf, client_of_form-IsClientOf, is_unsupported-IsSigning,
  is_unsupported-not-IsSigning, is_bad_jwks-IsKeySet, is_bad_jwks-not-IsKeySet,
}

-- The form names another id than the one it was shown for.
abbrev pub is_renamed : HttpRequest → Bool
is_renamed r = not (r.form "orig_id" == "") && not (r.form "orig_id" == r.form "id")

-- The clients without the one whose id was changed.
abbrev pub without_renamed : HttpRequest → Table ClientRow → Table ClientRow
without_renamed r t = if is_renamed r then Table.delete (r.form "orig_id") t else t

module _ (p : Platform) (healthy : Healthy p) (library : Library) where
  -- Whether the code refuses the client.
  abbrev pub is_refused : Client → Bool
  is_refused c = is_unsupported p library c || is_bad_jwks p library c

  -- A refused form stores nothing, the removal done.
  abbrev pub IsRefused : HttpRequest → World → Result Answer × World → Type 0
  IsRefused r w after =
      (is_redirect after.0 ≡ false)
      × (after.1.db ≡ record w.db { clients = without_renamed r w.clients })

  -- What becomes of a form, by its algorithm and its key set.
  pub record IsApplied (r : HttpRequest) (claims : Object) (w : World)
      (after : Result Answer × World) : Type 0 where
    pub stored :
        IsSigning (trim_space (r.form "id_token_sign_alg"))
        → IsKeySet p (trim_space (r.form "jwks"))
        → (c : Client) × IsClientOf r claims c
          × (is_redirect after.0 ≡ true)
          × (after.1.db ≡ record w.db {
            clients = Table.put c.id (client_row p c) (without_renamed r w.clients);
          })
    pub bad_algorithm : ¬ IsSigning (trim_space (r.form "id_token_sign_alg")) → IsRefused r w after
    pub bad_key_set : ¬ IsKeySet p (trim_space (r.form "jwks")) → IsRefused r w after

  Keeps-list_clients : {P : Db → Type 0} → Keeps P (list_clients p library.by_id)
  unfolding list_clients
  Keeps-list_clients = search keeps_rules

  clients_error-db :
      (message : Notice) (v : World) → (clients_error p library message v).1.db ≡ v.db
  unfolding clients_error list_clients
  clients_error-db message v = (Keeps-list_clients {P = λ d. d ≡ v.db}).at v refl

  store_client_lem :
      (c : Client) (v : World)
      → (is_redirect (store_client p library c v).0 ≡ not (is_refused c))
        × ((store_client p library c v).1.db ≡ record v.db {
          clients = if is_refused c then v.clients else Table.put c.id (client_row p c) v.clients;
        })
  unfolding store_client Clients.save_client
  store_client_lem c v = elim (Bool-cases (is_unsupported p library c)) [
    | inl e ↦ rw e (refl, clients_error-db (unsupported_signing_alg c.id_token_sign_alg) v)
    | inr e ↦ elim (Bool-cases (is_bad_jwks p library c)) [
      | inl f ↦ rw (e, f) (refl, clients_error-db invalid_jwks v)
      | inr f ↦ rw (e, f, exec_lem p healthy _ v) (refl, refl)
    ]
  ]

  remove_renamed_lem :
      (r : HttpRequest) (w : World)
      → ((remove_renamed p library r w).0 ≡ ok tt)
        × ((remove_renamed p library r w).1.db
            ≡ record w.db { clients = without_renamed r w.clients })
  unfolding remove_renamed Clients.delete_client
  remove_renamed_lem r w = elim (Bool-cases (is_renamed r)) [
    | inl e ↦ rw (e, exec_lem p healthy _ w) (refl, refl)
    | inr e ↦ rw e (refl, refl)
  ]

  module _ (r : HttpRequest) (claims : Object) (w : World) (parses : r.parses ≡ true)
      (c : ReadsClaims p (r.form "custom_claims") claims) (named : r.form "id" ≢ "") where
    -- The step that removes, then the step that stores.
    save_client_steps :
        save_client p library r w
        ≡ store_client p library (client_of_form r claims) (remove_renamed p library r w).1
    unfolding save_client
    save_client_steps = ground (
      arith,
      parses,
      claims_of-reads p library (r.form "custom_claims") claims c,
      eq-false_of_ne (r.form "id") "" named,
      (remove_renamed_lem r w).0,
    )

    abbrev client : Client
    client = client_of_form r claims

    applied_lem :
        (is_redirect (save_client p library r w).0 ≡ not (is_refused client))
        × ((save_client p library r w).1.db ≡ record w.db {
          clients =
              if is_refused client
              then without_renamed r w.clients
              else Table.put client.id (client_row p client) (without_renamed r w.clients);
        })
    applied_lem =
        let v = (remove_renamed p library r w).1 in
        rw save_client_steps (
          (store_client_lem client v).0,
          (store_client_lem client v).1
              ∙ ap
                  (λ (d : Db). record d {
                    clients =
                        if is_refused client
                        then d.clients
                        else Table.put client.id (client_row p client) d.clients;
                  })
                  (remove_renamed_lem r w).1,
        )

    refused_lem : is_refused client ≡ true → IsRefused r w (save_client p library r w)
    refused_lem e = (
      applied_lem.0 ∙ ap not e,
      applied_lem.1
          ∙ ap
              (λ b. record w.db {
                clients =
                    if b
                    then without_renamed r w.clients
                    else Table.put client.id (client_row p client) (without_renamed r w.clients);
              })
              e,
    )

    -- While the driver works, a client form that parses, has an id and blank or valid custom
    -- claims first removes the client of another original id, if it names one. Then, if the
    -- algorithm is empty, RS256 or ES256 and the key set is empty, {} or a JSON object, it stores
    -- the client that the form describes, field by field, and redirects; otherwise it stores
    -- nothing and does not redirect. Nothing else of the database changes.
    pub save_client-IsApplied : IsApplied r claims w (save_client p library r w)
    unfolding client_of_form
    save_client-IsApplied = record {
      stored = λ signing key_set.
          let e : is_refused client ≡ false = ground (
            arith,
            is_unsupported-IsSigning p library client signing,
            is_bad_jwks-IsKeySet p library client key_set,
          ) in
          (
            client,
            client_of_form-IsClientOf r claims,
            applied_lem.0 ∙ ap not e,
            applied_lem.1
                ∙ ap
                    (λ b. record w.db {
                      clients =
                          if b
                          then without_renamed r w.clients
                          else Table.put client.id (client_row p client)
                              (without_renamed r w.clients);
                    })
                    e,
          );
      bad_algorithm =
          λ h. refused_lem (ground (arith, is_unsupported-not-IsSigning p library client h));
      bad_key_set = λ h. refused_lem (ground (arith, is_bad_jwks-not-IsKeySet p library client h));
    }

    -- A refused form that changes the id loses the client that it was shown for.
    save_client-IsLost :
        r.form "orig_id" ≢ ""
        → r.form "orig_id" ≢ r.form "id"
        → is_refused client ≡ true
        → Table.get (r.form "orig_id") (save_client p library r w).1.clients ≡ none
    save_client-IsLost shown other refused =
        ap (λ (d : Db). Table.get (r.form "orig_id") d.clients) (refused_lem refused).1
        ∙ rw
            (
              eq-false_of_ne (r.form "orig_id") "" shown,
              eq-false_of_ne (r.form "orig_id") (r.form "id") other,
              get-delete (r.form "orig_id") (r.form "orig_id") w.clients,
              eq_refl (r.form "orig_id"),
            )
            refl
