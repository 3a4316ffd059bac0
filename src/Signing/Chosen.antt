-- ===== src/Signing/Chosen.antt =====
-- The key that signs a client's tokens: the middleware and the storage together.
use oidc_test_idp.Prelude.{
  String, eq_iff, ◌≡◌, ◌≢◌, refl, true, none, some, arith, inl, inr, Option-cases,
}
use oidc_test_idp.Table.{get, put}
use oidc_test_idp.Http.{HttpRequest}
use oidc_test_idp.Platform.{Platform, Healthy}
use oidc_test_idp.Db.{ClientRow, World, ok}
use oidc_test_idp.Db.Statements.{counted_on, query-bind-world, Result-cases}
use oidc_test_idp.Repo.Clients.{scan_client}
use oidc_test_idp.Repo.Clients.Runs.{get_client_lem}
use oidc_test_idp.Signing.{is_authorize_or_token, request_client_id, signing_alg}
use oidc_test_idp.Storage.Keys.{
  KeyLibrary, Made, SigningKey, Keys, is_supported_alg, encode_private_pem, load_active_key_by_alg,
  ensure_key_for_alg, signing_key,
}
use oidc_test_idp.Storage.Keys.Published.{new_key, generate_lem}
use oidc_test_idp.Storage.Keys.Origin.{KeyRoundTrips, Origin, IsGenerated}
use oidc_test_idp.Storage.Keys.Cache.{IsSorted, ensure_key_for_alg-IsEnsured}

module _ (p : Platform) (healthy : Healthy p) (r : HttpRequest) (w : World) (row : ClientRow)
    (endpoint : is_authorize_or_token r.path ≡ true) (named : request_client_id r ≢ "")
    (known : get (request_client_id r) w.clients ≡ some row) (chosen : row.id_token_sign_alg ≢ "")
    (supported : is_supported_alg row.id_token_sign_alg ≡ true) where
  signing_alg_lem : signing_alg p r w ≡ (ok row.id_token_sign_alg, counted_on w)
  unfolding signing_alg scan_client
  signing_alg_lem = ground (
    arith,
    eq_iff (request_client_id r) "",
    eq_iff row.id_token_sign_alg "",
    get_client_lem p healthy (request_client_id r) w,
  )

  module _ {Signer : Type 0} (library : KeyLibrary Signer) (keys : Keys Signer)
      (sorted : IsSorted keys) (made : Made Signer) (signer : Signer) (pem : String)
      (generated : IsGenerated made row.id_token_sign_alg signer)
      (encoded : encode_private_pem p library signer ≡ some pem) (trips : KeyRoundTrips library)
      (fresh : get (p.uuid w.ids) w.signing_keys ≡ none) where
    load_lem :
        (v : World) (alg : String) → (load_active_key_by_alg p library alg v).1 ≡ counted_on v
    unfolding load_active_key_by_alg
    load_lem v alg = query-bind-world p healthy _ _ v (λ found u. refl)

    abbrev added : SigningKey Signer → SigningKey Signer × Keys Signer
    added k = (k, record keys { keys_by_alg = put row.id_token_sign_alg k keys.keys_by_alg })

    ensured :
        (a : SigningKey Signer × Keys Signer) × ((ensure_key_for_alg p library keys made
            row.id_token_sign_alg
            (counted_on w)).0
          ≡ ok a)
    unfolding ensure_key_for_alg
    ensured = elim (Option-cases (get row.id_token_sign_alg keys.keys_by_alg)) [
      | inr (k, e) ↦ ((k, keys), ground arith)
      | inl e ↦
          elim (Result-cases
            (load_active_key_by_alg p library row.id_token_sign_alg (counted_on w)).0) [
              | inl (k, f) ↦ (added k, ground arith)
              | inr (x, f) ↦ (
                added (
                    new_key library p healthy trips made signer row.id_token_sign_alg pem
                      (counted_on (counted_on w)) supported generated encoded fresh),
                ground (
                  arith,
                  load_lem (counted_on w) row.id_token_sign_alg,
                  generate_lem library p healthy trips made signer row.id_token_sign_alg pem
                      (counted_on (counted_on w)) supported generated encoded fresh,
                ),
              )
            ]
    ]

    -- While the driver works, at an authorization or token endpoint a request that names a stored
    -- client with a supported signing algorithm gets that algorithm in its context, and the
    -- storage then gives a key of that algorithm: from its cache, or else from an active row with
    -- that algorithm, or else a new one from the generator of the algorithm. The cache holds each
    -- key under its algorithm, the keys round-trip, the order of the rows adds none, the generator
    -- of the algorithm returns a key that encodes, and the id of a new key is fresh.
    pub signing_alg-signing_key :
        (k : SigningKey Signer) × (after : Keys Signer) × ((signing_alg p r w).0
          ≡ ok row.id_token_sign_alg)
        × ((signing_key p library keys made row.id_token_sign_alg (signing_alg p r w).1).0
            ≡ ok (k, after))
        × (k.algorithm ≡ row.id_token_sign_alg)
        × Origin p library trips keys made row.id_token_sign_alg (signing_alg p r w).1 k
    unfolding signing_key
    signing_alg-signing_key =
        let ((k, after), e) = ensured in
        let i =
          ensure_key_for_alg-IsEnsured p library trips keys made row.id_token_sign_alg
            (counted_on w) k after sorted e in
        (
          k,
          after,
          rw signing_alg_lem refl,
          rw signing_alg_lem (ground (arith, e, eq_iff row.id_token_sign_alg "")),
          i.algorithm,
          rw signing_alg_lem i.origin,
        )
