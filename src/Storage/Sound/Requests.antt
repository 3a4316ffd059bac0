-- ===== src/Storage/Sound/Requests.antt =====
-- Soundness under the operations on auth requests, devices and signing keys.
use oidc_test_idp.Prelude.{
  ℕ, suc, String, ◌≡◌, refl, true, Option, none, some, List, arith, Option-cases, Bool-cases, inl,
  inr, pos,
}
use oidc_test_idp.Table.{get, put}
use oidc_test_idp.Models.{OidcAuthRequest, AuthRequest}
use oidc_test_idp.Platform.{Platform, RoundTrips}
use oidc_test_idp.Db.{DeviceCodeRow, new_string, Result, ok, err, ◌>>◌, pure, exec}
use oidc_test_idp.Db.Keeps.{
  Keeps, Keeps-if, keeps_rules, Keeps-pure, Keeps-raise, Keeps-bind, Keeps-attempt, Keeps-query,
  Keeps-exec, Keeps-time_now, Keeps-new_string,
}
use mathlib.Core.Path.{subst}
use oidc_test_idp.Storage.AuthRequests.{
  save_auth_request, create_auth_request, delete_auth_request, set_auth_request_user,
  complete_auth_request, request_row, stamp_user,
}
use oidc_test_idp.Storage.Device.{
  store_device_authorization, complete_device_authorization, deny_device_authorization,
  has_user_code, insert_device,
}
use oidc_test_idp.Storage.Keys.{
  KeyLibrary, Made, generator, Keys, generate_signing_key, store_key, ensure_key_for_alg,
  rotate_signing_key, load_active_key_by_alg, SigningKey, is_supported_alg, add_key, new_row,
  or_generate,
}
use oidc_test_idp.Storage.Sound.{IsSound}
use oidc_test_idp.Storage.Sound.Kept.{
  put_request-IsSound, delete_request-IsSound, insert_device-IsSound, update_devices-IsSound,
  put_key-IsSound,
}
use oidc_test_idp.Storage.Sound.Operations.{
  others_rule, Keeps-get_client, Keeps-get_user, Keeps-load_auth_request,
}

module _ (p : Platform) (trips : RoundTrips p) where
  pub save_auth_request-IsSound : (req : AuthRequest) → Keeps (IsSound p) (save_auth_request p req)
  unfolding save_auth_request
  save_auth_request-IsSound req = elim (Option-cases (p.marshal_request req)) [
    | inl e ↦ rw e (Keeps-raise _)
    | inr (data_text, e) ↦ rw e (record { at = λ w s. (stored data_text e).at w s })
  ]
    where
      stored :
          (data_text : String)
          → p.marshal_request req ≡ some data_text
          → Keeps (IsSound p) (
              exec p (λ d. some (record d {
                auth_requests = put req.id (request_row p data_text req) d.auth_requests;
              })))
      stored data_text e = Keeps-exec p _ (λ d q h s.
          subst (IsSound p) (ground arith) (put_request-IsSound p trips req data_text d e s))

  pub create_auth_request-IsSound :
      (req : OidcAuthRequest) (user_id : String)
      → Keeps (IsSound p) (create_auth_request p req user_id)
  unfolding create_auth_request
  create_auth_request-IsSound req user_id = Keeps-if _ _ _ (Keeps-raise _) (
      Keeps-bind _ _ (Keeps-time_now p) (λ now.
        Keeps-bind _ _ (Keeps-new_string p)
          (λ new_id. Keeps-bind _ _ (save_auth_request-IsSound _) (λ _. Keeps-pure _))))

  pub set_auth_request_user-IsSound :
      (id user_id : String) → Keeps (IsSound p) (set_auth_request_user p id user_id)
  unfolding set_auth_request_user
  set_auth_request_user-IsSound id user_id =
      Keeps-bind _ _ (Keeps-load_auth_request p id) (λ req. save_auth_request-IsSound _)

  pub complete_auth_request-IsSound :
      (id user_id : String) → Keeps (IsSound p) (complete_auth_request p id user_id)
  unfolding complete_auth_request
  complete_auth_request-IsSound id user_id = Keeps-bind _ _ (Keeps-load_auth_request p id) (λ req.
      Keeps-bind _ _ (Keeps-time_now p) (λ now.
        Keeps-bind _ _ (Keeps-attempt _ (Keeps-get_user p user_id)) (λ u.
          save_auth_request-IsSound
            (stamp_user u (record req { done = true; auth_time = now; user_id = user_id })))))

module _ (p : Platform) where
  pub delete_auth_request-IsSound : (id : String) → Keeps (IsSound p) (delete_auth_request p id)
  unfolding delete_auth_request
  delete_auth_request-IsSound id =
      Keeps-bind _ _
        (others_rule p _ (λ d q h. record {
          codes = ground arith;
          users = ground arith;
          requests = ground arith;
          keys = ground arith;
        }))
        (λ _.
          Keeps-exec p _
            (λ d q h s. subst (IsSound p) (ground arith) (delete_request-IsSound p id d s)))

  pub store_device_authorization-IsSound :
      (client_id device_code user_code : String) (expires : ℕ) (scopes : List String)
      → Keeps
          (IsSound p)
          (store_device_authorization p client_id device_code user_code expires scopes)
  unfolding store_device_authorization
  store_device_authorization-IsSound client_id device_code user_code expires scopes =
      search (keeps_rules, Keeps-get_client, insert_rule)
    where
      insert_rule :
          (row : DeviceCodeRow) → Keeps (IsSound p) (exec p (insert_device device_code row))
      insert_rule row = Keeps-exec p _ (insert_device-IsSound p device_code row)

  pub complete_device_authorization-IsSound :
      (user_code subject : String)
      → Keeps (IsSound p) (complete_device_authorization p user_code subject)
  unfolding complete_device_authorization
  complete_device_authorization-IsSound user_code subject = Keeps-exec p _ (λ d q h s.
      subst (IsSound p) (ground arith) (
        update_devices-IsSound p (has_user_code user_code)
          (λ r. record r { subject = subject; done = pos 1 }) d (λ r. refl) s))

  pub deny_device_authorization-IsSound :
      (user_code : String) → Keeps (IsSound p) (deny_device_authorization p user_code)
  unfolding deny_device_authorization
  deny_device_authorization-IsSound user_code = Keeps-exec p _ (λ d q h s.
      subst (IsSound p) (ground arith) (
        update_devices-IsSound p (has_user_code user_code) (λ r. record r { denied = pos 1 }) d
          (λ r. refl) s))

  module _ {Signer : Type 0} (library : KeyLibrary Signer) where
    as_key : String → String → Signer → SigningKey Signer
    as_key id alg signer = record { id = id; algorithm = alg; signer = signer }

    store_key-IsSound :
        (alg : String) (signer : Signer) (pem : Option String)
        → is_supported_alg alg ≡ true
        → Keeps (IsSound p) (store_key p library alg signer pem)
    unfolding store_key new_string as_key
    store_key-IsSound alg signer none supported = Keeps-raise _
    store_key-IsSound alg signer (some pem) supported = record {
      at = λ w s.
          (written (p.uuid w.ids) (library.datetime_now w.statements)).at
            (record w { ids = suc w.ids }) s;
    }
      where
        written :
            (id now : String)
            → Keeps (IsSound p) (
                exec p (add_key p library id (new_row p library alg pem now))
                >> pure (as_key id alg signer))
        written id now =
            Keeps-bind _ _
              (Keeps-exec p _
                (λ d q h s. put_key-IsSound p library id alg pem now d q supported h s))
              (λ _. Keeps-pure _)

    pub generate_signing_key-IsSound :
        (made : Made Signer) (alg : String)
        → Keeps (IsSound p) (generate_signing_key p library made alg)
    unfolding generate_signing_key
    generate_signing_key-IsSound made alg = elim (Bool-cases (is_supported_alg alg)) [
      | inr e ↦ rw e (Keeps-raise _)
      | inl e ↦ elim (Option-cases (generator made alg)) [
        | inl f ↦ rw (e, f) (Keeps-raise _)
        | inr (signer, f) ↦ rw (e, f) (store_key-IsSound alg signer _ e)
      ]
    ]

    load_active_key_by_alg-IsSound :
        (alg : String) → Keeps (IsSound p) (load_active_key_by_alg p library alg)
    unfolding load_active_key_by_alg
    load_active_key_by_alg-IsSound alg =
        Keeps-bind _ _ (Keeps-query p _) (λ found. record { at = λ w s. s })

    pub ensure_key_for_alg-IsSound :
        (keys : Keys Signer) (made : Made Signer) (alg : String)
        → Keeps (IsSound p) (ensure_key_for_alg p library keys made alg)
    unfolding ensure_key_for_alg
    ensure_key_for_alg-IsSound keys made alg = elim (Option-cases (get alg keys.keys_by_alg)) [
      | inr (k, e) ↦ rw (e, ensure_key_for_alg) (Keeps-pure _)
      | inl e ↦
          rw (e, ensure_key_for_alg)
            (Keeps-bind _ _ (Keeps-attempt _ (load_active_key_by_alg-IsSound alg)) chosen)
    ]
      where
        chosen :
            (r : Result (SigningKey Signer))
            → Keeps (IsSound p) (or_generate p library keys made alg r)
        chosen (ok k) = Keeps-pure _
        chosen (err x) = Keeps-bind _ _ (generate_signing_key-IsSound made alg) (λ k. Keeps-pure _)

    pub rotate_signing_key-IsSound :
        (keys : Keys Signer) (made : Made Signer) (alg : String)
        → Keeps (IsSound p) (rotate_signing_key p library keys made alg)
    unfolding rotate_signing_key
    rotate_signing_key-IsSound keys made alg =
        Keeps-bind _ _ (generate_signing_key-IsSound made alg) (λ k. Keeps-pure _)
