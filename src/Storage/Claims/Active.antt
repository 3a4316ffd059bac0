-- ===== src/Storage/Claims/Active.antt =====
-- Which tokens introspection and the userinfo endpoint accept.
use oidc_test_idp.Prelude.{
  ◌≤◌, String, ◌==◌, ◌≡◌, refl, ◌↔◌, suc, some, true, any, none, List, arith, inl, inr,
}
use oidc_test_idp.Table.{get}
use oidc_test_idp.Platform.{Platform, Healthy}
use oidc_test_idp.Models.{TokenRow, User}
use oidc_test_idp.Db.{World, Result, ok, err, time_now}
use oidc_test_idp.Db.Statements.{Result-cases, counted_on}
use oidc_test_idp.Repo.Users.{get_user_by_subject}
use oidc_test_idp.Storage.Tokens.Runs.{token_of, load_token_lem}
use oidc_test_idp.Storage.Claims.{
  UserInfo, Introspection, set_userinfo, fill_userinfo, introspect, introspect_found,
  introspect_loaded, set_introspection_from_token, empty_user_info,
}

module _ (p : Platform) (healthy : Healthy p) where
  filled :
      (r : Result User) (user_id client_id : String) (scopes : List String) (info : UserInfo)
      (w : World)
      → (i : UserInfo) × ((fill_userinfo p r user_id client_id scopes info w).0 ≡ ok i)
  unfolding fill_userinfo
  filled (ok u) user_id client_id scopes info w = (_, refl)
  filled (err e) user_id client_id scopes info w = (_, refl)

  pub set_userinfo_total :
      (user_id client_id : String) (scopes : List String) (info : UserInfo) (w : World)
      → (i : UserInfo) × ((set_userinfo p user_id client_id scopes info w).0 ≡ ok i)
  unfolding set_userinfo
  set_userinfo_total user_id client_id scopes info w =
      filled (get_user_by_subject p user_id w).0 user_id client_id scopes info
        (get_user_by_subject p user_id w).1

  module _ (token_id subject client_id : String) (answer : Introspection) (w : World) where
    -- The token loads, has not expired when it is tested, and names the client in its audience.
    pub record IsActive : Type 0 where
      pub token : TokenRow
      pub loads : token_of p token_id (get token_id w.tokens) ≡ ok token
      pub in_time : p.clock w.times ≤ token.expiration
      pub for_client : any (λ aud. aud == client_id) token.audience ≡ true

    -- While the driver works, introspection gives an answer without an error exactly when the
    -- token loads, has not expired and names the client in its audience.
    pub introspection-IsActive :
        ((a : Introspection) × ((set_introspection_from_token p token_id subject client_id answer
              w).0
            ≡ ok (a, none)))
        ↔ IsActive
    unfolding set_introspection_from_token introspect_loaded introspect_found introspect time_now
    introspection-IsActive = (
      λ (a, h). elim (Result-cases (token_of p token_id (get token_id w.tokens))) [
        | inl (t, e) ↦ record {
          token = t;
          loads = e;
          in_time = ground (arith, load_token_lem p healthy token_id w);
          for_client = ground (arith, load_token_lem p healthy token_id w);
        }
        | inr (f, e) ↦ ground (arith, load_token_lem p healthy token_id w)
      ],
      λ active.
          let total =
            set_userinfo_total subject client_id active.token.scopes empty_user_info
              (record (counted_on w) { times = suc w.times }) in
          (
            record answer {
              expiration = active.token.expiration;
              user_info = some total.0;
              scope = active.token.scopes;
              client_id = active.token.application_id;
            },
            ground (
              arith,
              load_token_lem p healthy token_id w,
              active.loads,
              active.in_time,
              active.for_client,
              total.1,
            ),
          ),
    )
