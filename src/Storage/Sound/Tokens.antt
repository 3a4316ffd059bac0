-- ===== src/Storage/Sound/Tokens.antt =====
-- Soundness under the operations on tokens and sessions.
use oidc_test_idp.Prelude.{ℕ, String, some, List, arith}
use oidc_test_idp.Table.{Table, insert}
use oidc_test_idp.Models.{RefreshToken, TokenRow}
use oidc_test_idp.Platform.{Platform}
use oidc_test_idp.Db.{Db, TokenColumns, RefreshTokenColumns, Result, ok, err, exec}
use oidc_test_idp.Db.Keeps.{
  Keeps, Keeps-if, keeps_rules, Keeps-pure, Keeps-raise, Keeps-bind, Keeps-time_now,
  Keeps-new_string,
}
use oidc_test_idp.Storage.Tokens.{
  access_token, create_access_token, create_access_and_refresh_tokens, issue_first, issue_renewed,
  renew_refresh_token, rotate, create_refresh_token, insert_refresh_token, delete_refresh_row,
  delete_token_row, load_refresh_token, access_token_lifetime, TokenRequest, set_tokens,
}
use oidc_test_idp.Storage.Revocation.{
  revoke_token, revoke_found, revoke_refresh_token, terminate_session,
}
use oidc_test_idp.Storage.Sound.{IsSound}
use oidc_test_idp.Storage.Sound.Operations.{others_rule, Keeps-ignore, Keeps-get_client}

module _ (p : Platform) where
  refresh_rule :
      (f : Db → Table RefreshTokenColumns)
      → Keeps (IsSound p) (exec p (λ d. some (record d { refresh_tokens = f d })))
  refresh_rule f = others_rule p _ (λ d q h. record {
    codes = ground arith;
    users = ground arith;
    requests = ground arith;
    keys = ground arith;
  })

  tokens_rule :
      (f : Db → Table TokenColumns)
      → Keeps (IsSound p) (exec p (λ d. some (record d { tokens = f d })))
  tokens_rule f = others_rule p _ (λ d q h. record {
    codes = ground arith;
    users = ground arith;
    requests = ground arith;
    keys = ground arith;
  })

  codes_rule :
      (f : Db → Table String)
      → Keeps (IsSound p) (exec p (λ d. some (record d { auth_codes = f d })))
  codes_rule f = others_rule p _ (λ d q h. record {
    codes = ground arith;
    users = ground arith;
    requests = ground arith;
    keys = ground arith;
  })

  insert_token_rule :
      (id : String) (r : TokenColumns)
      → Keeps (IsSound p) (exec p (λ d. set_tokens d (insert id r d.tokens)))
  unfolding insert
  insert_token_rule id r = others_rule p _ (λ d q h. record {
    codes = ground arith;
    users = ground arith;
    requests = ground arith;
    keys = ground arith;
  })

  pub terminate_session-IsSound :
      (user_id client_id : String) → Keeps (IsSound p) (terminate_session p user_id client_id)
  unfolding terminate_session
  terminate_session-IsSound user_id client_id = Keeps-bind _ _ (refresh_rule _) (λ _. tokens_rule _)

  Keeps-access_token_lifetime :
      {P : Db → Type 0} → (id : String) → Keeps P (access_token_lifetime p id)
  unfolding access_token_lifetime
  Keeps-access_token_lifetime id = search (keeps_rules, Keeps-get_client)

  access_token-IsSound :
      (application_id refresh_token_id subject : String) (audience scopes : List String)
      → Keeps (IsSound p) (access_token p application_id refresh_token_id subject audience scopes)
  unfolding access_token
  access_token-IsSound application_id refresh_token_id subject audience scopes =
      Keeps-bind _ _ (Keeps-new_string p) (λ id. Keeps-bind _ _ (Keeps-time_now p) (λ now.
        Keeps-bind _ _ (Keeps-access_token_lifetime application_id)
          (λ lifetime. Keeps-bind _ _ (insert_token_rule id _) (λ _. Keeps-pure _))))

  pub create_access_token-IsSound :
      (request : TokenRequest) → Keeps (IsSound p) (create_access_token p request)
  unfolding create_access_token
  create_access_token-IsSound request = search (keeps_rules, access_token-IsSound)

  insert_refresh_token-IsSound : (t : RefreshToken) → Keeps (IsSound p) (insert_refresh_token p t)
  unfolding insert_refresh_token insert
  insert_refresh_token-IsSound t = others_rule p _ (λ d q h. record {
    codes = ground arith;
    users = ground arith;
    requests = ground arith;
    keys = ground arith;
  })

  create_refresh_token-IsSound :
      (t : TokenRow) (amr : List String) (auth_time : ℕ)
      → Keeps (IsSound p) (create_refresh_token p t amr auth_time)
  unfolding create_refresh_token
  create_refresh_token-IsSound t amr auth_time =
      search (keeps_rules, Keeps-get_client, insert_refresh_token-IsSound)

  delete_refresh_row-IsSound : (id : String) → Keeps (IsSound p) (delete_refresh_row p id)
  unfolding delete_refresh_row
  delete_refresh_row-IsSound id = refresh_rule _

  delete_token_row-IsSound : (id : String) → Keeps (IsSound p) (delete_token_row p id)
  unfolding delete_token_row
  delete_token_row-IsSound id = tokens_rule _

  Keeps-load_refresh_token : {P : Db → Type 0} → (id : String) → Keeps P (load_refresh_token p id)
  unfolding load_refresh_token
  Keeps-load_refresh_token id = search keeps_rules

  rotate-IsSound :
      (old : RefreshToken) (current new_refresh new_access : String)
      → Keeps (IsSound p) (rotate p old current new_refresh new_access)
  unfolding rotate
  rotate-IsSound old current new_refresh new_access = search (
    keeps_rules, delete_refresh_row-IsSound, delete_token_row-IsSound, insert_refresh_token-IsSound,
  )

  renew_refresh_token-IsSound :
      (current new_refresh new_access : String)
      → Keeps (IsSound p) (renew_refresh_token p current new_refresh new_access)
  unfolding renew_refresh_token
  renew_refresh_token-IsSound current new_refresh new_access =
      search (keeps_rules, Keeps-load_refresh_token, rotate-IsSound)

  pub create_access_and_refresh_tokens-IsSound :
      (request : TokenRequest) (current : String)
      → Keeps (IsSound p) (create_access_and_refresh_tokens p request current)
  unfolding create_access_and_refresh_tokens issue_first issue_renewed
  create_access_and_refresh_tokens-IsSound request current =
      search (
        keeps_rules, access_token-IsSound, create_refresh_token-IsSound,
        renew_refresh_token-IsSound,
      )

  revoke_refresh_token-IsSound :
      (client_id : String) (r : Result RefreshToken)
      → Keeps (IsSound p) (revoke_refresh_token p client_id r)
  unfolding revoke_refresh_token
  revoke_refresh_token-IsSound client_id (err e) = Keeps-pure tt
  revoke_refresh_token-IsSound client_id (ok rt) =
      Keeps-if _ _ _
        (Keeps-bind _ _ (Keeps-ignore p _ (delete_refresh_row-IsSound rt.id))
          (λ _. Keeps-ignore p _ (delete_token_row-IsSound rt.access_token)))
        (Keeps-raise _)

  revoke_found-IsSound :
      (token client_id : String) (r : Result String)
      → Keeps (IsSound p) (revoke_found p token client_id r)
  unfolding revoke_found
  revoke_found-IsSound token client_id (ok app_id) =
      Keeps-if _ _ _ (Keeps-ignore p _ (delete_token_row-IsSound token)) (Keeps-raise _)
  revoke_found-IsSound token client_id (err e) =
      search (keeps_rules, Keeps-load_refresh_token, revoke_refresh_token-IsSound)

  pub revoke_token-IsSound :
      (token user_id client_id : String)
      → Keeps (IsSound p) (revoke_token p token user_id client_id)
  unfolding revoke_token
  revoke_token-IsSound token user_id client_id = search (keeps_rules, revoke_found-IsSound)
