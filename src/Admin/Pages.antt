-- ===== src/Admin/Pages.antt =====
-- The admin pages that only read the store.
use oidc_test_idp.Prelude.{
  ℕ, String, ◌==◌, length, Option, none, some, List, [], ◌∷◌, if◌then◌else◌, pos,
}
use oidc_test_idp.Prelude.Split.{join}
use oidc_test_idp.Json.{Object}
use oidc_test_idp.Table.{Table}
use oidc_test_idp.Platform.{Platform}
use oidc_test_idp.Http.{HttpRequest}
use oidc_test_idp.Models.{Client, User, ConditionalClaimRule}
use oidc_test_idp.Db.{ClientRow, UserRow, Result, ok, err, M, ◌>>=◌, pure, attempt, query}
use oidc_test_idp.Reqlog.{Log, entries}
use oidc_test_idp.Repo.Clients.{get_client, list_clients}
use oidc_test_idp.Repo.Users.{get_user, list_users}
use oidc_test_idp.Admin.{
  Answer, logs_page, dashboard_page, users_page, clients_page, UserForm, ClientForm, Notice,
  no_notice,
}
use oidc_test_idp.Admin.Forms.{join_response_types, join_grant_types}

-- `json.MarshalIndent`, at the maps and at the rules: none where it fails. And the orders of
-- `ORDER BY id` and `ORDER BY username`.
pub record Library : Type 0 where
  pub indent_object : Object → Option String
  pub indent_rules : List ConditionalClaimRule → Option String
  pub by_id : Table ClientRow → Table ClientRow
  pub by_username : Table UserRow → Table UserRow

abbrev pub or_braces : Option String → String
or_braces none = "{}"
or_braces (some s) = s

-- `xs, _ := …`: nil on an error.
abbrev pub or_nil : {A : Type 0} → Result (List A) → List A
or_nil (ok xs) = xs
or_nil (err _) = []

abbrev pub or_zero : Result ℕ → ℕ
or_zero (ok n) = n
or_zero (err _) = 0

-- The log, or none where the server keeps none.
unfoldable pub logs : Option Log → Answer
unfolding entries
logs none = logs_page []
logs (some l) = logs_page (entries l)

abbrev pub new_user_form : UserForm
new_user_form = record { edit = none; claims_text = "{}"; conditional_text = "[]"; amr_text = "" }

abbrev pub new_client_form : ClientForm
new_client_form = record {
  edit = none;
  redirect_uris = "";
  post_logout = "";
  response_types = "code";
  grant_types = "authorization_code,refresh_token";
  at_ttl = pos 300;
  rt_ttl = pos 18000;
  idt_ttl = pos 3600;
  custom_claims_text = "{}";
  jwks = "";
}

module _ (p : Platform) (library : Library) where
  abbrev conditional_of : List ConditionalClaimRule → String
  conditional_of [] = "[]"
  conditional_of (r ∷ rs) = or_braces (library.indent_rules (r ∷ rs))

  unfoldable pub user_form : Result User → UserForm
  unfolding join
  user_form (err _) = new_user_form
  user_form (ok u) = record {
    edit = some u;
    claims_text = or_braces (library.indent_object u.claims);
    conditional_text = conditional_of u.conditional_claims;
    amr_text = join ", " u.amr;
  }

  unfoldable pub client_form : Result Client → ClientForm
  unfolding join join_response_types join_grant_types
  client_form (err _) = new_client_form
  client_form (ok c) = record {
    edit = some c;
    redirect_uris = join "\n" c.redirect_uri_list;
    post_logout = join "\n" c.post_logout_redirect_uri_list;
    response_types = join_response_types c.response_type_list;
    grant_types = join_grant_types c.grant_type_list;
    at_ttl = p.whole_seconds c.access_token_lifetime;
    rt_ttl = p.whole_seconds c.refresh_token_lifetime;
    idt_ttl = p.whole_seconds c.id_token_lifetime_duration;
    custom_claims_text = or_braces (library.indent_object c.custom_claims);
    jwks = c.jwks;
  }

  -- `CountConfig` with its named results, whose error is dropped: a failing first count ends it.
  abbrev dashboard_users : String → Result ℕ → M Answer
  dashboard_users issuer (err _) = pure (dashboard_page 0 0 issuer)
  dashboard_users issuer (ok clients) = do
    users ← attempt (query p (λ d. some (length d.users)))
    pure (dashboard_page (or_zero users) clients issuer)

  unfoldable pub dashboard : String → M Answer
  dashboard issuer = do
    clients ← attempt (query p (λ d. some (length d.clients)))
    dashboard_users issuer clients

  unfoldable pub users : HttpRequest → M Answer
  unfolding user_form
  users r = do
    all ← attempt (list_users p library.by_username)
    if r.query "edit" == "" then pure (users_page 200 (or_nil all) new_user_form no_notice) else (do
      u ← attempt (get_user p (r.query "edit"))
      pure (users_page 200 (or_nil all) (user_form u) no_notice))

  unfoldable pub users_error : Notice → M Answer
  users_error notice = do
    all ← attempt (list_users p library.by_username)
    pure (users_page 400 (or_nil all) new_user_form notice)

  unfoldable pub clients : HttpRequest → M Answer
  unfolding client_form
  clients r = do
    all ← attempt (list_clients p library.by_id)
    if r.query "edit" == ""
        then pure (clients_page 200 (or_nil all) new_client_form no_notice)
        else (do
          c ← attempt (get_client p (r.query "edit"))
          pure (clients_page 200 (or_nil all) (client_form c) no_notice))

  unfoldable pub clients_error : Notice → M Answer
  clients_error notice = do
    all ← attempt (list_clients p library.by_id)
    pure (clients_page 400 (or_nil all) new_client_form notice)
