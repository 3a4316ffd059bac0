-- ===== src/Http.antt =====
-- An HTTP request as the handlers read it (net/http).
use oidc_test_idp.Prelude.{ℕ, String, Bool, Option, none, some, List, [], ◌∷◌, ◌++◌}
use oidc_test_idp.Table
use oidc_test_idp.Table.{Table}

pub record HttpRequest : Type 0 where
  pub method : String
  pub path : String
  -- `r.URL.Query().Get(key)`, "" where it is absent.
  pub query : String → String
  -- `r.BasicAuth()`
  pub basic_auth : Option (String × String)
  -- Whether `r.ParseForm()` succeeds; then `r.Form.Get` and `r.PostForm.Get`.
  pub parses : Bool
  pub form : String → String
  pub post_form : String → String

-- What a handler does to its `http.ResponseWriter`: it sets or adds to a header, writes a status,
-- writes a part of the body.
pub data Write : Type 0 where
  sets adds : String → String → Write
  status : ℕ → Write
  writes : String → Write

-- `http.Header`, under canonical keys.
abbrev pub Header : Type 0
Header = Table (List String)

-- `h.Get(key)`: the first value, "" where there is none.
abbrev pub first_value : Option (List String) → String
first_value (some (v ∷ vs)) = v
first_value _ = ""

abbrev pub header_value : String → Header → String
header_value key h = first_value (Table.get key h)

-- `h.Values(key)`
abbrev values_of : Option (List String) → List String
values_of none = []
values_of (some vs) = vs

-- `h.Set(key, v)`
unfoldable pub header_set : String → String → Header → Header
header_set key v h = Table.put key (v ∷ []) h

-- `h.Add(key, v)`
unfoldable pub header_add : String → String → Header → Header
header_add key v h = Table.put key (values_of (Table.get key h) ++ v ∷ []) h
