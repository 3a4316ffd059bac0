-- ===== src/Discovery.antt =====
-- internal/behavior/discovery.go: the operator's overrides of the discovery document.
pub mod Written
pub mod Merged
use oidc_test_idp.Prelude.{
  ℕ, String, ◌==◌, Bool, true, false, ◌||◌, Option, none, some, List, [], ◌∷◌, if◌then◌else◌,
}
use oidc_test_idp.Prelude.Text.{append}
use oidc_test_idp.Table
use oidc_test_idp.Json.{Object, merge}
use oidc_test_idp.Http.{
  HttpRequest, Write, sets, adds, status, writes, Header, header_set, header_add,
}
use oidc_test_idp.Platform.{Platform}
use oidc_test_idp.Db.{M, ◌>>=◌, pure}
use oidc_test_idp.Repo.Settings.{get_setting}

abbrev pub discovery_override_setting : String
discovery_override_setting = "discovery_override"

abbrev pub discovery_path : String
discovery_path = "/.well-known/openid-configuration"

pub record BufferWriter : Type 0 where
  pub header : Header
  pub body : String
  pub status_code : ℕ
  pub wrote_header : Bool

abbrev pub fresh_buffer : BufferWriter
fresh_buffer = record { header = []; body = ""; status_code = 200; wrote_header = false }

-- A call on the writer: `Header().Set`, `WriteHeader`, `Write`.
unfoldable pub buffer_write : BufferWriter → Write → BufferWriter
buffer_write b (sets k v) = record b { header = header_set k v b.header }
buffer_write b (adds k v) = record b { header = header_add k v b.header }
buffer_write b (status code) =
    if b.wrote_header then b else record b { status_code = code; wrote_header = true }
buffer_write b (writes s) = record b { body = append b.body s; wrote_header = true }

unfoldable pub buffer_all : BufferWriter → List Write → BufferWriter
unfolding buffer_write
buffer_all b [] = b
buffer_all b (c ∷ cs) = buffer_all (buffer_write b c) cs

-- What the client gets: the writes of the wrapped handler, the buffered response as it is, or a
-- status with a JSON body and Content-Type as the only header. A store into the map that a body
-- `null` gives panics.
pub data Answer : Type 0 where
  passed : List Write → Answer
  replayed : BufferWriter → Answer
  answered : ℕ → String → Answer
  panicked : Answer

unfoldable pub add_all : String → List String → List Write → List Write
add_all key [] ws = ws
add_all key (v ∷ vs) ws = adds key v ∷ add_all key vs ws

-- `copyHeader`, as calls on the destination before others.
unfoldable pub copy_header : Header → List Write → List Write
unfolding add_all
copy_header [] ws = ws
copy_header ((key, vs) ∷ h) ws = add_all key vs (copy_header h ws)

-- The calls that an answer makes on the wrapped writer; none where the handler panics.
abbrev pub answer_writes : Answer → Option (List Write)
answer_writes (passed ws) = some ws
answer_writes (replayed b) = some (copy_header b.header (status b.status_code ∷ writes b.body ∷ []))
answer_writes (answered code s) =
    some (sets "Content-Type" "application/json" ∷ status code ∷ writes s ∷ [])
answer_writes panicked = none

-- What is written of `out`, where the error of `json.Marshal` is dropped.
abbrev pub or_nothing : Option String → String
or_nothing none = ""
or_nothing (some out) = out

-- `decode` is `json.Unmarshal` into a nil map: none on an error, `some none` where the map stays
-- nil. `downstream` is the wrapped handler.
module _ (p : Platform) (decode : String → Option (Option Object))
    (downstream : HttpRequest → M (List Write)) where
  abbrev merged_document : Object → ℕ → Option (Option Object) → BufferWriter → Answer
  merged_document override code none b = replayed b
  merged_document override code (some none) b = panicked
  merged_document override code (some (some doc)) b =
      answered code (or_nothing (p.marshal_object (merge doc override)))

  unfoldable pub rewrite_document : Object → BufferWriter → Answer
  rewrite_document override b = merged_document override b.status_code (decode b.body) b

  abbrev pub pass : HttpRequest → M Answer
  pass r = do ws ← downstream r; pure (passed ws)

  -- Once the override is decoded; an empty one passes.
  unfoldable pub apply_override : HttpRequest → Option (Option Object) → M Answer
  unfolding rewrite_document buffer_all
  apply_override r none = pass r
  apply_override r (some none) = pass r
  apply_override r (some (some [])) = pass r
  apply_override r (some (some (e ∷ override))) = do
    ws ← downstream r
    pure (rewrite_document (e ∷ override) (buffer_all fresh_buffer ws))

  unfoldable pub discovery_override : HttpRequest → M Answer
  discovery_override r =
      if r.path == discovery_path
      then (do
        raw ← get_setting p discovery_override_setting ""
        if raw == "" || raw == "{}" then pass r else apply_override r (decode raw))
      else pass r
