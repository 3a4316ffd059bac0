-- ===== src/Server.antt =====
-- internal/server/server.go: the chain of middlewares before the OpenID provider, and the
-- WWW-Authenticate header of the userinfo endpoint.
pub mod Challenge
pub mod Chain
use oidc_test_idp.Prelude.{
  ℕ, String, ◌==◌, Bool, true, false, ◌&&◌, not, Option, none, some, List, [], ◌∷◌, ◌++◌,
  if◌then◌else◌,
}
use oidc_test_idp.Prelude.Text.{same}
use oidc_test_idp.Table
use oidc_test_idp.Json.{Object}
use oidc_test_idp.Http.{
  HttpRequest, Write, sets, adds, status, writes, Header, header_value, header_set, header_add,
}
use oidc_test_idp.Models.{AuthRequest, OpClient}
use oidc_test_idp.Platform.{Platform}
use oidc_test_idp.Db.{M, ◌>>=◌, pure}
use oidc_test_idp.Reqlog.{Log, Call}
use oidc_test_idp.Reqlog
use oidc_test_idp.Behavior.{Url, Action, next, is_protocol_endpoint}
use oidc_test_idp.Behavior
use oidc_test_idp.Ropc.{TokenAnswer, intercepts, ropc_exchange}
use oidc_test_idp.Signing.{signing_alg}
use oidc_test_idp.Discovery.{Answer, answer_writes, discovery_override, BufferWriter}

-- What reaches the wrapped `ResponseWriter`: a status with the headers of that moment, or a part of
-- the body.
pub data Sent : Type 0 where
  sent_status : ℕ → Header → Sent
  sent_body : String → Sent

-- `bearerChallengeWriter`: its flag, the headers that it shares with the wrapped writer, and what
-- it has handed on.
pub record BearerChallengeWriter : Type 0 where
  pub wrote : Bool
  pub header : Header
  pub sent : List Sent

abbrev pub www_authenticate : String
www_authenticate = "Www-Authenticate"

abbrev pub challenge : Header → Header
challenge h = header_set www_authenticate "Bearer error=\"invalid_token\"" h

-- The headers as `WriteHeader` leaves them.
unfoldable pub challenged : Bool → ℕ → Header → Header
challenged wrote code h =
    if not wrote && same code 401 && header_value www_authenticate h == "" then challenge h else h

unfoldable pub challenge_write : BearerChallengeWriter → Write → BearerChallengeWriter
unfolding challenged
challenge_write b (sets k v) = record b { header = header_set k v b.header }
challenge_write b (adds k v) = record b { header = header_add k v b.header }
challenge_write b (status code) =
    let h = challenged b.wrote code b.header in
    record { wrote = true; header = h; sent = b.sent ++ sent_status code h ∷ [] }
challenge_write b (writes s) = record b { wrote = true; sent = b.sent ++ sent_body s ∷ [] }

unfoldable pub challenge_all : BearerChallengeWriter → List Write → BearerChallengeWriter
unfolding challenge_write
challenge_all b [] = b
challenge_all b (c ∷ cs) = challenge_all (challenge_write b c) cs

abbrev pub fresh_challenge : Header → BearerChallengeWriter
fresh_challenge h = record { wrote = false; header = h; sent = [] }

-- The same calls on the writer itself, which adds nothing.
unfoldable pub plain_write : BearerChallengeWriter → Write → BearerChallengeWriter
plain_write b (sets k v) = record b { header = header_set k v b.header }
plain_write b (adds k v) = record b { header = header_add k v b.header }
plain_write b (status code) = record b { sent = b.sent ++ sent_status code b.header ∷ [] }
plain_write b (writes s) = record b { sent = b.sent ++ sent_body s ∷ [] }

unfoldable pub plain_all : BearerChallengeWriter → List Write → BearerChallengeWriter
unfolding plain_write
plain_all b [] = b
plain_all b (c ∷ cs) = plain_all (plain_write b c) cs

-- `userinfoChallenge`: what the calls of the wrapped handler send.
unfoldable pub userinfo_challenge : HttpRequest → List Write → List Sent
unfolding challenge_all plain_all
userinfo_challenge r ws =
    if r.path == "/userinfo"
    then (challenge_all (fresh_challenge []) ws).sent
    else (plain_all (fresh_challenge []) ws).sent

-- The library's own handlers: the provider, under the algorithm of the request's context, and the
-- token response; `url.Parse`, `json.Unmarshal`, and how an action and an answer are written
-- (`http.Redirect` makes a relative target absolute by the path of the request).
pub record Backend (Body : Type 0) : Type 0 where
  pub provider : String → HttpRequest → M (List Write)
  pub create_token_response : String → AuthRequest → OpClient → M Body
  pub parse_url : String → Option Url
  pub decode : String → Option (Option Object)
  pub write_action : HttpRequest → Action → List Write
  pub write_token_answer : TokenAnswer Body → List Write

-- What is sent, as the request log sees it.
unfoldable pub calls_of : List Sent → List Call
calls_of [] = []
calls_of (sent_status code h ∷ ws) = Reqlog.header code ∷ calls_of ws
calls_of (sent_body s ∷ ws) = Reqlog.body ∷ calls_of ws

-- The behaviour middleware has come to the form.
abbrev pub no_basic_id : Option (String × String) → Bool
no_basic_id none = true
no_basic_id (some auth) = auth.0 == ""

abbrev pub looks_in_form : HttpRequest → Bool
looks_in_form r =
    is_protocol_endpoint r.path && r.query "client_id" == "" && no_basic_id r.basic_auth

-- The request as the layers below find it: the first `ParseForm` keeps what it has read, and a
-- second one gives no error.
unfoldable pub form_seen : HttpRequest → HttpRequest
form_seen r = if looks_in_form r then record r { parses = true } else r

module _ (p : Platform) {Body : Type 0} (backend : Backend Body) where
  unfoldable pub ropc_layer : String → HttpRequest → M (List Write)
  ropc_layer alg r =
      if intercepts r
      then (do
        a ← ropc_exchange p (backend.create_token_response alg) r
        pure (backend.write_token_answer a))
      else backend.provider alg r

  unfoldable pub signing_layer : HttpRequest → M (List Write)
  signing_layer r = do alg ← signing_alg p r; ropc_layer alg r

  -- The delay comes before the action and changes nothing here.
  abbrev pub act : HttpRequest → Action → M (List Write)
  act r next = signing_layer (form_seen r)
  act r a = pure (backend.write_action r a)

  unfoldable pub behavior_layer : HttpRequest → M (List Write)
  behavior_layer r = do decision ← Behavior.middleware backend.parse_url p r; act r decision.1

  unfoldable pub discovery_layer : HttpRequest → M Answer
  discovery_layer r = discovery_override p backend.decode behavior_layer r

  -- What the answer sends through the challenge writer; none where the handler panics.
  abbrev pub sent_by : HttpRequest → Option (List Write) → Option (List Sent)
  sent_by r none = none
  sent_by r (some ws) = some (userinfo_challenge r ws)

  -- A panic goes past the log.
  abbrev pub logged : Log → HttpRequest → ℕ → ℕ → Option (List Sent) → Log
  logged log r start duration none = log
  logged log r start duration (some sent) = Reqlog.middleware log r (calls_of sent) start duration

  -- The chain of `New`: the log afterwards, and what is sent, none where a handler panics.
  unfoldable pub protocol : Log → ℕ → ℕ → HttpRequest → M (Log × Option (List Sent))
  unfolding calls_of userinfo_challenge
  protocol log start duration r = do
    a ← discovery_layer r
    let sent = sent_by r (answer_writes a)
    pure (logged log r start duration sent, sent)
