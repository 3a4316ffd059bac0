-- ===== src/Platform.antt =====
-- What the program takes from outside: random ids, the clock, the database driver's failures, and
-- the text formats of encoding/json and time that its columns hold.
use oidc_test_idp.Prelude.{
  ℕ, ◌*◌, ◌≤◌, ◌<◌, String, ◌≡◌, ◌≢◌, Bool, true, false, Option, some, List, [], ◌∷◌, ℤ, pos,
}
use oidc_test_idp.Table.{get}
use oidc_test_idp.Json.{Object}
use oidc_test_idp.Models.{ConditionalClaimRule, AuthRequest, second}

pub record Platform : Type 0 where
  -- The results of `uuid.NewString()` and of `time.Now()`, in the order of the calls.
  pub uuid : ℕ → String
  pub clock : ℕ → ℕ
  -- Whether the driver fails at a statement, by their order; a failing statement changes nothing.
  pub fault : ℕ → Bool
  -- `t.UTC().Format(time.RFC3339Nano)` and `time.Parse(time.RFC3339Nano, s)`.
  pub format_time : ℕ → String
  pub parse_rfc3339 : String → Option ℕ
  -- `json.Marshal` and `json.Unmarshal` at the types that are stored. On an error `Unmarshal`
  -- leaves in its target what it has read, so the flag (true: no error) comes beside the value.
  -- `Marshal` fails at a float64 that is no number of JSON (NaN and the infinities).
  pub marshal_strings : List String → String
  pub unmarshal_strings : String → List String × Bool
  pub marshal_object : Object → Option String
  pub unmarshal_object : String → Object × Bool
  pub marshal_rules : List ConditionalClaimRule → Option String
  pub unmarshal_rules : String → List ConditionalClaimRule × Bool
  pub marshal_request : AuthRequest → Option String
  pub unmarshal_request : String → Option AuthRequest
  -- `int(d.Seconds())`: `Seconds` is a float64.
  pub whole_seconds : ℤ → ℤ
  -- `language.Parse`: the tag of a text, or none where it refuses.
  pub parse_language : String → Option String

-- The first instant that RFC 3339 cannot write: the year 10000.
abbrev pub year_10000 : ℕ
year_10000 = 315537897600 * second

-- A request as its JSON carries it: `done` and `authTime` are unexported.
abbrev pub exported : AuthRequest → AuthRequest
exported r = record r { done = false; auth_time = 0 }

-- Maps that no client can tell apart: JSON keeps the entries of a map and not their order.
abbrev pub SameObject : Object → Object → Type 0
SameObject a b = (k : String) → get k a ≡ get k b

abbrev pub SameRules : List ConditionalClaimRule → List ConditionalClaimRule → Type 0
SameRules [] [] = Unit
SameRules (r ∷ l) (s ∷ m) =
    (r.client_id ≡ s.client_id)
    × (r.scopes ≡ s.scopes)
    × SameObject r.claims s.claims
    × SameRules l m
SameRules _ _ = ⊥

-- The documented behaviour of the formats: what was written is read back.
pub record RoundTrips (p : Platform) : Type 0 where
  pub time : (t : ℕ) → t < year_10000 → p.parse_rfc3339 (p.format_time t) ≡ some t
  pub time_text : (t : ℕ) → p.format_time t ≢ ""
  pub strings : (l : List String) → p.unmarshal_strings (p.marshal_strings l) ≡ (l, true)
  pub object :
      (o : Object) (s : String)
      → p.marshal_object o ≡ some s
      → SameObject (p.unmarshal_object s).0 o
  pub rules :
      (l : List ConditionalClaimRule) (s : String)
      → p.marshal_rules l ≡ some s
      → SameRules (p.unmarshal_rules s).0 l
  pub request :
      (r : AuthRequest) (s : String)
      → p.marshal_request r ≡ some s
      → p.unmarshal_request s ≡ some (exported r)
  -- Whole seconds are exact in a float64; the bound keeps the duration inside an int64.
  pub whole : (n : ℕ) → n ≤ 9223372036 → p.whole_seconds (pos (n * second)) ≡ pos n

-- The driver never fails.
abbrev pub Healthy : Platform → Type 0
Healthy p = (n : ℕ) → p.fault n ≡ false
