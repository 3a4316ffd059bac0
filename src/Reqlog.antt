-- ===== src/Reqlog.antt =====
-- internal/reqlog/reqlog.go: the ring buffer of recent requests. The mutex makes each operation
-- one step.
pub mod Ring
use mathlib.Core.List.{reverse}
use oidc_test_idp.Prelude.{
  ℕ, ◌-◌, String, ◌==◌, Bool, true, false, List, [], ◌∷◌, ◌++◌, length, drop, ltb, ℤ, is_positive,
  pos_part, some, none, if◌then◌else◌,
}
use oidc_test_idp.Http.{HttpRequest}

pub record Entry : Type 0 where
  pub time : ℕ
  pub method : String
  pub path : String
  pub client_id : String
  pub status : ℕ
  pub duration_ms : ℕ

-- The field `max` of the source is `limit` here.
pub record Log : Type 0 where
  pub buf : List Entry
  pub limit : ℕ

-- `New`: the size, or 200 where it is not positive.
unfoldable pub new : ℤ → Log
new n = record { buf = []; limit = if is_positive n then pos_part n else 200 }

unfoldable pub add : Log → Entry → Log
add l e =
    let buf = l.buf ++ e ∷ [] in
    if ltb l.limit (length buf)
    then record l { buf = drop (length buf - l.limit) buf }
    else record l { buf = buf }

-- Newest first.
unfoldable pub entries : Log → List Entry
entries l = reverse l.buf

-- `clientID`: the query, or else the name of HTTP basic authentication.
unfoldable pub client_id_of : HttpRequest → String
client_id_of r =
    if r.query "client_id" == ""
    then elim r.basic_auth [ none ↦ "" | some auth ↦ auth.0 ]
    else r.query "client_id"

pub record StatusRecorder : Type 0 where
  pub status : ℕ
  pub wrote_header : Bool

abbrev pub fresh_recorder : StatusRecorder
fresh_recorder = record { status = 200; wrote_header = false }

unfoldable pub write_header : StatusRecorder → ℕ → StatusRecorder
write_header s code = if s.wrote_header then s else record s { status = code; wrote_header = true }

unfoldable pub write : StatusRecorder → StatusRecorder
write s = record s { wrote_header = true }

-- What a handler does to its `ResponseWriter`.
pub data Call : Type 0 where
  header : ℕ → Call
  body : Call

unfoldable pub run_call : StatusRecorder → Call → StatusRecorder
unfolding write_header write
run_call s (header code) = write_header s code
run_call s body = write s

unfoldable pub run_calls : StatusRecorder → List Call → StatusRecorder
unfolding run_call
run_calls s [] = s
run_calls s (c ∷ cs) = run_calls (run_call s c) cs

-- `Middleware`, around a handler that makes the calls: what it adds to the log.
unfoldable pub middleware : Log → HttpRequest → List Call → ℕ → ℕ → Log
unfolding add client_id_of run_calls
middleware l r calls start duration = add l (record {
  time = start;
  method = r.method;
  path = r.path;
  client_id = client_id_of r;
  status = (run_calls fresh_recorder calls).status;
  duration_ms = duration;
})
