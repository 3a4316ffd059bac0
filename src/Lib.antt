-- ===== src/Lib.antt =====
-- oidc-test-idp: a mock OpenID Connect provider, and what makes its storage, its pages and its
-- middlewares correct.
--
-- The program (Go) wraps a third-party OpenID library. The library calls the storage
-- (internal/storage) through an interface; the storage keeps everything in a SQLite database; the
-- pages (internal/auth) log a user in without a password, the admin pages (internal/admin) edit the
-- same database, and the middlewares (internal/reqlog, internal/behavior, internal/oidc), which
-- internal/server puts in order, stand before the library's routes. At the start the schema is
-- migrated, an empty database is seeded (internal/seed), and the keys are loaded or made.
--
-- How it is modelled. A function that touches the database is an action `M A = World → Result A ×
-- World`: a Go `(A, error)` with the world after it, also on an error. The world is the database, a
-- table per SQL table, and how many statements, random ids and clock readings have been taken. What
-- the program takes from outside is the record `Platform`: ids, clock, failures of the driver, and
-- the text formats of encoding/json and time. `RoundTrips` states what those formats promise
-- (what was written is read back) and `Healthy` that the driver does not fail; theorems that need
-- them take them as hypotheses, and `Sample` builds a platform that has both.
-- `op.CreateTokenResponse`, `url.Parse`, the crypto packages, the YAML decoder, the decoder of
-- discovery documents and key sets, the order of a sorted query, what a migration's SQL does (and
-- leaves where it fails), the generators of RSA and ECDSA keys, how `http.Redirect` writes a target, the
-- provider behind the middlewares and the environment are parameters too. The driver serves one
-- statement at a time and a handler is a sequence of them: two handlers at once are not modelled.
-- No function needs fuel: the loops are over lists.
--
-- The files:
--   Prelude      shared names, tests on ℕ and texts, lists, integers; the functions of strings
--   Table, Json  a SQL table or a Go map as an association list, with its laws; JSON values
--   Models       internal/storage/models.go and oidc_types.go: Client, User, AuthRequest,
--                RefreshToken, and the conversions from the library's requests
--   Platform     what comes from outside
--   Db           migrations/0001_init.sql with the later columns, internal/storage/db.go; what a
--                statement comes to is in Db/Statements, rules for invariants in Db/Keeps, and
--                `migrate` in Db/Migrate, over a schema of its own
--   Repo         internal/storage/repo.go: Clients (scanClient, GetClient, SaveClient, DeleteClient),
--                Users (GetUser, GetUserByUsername, GetUserBySubject, SaveUser, DeleteUser), both
--                with their lists, Settings
--   Storage      internal/storage/storage.go: AuthRequests (CreateAuthRequest to
--                CompleteAuthRequest), Tokens (CreateAccessToken, CreateAccessAndRefreshTokens,
--                renewRefreshToken, …), Revocation (RevokeToken, TerminateSession), Device (the device
--                flow), Claims (setUserinfo, SetIntrospectionFromToken, GetPrivateClaimsFromScopes,
--                …), Keys (with internal/storage/keys.go: generateSigningKey, ensureKeyForAlg,
--                RotateSigningKey, KeySet; in Keys/Start NewStorage, SignatureAlgorithms, ListKeys),
--                Assertions (GetKeyByIDAndClientID, ClientCredentialsTokenRequest); Sound is a
--                predicate on databases, and the histories of operations
--   Auth         internal/auth: selectAccount, doLogin, consentPage, doConsent, deviceUserCode,
--                deviceApprove; Auth/Flow is the code flow from the request to the redeemed code
--   Admin        internal/admin/admin.go: Forms (the helpers on texts), Pages (the handlers that
--                only read), Users, Clients, Settings (the handlers that write)
--   Seed         internal/seed/seed.go: ApplyIfEmpty and the built-in seed
--   Behavior     internal/behavior/behavior.go: latency and forced errors
--   Discovery    internal/behavior/discovery.go: the overrides of the discovery document
--   Ropc         internal/oidc/ropc.go: the password grant
--   Signing      internal/oidc/signing.go: which requests carry a client's algorithm
--   Provider     internal/oidc/provider.go: the provider's configuration and its key
--   Server       internal/server/server.go: the chain of middlewares, and the challenge of userinfo
--   Reqlog       internal/reqlog/reqlog.go: the ring of recent requests
--   Config       internal/config/config.go: Load
--   Sample       a platform whose texts are printed trees
--   Examples     each theorem at a concrete world
-- A module under a component holds lemmas and theorems about it: Runs what its actions come to
-- while the driver works, the others what their names say. A function of the source keeps its name;
-- where its body goes on after a look-up, that rest is a function of its own (`with_found`,
-- `revoke_found`, `introspect_loaded`).
--
-- What is expected of an operation is described apart from the code where the two could share a
-- mistake: `Described` under Admin/Users and Admin/Clients (what a form says), Discovery/Written
-- (status, body and headers of what a handler wrote), Storage/Keys/Origin (where a key comes from).
-- `jsonMarshal` writes "null" where `json.Marshal` fails, so `Platform` gives it as partial for
-- claims and rules, and a round trip asks that the claims can be marshalled.
--
-- Bounds. A duration is an int64 of nanoseconds: `seconds` wraps as the multiplication does. Times
-- are nanoseconds from year 1 and are written as RFC 3339 texts, which end before the year 10000.
--
-- Not modelled: templates and static files, the routers, opening and closing the database, and the
-- process with its signals and health check (cmd/idp/main.go): they are input and output around
-- calls of libraries.
pub mod Admin
pub mod Auth
pub mod Behavior
pub mod Config
pub mod Db
pub mod Discovery
pub mod Examples
pub mod Http
pub mod Json
pub mod Models
pub mod Platform
pub mod Prelude
pub mod Provider
pub mod Repo
pub mod Reqlog
pub mod Ropc
pub mod Sample
pub mod Seed
pub mod Server
pub mod Signing
pub mod Storage
pub mod Table
