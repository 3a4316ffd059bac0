-- ===== src/Server/Challenge.antt =====
-- The challenges of the userinfo endpoint (internal/server/server.go).
use oidc_test_idp.Prelude.{
  ℕ, sym, ap, ◌∙◌, Option-cases, ◌==◌, eq_iff, eq_refl, ◌≡◌, ◌≢◌, refl, true, false, Option, none,
  some, List, [], ◌∷◌, ◌++◌, arith, Bool-cases, inl, inr,
}
use oidc_test_idp.Table.{get-put}
use oidc_test_idp.Http.{
  Write, sets, adds, status, writes, Header, header_value, header_set, header_add,
}
use oidc_test_idp.Platform.{Platform}
use oidc_test_idp.Http.{HttpRequest}
use oidc_test_idp.Db.{World, ok}
use oidc_test_idp.Db.Statements.{Result-cases}
use oidc_test_idp.Discovery.{answer_writes}
use oidc_test_idp.Reqlog.{Log}
use oidc_test_idp.Server.{
  Backend, discovery_layer, userinfo_challenge, protocol, Sent, sent_status, sent_body,
  BearerChallengeWriter, www_authenticate, challenged, challenge_write, challenge_all,
  fresh_challenge,
}

abbrev pub first_sent : List Sent → Option Sent
first_sent [] = none
first_sent (x ∷ xs) = some x

-- Once something is sent, it stays the first.
first_sent-append :
    (xs ys : List Sent) (x : Sent) → first_sent xs ≡ some x → first_sent (xs ++ ys) ≡ some x
first_sent-append [] ys x h = cc
first_sent-append (y ∷ xs) ys x h = h

first_sent-challenge_write :
    (b : BearerChallengeWriter) (c : Write) (x : Sent)
    → first_sent b.sent ≡ some x
    → first_sent (challenge_write b c).sent ≡ some x
unfolding challenge_write
first_sent-challenge_write b (sets k v) x h = h
first_sent-challenge_write b (adds k v) x h = h
first_sent-challenge_write b (status code) x h = first_sent-append b.sent _ x h
first_sent-challenge_write b (writes s) x h = first_sent-append b.sent _ x h

first_sent-challenge_all :
    (b : BearerChallengeWriter) (ws : List Write) (x : Sent)
    → first_sent b.sent ≡ some x
    → first_sent (challenge_all b ws).sent ≡ some x
unfolding challenge_all
first_sent-challenge_all b [] x h = h
first_sent-challenge_all b (c ∷ ws) x h =
    first_sent-challenge_all (challenge_write b c) ws x (first_sent-challenge_write b c x h)

challenged-header : (h : Header) → header_value www_authenticate (challenged false 401 h) ≢ ""
unfolding challenged header_set
challenged-header h e = elim (Bool-cases (header_value www_authenticate h == "")) [
  | inr other ↦ ground (arith, eq_iff (header_value www_authenticate h) "")
  | inl bare ↦ ground (
    arith,
    eq_iff "Bearer error=\"invalid_token\"" "",
    get-put www_authenticate www_authenticate ("Bearer error=\"invalid_token\"" ∷ []) h,
    eq_refl www_authenticate,
  )
]

-- A refusal that is the first thing sent carries a challenge.
first_sent-challenged :
    (ws : List Write) (h at_status : Header)
    → first_sent (challenge_all (fresh_challenge h) ws).sent ≡ some (sent_status 401 at_status)
    → header_value www_authenticate at_status ≢ ""
unfolding challenge_all challenge_write
first_sent-challenged [] h at_status e = ground arith
first_sent-challenged (sets k v ∷ ws) h at_status e =
    first_sent-challenged ws (header_set k v h) at_status e
first_sent-challenged (adds k v ∷ ws) h at_status e =
    first_sent-challenged ws (header_add k v h) at_status e
first_sent-challenged (status code ∷ ws) h at_status e = λ bad.
    let first : sent_status code (challenged false code h) ≡ sent_status 401 at_status = cc (
      first_sent-challenge_all
          (record {
            wrote = true;
            header = challenged false code h;
            sent = sent_status code (challenged false code h) ∷ [];
          })
          ws _ refl,
      e,
    ) in
    challenged-header h (ground arith)
first_sent-challenged (writes s ∷ ws) h at_status e = ground (
  arith,
  first_sent-challenge_all (record { wrote = true; header = h; sent = sent_body s ∷ [] }) ws
      (sent_body s) refl,
)

module _ (p : Platform) {Body : Type 0} (backend : Backend Body) where
  userinfo_lem :
      (r : HttpRequest) (ws : List Write)
      → r.path ≡ "/userinfo"
      → userinfo_challenge r ws ≡ (challenge_all (fresh_challenge []) ws).sent
  unfolding userinfo_challenge
  userinfo_lem r ws here = rw here refl

  -- If the whole chain answers a request for /userinfo, and the first thing that it sends is
  -- status 401, the headers of that moment have a WWW-Authenticate value that is not empty,
  -- whatever the layers below wrote.
  pub protocol-challenged :
      (log after : Log) (start duration : ℕ) (r : HttpRequest) (w : World) (sent : List Sent)
      (at_status : Header)
      → r.path ≡ "/userinfo"
      → (protocol p backend log start duration r w).0 ≡ ok (after, some sent)
      → first_sent sent ≡ some (sent_status 401 at_status)
      → header_value www_authenticate at_status ≢ ""
  unfolding protocol
  protocol-challenged log after start duration r w sent at_status here h refused =
      elim (Result-cases (discovery_layer p backend r w).0) [
        | inr (e, f) ↦ ground (arith, f)
        | inl (a, f) ↦ elim (Option-cases (answer_writes a)) [
          | inl g ↦ ground (arith, f, g)
          | inr (ws, g) ↦
              first_sent-challenged ws [] at_status
                (ap first_sent (sym (userinfo_lem r ws here) ∙ ground (arith, f, g)) ∙ refused)
        ]
      ]
