-- ===== src/Storage/Tokens/Issue.antt =====
-- Issuing access and refresh tokens.
use mathlib.Core.Path.{subst}
use oidc_test_idp.Prelude.{
  ◌<◌, String, ◌==◌, eq_iff, ◌≡◌, refl, none, some, Option, List, [], ◌∷◌, ◌+◌, ℕ, zero, suc, ℤ,
  pos, negsuc, is_positive, pos_part, arith, if◌then◌else◌,
}
use oidc_test_idp.Table.{get, get-put}
use oidc_test_idp.Models.{Client, TokenRow, seconds}
use oidc_test_idp.Platform.{Platform, RoundTrips, Healthy, year_10000}
use oidc_test_idp.Db.{ClientRow, World, Result, ok}
use oidc_test_idp.Repo.Clients.{scan_client}
use oidc_test_idp.Repo.Clients.Runs.{client_of}
use oidc_test_idp.Storage.Tokens.{
  TokenRequest, auth, refresh, exchange, jwt, other, minutes_5, subject_of, audience_of, scopes_of,
  application_of, access_lifetime_of, token_columns, load_token, create_access_token,
}
use oidc_test_idp.Storage.Tokens.Runs.{
  token_of, minted, after_minting, load_token_lem, access_token_lem, scan_token-token_columns,
}

-- An access token lives: its lifetime is never 0, whatever the client says.
pub access_lifetime_of_pos : (c : Result Client) → 0 < access_lifetime_of c
unfolding access_lifetime_of
access_lifetime_of_pos c = ground arith

-- The application, subject, audience and scopes that the token of a request has.
abbrev pub described : TokenRequest → String × String × List String × List String
described (auth r) = (r.application_id, r.user_id, r.application_id ∷ [], r.scopes)
described (refresh r) = ("", r.user_id, r.audience, r.scopes)
described (exchange client subject audience scopes) = (client, subject, audience, scopes)
described (jwt subject [] scopes) = ("", subject, [], scopes)
described (jwt subject (aud ∷ audience) scopes) = (aud, subject, aud ∷ audience, scopes)
described (other subject audience scopes) = ("", subject, audience, scopes)

-- A positive duration, else five minutes.
abbrev pub positive_or_5_minutes : ℤ → ℕ
positive_or_5_minutes (pos zero) = 300000000000
positive_or_5_minutes (pos (suc n)) = suc n
positive_or_5_minutes (negsuc n) = 300000000000

-- How long the token lasts: as the stored client says, if it gives a positive duration.
abbrev pub lasting : Option ClientRow → ℕ
lasting none = 300000000000
lasting (some row) = positive_or_5_minutes (seconds row.access_token_lifetime_seconds)

module _ (p : Platform) (healthy : Healthy p) (trips : RoundTrips p) (request : TokenRequest)
    (w : World) where
  -- The token that is expected.
  abbrev pub issued : TokenRow
  issued = record {
    id = p.uuid w.ids;
    application_id = (described request).0;
    subject = (described request).1;
    refresh_token_id = "";
    audience = (described request).2;
    scopes = (described request).3;
    expiration = p.clock w.times + lasting (get (described request).0 w.clients);
  }

  duration_lem :
      (d : ℤ) → (if is_positive d then pos_part d else minutes_5) ≡ positive_or_5_minutes d
  duration_lem (pos zero) = refl
  duration_lem (pos (suc n)) = ground arith
  duration_lem (negsuc n) = refl

  lifetime-lasting :
      (id : String) (row : Option ClientRow) → access_lifetime_of (client_of p id row) ≡ lasting row
  unfolding access_lifetime_of scan_client
  lifetime-lasting id none = refl
  lifetime-lasting id (some row) = duration_lem (seconds row.access_token_lifetime_seconds)

  described_lem :
      (a : TokenRequest)
      → (application_of a ≡ (described a).0)
        × (subject_of a ≡ (described a).1)
        × (audience_of a ≡ (described a).2)
        × (scopes_of a ≡ (described a).3)
  unfolding application_of
  described_lem (auth r) = (refl, refl, refl, refl)
  described_lem (refresh r) = (refl, refl, refl, refl)
  described_lem (exchange client subject audience scopes) = (refl, refl, refl, refl)
  described_lem (jwt subject [] scopes) = (refl, refl, refl, refl)
  described_lem (jwt subject (aud ∷ audience) scopes) = (refl, refl, refl, refl)
  described_lem (other subject audience scopes) = (refl, refl, refl, refl)

  minted-issued :
      minted p w
        (application_of request)
        ""
        (subject_of request)
        (audience_of request)
        (scopes_of request)
      ≡ issued
  minted-issued =
      let (a, s, u, c) = described_lem request in
      rw (a, s, u, c, lifetime-lasting (described request).0 (get (described request).0 w.clients))
        refl

  pub create_access_token_lem :
      get (p.uuid w.ids) w.tokens ≡ none
      → create_access_token p request w
        ≡ (ok (issued.id, issued.expiration), after_minting p w issued)
  unfolding create_access_token
  create_access_token_lem fresh =
      subst (λ t. create_access_token p request w ≡ (ok (t.id, t.expiration), after_minting p w t))
        minted-issued (simp (access_token_lem p healthy _ _ _ _ _ w fresh))

  -- With a fresh id, an expiration before the year 10000, a driver that works and texts that
  -- round-trip, CreateAccessToken returns the id and the expiration of a token that then loads
  -- with the subject, audience and scopes of the request, and with its application: the client of
  -- an auth or exchange request, the first audience of a JWT request, and none for any other, a
  -- refresh request included. It lasts as long as the stored client of that application says, if
  -- that is positive, else five minutes; every other token loads as before.
  pub load-create_access_token :
      (j : String)
      → get (p.uuid w.ids) w.tokens ≡ none
      → issued.expiration < year_10000
      → ((create_access_token p request w).0 ≡ ok (issued.id, issued.expiration))
        × ((load_token p j (create_access_token p request w).1).0
            ≡ (if issued.id == j then ok issued else token_of p j (get j w.tokens)))
  load-create_access_token j fresh early = ground (
    arith,
    create_access_token_lem fresh,
    load_token_lem p healthy j (after_minting p w issued),
    get-put issued.id j (token_columns p issued) w.tokens,
    eq_iff issued.id j,
    scan_token-token_columns p trips issued early,
  )
