-- ===== src/Storage/Revocation/Sessions.antt =====
-- The end of a session: which tokens it removes.
use oidc_test_idp.Prelude.{String, ◌==◌, eq_iff, ◌≡◌, ◌⊎◌, ◌≢◌, ◌&&◌, some, arith, refl}
use oidc_test_idp.Table.{get, delete_where, get-delete_where_sound, get-delete_where_kept}
use oidc_test_idp.Platform.{Platform, Healthy}
use oidc_test_idp.Db.{TokenColumns, RefreshTokenColumns, World, ok}
use oidc_test_idp.Db.Statements.{counted_on, exec_lem}
use oidc_test_idp.Storage.Revocation.{terminate_session}

-- After the session of the user at the client ends, no access token and no refresh token of both
-- is left, and those of another user or another client stay.
pub record IsEnded (user_id client_id : String) (w q : World) : Type 0 where
  pub no_token :
      (id : String) (r : TokenColumns)
      → get id q.tokens ≡ some r
      → r.subject ≡ user_id
      → r.application_id ≢ client_id
  pub no_refresh :
      (id : String) (r : RefreshTokenColumns)
      → get id q.refresh_tokens ≡ some r
      → r.user_id ≡ user_id
      → r.application_id ≢ client_id
  pub token_kept :
      (id : String) (r : TokenColumns)
      → get id w.tokens ≡ some r
      → (r.subject ≢ user_id) ⊎ (r.application_id ≢ client_id)
      → get id q.tokens ≡ some r
  pub refresh_kept :
      (id : String) (r : RefreshTokenColumns)
      → get id w.refresh_tokens ≡ some r
      → (r.user_id ≢ user_id) ⊎ (r.application_id ≢ client_id)
      → get id q.refresh_tokens ≡ some r

module _ (p : Platform) (healthy : Healthy p) (user_id client_id : String) (w : World) where
  terminate_session_lem : terminate_session p user_id client_id w ≡ (
    ok tt,
    record (counted_on (counted_on w)) {
      db = record w.db {
        refresh_tokens =
            delete_where
              (λ r. r.user_id == user_id && r.application_id == client_id)
              w.refresh_tokens;
        tokens = delete_where (λ r. r.subject == user_id && r.application_id == client_id) w.tokens;
      };
    },
  )
  unfolding terminate_session
  terminate_session_lem = simp (exec_lem p healthy)

  -- While the driver works, TerminateSession succeeds, leaves no access and no refresh token of
  -- the user at the client, and keeps those of another user or another client.
  pub terminate_session-IsEnded :
      ((terminate_session p user_id client_id w).0 ≡ ok tt)
      × IsEnded user_id client_id w (terminate_session p user_id client_id w).1
  terminate_session-IsEnded = rw terminate_session_lem (
    refl,
    record {
      no_token = λ id r h e f. ground (
        arith,
        get-delete_where_sound
            (λ (t : TokenColumns). t.subject == user_id && t.application_id == client_id) id r
            w.tokens h,
        eq_iff r.subject user_id,
        eq_iff r.application_id client_id,
      );
      no_refresh = λ id r h e f. ground (
        arith,
        get-delete_where_sound
            (λ (t : RefreshTokenColumns). t.user_id == user_id && t.application_id == client_id) id
            r w.refresh_tokens h,
        eq_iff r.user_id user_id,
        eq_iff r.application_id client_id,
      );
      token_kept = λ id r h other.
          get-delete_where_kept
            (λ (t : TokenColumns). t.subject == user_id && t.application_id == client_id) id r
            w.tokens h
            (ground (arith, eq_iff r.subject user_id, eq_iff r.application_id client_id));
      refresh_kept = λ id r h other.
          get-delete_where_kept
            (λ (t : RefreshTokenColumns). t.user_id == user_id && t.application_id == client_id) id
            r w.refresh_tokens h
            (ground (arith, eq_iff r.user_id user_id, eq_iff r.application_id client_id));
    },
  )
