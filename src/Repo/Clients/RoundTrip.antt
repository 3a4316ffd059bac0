-- ===== src/Repo/Clients/RoundTrip.antt =====
-- A client is saved and read back.
use oidc_test_idp.Prelude.{
  some, ℕ, ◌*◌, ◌≤◌, String, ◌==◌, eq_iff, ◌≡◌, arith, ℤ, pos, if◌then◌else◌,
}
use oidc_test_idp.Table.{get-put}
use oidc_test_idp.Models.{Client, second, seconds}
use oidc_test_idp.Platform.{Platform, RoundTrips, Healthy, SameObject}
use oidc_test_idp.Db.{World, ok, json_object, json_marshal}
use oidc_test_idp.Db.Statements.{exec_lem, is_nonzero-bool_int, json_strings-marshal}
use oidc_test_idp.Repo.Clients.{or_json_empty, scan_client, get_client, client_row, save_client}
use oidc_test_idp.Repo.Clients.Runs.{get_client_lem}

-- A duration of whole seconds that fits an int64 when it is multiplied out.
abbrev pub IsWhole : ℤ → Type 0
IsWhole d = (n : ℕ) × (d ≡ pos (n * second)) × (n ≤ 9223372036)

pub seconds-pos : (n : ℕ) → n ≤ 9223372036 → seconds (pos n) ≡ pos (n * second)
unfolding seconds
seconds-pos n h = ground arith

module _ (p : Platform) (trips : RoundTrips p) where
  seconds-whole_seconds : (d : ℤ) → IsWhole d → seconds (p.whole_seconds d) ≡ d
  seconds-whole_seconds d (n, e, h) = rw (e, trips.whole n h, seconds-pos n h)

  -- What is lost of a client: "" as a JWKS becomes "{}", and the claims' order is not kept.
  abbrev pub stored : Client → Client
  stored c = record c {
    custom_claims = json_object p (json_marshal (p.marshal_object c.custom_claims));
    jwks = if c.jwks == "" then "{}" else c.jwks;
  }

  pub scan_client-client_row :
      (c : Client)
      → IsWhole c.clock_skew_duration
      → IsWhole c.access_token_lifetime
      → IsWhole c.id_token_lifetime_duration
      → IsWhole c.refresh_token_lifetime
      → scan_client p c.id (client_row p c) ≡ stored c
  unfolding scan_client client_row or_json_empty
  scan_client-client_row c h₁ h₂ h₃ h₄ = simp (
    is_nonzero-bool_int,
    json_strings-marshal p trips,
    seconds-whole_seconds c.clock_skew_duration h₁,
    seconds-whole_seconds c.access_token_lifetime h₂,
    seconds-whole_seconds c.id_token_lifetime_duration h₃,
    seconds-whole_seconds c.refresh_token_lifetime h₄,
  )

  -- Its claims read as the same map.
  stored-claims :
      (c : Client) (text : String)
      → p.marshal_object c.custom_claims ≡ some text
      → SameObject (stored c).custom_claims c.custom_claims
  unfolding json_object json_marshal
  stored-claims c text h k = rw h (trips.object c.custom_claims text h k)

  -- With a driver that works and texts that round-trip, a client whose claims can be marshalled
  -- and whose durations are whole seconds, not negative and at most 9223372036, is read back after
  -- SaveClient as it was, but for an empty JWKS, which reads as "{}", and with claims that read
  -- alike; every other client is read as before.
  pub get_client-save_client :
      Healthy p
      → (c : Client) (j text : String) (w : World) → p.marshal_object c.custom_claims ≡ some text
      → IsWhole c.clock_skew_duration
      → IsWhole c.access_token_lifetime
      → IsWhole c.id_token_lifetime_duration
      → IsWhole c.refresh_token_lifetime
      → ((get_client p j (save_client p c w).1).0
          ≡ (if c.id == j then ok (stored c) else (get_client p j w).0))
        × SameObject (stored c).custom_claims c.custom_claims
  unfolding save_client
  get_client-save_client healthy c j text w m h₁ h₂ h₃ h₄ = (
    simp (exec_lem p healthy, get_client_lem p healthy, get-put)
        (ground (arith, eq_iff c.id j, scan_client-client_row c h₁ h₂ h₃ h₄)),
    stored-claims c text m,
  )
