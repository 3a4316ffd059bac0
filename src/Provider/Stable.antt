-- ===== src/Provider/Stable.antt =====
-- `cryptoKey` of internal/oidc/provider.go run twice.
use oidc_test_idp.Prelude.{
  String, eq-false_of_ne, ◌≡◌, ◌≢◌, refl, Option, none, some, arith, length, Option-cases, inl, inr,
}
use oidc_test_idp.Table.{Table, get, put, get-put}
use oidc_test_idp.Platform.{Platform, Healthy}
use oidc_test_idp.Db.{Db, World, Result, ok}
use oidc_test_idp.Db.Statements.{counted_on, query_lem, exec_lem}
use oidc_test_idp.Repo.Settings.{get_setting, set_setting}
use oidc_test_idp.Provider.{Bytes, KeyCoding, usable_key, crypto_key}

-- What is encoded is read back, and no key is encoded as the empty text.
pub record KeyTrips (coding : KeyCoding) : Type 0 where
  pub trip : (raw : Bytes) → coding.decode (coding.encode raw) ≡ some raw
  pub full : (raw : Bytes) → length raw ≡ 32 → coding.encode raw ≢ ""

module _ (p : Platform) (healthy : Healthy p) (coding : KeyCoding) (trips : KeyTrips coding) where
  usable_key-encode :
      (raw : Bytes) → length raw ≡ 32 → usable_key p coding (coding.encode raw) ≡ some raw
  unfolding usable_key
  usable_key-encode raw h =
      ground (arith, eq-false_of_ne (coding.encode raw) "" (trips.full raw h), trips.trip raw)

  abbrev text_or : Option String → String
  text_or none = ""
  text_or (some s) = s

  get_setting_lem :
      (w : World)
      → get_setting p "crypto_key" "" w ≡ (ok (text_or (get "crypto_key" w.settings)), counted_on w)
  unfolding get_setting
  get_setting_lem w = elim (Option-cases (get "crypto_key" w.settings)) [
    | inl e ↦ ground (arith, query_lem p healthy (λ d. get "crypto_key" d.settings) w, e)
    | inr (s, e) ↦ ground (arith, query_lem p healthy (λ d. get "crypto_key" d.settings) w, e)
  ]

  -- A usable key in the store is given, and nothing is written.
  crypto_key-usable :
      (random : Option Bytes) (raw : Bytes) (w : World)
      → usable_key p coding (text_or (get "crypto_key" w.settings)) ≡ some raw
      → crypto_key p coding random w ≡ (ok (coding.sum256 raw, "key1"), counted_on w)
  unfolding crypto_key
  crypto_key-usable random raw w h = ground (arith, get_setting_lem w, h)

  abbrev stored_key : Bytes → Db → Option Db
  stored_key raw d = some (record d { settings = put "crypto_key" (coding.encode raw) d.settings })

  usable_again :
      (raw : Bytes) (after before : Table String)
      → length raw ≡ 32
      → after ≡ put "crypto_key" (coding.encode raw) before
      → usable_key p coding (text_or (get "crypto_key" after)) ≡ some raw
  usable_again raw after before h e =
      rw (e, get-put "crypto_key" "crypto_key" (coding.encode raw) before) (usable_key-encode raw h)

  crypto_key-new :
      (raw : Bytes) (w : World)
      → usable_key p coding (text_or (get "crypto_key" w.settings)) ≡ none
      → (crypto_key p coding (some raw) w).0 ≡ ok (coding.sum256 raw, "key1")
        × ((crypto_key p coding (some raw) w).1.settings
            ≡ put "crypto_key" (coding.encode raw) w.settings)
  unfolding crypto_key set_setting
  crypto_key-new raw w h = (
    ground (arith, get_setting_lem w, h, exec_lem p healthy (stored_key raw) (counted_on w)),
    ground (arith, get_setting_lem w, h, exec_lem p healthy (stored_key raw) (counted_on w)),
  )

  -- The same key again, and nothing is written.
  abbrev pub IsStable : Result (Bytes × String) × World → Result (Bytes × String) × World → Type 0
  IsStable (a, q) (b, v) = (b ≡ a) × (v.db ≡ q.db)

  -- While the driver works and the base64 coding round-trips, with random bytes of the right
  -- number cryptoKey gives a key under the id "key1", and a second call gives the same key and
  -- changes nothing, whatever random bytes it could have.
  pub crypto_key_twice :
      (raw : Bytes) (again : Option Bytes) (w : World)
      → length raw ≡ 32
      → ((key : Bytes) × ((crypto_key p coding (some raw) w).0 ≡ ok (key, "key1")))
        × IsStable
            (crypto_key p coding (some raw) w)
            (crypto_key p coding again (crypto_key p coding (some raw) w).1)
  crypto_key_twice raw again w h =
      elim (Option-cases (usable_key p coding (text_or (get "crypto_key" w.settings)))) [
        | inr (old, e) ↦ rw (crypto_key-usable (some raw) old w e) (
          (coding.sum256 old, refl),
          (rw (crypto_key-usable again old (counted_on w) e) (refl, refl)),
        )
        | inl e ↦
            let q = (crypto_key p coding (some raw) w).1 in
            let (made, stored) = crypto_key-new raw w e in
            let found = usable_again raw q.settings w.settings h stored in
            (
              (coding.sum256 raw, made),
              (rw (crypto_key-usable again raw q found, made) (refl, refl)),
            )
      ]
