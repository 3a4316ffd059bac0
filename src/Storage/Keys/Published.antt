-- ===== src/Storage/Keys/Published.antt =====
-- Which keys the key set publishes, and that a rotation takes none away.

use oidc_test_idp.Prelude.{
  suc, String, ◌≡◌, refl, ap, ◌∙◌, Bool, true, false, ◌||◌, any, none, some, List, inl, inr, arith,
  Option-cases,
}
use oidc_test_idp.Table.{Table, get, put, insert-put}
use oidc_test_idp.Platform.{Platform, Healthy}
use oidc_test_idp.Db.{SigningKeyRow, World, ok, new_string}
use oidc_test_idp.Db.Statements.{counted_on, query_lem, exec_lem}
use oidc_test_idp.Storage.Keys.Origin.{KeyRoundTrips, IsGenerated, generator_lem}
use oidc_test_idp.Storage.Keys.{
  KeyLibrary, Made, SigningKey, Keys, active_rows, encode_private_pem, parse_rows,
  load_all_signing_keys, new_row, add_key, store_key, generate_signing_key, key_set,
  rotate_signing_key, is_supported_alg, unmarshalled,
}
use oidc_test_idp.Storage.Keys.Rows.{
  keys-cases, active-put, broken, row_passes, parse_encode, parse_rows-good, parse_rows-bad,
}

module _ {Signer : Type 0} (library : KeyLibrary Signer) (p : Platform) (healthy : Healthy p)
    (trips : KeyRoundTrips library) where
  parse_rows-any :
      (t : Table SigningKeyRow) (ks : List (SigningKey Signer))
      → parse_rows p library t ≡ some ks
      → (q : SigningKey Signer → Bool) → any q ks ≡ any (row_passes library p q) t
  parse_rows-any t ks h q =
      let (ks', f, same) = parse_rows-good library p t (parse_rows-bad library p t ks h) in
      ap (any q) (ground arith) ∙ same q

  load_all_lem :
      (w : World)
      → load_all_signing_keys p library w ≡ (
        unmarshalled (parse_rows p library (library.newest_first (active_rows w.signing_keys))),
        counted_on w,
      )
  unfolding load_all_signing_keys
  load_all_lem w =
      ground (
        arith,
        query_lem p healthy (λ d. some (library.newest_first (active_rows d.signing_keys))) w,
      )

  module _ (made : Made Signer) (signer : Signer) (alg pem : String) (w : World)
      (supported : is_supported_alg alg ≡ true) (generated : IsGenerated made alg signer)
      (encoded : encode_private_pem p library signer ≡ some pem)
      (fresh : get (p.uuid w.ids) w.signing_keys ≡ none) where
    abbrev pub new_key : SigningKey Signer
    new_key = record { id = p.uuid w.ids; algorithm = alg; signer = signer }

    abbrev pub row : SigningKeyRow
    row = new_row p library alg pem (library.datetime_now w.statements)

    abbrev pub stored : World
    stored = record (counted_on w) {
      db = record w.db { signing_keys = put (p.uuid w.ids) row w.signing_keys };
      ids = suc w.ids;
    }

    pub generate_lem : generate_signing_key p library made alg w ≡ (ok new_key, stored)
    unfolding generate_signing_key store_key new_string
    generate_lem = ground (
      arith,
      generator_lem made alg signer supported generated,
      exec_lem p healthy (add_key p library (p.uuid w.ids) row) (record w { ids = suc w.ids }),
      insert-put (p.uuid w.ids) row w.signing_keys fresh,
    )

    rotate_lem :
        (keys : Keys Signer)
        → rotate_signing_key p library keys made alg w ≡ (
          ok (
            p.uuid w.ids,
            record { current = new_key; keys_by_alg = put alg new_key keys.keys_by_alg },
          ),
          stored,
        )
    unfolding rotate_signing_key
    rotate_lem keys = ground (arith, generate_lem)

    -- All rows parse after the rotation if they did before it.
    still_good :
        (ks : List (SigningKey Signer))
        → (load_all_signing_keys p library w).0 ≡ ok ks
        → any (broken library p) (library.newest_first (active_rows stored.signing_keys)) ≡ false
    still_good ks h = ground (
      arith,
      load_all_lem w,
      trips.order (broken library p) (active_rows stored.signing_keys),
      trips.order (broken library p) (active_rows w.signing_keys),
      active-put (broken library p) (p.uuid w.ids) row w.signing_keys fresh,
      parse_encode library p trips signer pem encoded,
      parse_rows-bad library p (library.newest_first (active_rows w.signing_keys)) ks,
    )

    stored_rows :
        (q : String × SigningKeyRow → Bool)
        → any q (library.newest_first (active_rows stored.signing_keys))
          ≡ (any q (active_rows w.signing_keys) || q (p.uuid w.ids, row))
    stored_rows q =
        trips.order q (active_rows stored.signing_keys)
        ∙ active-put q (p.uuid w.ids) row w.signing_keys fresh

    row_passes_lem :
        (q : SigningKey Signer → Bool) → row_passes library p q (p.uuid w.ids, row) ≡ q new_key
    row_passes_lem q = ground (arith, parse_encode library p trips signer pem encoded)

    published :
        (ks : List (SigningKey Signer))
        → (load_all_signing_keys p library w).0 ≡ ok ks
        → (q : SigningKey Signer → Bool)
        → any (row_passes library p q) (library.newest_first (active_rows stored.signing_keys))
          ≡ (any q ks || q new_key)
    published ks h q =
        elim (Option-cases
          (parse_rows p library (library.newest_first (active_rows w.signing_keys)))) [
            | inl e ↦ ground (arith, load_all_lem w)
            | inr (ks', e) ↦
                let same =
                  parse_rows-any (library.newest_first (active_rows w.signing_keys)) ks' e q in
                ground (
                  arith,
                  load_all_lem w,
                  stored_rows (row_passes library p q),
                  row_passes_lem q,
                  trips.order (row_passes library p q) (active_rows w.signing_keys),
                )
          ]

    -- What the key set holds after the rotation.
    shown :
        (keys : Keys Signer) (ks : List (SigningKey Signer))
        → (load_all_signing_keys p library w).0 ≡ ok ks
        → (ks' : List (SigningKey Signer)) × ((key_set p library keys stored).0 ≡ ok ks')
          × ((q : SigningKey Signer → Bool) → any q ks' ≡ (any q ks || q new_key))
    unfolding key_set
    shown keys ks h =
        let (all, f, same) =
          parse_rows-good library p (library.newest_first (active_rows stored.signing_keys))
            (still_good ks h) in
        let exact : ((q : SigningKey Signer → Bool) → any q all ≡ (any q ks || q new_key)) =
          λ q. same q ∙ published ks h q in
        elim (keys-cases all) [
          | inl e ↦ ground (arith, exact (λ k. true))
          | inr (k, rest, e) ↦ (all, ground (arith, load_all_lem stored), exact)
        ]

    -- With a driver that works, a PEM that is read back, and an order of the rows that loses none:
    -- when all stored keys load, rotating to a key that the generator of a supported algorithm
    -- returns and that encodes, under a fresh id, succeeds and makes that key current, and a test
    -- of keys (by id, algorithm and key pair) then holds for one of the published keys exactly if
    -- it holds for one that loaded before or for the new one.
    pub rotate_signing_key-key_set :
        (keys : Keys Signer) (ks : List (SigningKey Signer))
        → (load_all_signing_keys p library w).0 ≡ ok ks
        → (after : Keys Signer) × (ks' : List (SigningKey Signer)) × ((rotate_signing_key p library
              keys made alg w).0
            ≡ ok (p.uuid w.ids, after))
          × (after.current ≡ new_key)
          × ((key_set p library after (rotate_signing_key p library keys made alg w).1).0 ≡ ok ks')
          × ((q : SigningKey Signer → Bool) → any q ks' ≡ (any q ks || q new_key))
    rotate_signing_key-key_set keys ks h =
        let after : Keys Signer = record {
          current = new_key;
          keys_by_alg = put alg new_key keys.keys_by_alg;
        } in
        let (ks', f, same) = shown after ks h in
        (
          after,
          ks',
          ground (arith, rotate_lem keys),
          refl,
          ground (arith, rotate_lem keys, f),
          same,
        )
