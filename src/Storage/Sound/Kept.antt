-- ===== src/Storage/Sound/Kept.antt =====
-- Soundness under the changes that single statements make.
use oidc_test_idp.Prelude.{
  String, ◌==◌, eq_iff, ◌≡◌, true, Bool, some, arith, inl, inr, Option-cases,
}
use oidc_test_idp.Table.{
  get, put, insert, delete, update_where, find, find-none, get-put, get-delete,
}
use oidc_test_idp.Table.Unique.{put-HasUnique, delete-HasUnique, update_where-HasUnique}
use oidc_test_idp.Models.{AuthRequest}
use oidc_test_idp.Platform.{Platform, RoundTrips}
use oidc_test_idp.Db.{UserRow, DeviceCodeRow, Db}
use oidc_test_idp.Repo.Users.{put_user}
use oidc_test_idp.Storage.AuthRequests.{request_row}
use oidc_test_idp.Storage.Device.{has_user_code, insert_device}
use oidc_test_idp.Storage.Keys.{is_supported_alg, add_key, new_row, KeyLibrary}
use oidc_test_idp.Storage.Sound.{IsSound}

-- Databases that agree in the four tables that soundness is about.
pub record SameTables (d q : Db) : Type 0 where
  pub codes : q.device_codes ≡ d.device_codes
  pub users : q.users ≡ d.users
  pub requests : q.auth_requests ≡ d.auth_requests
  pub keys : q.signing_keys ≡ d.signing_keys

module _ (p : Platform) where
  pub put_user-IsSound :
      (id : String) (row : UserRow) (d q : Db)
      → put_user id row d ≡ some q
      → IsSound p d
      → IsSound p q
  unfolding put_user
  put_user-IsSound id row d q h s =
      elim (Option-cases (find (λ (r : UserRow). r.username == row.username) (delete id d.users))) [
        | inr (u, e) ↦ ground (arith, e)
        | inl e ↦
            let f : record d { users = put id row d.users } ≡ q = ground (arith, e) in
            rw (← f) (record {
              codes = s.codes;
              names =
                  put-HasUnique (λ (r : UserRow). r.username) id row d.users
                    (λ j r g other same. ground (
                      arith,
                      find-none (λ (u : UserRow). u.username == row.username) j r
                          (delete id d.users) e,
                      get-delete id j d.users,
                      eq_iff id j,
                      eq_iff r.username row.username,
                    ))
                    s.names;
              keyed = s.keyed;
              algorithms = s.algorithms;
            })
      ]

  pub delete_user-IsSound :
      (id : String) (d : Db) → IsSound p d → IsSound p (record d { users = delete id d.users })
  delete_user-IsSound id d s = record {
    codes = s.codes;
    names = delete-HasUnique (λ (r : UserRow). r.username) id d.users s.names;
    keyed = s.keyed;
    algorithms = s.algorithms;
  }

  pub put_request-IsSound :
      RoundTrips p
      → (req : AuthRequest) (data_text : String) (d : Db) → p.marshal_request req ≡ some data_text
      → IsSound p d
      → IsSound p
          (record d { auth_requests = put req.id (request_row p data_text req) d.auth_requests })
  unfolding request_row
  put_request-IsSound trips req data_text d m s = record {
    codes = s.codes;
    names = s.names;
    keyed = λ id row r h e. ground (
      arith,
      get-put req.id id (request_row p data_text req) d.auth_requests,
      trips.request req data_text m,
      eq_iff req.id id,
      s.keyed id row r,
    );
    algorithms = s.algorithms;
  }

  pub delete_request-IsSound :
      (id : String) (d : Db)
      → IsSound p d
      → IsSound p (record d { auth_requests = delete id d.auth_requests })
  delete_request-IsSound id d s = record {
    codes = s.codes;
    names = s.names;
    keyed = λ j row r h e. ground (arith, get-delete id j d.auth_requests, s.keyed j row r);
    algorithms = s.algorithms;
  }

  pub insert_device-IsSound :
      (device_code : String) (row : DeviceCodeRow) (d q : Db)
      → insert_device device_code row d ≡ some q
      → IsSound p d
      → IsSound p q
  unfolding insert_device insert
  insert_device-IsSound device_code row d q h s =
      elim (Option-cases (find (has_user_code row.user_code) d.device_codes)) [
        | inr (u, e) ↦ ground (arith, e)
        | inl e ↦ elim (Option-cases (get device_code d.device_codes)) [
          | inr (u, g) ↦ ground (arith, e, g)
          | inl g ↦
              let f : record d { device_codes = put device_code row d.device_codes } ≡ q =
                ground (arith, e, g) in
              rw (← f) (record {
                codes =
                    put-HasUnique (λ (r : DeviceCodeRow). r.user_code) device_code row
                      d.device_codes
                      (λ j r k other same. ground (
                        arith,
                        find-none (has_user_code row.user_code) j r d.device_codes e k,
                        eq_iff r.user_code row.user_code,
                      ))
                      s.codes;
                names = s.names;
                keyed = s.keyed;
                algorithms = s.algorithms;
              })
        ]
      ]

  pub update_devices-IsSound :
      (c : DeviceCodeRow → Bool) (f : DeviceCodeRow → DeviceCodeRow) (d : Db)
      → ((r : DeviceCodeRow) → (f r).user_code ≡ r.user_code)
      → IsSound p d
      → IsSound p (record d { device_codes = update_where c f d.device_codes })
  update_devices-IsSound c f d same s = record {
    codes =
        update_where-HasUnique (λ (r : DeviceCodeRow). r.user_code) c f d.device_codes same s.codes;
    names = s.names;
    keyed = s.keyed;
    algorithms = s.algorithms;
  }

  pub put_key-IsSound :
      {Signer : Type 0} (library : KeyLibrary Signer) (id alg pem now : String) (d q : Db)
      → is_supported_alg alg ≡ true
      → add_key p library id (new_row p library alg pem now) d ≡ some q
      → IsSound p d
      → IsSound p q
  unfolding insert
  put_key-IsSound library id alg pem now d q supported h s =
      elim (Option-cases (get id d.signing_keys)) [
        | inr (u, e) ↦ ground (arith, e)
        | inl e ↦
            let f : record d {
              signing_keys = put id (new_row p library alg pem now) d.signing_keys;
            }
                ≡ q =
              ground (arith, e) in
            rw (← f) (record {
              codes = s.codes;
              names = s.names;
              keyed = s.keyed;
              algorithms = λ j row g. ground (
                arith,
                get-put id j (new_row p library alg pem now) d.signing_keys,
                s.algorithms j row,
              );
            })
      ]

  -- Another table may change at will.
  pub other_tables-IsSound : (d q : Db) → SameTables d q → IsSound p d → IsSound p q
  other_tables-IsSound d q same s = record {
    codes = rw same.codes s.codes;
    names = rw same.users s.names;
    keyed = rw same.requests s.keyed;
    algorithms = rw same.keys s.algorithms;
  }
