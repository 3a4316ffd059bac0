-- ===== src/Storage/Device/Flow.antt =====
-- The device flow: user codes are unique, and a code goes from pending to done or denied.
use oidc_test_idp.Prelude.{
  ℕ, String, ◌==◌, eq_iff, ◌≡◌, ◌≢◌, refl, false, true, none, some, List, arith, if◌then◌else◌, pos,
}
use oidc_test_idp.Table.Unique.{HasUnique, put-HasUnique, update_where-HasUnique}
use oidc_test_idp.Table.{
  Table, get, put, find, update_where, get-update_where, insert-put, find-none,
}
use oidc_test_idp.Platform.{Platform, Healthy}
use oidc_test_idp.Db.{
  DeviceCodeRow, ClientRow, World, client_not_found, duplicate_user_code, device_code_not_found, ok,
  err,
}
use oidc_test_idp.Db.Statements.{counted_on, query_lem, exec_lem}
use oidc_test_idp.Repo.Clients.Runs.{get_client_lem}
use oidc_test_idp.Storage.Device.{
  has_user_code, scan_device, pending_row, insert_device, user_code_exists,
  store_device_authorization, get_device_authorizaton_state, complete_device_authorization,
  deny_device_authorization,
}

-- Two rows with one user code are one row.
abbrev pub HasUniqueCodes : Table DeviceCodeRow → Type 0
HasUniqueCodes = HasUnique (λ (r : DeviceCodeRow). r.user_code)

put_code-HasUniqueCodes :
    (k : String) (row : DeviceCodeRow) (t : Table DeviceCodeRow)
    → find (has_user_code row.user_code) t ≡ none
    → HasUniqueCodes t
    → HasUniqueCodes (put k row t)
put_code-HasUniqueCodes k row t free unique =
    put-HasUnique (λ (r : DeviceCodeRow). r.user_code) k row t
      (λ j r h other same. ground (
        arith,
        find-none (has_user_code row.user_code) j r t free h,
        eq_iff r.user_code row.user_code,
      ))
      unique

module _ (p : Platform) (healthy : Healthy p) where
  module _ (client_id device_code user_code : String) (expires : ℕ) (scopes : List String)
      (w : World) where
    -- An unknown client, a user code that is in use, and a new one: what happens to each.
    pub store_unknown_client :
        get client_id w.clients ≡ none
        → (store_device_authorization p client_id device_code user_code expires scopes w)
          ≡ (err client_not_found, counted_on w)
    unfolding store_device_authorization
    store_unknown_client h = ground (arith, get_client_lem p healthy client_id w)

    pub store_duplicate :
        (c : ClientRow) (found : String × DeviceCodeRow)
        → get client_id w.clients ≡ some c
        → find (has_user_code user_code) w.device_codes ≡ some found
        → (store_device_authorization p client_id device_code user_code expires scopes w)
          ≡ (err duplicate_user_code, counted_on (counted_on w))
    unfolding store_device_authorization user_code_exists
    store_duplicate c found h e = ground (
      arith,
      get_client_lem p healthy client_id w,
      query_lem p healthy (λ d. some (user_code_exists user_code d)) (counted_on w),
    )

    module _ (c : ClientRow) (known : get client_id w.clients ≡ some c)
        (fresh_user : find (has_user_code user_code) w.device_codes ≡ none)
        (fresh_device : get device_code w.device_codes ≡ none) where
      pub store_lem :
          store_device_authorization p client_id device_code user_code expires scopes w ≡ (
            ok tt,
            record (counted_on (counted_on (counted_on w))) {
              db = record w.db {
                device_codes =
                    put device_code
                      (pending_row p client_id user_code expires scopes)
                      w.device_codes;
              };
            },
          )
      unfolding store_device_authorization user_code_exists insert_device pending_row
      store_lem = ground (
        arith,
        get_client_lem p healthy client_id w,
        query_lem p healthy (λ d. some (user_code_exists user_code d)) (counted_on w),
        exec_lem p healthy
            (insert_device device_code (pending_row p client_id user_code expires scopes))
            (counted_on (counted_on w)),
        insert-put device_code (pending_row p client_id user_code expires scopes) w.device_codes
            fresh_device,
      )

      -- While the driver works, storing a device authorization of a stored client under fresh
      -- codes keeps the user codes unique.
      store-HasUniqueCodes :
          HasUniqueCodes w.device_codes
          → HasUniqueCodes
              (store_device_authorization p client_id device_code user_code expires scopes
                w).1.device_codes
      unfolding pending_row
      store-HasUniqueCodes unique = rw store_lem (
          put_code-HasUniqueCodes device_code (pending_row p client_id user_code expires scopes)
            w.device_codes fresh_user unique)

  complete_lem :
      (user_code subject : String) (w : World)
      → complete_device_authorization p user_code subject w ≡ (
        ok tt,
        record (counted_on w) {
          db = record w.db {
            device_codes =
                update_where
                  (has_user_code user_code)
                  (λ r. record r { subject = subject; done = pos 1 })
                  w.device_codes;
          };
        },
      )
  unfolding complete_device_authorization
  complete_lem user_code subject w = simp (exec_lem p healthy)

  deny_lem :
      (user_code : String) (w : World)
      → deny_device_authorization p user_code w ≡ (
        ok tt,
        record (counted_on w) {
          db = record w.db {
            device_codes =
                update_where
                  (has_user_code user_code)
                  (λ r. record r { denied = pos 1 })
                  w.device_codes;
          };
        },
      )
  unfolding deny_device_authorization
  deny_lem user_code w = simp (exec_lem p healthy)

  -- While the driver works, approving a user code keeps the user codes unique.
  complete-HasUniqueCodes :
      (user_code subject : String) (w : World)
      → HasUniqueCodes w.device_codes
      → HasUniqueCodes (complete_device_authorization p user_code subject w).1.device_codes
  complete-HasUniqueCodes user_code subject w unique = rw (complete_lem user_code subject w) (
      update_where-HasUnique (λ (r : DeviceCodeRow). r.user_code) (has_user_code user_code)
        (λ r. record r { subject = subject; done = pos 1 }) w.device_codes (λ r. refl) unique)

  -- While the driver works, denying a user code keeps the user codes unique.
  deny-HasUniqueCodes :
      (user_code : String) (w : World)
      → HasUniqueCodes w.device_codes
      → HasUniqueCodes (deny_device_authorization p user_code w).1.device_codes
  deny-HasUniqueCodes user_code w unique = rw (deny_lem user_code w) (
      update_where-HasUnique (λ (r : DeviceCodeRow). r.user_code) (has_user_code user_code)
        (λ r. record r { denied = pos 1 }) w.device_codes (λ r. refl) unique)

  get_state_lem :
      (client_id device_code : String) (w : World) (row : DeviceCodeRow)
      → get device_code w.device_codes ≡ some row
      → (get_device_authorizaton_state p false client_id device_code w).0
        ≡ (if row.client_id == client_id then ok (scan_device p row) else err device_code_not_found)
  unfolding get_device_authorizaton_state
  get_state_lem client_id device_code w row h =
      ground (arith, query_lem p healthy (λ d. get device_code d.device_codes) w)

  -- While the driver works, approving a user code makes the state that the device of that code
  -- polls done, with the subject, and otherwise as before, the denied flag included; the state of
  -- any other stored device does not change.
  pub get_state_complete :
      (user_code subject client_id device_code : String) (w : World) (row : DeviceCodeRow)
      → get device_code w.device_codes ≡ some row
      → row.client_id ≡ client_id
      → (get_device_authorizaton_state p false client_id device_code
          (complete_device_authorization p user_code subject w).1).0
        ≡ ok (
            if row.user_code == user_code
            then record (scan_device p row) { subject = subject; done = true }
            else scan_device p row)
  unfolding scan_device
  get_state_complete user_code subject client_id device_code w row h mine = ground (
    arith,
    complete_lem user_code subject w,
    get-update_where (has_user_code user_code) (λ r. record r { subject = subject; done = pos 1 })
        device_code w.device_codes,
    get_state_lem client_id device_code (complete_device_authorization p user_code subject w).1 (
        if row.user_code == user_code then record row { subject = subject; done = pos 1 } else row),
    eq_iff row.client_id client_id,
  )

  -- While the driver works, denying a user code sets the denied flag of the state that the device
  -- of that code polls, and nothing else: a device that was approved before stays done; the state
  -- of any other stored device does not change.
  get_state_deny :
      (user_code client_id device_code : String) (w : World) (row : DeviceCodeRow)
      → get device_code w.device_codes ≡ some row
      → row.client_id ≡ client_id
      → (get_device_authorizaton_state p false client_id device_code
          (deny_device_authorization p user_code w).1).0
        ≡ ok (
            if row.user_code == user_code
            then record (scan_device p row) { denied = true }
            else scan_device p row)
  unfolding scan_device
  get_state_deny user_code client_id device_code w row h mine = ground (
    arith,
    deny_lem user_code w,
    get-update_where (has_user_code user_code) (λ r. record r { denied = pos 1 }) device_code
        w.device_codes,
    get_state_lem client_id device_code (deny_device_authorization p user_code w).1
        (if row.user_code == user_code then record row { denied = pos 1 } else row),
    eq_iff row.client_id client_id,
  )

  -- While the driver works, a client other than the one of a stored device code gets the error for
  -- an unknown code.
  get_state_foreign :
      (client_id device_code : String) (w : World) (row : DeviceCodeRow)
      → get device_code w.device_codes ≡ some row
      → row.client_id ≢ client_id
      → (get_device_authorizaton_state p false client_id device_code w).0
        ≡ err device_code_not_found
  get_state_foreign client_id device_code w row h theirs =
      ground (arith, get_state_lem client_id device_code w row, eq_iff row.client_id client_id)
