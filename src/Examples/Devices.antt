-- ===== src/Examples/Devices.antt =====
-- Examples for the device flow.
use oidc_test_idp.Prelude.{◌≡◌, refl, true, false}
use oidc_test_idp.Table.{get}
use oidc_test_idp.Db.{ok}
use oidc_test_idp.Storage.Device.{
  scan_device, get_device_authorizaton_state, complete_device_authorization,
}
use oidc_test_idp.Storage.Device.Flow.{get_state_complete}
use oidc_test_idp.Sample.{sample, sample-Healthy}
use oidc_test_idp.Examples.Fixtures.{devices, device_row}

get_state_complete_example :
    (get_device_authorizaton_state sample false "tv" "dev"
      (complete_device_authorization sample "AB-CD" "alice" devices).1).0
    ≡ ok (record (scan_device sample device_row) { subject = "alice"; done = true })
unfolding get
get_state_complete_example =
    get_state_complete sample sample-Healthy "AB-CD" "alice" "tv" "dev" devices device_row refl refl
