-- ===== src/Tests/Errors.antt =====
-- Errors of the SDK.
use storageprims.Prelude.{◌≡◌, ◌↔◌, refl, true, none, some, codes}
use storageprims.Core.Error.{StorageOperation}
use storageprims.Core.Source.{validator_match}
use storageprims.S3.Errors.{
  SdkError, service_error, must_not_exist, match_token, parse_retry_after_value,
  map_guarded_sdk_error, map_put_error,
}
use storageprims.S3.Errors.Mapped.{
  is_token_mismatch, is_unavailable, is_already_there, RefusesValidator, RefusesPut, IsTransport,
  map_guarded_sdk_error-RefusesValidator, map_put_error-conflicts,
}
use storageprims.Prelude.Decimal.{parse_u64}

abbrev denied : SdkError
denied = service_error (record {
  status = 412;
  retry_after_header = none;
  delete_marker_header = none;
  error_code = some (codes "PreconditionFailed");
})

waits : parse_retry_after_value (codes "after 12, s") ≡ some 12_000_000_000
unfolding parse_retry_after_value parse_u64
waits = refl

map_guarded_sdk_error-RefusesValidator_example :
    (is_token_mismatch (
        map_guarded_sdk_error StorageOperation.guarded_get
          (validator_match (codes "\"v1\""))
          (some (codes "a"))
          none
          denied)
      ≡ true)
    ↔ RefusesValidator (validator_match (codes "\"v1\"")) denied
map_guarded_sdk_error-RefusesValidator_example =
    map_guarded_sdk_error-RefusesValidator StorageOperation.guarded_get
      (validator_match (codes "\"v1\"")) (some (codes "a")) none denied

map_put_error-conflicts_example :
    let mapped = map_put_error (some (codes "a")) none must_not_exist denied in
    ((is_unavailable mapped ≡ true) ↔ IsTransport denied)
    × ((is_already_there mapped ≡ true) ↔ ((must_not_exist ≡ must_not_exist) × RefusesPut denied))
    × ((is_token_mismatch mapped ≡ true) ↔ ((must_not_exist ≡ match_token) × RefusesPut denied))
map_put_error-conflicts_example =
    map_put_error-conflicts (some (codes "a")) none must_not_exist denied
