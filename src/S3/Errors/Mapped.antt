-- ===== src/S3/Errors/Mapped.antt =====
-- What a mapped error says of the response.
use storageprims.Prelude.{
  ◌≡◌, ◌≢◌, ◌↔◌, ◌⊎◌, refl, arith, Bool, true, false, Option, [], ◌∷◌, Bytes, ◌==◌, ◌&&◌,
}
use storageprims.Core.Error.{ProviderKind, StorageOperation, ConflictKind, StorageError}
use storageprims.Core.Source.{SourceSelector, native_version, validator_match}
use storageprims.S3.Response.{invalid_response}
use storageprims.S3.Errors.{
  ServiceError, SdkError, service_error, timeout_error, dispatch_failure, response_error,
  other_error, construction_failure, PutPreconditionKind, must_not_exist, match_token, is_one_of,
  service_code, delete_marker, map_sdk_error, map_guarded_sdk_error, map_put_error,
  selected_not_found,
}

abbrev pub is_token_mismatch : StorageError → Bool
is_token_mismatch (StorageError.conflict _ _ _ ConflictKind.token_mismatch _) = true
is_token_mismatch _ = false

-- the service refused the precondition of a selected validator
abbrev Refuses : ServiceError → Type 0
Refuses c =
    (c.status ≢ 304)
    × (c.status ≢ 416)
    × (c.status ≢ 403)
    × ((c.status == 405 && delete_marker c) ≡ false)
    × ((c.status ≡ 412) ⊎ (is_one_of (service_code c) ("PreconditionFailed" ∷ []) ≡ true))

abbrev pub RefusesValidator : SourceSelector → SdkError → Type 0
RefusesValidator (validator_match _) (service_error c) = Refuses c
RefusesValidator _ _ = ⊥

map_sdk_error-mismatch :
    (provider : ProviderKind) (operation : StorageOperation) (target container : Option Bytes)
    (error : SdkError)
    → is_token_mismatch (map_sdk_error provider operation target container error) ≡ false
unfolding map_sdk_error
map_sdk_error-mismatch provider operation target container (service_error c) = ground arith
map_sdk_error-mismatch provider operation target container timeout_error = refl
map_sdk_error-mismatch provider operation target container dispatch_failure = refl
map_sdk_error-mismatch provider operation target container response_error = refl
map_sdk_error-mismatch provider operation target container other_error = refl
map_sdk_error-mismatch provider operation target container (construction_failure d) = refl

-- A guarded read reports a token mismatch exactly when a validator was selected and the service
-- answered 412 or `PreconditionFailed`, with none of the statuses that decide before the code: 304, 405 of
-- a delete marker, 416 and 403. A native version is never reported as a mismatch.
pub map_guarded_sdk_error-RefusesValidator :
    (operation : StorageOperation) (selector : SourceSelector) (target container : Option Bytes)
    (error : SdkError)
    → (is_token_mismatch (map_guarded_sdk_error operation selector target container error) ≡ true)
      ↔ RefusesValidator selector error
unfolding map_guarded_sdk_error invalid_response selected_not_found
map_guarded_sdk_error-RefusesValidator operation (validator_match t) target container
      (service_error c) =
    ground
      (arith, map_sdk_error-mismatch ProviderKind.s3 operation target container (service_error c))
map_guarded_sdk_error-RefusesValidator operation (native_version t) target container
      (service_error c) =
    ground
      (arith, map_sdk_error-mismatch ProviderKind.s3 operation target container (service_error c))
map_guarded_sdk_error-RefusesValidator operation selector target container error =
    ground (arith, map_sdk_error-mismatch ProviderKind.s3 operation target container error)

abbrev pub is_unavailable : StorageError → Bool
is_unavailable (StorageError.provider_unavailable _ _ _) = true
is_unavailable _ = false

abbrev pub is_already_there : StorageError → Bool
is_already_there (StorageError.conflict _ _ _ ConflictKind.already_exists _) = true
is_already_there _ = false

-- the request may have reached the service
abbrev pub IsTransport : SdkError → Type 0
IsTransport timeout_error = Unit {0}
IsTransport dispatch_failure = Unit {0}
IsTransport response_error = Unit {0}
IsTransport _ = ⊥

-- the service refused the precondition
abbrev pub RefusesPut : SdkError → Type 0
RefusesPut (service_error c) = is_one_of (service_code c) ("PreconditionFailed" ∷ []) ≡ true
RefusesPut _ = ⊥

-- A put is reported as unavailable, its outcome unknown, exactly when the transport failed; as a target that
-- is already there exactly when the service refused the condition that it must not exist; and as
-- a token mismatch exactly when the service refused the condition that a token matches.
pub map_put_error-conflicts :
    (target container : Option Bytes) (precondition : PutPreconditionKind) (error : SdkError)
    → let mapped = map_put_error target container precondition error in
      ((is_unavailable mapped ≡ true) ↔ IsTransport error)
      × ((is_already_there mapped ≡ true) ↔ ((precondition ≡ must_not_exist) × RefusesPut error))
      × ((is_token_mismatch mapped ≡ true) ↔ ((precondition ≡ match_token) × RefusesPut error))
unfolding map_put_error
map_put_error-conflicts target container PutPreconditionKind.unconditional (service_error c) =
    ground arith
map_put_error-conflicts target container must_not_exist (service_error c) = ground arith
map_put_error-conflicts target container match_token (service_error c) = ground arith
map_put_error-conflicts target container precondition timeout_error = ground arith
map_put_error-conflicts target container precondition dispatch_failure = ground arith
map_put_error-conflicts target container precondition response_error = ground arith
map_put_error-conflicts target container precondition other_error = ground arith
map_put_error-conflicts target container precondition (construction_failure d) = ground arith
