-- ===== src/S3/Errors.antt =====
-- crates/storageprims-s3/src/lib.rs: how the errors of the SDK become those of the library. Of an
-- SDK error the mapping reads the kind and, of a service error, the status, two headers and the
-- code.
pub mod Mapped
use storageprims.Prelude.{
  ℕ, ◌*◌, Bool, Option, none, some, List, [], ◌∷◌, Bytes, codes, text, String, within, bytes_eq,
  eq_ignore_ascii_case, is_empty, any, not, map, ◌==◌, ◌&&◌, ◌||◌, if◌then◌else◌,
}
use storageprims.Prelude.Decimal.{parse_u64}
use storageprims.Core.Error.{ProviderKind, StorageOperation, ConflictKind, StorageError}
use storageprims.Core.Source.{SourceSelector, native_version, validator_match}
use storageprims.S3.Response.{invalid_response}

pub record ServiceError : Type 0 where
  pub status : ℕ
  pub retry_after_header : Option Bytes
  pub delete_marker_header : Option Bytes
  pub error_code : Option Bytes

-- `other_error` stands for the kinds that the mapping does not name
pub data SdkError : Type 0 where
  service_error : ServiceError → SdkError
  timeout_error dispatch_failure response_error other_error : SdkError
  construction_failure : (detail : Bytes) → SdkError

pub data PutPreconditionKind : Type 0 where
  unconditional must_not_exist match_token : PutPreconditionKind

-- one pattern of a match on a code, which is a list of texts
abbrev pub is_one_of : Bytes → List String → Bool
is_one_of value names = any (λ (name : String). bytes_eq value (codes name)) names

-- `unwrap_or_default` on a text
abbrev pub or_empty : Option Bytes → Bytes
or_empty none = []
or_empty (some value) = value

abbrev pub is_digit : ℕ → Bool
is_digit c = within b'0' b'9' c

-- the digits in front
abbrev pub digits_front : Bytes → Bytes
digits_front [] = []
digits_front (c ∷ s) = let rest = digits_front s in if is_digit c then c ∷ rest else []

-- the first part that is not empty, of the parts between other bytes than digits
abbrev pub first_number : Bytes → Option Bytes
first_number [] = none
first_number (c ∷ s) =
    let rest = first_number s in if is_digit c then some (c ∷ digits_front s) else rest

abbrev seconds : Option ℕ → Option ℕ
seconds none = none
seconds (some n) = some (n * 1_000_000_000)

abbrev parsed : Option Bytes → Option ℕ
parsed none = none
parsed (some s) = parse_u64 s

-- in nanoseconds
unfoldable pub parse_retry_after_value : Bytes → Option ℕ
parse_retry_after_value value = seconds (parsed (first_number value))

abbrev pub retry_after : ServiceError → Option ℕ
retry_after context = elim context.retry_after_header [
  | none ↦ none
  | some value ↦ parse_retry_after_value value
]

-- `context.err().code().unwrap_or_default()`
abbrev pub service_code : ServiceError → Bytes
service_code context = or_empty context.error_code

unfoldable pub selected_not_found : StorageOperation → Bytes → StorageError
selected_not_found operation key = StorageError.not_found ProviderKind.s3 operation key

module _ (provider : ProviderKind) (operation : StorageOperation)
    (target container : Option Bytes) where
  abbrev pub map_service_error : ServiceError → StorageError
  map_service_error context =
      let code = service_code context in
      if is_one_of code ("NoSuchKey" ∷ "NotFound" ∷ [])
      then StorageError.not_found provider operation (or_empty target)
      else if is_one_of code ("NoSuchBucket" ∷ [])
      then StorageError.container_not_found provider operation (or_empty container)
      else if is_one_of code ("AccessDenied" ∷ [])
      then StorageError.access_denied provider operation target (text "access denied")
      else if is_one_of code ("InvalidAccessKeyId" ∷ "SignatureDoesNotMatch" ∷ "ExpiredToken" ∷ [])
      then StorageError.invalid_credentials provider code
      else if is_one_of code ("SlowDown" ∷ "Throttling" ∷ "TooManyRequestsException" ∷ [])
      then StorageError.throttled provider operation (retry_after context)
      else if is_one_of code ("PreconditionFailed" ∷ "ConditionalRequestConflict" ∷ [])
      then StorageError.conflict provider operation target ConflictKind.other code
      else if is_one_of code ("InvalidRequest" ∷ "InvalidWriteOffset" ∷ [])
      then StorageError.invalid_argument (some operation) (or_empty target) code
      else StorageError.other (some provider) (some operation) (text "S3 request failed") none

  unfoldable pub map_sdk_error : SdkError → StorageError
  map_sdk_error (service_error context) = map_service_error context
  map_sdk_error timeout_error =
      StorageError.provider_unavailable provider operation (text "S3 request transport failed")
  map_sdk_error dispatch_failure =
      StorageError.provider_unavailable provider operation (text "S3 request transport failed")
  map_sdk_error response_error =
      StorageError.provider_unavailable provider operation (text "S3 response transport failed")
  map_sdk_error (construction_failure detail) =
      StorageError.invalid_argument (some operation) (or_empty target) detail
  map_sdk_error other_error =
      StorageError.other (some provider) (some operation) (text "S3 request failed") none

-- the error code is one of a continuation token that is refused
abbrev refuses_token : SdkError → Bool
refuses_token (service_error context) =
    is_one_of (service_code context) ("InvalidArgument" ∷ "InvalidRequest" ∷ "InvalidToken" ∷ [])
refuses_token _ = Bool.false

unfoldable pub map_delimiter_list_error : SdkError → Bool → StorageError
map_delimiter_list_error error has_continuation =
    if has_continuation && refuses_token error
    then StorageError.invalid_argument (some StorageOperation.list) (text "continuation_token")
        (text "provider rejected the continuation token")
    else map_sdk_error ProviderKind.s3 StorageOperation.list none none error

-- `matches!(selector, SourceSelector::ValidatorMatch { .. })`
abbrev pub is_validator : SourceSelector → Bool
is_validator (native_version _) = Bool.false
is_validator (validator_match _) = Bool.true

abbrev pub delete_marker : ServiceError → Bool
delete_marker context = elim context.delete_marker_header [
  | none ↦ Bool.false
  | some value ↦ eq_ignore_ascii_case value (codes "true")
]

module _ (operation : StorageOperation) (selector : SourceSelector)
    (target container : Option Bytes) where
  abbrev pub validator_mismatch : StorageError
  validator_mismatch =
      StorageError.conflict ProviderKind.s3 operation target ConflictKind.token_mismatch
        (text "source validator did not match")

  abbrev pub outside_object : StorageError
  outside_object =
      StorageError.invalid_argument (some operation) (text "offset")
        (text "requested range is outside the object")

  -- the match on the code, where the status decides nothing
  abbrev map_guarded_code : ServiceError → StorageError
  map_guarded_code context =
      let code = service_code context in
      if is_one_of code ("PreconditionFailed" ∷ []) && is_validator selector
      then validator_mismatch
      else if is_one_of code ("NoSuchVersion" ∷ [])
      then selected_not_found operation (or_empty target)
      else if is_one_of code ("InvalidRange" ∷ "RequestedRangeNotSatisfiable" ∷ [])
      then outside_object
      else map_sdk_error ProviderKind.s3 operation target container (service_error context)

  unfoldable pub map_guarded_sdk_error : SdkError → StorageError
  map_guarded_sdk_error (service_error context) =
      if context.status == 304
      then invalid_response operation "guarded read received an unexpected not-modified response"
      else if context.status == 405 && delete_marker context
      then selected_not_found operation (or_empty target)
      else if context.status == 412 && is_validator selector
      then validator_mismatch
      else if context.status == 416
      then outside_object
      else if context.status == 403
      then StorageError.access_denied ProviderKind.s3 operation target (text "access denied")
      else map_guarded_code context
  map_guarded_sdk_error error = map_sdk_error ProviderKind.s3 operation target container error

abbrev pub conflict_kind : PutPreconditionKind → ConflictKind
conflict_kind must_not_exist = ConflictKind.already_exists
conflict_kind match_token = ConflictKind.token_mismatch
conflict_kind unconditional = ConflictKind.other

module _ (target container : Option Bytes) where
  abbrev put_conflict : ConflictKind → String → StorageError
  put_conflict kind detail =
      StorageError.conflict ProviderKind.s3 StorageOperation.put target kind (text detail)

  abbrev put_other : Bytes → StorageError
  put_other detail =
      StorageError.other (some ProviderKind.s3) (some StorageOperation.put) detail none

  abbrev map_put_service_error : PutPreconditionKind → ServiceError → StorageError
  map_put_service_error precondition context =
      let code = service_code context in
      if is_one_of code ("PreconditionFailed" ∷ [])
      then put_conflict (conflict_kind precondition) "precondition failed"
      else if is_one_of code ("ConditionalRequestConflict" ∷ [])
      then put_conflict ConflictKind.other "conditional request conflict"
      else if is_one_of code ("NoSuchKey" ∷ "NotFound" ∷ [])
      then StorageError.not_found ProviderKind.s3 StorageOperation.put (or_empty target)
      else if is_one_of code ("NoSuchBucket" ∷ [])
      then StorageError.container_not_found ProviderKind.s3 StorageOperation.put
          (or_empty container)
      else if is_one_of code ("AccessDenied" ∷ [])
      then StorageError.access_denied ProviderKind.s3 StorageOperation.put target
          (text "access denied")
      else if is_one_of code ("InvalidAccessKeyId" ∷ "SignatureDoesNotMatch" ∷ "ExpiredToken" ∷ [])
      then StorageError.invalid_credentials ProviderKind.s3 code
      else if is_one_of code ("SlowDown" ∷ "Throttling" ∷ "TooManyRequestsException" ∷ [])
      then StorageError.throttled ProviderKind.s3 StorageOperation.put (retry_after context)
      else if is_one_of code ("InvalidRequest" ∷ "InvalidWriteOffset" ∷ [])
      then StorageError.invalid_argument (some StorageOperation.put) (or_empty target) code
      else put_other (if is_empty code then text "S3 put failed" else code)

  abbrev put_outcome_unknown : StorageError
  put_outcome_unknown =
      StorageError.provider_unavailable ProviderKind.s3 StorageOperation.put
        (text "S3 put request outcome is unknown")

  unfoldable pub map_put_error : PutPreconditionKind → SdkError → StorageError
  map_put_error precondition (service_error context) = map_put_service_error precondition context
  map_put_error precondition timeout_error = put_outcome_unknown
  map_put_error precondition dispatch_failure = put_outcome_unknown
  map_put_error precondition response_error = put_outcome_unknown
  map_put_error precondition (construction_failure detail) =
      StorageError.invalid_argument (some StorageOperation.put) (or_empty target)
        (text "failed to construct S3 put request")
  map_put_error precondition other_error = put_other (text "S3 put failed")
