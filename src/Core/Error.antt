-- ===== src/Core/Error.antt =====
-- crates/storageprims-core/src/error.rs and `Capability` of provider.rs. A text is its bytes; a
-- duration is its nanoseconds; the boxed source of `Other` is its message.
use storageprims.Prelude.{ℕ, ◌≡◌, ◌⊎◌, inl, inr, refl, Option, none, some, Bytes, Bool, true, false}

pub data ProviderKind : Type 0 where
  s3 gcs azure_blob local : ProviderKind

pub data StorageOperation : Type 0 where
  list head head_lines tail_lines mid_lines count_lines probe : StorageOperation
  get get_range preview_bytes observe_source : StorageOperation
  guarded_head guarded_get guarded_get_range : StorageOperation
  put delete copy configure_provider parse_uri : StorageOperation

pub data Capability : Type 0 where
  delimiter_listing multipart_upload credential_probe : Capability
  conditional_put guarded_read : Capability

pub data ConflictKind : Type 0 where
  already_exists token_mismatch other : ConflictKind

pub data InspectionKind : Type 0 where
  limit_exceeded encoding_rejected : InspectionKind

pub data InspectionLimitDimension : Type 0 where
  payload_bytes requests output_bytes pending_line_bytes : InspectionLimitDimension
  line_count chunk_size probe_size deadline : InspectionLimitDimension

-- `std::io::ErrorKind`, as far as the program names it
pub data IoErrorKind : Type 0 where
  unexpected_eof invalid_data other : IoErrorKind

pub record IoError : Type 0 where
  pub kind : IoErrorKind
  pub detail : Bytes

pub data StorageError : Type 0 where
  invalid_uri : (uri reason : Bytes) → StorageError
  invalid_argument : (operation : Option StorageOperation) (argument reason : Bytes) → StorageError
  not_found : (provider : ProviderKind) (operation : StorageOperation) (path : Bytes) → StorageError
  container_not_found :
      (provider : ProviderKind) (operation : StorageOperation) (container : Bytes) → StorageError
  access_denied :
      (provider : ProviderKind) (operation : StorageOperation) (target : Option Bytes)
      (detail : Bytes)
      → StorageError
  invalid_credentials : (provider : ProviderKind) (detail : Bytes) → StorageError
  throttled :
      (provider : ProviderKind) (operation : StorageOperation) (retry_after : Option ℕ)
      → StorageError
  provider_unavailable :
      (provider : ProviderKind) (operation : StorageOperation) (detail : Bytes) → StorageError
  unsupported_capability :
      (provider : ProviderKind) (operation : StorageOperation) (capability : Capability)
      → StorageError
  conflict :
      (provider : ProviderKind) (operation : StorageOperation) (target : Option Bytes)
      (kind : ConflictKind) (detail : Bytes)
      → StorageError
  inspection :
      (provider : Option ProviderKind) (operation : StorageOperation) (kind : InspectionKind)
      (limit_dimension : Option InspectionLimitDimension) (configured_limit consumed : ℕ)
      → StorageError
  io : (operation : Option StorageOperation) (source : IoError) → StorageError
  other :
      (provider : Option ProviderKind) (operation : Option StorageOperation) (detail : Bytes)
      (source : Option Bytes)
      → StorageError

pub data StorageErrorCode : Type 0 where
  invalid_uri invalid_argument not_found container_not_found access_denied : StorageErrorCode
  invalid_credentials throttled provider_unavailable unsupported_capability : StorageErrorCode
  conflict io other : StorageErrorCode

unfoldable pub code : StorageError → StorageErrorCode
code (StorageError.invalid_uri _ _) = StorageErrorCode.invalid_uri
code (StorageError.invalid_argument _ _ _) = StorageErrorCode.invalid_argument
code (StorageError.not_found _ _ _) = StorageErrorCode.not_found
code (StorageError.container_not_found _ _ _) = StorageErrorCode.container_not_found
code (StorageError.access_denied _ _ _ _) = StorageErrorCode.access_denied
code (StorageError.invalid_credentials _ _) = StorageErrorCode.invalid_credentials
code (StorageError.throttled _ _ _) = StorageErrorCode.throttled
code (StorageError.provider_unavailable _ _ _) = StorageErrorCode.provider_unavailable
code (StorageError.unsupported_capability _ _ _) = StorageErrorCode.unsupported_capability
code (StorageError.conflict _ _ _ _ _) = StorageErrorCode.conflict
code (StorageError.inspection _ _ _ _ _ _) = StorageErrorCode.other
code (StorageError.io _ _) = StorageErrorCode.io
code (StorageError.other _ _ _ _) = StorageErrorCode.other

-- `Result<T>`
pub data Result {ℓ} (A : Type ℓ) : Type ℓ where
  ok : A → Result A
  err : StorageError → Result A

infixl 5 ◌>>=◌
-- `?` and the code behind it
abbrev pub ◌>>=◌ {ℓ κ} : {T : Type ℓ} {U : Type κ} → Result T → (T → Result U) → Result U
step >>= rest = elim step [ err error ↦ err error | ok value ↦ rest value ]

infixl 5 ◌>>◌
abbrev pub ◌>>◌ {κ} : {U : Type κ} → Result (Unit {0}) → Result U → Result U
check >> rest = check >>= λ _. rest

-- `if failed { return Err(e) }`
abbrev pub refuse : Bool → StorageError → Result (Unit {0})
refuse true e = err e
refuse false e = ok tt

-- `ok_or_else`
abbrev pub ok_or {ℓ} : {A : Type ℓ} → Option A → StorageError → Result A
ok_or none e = err e
ok_or (some a) e = ok a

abbrev pub is_ok {ℓ} : {A : Type ℓ} → Result A → Bool
is_ok (ok a) = true
is_ok (err e) = false

pub Result-cases {ℓ} :
    {A : Type ℓ} (m : Result A) → ((a : A) × (m ≡ ok a)) ⊎ ((e : StorageError) × (m ≡ err e))
Result-cases (ok a) = inl (a, refl)
Result-cases (err e) = inr (e, refl)
