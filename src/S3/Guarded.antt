-- ===== src/S3/Guarded.antt =====
-- crates/storageprims-s3/src/lib.rs: the guarded reads of the provider, over a client of the SDK
-- that is a parameter. A step of the client takes a request and a world.
pub mod Range
use storageprims.Prelude.{
  ℕ, ◌-◌, min, Bool, Option, none, some, List, [], ◌++◌, Bytes, codes, text, not, leb, ◌==◌, ◌&&◌,
  ◌||◌, if◌then◌else◌,
}
use storageprims.Prelude.Decimal.{display}
use storageprims.Core.Error.{
  ProviderKind, StorageOperation, StorageError, Result, ok, err, refuse, ok_or, ◌>>=◌, ◌>>◌,
}
use storageprims.Core.Config.{sanitize_endpoint}
use storageprims.Core.Source.{
  SourceSelector, native_version, validator_match, GuardedReadSelection, SourceReceipt,
  SourceObservation, ByteWindow, GuardedRangeRequest, validate_for, checked_add, checked_len,
}
use storageprims.Ops.Provider.{GuardedReadResponse}
use storageprims.S3.Errors.{SdkError, map_sdk_error, map_guarded_sdk_error, selected_not_found}
use storageprims.S3.Keys.{resolve_key}
use storageprims.S3.Response.{
  ℤ, pos, negsuc, observed_native_version, invalid_response, checked_content_length,
  S3ReceiptEvidence, checked_receipt, ParsedContentRange, parse_content_range,
  validate_full_get_response,
}
use storageprims.S3.Stream.{DeclaredLengthRead, new_declared}

-- what the reads use of the provider
pub record S3Provider : Type 0 where
  pub bucket : Bytes
  pub root_prefix : Option Bytes
  pub endpoint : Option Bytes

pub record ObjectRequest : Type 0 where
  pub bucket : Bytes
  pub key : Bytes
  pub version_id : Option Bytes
  pub if_match : Option Bytes
  pub range : Option Bytes

pub record HeadResponse : Type 0 where
  pub delete_marker : Option Bool
  pub version_id : Option Bytes
  pub e_tag : Option Bytes
  pub content_length : Option ℤ
  pub content_type : Option Bytes
  pub last_modified : Option Bytes
  pub metadata : Option (List (Bytes × Bytes))

-- `status` is what the interceptor recorded
pub record GetResponse (B : Type 0) : Type 0 where
  pub status : Option ℕ
  pub delete_marker : Option Bool
  pub version_id : Option Bytes
  pub e_tag : Option Bytes
  pub content_length : Option ℤ
  pub content_range : Option Bytes
  pub body : B

pub data Sent (A : Type 0) : Type 0 where
  answer : A → Sent A
  failure : SdkError → Sent A

pub record Client (W B : Type 0) : Type 0 where
  pub head_object : ObjectRequest → W → Sent HeadResponse × W
  pub get_object : ObjectRequest → W → Sent (GetResponse B) × W

abbrev identity_endpoint : Option Bytes → Bytes
identity_endpoint none = codes "aws"
identity_endpoint (some endpoint) = sanitize_endpoint endpoint

abbrev or_empty : Option Bytes → Bytes
or_empty none = []
or_empty (some value) = value

unfoldable pub guarded_target_identity : S3Provider → Bytes
guarded_target_identity s =
    codes "s3|"
    ++ identity_endpoint s.endpoint
    ++ codes "|"
    ++ s.bucket
    ++ codes "|"
    ++ or_empty s.root_prefix

abbrev pub object_request : S3Provider → Bytes → Option Bytes → ObjectRequest
object_request s key range = record {
  bucket = s.bucket;
  key = key;
  version_id = none;
  if_match = none;
  range = range;
}

-- `apply_head_selector` and `apply_get_selector`
unfoldable pub apply_selector : ObjectRequest → SourceSelector → ObjectRequest
apply_selector request (native_version token) = record request { version_id = some token }
apply_selector request (validator_match token) = record request { if_match = some token }

-- `delete_marker().unwrap_or(false)`
abbrev is_marker : Option Bool → Bool
is_marker none = Bool.false
is_marker (some marker) = marker

-- `map_err(…)?` on what the client sent
abbrev pub received : {A : Type 0} → (SdkError → StorageError) → Sent A → Result A
received on_failure (answer response) = ok response
received on_failure (failure error) = err (on_failure error)

-- a check of the arguments, and what follows
abbrev pub checked : {W A B : Type 0} → Result A → (A → W → Result B × W) → W → Result B × W
checked (err e) step w = (err e, w)
checked (ok a) step w = step a w

-- the guards before a request, and what is made of its outcome
abbrev pub requested :
    {W A B : Type 0}
    → Result Bytes
    → (Bytes → W → A × W)
    → (Bytes → A → Result B)
    → W
    → Result B × W
requested (err e) send finish w = (err e, w)
requested (ok key) send finish w = let (sent, v) = send key w in (finish key sent, v)

abbrev head_evidence : HeadResponse → S3ReceiptEvidence
head_evidence r = record {
  version_id = r.version_id;
  etag = r.e_tag;
  content_length = r.content_length;
}

abbrev pub get_evidence : {B : Type 0} → GetResponse B → S3ReceiptEvidence
get_evidence r = record {
  version_id = r.version_id;
  etag = r.e_tag;
  content_length = r.content_length;
}

-- `and_then(|size| u64::try_from(size).ok())`
abbrev size_of : Option ℤ → Option ℕ
size_of (some (pos size)) = some size
size_of _ = none

abbrev or_none : Option (List (Bytes × Bytes)) → List (Bytes × Bytes)
or_none none = []
or_none (some values) = values

-- the end that a range of an object of that size has
unfoldable pub range_end : ℕ → ℕ → Option ℕ → Result ℕ
range_end offset requested_end none = ok requested_end
range_end offset requested_end (some total) =
    if leb total offset
    then err (
        StorageError.invalid_argument (some StorageOperation.guarded_get_range) (text "offset")
          (text "range begins at or beyond the end of the object"))
    else ok (min requested_end (total - 1))

-- `total_size == Some(returned_length)`
abbrev pub is_total : Option ℕ → ℕ → Bool
is_total none n = Bool.false
is_total (some total) n = total == n

-- The checks of a range response up to its content length, which they return. The window is the
-- expected one when the status is looked at, so that test is not repeated.
unfoldable pub check_range : ℕ → ℕ → ℕ → ParsedContentRange → Option ℤ → Result ℕ
check_range offset requested_end status returned content_length = do
  expected_end ← range_end offset requested_end returned.total_size
  refuse (not (returned.window.start == offset) || not (returned.window.end == expected_end)) (
      invalid_response StorageOperation.guarded_get_range
        "response range does not match the requested window")
  returned_length ← ok_or (checked_len returned.window) (
      invalid_response StorageOperation.guarded_get_range
        "range response window length overflows u64")
  refuse
      (status == 200
        && not (returned.window.start == 0 && is_total returned.total_size returned_length))
      (invalid_response StorageOperation.guarded_get_range
        "full-status range response does not prove the entire requested object")
  refuse (not (status == 200) && not (status == 206)) (
      invalid_response StorageOperation.guarded_get_range
        "range response has an unexpected successful status")
  declared ← checked_content_length content_length StorageOperation.guarded_get_range
  length ← ok_or declared (
      invalid_response StorageOperation.guarded_get_range
        "range response is missing content length")
  refuse (not (length == returned_length)) (
      invalid_response StorageOperation.guarded_get_range
        "range response content length does not match content range")
  ok length

-- the checks of the request, which return its last byte
unfoldable pub request_end : ℕ → ℕ → Result ℕ
request_end offset length = do
  refuse (length == 0) (
      StorageError.invalid_argument (some StorageOperation.guarded_get_range) (text "length")
        (text "range length must be greater than zero"))
  ok_or (checked_add offset (length - 1)) (
      StorageError.invalid_argument (some StorageOperation.guarded_get_range) (text "length")
        (text "requested range overflows u64"))

abbrev pub present : StorageOperation → Bytes → Option Bool → Result (Unit {0})
present operation key marker = refuse (is_marker marker) (selected_not_found operation key)

abbrev pub range_text : ℕ → ℕ → Bytes
range_text offset requested_end =
    codes "bytes=" ++ display offset ++ codes "-" ++ display requested_end

module _ (s : S3Provider) where
  -- the resolved key of a selection that is bound here
  unfoldable pub bound_key : GuardedReadSelection → StorageOperation → Result Bytes
  bound_key selection operation = do
    validate_for selection (guarded_target_identity s) selection.key operation
    resolve_key s.root_prefix selection.key

  abbrev guarded_failure : StorageOperation → SourceSelector → Bytes → SdkError → StorageError
  guarded_failure operation selector key error =
      map_guarded_sdk_error operation selector (some key) (some s.bucket) error

  unfoldable pub observed : Bytes → Bytes → Sent HeadResponse → Result SourceObservation
  observed key resolved sent = do
    response ←
        received
          (map_sdk_error ProviderKind.s3 StorageOperation.observe_source (some resolved)
            (some s.bucket))
          sent
    present StorageOperation.observe_source key response.delete_marker
    ok (record {
      receipt = record {
        path = key;
        native_version = observed_native_version response.version_id;
        validator = response.e_tag;
        total_size = size_of response.content_length;
        requested_window = none;
        returned_window = none;
      };
      content_type = response.content_type;
      last_modified = response.last_modified;
      metadata = or_none response.metadata;
    })

  unfoldable pub observe_source :
      {W B : Type 0} → Client W B → Bytes → W → Result SourceObservation × W
  observe_source client key =
      requested (resolve_key s.root_prefix key)
        (λ resolved. client.head_object (object_request s resolved none)) (observed key)

  unfoldable pub head_receipt :
      GuardedReadSelection → Bytes → Sent HeadResponse → Result SourceReceipt
  head_receipt selection resolved sent = do
    response ←
        received (guarded_failure StorageOperation.guarded_head selection.selector resolved) sent
    present StorageOperation.guarded_head selection.key response.delete_marker
    checked_receipt selection.key selection.selector (head_evidence response) none none
        StorageOperation.guarded_head

  unfoldable pub guarded_head :
      {W B : Type 0} → Client W B → GuardedReadSelection → W → Result SourceReceipt × W
  guarded_head client selection =
      requested (bound_key selection StorageOperation.guarded_head)
        (λ resolved.
          client.head_object (apply_selector (object_request s resolved none) selection.selector))
        (head_receipt selection)

  unfoldable pub full_response :
      {B : Type 0}
      → GuardedReadSelection
      → Bytes
      → Sent (GetResponse B)
      → Result (GuardedReadResponse (DeclaredLengthRead B))
  full_response selection resolved sent = do
    response ←
        received (guarded_failure StorageOperation.guarded_get selection.selector resolved) sent
    present StorageOperation.guarded_get selection.key response.delete_marker
    content_length ← checked_content_length response.content_length StorageOperation.guarded_get
    status ←
        ok_or response.status
          (invalid_response StorageOperation.guarded_get "full response status was not available")
    window ← validate_full_get_response status response.content_range content_length
    receipt ←
        checked_receipt selection.key selection.selector (get_evidence response) none window
          StorageOperation.guarded_get
    ok (record { receipt = receipt; reader = new_declared response.body content_length })

  unfoldable pub guarded_get :
      {W B : Type 0}
      → Client W B
      → GuardedReadSelection
      → W
      → Result (GuardedReadResponse (DeclaredLengthRead B)) × W
  guarded_get client selection =
      requested (bound_key selection StorageOperation.guarded_get)
        (λ resolved.
          client.get_object (apply_selector (object_request s resolved none) selection.selector))
        (full_response selection)

  -- the receipt of a range and its reader, from the response
  unfoldable pub range_answer :
      {B : Type 0}
      → GuardedRangeRequest
      → ℕ
      → ℕ
      → GetResponse B
      → Result (GuardedReadResponse (DeclaredLengthRead B))
  range_answer request requested_end status response = do
    returned ← parse_content_range response.content_range StorageOperation.guarded_get_range
    content_length ←
        check_range request.offset requested_end status returned response.content_length
    receipt ←
        checked_receipt request.selection.key request.selection.selector (get_evidence response)
          (some (record { start = request.offset; end = requested_end })) (some returned.window)
          StorageOperation.guarded_get_range
    ok (record {
      receipt = record receipt { total_size = returned.total_size };
      reader = new_declared response.body (some content_length);
    })

  unfoldable pub range_response :
      {B : Type 0}
      → GuardedRangeRequest
      → ℕ
      → Bytes
      → Sent (GetResponse B)
      → Result (GuardedReadResponse (DeclaredLengthRead B))
  range_response request requested_end resolved sent = do
    response ←
        received
          (guarded_failure StorageOperation.guarded_get_range request.selection.selector resolved)
          sent
    status ← ok_or response.status (
        invalid_response StorageOperation.guarded_get_range
          "range response status was not available")
    present StorageOperation.guarded_get_range request.selection.key response.delete_marker
    range_answer request requested_end status response

  -- the key is resolved once the request is checked; the range is the request's
  unfoldable pub guarded_get_range :
      {W B : Type 0}
      → Client W B
      → GuardedRangeRequest
      → W
      → Result (GuardedReadResponse (DeclaredLengthRead B)) × W
  guarded_get_range client request =
      checked (request_end request.offset request.length) λ requested_end.
        requested (bound_key request.selection StorageOperation.guarded_get_range)
          (λ resolved. client.get_object (
            apply_selector
              (object_request s resolved (some (range_text request.offset requested_end)))
              request.selection.selector))
          (range_response request requested_end)
