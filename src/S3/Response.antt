-- ===== src/S3/Response.antt =====
-- crates/storageprims-s3/src/lib.rs: the checks of guarded responses. A header is its optional
-- text; `content_length` is the SDK's signed number.
pub mod Range
pub mod Receipt
use storageprims.Prelude.{
  ℕ, ◌-◌, Bool, Option, none, some, Bytes, codes, text, String, not, ◌||◌, leb, ltb, ◌==◌,
  if◌then◌else◌, bytes_eq, option_eq, strip_prefix, split_once,
}
use storageprims.Prelude.Decimal.{parse_u64}
use storageprims.Core.Error.{
  StorageOperation, IoErrorKind, StorageError, Result, is_ok, ok, err, refuse, ok_or, ◌>>=◌, ◌>>◌,
}
use storageprims.Core.Source.{
  SourceSelector, native_version, validator_match, SourceReceipt, ByteWindow, validate, checked_len,
}

pub data ℤ : Type 0 where
  pos negsuc : ℕ → ℤ

-- `observed_native_version`
unfoldable pub observed_native_version : Option Bytes → Option Bytes
observed_native_version none = none
observed_native_version (some value) = if bytes_eq value (codes "null") then none else some value

unfoldable pub invalid_response : StorageOperation → String → StorageError
invalid_response operation detail =
    StorageError.io (some operation)
      (record { kind = IoErrorKind.invalid_data; detail = text detail })

unfoldable pub checked_content_length : Option ℤ → StorageOperation → Result (Option ℕ)
checked_content_length none operation = ok none
checked_content_length (some (ℤ.pos length)) operation = ok (some length)
checked_content_length (some (ℤ.negsuc _)) operation =
    err (invalid_response operation "response contains an invalid content length")

pub record S3ReceiptEvidence : Type 0 where
  pub version_id : Option Bytes
  pub etag : Option Bytes
  pub content_length : Option ℤ

-- `validator.as_ref().is_some_and(…)`
abbrev strong_response : Option Bytes → Bool
strong_response none = Bool.false
strong_response (some value) = is_ok (validate (validator_match value))

-- the match on the selector
unfoldable pub check_selector :
    SourceSelector → Option Bytes → Option Bytes → StorageOperation → Result (Unit {0})
check_selector (native_version token) version validator operation =
    refuse (not (option_eq version token))
      (invalid_response operation "response native version does not match the selected source")
check_selector (validator_match token) version validator operation =
    refuse (not (strong_response validator) || not (option_eq validator token))
      (invalid_response operation "response validator does not match the selected source")

unfoldable pub checked_receipt :
    Bytes
    → SourceSelector
    → S3ReceiptEvidence
    → Option ByteWindow
    → Option ByteWindow
    → StorageOperation
    → Result SourceReceipt
checked_receipt path selector evidence requested_window returned_window operation = do
  check_selector selector (observed_native_version evidence.version_id) evidence.etag operation
  total_size ← checked_content_length evidence.content_length operation
  ok (record {
    path = path;
    native_version = observed_native_version evidence.version_id;
    validator = evidence.etag;
    total_size = total_size;
    requested_window = requested_window;
    returned_window = returned_window;
  })

pub record ParsedContentRange : Type 0 where
  pub window : ByteWindow
  pub total_size : Option ℕ

-- `strip_prefix("bytes ").and_then(|value| value.split_once('/'))`
abbrev pub fields_of : Option Bytes → Option (Bytes × Bytes)
fields_of none = none
fields_of (some value) = split_once b'/' value

abbrev invalid_range : StorageOperation → StorageError
invalid_range operation = invalid_response operation "range response has an invalid content range"

unfoldable pub range_total : Bytes → ℕ → StorageOperation → Result (Option ℕ)
range_total total end operation = if bytes_eq total (codes "*") then ok none else (do
  total_size ← ok_or (parse_u64 total) (invalid_range operation)
  refuse (total_size == 0 || leb total_size end) (invalid_range operation)
  ok (some total_size))

unfoldable pub range_window : Bytes → StorageOperation → Result ByteWindow
range_window window operation = do
  (start_text, end_text) ← ok_or (split_once b'-' window) (invalid_range operation)
  start ← ok_or (parse_u64 start_text) (invalid_range operation)
  end ← ok_or (parse_u64 end_text) (invalid_range operation)
  refuse (ltb end start) (invalid_range operation)
  ok (record { start = start; end = end })

unfoldable pub parse_content_range : Option Bytes → StorageOperation → Result ParsedContentRange
parse_content_range header operation = do
  value ← ok_or header (invalid_response operation "range response is missing content range")
  (window_text, total) ←
      ok_or (fields_of (strip_prefix (codes "bytes ") value)) (invalid_range operation)
  window ← range_window window_text operation
  total_size ← range_total total window.end operation
  ok (record { window = window; total_size = total_size })

-- `content_length.filter(|length| *length > 0).map(…)`
abbrev pub whole_window : Option ℕ → Option ByteWindow
whole_window none = none
whole_window (some length) =
    if length == 0 then none else some (record { start = 0; end = length - 1 })

-- `a != Some(b)`
abbrev is_not : Option ℕ → ℕ → Bool
is_not none b = Bool.true
is_not (some a) b = not (a == b)

-- the case that there is a content range
unfoldable pub full_range : Bytes → Option ℕ → Result (Option ByteWindow)
full_range content_range content_length = do
  parsed ← parse_content_range (some content_range) StorageOperation.guarded_get
  returned_length ←
      ok_or (checked_len parsed.window)
        (invalid_response StorageOperation.guarded_get "full response window length overflows u64")
  refuse
      (not (parsed.window.start == 0)
        || is_not parsed.total_size returned_length
        || is_not content_length returned_length)
      (invalid_response StorageOperation.guarded_get
        "full response content range does not describe the entire object")
  ok (some parsed.window)

abbrev full_window : Option Bytes → Option ℕ → Result (Option ByteWindow)
full_window none content_length = ok (whole_window content_length)
full_window (some content_range) content_length = full_range content_range content_length

unfoldable pub validate_full_get_response : ℕ → Option Bytes → Option ℕ → Result (Option ByteWindow)
validate_full_get_response status content_range content_length = do
  refuse (not (status == 200)) (
      invalid_response StorageOperation.guarded_get
        "full guarded read received a partial or unexpected successful status")
  full_window content_range content_length
