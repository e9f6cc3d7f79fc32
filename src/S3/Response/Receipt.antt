-- ===== src/S3/Response/Receipt.antt =====
-- What an accepted receipt says of the selected source.
use storageprims.Prelude.{
  ◌≡◌, ◌≢◌, ◌↔◌, arith, Option, none, some, Bytes, codes, inl, inr, option_eq_iff, bytes_eq_iff,
}
use storageprims.Core.Error.{StorageOperation, Result-cases, ok}
use storageprims.Core.Source.{
  SourceSelector, native_version, validator_match, SourceReceipt, ByteWindow, validate,
}
use storageprims.S3.Response.{
  S3ReceiptEvidence, observed_native_version, check_selector, checked_content_length,
  checked_receipt,
}

-- the response names the selected version, which is not the text `null`, or the selected strong tag
abbrev pub Proves : SourceSelector → Option Bytes → Option Bytes → Type 0
Proves (native_version token) version etag = (version ≡ some token) × (token ≢ codes "null")
Proves (validator_match token) version etag =
    (etag ≡ some token) × (validate (validator_match token) ≡ ok tt)

observed_iff :
    (version : Option Bytes) (token : Bytes)
    → (observed_native_version version ≡ some token)
      ↔ ((version ≡ some token) × (token ≢ codes "null"))
unfolding observed_native_version
observed_iff none token = ground arith
observed_iff (some v) token = ground (arith, bytes_eq_iff v (codes "null"))

check_selector_iff :
    (selector : SourceSelector) (version etag : Option Bytes) (operation : StorageOperation)
    → (check_selector selector (observed_native_version version) etag operation ≡ ok tt)
      ↔ Proves selector version etag
unfolding check_selector
check_selector_iff (native_version token) version etag operation =
    ground
      (arith, observed_iff version token, option_eq_iff (observed_native_version version) token)
check_selector_iff (validator_match token) version none operation =
    ground (arith, option_eq_iff none token)
check_selector_iff (validator_match token) version (some v) operation =
    elim (Result-cases (validate (validator_match v))) [
      | inl (_, e) ↦ ground (arith, e, option_eq_iff (some v) token)
      | inr (x, e) ↦ ground (arith, e, option_eq_iff (some v) token)
    ]

-- A receipt is issued exactly when the response proves the selected source: it carries the selected
-- version, which is not the text `null`, or the selected entity tag, which is strong; the content
-- length is not negative; and the receipt holds what the response carries.
pub checked_receipt_iff :
    (path : Bytes) (selector : SourceSelector) (evidence : S3ReceiptEvidence)
    (requested returned : Option ByteWindow) (operation : StorageOperation) (r : SourceReceipt)
    → (checked_receipt path selector evidence requested returned operation ≡ ok r) ↔ (
        Proves selector evidence.version_id evidence.etag
        × (checked_content_length evidence.content_length operation ≡ ok r.total_size)
        × (r.path ≡ path)
        × (r.native_version ≡ observed_native_version evidence.version_id)
        × (r.validator ≡ evidence.etag)
        × (r.requested_window ≡ requested)
        × (r.returned_window ≡ returned))
unfolding checked_receipt
checked_receipt_iff path selector evidence requested returned operation r =
    let c = check_selector_iff selector evidence.version_id evidence.etag operation in
    elim (Result-cases (
      check_selector selector (observed_native_version evidence.version_id) evidence.etag
        operation)) [
          | inl (_, e) ↦
              elim (Result-cases (checked_content_length evidence.content_length operation)) [
                | inl (n, f) ↦ ground (arith, e, f, c)
                | inr (x, f) ↦ ground (arith, e, f, c)
              ]
          | inr (x, e) ↦ ground (arith, e, c)
        ]
