-- ===== src/Tests/S3.antt =====
-- Keys, pages and guarded responses.
use storageprims.Prelude.{
  ◌<◌, ◌≤◌, ◌≡◌, ◌≢◌, ◌↔◌, ◌⊎◌, ℕ, refl, arith, Option, none, some, [], ◌∷◌, ◌++◌, codes, Bytes,
  true, ◌^◌, split_once, bytes_eq,
}
use storageprims.Prelude.Decimal.{parse_u64}
use storageprims.Core.Error.{StorageOperation, ok}
use storageprims.Core.Source.{validator_match, SourceReceipt, ByteWindow, checked_len}
use storageprims.S3.Keys.Normal.{IsNormal, resolve_root_prefix-IsNormal}
use storageprims.S3.Keys.{
  resolve_root_prefix, normalize_prefix, trim_end, resolve_key, resolve_list_prefix,
  strip_root_prefix, trim_start, starts_with_uri_scheme, join_key, list_root_boundary,
}
use storageprims.S3.Keys.Root.{resolve_key-strip_root_prefix, resolve_list_prefix-strip_root_prefix}
use storageprims.S3.Pages.{validate_list_page, validate_delimiter_list_page, delimiter_page_bound}
use storageprims.S3.Pages.Accept.{IsUnder, validate_list_page_iff}
use storageprims.S3.Pages.Delimiter.{IsDelimiterPage, validate_delimiter_list_page_iff}
use storageprims.S3.Response.{
  pos, S3ReceiptEvidence, ParsedContentRange, whole_window, parse_content_range, full_range,
  validate_full_get_response, checked_receipt, checked_content_length, observed_native_version,
  range_window, range_total,
}
use storageprims.S3.Response.Range.{
  IsContentRange, parse_content_range_iff, validate_full_get_response-whole_window,
}
use storageprims.S3.Response.Receipt.{Proves, checked_receipt_iff}

abbrev root : Option Bytes
root = some (codes "r")

not_slashes : trim_start (codes "/a") ≢ []
unfolding trim_start
not_slashes = ground arith

resolves : resolve_key root (codes "/a") ≡ ok (codes "r/a")
unfolding resolve_key join_key trim_start
resolves = refl

resolve_key-strip_root_prefix_example :
    strip_root_prefix root (codes "r/a") ≡ ok (trim_start (codes "/a"))
resolve_key-strip_root_prefix_example =
    resolve_key-strip_root_prefix root (codes "/a") (codes "r/a") not_slashes resolves

-- A key of slashes only is not refused, and resolves to the root itself, which is outside the
-- boundary of a listing.
slash_resolves : resolve_key root (codes "/") ≡ ok (codes "r")
unfolding resolve_key join_key trim_start
slash_resolves = refl

-- without a root it resolves to the empty key
slash_is_empty : resolve_key none (codes "/") ≡ ok []
unfolding resolve_key join_key trim_start
slash_is_empty = refl

lists : resolve_list_prefix root (some (codes "a/")) ≡ ok (some (codes "r/a/"))
unfolding resolve_list_prefix list_root_boundary starts_with_uri_scheme
lists = refl

resolve_list_prefix-strip_root_prefix_example :
    strip_root_prefix root (codes "r/a/" ++ codes "x") ≡ ok (codes "a/" ++ codes "x")
resolve_list_prefix-strip_root_prefix_example =
    resolve_list_prefix-strip_root_prefix root (some (codes "a/")) (some (codes "r/a/")) (codes "x")
      lists

validate_list_page_iff_example :
    (validate_list_page root (some (codes "r/a") ∷ some (codes "r/") ∷ []) ≡ ok tt)
    ↔ IsUnder root (some (codes "r/a") ∷ some (codes "r/") ∷ [])
validate_list_page_iff_example =
    validate_list_page_iff (codes "r") (some (codes "r/a") ∷ some (codes "r/") ∷ [])

fits : delimiter_page_bound (some 5) < 2 ^ 32
unfolding delimiter_page_bound
fits = omega arith

validate_delimiter_list_page_iff_example :
    (validate_delimiter_list_page root
        (codes "a/")
        (some 5)
        (some (codes "r/a/x") ∷ [])
        (some (codes "r/a/b/") ∷ [])
        true
        (some (codes "t"))
      ≡ ok tt)
    ↔ IsDelimiterPage root
        (codes "a/")
        (delimiter_page_bound (some 5))
        (some (codes "r/a/x") ∷ [])
        (some (codes "r/a/b/") ∷ [])
        true
        (some (codes "t"))
validate_delimiter_list_page_iff_example =
    validate_delimiter_list_page_iff root (codes "a/") (some 5) (some (codes "r/a/x") ∷ [])
      (some (codes "r/a/b/") ∷ []) true (some (codes "t")) fits

normalizes : resolve_root_prefix (codes "/a/b/") none ≡ ok (some (codes "a/b"))
unfolding resolve_root_prefix normalize_prefix trim_start trim_end
normalizes = refl

resolve_root_prefix-IsNormal_example : IsNormal (codes "a/b")
resolve_root_prefix-IsNormal_example =
    resolve_root_prefix-IsNormal (codes "/a/b/") none (codes "a/b") normalizes

abbrev range : ParsedContentRange
range = record { window = record { start = 0; end = 4 }; total_size = some 5 }

parse_content_range_iff_example :
    (parse_content_range (some (codes "bytes 0-4/5")) StorageOperation.guarded_get ≡ ok range)
    ↔ IsContentRange (codes "bytes 0-4/5") range
parse_content_range_iff_example =
    parse_content_range_iff (codes "bytes 0-4/5") range StorageOperation.guarded_get

full :
    validate_full_get_response 200 (some (codes "bytes 0-4/5")) (some 5)
    ≡ ok (some (record { start = 0; end = 4 }))
unfolding validate_full_get_response full_range parse_content_range range_window range_total
    parse_u64 checked_len split_once bytes_eq
full = refl

validate_full_get_response-whole_window_example :
    (◌≡◌ {A = ℕ} 200 200)
    × (some (record { start = 0; end = 4 }) ≡ whole_window (some 5))
    × ((some (codes "bytes 0-4/5") ≡ none) ⊎ ((n : ℕ) × (some 5 ≡ some n) × (1 ≤ n)))
validate_full_get_response-whole_window_example =
    validate_full_get_response-whole_window 200 (some (codes "bytes 0-4/5")) (some 5)
      (some (record { start = 0; end = 4 })) full

abbrev tag : Bytes
tag = codes "\"e\""

abbrev evidence : S3ReceiptEvidence
evidence = record {
  version_id = some (codes "null");
  etag = some tag;
  content_length = some (pos 5);
}

abbrev issued : SourceReceipt
issued = record {
  path = codes "k";
  native_version = none;
  validator = some tag;
  total_size = some 5;
  requested_window = none;
  returned_window = none;
}

checked_receipt_iff_example :
    (checked_receipt
        (codes "k")
        (validator_match tag)
        evidence
        none
        none
        StorageOperation.guarded_head
      ≡ ok issued)
    ↔ (Proves (validator_match tag) (some (codes "null")) (some tag)
        × (checked_content_length (some (pos 5)) StorageOperation.guarded_head ≡ ok (some 5))
        × (codes "k" ≡ codes "k")
        × (none ≡ observed_native_version (some (codes "null")))
        × (some tag ≡ some tag)
        × (◌≡◌ {A = Option ByteWindow} none none)
        × (◌≡◌ {A = Option ByteWindow} none none))
checked_receipt_iff_example =
    checked_receipt_iff (codes "k") (validator_match tag) evidence none none
      StorageOperation.guarded_head issued
