-- ===== src/S3/Pages.antt =====
-- crates/storageprims-s3/src/lib.rs: the checks on a page that a listing returns. An entry is the
-- optional key of an object, or the optional common prefix. The `HashSet` of the projected objects
-- is the list of them in the order of insertion; a `usize` has 64 bits.
pub mod Accept
pub mod Rows
pub mod Delimiter
use storageprims.Prelude.{
  ℕ, Bool, Option, none, some, List, [], ◌∷◌, ◌++◌, Bytes, not, any, is_empty, is_some, ltb, ◌==◌,
  if◌then◌else◌, bytes_eq,
}
use storageprims.Core.Error.{Result, ok, refuse, ok_or, ◌>>=◌, ◌>>◌}
use storageprims.Core.Source.{checked_add}
use storageprims.S3.Keys.{starts_with, strip_root_prefix, list_error, bad_token}

abbrev pub Entries : Type 0
Entries = List (Option Bytes)

unfoldable pub listed : Option Bytes → Entries → Result (Unit {0})
listed root_prefix [] = ok tt
listed root_prefix (entry ∷ keys) = do
  key ← ok_or entry (list_error "S3 returned a list entry without an object key")
  _ ← strip_root_prefix root_prefix key
  listed root_prefix keys

unfoldable pub validate_list_page : Option Bytes → Entries → Result (Unit {0})
validate_list_page none keys = ok tt
validate_list_page (some root) keys = listed (some root) keys

abbrev pub default_max_keys : ℕ
default_max_keys = 1000

unfoldable pub delimiter_page_bound : Option ℕ → ℕ
delimiter_page_bound none = default_max_keys
delimiter_page_bound (some value) = if value == 0 then default_max_keys else value

-- the row counter at one more row
unfoldable pub next_row : ℕ → ℕ → Result ℕ
next_row page_bound row_count = do
  next ← ok_or (checked_add row_count 1) (list_error "S3 returned an oversized delimiter page")
  refuse (ltb page_bound next) (list_error "S3 returned more delimiter-page rows than requested")
  ok next

unfoldable pub project_object : Option Bytes → Bytes → Option Bytes → Result Bytes
project_object root_prefix caller_prefix entry = do
  key ← ok_or entry (list_error "S3 returned a delimiter page entry without an object key")
  projected ← strip_root_prefix root_prefix key
  refuse (not (starts_with caller_prefix projected))
      (list_error "S3 returned an object outside the requested delimiter prefix")
  ok projected

-- the loop over the objects, on the row counter and the projected objects so far
unfoldable pub visit_objects :
    Option Bytes → Bytes → ℕ → ℕ → List Bytes → Entries → Result (ℕ × List Bytes)
visit_objects root_prefix caller_prefix page_bound row_count projected_objects [] =
    ok (row_count, projected_objects)
visit_objects root_prefix caller_prefix page_bound row_count projected_objects (entry ∷ keys) = do
  next ← next_row page_bound row_count
  projected ← project_object root_prefix caller_prefix entry
  visit_objects root_prefix caller_prefix page_bound next (projected_objects ++ projected ∷ []) keys

unfoldable pub check_prefix : Option Bytes → Bytes → List Bytes → Option Bytes → Result (Unit {0})
check_prefix root_prefix caller_prefix projected_objects entry = do
  prefix ← ok_or entry (list_error "S3 returned a delimiter page entry without a common prefix")
  projected ← strip_root_prefix root_prefix prefix
  refuse (is_empty projected) (list_error "S3 returned an empty projected common prefix")
  refuse (not (starts_with caller_prefix projected))
      (list_error "S3 returned a common prefix outside the requested delimiter prefix")
  refuse (any (bytes_eq projected) projected_objects)
      (list_error "S3 returned the same path as an object and common prefix")

-- the loop over the common prefixes
unfoldable pub visit_prefixes :
    Option Bytes → Bytes → ℕ → ℕ → List Bytes → Entries → Result (Unit {0})
visit_prefixes root_prefix caller_prefix page_bound row_count projected_objects [] = ok tt
visit_prefixes root_prefix caller_prefix page_bound row_count projected_objects (entry ∷ prefixes) =
    do
      next ← next_row page_bound row_count
      check_prefix root_prefix caller_prefix projected_objects entry
      visit_prefixes root_prefix caller_prefix page_bound next projected_objects prefixes

-- `is_truncated != continuation_token.is_some()`
abbrev pub mismatch : Bool → Bool → Bool
mismatch Bool.true b = not b
mismatch Bool.false b = b

unfoldable pub validate_delimiter_list_page :
    (root_prefix : Option Bytes) (caller_prefix : Bytes) (max_keys : Option ℕ)
    (object_keys common_prefixes : Entries) (is_truncated : Bool) (token : Option Bytes)
    → Result (Unit {0})
validate_delimiter_list_page root_prefix caller_prefix max_keys object_keys common_prefixes
      is_truncated token =
    do
      refuse (mismatch is_truncated (is_some token))
          (list_error "S3 returned an inconsistent delimiter-listing continuation pair")
      refuse (bad_token token)
          (list_error "S3 returned an invalid delimiter-listing continuation token")
      (rows, projected) ←
          visit_objects root_prefix caller_prefix (delimiter_page_bound max_keys) 0 [] object_keys
      visit_prefixes root_prefix caller_prefix (delimiter_page_bound max_keys) rows projected
          common_prefixes
