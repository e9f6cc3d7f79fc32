-- ===== src/S3/Keys.antt =====
-- crates/storageprims-s3/src/lib.rs: keys under a configured root prefix, and the checks of the
-- arguments of a listing. Texts are compared by bytes, since every separator is ASCII.
pub mod Root
pub mod Normal
use storageprims.Prelude.{
  ℕ, ◌^◌, Bool, Option, none, some, [], ◌∷◌, ◌++◌, Bytes, codes, text, String, ◌&&◌, ◌||◌, length,
  all, any, is_empty, is_some, leb, ltb, ◌==◌, within, if◌then◌else◌, strip_prefix,
}
use storageprims.Core.Error.{
  ProviderKind, StorageOperation, StorageError, Result, ok, err, refuse, ◌>>◌,
}

-- `starts_with(prefix)`, the prefix first
abbrev pub starts_with : Bytes → Bytes → Bool
starts_with prefix s = is_some (strip_prefix prefix s)

-- `trim_start_matches('/')`
unfoldable pub trim_start : Bytes → Bytes
trim_start [] = []
trim_start (c ∷ s) = if c == b'/' then trim_start s else c ∷ s

abbrev pub trim_last : ℕ → Bytes → Bytes
trim_last c s = if c == b'/' && is_empty s then [] else c ∷ s

-- `trim_end_matches('/')`
unfoldable pub trim_end : Bytes → Bytes
trim_end [] = []
trim_end (c ∷ s) = trim_last c (trim_end s)

-- `filter(|value| !value.is_empty())`
abbrev pub non_empty : Option Bytes → Option Bytes
non_empty none = none
non_empty (some []) = none
non_empty (some (c ∷ s)) = some (c ∷ s)

unfoldable pub normalize_prefix : Option Bytes → Option Bytes
normalize_prefix none = none
normalize_prefix (some value) = non_empty (some (trim_end (trim_start value)))

-- `configured_root.or(uri_root)`, in the case that at most one of them is there
abbrev pub one_root : Option Bytes → Option Bytes → Result (Option Bytes)
one_root (some _) (some _) = err (
    StorageError.invalid_argument (some StorageOperation.configure_provider)
      (text "target.root_prefix") (text "URI path and configured root prefix cannot both be set"))
one_root uri_root none = ok uri_root
one_root none configured_root = ok configured_root

unfoldable pub resolve_root_prefix : Bytes → Option Bytes → Result (Option Bytes)
resolve_root_prefix uri_path configured_root =
    one_root (normalize_prefix (some uri_path)) (normalize_prefix configured_root)

abbrev pub with_slash : Option Bytes → Option Bytes
with_slash none = none
with_slash (some root) = some (root ++ b'/' ∷ [])

unfoldable pub list_root_boundary : Option Bytes → Option Bytes
list_root_boundary root_prefix = with_slash (non_empty root_prefix)

-- `split_once("://")`, its first part
abbrev scheme_of : Bytes → Option Bytes
scheme_of [] = none
scheme_of (c ∷ s) =
    if starts_with (codes "://") (c ∷ s)
    then some []
    else elim (scheme_of s) [ none ↦ none | some scheme ↦ some (c ∷ scheme) ]

abbrev is_ascii_alphabetic : ℕ → Bool
is_ascii_alphabetic c = within b'A' b'Z' c || within b'a' b'z' c

abbrev scheme_char : ℕ → Bool
scheme_char c = is_ascii_alphabetic c || within b'0' b'9' c || c == b'+' || c == b'-' || c == b'.'

abbrev is_scheme : Option Bytes → Bool
is_scheme none = Bool.false
is_scheme (some []) = Bool.false
is_scheme (some (c ∷ s)) = is_ascii_alphabetic c && all scheme_char s

unfoldable pub starts_with_uri_scheme : Bytes → Bool
starts_with_uri_scheme value = is_scheme (scheme_of value)

-- the guard of `resolve_list_prefix` on the caller's prefix
abbrev pub is_absolute : Option Bytes → Bool
is_absolute none = Bool.false
is_absolute (some prefix) = starts_with (codes "/") prefix || starts_with_uri_scheme prefix

abbrev joined_prefix : Option Bytes → Option Bytes → Option Bytes
joined_prefix (some boundary) (some prefix) = some (boundary ++ prefix)
joined_prefix (some boundary) none = some boundary
joined_prefix none (some prefix) = some prefix
joined_prefix none none = none

unfoldable pub resolve_list_prefix : Option Bytes → Option Bytes → Result (Option Bytes)
resolve_list_prefix root_prefix caller_prefix = do
  refuse (is_absolute caller_prefix) (
      StorageError.invalid_argument (some StorageOperation.list) (text "prefix")
        (text "list prefix must be provider-relative"))
  ok (joined_prefix (list_root_boundary root_prefix) (non_empty caller_prefix))

abbrev pub list_error : String → StorageError
list_error detail =
    StorageError.other (some ProviderKind.s3) (some StorageOperation.list) (text detail) none

abbrev pub stripped : Option Bytes → Result Bytes
stripped none = err (list_error "S3 returned an object outside the configured list boundary")
stripped (some key) = ok key

abbrev strip_boundary : Option Bytes → Bytes → Result Bytes
strip_boundary none key = ok key
strip_boundary (some boundary) key = stripped (strip_prefix boundary key)

unfoldable pub strip_root_prefix : Option Bytes → Bytes → Result Bytes
strip_root_prefix root_prefix key = strip_boundary (list_root_boundary root_prefix) key

-- `join_key` on the trimmed key
abbrev pub joined_key : Option Bytes → Bytes → Bytes
joined_key none key = key
joined_key (some []) key = key
joined_key (some (c ∷ root)) [] = c ∷ root
joined_key (some (c ∷ root)) (k ∷ key) = (c ∷ root) ++ b'/' ∷ k ∷ key

unfoldable pub join_key : Option Bytes → Bytes → Bytes
join_key root_prefix key = joined_key root_prefix (trim_start key)

unfoldable pub resolve_key : Option Bytes → Bytes → Result Bytes
resolve_key root_prefix key = do
  refuse (is_empty key)
      (StorageError.invalid_argument none (text "key") (text "object key must not be empty"))
  ok (join_key root_prefix key)

abbrev invalid_list : String → String → StorageError
invalid_list argument reason =
    StorageError.invalid_argument (some StorageOperation.list) (text argument) (text reason)

-- `i32::try_from`
unfoldable pub normalize_max_keys : Option ℕ → Result (Option ℕ)
normalize_max_keys none = ok none
normalize_max_keys (some value) =
    if value == 0
    then ok none
    else if ltb value (2 ^ 31)
    then ok (some value)
    else err (invalid_list "max_keys" "value exceeds the S3 request limit")

-- `*byte <= 0x1f || *byte == 0x7f`
abbrev pub is_control : ℕ → Bool
is_control byte = leb byte 0x1f || byte == 0x7f

unfoldable pub validate_delimiter : Bytes → Result (Unit {0})
validate_delimiter delimiter =
    refuse (is_empty delimiter || ltb 1024 (length delimiter) || any is_control delimiter) (
      invalid_list "delimiter" "delimiter must be 1..=1024 bytes and contain no control characters")

abbrev pub bad_token : Option Bytes → Bool
bad_token none = Bool.false
bad_token (some value) = is_empty value || ltb 8192 (length value)

unfoldable pub validate_continuation_token : Option Bytes → Result (Unit {0})
validate_continuation_token token =
    refuse (bad_token token)
      (invalid_list "continuation_token" "continuation token must be 1..=8192 bytes when present")
