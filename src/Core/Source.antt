-- ===== src/Core/Source.antt =====
-- crates/storageprims-core/src/types.rs: the source-guarded read contract. Selectors, the
-- selection that binds one to a target and a key, and the receipts of guarded responses.
pub mod Selector
use storageprims.Prelude.{
  ℕ, ◌+◌, ◌-◌, Bool, Option, none, some, List, [], ◌∷◌, Bytes, codes, text, String, not, ◌&&◌, ◌||◌,
  length, first, last, slice, all, any, is_empty, leb, ltb, ◌==◌, within, if◌then◌else◌, bytes_eq,
  option_eq, eq_ignore_ascii_case, ◌^◌,
}
use storageprims.Core.Error.{StorageOperation, StorageError, Result, ok, err, refuse, ◌>>=◌, ◌>>◌}

pub data SourceSelector : Type 0 where
  native_version validator_match : (token : Bytes) → SourceSelector

pub invalid_selector : String → String → StorageError
invalid_selector argument reason = StorageError.invalid_argument none (text argument) (text reason)

-- the byte range of the check, and the three bytes that are excluded from it
abbrev pub graphic : ℕ → Bool
graphic = within 0x21 0x7e

abbrev pub separator : ℕ → Bool
separator byte = byte == b'"' || byte == b',' || byte == b'\\'

unfoldable pub validate_native_version : Bytes → Result (Unit {0})
validate_native_version token =
    refuse
      (not (within 1 1024 (length token))
        || not (all graphic token)
        || any separator token
        || eq_ignore_ascii_case token (codes "null")
        || eq_ignore_ascii_case token (codes "\"null\""))
      (invalid_selector "selector.native_version" "native version selector has an invalid format")

-- `*byte == 0x21 || (0x23..=0x7e).contains(byte)`
abbrev pub etag_byte : ℕ → Bool
etag_byte byte = byte == 0x21 || within 0x23 0x7e byte

-- `token.first() == Some(&b'"')`, and the same of `last`
abbrev pub is_quote : Option ℕ → Bool
is_quote none = Bool.false
is_quote (some byte) = byte == b'"'

unfoldable pub validate_strong_etag : Bytes → Result (Unit {0})
validate_strong_etag token =
    refuse
      (not (
        within 3 128 (length token)
        && is_quote (first token)
        && is_quote (last token)
        && all etag_byte (slice 1 (length token - 1) token)))
      (invalid_selector "selector.validator"
        "validator selector must be one strong quoted entity tag")

unfoldable pub validate : SourceSelector → Result (Unit {0})
validate (native_version token) = validate_native_version token
validate (validator_match token) = validate_strong_etag token

abbrev pub selector_token : SourceSelector → Bytes
selector_token (native_version token) = token
selector_token (validator_match token) = token

pub record GuardedReadSelection : Type 0 where
  pub target_identity : Bytes
  pub key : Bytes
  pub selector : SourceSelector

unfoldable pub bind : Bytes → Bytes → SourceSelector → Result GuardedReadSelection
bind target_identity key selector = do
  validate selector
  refuse (is_empty key)
      (StorageError.invalid_argument none (text "key") (text "object key must not be empty"))
  ok (record { target_identity = target_identity; key = key; selector = selector })

unfoldable pub validate_for :
    GuardedReadSelection → Bytes → Bytes → StorageOperation → Result (Unit {0})
validate_for selection target_identity key operation = do
  refuse
      (not (bytes_eq selection.target_identity target_identity) || not (bytes_eq selection.key key))
      (StorageError.invalid_argument (some operation) (text "selection")
        (text "selection is bound to a different configured target or key"))
  validate selection.selector

-- inclusive
pub record ByteWindow : Type 0 where
  pub start : ℕ
  pub end : ℕ

abbrev pub u64_max : ℕ
u64_max = 2 ^ 64 - 1

-- `checked_add` on u64
abbrev pub checked_add : ℕ → ℕ → Option ℕ
checked_add a b = if leb (a + b) u64_max then some (a + b) else none

-- `saturating_add` on u64
abbrev pub saturating_add : ℕ → ℕ → ℕ
saturating_add a b = if leb (a + b) u64_max then a + b else u64_max

-- `end.checked_sub(start)?.checked_add(1)`
unfoldable pub checked_len : ByteWindow → Option ℕ
checked_len w = if ltb w.end w.start then none else checked_add (w.end - w.start) 1

pub record SourceReceipt : Type 0 where
  pub path : Bytes
  pub native_version : Option Bytes
  pub validator : Option Bytes
  pub total_size : Option ℕ
  pub requested_window : Option ByteWindow
  pub returned_window : Option ByteWindow

pub record SourceObservation : Type 0 where
  pub receipt : SourceReceipt
  pub content_type : Option Bytes
  pub last_modified : Option Bytes
  pub metadata : List (Bytes × Bytes)

pub record GuardedRangeRequest : Type 0 where
  pub selection : GuardedReadSelection
  pub offset : ℕ
  pub length : ℕ
