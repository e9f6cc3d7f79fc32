-- ===== src/Ops/Align.antt =====
-- crates/storageprims-ops/src/lib.rs: the boundaries of lines in a byte buffer, the test for binary
-- content, and the result that is built of parsed lines.
pub mod Boundary
pub mod Window
pub mod Binary
use storageprims.Prelude.{
  ℕ, zero, suc, ◌+◌, Bool, Option, none, some, List, [], ◌∷◌, ◌++◌, map, Bytes, codes, length, drop,
  first, get_elem?, bytes_eq, ◌&&◌, is_empty, is_some, any, leb, ltb, ◌==◌, ◌||◌, not,
  if◌then◌else◌, strip_prefix,
}
use storageprims.Prelude.Utf8.{from_utf8, has_error_len}
use storageprims.Core.Error.{
  ProviderKind, StorageOperation, StorageError, Result, ok, err, refuse, ◌>>=◌, ◌>>◌,
}
use storageprims.Ops.Lines.{
  LineEnding, ParsedLine, lf, cr_lf, cr, mixed, unknown, LineOpsError, line_ops_error, is_newline,
}

-- the loop of `next_line_boundary` at `index`, on the bytes from there
unfoldable pub boundary_from : ℕ → Bytes → Option ℕ
boundary_from index [] = none
boundary_from index (c ∷ rest) =
    if c == b'\n'
    then some (index + 1)
    else if c == b'\r'
    then (if is_newline (first rest) then some (index + 2) else some (index + 1))
    else boundary_from (index + 1) rest

unfoldable pub next_line_boundary : Bytes → ℕ → Option ℕ
next_line_boundary bytes start = boundary_from start (drop start bytes)

unfoldable pub first_full_line_start : Bytes → Bool → Option ℕ
first_full_line_start bytes boundary_before_start =
    if boundary_before_start then some 0 else next_line_boundary bytes 0

unfoldable pub slice_starts_on_line_boundary : Option ℕ → Option ℕ → Bool
slice_starts_on_line_boundary none first_byte = Bool.true
slice_starts_on_line_boundary (some c) first_byte =
    if c == b'\n' then Bool.true else if c == b'\r' then not (is_newline first_byte) else Bool.false

-- the match on the byte at the midpoint
abbrev aligned : Bytes → ℕ → Option ℕ → Option ℕ
aligned bytes midpoint none = none
aligned bytes midpoint (some c) =
    if c == b'\n'
    then some (midpoint + 1)
    else if c == b'\r'
    then (if is_newline (get_elem? bytes (midpoint + 1))
        then some (midpoint + 2)
        else some (midpoint + 1))
    else next_line_boundary bytes midpoint

-- a `usize` has 64 bits, so the conversion of the midpoint succeeds
unfoldable pub midpoint_alignment : Bytes → ℕ → Option ℕ
midpoint_alignment bytes midpoint =
    if leb (length bytes) midpoint then none else aligned bytes midpoint (get_elem? bytes midpoint)

-- the set of the endings, in the order of insertion
abbrev ending_code : LineEnding → ℕ
ending_code lf = 0
ending_code cr_lf = 1
ending_code cr = 2
ending_code mixed = 3
ending_code unknown = 4

abbrev insert : LineEnding → List LineEnding → List LineEnding
insert e set = if any (λ d. ending_code d == ending_code e) set then set else set ++ e ∷ []

abbrev collect : List LineEnding → List LineEnding → List LineEnding
collect set [] = set
collect set (e ∷ endings) = collect (insert e set) endings

abbrev only : List LineEnding → LineEnding
only [] = unknown
only (e ∷ []) = e
only (e ∷ _ ∷ _) = mixed

unfoldable pub aggregate_line_endings : List LineEnding → LineEnding
aggregate_line_endings endings = only (collect [] endings)

pub data ReadStrategy : Type 0 where
  range_backward range_midpoint forward_stream : ReadStrategy

pub record LineResult : Type 0 where
  pub lines : List Bytes
  pub byte_offset_start : ℕ
  pub byte_offset_end : ℕ
  pub total_size : ℕ
  pub strategy : ReadStrategy
  pub line_ending : LineEnding

unfoldable pub empty_result : ReadStrategy → ℕ → LineResult
empty_result strategy total_size = record {
  lines = [];
  byte_offset_start = 0;
  byte_offset_end = 0;
  total_size = total_size;
  strategy = strategy;
  line_ending = unknown;
}

-- `filter_map(|line| line.ending)`
abbrev endings_of : List ParsedLine → List LineEnding
endings_of [] = []
endings_of (line ∷ lines) = elim line.ending [
  | none ↦ endings_of lines
  | some e ↦ e ∷ endings_of lines
]

abbrev end_of : ParsedLine → List ParsedLine → ℕ
end_of line [] = line.end
end_of line (next ∷ lines) = end_of next lines

unfoldable pub build_line_result : List ParsedLine → ℕ → ReadStrategy → LineResult
build_line_result [] total_size strategy = empty_result strategy total_size
build_line_result (line ∷ lines) total_size strategy = record {
  lines = map (λ (l : ParsedLine). l.text) (line ∷ lines);
  byte_offset_start = line.start;
  byte_offset_end = end_of line lines;
  total_size = total_size;
  strategy = strategy;
  line_ending = aggregate_line_endings (endings_of (line ∷ lines));
}

unfoldable pub starts_with_utf16_bom : Bytes → Bool
starts_with_utf16_bom (a ∷ b ∷ _) = a == 0xFF && b == 0xFE || a == 0xFE && b == 0xFF
starts_with_utf16_bom _ = Bool.false

abbrev or_whole : Bytes → Option Bytes → Bytes
or_whole bytes none = bytes
or_whole bytes (some rest) = rest

unfoldable pub strip_utf8_bom : Bytes → Bytes
strip_utf8_bom bytes = or_whole bytes (strip_prefix (0xEF ∷ 0xBB ∷ 0xBF ∷ []) bytes)

abbrev pub is_nul : ℕ → Bool
is_nul byte = byte == 0

unfoldable pub reject_binary_prefix : Bytes → ProviderKind → StorageOperation → Result (Unit {0})
reject_binary_prefix bytes provider operation = do
  refuse (starts_with_utf16_bom bytes || any is_nul bytes)
      (line_ops_error provider operation LineOpsError.binary_content)
  refuse (has_error_len (from_utf8 (strip_utf8_bom bytes)))
      (line_ops_error provider operation LineOpsError.binary_content)

-- `ends_with`, the suffix first
abbrev ends_with : Bytes → Bytes → Bool
ends_with suffix [] = bytes_eq suffix []
ends_with suffix (c ∷ s) = bytes_eq suffix (c ∷ s) || ends_with suffix s

unfoldable pub is_compressed_key : Bytes → Bool
is_compressed_key key =
    any (λ suffix. ends_with suffix key)
      (codes ".gz" ∷ codes ".zst" ∷ codes ".bz2" ∷ codes ".xz" ∷ codes ".lz4" ∷ codes ".br" ∷ [])
