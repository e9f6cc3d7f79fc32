-- ===== src/Ops/Lines.antt =====
-- crates/storageprims-ops/src/lib.rs: lines of a byte buffer. The loops over `cursor` run on fuel,
-- one round for each byte at most. Offsets are natural numbers: the program adds them to a base
-- that lies within an object of at most 2^64 - 1 bytes.
pub mod Reference
mod Extract
pub mod Parse
pub mod Select
use storageprims.Prelude.{
  ℕ, zero, suc, ◌+◌, Bool, true, false, Option, none, some, List, [], ◌∷◌, ◌++◌, map, Bytes, length,
  take, drop, first, is_empty, ltb, ◌==◌, ◌&&◌, not, if◌then◌else◌,
}
use storageprims.Prelude.Utf8.{utf8_ok}
use storageprims.Core.Error.{
  ProviderKind, StorageOperation, InspectionKind, InspectionLimitDimension, StorageError, Result,
  ok, err, refuse, ◌>>=◌, ◌>>◌,
}

pub data LineEnding : Type 0 where
  lf cr_lf cr mixed unknown : LineEnding

pub record ParsedLine : Type 0 where
  pub text : Bytes
  pub start : ℕ
  pub end : ℕ
  pub ending : Option LineEnding

pub data LineOpsError : Type 0 where
  compressed_object binary_content : LineOpsError
  no_line_terminator_in_probe : (probe_size : ℕ) → LineOpsError

unfoldable pub line_ops_error : ProviderKind → StorageOperation → LineOpsError → StorageError
line_ops_error provider operation (LineOpsError.no_line_terminator_in_probe probe_size) =
    StorageError.inspection (some provider) operation InspectionKind.limit_exceeded
      (some InspectionLimitDimension.probe_size) probe_size probe_size
line_ops_error provider operation _ =
    StorageError.inspection (some provider) operation InspectionKind.encoding_rejected none 0 0

-- `bytes.get(i) == Some(&b'\n')`
abbrev pub is_newline : Option ℕ → Bool
is_newline none = false
is_newline (some byte) = byte == b'\n'

module _ (provider : ProviderKind) (operation : StorageOperation) where
  abbrev pub binary_error : StorageError
  binary_error = line_ops_error provider operation LineOpsError.binary_content

  -- `std::str::from_utf8(text).map_err(…)?.to_string()`
  unfoldable pub checked_text : Bytes → Result Bytes
  checked_text text = if utf8_ok text then ok text else err binary_error

  -- the line that ends at `index`, with its ending and the bytes of its terminator
  abbrev line_at : Bytes → ℕ → ℕ → LineEnding → ℕ → Result (Option (ParsedLine × ℕ))
  line_at bytes base_offset index ending width = do
    text ← checked_text (take index bytes)
    ok (
        some (
          record {
            text = text;
            start = base_offset;
            end = base_offset + index + width;
            ending = some ending;
          },
          index + width,
        ))

  -- the `while` over `index`; `rest` is `bytes[index..]`
  extract_from : Bytes → ℕ → Bool → ℕ → Bytes → Result (Option (ParsedLine × ℕ))
  extract_from bytes base_offset eof index [] = ok none
  extract_from bytes base_offset eof index (c ∷ rest) =
      if c == b'\n'
      then line_at bytes base_offset index lf 1
      else if c == b'\r'
      then (if is_empty rest && not eof
          then ok none
          else if is_newline (first rest)
          then line_at bytes base_offset index cr_lf 2
          else line_at bytes base_offset index cr 1)
      else extract_from bytes base_offset eof (index + 1) rest

  unfoldable pub extract_first_complete_line : Bytes → ℕ → Bool → Result (Option (ParsedLine × ℕ))
  unfolding extract_from
  extract_first_complete_line bytes base_offset eof = extract_from bytes base_offset eof 0 bytes

-- the two locals of the loops
pub record Progress : Type 0 where
  pub cursor : ℕ
  pub lines : List ParsedLine

-- The body that `parse_lines`, `parse_lines_up_to` and `parse_tail_lines_bounded` share. They differ
-- in whether a further line is wanted, and in how a line is pushed.
module _ (more : List ParsedLine → Bool) (push : List ParsedLine → ParsedLine → List ParsedLine)
    (provider : ProviderKind) (operation : StorageOperation) (bytes : Bytes) (base_offset : ℕ) where
  -- what stands in the buffer behind the cursor, read as one line
  abbrev extract_at : Progress → Bool → Result (Option (ParsedLine × ℕ))
  extract_at p eof =
      extract_first_complete_line provider operation (drop p.cursor bytes) (base_offset + p.cursor)
        eof

  unfoldable pub wanted : Progress → Bool
  wanted p = ltb p.cursor (length bytes) && more p.lines

  abbrev advanced : Progress → ParsedLine → ℕ → Progress
  advanced p line consumed = record { cursor = p.cursor + consumed; lines = push p.lines line }

  abbrev taken : Progress → Option (ParsedLine × ℕ) → Progress
  taken p none = p
  taken p (some (line, consumed)) = advanced p line consumed

  -- the `while` loop; `break` where no complete line is left
  complete_lines : ℕ → Progress → Result Progress
  complete_lines zero p = ok p
  complete_lines (suc fuel) p =
      if wanted p
      then (do
        found ← extract_at p false
        elim found [
          | none ↦ ok p
          | some (line, consumed) ↦ complete_lines fuel (advanced p line consumed)
        ])
      else ok p

  -- a final line that a lone carriage return ends
  terminal_line : Bool → Progress → Result Progress
  terminal_line include_trailing p =
      if include_trailing && wanted p
      then (do found ← extract_at p true; ok (taken p found))
      else ok p

  abbrev last_line : Progress → Bytes → ParsedLine
  last_line p text = record {
    text = text;
    start = base_offset + p.cursor;
    end = base_offset + length bytes;
    ending = none;
  }

  -- a final line that nothing ends
  unterminated_line : Bool → Progress → Result Progress
  unterminated_line include_trailing p =
      if include_trailing && wanted p
      then (do
        text ← checked_text provider operation (drop p.cursor bytes)
        ok (record p { lines = push p.lines (last_line p text) }))
      else ok p

  unfoldable pub parse_with : Bool → Result (List ParsedLine)
  unfolding complete_lines terminal_line unterminated_line wanted
  parse_with include_trailing = do
    p ← complete_lines (length bytes) (record { cursor = 0; lines = [] })
    q ← terminal_line include_trailing p
    r ← unterminated_line include_trailing q
    ok r.lines

abbrev pub push_back : List ParsedLine → ParsedLine → List ParsedLine
push_back lines line = lines ++ line ∷ []

-- `if lines.len() == maximum { lines.pop_front(); }` and the push
abbrev pub push_window : ℕ → List ParsedLine → ParsedLine → List ParsedLine
push_window maximum lines line =
    (if length lines == maximum then drop 1 lines else lines) ++ line ∷ []

module _ (provider : ProviderKind) (operation : StorageOperation) (bytes : Bytes) (base_offset : ℕ)
    (include_trailing : Bool) where
  unfoldable pub parse_lines : Result (List ParsedLine)
  parse_lines =
      parse_with (λ lines. true) push_back provider operation bytes base_offset include_trailing

  unfoldable pub parse_lines_up_to : ℕ → Result (List ParsedLine)
  parse_lines_up_to maximum =
      parse_with (λ lines. ltb (length lines) maximum) push_back provider operation bytes
        base_offset include_trailing

  unfoldable pub parse_tail_lines_bounded : ℕ → Result (List ParsedLine)
  parse_tail_lines_bounded maximum =
      parse_with (λ lines. true) (push_window maximum) provider operation bytes base_offset
        include_trailing
