-- ===== src/Ops/Count.antt =====
-- crates/storageprims-ops/src/lib.rs: `complete_line_consumed` and `count_lines_bounded`.
pub mod Agree
use storageprims.Prelude.{
  ℕ, zero, suc, ◌+◌, Bool, false, Option, none, some, [], ◌∷◌, Bytes, text, length, take, drop,
  first, is_empty, ltb, not, ◌&&◌, ◌||◌, ◌==◌, if◌then◌else◌,
}
use storageprims.Core.Error.{
  ProviderKind, StorageOperation, StorageError, Result, ok, err, ok_or, ◌>>=◌,
}
use storageprims.Core.Source.{checked_add}
use storageprims.Ops.Lines.{is_newline, checked_text}

module _ (provider : ProviderKind) (operation : StorageOperation) where
  -- the check of the text before `index`, and the `return Ok(Some(consumed))`
  abbrev consumed_at : Bytes → ℕ → ℕ → Result (Option ℕ)
  consumed_at bytes index consumed = do
    text ← checked_text provider operation (take index bytes)
    ok (some consumed)

  -- the `for` over `bytes.iter().enumerate()`; `rest` is `bytes[index..]`
  consumed_from : Bytes → Bool → ℕ → Bytes → Result (Option ℕ)
  consumed_from bytes eof index [] = ok none
  consumed_from bytes eof index (c ∷ rest) =
      if c == b'\n'
      then consumed_at bytes index (index + 1)
      else if c == b'\r'
      then (if not (is_empty rest) && is_newline (first rest)
          then consumed_at bytes index (index + 2)
          else if not (is_empty rest) || eof
          then consumed_at bytes index (index + 1)
          else ok none)
      else consumed_from bytes eof (index + 1) rest

  unfoldable pub complete_line_consumed : Bytes → Bool → Result (Option ℕ)
  unfolding consumed_from
  complete_line_consumed bytes eof = consumed_from bytes eof 0 bytes

  abbrev count_overflow : StorageError
  count_overflow =
      StorageError.invalid_argument (some operation) (text "line count")
        (text "line count overflows u64")

  -- `count.checked_add(1)`
  counted : ℕ → Result ℕ
  counted count = ok_or (checked_add count 1) count_overflow

  -- the `while` loop; the two numbers are `cursor` and `count`
  count_complete : Bytes → ℕ → ℕ → ℕ → Result (ℕ × ℕ)
  count_complete bytes zero cursor count = ok (cursor, count)
  count_complete bytes (suc fuel) cursor count =
      if ltb cursor (length bytes)
      then (do
        found ← complete_line_consumed (drop cursor bytes) false
        elim found [
          | none ↦ ok (cursor, count)
          | some consumed ↦
              counted count >>= λ next. count_complete bytes fuel (cursor + consumed) next
        ])
      else ok (cursor, count)

  -- what is left is one more line
  count_rest : Bytes → ℕ → ℕ → Result ℕ
  count_rest bytes cursor count =
      if ltb cursor (length bytes)
      then (do text ← checked_text provider operation (drop cursor bytes); counted count)
      else ok count

  unfoldable pub count_lines_bounded : Bytes → Result ℕ
  unfolding count_complete count_rest counted
  count_lines_bounded bytes = do
    (cursor, count) ← count_complete bytes (length bytes) 0 0
    count_rest bytes cursor count
