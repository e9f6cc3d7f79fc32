-- ===== src/Ops/Receipt.antt =====
-- crates/storageprims-ops/src/lib.rs: what a guarded range read checks of its receipt, and the
-- checks of a line operation and of a preview against the budget.
pub mod Prove
use storageprims.Prelude.{
  ℕ, ◌-◌, Bool, Option, none, some, List, [], ◌∷◌, String, text, min, leb, ltb, ◌==◌, not, ◌||◌,
  length,
}
use storageprims.Core.Error.{
  StorageOperation, InspectionLimitDimension, IoErrorKind, StorageError, Result, ok, refuse, ok_or,
  ◌>>=◌, ◌>>◌,
}
use storageprims.Core.Source.{SourceReceipt, ByteWindow, checked_len, checked_add, u64_max}
use storageprims.Ops.Lines.{ParsedLine}
use storageprims.Ops.Budget.{
  InspectionBudget, InspectionLedger, default_budget, validate_budget, limit, admit_output,
}

unfoldable pub invalid_guarded_range_response : StorageOperation → String → StorageError
invalid_guarded_range_response operation detail =
    StorageError.io (some operation)
      (record { kind = IoErrorKind.invalid_data; detail = text detail })

-- the match on the total size
unfoldable pub expected_end : StorageOperation → ℕ → ℕ → Option ℕ → Result ℕ
expected_end operation offset requested_end none = ok requested_end
expected_end operation offset requested_end (some total) = do
  refuse (total == 0)
      (invalid_guarded_range_response operation "non-empty range has an empty total")
  refuse (leb total offset)
      (invalid_guarded_range_response operation "range starts at or beyond total size")
  ok (min requested_end (total - 1))

-- `window.start != start || window.end != end`
abbrev pub differs : ByteWindow → ℕ → ℕ → Bool
differs window start end = not (window.start == start) || not (window.end == end)

-- `length - 1` on a length of 0 is excluded by the caller
unfoldable pub validate_guarded_range_receipt : SourceReceipt → ℕ → ℕ → StorageOperation → Result ℕ
validate_guarded_range_receipt receipt offset length operation = do
  requested_end ←
      ok_or (checked_add offset (length - 1))
        (invalid_guarded_range_response operation "guarded range request overflows")
  requested ←
      ok_or receipt.requested_window
        (invalid_guarded_range_response operation "guarded range is missing its requested window")
  refuse (differs requested offset requested_end)
      (invalid_guarded_range_response operation "guarded range receipt does not match its request")
  returned ←
      ok_or receipt.returned_window
        (invalid_guarded_range_response operation "guarded range is missing its returned window")
  end ← expected_end operation offset requested_end receipt.total_size
  refuse (differs returned offset end) (
      invalid_guarded_range_response operation
        "guarded range returned window does not prove the requested bytes")
  ok_or (checked_len returned)
      (invalid_guarded_range_response operation "guarded range returned window overflows")

-- the `try_fold` over the lines, from a running total
unfoldable pub sum_lengths : ℕ → List ParsedLine → Option ℕ
sum_lengths total [] = some total
sum_lengths total (line ∷ lines) = elim (checked_add total (length line.text)) [
  | none ↦ none
  | some next ↦ sum_lengths next lines
]

unfoldable pub apply_line_output_budget :
    InspectionLedger → List ParsedLine → Result InspectionLedger
apply_line_output_budget ledger lines = do
  output_bytes ←
      ok_or (sum_lengths 0 lines)
        (limit ledger InspectionLimitDimension.output_bytes ledger.budget.output_bytes u64_max)
  admit_output output_bytes ledger

pub record LineOptions : Type 0 where
  pub chunk_size : ℕ
  pub probe_size : ℕ
  pub force_stream : Bool

unfoldable pub line_budget : StorageOperation → ℕ → LineOptions → Result InspectionBudget
line_budget operation n options =
    let budget : InspectionBudget = record default_budget {
      line_count = n;
      chunk_size = options.chunk_size;
      probe_size = options.probe_size;
    } in
    validate_budget operation budget >> ok budget

unfoldable pub validate_preview_request : ℕ → InspectionLedger → Result (Unit {0})
validate_preview_request length ledger = do
  refuse (ltb ledger.budget.payload_bytes length)
      (limit ledger InspectionLimitDimension.payload_bytes ledger.budget.payload_bytes length)
  refuse (ltb ledger.budget.output_bytes length)
      (limit ledger InspectionLimitDimension.output_bytes ledger.budget.output_bytes length)
