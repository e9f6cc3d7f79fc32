-- ===== src/Ops/Entry.antt =====
-- crates/storageprims-ops/src/lib.rs: the public operations, each with its budget, its ledger and
-- the guarded reads of its provider.
pub mod Source
pub mod About
pub mod Count
pub mod Preview
pub mod Head
pub mod Tail
pub mod Mid
use storageprims.Prelude.{ℕ, Option, some, Bytes, text, ◌==◌, ◌&&◌, not, if◌then◌else◌}
use storageprims.Core.Error.{ProviderKind, StorageOperation, StorageError, Result, ok, err}
use storageprims.Core.Source.{GuardedReadSelection}
use storageprims.Ops.Lines.{LineOpsError, line_ops_error}
use storageprims.Ops.Budget.{InspectionBudget, InspectionLedger, default_budget, new_ledger}
use storageprims.Ops.Receipt.{LineOptions, line_budget, validate_preview_request}
use storageprims.Ops.Align.{
  forward_stream, range_backward, range_midpoint, LineResult, empty_result, is_compressed_key,
}
use storageprims.Ops.Provider.{
  GuardedReadProvider, StorageProvider, require_guarded_reads, Runtime, Action, ◌>>=◌, ◌>>◌, pure,
  lift, gets,
}
use storageprims.Ops.Read.{observe_and_bind, selected_size}
use storageprims.Ops.Operations.{
  BytePreview, default_options, head_sized, tail_sized, mid_sized, count_sized, preview_selected,
}

-- an operation on the world alone
abbrev pub Task : Type 0 → Type 0 → Type 0
Task W A = W → Result A × W

module _ {W A : Type 0} where
  abbrev pub refused : StorageError → Task W A
  refused e w = (err e, w)

  abbrev pub opened : Result InspectionLedger → Action W A → Task W A
  opened (err e) body w = (err e, w)
  opened (ok l) body w = let (r, s) = body (record { ledger = l; world = w }) in (r, s.world)

  -- `InspectionLedger::new(…)?`, and what follows on the ledger
  unfoldable pub with_ledger :
      Runtime W → ℕ → ProviderKind → StorageOperation → InspectionBudget → Action W A → Task W A
  with_ledger runtime clock_max kind operation budget body w =
      let (now, v) = runtime.now w in opened (new_ledger clock_max now kind operation budget) body v

  -- `line_budget(…)?`
  abbrev pub budgeted : Result InspectionBudget → (InspectionBudget → Task W A) → Task W A
  budgeted (err e) body w = (err e, w)
  budgeted (ok budget) body w = body budget w

abbrev pub zero_length : StorageError
zero_length =
    StorageError.invalid_argument (some StorageOperation.preview_bytes) (text "length")
      (text "preview length must be greater than zero")

module _ {W R : Type 0} (runtime : Runtime W) (clock_max : ℕ) (provider : StorageProvider W R) where
  -- The common start of the line operations: the selected source and its size, and the result of
  -- an empty one.
  unfoldable pub on_source :
      {A : Type 0}
      → StorageOperation
      → Bytes
      → A
      → (GuardedReadProvider W R → GuardedReadSelection → ℕ → Action W A)
      → Action W A
  on_source operation key empty body = do
    guarded ← lift (require_guarded_reads provider operation)
    (selection, observation) ← observe_and_bind runtime guarded key
    size ← selected_size runtime guarded selection observation
    if size == 0 then pure empty else body guarded selection size

  abbrev compressed : StorageOperation → StorageError
  compressed operation =
      line_ops_error provider.provider_kind operation LineOpsError.compressed_object

  -- a line operation on `n` lines
  abbrev pub line_operation :
      StorageOperation
      → Bytes
      → ℕ
      → LineOptions
      → LineResult
      → (GuardedReadProvider W R → GuardedReadSelection → ℕ → Action W LineResult)
      → Task W LineResult
  line_operation operation key n options empty body =
      budgeted (line_budget operation n options) λ budget.
        with_ledger runtime clock_max provider.provider_kind operation budget
          (on_source operation key empty body)

  unfoldable pub head_lines_with_options : Bytes → ℕ → LineOptions → Task W LineResult
  head_lines_with_options key n options =
      line_operation StorageOperation.head_lines key n options (empty_result forward_stream 0)
        λ guarded selection size. head_sized runtime provider.provider_kind guarded n selection size

  unfoldable pub head_lines : Bytes → ℕ → Task W LineResult
  head_lines key n = head_lines_with_options key n default_options

  unfoldable pub tail_lines_with_options : Bytes → ℕ → LineOptions → Task W LineResult
  tail_lines_with_options key n options =
      if is_compressed_key key && not options.force_stream
      then refused (compressed StorageOperation.tail_lines)
      else line_operation StorageOperation.tail_lines key n options (empty_result range_backward 0)
          λ guarded selection size.
            tail_sized runtime provider.provider_kind guarded n selection options.force_stream size

  unfoldable pub tail_lines : Bytes → ℕ → Task W LineResult
  tail_lines key n = tail_lines_with_options key n default_options

  unfoldable pub mid_lines_with_options : Bytes → ℕ → LineOptions → Task W LineResult
  mid_lines_with_options key n options =
      if is_compressed_key key && not options.force_stream
      then refused (compressed StorageOperation.mid_lines)
      else line_operation StorageOperation.mid_lines key n options (empty_result range_midpoint 0)
          λ guarded selection size.
            mid_sized runtime provider.provider_kind guarded n selection options.force_stream size

  unfoldable pub mid_lines : Bytes → ℕ → Task W LineResult
  mid_lines key n = mid_lines_with_options key n default_options

  unfoldable pub count_lines : Bytes → Task W ℕ
  count_lines key =
      with_ledger runtime clock_max provider.provider_kind StorageOperation.count_lines
        default_budget
        (on_source StorageOperation.count_lines key 0 λ guarded selection size.
          count_sized runtime provider.provider_kind guarded selection size)

  abbrev pub preview_body : Bytes → ℕ → Action W (Option BytePreview)
  preview_body key requested = do
    fits ← gets (validate_preview_request requested)
    lift fits
    guarded ← lift (require_guarded_reads provider StorageOperation.preview_bytes)
    (selection, _) ← observe_and_bind runtime guarded key
    preview_selected runtime guarded selection requested

  unfoldable pub preview_bytes : Bytes → ℕ → InspectionBudget → Task W (Option BytePreview)
  preview_bytes key requested budget =
      if requested == 0
      then refused zero_length
      else with_ledger runtime clock_max provider.provider_kind StorageOperation.preview_bytes
          budget (preview_body key requested)

module _ {W R : Type 0} (runtime : Runtime W) (clock_max : ℕ) where
  abbrev pub selected_body :
      GuardedReadProvider W R → GuardedReadSelection → ℕ → Action W (Option BytePreview)
  selected_body guarded selection requested = do
    fits ← gets (validate_preview_request requested)
    lift fits
    preview_selected runtime guarded selection requested

  unfoldable pub preview_bytes_selected :
      GuardedReadProvider W R
      → ProviderKind
      → GuardedReadSelection
      → ℕ
      → InspectionBudget
      → Task W (Option BytePreview)
  preview_bytes_selected guarded kind selection requested budget =
      if requested == 0
      then refused zero_length
      else with_ledger runtime clock_max kind StorageOperation.preview_bytes budget
          (selected_body guarded selection requested)
