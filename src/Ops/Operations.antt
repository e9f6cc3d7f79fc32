-- ===== src/Ops/Operations.antt =====
-- crates/storageprims-ops/src/lib.rs: the operations head, tail, mid, count and preview. The clock
-- is read before a budget is found invalid, which the results do not show.
pub mod Answer
pub mod Count
pub mod Head
pub mod Aligned
pub mod Tail
pub mod Middle
pub mod Mid
pub mod Keeps
use storageprims.Prelude.{
  ℕ, ◌+◌, ◌-◌, ◌*◌, ◌/◌, min, Bool, Option, none, some, List, [], Bytes, length, drop, first, ltb,
  ◌==◌, ◌&&◌, ◌||◌, not, if◌then◌else◌,
}
use storageprims.Core.Error.{ProviderKind, StorageOperation, InspectionLimitDimension, StorageError}
use storageprims.Core.Source.{GuardedReadSelection, SourceReceipt, ByteWindow, checked_len}
use storageprims.Ops.Lines.{ParsedLine, parse_lines_up_to, parse_tail_lines_bounded}
use storageprims.Ops.Count.{count_lines_bounded}
use storageprims.Ops.Budget.{InspectionLedger, limit, admit_output}
use storageprims.Ops.Receipt.{LineOptions, apply_line_output_budget}
use storageprims.Ops.Align.{
  ReadStrategy, forward_stream, range_backward, range_midpoint, LineResult, build_line_result,
  first_full_line_start, slice_starts_on_line_boundary, midpoint_alignment, reject_binary_prefix,
}
use storageprims.Ops.Provider.{
  GuardedReadProvider, Runtime, Action, ◌>>=◌, ◌>>◌, pure, lift, gets, charge, refuse_with,
}
use storageprims.Ops.Read.{selected_head, guarded_range_bytes, line_probe, past_end, same, at_end}

pub record BytePreview : Type 0 where
  pub bytes : Bytes
  pub receipt : SourceReceipt
  pub consumed_payload_bytes : ℕ
  pub helper_requests : ℕ

-- `LineOptions::default()`
abbrev pub default_options : LineOptions
default_options = record {
  chunk_size = 256 * 1024;
  probe_size = 32 * 1024;
  force_stream = Bool.false;
}

-- `returned_window.and_then(|window| window.checked_len())`
abbrev pub window_len : Option ByteWindow → Option ℕ
window_len none = none
window_len (some w) = checked_len w

abbrev pub or_else : Option ℕ → ℕ → ℕ
or_else none d = d
or_else (some a) d = a

abbrev payload_error : InspectionLedger → ℕ → StorageError
payload_error l consumed =
    limit l InspectionLimitDimension.payload_bytes l.budget.payload_bytes consumed

abbrev pending_error : InspectionLedger → ℕ → StorageError
pending_error l consumed =
    limit l InspectionLimitDimension.pending_line_bytes l.budget.pending_line_bytes consumed

-- `size.min(pending_line_bytes).min(payload_bytes)`
abbrev pub fetch_length : ℕ → InspectionLedger → ℕ
fetch_length size l = min (min size l.budget.pending_line_bytes) l.budget.payload_bytes

-- the preview of a range; `none` is the panic of `expect`
abbrev pub previewed : Bytes → SourceReceipt → ℕ → Option ℕ → Option BytePreview
previewed bytes receipt requests none = none
previewed bytes receipt requests (some consumed) = some (record {
  bytes = bytes;
  receipt = receipt;
  consumed_payload_bytes = consumed;
  helper_requests = requests;
})

-- `aligned` of a tail
unfoldable pub tail_aligned : ℕ → Option ℕ → Bytes → ℕ
tail_aligned start previous bytes =
    if start == 0
    then 0
    else or_else
        (first_full_line_start bytes (slice_starts_on_line_boundary previous (first bytes)))
        (length bytes)

-- `aligned` of a middle: a stream starts at 0, where the two calls of the source agree
unfoldable pub mid_aligned : ℕ → Bool → ℕ → Bytes → ℕ
mid_aligned start eof midpoint bytes =
    or_else (midpoint_alignment bytes (midpoint - start))
      (if eof && start == 0 then 0 else length bytes)

module _ {W R : Type 0} (runtime : Runtime W) where
  unfoldable pub preview_bytes_selected_with_ledger :
      GuardedReadProvider W R → GuardedReadSelection → ℕ → Action W (Option BytePreview)
  preview_bytes_selected_with_ledger guarded selection requested = do
    (bytes, receipt) ← guarded_range_bytes runtime guarded selection 0 requested
    charge (λ l. admit_output (length bytes) l)
    requests ← gets (λ l. l.helper_requests)
    pure (previewed bytes receipt requests (window_len receipt.returned_window))

  -- the selected head, and the prefix of a source that is not empty
  unfoldable pub preview_selected :
      GuardedReadProvider W R → GuardedReadSelection → ℕ → Action W (Option BytePreview)
  preview_selected guarded selection requested = do
    receipt ← selected_head runtime guarded selection
    requests ← gets (λ l. l.helper_requests)
    if same receipt.total_size (some 0)
        then pure (previewed [] receipt requests (some 0))
        else preview_bytes_selected_with_ledger guarded selection requested

  module _ (kind : ProviderKind) (guarded : GuardedReadProvider W R) (n : ℕ) where
    -- the charge of the output, and the result
    unfoldable pub answered : ReadStrategy → ℕ → List ParsedLine → Action W LineResult
    answered strategy size lines = do
      charge (λ l. apply_line_output_budget l lines)
      pure (build_line_result lines size strategy)

    abbrev pub enough : List ParsedLine → Bool
    enough lines = not (ltb (length lines) n)

    unfoldable pub head_rest : GuardedReadSelection → ℕ → Action W LineResult
    head_rest selection size = do
      requested ← gets (fetch_length size)
      (bytes, receipt) ← guarded_range_bytes runtime guarded selection 0 requested
      lift (reject_binary_prefix bytes kind StorageOperation.head_lines)
      selected ←
          lift (parse_lines_up_to kind StorageOperation.head_lines bytes 0 (at_end receipt) n)
      refuse_with (not (enough selected) && not (at_end receipt)) (λ l. pending_error l requested)
      answered forward_stream size selected

    unfoldable pub head_sized : GuardedReadSelection → ℕ → Action W LineResult
    head_sized selection size = do
      (probe, receipt) ← line_probe runtime guarded selection size
      probe_lines ←
          lift (parse_lines_up_to kind StorageOperation.head_lines probe 0 (at_end receipt) n)
      if length probe_lines == n || at_end receipt
          then answered forward_stream size probe_lines
          else head_rest selection size

    -- the byte before the window of a tail, where there is one
    unfoldable pub previous_byte : GuardedReadSelection → ℕ → Action W (Option ℕ)
    previous_byte selection start = if start == 0 then pure none else (do
      (previous, _) ← guarded_range_bytes runtime guarded selection (start - 1) 1
      pure (first previous))

    unfoldable pub tail_sized : GuardedReadSelection → Bool → ℕ → Action W LineResult
    tail_sized selection force_stream size = do
      _ ← line_probe runtime guarded selection size
      requested ← gets (fetch_length size)
      let start = if force_stream then 0 else size - requested
      previous ← previous_byte selection start
      (bytes, receipt) ← guarded_range_bytes runtime guarded selection start requested
      let aligned = tail_aligned start previous bytes
      lift (reject_binary_prefix (drop aligned bytes) kind StorageOperation.tail_lines)
      refuse_with (force_stream && not (at_end receipt)) (λ l. pending_error l requested)
      selected ← lift (
          parse_tail_lines_bounded kind StorageOperation.tail_lines (drop aligned bytes)
            (start + aligned) (at_end receipt) n)
      refuse_with (not (enough selected) && not (start == 0)) (λ l. pending_error l requested)
      answered (if force_stream then forward_stream else range_backward) size selected

    unfoldable pub mid_sized : GuardedReadSelection → Bool → ℕ → Action W LineResult
    mid_sized selection force_stream size = do
      _ ← line_probe runtime guarded selection size
      fetched ← gets (fetch_length size)
      let midpoint = size / 2
      let start = if force_stream then 0 else midpoint - fetched / 2
      let requested = if force_stream then fetched else min fetched (size - start)
      (bytes, receipt) ← guarded_range_bytes runtime guarded selection start requested
      refuse_with (force_stream && not (at_end receipt)) (λ l. pending_error l requested)
      let aligned = mid_aligned start (at_end receipt) midpoint bytes
      lift (reject_binary_prefix (drop aligned bytes) kind StorageOperation.mid_lines)
      selected ← lift (
          parse_lines_up_to kind StorageOperation.mid_lines (drop aligned bytes) (start + aligned)
            (at_end receipt) n)
      refuse_with (not (enough selected) && not (at_end receipt)) (λ l. pending_error l requested)
      answered (if force_stream then forward_stream else range_midpoint) size selected

  unfoldable pub count_sized :
      ProviderKind → GuardedReadProvider W R → GuardedReadSelection → ℕ → Action W ℕ
  count_sized kind guarded selection size = do
    size_limit ← gets (λ l. l.budget.payload_bytes)
    refuse_with (ltb size_limit size) (λ l. payload_error l l.payload_bytes)
    line_limit ← gets (λ l. l.budget.pending_line_bytes)
    refuse_with (ltb line_limit size) (λ l. pending_error l l.payload_bytes)
    _ ← line_probe runtime guarded selection size
    (bytes, receipt) ← guarded_range_bytes runtime guarded selection 0 size
    refuse_with
        (not (same receipt.total_size (some size))
          || not (same (past_end receipt.returned_window) (some size)))
        (λ l. payload_error l size)
    lift (reject_binary_prefix bytes kind StorageOperation.count_lines)
    lift (count_lines_bounded kind StorageOperation.count_lines bytes)
