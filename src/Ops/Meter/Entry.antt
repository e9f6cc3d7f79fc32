-- ===== src/Ops/Meter/Entry.antt =====
-- The public operations against the limits of their budgets.
use storageprims.Prelude.{ℕ, ◌*◌, ◌≡◌, arith, Bool-cases, inl, inr, some, Bytes, ◌==◌, ◌&&◌, not}
use storageprims.Core.Error.{ProviderKind, StorageOperation}
use storageprims.Core.Source.{GuardedReadSelection}
use storageprims.Ops.Budget.{InspectionBudget, default_budget}
use storageprims.Ops.Receipt.{LineOptions}
use storageprims.Ops.Align.{
  forward_stream, range_backward, range_midpoint, empty_result, is_compressed_key,
}
use storageprims.Ops.Provider.{GuardedReadProvider, StorageProvider, Runtime}
use storageprims.Ops.Operations.{head_sized, tail_sized, mid_sized}
use storageprims.Ops.Operations.Keeps.{
  head_sized-Keeps, tail_sized-Keeps, mid_sized-Keeps, count_sized-Keeps,
}
use storageprims.Ops.Entry.{
  head_lines_with_options, tail_lines_with_options, mid_lines_with_options, count_lines,
  preview_bytes, preview_bytes_selected,
}
use storageprims.Ops.Meter.{Meter, Counts, IsMeter}
use storageprims.Ops.Meter.Operations.{
  head_sized-Costs, tail_sized-Costs, mid_sized-Costs, count_sized-Costs,
}
use storageprims.Ops.Meter.Limits.{
  with_ledger-Counts, on_source-Keeps, on_source-Costs, line_operation-Counts, selected_body-Keeps,
  selected_body-Costs, preview_body-Keeps, preview_body-Costs,
}

module _ {W R : Type 0} (runtime : Runtime W) (clock_max : ℕ) (provider : StorageProvider W R)
    (p : GuardedReadProvider W R) (meter : Meter W) (is_meter : IsMeter runtime p meter)
    (reads : provider.guarded_reads ≡ some p) (key : Bytes) (w : W) where
  module _ (n : ℕ) (options : LineOptions) where
    head-Counts :
        Counts meter w
          (head_lines_with_options runtime clock_max provider key n options w).1
          16
          (8 * 1024 * 1024)
    unfolding head_lines_with_options
    head-Counts =
        line_operation-Counts meter runtime p is_meter clock_max provider reads
          StorageOperation.head_lines key n options (empty_result forward_stream 0)
          (λ g selection size. head_sized runtime provider.provider_kind g n selection size) w
          (λ g. head_sized-Keeps runtime g provider.provider_kind n)
          (head_sized-Costs runtime p meter is_meter provider.provider_kind n)

    tail-Counts :
        Counts meter w
          (tail_lines_with_options runtime clock_max provider key n options w).1
          16
          (8 * 1024 * 1024)
    unfolding tail_lines_with_options
    tail-Counts = elim (Bool-cases (is_compressed_key key && not options.force_stream)) [
      | inl m ↦ rw m (omega arith)
      | inr m ↦ rw m (
          line_operation-Counts meter runtime p is_meter clock_max provider reads
            StorageOperation.tail_lines key n options (empty_result range_backward 0)
            (λ g selection size.
              tail_sized runtime provider.provider_kind g n selection options.force_stream size)
            w
            (λ g selection.
              tail_sized-Keeps runtime g provider.provider_kind n selection options.force_stream)
            λ selection.
              tail_sized-Costs runtime p meter is_meter provider.provider_kind n selection
                options.force_stream)
    ]

    mid-Counts :
        Counts meter w
          (mid_lines_with_options runtime clock_max provider key n options w).1
          16
          (8 * 1024 * 1024)
    unfolding mid_lines_with_options
    mid-Counts = elim (Bool-cases (is_compressed_key key && not options.force_stream)) [
      | inl m ↦ rw m (omega arith)
      | inr m ↦ rw m (
          line_operation-Counts meter runtime p is_meter clock_max provider reads
            StorageOperation.mid_lines key n options (empty_result range_midpoint 0)
            (λ g selection size.
              mid_sized runtime provider.provider_kind g n selection options.force_stream size)
            w
            (λ g selection.
              mid_sized-Keeps runtime g provider.provider_kind n selection options.force_stream)
            λ selection.
              mid_sized-Costs runtime p meter is_meter provider.provider_kind n selection
                options.force_stream)
    ]

  count-Counts :
      Counts meter w (count_lines runtime clock_max provider key w).1 16 (8 * 1024 * 1024)
  unfolding count_lines
  count-Counts =
      with_ledger-Counts meter runtime p is_meter clock_max provider.provider_kind
        StorageOperation.count_lines default_budget _ w
        (on_source-Keeps meter runtime p is_meter clock_max provider reads
          StorageOperation.count_lines key 0 _
          λ g selection size. count_sized-Keeps runtime g provider.provider_kind selection size)
        (on_source-Costs meter runtime p is_meter clock_max provider reads
          StorageOperation.count_lines key 0 _
          λ selection size.
            count_sized-Costs runtime p meter is_meter provider.provider_kind selection size)

  preview-Counts :
      (requested : ℕ) (budget : InspectionBudget)
      → Counts meter w
          (preview_bytes runtime clock_max provider key requested budget w).1
          budget.helper_requests
          budget.payload_bytes
  unfolding preview_bytes
  preview-Counts requested budget = elim (Bool-cases (requested == 0)) [
    | inl m ↦ rw m (omega arith)
    | inr m ↦ rw m (
        with_ledger-Counts meter runtime p is_meter clock_max provider.provider_kind
          StorageOperation.preview_bytes budget _ w
          (preview_body-Keeps meter runtime p is_meter clock_max provider reads key requested)
          (preview_body-Costs meter runtime p is_meter clock_max provider reads key requested))
  ]

module _ {W R : Type 0} (runtime : Runtime W) (clock_max : ℕ) (p : GuardedReadProvider W R)
    (meter : Meter W) (is_meter : IsMeter runtime p meter) (w : W) where
  selected-Counts :
      (kind : ProviderKind) (selection : GuardedReadSelection) (requested : ℕ)
      (budget : InspectionBudget)
      → Counts meter w
          (preview_bytes_selected runtime clock_max p kind selection requested budget w).1
          budget.helper_requests
          budget.payload_bytes
  unfolding preview_bytes_selected
  selected-Counts kind selection requested budget = elim (Bool-cases (requested == 0)) [
    | inl m ↦ rw m (omega arith)
    | inr m ↦ rw m (
        with_ledger-Counts meter runtime p is_meter clock_max kind StorageOperation.preview_bytes
          budget _ w (selected_body-Keeps meter runtime p is_meter clock_max p selection requested)
          (selected_body-Costs meter runtime p is_meter clock_max selection requested))
  ]

-- Whatever the provider answers, and after every error as after a success: a head, a tail, a middle
-- and a count make at most 16 calls of the provider's guarded reads and take at most 8 MiB of their
-- bodies, and a preview at most the helper requests and the payload bytes of its budget. It is
-- required that the meter counts one for each call and, for a read, the bytes returned, which fit
-- the buffer, or at most the buffer's length where the read fails; that the clock counts nothing;
-- and that a call under a deadline counts at most what it does without, and is that call where it
-- returns a value.
pub operations-Counts :
    {W R : Type 0} (runtime : Runtime W) (clock_max : ℕ) (provider : StorageProvider W R)
    (p : GuardedReadProvider W R) (meter : Meter W) (kind : ProviderKind) (key : Bytes)
    (n requested : ℕ) (options : LineOptions) (budget : InspectionBudget)
    (selection : GuardedReadSelection) (w : W)
    → IsMeter runtime p meter
    → provider.guarded_reads ≡ some p
    → Counts meter w
        (head_lines_with_options runtime clock_max provider key n options w).1
        16
        (8 * 1024 * 1024)
      × Counts meter w
          (tail_lines_with_options runtime clock_max provider key n options w).1
          16
          (8 * 1024 * 1024)
      × Counts meter w
          (mid_lines_with_options runtime clock_max provider key n options w).1
          16
          (8 * 1024 * 1024)
      × Counts meter w (count_lines runtime clock_max provider key w).1 16 (8 * 1024 * 1024)
      × Counts meter w
          (preview_bytes runtime clock_max provider key requested budget w).1
          budget.helper_requests
          budget.payload_bytes
      × Counts meter w
          (preview_bytes_selected runtime clock_max p kind selection requested budget w).1
          budget.helper_requests
          budget.payload_bytes
operations-Counts runtime clock_max provider p meter kind key n requested options budget selection w
      is_meter reads =
    (
      head-Counts runtime clock_max provider p meter is_meter reads key w n options,
      tail-Counts runtime clock_max provider p meter is_meter reads key w n options,
      mid-Counts runtime clock_max provider p meter is_meter reads key w n options,
      count-Counts runtime clock_max provider p meter is_meter reads key w,
      preview-Counts runtime clock_max provider p meter is_meter reads key w requested budget,
      selected-Counts runtime clock_max p meter is_meter w kind selection requested budget,
    )
