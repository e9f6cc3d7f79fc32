-- ===== src/Ops/Meter/Operations.antt =====
-- The operations on a selected source charge all that they spend.
use storageprims.Prelude.{ℕ, Bool, List, arith}
use storageprims.Core.Error.{ProviderKind}
use storageprims.Core.Source.{GuardedReadSelection}
use storageprims.Ops.Lines.{ParsedLine}
use storageprims.Ops.Budget.{admit_output}
use storageprims.Ops.Receipt.{apply_line_output_budget}
use storageprims.Ops.Align.{ReadStrategy}
use storageprims.Ops.Provider.{GuardedReadProvider, Runtime}
use storageprims.Ops.Meter.{Meter, IsMeter, Costs, Raises}
use storageprims.Ops.Meter.Reads.{selected_head-Costs}
use storageprims.Ops.Meter.Range.{metering, guarded_range_bytes-Costs, line_probe-Costs}
use storageprims.Ops.Operations.{
  answered, head_rest, head_sized, previous_byte, tail_sized, mid_sized, count_sized,
  preview_bytes_selected_with_ledger, preview_selected,
}

admit_output-Raises : (bytes : ℕ) → Raises (admit_output bytes)
unfolding admit_output
admit_output-Raises bytes l m q = ground (arith, q)

apply_line_output_budget-Raises :
    (lines : List ParsedLine) → Raises (λ l. apply_line_output_budget l lines)
unfolding apply_line_output_budget admit_output
apply_line_output_budget-Raises lines l m q = ground (arith, q)

ruleset reads = (
  metering, selected_head-Costs, guarded_range_bytes-Costs, line_probe-Costs,
  apply_line_output_budget-Raises, admit_output-Raises,
)

module _ {W R : Type 0} (runtime : Runtime W) (p : GuardedReadProvider W R) (meter : Meter W)
    (is_meter : IsMeter runtime p meter) where
  pub preview_selected-Costs :
      (selection : GuardedReadSelection) (requested : ℕ)
      → Costs meter 0 0 (preview_selected runtime p selection requested)
  unfolding preview_selected preview_bytes_selected_with_ledger
  preview_selected-Costs selection requested = search reads depth 16

  module _ (kind : ProviderKind) (n : ℕ) where
    answered-Costs :
        (strategy : ReadStrategy) (size : ℕ) (lines : List ParsedLine)
        → Costs meter 0 0 (answered runtime kind p n strategy size lines)
    unfolding answered
    answered-Costs strategy size lines = search reads depth 16

    head_rest-Costs :
        (selection : GuardedReadSelection) (size : ℕ)
        → Costs meter 0 0 (head_rest runtime kind p n selection size)
    unfolding head_rest
    head_rest-Costs selection size = search (reads, answered-Costs) depth 20

    pub head_sized-Costs :
        (selection : GuardedReadSelection) (size : ℕ)
        → Costs meter 0 0 (head_sized runtime kind p n selection size)
    unfolding head_sized
    head_sized-Costs selection size = search (reads, answered-Costs, head_rest-Costs) depth 20

    previous_byte-Costs :
        (selection : GuardedReadSelection) (start : ℕ)
        → Costs meter 0 0 (previous_byte runtime kind p n selection start)
    unfolding previous_byte
    previous_byte-Costs selection start = search reads depth 16

    pub tail_sized-Costs :
        (selection : GuardedReadSelection) (force_stream : Bool) (size : ℕ)
        → Costs meter 0 0 (tail_sized runtime kind p n selection force_stream size)
    unfolding tail_sized
    tail_sized-Costs selection force_stream size =
        search (reads, previous_byte-Costs, answered-Costs) depth 24

    pub mid_sized-Costs :
        (selection : GuardedReadSelection) (force_stream : Bool) (size : ℕ)
        → Costs meter 0 0 (mid_sized runtime kind p n selection force_stream size)
    unfolding mid_sized
    mid_sized-Costs selection force_stream size = search (reads, answered-Costs) depth 24

  pub count_sized-Costs :
      (kind : ProviderKind) (selection : GuardedReadSelection) (size : ℕ)
      → Costs meter 0 0 (count_sized runtime kind p selection size)
  unfolding count_sized
  count_sized-Costs kind selection size = search reads depth 24
