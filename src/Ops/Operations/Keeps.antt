-- ===== src/Ops/Operations/Keeps.antt =====
-- The operations on a selected source leave the ledger on its budget, whatever the provider answers.
use storageprims.Prelude.{ℕ, Bool, List, arith}
use storageprims.Core.Error.{ProviderKind}
use storageprims.Core.Source.{GuardedReadSelection}
use storageprims.Ops.Lines.{ParsedLine}
use storageprims.Ops.Budget.{admit_output}
use storageprims.Ops.Receipt.{apply_line_output_budget}
use storageprims.Ops.Align.{ReadStrategy}
use storageprims.Ops.Provider.{GuardedReadProvider, Runtime}
use storageprims.Ops.Provider.Keeps.{Keeps, Charges, admit_output-Charges}
use storageprims.Ops.Read.Keeps.{
  keeping, selected_head-Keeps, guarded_range_bytes-Keeps, line_probe-Keeps,
}
use storageprims.Ops.Operations.{
  answered, head_rest, head_sized, previous_byte, tail_sized, mid_sized, count_sized,
  preview_bytes_selected_with_ledger, preview_selected,
}

apply_line_output_budget-Charges :
    (lines : List ParsedLine) → Charges (λ l. apply_line_output_budget l lines)
unfolding apply_line_output_budget admit_output
apply_line_output_budget-Charges lines l m q = ground (arith, q)

ruleset reads = (
  keeping, selected_head-Keeps, guarded_range_bytes-Keeps, line_probe-Keeps,
  apply_line_output_budget-Charges, admit_output-Charges,
)

module _ {W R : Type 0} (runtime : Runtime W) (p : GuardedReadProvider W R) where
  pub preview_selected-Keeps :
      (selection : GuardedReadSelection) (requested : ℕ)
      → Keeps (preview_selected runtime p selection requested)
  unfolding preview_selected preview_bytes_selected_with_ledger
  preview_selected-Keeps selection requested = search reads depth 16

  module _ (kind : ProviderKind) (n : ℕ) where
    answered-Keeps :
        (strategy : ReadStrategy) (size : ℕ) (lines : List ParsedLine)
        → Keeps (answered runtime kind p n strategy size lines)
    unfolding answered
    answered-Keeps strategy size lines = search reads depth 16

    head_rest-Keeps :
        (selection : GuardedReadSelection) (size : ℕ)
        → Keeps (head_rest runtime kind p n selection size)
    unfolding head_rest
    head_rest-Keeps selection size = search (reads, answered-Keeps) depth 20

    pub head_sized-Keeps :
        (selection : GuardedReadSelection) (size : ℕ)
        → Keeps (head_sized runtime kind p n selection size)
    unfolding head_sized
    head_sized-Keeps selection size = search (reads, answered-Keeps, head_rest-Keeps) depth 20

    previous_byte-Keeps :
        (selection : GuardedReadSelection) (start : ℕ)
        → Keeps (previous_byte runtime kind p n selection start)
    unfolding previous_byte
    previous_byte-Keeps selection start = search reads depth 16

    pub tail_sized-Keeps :
        (selection : GuardedReadSelection) (force_stream : Bool) (size : ℕ)
        → Keeps (tail_sized runtime kind p n selection force_stream size)
    unfolding tail_sized
    tail_sized-Keeps selection force_stream size =
        search (reads, previous_byte-Keeps, answered-Keeps) depth 24

    pub mid_sized-Keeps :
        (selection : GuardedReadSelection) (force_stream : Bool) (size : ℕ)
        → Keeps (mid_sized runtime kind p n selection force_stream size)
    unfolding mid_sized
    mid_sized-Keeps selection force_stream size = search (reads, answered-Keeps) depth 24

  pub count_sized-Keeps :
      (kind : ProviderKind) (selection : GuardedReadSelection) (size : ℕ)
      → Keeps (count_sized runtime kind p selection size)
  unfolding count_sized
  count_sized-Keeps kind selection size = search reads depth 24
