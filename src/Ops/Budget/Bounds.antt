-- ===== src/Ops/Budget/Bounds.antt =====
-- Which budgets `validate_budget` accepts.
use storageprims.Prelude.{ℕ, ◌≤◌, ◌≡◌, ◌↔◌, arith}
use storageprims.Core.Error.{StorageOperation, ok}
use storageprims.Ops.Budget.{
  InspectionBudget, validate_budget, max_budget_bytes, max_helper_requests, max_output_bytes,
  max_pending_line_bytes, max_line_count, max_chunk_size, max_probe_size,
}

abbrev IsWithin : ℕ → ℕ → Type 0
IsWithin value cap = (1 ≤ value) × (value ≤ cap)

-- every dimension is positive, and within its cap
pub record IsFinite (b : InspectionBudget) : Type 0 where
  pub payload : IsWithin b.payload_bytes max_budget_bytes
  pub requests : IsWithin b.helper_requests max_helper_requests
  pub output : IsWithin b.output_bytes max_output_bytes
  pub pending : IsWithin b.pending_line_bytes max_pending_line_bytes
  pub lines : IsWithin b.line_count max_line_count
  pub chunk : IsWithin b.chunk_size max_chunk_size
  pub probe : IsWithin b.probe_size max_probe_size
  pub time : 1 ≤ b.wall_time

-- A budget is accepted exactly when every dimension is positive and within its cap.
pub validate_budget-IsFinite :
    (operation : StorageOperation) (b : InspectionBudget)
    → (validate_budget operation b ≡ ok tt) ↔ IsFinite b
unfolding validate_budget
validate_budget-IsFinite operation b = ground arith
