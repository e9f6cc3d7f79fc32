-- ===== src/Ops/Budget.antt =====
-- crates/storageprims-ops/src/lib.rs: `InspectionBudget`, `validate_budget` and the ledger that
-- charges requests, payload and output to a budget. An operation of the ledger takes the reading of
-- the monotonic clock, and returns the new ledger or the error; a refused charge changes nothing.
pub mod Bounds
pub mod Charges
use storageprims.Prelude.{
  ℕ, ◌+◌, ◌-◌, ◌*◌, ◌/◌, ◌^◌, Bool, Option, none, some, min, leb, ltb, ◌==◌, ◌||◌, if◌then◌else◌,
  text, String,
}
use storageprims.Core.Error.{
  ProviderKind, StorageOperation, InspectionKind, InspectionLimitDimension, StorageError, Result,
  ok, err, refuse, ok_or, ◌>>=◌, ◌>>◌,
}
use storageprims.Core.Source.{u64_max, checked_add}

abbrev pub max_budget_bytes : ℕ
max_budget_bytes = 64 * 1024 * 1024

abbrev pub max_output_bytes : ℕ
max_output_bytes = 8 * 1024 * 1024

abbrev pub max_pending_line_bytes : ℕ
max_pending_line_bytes = 8 * 1024 * 1024

abbrev pub max_helper_requests : ℕ
max_helper_requests = 64

abbrev pub max_line_count : ℕ
max_line_count = 10_000

abbrev pub max_chunk_size : ℕ
max_chunk_size = 1024 * 1024

abbrev pub max_probe_size : ℕ
max_probe_size = 1024 * 1024

-- `wall_time` in nanoseconds
pub record InspectionBudget : Type 0 where
  pub payload_bytes : ℕ
  pub helper_requests : ℕ
  pub output_bytes : ℕ
  pub pending_line_bytes : ℕ
  pub line_count : ℕ
  pub chunk_size : ℕ
  pub probe_size : ℕ
  pub wall_time : ℕ

-- `InspectionBudget::default()`
abbrev pub default_budget : InspectionBudget
default_budget = record {
  payload_bytes = 8 * 1024 * 1024;
  helper_requests = 16;
  output_bytes = 1024 * 1024;
  pending_line_bytes = 1024 * 1024;
  line_count = 256;
  chunk_size = 256 * 1024;
  probe_size = 32 * 1024;
  wall_time = 30 * 1_000_000_000;
}

-- the closure `invalid`
abbrev invalid : StorageOperation → String → String → StorageError
invalid operation argument reason =
    StorageError.invalid_argument (some operation) (text argument) (text reason)

abbrev outside : StorageOperation → ℕ → ℕ → String → Result (Unit {0})
outside operation value cap argument =
    refuse (value == 0 || ltb cap value)
      (invalid operation argument "must be within the finite inspection cap")

unfoldable pub validate_budget : StorageOperation → InspectionBudget → Result (Unit {0})
validate_budget operation budget = do
  outside operation budget.payload_bytes max_budget_bytes "payload_bytes"
  outside operation budget.helper_requests max_helper_requests "helper_requests"
  outside operation budget.output_bytes max_output_bytes "output_bytes"
  outside operation budget.pending_line_bytes max_pending_line_bytes "pending_line_bytes"
  outside operation budget.line_count max_line_count "line_count"
  outside operation budget.chunk_size max_chunk_size "chunk_size"
  outside operation budget.probe_size max_probe_size "probe_size"
  refuse (budget.wall_time == 0)
      (invalid operation "wall_time" "must be a positive finite duration")

pub record InspectionLedger : Type 0 where
  pub provider : ProviderKind
  pub operation : StorageOperation
  pub budget : InspectionBudget
  pub deadline : ℕ
  pub helper_requests : ℕ
  pub payload_bytes : ℕ
  pub output_bytes : ℕ

-- `InspectionLedger::new`. `clock_max` is the last instant that the monotonic clock represents,
-- which the platform decides.
unfoldable pub new_ledger :
    (clock_max now : ℕ)
    → ProviderKind
    → StorageOperation
    → InspectionBudget
    → Result InspectionLedger
new_ledger clock_max now provider operation budget = do
  validate_budget operation budget
  refuse (ltb clock_max (now + budget.wall_time))
      (invalid operation "wall_time" "duration cannot be represented by the monotonic clock")
  ok (record {
    provider = provider;
    operation = operation;
    budget = budget;
    deadline = now + budget.wall_time;
    helper_requests = 0;
    payload_bytes = 0;
    output_bytes = 0;
  })

unfoldable pub limit : InspectionLedger → InspectionLimitDimension → ℕ → ℕ → StorageError
limit l dimension configured_limit consumed =
    StorageError.inspection (some l.provider) l.operation InspectionKind.limit_exceeded
      (some dimension) configured_limit consumed

-- `as_millis().min(u64::MAX) as u64`
abbrev pub wall_millis : InspectionBudget → ℕ
wall_millis budget = min (budget.wall_time / 1_000_000) u64_max

unfoldable pub deadline_error : InspectionLedger → StorageError
deadline_error l =
    limit l InspectionLimitDimension.deadline (wall_millis l.budget) (wall_millis l.budget)

unfoldable pub check_deadline : ℕ → InspectionLedger → Result (Unit {0})
check_deadline now l = refuse (leb l.deadline now) (deadline_error l)

-- `checked_add(1)` on u32
abbrev next_request : ℕ → Option ℕ
next_request n = if leb (n + 1) (2 ^ 32 - 1) then some (n + 1) else none

unfoldable pub request : ℕ → InspectionLedger → Result InspectionLedger
request now l = do
  check_deadline now l
  next ←
      ok_or (next_request l.helper_requests)
        (limit l InspectionLimitDimension.requests l.budget.helper_requests u64_max)
  refuse (ltb l.budget.helper_requests next)
      (limit l InspectionLimitDimension.requests l.budget.helper_requests next)
  ok (record l { helper_requests = next })

unfoldable pub admit_payload : ℕ → ℕ → InspectionLedger → Result InspectionLedger
admit_payload now bytes l = do
  check_deadline now l
  next ←
      ok_or (checked_add l.payload_bytes bytes)
        (limit l InspectionLimitDimension.payload_bytes l.budget.payload_bytes u64_max)
  refuse (ltb l.budget.payload_bytes next)
      (limit l InspectionLimitDimension.payload_bytes l.budget.payload_bytes next)
  ok (record l { payload_bytes = next })

-- `saturating_sub` is the subtraction of natural numbers
unfoldable pub release_payload : ℕ → InspectionLedger → InspectionLedger
release_payload bytes l = record l { payload_bytes = l.payload_bytes - bytes }

unfoldable pub admit_output : ℕ → InspectionLedger → Result InspectionLedger
admit_output bytes l = do
  next ←
      ok_or (checked_add l.output_bytes bytes)
        (limit l InspectionLimitDimension.output_bytes l.budget.output_bytes u64_max)
  refuse (ltb l.budget.output_bytes next)
      (limit l InspectionLimitDimension.output_bytes l.budget.output_bytes next)
  ok (record l { output_bytes = next })
