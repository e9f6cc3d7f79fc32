-- ===== src/Ops/Read/Keeps.antt =====
-- The guarded reads keep the budget.
use storageprims.Prelude.{ℕ, zero, suc, Bytes, arith}
use storageprims.Core.Source.{GuardedReadSelection, SourceReceipt}
use storageprims.Ops.Budget.{check_deadline}
use storageprims.Ops.Provider.{GuardedReadProvider, Runtime}
use storageprims.Ops.Provider.Keeps.{
  Keeps, Charges, Follows, >>=-Keeps, pure-Keeps, lift-Keeps, gets-Keeps, if-Keeps, timed-Keeps,
  refuse_with-Keeps, charge-Keeps, clocked-Keeps, request-Charges, admit_payload-Charges,
  release_payload-Charges,
}
use storageprims.Ops.Read.{
  check_clock, observe_and_bind, selected_head, selected_size, timed_read, read_body, prove_end,
  guarded_request, range_bytes, guarded_range_bytes, line_probe,
}

pub check_clock-Charges : (now : ℕ) → Charges (check_clock now)
unfolding check_deadline
check_clock-Charges now l m q = ground arith

pub ruleset keeping = (
  >>=-Keeps, pure-Keeps, lift-Keeps, gets-Keeps, if-Keeps, timed-Keeps, refuse_with-Keeps,
  charge-Keeps, clocked-Keeps, request-Charges, admit_payload-Charges, release_payload-Charges,
  check_clock-Charges,
)

module _ {W R : Type 0} (runtime : Runtime W) (p : GuardedReadProvider W R) where
  pub observe_and_bind-Keeps : (key : Bytes) → Keeps (observe_and_bind runtime p key)
  unfolding observe_and_bind
  observe_and_bind-Keeps key = search keeping depth 12

  pub selected_head-Keeps :
      (selection : GuardedReadSelection) → Keeps (selected_head runtime p selection)
  unfolding selected_head
  selected_head-Keeps selection = search keeping

  timed_read-Keeps : (capacity : ℕ) (reader : R) → Keeps (timed_read runtime p capacity reader)
  unfolding timed_read
  timed_read-Keeps capacity reader = search keeping

  prove_end-Keeps : (reader : R) → Keeps (prove_end runtime p reader)
  unfolding prove_end
  prove_end-Keeps reader = search (keeping, timed_read-Keeps)

  pub selected_size-Keeps :
      (selection : GuardedReadSelection) (receipt : SourceReceipt)
      → Keeps (selected_size runtime p selection receipt)
  unfolding selected_size
  selected_size-Keeps selection receipt = search (keeping, selected_head-Keeps)

  read_body-Keeps :
      (fuel capacity scratch : ℕ) (bytes : Bytes) (reader : R)
      → Keeps (read_body runtime p fuel capacity scratch bytes reader)
  unfolding read_body
  read_body-Keeps zero capacity scratch bytes reader = search keeping
  read_body-Keeps (suc fuel) capacity scratch bytes reader =
      search (keeping, timed_read-Keeps, read_body-Keeps fuel) depth 16

  guarded_request-Keeps :
      (selection : GuardedReadSelection) (offset requested : ℕ)
      → Keeps (guarded_request runtime p selection offset requested)
  unfolding guarded_request
  guarded_request-Keeps selection offset requested = search keeping depth 12

  range_bytes-Keeps :
      (selection : GuardedReadSelection) (offset requested : ℕ)
      → Keeps (range_bytes runtime p selection offset requested)
  unfolding range_bytes
  range_bytes-Keeps selection offset requested =
      search (keeping, guarded_request-Keeps, read_body-Keeps, prove_end-Keeps) depth 16

  pub guarded_range_bytes-Keeps :
      (selection : GuardedReadSelection) (offset requested : ℕ)
      → Keeps (guarded_range_bytes runtime p selection offset requested)
  unfolding guarded_range_bytes
  guarded_range_bytes-Keeps selection offset zero = search keeping
  guarded_range_bytes-Keeps selection offset (suc requested) = search range_bytes-Keeps

  pub line_probe-Keeps :
      (selection : GuardedReadSelection) (size : ℕ) → Keeps (line_probe runtime p selection size)
  unfolding line_probe
  line_probe-Keeps selection size = search (keeping, guarded_range_bytes-Keeps) depth 16
