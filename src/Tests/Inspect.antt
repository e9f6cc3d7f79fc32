-- ===== src/Tests/Inspect.antt =====
-- Budgets, receipts and alignment.
use storageprims.Prelude.{
  ℕ, ◌+◌, ◌≤◌, ◌<◌, ◌≡◌, ◌≢◌, ◌↔◌, refl, arith, none, some, [], ◌∷◌, ◌++◌, codes, All, Bytes, true,
  false,
}
use storageprims.Prelude.Utf8.{utf8_ok, from_utf8}
use storageprims.Core.Error.{s3, StorageOperation, ok}
use storageprims.Core.Source.{SourceReceipt}
use storageprims.Ops.Lines.{ParsedLine}
use storageprims.Ops.Budget.{
  InspectionLedger, default_budget, validate_budget, new_ledger, request, check_deadline,
  admit_payload, max_helper_requests, max_budget_bytes, max_output_bytes,
}
use storageprims.Ops.Budget.Bounds.{IsFinite, validate_budget-IsFinite}
use storageprims.Ops.Budget.Charges.{
  Charges, requested, admitted_payload, none_yet, then, request_iff, Charges-new_ledger,
}
use storageprims.Ops.Receipt.{validate_guarded_range_receipt, apply_line_output_budget}
use storageprims.Ops.Receipt.Prove.{
  IsWindow, Returns, text_bytes, validate_guarded_range_receipt_iff, apply_line_output_budget_iff,
}
use storageprims.Ops.Align.{
  next_line_boundary, midpoint_alignment, reject_binary_prefix, starts_with_utf16_bom,
  strip_utf8_bom,
}
use storageprims.Ops.Align.Boundary.{
  IsNextStart, next_line_boundary-IsNextStart, midpoint_alignment-next_line_boundary,
}
use storageprims.Ops.Align.Binary.{reject_binary_prefix_iff, reject_binary_prefix-utf8_ok}

abbrev op : StorageOperation
op = StorageOperation.tail_lines

abbrev ledger : ℕ → ℕ → InspectionLedger
ledger requests payload = record {
  provider = s3;
  operation = op;
  budget = default_budget;
  deadline = 5 + default_budget.wall_time;
  helper_requests = requests;
  payload_bytes = payload;
  output_bytes = 0;
}

starts : new_ledger 1_000_000_000_000 5 s3 op default_budget ≡ ok (ledger 0 0)
unfolding new_ledger validate_budget
starts = refl

requests : request 6 (ledger 0 0) ≡ ok (ledger 1 0)
unfolding request check_deadline
requests = refl

admits : admit_payload 7 100 (ledger 1 0) ≡ ok (ledger 1 100)
unfolding admit_payload check_deadline
admits = refl

abbrev two_charges : Charges (ledger 0 0) 1 (ledger 1 100)
two_charges =
    then 1 0 (ledger 1 0) (ledger 1 100)
      (then 0 1 (ledger 0 0) (ledger 1 0) none_yet (requested 6 requests))
      (admitted_payload 7 100 admits)

Charges-new_ledger_example :
    (1 ≤ default_budget.helper_requests)
    × (1 ≤ max_helper_requests)
    × (100 ≤ default_budget.payload_bytes)
    × (100 ≤ max_budget_bytes)
    × (0 ≤ default_budget.output_bytes)
    × (0 ≤ max_output_bytes)
    × (5 + default_budget.wall_time ≡ 5 + default_budget.wall_time)
    × (5 < 5 + default_budget.wall_time)
Charges-new_ledger_example =
    Charges-new_ledger 1_000_000_000_000 5 1 s3 op default_budget (ledger 0 0) (ledger 1 100) starts
      two_charges

request_iff_example : (request 6 (ledger 0 0) ≡ ok (ledger 1 0)) ↔ (
    (6 < (ledger 0 0).deadline) × (0 < default_budget.helper_requests) × (ledger 1 0 ≡ ledger 1 0))
request_iff_example = request_iff 6 (ledger 0 0) (ledger 1 0) (omega arith)

validate_budget-IsFinite_example :
    (validate_budget op default_budget ≡ ok tt) ↔ IsFinite default_budget
validate_budget-IsFinite_example = validate_budget-IsFinite op default_budget

abbrev receipt : SourceReceipt
receipt = record {
  path = codes "k";
  native_version = none;
  validator = none;
  total_size = some 12;
  requested_window = some (record { start = 10; end = 19 });
  returned_window = some (record { start = 10; end = 11 });
}

validate_guarded_range_receipt_iff_example :
    (validate_guarded_range_receipt receipt 10 10 op ≡ ok 2) ↔ (
      (20 ≤ 18446744073709551616)
      × IsWindow receipt.requested_window 10 10
      × IsWindow receipt.returned_window 10 2
      × Returns receipt.total_size 10 10 2)
validate_guarded_range_receipt_iff_example =
    validate_guarded_range_receipt_iff receipt 10 10 2 op (omega arith) (omega arith)

abbrev line : ParsedLine
line = record { text = codes "ab"; start = 0; end = 2; ending = none }

abbrev sent : InspectionLedger
sent = record (ledger 1 100) { output_bytes = 2 }

apply_line_output_budget_iff_example :
    (apply_line_output_budget (ledger 1 100) (line ∷ []) ≡ ok sent) ↔ (
      (0 + text_bytes (line ∷ []) ≤ default_budget.output_bytes)
      × (sent ≡ record (ledger 1 100) { output_bytes = 0 + text_bytes (line ∷ []) }))
apply_line_output_budget_iff_example =
    apply_line_output_budget_iff (ledger 1 100) sent (line ∷ []) (omega arith)

abbrev crlf : Bytes
crlf = codes "ab\r\ncd"

next_line_boundary-IsNextStart_example : IsNextStart crlf 1 (next_line_boundary crlf 1)
next_line_boundary-IsNextStart_example = next_line_boundary-IsNextStart crlf 1

midpoint_alignment-next_line_boundary_example :
    midpoint_alignment crlf 2 ≡ next_line_boundary crlf 2
midpoint_alignment-next_line_boundary_example = midpoint_alignment-next_line_boundary crlf 2

abbrev split_point : Bytes
split_point = b'a' ∷ 0xC3 ∷ []

reject_binary_prefix_iff_example : (reject_binary_prefix split_point s3 op ≡ ok tt) ↔ (
    (starts_with_utf16_bom split_point ≡ false)
    × All (λ c. c ≢ 0) split_point
    × ((rest : Bytes) × (utf8_ok (strip_utf8_bom split_point ++ rest) ≡ true)))
reject_binary_prefix_iff_example = reject_binary_prefix_iff split_point s3 op

whole : utf8_ok (split_point ++ 0xA9 ∷ []) ≡ true
unfolding utf8_ok from_utf8
whole = refl

reject_binary_prefix-utf8_ok_example : reject_binary_prefix split_point s3 op ≡ ok tt
reject_binary_prefix-utf8_ok_example =
    reject_binary_prefix-utf8_ok split_point (0xA9 ∷ []) s3 op whole
      (omega arith, (omega arith, tt))
