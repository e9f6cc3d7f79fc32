-- ===== src/Tests/Reads.antt =====
-- The guarded reads and the previews of the one object.
use storageprims.Prelude.{
  sym, ℕ, ◌+◌, ◌≡◌, refl, arith, min, some, [], ◌++◌, Bytes, codes, text, bytes_eq, length,
  length-take, take, drop,
}
use storageprims.Prelude.Utf8.{from_utf8, utf8_ok}
use storageprims.Core.Error.{ProviderKind, ok}
use storageprims.Core.Source.{bind, validate, validate_strong_etag, checked_len}
use storageprims.Ops.Lines.{
  checked_text, parse_lines_up_to, parse_with, extract_first_complete_line,
}
use storageprims.Ops.Budget.{
  validate_budget, new_ledger, check_deadline, request, admit_payload, release_payload,
  admit_output, default_budget,
}
use storageprims.Ops.Receipt.{
  validate_guarded_range_receipt, expected_end, line_budget, apply_line_output_budget, sum_lengths,
  validate_preview_request,
}
use storageprims.Ops.Align.{
  build_line_result, empty_result, aggregate_line_endings, reject_binary_prefix,
  starts_with_utf16_bom, strip_utf8_bom,
}
use storageprims.Ops.Provider.{
  require_guarded_reads, Runtime, ◌>>=◌, charge, refuse_with, clocked, timed,
}
use storageprims.Ops.Read.{
  offered, at_end, observe_and_bind, selected_head, selected_size, timed_read, read_body, prove_end,
  guarded_request, range_bytes, guarded_range_bytes, line_probe,
}
use storageprims.Ops.Read.Returns.{InTime, Progresses, read_body-returns}
use storageprims.Ops.Read.Serves.{IsRange, guarded_range_bytes-IsRange}
use storageprims.Ops.Operations.{
  answered, BytePreview, preview_bytes_selected_with_ledger, preview_selected,
}
use storageprims.Ops.Entry.{with_ledger, on_source, preview_bytes_selected}
use storageprims.Ops.Entry.Preview.{IsPreview, preview_bytes_selected-IsPreview}
use storageprims.Tests.World.{
  object, range_receipt, guarded, runtime, completes, take-drop, serves, selection, state, after,
}

abbrev front : BytePreview
front = record {
  bytes = codes "ab\nc";
  receipt = range_receipt 0 4;
  consumed_payload_bytes = 4;
  helper_requests = 2;
}

previews :
    preview_bytes_selected runtime 1_000_000_000_000 guarded ProviderKind.s3 selection 4
      default_budget 5
    ≡ (ok (some front), 11)
unfolding preview_bytes_selected preview_selected preview_bytes_selected_with_ledger
    validate_preview_request line_budget validate_budget with_ledger new_ledger on_source
    require_guarded_reads observe_and_bind clocked request check_deadline timed offered bind
    validate validate_strong_etag selected_size selected_head line_probe guarded_range_bytes
    range_bytes admit_payload guarded_request validate_guarded_range_receipt expected_end
    checked_len read_body timed_read prove_end charge release_payload reject_binary_prefix
    parse_lines_up_to parse_with extract_first_complete_line checked_text at_end answered
    apply_line_output_budget sum_lengths admit_output build_line_result aggregate_line_endings ◌>>=◌
    text bytes_eq starts_with_utf16_bom strip_utf8_bom from_utf8 utf8_ok refuse_with empty_result
previews = refl

preview_bytes_selected-IsPreview_example : IsPreview object 4 (some front)
preview_bytes_selected-IsPreview_example =
    preview_bytes_selected-IsPreview runtime 1_000_000_000_000 guarded (λ s. object) ProviderKind.s3
      selection 4 default_budget 5 11 (some front) completes serves (omega arith) previews

reads :
    guarded_range_bytes runtime guarded selection 3 4 state
    ≡ (ok (codes "cd\r\n", range_receipt 3 4), after)
unfolding line_budget validate_budget with_ledger new_ledger on_source require_guarded_reads
    observe_and_bind clocked request check_deadline timed offered bind validate validate_strong_etag
    selected_size selected_head line_probe guarded_range_bytes range_bytes admit_payload
    guarded_request validate_guarded_range_receipt expected_end checked_len read_body timed_read
    prove_end charge release_payload reject_binary_prefix parse_lines_up_to parse_with
    extract_first_complete_line checked_text at_end answered apply_line_output_budget sum_lengths
    admit_output build_line_result aggregate_line_endings ◌>>=◌ text bytes_eq starts_with_utf16_bom
    strip_utf8_bom from_utf8 utf8_ok refuse_with empty_result
reads = refl

guarded_range_bytes-IsRange_example : IsRange object 3 4 (codes "cd\r\n") (range_receipt 3 4)
guarded_range_bytes-IsRange_example =
    guarded_range_bytes-IsRange runtime completes guarded (λ s. object) serves selection 3 4 state
      after (codes "cd\r\n") (range_receipt 3 4) reads (omega arith) (omega arith)

-- a clock that stands still, and calls that end
abbrev unhurried : Runtime ℕ
unhurried = record {
  now = λ w. (0, w + 1);
  timeout_at = λ deadline call w. (some (call w).0, (call w).1);
}

in_time : InTime unhurried 1_000_000_000
in_time = record { early = λ w. omega arith; ends = λ A call w. refl }

progresses : Progresses guarded (λ reader. reader)
progresses capacity reader w one = record {
  chunk = take (min capacity 2) reader;
  next = drop (min capacity 2) reader;
  after = w;
  reads = refl;
  is_front = sym (take-drop (min capacity 2) reader);
  fits = omega (arith, length-take (min capacity 2) reader);
  moves = λ h. omega (arith, length-take (min capacity 2) reader, h, one);
}

read_body-returns_example :
    (out : Bytes) × (next : Bytes) × (v : ℕ) × ([] ++ object ≡ out ++ next)
    × (length out ≡ 5)
    × (read_body unhurried guarded 5 5 3 [] object state
        ≡ (ok (out, next), record { ledger = state.ledger; world = v }))
read_body-returns_example =
    read_body-returns unhurried guarded (λ reader. reader) progresses 1_000_000_000 in_time 5 5 3 []
      object state refl (omega arith) (omega arith) (omega arith) (omega arith)
