-- ===== src/Tests/Operations.antt =====
-- The line operations on the one object.
use storageprims.Prelude.{
  ℕ, Bytes, some, none, slice, ◌+◌, ◌≡◌, refl, arith, true, [], ◌∷◌, codes, text, bytes_eq, length,
  take,
}
use storageprims.Prelude.Utf8.{from_utf8, utf8_ok}
use storageprims.Core.Error.{ok}
use storageprims.Core.Source.{
  GuardedReadSelection, bind, validate, validate_strong_etag, checked_len,
}
use storageprims.Ops.Lines.{
  mixed, cr_lf, checked_text, parse_lines_up_to, parse_tail_lines_bounded, parse_with,
  extract_first_complete_line,
}
use storageprims.Ops.Lines.Reference.{raw_lines}
use storageprims.Ops.Budget.{
  validate_budget, new_ledger, check_deadline, request, admit_payload, release_payload,
  admit_output,
}
use storageprims.Ops.Receipt.{
  validate_guarded_range_receipt, expected_end, line_budget, apply_line_output_budget, sum_lengths,
}
use storageprims.Ops.Align.{
  LineResult, is_compressed_key, range_backward, forward_stream, build_line_result, empty_result,
  aggregate_line_endings, reject_binary_prefix, starts_with_utf16_bom, strip_utf8_bom,
}
use storageprims.Ops.Provider.{require_guarded_reads, ◌>>=◌, charge, refuse_with, clocked, timed}
use storageprims.Ops.Read.{
  offered, at_end, observe_and_bind, selected_head, selected_size, timed_read, read_body, prove_end,
  guarded_request, range_bytes, guarded_range_bytes, line_probe,
}
use storageprims.Ops.Read.Range.{raw_texts}
use storageprims.Ops.Operations.{
  answered, head_rest, head_sized, tail_sized, tail_aligned, previous_byte, count_sized,
}
use storageprims.Ops.Entry.{
  with_ledger, on_source, head_lines_with_options, tail_lines_with_options, count_lines,
}
use storageprims.Ops.Count.{count_lines_bounded, complete_line_consumed}
use storageprims.Ops.Entry.About.{IsAbout}
use storageprims.Ops.Entry.Head.{head_lines_with_options-IsAbout}
use storageprims.Ops.Entry.Count.{count_lines-length}
use storageprims.Ops.Provider.{StorageProvider}
use storageprims.Ops.Align.{range_midpoint}
use storageprims.Ops.Lines.{unknown}
use storageprims.Ops.Entry.Tail.{tail_lines_with_options-IsAbout}
use storageprims.Ops.Lines.Select.{take_last}
use storageprims.Tests.World.{
  last_of, range_receipt, object, guarded, provider, runtime, completes, serves, short_probe,
  states,
}

abbrev two_lines : LineResult
two_lines = record {
  lines = codes "ab" ∷ codes "cd" ∷ [];
  byte_offset_start = 0;
  byte_offset_end = 7;
  total_size = 8;
  line_ending = mixed;
  strategy = forward_stream;
}

heads :
    head_lines_with_options runtime 1_000_000_000_000 provider (codes "logs/a") 2 short_probe 5
    ≡ (ok two_lines, 18)
unfolding head_lines_with_options line_budget validate_budget with_ledger new_ledger on_source
    require_guarded_reads observe_and_bind clocked request check_deadline timed offered bind
    validate validate_strong_etag selected_size selected_head head_sized head_rest line_probe
    guarded_range_bytes range_bytes admit_payload guarded_request validate_guarded_range_receipt
    expected_end checked_len read_body timed_read prove_end charge release_payload
    reject_binary_prefix parse_lines_up_to parse_with extract_first_complete_line checked_text
    at_end answered apply_line_output_budget sum_lengths admit_output build_line_result
    aggregate_line_endings ◌>>=◌ text bytes_eq starts_with_utf16_bom strip_utf8_bom from_utf8
    utf8_ok refuse_with empty_result
heads = refl

head_lines_with_options-IsAbout_example :
    IsAbout
      (λ s. object)
      (codes "logs/a")
      (λ doc. raw_texts (take 2 (raw_lines true doc)))
      two_lines
head_lines_with_options-IsAbout_example =
    head_lines_with_options-IsAbout runtime 1_000_000_000_000 provider guarded (λ s. object)
      (codes "logs/a") 2 short_probe 5 18 two_lines completes serves refl (λ s. omega arith) heads

counts : count_lines runtime 1_000_000_000_000 provider (codes "logs/a") 5 ≡ (ok 3, 20)
unfolding count_lines count_sized count_lines_bounded complete_line_consumed line_budget
    validate_budget with_ledger new_ledger on_source require_guarded_reads observe_and_bind clocked
    request check_deadline timed offered bind validate validate_strong_etag selected_size
    selected_head line_probe guarded_range_bytes range_bytes admit_payload guarded_request
    validate_guarded_range_receipt expected_end checked_len read_body timed_read prove_end charge
    release_payload reject_binary_prefix parse_lines_up_to parse_with extract_first_complete_line
    checked_text at_end answered apply_line_output_budget sum_lengths admit_output build_line_result
    aggregate_line_endings ◌>>=◌ text bytes_eq starts_with_utf16_bom strip_utf8_bom from_utf8
    utf8_ok refuse_with empty_result
counts = refl

count_lines-length_example :
    (s : GuardedReadSelection) × (s.key ≡ codes "logs/a") × (3 ≡ length (raw_lines true object))
count_lines-length_example =
    count_lines-length runtime 1_000_000_000_000 provider guarded (λ s. object) (codes "logs/a") 5
      20 3 completes serves refl (λ s. omega arith) counts

abbrev last_lines : LineResult
last_lines = record {
  lines = codes "cd" ∷ codes "e" ∷ [];
  byte_offset_start = 3;
  byte_offset_end = 8;
  total_size = 8;
  line_ending = cr_lf;
  strategy = range_backward;
}

tails :
    tail_lines_with_options runtime 1_000_000_000_000 provider (codes "logs/a") 2 short_probe 5
    ≡ (ok last_lines, 18)
unfolding tail_lines_with_options tail_sized tail_aligned previous_byte parse_tail_lines_bounded
    is_compressed_key line_budget validate_budget with_ledger new_ledger on_source
    require_guarded_reads observe_and_bind clocked request check_deadline timed offered bind
    validate validate_strong_etag selected_size selected_head line_probe guarded_range_bytes
    range_bytes admit_payload guarded_request validate_guarded_range_receipt expected_end
    checked_len read_body timed_read prove_end charge release_payload reject_binary_prefix
    parse_lines_up_to parse_with extract_first_complete_line checked_text at_end answered
    apply_line_output_budget sum_lengths admit_output build_line_result aggregate_line_endings ◌>>=◌
    text bytes_eq starts_with_utf16_bom strip_utf8_bom from_utf8 utf8_ok refuse_with empty_result
tails = refl

tail_lines_with_options-IsAbout_example :
    IsAbout
      (λ s. object)
      (codes "logs/a")
      (λ doc. take_last 2 (raw_texts (raw_lines true doc)))
      last_lines
tail_lines_with_options-IsAbout_example =
    tail_lines_with_options-IsAbout runtime 1_000_000_000_000 provider guarded (λ s. object)
      (codes "logs/a") 2 short_probe 5 18 last_lines completes serves states refl (λ s. omega arith)
      tails

abbrev middle_lines : LineResult
middle_lines = record {
  lines = codes "e" ∷ [];
  byte_offset_start = 7;
  byte_offset_end = 8;
  total_size = 8;
  line_ending = unknown;
  strategy = range_midpoint;
}

-- The receipts of its ranges state no total size: the last line, which has no ending, is lost.
abbrev unsized : StorageProvider ℕ Bytes
unsized = record provider {
  guarded_reads = some (record guarded {
    guarded_get_range = λ request w. (
      ok (record {
        receipt = record (range_receipt request.offset request.length) { total_size = none };
        reader = slice request.offset (last_of request.offset request.length + 1) object;
      }),
      w,
    );
  });
}

abbrev lost_line : LineResult
lost_line = record {
  lines = codes "ab" ∷ codes "cd" ∷ [];
  byte_offset_start = 0;
  byte_offset_end = 7;
  total_size = 8;
  line_ending = mixed;
  strategy = range_backward;
}

loses :
    tail_lines_with_options runtime 1_000_000_000_000 unsized (codes "logs/a") 2 short_probe 5
    ≡ (ok lost_line, 18)
unfolding tail_lines_with_options tail_sized tail_aligned previous_byte parse_tail_lines_bounded
    is_compressed_key line_budget validate_budget with_ledger new_ledger on_source
    require_guarded_reads observe_and_bind clocked request check_deadline timed offered bind
    validate validate_strong_etag selected_size selected_head line_probe guarded_range_bytes
    range_bytes admit_payload guarded_request validate_guarded_range_receipt expected_end
    checked_len read_body timed_read prove_end charge release_payload reject_binary_prefix
    parse_lines_up_to parse_with extract_first_complete_line checked_text at_end answered
    apply_line_output_budget sum_lengths admit_output build_line_result aggregate_line_endings ◌>>=◌
    text bytes_eq starts_with_utf16_bom strip_utf8_bom from_utf8 utf8_ok refuse_with empty_result
loses = refl
