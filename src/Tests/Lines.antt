-- ===== src/Tests/Lines.antt =====
-- The line parsers on texts that mix the three endings.
use storageprims.Prelude.{
  ℕ, ◌≡◌, refl, true, false, some, [], ◌∷◌, arith, Bytes, codes, length, text,
}
use storageprims.Prelude.Utf8.{utf8_ok}
use storageprims.Core.Error.{s3, StorageOperation, ok, err, ◌>>=◌}
use storageprims.Ops.Lines.{
  LineEnding, cr_lf, cr, ParsedLine, parse_lines, parse_lines_up_to, parse_tail_lines_bounded,
  parse_with, checked_text, extract_first_complete_line, binary_error,
}
use storageprims.Ops.Lines.Reference.{raw_lines}
use storageprims.Ops.Lines.Select.{
  take_last, place, parse_lines_up_to-take, parse_tail_lines_bounded-take_last,
}
use storageprims.Ops.Count.{complete_line_consumed, count_lines_bounded}
use storageprims.Ops.Count.Agree.{count_lines_bounded-parse_lines}
use storageprims.Prelude.{take}

abbrev mixed_text : Bytes
mixed_text = codes "a\r\nbc\rd\ne"

abbrev line_of : Bytes → ℕ → ℕ → LineEnding → ParsedLine
line_of text start end ending = record {
  text = text;
  start = start;
  end = end;
  ending = some ending;
}

parse_lines_up_to_runs :
    parse_lines_up_to s3 StorageOperation.head_lines mixed_text 0 false 2
    ≡ ok (line_of (codes "a") 0 3 cr_lf ∷ line_of (codes "bc") 3 6 cr ∷ [])
unfolding parse_lines_up_to parse_with checked_text utf8_ok extract_first_complete_line
parse_lines_up_to_runs = refl

-- a carriage return in the last place waits for the byte behind it
terminal_cr_waits : parse_lines_up_to s3 StorageOperation.head_lines (codes "a\r") 0 false 2 ≡ ok []
unfolding parse_lines_up_to parse_with checked_text utf8_ok extract_first_complete_line
terminal_cr_waits = refl

invalid_line :
    parse_lines_up_to s3 StorageOperation.head_lines (0xFF ∷ b'\n' ∷ []) 0 true 1
    ≡ err (binary_error s3 StorageOperation.head_lines)
unfolding parse_lines_up_to parse_with checked_text utf8_ok extract_first_complete_line
invalid_line = refl

count_runs : count_lines_bounded s3 StorageOperation.count_lines mixed_text ≡ ok 4
unfolding count_lines_bounded complete_line_consumed checked_text utf8_ok
count_runs = refl

parse_lines_up_to-take_example :
    parse_lines_up_to s3 StorageOperation.head_lines mixed_text 0 false 2
    ≡ place s3 StorageOperation.head_lines 0 (take 2 (raw_lines false mixed_text))
parse_lines_up_to-take_example =
    parse_lines_up_to-take s3 StorageOperation.head_lines mixed_text 0 false 2

parse_tail_lines_bounded-take_last_example :
    parse_tail_lines_bounded s3 StorageOperation.tail_lines mixed_text 7 true 2 ≡ (
      parse_lines s3 StorageOperation.tail_lines mixed_text 7 true >>= λ lines.
      ok (take_last 2 lines))
parse_tail_lines_bounded-take_last_example =
    parse_tail_lines_bounded-take_last s3 StorageOperation.tail_lines mixed_text 7 true 2
      (omega arith)

count_lines_bounded-parse_lines_example :
    count_lines_bounded s3 StorageOperation.count_lines mixed_text
    ≡ (parse_lines s3 StorageOperation.count_lines mixed_text 0 true >>= λ lines. ok (length lines))
count_lines_bounded-parse_lines_example =
    count_lines_bounded-parse_lines s3 StorageOperation.count_lines mixed_text 0 (omega arith)
