-- ===== src/Ops/Receipt/Prove.antt =====
-- What an accepted receipt proves of the bytes, and what the output budget check of a line operation
-- requires.
use storageprims.Prelude.{
  Bytes, ℕ, ◌+◌, ◌-◌, ◌^◌, ◌≤◌, ◌<◌, ◌≡◌, ◌↔◌, arith, Option, none, some, min, inl, inr,
  Option-cases, List, [], ◌∷◌, length,
}
use storageprims.Core.Error.{StorageOperation, ok}
use storageprims.Core.Source.{SourceReceipt, ByteWindow, checked_len}
use storageprims.Ops.Lines.{ParsedLine}
use storageprims.Ops.Budget.{InspectionLedger, admit_output}
use storageprims.Ops.Receipt.{
  expected_end, validate_guarded_range_receipt, sum_lengths, apply_line_output_budget,
}

-- the window of `length` bytes from `offset`, of which there is one at least
abbrev pub IsWindow : Option ByteWindow → ℕ → ℕ → Type 0
IsWindow none offset length = ⊥
IsWindow (some w) offset length = (w.start ≡ offset) × (w.end + 1 ≡ offset + length)

-- how many of the requested bytes an object of that size has
abbrev pub Returns : Option ℕ → ℕ → ℕ → ℕ → Type 0
Returns none offset length n = n ≡ length
Returns (some total) offset length n = (offset < total) × (n ≡ min length (total - offset))

by_parts :
    (path : Bytes) (native_version validator : Option Bytes) (total_size : Option ℕ)
    (requested_window returned_window : Option ByteWindow) (offset length n : ℕ)
    (operation : StorageOperation)
    → 1 ≤ length
    → length < 2 ^ 64
    → (validate_guarded_range_receipt
          (record {
            path = path;
            native_version = native_version;
            validator = validator;
            total_size = total_size;
            requested_window = requested_window;
            returned_window = returned_window;
          })
          offset
          length
          operation
        ≡ ok n)
      ↔ ((offset + length ≤ 2 ^ 64)
          × IsWindow requested_window offset length
          × IsWindow returned_window offset n
          × Returns total_size offset length n)
unfolding validate_guarded_range_receipt expected_end checked_len
by_parts path nv v t none r offset length n operation positive fits = ground arith
by_parts path nv v t (some w) none offset length n operation positive fits = ground arith
by_parts path nv v none (some w) (some r) offset length n operation positive fits = ground arith
by_parts path nv v (some t) (some w) (some r) offset length n operation positive fits = ground arith

-- A receipt is accepted for n bytes exactly when the requested window is the request, the returned
-- window has n bytes from the same offset, and n is what an object of the stated total size has of
-- the request: all of it, or the rest of the object.
pub validate_guarded_range_receipt_iff :
    (receipt : SourceReceipt) (offset length n : ℕ) (operation : StorageOperation)
    → 1 ≤ length
    → length < 2 ^ 64
    → (validate_guarded_range_receipt receipt offset length operation ≡ ok n) ↔ (
        (offset + length ≤ 2 ^ 64)
        × IsWindow receipt.requested_window offset length
        × IsWindow receipt.returned_window offset n
        × Returns receipt.total_size offset length n)
unfolding validate_guarded_range_receipt expected_end checked_len
validate_guarded_range_receipt_iff receipt offset length n operation positive fits =
    by_parts receipt.path receipt.native_version receipt.validator receipt.total_size
      receipt.requested_window receipt.returned_window offset length n operation positive fits

-- the bytes of the texts of lines
abbrev pub text_bytes : List ParsedLine → ℕ
text_bytes [] = 0
text_bytes (line ∷ lines) = length line.text + text_bytes lines

sum_lengths_iff :
    (total n : ℕ) (lines : List ParsedLine)
    → total < 2 ^ 64
    → (sum_lengths total lines ≡ some n) ↔ ((n ≡ total + text_bytes lines) × (n < 2 ^ 64))
unfolding sum_lengths
sum_lengths_iff total n [] h = ground arith
sum_lengths_iff total n (line ∷ lines) h =
    ground (arith, sum_lengths_iff (total + length line.text) n lines)

-- The lines of a result are charged exactly the bytes of their texts, and refused exactly when
-- with them the output exceeds the budget; a sum past 64 bits is refused too.
pub apply_line_output_budget_iff :
    (l m : InspectionLedger) (lines : List ParsedLine)
    → l.budget.output_bytes < 2 ^ 64
    → (apply_line_output_budget l lines ≡ ok m) ↔ (
        (l.output_bytes + text_bytes lines ≤ l.budget.output_bytes)
        × (m ≡ record l { output_bytes = l.output_bytes + text_bytes lines }))
unfolding apply_line_output_budget admit_output
apply_line_output_budget_iff l m lines fits =
    let c = sum_lengths_iff 0 (text_bytes lines) lines (omega arith) in
    elim (Option-cases (sum_lengths 0 lines)) [
      | inl e ↦ ground (arith, e, c)
      | inr (n, e) ↦ ground (arith, e, sum_lengths_iff 0 n lines)
    ]
