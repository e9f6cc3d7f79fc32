-- ===== src/Ops/Count/Agree.antt =====
-- Counting agrees with parsing.
use storageprims.Prelude.{
  ℕ, zero, suc, ◌+◌, ◌≤◌, ◌≡◌, ◌≢◌, refl, sym, ap, ◌∙◌, Bool, true, false, Option, none, some, List,
  [], ◌∷◌, ◌++◌, Bytes, arith, length, drop, ltb, append_assoc, append-nil, length-append,
  take-append, length-drop, nil_of_length, Bool-cases, Option-cases, inl, inr,
}
use storageprims.Prelude.Utf8.{utf8_ok, utf8_ok-ascii}
use storageprims.Core.Error.{ProviderKind, StorageOperation, Result, ok, err, ◌>>=◌, Result-cases}
use storageprims.Core.Source.{u64_max}
use storageprims.Ops.Lines.{ParsedLine, checked_text, parse_lines}
use storageprims.Ops.Lines.Reference.{RawLine, width, raw_lines, raw_lines-nil, trailing-ne-nil}
use storageprims.Ops.Lines.Reference.Next.{
  next_from, cr_line, next_line, next_line-some, next_line_onward, next_line_terminal,
  next_line_terminal-cr, next_line-spelled, next_line-trailing,
}
use storageprims.Ops.Lines.Select.{place, parse_lines-place}
use storageprims.Ops.Count.{
  consumed_from, complete_line_consumed, counted, count_complete, count_rest, count_lines_bounded,
}

no_offset :
    (r : Result (List ParsedLine)) → (r >>= λ ps. ok (0 + length ps)) ≡ (r >>= λ ps. ok (length ps))
no_offset (ok ps) = ground arith
no_offset (err e) = refl

module _ (provider : ProviderKind) (operation : StorageOperation) where
  abbrev checked : Bytes → Result Bytes
  checked = checked_text provider operation

  -- what the scan finds, from the first line of the reference
  consumed : Option (RawLine × Bytes) → Result (Option ℕ)
  consumed none = ok none
  consumed (some (l, r)) = checked l.text >>= λ _. ok (some (width l))

  consumed_from-consumed :
      (bytes : Bytes) (eof : Bool) (cur rest : Bytes) (index : ℕ)
      → bytes ≡ cur ++ rest
      → index ≡ length cur
      → consumed_from provider operation bytes eof index rest ≡ consumed (next_from eof cur rest)
  unfolding consumed_from next_from consumed cr_line checked_text
  consumed_from-consumed bytes eof cur [] index e n = refl
  consumed_from-consumed bytes eof cur (c ∷ rest) index e n = ground (
    arith,
    consumed_from-consumed bytes eof (cur ++ c ∷ []) rest (index + 1),
    append_assoc cur (c ∷ []) rest,
    length-append cur (c ∷ []),
    take-append cur (c ∷ rest),
  )

  complete_line_consumed-consumed :
      (bytes : Bytes) (eof : Bool)
      → complete_line_consumed provider operation bytes eof ≡ consumed (next_line eof bytes)
  unfolding complete_line_consumed next_line
  complete_line_consumed-consumed bytes eof = consumed_from-consumed bytes eof [] bytes 0 refl refl

  abbrev one : Result Bytes → Result ℕ
  one m = m >>= λ _. ok 1

  single :
      (x : ParsedLine) (m : Result Bytes)
      → ((m >>= λ text. ok (x ∷ [])) >>= λ ps. ok (length ps)) ≡ one m
  single x (ok t) = refl
  single x (err e) = refl

  -- a carriage return behind a text does not change the outcome of its check
  same_check :
      (l : RawLine) (s : Bytes) → s ≡ l.text ++ b'\r' ∷ [] → one (checked s) ≡ one (checked l.text)
  unfolding checked_text
  same_check l s e = ground (arith, ap utf8_ok e, utf8_ok-ascii l.text b'\r')

  -- The check of a last text gives one line or fails, with a carriage return at its end or without.
  one_line :
      (base : ℕ) (s : Bytes)
      → s ≢ []
      → next_line false s ≡ none
      → (place provider operation base (raw_lines true s) >>= λ ps. ok (length ps))
        ≡ one (checked s)
  unfolding place
  one_line base s ne h = elim (Option-cases (next_line true s)) [
    | inl e ↦ rw (next_line-trailing s e ∙ trailing-ne-nil s ne) (single _ (checked s))
    | inr ((l, r), e) ↦
        let (ends, only) = next_line_terminal s l r h e in
        let ending = next_line_terminal-cr s l r h e in
        rw (only, same_check l s (next_line-spelled s l r true e ∙ rw (ends, append-nil, ending)))
          (single _ (checked l.text))
  ]

  abbrev tally : ℕ → Result (List ParsedLine) → Result ℕ
  tally count r = r >>= λ ps. ok (count + length ps)

  tally_cons :
      (count : ℕ) (x : ParsedLine) (r : Result (List ParsedLine))
      → tally count (r >>= λ rest. ok (x ∷ rest)) ≡ tally (count + 1) r
  tally_cons count x (ok ps) = ground arith
  tally_cons count x (err e) = refl

  tally-one :
      (count : ℕ) (m : Result Bytes) (r : Result (List ParsedLine))
      → (r >>= λ ps. ok (length ps)) ≡ one m
      → tally count r ≡ (m >>= λ _. ok (count + 1))
  tally-one count (ok t) (ok ps) h = ground arith
  tally-one count (ok t) (err e) h = cc
  tally-one count (err x) (ok ps) h = cc
  tally-one count (err x) (err e) h = cc

  counted_within :
      (count : ℕ) → count + 1 ≤ u64_max → counted provider operation count ≡ ok (count + 1)
  unfolding counted
  counted_within count h = ground arith

  module _ (bytes : Bytes) where
    finish : ℕ × ℕ → Result ℕ
    finish (cursor, count) = count_rest provider operation bytes cursor count

    abbrev goal : ℕ → ℕ → ℕ → Result ℕ
    goal base cursor count =
        tally count (place provider operation base (raw_lines true (drop cursor bytes)))

    finish_at_end :
        (base cursor count : ℕ)
        → length bytes ≤ cursor
        → finish (cursor, count) ≡ goal base cursor count
    unfolding finish count_rest place
    finish_at_end base cursor count h =
        let none_left : drop cursor bytes ≡ [] =
          nil_of_length (drop cursor bytes) (omega (arith, length-drop {0} cursor bytes)) in
        rw (none_left, raw_lines-nil true) (ground arith)

    finish_incomplete :
        (base cursor count : ℕ)
        → cursor ≤ length bytes
        → count + length (drop cursor bytes) ≤ u64_max
        → next_line false (drop cursor bytes) ≡ none
        → finish (cursor, count) ≡ goal base cursor count
    unfolding finish count_rest
    finish_incomplete base cursor count h k n = elim (Bool-cases (ltb cursor (length bytes))) [
      | inr w ↦ finish_at_end base cursor count (ground arith)
      | inl w ↦
          let inside : suc cursor ≤ length bytes = ground arith in
          let left : drop cursor bytes ≢ [] =
            λ e. absurd (omega (arith, ap length e, length-drop {0} cursor bytes)) in
          let room : count + 1 ≤ u64_max = omega (arith, length-drop {0} cursor bytes) in
          rw (
            tally-one count (checked (drop cursor bytes)) _
                (one_line base (drop cursor bytes) left n),
            w,
            counted_within count room,
          )
    ]

    count_complete-tally :
        (fuel base cursor count : ℕ)
        → cursor ≤ length bytes
        → length (drop cursor bytes) ≤ fuel
        → count + length (drop cursor bytes) ≤ u64_max
        → (count_complete provider operation bytes fuel cursor count >>= finish)
          ≡ goal base cursor count
    unfolding count_complete consumed place
    count_complete-tally zero base cursor count h k b =
        finish_at_end base cursor count (omega (arith, length-drop {0} cursor bytes))
    count_complete-tally (suc fuel) base cursor count h k b =
        elim (Bool-cases (ltb cursor (length bytes))) [
          | inr w ↦ rw w (finish_at_end base cursor count (ground arith))
          | inl w ↦ elim (Option-cases (next_line false (drop cursor bytes))) [
            | inl n ↦
                rw
                  (
                    count_complete,
                    w,
                    complete_line_consumed-consumed (drop cursor bytes) false,
                    n,
                    consumed,
                  )
                  (finish_incomplete base cursor count h b n)
            | inr ((l, r), n) ↦
                let (onward, sizes, moved) = next_line_onward bytes cursor l r n in
                let after = ap length onward in
                rw
                  (
                    count_complete,
                    w,
                    complete_line_consumed-consumed (drop cursor bytes) false,
                    n,
                    consumed,
                    next_line-some (drop cursor bytes) l r true n,
                  )
                  (elim (Result-cases (checked l.text)) [
                    | inl (t, c) ↦
                        rw (c, counted_within count (omega arith), ← onward)
                          (count_complete-tally fuel (base + width l) (cursor + width l) (count + 1)
                              (omega (arith, length-drop {0} cursor bytes)) (omega arith)
                              (omega arith)
                            ∙ sym (tally_cons count _ _))
                    | inr (x, c) ↦ rw c
                  ])
          ]
        ]

-- Counting the lines of a whole object returns the number of lines that parsing it returns, at any
-- base offset, and fails with the same error when parsing fails. The object has fewer than 2^64
-- bytes, so that the count does not overflow.
pub count_lines_bounded-parse_lines :
    (provider : ProviderKind) (operation : StorageOperation) (bytes : Bytes) (base : ℕ)
    → length bytes ≤ u64_max
    → count_lines_bounded provider operation bytes
      ≡ (parse_lines provider operation bytes base true >>= λ lines. ok (length lines))
unfolding count_lines_bounded finish
count_lines_bounded-parse_lines provider operation bytes base h =
    count_complete-tally provider operation bytes (length bytes) base 0 0 (omega arith)
      (omega arith) (omega arith)
    ∙ rw parse_lines-place (no_offset (place provider operation base (raw_lines true bytes)))
