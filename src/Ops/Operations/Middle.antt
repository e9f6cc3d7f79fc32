-- ===== src/Ops/Operations/Middle.antt =====
-- Where a middle starts to parse, and what the lines from there are of the object.
use storageprims.Prelude.{
  ℕ, suc, zero, ◌+◌, ◌-◌, ◌≤◌, ◌<◌, ◌^◌, ◌≡◌, ◌⊎◌, refl, sym, ap, ◌∙◌, arith, true, Bool-cases, inl,
  inr, Option, some, none, Option-cases, leb, if◌then◌else◌, List, [], ◌∷◌, ◌++◌, Bytes, length,
  length-take, length-drop, take, drop, drop-drop, ltb, ◌==◌, ◌&&◌,
}
use mathlib.Core.Path.{subst}
use storageprims.Core.Error.{ProviderKind, StorageOperation, ok}
use storageprims.Core.Source.{SourceReceipt}
use storageprims.Ops.Lines.{ParsedLine, parse_lines_up_to}
use storageprims.Ops.Lines.Reference.{raw_lines, raw_lines-nil}
use storageprims.Ops.Lines.Select.{parse_lines_up_to-take}
use storageprims.Ops.Align.{midpoint_alignment}
use storageprims.Ops.Align.Boundary.{
  IsNextStart, IsFirstStart, next_line_boundary-IsNextStart, midpoint_alignment-next_line_boundary,
}
use storageprims.Ops.Align.Window.{IsFirstStart-window, IsNextStart-none}
use storageprims.Ops.Receipt.Prove.{Returns}
use storageprims.Ops.Read.{at_end}
use storageprims.Ops.Read.Serves.{IsRange}
use storageprims.Ops.Read.Range.{
  beyond, split_at_range, range_fits, nothing_beyond, texts, raw_texts, front_lines, place-texts,
}
use storageprims.Ops.Operations.{mid_aligned, or_else}
use storageprims.Ops.Operations.Aligned.{drop_all}

-- The lines of a middle start at the first line start behind the midpoint. Where there is none, an
-- object of at most `limit` bytes, which is read whole, is returned from its front, and a larger
-- one, whose end is read, has no line to return.
abbrev pub unaligned : Bytes → ℕ → ℕ
unaligned doc limit = if leb (length doc) limit then 0 else length doc

pub record IsMiddle (doc : Bytes) (midpoint limit n : ℕ) (lines : List Bytes) : Type 0 where
  pub boundary : Option ℕ
  pub is_boundary : IsNextStart doc midpoint boundary
  pub are_lines :
      lines
      ≡ raw_texts (take n (raw_lines true (drop (or_else boundary (unaligned doc limit)) doc)))

drop-front : (xs ys : Bytes) (k : ℕ) → k ≤ length xs → drop k (xs ++ ys) ≡ drop k xs ++ ys
drop-front xs ys zero h = refl
drop-front [] ys (suc k) h = absurd (omega (arith, h))
drop-front (x ∷ xs) ys (suc k) h = drop-front xs ys k (omega (arith, h))

module _ (kind : ProviderKind) (operation : StorageOperation) (n : ℕ) (wanted : 1 ≤ n) (doc : Bytes)
    (start requested : ℕ) (bytes : Bytes) (receipt : SourceReceipt)
    (range : IsRange doc start requested bytes receipt) (one : 1 ≤ requested)
    (small : length doc < 2 ^ 64) (midpoint : ℕ) (behind : start ≤ midpoint)
    (selected : List ParsedLine) (limit : ℕ) (at_front : start ≡ 0 → requested ≤ limit)
    (behind_front : 1 ≤ start → limit < length doc) where
  abbrev Parsed : ℕ → Type 0
  Parsed k =
      (parse_lines_up_to kind operation (drop k bytes) (start + k) (at_end receipt) n ≡ ok selected)
      × ((n ≤ length selected) ⊎ (at_end receipt ≡ true))

  -- nothing is parsed at the end of the bytes, which so is that of the object
  at_bytes_end : Parsed (length bytes) → at_end receipt ≡ true
  at_bytes_end (parsed, inr e) = e
  at_bytes_end (parsed, inl m) =
      let (_, l) =
        place-texts kind operation (start + length bytes)
          (take n (raw_lines (at_end receipt) (drop (length bytes) bytes))) selected
          (sym (
              parse_lines_up_to-take kind operation (drop (length bytes) bytes)
                (start + length bytes) (at_end receipt) n)
            ∙ parsed) in
      let none_left =
        ap (λ x. length (raw_lines (at_end receipt) x)) (drop_all bytes)
        ∙ ap length (raw_lines-nil (at_end receipt)) in
      absurd (
        omega (
          arith,
          m,
          l,
          wanted,
          none_left,
          length-take n (raw_lines (at_end receipt) (drop (length bytes) bytes)),
        ))

  -- a range up to the end of the object
  ends_object : at_end receipt ≡ true → start + length bytes ≡ length doc
  ends_object e = omega (
    arith,
    (range_fits doc start requested bytes receipt range one).1,
    ap length (nothing_beyond doc start requested bytes receipt range one small e),
    length-drop (length bytes) (drop start doc),
    length-drop start doc,
  )

  at_most_requested : length bytes ≤ requested
  at_most_requested = at_most receipt.total_size range.returns
    where
      at_most :
          (total : Option ℕ)
          → Returns total start requested (length bytes)
          → length bytes ≤ requested
      at_most none r = omega (arith, r)
      at_most (some t) r = omega (arith, r)

  at-IsMiddle :
      (k : ℕ) (boundary : Option ℕ)
      → k ≤ length bytes
      → Parsed k
      → IsNextStart doc midpoint boundary
      → start + k ≡ or_else boundary (unaligned doc limit)
      → IsMiddle doc midpoint limit n (texts selected)
  at-IsMiddle k boundary low (parsed, enough) next e =
      let rest = beyond doc start bytes in
      let whole = split_at_range doc start requested bytes receipt range in
      let joined =
        sym (drop-front bytes rest k low) ∙ ap (drop k) (sym whole) ∙ drop-drop k start doc in
      record {
        boundary = boundary;
        is_boundary = next;
        are_lines =
            front_lines kind operation (start + k) n (at_end receipt) (drop k bytes) rest selected
              parsed (nothing_beyond doc start requested bytes receipt range one small) enough
            ∙ ap (λ x. raw_texts (take n (raw_lines true x))) (joined ∙ ap (λ x. drop x doc) e);
      }

  first-IsMiddle :
      (k : ℕ)
      → IsFirstStart bytes (midpoint - start) k
      → Parsed k
      → IsMiddle doc midpoint limit n (texts selected)
  unfolding IsNextStart
  first-IsMiddle k f parsed =
      let whole = split_at_range doc start requested bytes receipt range in
      let fits = (range_fits doc start requested bytes receipt range one).1 in
      let within : (k < length bytes) ⊎ (beyond doc start bytes ≡ []) =
        elim (Bool-cases (ltb k (length bytes))) [
          | inl m ↦ inl (ground (arith, m))
          | inr m ↦
              let e : k ≡ length bytes = ground (arith, m, f.inside) in
              inr (
                nothing_beyond doc start requested bytes receipt range one small
                  (at_bytes_end (subst Parsed e parsed)))
        ] in
      at-IsMiddle k (some (start + k)) f.inside parsed
        (IsFirstStart-window doc start bytes (beyond doc start bytes) whole midpoint behind k within
          fits f)
        refl

  none-IsMiddle :
      (k : ℕ)
      → k ≤ length bytes
      → Parsed k
      → at_end receipt ≡ true
      → IsNextStart bytes (midpoint - start) none
      → start + k ≡ unaligned doc limit
      → IsMiddle doc midpoint limit n (texts selected)
  none-IsMiddle k low parsed e next same =
      let gone = nothing_beyond doc start requested bytes receipt range one small e in
      at-IsMiddle k none low parsed
        (IsNextStart-none doc start bytes (beyond doc start bytes)
          (split_at_range doc start requested bytes receipt range) midpoint behind gone
          (ends_object e) next)
        same

  -- the lines parsed where a middle is aligned
  pub mid_aligned-IsMiddle :
      Parsed (mid_aligned start (at_end receipt) midpoint bytes)
      → IsMiddle doc midpoint limit n (texts selected)
  unfolding mid_aligned IsNextStart
  mid_aligned-IsMiddle parsed =
      let same = midpoint_alignment-next_line_boundary bytes (midpoint - start) in
      let next = next_line_boundary-IsNextStart bytes (midpoint - start) in
      elim (Option-cases (midpoint_alignment bytes (midpoint - start))) [
        | inr (k, e) ↦
            first-IsMiddle k (subst (IsNextStart bytes (midpoint - start)) (sym same ∙ e) next)
              (rw e at parsed)
        | inl e ↦
            let absent = subst (IsNextStart bytes (midpoint - start)) (sym same ∙ e) next in
            elim (Bool-cases (at_end receipt && start == 0)) [
              | inl m ↦
                  let eof : at_end receipt ≡ true = ground (arith, m) in
                  none-IsMiddle 0 (omega arith) (rw (e, m) at parsed) eof absent
                    (ground (arith, m, at_most_requested, at_front, ends_object eof))
              | inr m ↦
                  let here = rw (e, m) at parsed in
                  let eof = at_bytes_end here in
                  none-IsMiddle (length bytes) (omega arith) here eof absent
                    (ground (arith, m, eof, behind_front, ends_object eof))
            ]
      ]
