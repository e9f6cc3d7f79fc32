-- ===== src/Ops/Operations/Tail.antt =====
-- `tail_lines` returns the last lines of the selected source.
use storageprims.Prelude.{
  ℕ, suc, zero, ◌+◌, ◌-◌, ◌≤◌, ◌<◌, ◌^◌, ◌≡◌, sym, ap, ◌∙◌, arith, Bool, true, false, Bool-cases,
  inl, inr, Option, none, some, List, [], ◌∷◌, ◌++◌, append-nil, Bytes, length, take, drop, first,
  ltb, ◌==◌, ◌&&◌, not, if◌then◌else◌,
}
use mathlib.Core.Path.{subst}
use storageprims.Core.Error.{ProviderKind, StorageOperation, ok}
use storageprims.Core.Source.{GuardedReadSelection, SourceReceipt, ByteWindow}
use storageprims.Ops.Lines.{ParsedLine, parse_tail_lines_bounded}
use storageprims.Ops.Lines.Reference.{raw_lines}
use storageprims.Ops.Lines.Select.{take_last}
use storageprims.Ops.Budget.Bounds.{IsFinite}
use storageprims.Ops.Align.{LineResult}
use storageprims.Ops.Align.Boundary.{previous}
use storageprims.Ops.Receipt.Prove.{IsWindow, Returns}
use storageprims.Ops.Provider.{GuardedReadProvider, Runtime, State}
use storageprims.Ops.Provider.Invert.{step-then, lift-then, gets-then, pure-ok, refuse_with-ok}
use storageprims.Ops.Provider.Keeps.{kept-IsFinite}
use storageprims.Ops.Read.{at_end, past_end, same}
use storageprims.Ops.Read.Keeps.{line_probe-Keeps}
use storageprims.Ops.Read.Serves.{CompletesCalls, Serves, IsRange, guarded_range_bytes-IsRange}
use storageprims.Ops.Read.Receipts.{OfReceipts, guarded_range_bytes-receipt}
use storageprims.Ops.Read.Range.{split_at_range, range_fits, nothing_beyond, texts, raw_texts}
use storageprims.Ops.Operations.{fetch_length, previous_byte, tail_aligned, tail_sized, enough}
use storageprims.Ops.Operations.Answer.{Answers, answered-ok, fetch_length-bounds}
use storageprims.Ops.Operations.Aligned.{first-drop, tail_aligned-Aligned, tail_lines-texts}

-- the receipt states the size of the source
abbrev pub StatesTotal : SourceReceipt → Type 0
StatesTotal receipt = (size : ℕ) × (receipt.total_size ≡ some size)

ends-same :
    (total : Option ℕ) (window : Option ByteWindow) (offset requested n size : ℕ)
    → total ≡ some size
    → IsWindow window offset n
    → Returns total offset requested n
    → offset + requested ≡ size
    → size < 2 ^ 64
    → same total (past_end window) ≡ true
ends-same none window offset requested n size e w r h small = ground (arith, e)
ends-same (some t) none offset requested n size e w r h small = absurd w
ends-same (some t) (some x) offset requested n size e w r h small =
    ground (arith, e, w, r, h, small)

first-front : (xs ys : Bytes) → xs ≡ take (length xs) ys → 1 ≤ length xs → first xs ≡ first ys
first-front [] ys e h = absurd (omega (arith, h))
first-front (x ∷ xs) [] e h = ground (arith, e)
first-front (x ∷ xs) (y ∷ ys) e h = ground (arith, e)

-- a range up to the stated end is what is left of the content
to_end :
    (doc : Bytes) (start requested : ℕ) (bytes : Bytes) (receipt : SourceReceipt)
    → IsRange doc start requested bytes receipt
    → 1 ≤ requested
    → length doc < 2 ^ 64
    → at_end receipt ≡ true
    → drop start doc ≡ bytes
to_end doc start requested bytes receipt range one small e =
    split_at_range doc start requested bytes receipt range
    ∙ ap (λ x. bytes ++ x) (nothing_beyond doc start requested bytes receipt range one small e)
    ∙ append-nil bytes

tail_aligned-front :
    (before : Option ℕ) (bytes : Bytes) (start : ℕ)
    → start ≡ 0
    → tail_aligned start before bytes ≡ 0
unfolding tail_aligned
tail_aligned-front before bytes start z = ground (arith, z)

module _ (kind : ProviderKind) (operation : StorageOperation) (n : ℕ) where
  -- what is parsed of the last range of a source
  tail_parsed :
      (doc : Bytes) (force_stream : Bool) (start requested : ℕ) (before : Option ℕ) (bytes : Bytes)
      (receipt : SourceReceipt) (selected : List ParsedLine)
      → IsRange doc start requested bytes receipt
      → StatesTotal receipt
      → 1 ≤ requested
      → requested ≤ length doc
      → start ≡ (if force_stream then 0 else length doc - requested)
      → length doc < 2 ^ 64
      → before ≡ previous doc start
      → 1 ≤ n
      → (force_stream && not (at_end receipt)) ≡ false
      → (let k = tail_aligned start before bytes in
          parse_tail_lines_bounded kind operation (drop k bytes) (start + k) (at_end receipt) n
          ≡ ok selected)
      → (not (not (ltb (length selected) n)) && not (start == 0)) ≡ false
      → texts selected ≡ take_last n (raw_texts (raw_lines true doc))
  unfolding at_end
  tail_parsed doc force_stream start requested before bytes receipt selected range (total, stated)
        one fits place small prev wanted eof parsed enough =
      let ends : at_end receipt ≡ true = elim (Bool-cases force_stream) [
        | inl f ↦ ground (arith, eof, f)
        | inr f ↦
            let last : start + requested ≡ length doc = ground (arith, place, f, fits) in
            ends-same receipt.total_size receipt.returned_window start requested (length bytes)
              (length doc) (stated ∙ ap some (range.is_total total stated)) range.is_window
              range.returns last small
      ] in
      let whole = sym (to_end doc start requested bytes receipt range one small ends) in
      let k = tail_aligned start (previous doc start) (drop start doc) in
      let there =
        subst
          (λ (x : Option ℕ × Bytes).
            let k = tail_aligned start x.0 x.1 in
            parse_tail_lines_bounded kind operation (drop k x.1) (start + k) true n ≡ ok selected)
          (ap (λ x. (x, bytes)) prev ∙ ap (λ x. (previous doc start, x)) whole)
          (subst
            (λ e.
              let k = tail_aligned start before bytes in
              parse_tail_lines_bounded kind operation (drop k bytes) (start + k) e n ≡ ok selected)
            ends parsed) in
      tail_lines-texts kind operation doc start k (start + k) n selected wanted
        (tail_aligned-Aligned doc start
          (omega (arith, (range_fits doc start requested bytes receipt range one).1)))
        (tail_aligned-front (previous doc start) (drop start doc) start) there
        (ground (arith, enough))

module _ {W R : Type 0} (runtime : Runtime W) (completes : CompletesCalls runtime)
    (kind : ProviderKind) (p : GuardedReadProvider W R) (content : GuardedReadSelection → Bytes)
    (serves : Serves p content) (n : ℕ) where
  previous_byte-previous :
      (selection : GuardedReadSelection) (start : ℕ) (s t : State W) (byte : Option ℕ)
      → previous_byte runtime kind p n selection start s ≡ (ok byte, t)
      → byte ≡ previous (content selection) start
  unfolding previous_byte
  previous_byte-previous selection zero s t byte q = sym (pure-ok none byte s t q)
  previous_byte-previous selection (suc i) s t byte q =
      let z : (suc i == 0) ≡ false = ground arith in
      let y : suc i - 1 ≡ i = omega arith in
      step-then _ _ s t _ (rw (z, y) at q) λ (bytes, receipt) u e k.
        let range =
          guarded_range_bytes-IsRange runtime completes p content serves selection i 1 s u bytes
            receipt e (omega arith) (omega arith) in
        let (some_byte, _) = range_fits (content selection) i 1 bytes receipt range (omega arith) in
        sym (pure-ok (first bytes) byte u t k)
        ∙ first-front bytes (drop i (content selection)) range.are_bytes some_byte
        ∙ first-drop (content selection) i

  pub tail_sized-Answers :
      (selection : GuardedReadSelection) (force_stream : Bool) (size : ℕ) (s t : State W)
      (r : LineResult)
      → OfReceipts p StatesTotal
      → tail_sized runtime kind p n selection force_stream size s ≡ (ok r, t)
      → IsFinite s.ledger.budget
      → 1 ≤ n
      → 1 ≤ size
      → size ≡ length (content selection)
      → length (content selection) < 2 ^ 64
      → Answers r (take_last n (raw_texts (raw_lines true (content selection)))) size
  unfolding tail_sized
  tail_sized-Answers selection force_stream size s t r states q finite wanted one sized small =
      step-then _ _ s t _ q λ _ a e k.
        let finite_there =
          kept-IsFinite _ s a _ e (line_probe-Keeps runtime p selection size) finite in
        let requested = fetch_length size a.ledger in
        let start = if force_stream then 0 else size - requested in
        let (some_byte, fits) = fetch_length-bounds size a.ledger finite_there one in
        step-then _ _ a t _ (gets-then _ _ a _ k) λ before b f k.
          step-then _ _ b t _ k λ (bytes, receipt) c g k.
            let aligned = tail_aligned start before bytes in
            lift-then _ _ c t _ k λ _ _ k. step-then _ _ c t _ k λ _ d h k.
              lift-then _ _ d t _ k λ selected parsed k. step-then _ _ d t _ k λ _ l m k.
                let range =
                  guarded_range_bytes-IsRange runtime completes p content serves selection start
                    requested b c bytes receipt g some_byte fits in
                let stated =
                  guarded_range_bytes-receipt runtime completes p StatesTotal states selection start
                    requested b c bytes receipt g some_byte in
                let answer =
                  answered-ok runtime completes kind p content serves n _ size selected l t r k in
                let lines =
                  tail_parsed kind StorageOperation.tail_lines n (content selection) force_stream
                    start requested before bytes receipt selected range stated some_byte
                    (omega (arith, sized))
                    (ap (λ x. if force_stream then 0 else x - requested) sized) small
                    (previous_byte-previous selection start a b before f) wanted
                    (refuse_with-ok _ _ c d h).0 parsed (refuse_with-ok _ _ d l m).0 in
                record { lines = answer.lines ∙ lines; total_size = answer.total_size }
