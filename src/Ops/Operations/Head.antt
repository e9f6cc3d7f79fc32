-- ===== src/Ops/Operations/Head.antt =====
-- `head_lines` returns the first lines of the selected source.
use storageprims.Prelude.{
  ℕ, ◌≤◌, ◌<◌, ◌^◌, ◌≡◌, ◌⊎◌, sym, ap, ◌∙◌, arith, min, true, Bool-cases, inl, inr, List, Bytes,
  length, take, ◌==◌, ◌||◌,
}
use storageprims.Core.Error.{ProviderKind, StorageOperation, ok}
use storageprims.Core.Source.{GuardedReadSelection, SourceReceipt}
use storageprims.Ops.Lines.{ParsedLine, parse_lines_up_to}
use storageprims.Ops.Lines.Reference.{raw_lines}
use storageprims.Ops.Budget.Bounds.{IsFinite}
use storageprims.Ops.Align.{LineResult, forward_stream}
use storageprims.Ops.Provider.{GuardedReadProvider, Runtime, State}
use storageprims.Ops.Provider.Invert.{step-then, lift-then, gets-then, refuse_with-ok}
use storageprims.Ops.Provider.Keeps.{kept-IsFinite}
use storageprims.Ops.Read.{at_end}
use storageprims.Ops.Read.Keeps.{line_probe-Keeps}
use storageprims.Ops.Read.Serves.{CompletesCalls, Serves, IsRange, guarded_range_bytes-IsRange}
use storageprims.Ops.Read.Range.{
  beyond, split_at_range, nothing_beyond, texts, raw_texts, front_lines,
}
use storageprims.Ops.Operations.{enough, head_rest, head_sized, fetch_length}
use storageprims.Ops.Operations.Answer.{
  enough_or, Answers, fetch_length-bounds, answered-ok, line_probe-IsRange,
}

module _ {W R : Type 0} (runtime : Runtime W) (completes : CompletesCalls runtime)
    (kind : ProviderKind) (p : GuardedReadProvider W R) (content : GuardedReadSelection → Bytes)
    (serves : Serves p content) (n : ℕ) where
  -- the lines parsed of a range at the start, where they are enough
  front :
      (operation : StorageOperation) (doc : Bytes) (requested : ℕ) (bytes : Bytes)
      (receipt : SourceReceipt) (lines : List ParsedLine)
      → IsRange doc 0 requested bytes receipt
      → 1 ≤ requested
      → length doc < 2 ^ 64
      → parse_lines_up_to kind operation bytes 0 (at_end receipt) n ≡ ok lines
      → (n ≤ length lines) ⊎ (at_end receipt ≡ true)
      → texts lines ≡ raw_texts (take n (raw_lines true doc))
  front operation doc requested bytes receipt lines range one small parsed enough =
      front_lines kind operation 0 n (at_end receipt) bytes (beyond doc 0 bytes) lines parsed
        (nothing_beyond doc 0 requested bytes receipt range one small) enough
      ∙ ap (λ x. raw_texts (take n (raw_lines true x)))
          (sym (split_at_range doc 0 requested bytes receipt range))

  head_rest-Answers :
      (selection : GuardedReadSelection) (size : ℕ) (s t : State W) (r : LineResult)
      → head_rest runtime kind p n selection size s ≡ (ok r, t)
      → IsFinite s.ledger.budget
      → 1 ≤ size
      → length (content selection) < 2 ^ 64
      → Answers r (raw_texts (take n (raw_lines true (content selection)))) size
  unfolding head_rest
  head_rest-Answers selection size s t r q finite one small =
      let requested = fetch_length size s.ledger in
      step-then _ _ s t _ (gets-then _ _ s _ q) λ (bytes, receipt) u e k.
        lift-then _ _ u t _ k λ _ _ k. lift-then _ _ u t _ k λ selected parsed k.
          step-then _ _ u t _ k λ _ v f k.
            let (one_byte, fits) = fetch_length-bounds size s.ledger finite one in
            let range =
              guarded_range_bytes-IsRange runtime completes p content serves selection 0 requested s
                u bytes receipt e one_byte fits in
            let (refused, _) = refuse_with-ok _ _ u v f in
            let a =
              answered-ok runtime completes kind p content serves n forward_stream size selected v t
                r k in
            let w =
              front _ (content selection) requested bytes receipt selected range one_byte small
                parsed (enough_or n (at_end receipt) (length selected) refused) in
            record { lines = a.lines ∙ w; total_size = a.total_size }

  -- A head returns the first lines of the content: the probe's or those of a longer range.
  pub head_sized-Answers :
      (selection : GuardedReadSelection) (size : ℕ) (s t : State W) (r : LineResult)
      → head_sized runtime kind p n selection size s ≡ (ok r, t)
      → IsFinite s.ledger.budget
      → 1 ≤ size
      → length (content selection) < 2 ^ 64
      → Answers r (raw_texts (take n (raw_lines true (content selection)))) size
  unfolding head_sized
  head_sized-Answers selection size s t r q finite one small =
      step-then _ _ s t _ q λ (probe, receipt) u e k. lift-then _ _ u t _ k λ lines parsed k.
        let range =
          line_probe-IsRange runtime completes kind p content serves n selection size s u probe
            receipt finite one e in
        let fits : 1 ≤ min size s.ledger.budget.probe_size = omega (arith, one, finite.probe) in
        let finite_there =
          kept-IsFinite _ s u _ e (line_probe-Keeps runtime p selection size) finite in
        elim (Bool-cases (length lines == n || at_end receipt)) [
          | inl m ↦
              let a =
                answered-ok runtime completes kind p content serves n forward_stream size lines u t
                  r (rw m at k) in
              let w =
                front _ (content selection) _ probe receipt lines range fits small parsed
                  (ground (arith, m)) in
              record { lines = a.lines ∙ w; total_size = a.total_size }
          | inr m ↦ head_rest-Answers selection size u t r (rw m at k) finite_there one small
        ]
