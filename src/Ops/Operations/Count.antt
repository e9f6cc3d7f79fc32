-- ===== src/Ops/Operations/Count.antt =====
-- `count_lines` counts the lines of the selected source.
use storageprims.Prelude.{
  ℕ, ◌≤◌, ◌<◌, ◌^◌, ◌≡◌, sym, ap, ◌∙◌, arith, append-nil, true, false, not, ◌||◌, Option, none,
  some, Bytes, length, ◌++◌, inl, inr,
}
use mathlib.Core.Path.{subst}
use storageprims.Core.Error.{ProviderKind, StorageOperation, ok, Result-cases}
use storageprims.Core.Source.{GuardedReadSelection, u64_max}
use storageprims.Ops.Lines.{parse_lines}
use storageprims.Ops.Lines.Reference.{raw_lines}
use storageprims.Ops.Lines.Select.{parse_lines-place}
use storageprims.Ops.Count.{count_lines_bounded}
use storageprims.Ops.Count.Agree.{count_lines_bounded-parse_lines}
use storageprims.Ops.Provider.{GuardedReadProvider, Runtime, State}
use storageprims.Ops.Provider.Invert.{step-then, lift-then, gets-then, lift-ok, refuse_with-ok}
use storageprims.Ops.Read.{at_end, past_end, same}
use storageprims.Ops.Read.Serves.{CompletesCalls, Serves, guarded_range_bytes-IsRange}
use storageprims.Ops.Read.Range.{split_at_range, nothing_beyond, place-texts}
use storageprims.Ops.Operations.{count_sized}

-- both tests of the receipt: the window ends at the stated size
both_same :
    (total last : Option ℕ) (size : ℕ)
    → (not (same total (some size)) || not (same last (some size))) ≡ false
    → same total last ≡ true
both_same none last size q = ground (arith, q)
both_same (some a) none size q = ground (arith, q)
both_same (some a) (some b) size q = ground (arith, q)

-- a count of bytes is the number of their lines
count_lines_bounded-length :
    (kind : ProviderKind) (operation : StorageOperation) (bytes : Bytes) (count : ℕ)
    → length bytes ≤ u64_max
    → count_lines_bounded kind operation bytes ≡ ok count
    → count ≡ length (raw_lines true bytes)
count_lines_bounded-length kind operation bytes count fits q =
    let parsed = sym (count_lines_bounded-parse_lines kind operation bytes 0 fits) ∙ q in
    elim (Result-cases (parse_lines kind operation bytes 0 true)) [
      | inl (lines, e) ↦
          let (_, l) =
            place-texts kind operation 0 (raw_lines true bytes) lines
              (sym (parse_lines-place kind operation bytes 0 true) ∙ e) in
          ground (arith, parsed, e, l)
      | inr (x, e) ↦ ground (arith, parsed, e)
    ]

module _ {W R : Type 0} (runtime : Runtime W) (completes : CompletesCalls runtime)
    (kind : ProviderKind) (p : GuardedReadProvider W R) (content : GuardedReadSelection → Bytes)
    (serves : Serves p content) where
  pub count_sized-length :
      (selection : GuardedReadSelection) (size : ℕ) (s t : State W) (count : ℕ)
      → count_sized runtime kind p selection size s ≡ (ok count, t)
      → 1 ≤ size
      → size < 2 ^ 64
      → length (content selection) < 2 ^ 64
      → count ≡ length (raw_lines true (content selection))
  unfolding count_sized at_end
  count_sized-length selection size s t count q one fits small =
      step-then _ _ s t _ (gets-then _ _ s _ q) λ _ a _ k.
        step-then _ _ a t _ (gets-then _ _ a _ k) λ _ b _ k. step-then _ _ b t _ k λ _ c _ k.
          step-then _ _ c t _ k λ (bytes, receipt) d e k. step-then _ _ d t _ k λ _ f g k.
            lift-then _ _ f t _ k λ _ _ k.
              let range =
                guarded_range_bytes-IsRange runtime completes p content serves selection 0 size c d
                  bytes receipt e one fits in
              let (refused, _) = refuse_with-ok _ _ d f g in
              let ends =
                both_same receipt.total_size (past_end receipt.returned_window) size refused in
              let doc = content selection in
              let gone = nothing_beyond doc 0 size bytes receipt range one small ends in
              let whole : doc ≡ bytes =
                split_at_range doc 0 size bytes receipt range
                ∙ ap (λ x. bytes ++ x) gone
                ∙ append-nil bytes in
              count_lines_bounded-length kind _ bytes count
                (subst (λ x. length x ≤ u64_max) whole (omega (arith, small)))
                (lift-ok _ f t count k).0
              ∙ ap (λ x. length (raw_lines true x)) (sym whole)
