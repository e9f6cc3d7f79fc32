-- ===== src/Ops/Operations/Answer.antt =====
-- What a line operation returns, and the range of its probe.
use storageprims.Prelude.{
  ltb, not, ◌&&◌, Bool, true, false, Bool-cases, inl, inr, ◌⊎◌, ℕ, ◌≤◌, ◌<◌, ◌^◌, ◌≡◌, refl, sym,
  ap, ◌∙◌, arith, min, List, [], ◌∷◌, Bytes,
}
use mathlib.Core.Path.{subst}
use storageprims.Core.Error.{ProviderKind, ok}
use storageprims.Core.Source.{GuardedReadSelection, SourceReceipt}
use storageprims.Ops.Lines.{ParsedLine}
use storageprims.Ops.Budget.{InspectionLedger}
use storageprims.Ops.Budget.Bounds.{IsFinite}
use storageprims.Ops.Align.{LineResult, ReadStrategy, build_line_result, empty_result}
use storageprims.Ops.Provider.{GuardedReadProvider, Runtime, State}
use storageprims.Ops.Provider.Invert.{step-then, lift-then, gets-then, pure-ok}
use storageprims.Ops.Read.{line_probe}
use storageprims.Ops.Read.Serves.{CompletesCalls, Serves, IsRange, guarded_range_bytes-IsRange}
use storageprims.Ops.Read.Range.{texts}
use storageprims.Ops.Operations.{answered, fetch_length}

pub build_line_result-lines :
    (lines : List ParsedLine) (size : ℕ) (strategy : ReadStrategy)
    → ((build_line_result lines size strategy).lines ≡ texts lines)
      × ((build_line_result lines size strategy).total_size ≡ size)
unfolding build_line_result empty_result
build_line_result-lines [] size strategy = (refl, refl)
build_line_result-lines (line ∷ lines) size strategy = (refl, refl)

pub fetch_length-bounds :
    (size : ℕ) (l : InspectionLedger)
    → IsFinite l.budget
    → 1 ≤ size
    → (1 ≤ fetch_length size l) × (fetch_length size l < 2 ^ 64)
fetch_length-bounds size l finite one =
    (omega (arith, one, finite.pending, finite.payload), omega (arith, finite.payload))

-- a result is returned with enough lines, or at the end
pub enough_or :
    (n : ℕ) (b : Bool) (m : ℕ) → (not (not (ltb m n)) && not b) ≡ false → (n ≤ m) ⊎ (b ≡ true)
enough_or n b m q = elim (Bool-cases b) [ inl e ↦ inr e | inr e ↦ inl (ground (arith, q, e)) ]

-- what a line operation returns: these texts, of a source of that size
pub record Answers (r : LineResult) (wanted : List Bytes) (size : ℕ) : Type 0 where
  pub lines : r.lines ≡ wanted
  pub total_size : r.total_size ≡ size

module _ {W R : Type 0} (runtime : Runtime W) (completes : CompletesCalls runtime)
    (kind : ProviderKind) (p : GuardedReadProvider W R) (content : GuardedReadSelection → Bytes)
    (serves : Serves p content) (n : ℕ) where
  pub answered-ok :
      (strategy : ReadStrategy) (size : ℕ) (lines : List ParsedLine) (s t : State W)
      (r : LineResult)
      → answered runtime kind p n strategy size lines s ≡ (ok r, t)
      → Answers r (texts lines) size
  unfolding answered
  answered-ok strategy size lines s t r q = step-then _ _ s t _ q λ _ u _ k.
      let e = pure-ok (build_line_result lines size strategy) r u t k in
      let (l, z) = build_line_result-lines lines size strategy in
      record {
        lines = ap (λ x. x.lines) (sym e) ∙ l;
        total_size = ap (λ x. x.total_size) (sym e) ∙ z;
      }

  pub line_probe-IsRange :
      (selection : GuardedReadSelection) (size : ℕ) (s t : State W) (bytes : Bytes)
      (receipt : SourceReceipt)
      → IsFinite s.ledger.budget
      → 1 ≤ size
      → line_probe runtime p selection size s ≡ (ok (bytes, receipt), t)
      → IsRange (content selection) 0 (min size s.ledger.budget.probe_size) bytes receipt
  unfolding line_probe
  line_probe-IsRange selection size s t bytes receipt finite one q =
      step-then _ _ s t _ (gets-then _ _ s _ q) λ (probe, found) u e k.
        lift-then _ _ u t _ (gets-then _ _ u _ k) λ _ _ k2.
          let z = pure-ok (probe, found) (bytes, receipt) u t k2 in
          let r =
            guarded_range_bytes-IsRange runtime completes p content serves selection 0
              (min size s.ledger.budget.probe_size) s u probe found e
              (omega (arith, one, finite.probe)) (omega (arith, finite.probe)) in
          subst
            (λ (o : Bytes × SourceReceipt).
              IsRange (content selection) 0 (min size s.ledger.budget.probe_size) o.0 o.1)
            z r
