-- ===== src/Ops/Read/Receipts.antt =====
-- The receipt of a range read is that of a response of the provider.
use storageprims.Prelude.{ℕ, zero, suc, ◌≤◌, ◌≡◌, ap, ◌∙◌, arith, Bytes}
use mathlib.Core.Path.{subst}
use storageprims.Core.Error.{ok}
use storageprims.Core.Source.{GuardedReadSelection, GuardedRangeRequest, SourceReceipt}
use storageprims.Ops.Provider.{GuardedReadResponse, GuardedReadProvider, Runtime, State}
use storageprims.Ops.Provider.Invert.{step-then, lift-then, gets-then, timed-ok, pure-ok}
use storageprims.Ops.Read.{guarded_request, range_bytes, guarded_range_bytes}
use storageprims.Ops.Read.Serves.{CompletesCalls}

-- what holds of the receipt of every response
abbrev pub OfReceipts : {W R : Type 0} → GuardedReadProvider W R → (SourceReceipt → Type 0) → Type 0
OfReceipts {W} {R} p P =
    (request : GuardedRangeRequest) (w v : W) (response : GuardedReadResponse R)
    → p.guarded_get_range request w ≡ (ok response, v)
    → P response.receipt

module _ {W R : Type 0} (runtime : Runtime W) (completes : CompletesCalls runtime)
    (p : GuardedReadProvider W R) (P : SourceReceipt → Type 0) (holds : OfReceipts p P)
    (selection : GuardedReadSelection) (offset : ℕ) where
  request-receipt :
      (requested n : ℕ) (s t : State W) (response : GuardedReadResponse R)
      → guarded_request runtime p selection offset requested s ≡ (ok (response, n), t)
      → P response.receipt
  unfolding guarded_request
  request-receipt requested n s t response q = step-then _ _ s t _ q λ _ u _ k.
      step-then _ _ u t _ k λ answer v e k. lift-then _ _ v t _ k λ found f k.
        lift-then _ _ v t _ (gets-then _ _ v _ k) λ returned _ k.
          let (w, h, _) = timed-ok runtime _ u v answer e in
          let z = pure-ok (found, returned) (response, n) v t k in
          subst (λ (x : GuardedReadResponse R × ℕ). P x.0.receipt) z
            (holds _ u.world w found
              (completes _ u.ledger.deadline _ u.world w answer h ∙ ap (λ x. (x, w)) f))

  range_bytes-receipt :
      (requested : ℕ) (s t : State W) (bytes : Bytes) (receipt : SourceReceipt)
      → range_bytes runtime p selection offset requested s ≡ (ok (bytes, receipt), t)
      → P receipt
  unfolding range_bytes
  range_bytes-receipt requested s t bytes receipt q =
      lift-then _ _ s t _ (gets-then _ _ s _ q) λ _ _ k. step-then _ _ s t _ k λ _ u _ k.
        step-then _ _ u t _ k λ (response, n) v e k.
          step-then _ _ v t _ (gets-then _ _ v _ k) λ (out, _) w _ k.
            step-then _ _ w t _ k λ _ x _ k. step-then _ _ x t _ k λ _ y _ k.
              subst (λ (o : Bytes × SourceReceipt). P o.1)
                (pure-ok (out, response.receipt) (bytes, receipt) y t k)
                (request-receipt requested n u v response e)

  pub guarded_range_bytes-receipt :
      (requested : ℕ) (s t : State W) (bytes : Bytes) (receipt : SourceReceipt)
      → guarded_range_bytes runtime p selection offset requested s ≡ (ok (bytes, receipt), t)
      → 1 ≤ requested
      → P receipt
  unfolding guarded_range_bytes
  guarded_range_bytes-receipt zero s t bytes receipt q one = absurd (omega (arith, one))
  guarded_range_bytes-receipt (suc requested) s t bytes receipt q one =
      range_bytes-receipt (suc requested) s t bytes receipt q
