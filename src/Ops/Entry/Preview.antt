-- ===== src/Ops/Entry/Preview.antt =====
-- `preview_bytes_selected` against the content of the selection.
use storageprims.Prelude.{
  ℕ, ◌≤◌, ◌<◌, ◌^◌, ◌≡◌, ◌⊎◌, refl, sym, ap, ◌∙◌, arith, true, Bool-cases, inl, inr, Option, none,
  some, [], Bytes, length, take, ◌==◌,
}
use storageprims.Core.Error.{ProviderKind, StorageOperation, ok}
use storageprims.Core.Source.{GuardedReadSelection, ByteWindow, checked_len}
use storageprims.Ops.Budget.{InspectionBudget}
use storageprims.Ops.Receipt.Prove.{IsWindow, Returns}
use storageprims.Ops.Provider.{GuardedReadProvider, Runtime, State}
use storageprims.Ops.Provider.Invert.{step-then, lift-then, gets-then, pure-ok}
use storageprims.Ops.Read.{same}
use storageprims.Ops.Read.Serves.{CompletesCalls, Serves, guarded_range_bytes-IsRange}
use storageprims.Ops.Operations.{
  BytePreview, previewed, window_len, preview_bytes_selected_with_ledger, preview_selected,
}
use storageprims.Ops.Entry.{selected_body, preview_bytes_selected}
use storageprims.Ops.Entry.Source.{with_ledger-then, selected_head-length}

-- a preview of a content
pub record IsPreview (doc : Bytes) (requested : ℕ) (outcome : Option BytePreview) : Type 0 where
  pub preview : BytePreview
  pub is_some : outcome ≡ some preview
  pub are_bytes : preview.bytes ≡ take (length preview.bytes) doc
  pub bounded : length preview.bytes ≤ requested
  pub some_byte : (1 ≤ length preview.bytes) ⊎ (length doc ≡ 0)
  pub consumed : preview.consumed_payload_bytes ≡ length preview.bytes

window_len-IsWindow :
    (window : Option ByteWindow) (n : ℕ)
    → IsWindow window 0 n
    → 1 ≤ n
    → n < 2 ^ 64
    → window_len window ≡ some n
unfolding checked_len
window_len-IsWindow none n w one fits = absurd w
window_len-IsWindow (some x) n w one fits = ground (arith, w, one, fits)

returned_some :
    (total : Option ℕ) (requested n : ℕ)
    → Returns total 0 requested n
    → 1 ≤ requested
    → (1 ≤ n) × (n ≤ requested)
returned_some none requested n r one = (omega (arith, r, one), omega (arith, r, one))
returned_some (some t) requested n r one = (omega (arith, r, one), omega (arith, r, one))

is_zero : (total : Option ℕ) → same total (some 0) ≡ true → total ≡ some 0
is_zero none q = ground (arith, q)
is_zero (some t) q = ground (arith, q)

module _ {W R : Type 0} (runtime : Runtime W) (completes : CompletesCalls runtime)
    (p : GuardedReadProvider W R) (content : GuardedReadSelection → Bytes)
    (serves : Serves p content) (selection : GuardedReadSelection) (requested : ℕ)
    (one : 1 ≤ requested) (fits : requested < 2 ^ 64) where
  preview_bytes_selected_with_ledger-IsPreview :
      (s t : State W) (outcome : Option BytePreview)
      → preview_bytes_selected_with_ledger runtime p selection requested s ≡ (ok outcome, t)
      → IsPreview (content selection) requested outcome
  unfolding preview_bytes_selected_with_ledger
  preview_bytes_selected_with_ledger-IsPreview s t outcome q =
      step-then _ _ s t _ q λ (bytes, receipt) a e k. step-then _ _ a t _ k λ _ b _ k.
        let requests = b.ledger.helper_requests in
        let out =
          pure-ok (previewed bytes receipt requests (window_len receipt.returned_window)) outcome b
            t (gets-then _ _ b _ k) in
        let range =
          guarded_range_bytes-IsRange runtime completes p content serves selection 0 requested s a
            bytes receipt e one fits in
        let (some_byte, bounded) =
          returned_some receipt.total_size requested (length bytes) range.returns one in
        let len =
          window_len-IsWindow receipt.returned_window (length bytes) range.is_window some_byte
            (omega (arith, bounded, fits)) in
        record {
          preview = record {
            bytes = bytes;
            receipt = receipt;
            consumed_payload_bytes = length bytes;
            helper_requests = requests;
          };
          is_some = sym out ∙ ap (previewed bytes receipt requests) len;
          are_bytes = range.are_bytes;
          bounded = bounded;
          some_byte = inl some_byte;
          consumed = refl;
        }

  preview_selected-IsPreview :
      (s t : State W) (outcome : Option BytePreview)
      → preview_selected runtime p selection requested s ≡ (ok outcome, t)
      → IsPreview (content selection) requested outcome
  unfolding preview_selected
  preview_selected-IsPreview s t outcome q = step-then _ _ s t _ q λ receipt a e k.
      let requests = a.ledger.helper_requests in
      let l = gets-then _ _ a _ k in
      elim (Bool-cases (same receipt.total_size (some 0))) [
        | inr m ↦ preview_bytes_selected_with_ledger-IsPreview a t outcome (rw m at l)
        | inl m ↦
            let empty = sym (
              selected_head-length runtime completes p content serves selection s a receipt 0 e
                (is_zero receipt.total_size m)) in
            record {
              preview = record {
                bytes = [];
                receipt = receipt;
                consumed_payload_bytes = 0;
                helper_requests = requests;
              };
              is_some =
                  sym (pure-ok (previewed [] receipt requests (some 0)) outcome a t (rw m at l));
              are_bytes = refl;
              bounded = omega arith;
              some_byte = inr empty;
              consumed = refl;
            }
      ]

-- Where calls that end in time are the provider's, and it serves contents, a preview of fewer than
-- 2^64 bytes that succeeds never meets the panic of the missing window. It is a front of the content
-- of the selection, of at most the requested bytes and of one at least unless the content is empty,
-- and it states the length of that front as its payload.
pub preview_bytes_selected-IsPreview :
    {W R : Type 0} (runtime : Runtime W) (clock_max : ℕ) (p : GuardedReadProvider W R)
    (content : GuardedReadSelection → Bytes) (kind : ProviderKind)
    (selection : GuardedReadSelection) (requested : ℕ) (budget : InspectionBudget) (w v : W)
    (outcome : Option BytePreview)
    → CompletesCalls runtime
    → Serves p content
    → requested < 2 ^ 64
    → preview_bytes_selected runtime clock_max p kind selection requested budget w ≡ (ok outcome, v)
    → IsPreview (content selection) requested outcome
unfolding preview_bytes_selected
preview_bytes_selected-IsPreview runtime clock_max p content kind selection requested budget w v
      outcome completes serves fits q =
    elim (Bool-cases (requested == 0)) [
      | inl m ↦ ground (arith, (rw m at q))
      | inr m ↦
          with_ledger-then runtime clock_max kind StorageOperation.preview_bytes budget
            (selected_body runtime clock_max p selection requested) w v outcome (rw m at q)
            λ s t _ _ k. lift-then _ _ s t _ (gets-then _ _ s _ k) λ _ _ k.
              preview_selected-IsPreview runtime completes p content serves selection requested
                (ground (arith, m)) fits s t outcome k
    ]
