-- ===== src/Ops/Read/Serves.antt =====
-- A provider that serves selected sources, and what the guarded reads return of one.
use storageprims.Prelude.{
  ℕ, zero, suc, ◌+◌, ◌-◌, ◌≤◌, ◌<◌, ◌^◌, ◌≡◌, sym, ap, ◌∙◌, arith, Bool-cases, Option-cases, inl,
  inr, some, [], ◌∷◌, ◌++◌, append-nil, append_assoc, Bytes, length, length-append, length-take,
  nil_of_length, take, drop, slice, ltb,
}
use mathlib.Core.Path.{subst}
use storageprims.Core.Error.{StorageOperation, ok}
use storageprims.Core.Source.{GuardedReadSelection, GuardedRangeRequest, SourceReceipt, ByteWindow}
use storageprims.Ops.Receipt.{validate_guarded_range_receipt}
use storageprims.Ops.Receipt.Prove.{IsWindow, Returns, validate_guarded_range_receipt_iff}
use storageprims.Ops.Provider.{
  GuardedReadResponse, IoResult, done, failed, GuardedReadProvider, Runtime, State,
}
use storageprims.Ops.Provider.Invert.{step-then, lift-then, gets-then, lift-ok, timed-ok, pure-ok}
use storageprims.Ops.Read.{
  read_body, timed_read, guarded_request, range_bytes, guarded_range_bytes, read_result, some_bytes,
}

-- tokio's `timeout_at`: the value of a call that ends before the deadline is the call's
abbrev pub CompletesCalls : {W : Type 0} → Runtime W → Type 1
CompletesCalls {W} runtime =
    (A : Type 0) (deadline : ℕ) (call : W → A × W) (w v : W) (a : A)
    → runtime.timeout_at deadline call w ≡ (some a, v)
    → call w ≡ (a, v)

-- The contract of guarded reads: every successful response to a selection is about the one content
-- of the selected source. A stated total size is its length, and a body holds the bytes of the
-- returned window. `rest` is what a reader has still to deliver; a read takes a piece of it that
-- fits the buffer.
pub record Serves {W R : Type 0} (p : GuardedReadProvider W R)
    (content : GuardedReadSelection → Bytes) : Type 0 where
  pub rest : R → Bytes
  pub head :
      (selection : GuardedReadSelection) (w v : W) (receipt : SourceReceipt) (size : ℕ)
      → p.guarded_head selection w ≡ (ok receipt, v)
      → receipt.total_size ≡ some size
      → size ≡ length (content selection)
  pub total :
      (request : GuardedRangeRequest) (w v : W) (response : GuardedReadResponse R) (size : ℕ)
      → p.guarded_get_range request w ≡ (ok response, v)
      → response.receipt.total_size ≡ some size
      → size ≡ length (content request.selection)
  pub body :
      (request : GuardedRangeRequest) (w v : W) (response : GuardedReadResponse R)
      (window : ByteWindow)
      → p.guarded_get_range request w ≡ (ok response, v)
      → response.receipt.returned_window ≡ some window
      → rest response.reader ≡ slice window.start (window.end + 1) (content request.selection)
  pub piece :
      (capacity : ℕ) (reader next : R) (w v : W) (chunk : Bytes)
      → p.read capacity reader w ≡ ((done chunk, next), v)
      → (rest reader ≡ chunk ++ rest next) × (length chunk ≤ capacity)

-- what a range read returns of a content
pub record IsRange (content : Bytes) (offset requested : ℕ) (bytes : Bytes)
    (receipt : SourceReceipt) : Type 0 where
  pub are_bytes : bytes ≡ take (length bytes) (drop offset content)
  pub is_window : IsWindow receipt.returned_window offset (length bytes)
  pub returns : Returns receipt.total_size offset requested (length bytes)
  pub is_total : (size : ℕ) → receipt.total_size ≡ some size → size ≡ length content

-- the bytes in front of what is left over are the range
found-IsRange :
    (doc : Bytes) (offset requested : ℕ) (out : Bytes) (receipt : SourceReceipt) (left : Bytes)
    (n : ℕ)
    → out ++ left ≡ take n (drop offset doc)
    → length out ≡ n
    → IsWindow receipt.returned_window offset n
    → Returns receipt.total_size offset requested n
    → ((size : ℕ) → receipt.total_size ≡ some size → size ≡ length doc)
    → IsRange doc offset requested out receipt
found-IsRange doc offset requested out receipt left n joined len window returns total =
    let l = length-append out left in
    let b = length-take n (drop offset doc) in
    let gone = nil_of_length left (omega (arith, ap length joined, l, b, len)) in
    let all = ap (λ x. out ++ x) (sym gone) ∙ joined in
    record {
      are_bytes = sym (append-nil out) ∙ all ∙ ap (λ k. take k (drop offset doc)) (sym len);
      is_window = subst (λ k. IsWindow receipt.returned_window offset k) (sym len) window;
      returns = subst (λ k. Returns receipt.total_size offset requested k) (sym len) returns;
      is_total = total;
    }

module _ {W R : Type 0} (runtime : Runtime W) (completes : CompletesCalls runtime)
    (p : GuardedReadProvider W R) (content : GuardedReadSelection → Bytes)
    (serves : Serves p content) where
  read_result-ok :
      (o : StorageOperation) (a : IoResult Bytes × R) (chunk : Bytes) (next : R)
      → read_result o a ≡ ok (chunk, next)
      → a ≡ (done chunk, next)
  read_result-ok o (done bytes, r) chunk next q = ground (arith, q)
  read_result-ok o (failed e, r) chunk next q = ground (arith, q)

  some_bytes-ok :
      (o : StorageOperation) (chunk : Bytes) → some_bytes o chunk ≡ ok tt → 1 ≤ length chunk
  some_bytes-ok o [] q = ground (arith, q)
  some_bytes-ok o (c ∷ chunk) q = omega arith

  timed_read-ok :
      (capacity : ℕ) (reader next : R) (s t : State W) (chunk : Bytes)
      → timed_read runtime p capacity reader s ≡ (ok (chunk, next), t)
      → (serves.rest reader ≡ chunk ++ serves.rest next) × (length chunk ≤ capacity)
  unfolding timed_read
  timed_read-ok capacity reader next s t chunk q = step-then _ _ s t _ q λ a u e k.
      let l = gets-then _ _ u _ k in
      let r = read_result-ok _ a chunk next (lift-ok _ u t _ l).0 in
      let (w, f, _) = timed-ok runtime (p.read capacity reader) s u a e in
      serves.piece capacity reader next s.world w chunk
        (completes _ s.ledger.deadline _ s.world w a f ∙ ap (λ x. (x, w)) r)

  stopped :
      (capacity : ℕ) (bytes out : Bytes) (reader next : R)
      → ◌≡◌ {A = Bytes × R} (bytes, reader) (out, next)
      → length bytes ≡ capacity
      → (bytes ++ serves.rest reader ≡ out ++ serves.rest next) × (length out ≡ capacity)
  stopped capacity bytes out reader next q h = (
    ap (λ (x : Bytes × R). x.0 ++ serves.rest x.1) q,
    sym (ap (λ (x : Bytes × R). length x.0) q) ∙ h,
  )

  -- The loop adds what the reader delivers, up to the capacity, and stops there.
  read_body-ok :
      (fuel capacity scratch : ℕ) (bytes : Bytes) (reader : R) (s t : State W) (out : Bytes)
      (next : R)
      → read_body runtime p fuel capacity scratch bytes reader s ≡ (ok (out, next), t)
      → length bytes ≤ capacity
      → capacity ≤ length bytes + fuel
      → (bytes ++ serves.rest reader ≡ out ++ serves.rest next) × (length out ≡ capacity)
  unfolding read_body
  read_body-ok zero capacity scratch bytes reader s t out next q h g =
      stopped capacity bytes out reader next (pure-ok (bytes, reader) (out, next) s t q)
        (omega (arith, h, g))
  read_body-ok (suc fuel) capacity scratch bytes reader s t out next q h g =
      elim (Bool-cases (ltb (length bytes) capacity)) [
        | inl m ↦ step-then _ _ s t _ (rw m at q) λ _ u _ k.
            step-then _ _ u t _ k λ (chunk, r) v e k2.
              lift-then _ _ v t _ (gets-then _ _ v _ k2) λ _ f k4.
                let (d, b) = timed_read-ok _ reader r u v chunk e in
                let l = length-append bytes chunk in
                let one = some_bytes-ok _ chunk f in
                let (y, z) =
                  read_body-ok fuel capacity scratch (bytes ++ chunk) r v t out next k4
                    (omega (arith, l, b, h)) (omega (arith, l, one, g)) in
                (ap (λ c. bytes ++ c) d ∙ sym (append_assoc bytes chunk (serves.rest r)) ∙ y, z)
        | inr m ↦
            stopped capacity bytes out reader next
              (pure-ok (bytes, reader) (out, next) s t (rw m at q)) (ground (arith, m, h))
      ]

  -- A window of a content, cut off at its end.
  slice_of_window :
      (receipt : SourceReceipt) (offset n : ℕ) (reader : R) (doc : Bytes)
      → ((window : ByteWindow)
          → receipt.returned_window ≡ some window
          → serves.rest reader ≡ slice window.start (window.end + 1) doc)
      → IsWindow receipt.returned_window offset n
      → serves.rest reader ≡ take n (drop offset doc)
  slice_of_window receipt offset n reader doc body w = elim (Option-cases receipt.returned_window) [
    | inl e ↦ absurd (subst (λ o. IsWindow o offset n) e w)
    | inr (window, e) ↦
        let (start, end) = subst (λ o. IsWindow o offset n) e w in
        let m : window.end + 1 - window.start ≡ n = omega (arith, start, end) in
        body window e
        ∙ ap (λ x. take x (drop window.start doc)) m
        ∙ ap (λ x. take n (drop x doc)) start
  ]

  guarded_request-ok :
      (selection : GuardedReadSelection) (offset requested n : ℕ) (s t : State W)
      (response : GuardedReadResponse R)
      → guarded_request runtime p selection offset requested s ≡ (ok (response, n), t)
      → 1 ≤ requested
      → requested < 2 ^ 64
      → (serves.rest response.reader ≡ take n (drop offset (content selection)))
        × IsWindow response.receipt.returned_window offset n
        × Returns response.receipt.total_size offset requested n
        × ((size : ℕ) → response.receipt.total_size ≡ some size → size ≡ length (content selection))
  unfolding guarded_request
  guarded_request-ok selection offset requested n s t response q positive fits =
      step-then _ _ s t _ q λ _ u _ k. step-then _ _ u t _ k λ answer v e k2.
        lift-then _ _ v t _ k2 λ found f k3.
          lift-then _ _ v t _ (gets-then _ _ v _ k3) λ returned g k4.
            let (w, h, _) = timed-ok runtime _ u v answer e in
            let z = pure-ok (found, returned) (response, n) v t k4 in
            let f' = f ∙ ap (λ (x : GuardedReadResponse R × ℕ). ok x.0) z in
            let call = completes _ u.ledger.deadline _ u.world w answer h ∙ ap (λ x. (x, w)) f' in
            let ask : GuardedRangeRequest = record {
              selection = selection;
              offset = offset;
              length = requested;
            } in
            let g' =
              subst
                (λ (x : GuardedReadResponse R × ℕ).
                  validate_guarded_range_receipt x.0.receipt offset requested v.ledger.operation
                  ≡ ok x.1)
                z g in
            let (_, _, window, returns) =
              (validate_guarded_range_receipt_iff response.receipt offset requested n
                  v.ledger.operation positive fits).0
                g' in
            (
              slice_of_window response.receipt offset n response.reader (content selection)
                  (λ window e. serves.body ask u.world w response window call e) window,
              window,
              returns,
              λ size e. serves.total ask u.world w response size call e,
            )

  -- a range read of a selected source returns a range of its content
  range_bytes-IsRange :
      (selection : GuardedReadSelection) (offset requested : ℕ) (s t : State W) (bytes : Bytes)
      (receipt : SourceReceipt)
      → range_bytes runtime p selection offset requested s ≡ (ok (bytes, receipt), t)
      → 1 ≤ requested
      → requested < 2 ^ 64
      → IsRange (content selection) offset requested bytes receipt
  unfolding range_bytes
  range_bytes-IsRange selection offset requested s t bytes receipt q positive fits =
      lift-then _ _ s t _ (gets-then _ _ s _ q) λ reserved _ k. step-then _ _ s t _ k λ _ u _ k2.
        step-then _ _ u t _ k2 λ (response, n) v e k3.
          step-then _ _ v t _ (gets-then _ _ v _ k3) λ (out, next) w f k4.
            step-then _ _ w t _ k4 λ _ x _ k5. step-then _ _ x t _ k5 λ _ y _ k6.
              let (body, window, returns, total) =
                guarded_request-ok selection offset requested n u v response e positive fits in
              let (joined, len) =
                read_body-ok n n _ [] response.reader v w out next f (omega arith) (omega arith) in
              let z = pure-ok (out, response.receipt) (bytes, receipt) y t k6 in
              let r =
                found-IsRange (content selection) offset requested out response.receipt
                  (serves.rest next) n (sym joined ∙ body) len window returns total in
              subst
                (λ (o : Bytes × SourceReceipt).
                  IsRange (content selection) offset requested o.0 o.1)
                z r

  -- Where calls that end in time are the provider's, and it serves contents, a read of a positive
  -- number of bytes, fewer than 2^64, that succeeds returns the bytes of the returned window of the
  -- content, which starts at the offset; and as many as the receipt proves.
  pub guarded_range_bytes-IsRange :
      (selection : GuardedReadSelection) (offset requested : ℕ) (s t : State W) (bytes : Bytes)
      (receipt : SourceReceipt)
      → guarded_range_bytes runtime p selection offset requested s ≡ (ok (bytes, receipt), t)
      → 1 ≤ requested
      → requested < 2 ^ 64
      → IsRange (content selection) offset requested bytes receipt
  unfolding guarded_range_bytes
  guarded_range_bytes-IsRange selection offset zero s t bytes receipt q positive fits =
      absurd (omega (arith, positive))
  guarded_range_bytes-IsRange selection offset (suc requested) s t bytes receipt q positive fits =
      range_bytes-IsRange selection offset (suc requested) s t bytes receipt q positive fits
