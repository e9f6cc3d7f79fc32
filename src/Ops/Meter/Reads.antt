-- ===== src/Ops/Meter/Reads.antt =====
-- What the guarded reads spend.
use storageprims.Prelude.{
  ℕ, zero, suc, ◌+◌, ◌-◌, ◌≤◌, ◌<◌, ◌^◌, ◌≡◌, sym, ap, ◌∙◌, arith, min, Bytes, ◌++◌, length,
  length-append, ltb, Bool-cases, inl, inr, Option, some, none,
}
use mathlib.Core.Path.{subst}
use storageprims.Core.Error.{StorageOperation, ok}
use storageprims.Core.Source.{GuardedReadSelection, SourceReceipt}
use storageprims.Ops.Budget.{InspectionLedger, request, admit_payload, check_deadline}
use storageprims.Ops.Receipt.Prove.{Returns, validate_guarded_range_receipt_iff}
use storageprims.Ops.Provider.{
  GuardedReadResponse, IoResult, done, failed, GuardedReadProvider, State, Action, ◌>>=◌, Runtime,
}
use storageprims.Ops.Provider.Invert.{step-then, lift-then, gets-then, lift-ok, timed-ok, pure-ok}
use storageprims.Ops.Read.{
  check_clock, read_result, observe_and_bind, selected_head, selected_size, timed_read, read_body,
  guarded_request,
}
use storageprims.Ops.Meter.{Meter, IsMeter, Spends, Costs, Raises}
use storageprims.Ops.Meter.Rules.{
  >>=-cases, >>=-Costs, pure-Costs, lift-Costs, gets-Costs, weaken-Costs, clocked-Costs,
  clocked-then, timed-Costs,
}

check_clock-Raises : (now : ℕ) → Raises (check_clock now)
unfolding check_deadline
check_clock-Raises now l m q = ground (arith, q)

request-pays :
    (now : ℕ) (l m : InspectionLedger)
    → request now l ≡ ok m
    → (m.helper_requests ≡ l.helper_requests + 1) × (m.payload_bytes ≡ l.payload_bytes + 0)
unfolding request check_deadline
request-pays now l m q = ground (arith, q)

pub admit_payload-pays :
    (bytes now : ℕ) (l m : InspectionLedger)
    → admit_payload now bytes l ≡ ok m
    → (m.helper_requests ≡ l.helper_requests + 0) × (m.payload_bytes ≡ l.payload_bytes + bytes)
unfolding admit_payload check_deadline
admit_payload-pays bytes now l m q = ground (arith, q)

module _ {W R : Type 0} (runtime : Runtime W) (p : GuardedReadProvider W R) (meter : Meter W)
    (is_meter : IsMeter runtime p meter) where
  -- a step that spends nothing, and what follows
  pub free-then :
      {A B : Type 0} (k n : ℕ) (step : Action W A) (rest : A → Action W B)
      → Costs meter 0 0 step
      → ((a : A) → Costs meter k n (rest a))
      → Costs meter k n (step >>= rest)
  free-then k n step rest c d =
      weaken-Costs meter (0 + k) (0 + n) k n _ (>>=-Costs meter step rest 0 0 k n c d) (omega arith)
        (omega arith)

  pub observe_and_bind-Costs : (key : Bytes) → Costs meter 0 0 (observe_and_bind runtime p key)
  unfolding observe_and_bind
  observe_and_bind-Costs key = clocked-then meter runtime p is_meter request 1 0 _ request-pays (
      >>=-Costs meter _ _ 1 0 0 0
        (timed-Costs meter runtime p is_meter 1 0 (p.observe_source key)
          (is_meter.observe_source key))
        λ answer. free-then 0 0 _ _ (lift-Costs meter answer) λ observation.
          free-then 0 0 _ _ (gets-Costs meter _) λ selector.
            free-then 0 0 _ _ (lift-Costs meter selector)
              λ selector. free-then 0 0 _ _ (lift-Costs meter _) λ selection. pure-Costs meter _)

  pub selected_head-Costs :
      (selection : GuardedReadSelection) → Costs meter 0 0 (selected_head runtime p selection)
  unfolding selected_head
  selected_head-Costs selection = clocked-then meter runtime p is_meter request 1 0 _ request-pays (
      >>=-Costs meter _ _ 1 0 0 0
        (timed-Costs meter runtime p is_meter 1 0 (p.guarded_head selection)
          (is_meter.guarded_head selection))
        λ answer. lift-Costs meter answer)

  pub selected_size-Costs :
      (selection : GuardedReadSelection) (receipt : SourceReceipt)
      → Costs meter 0 0 (selected_size runtime p selection receipt)
  unfolding selected_size
  selected_size-Costs selection receipt =
      free-then 0 0 _ _ (selected_head-Costs selection)
        λ found. free-then 0 0 _ _ (gets-Costs meter _) λ operation. lift-Costs meter _

  pub guarded_request-Costs :
      (selection : GuardedReadSelection) (offset requested : ℕ)
      → Costs meter 0 0 (guarded_request runtime p selection offset requested)
  unfolding guarded_request
  guarded_request-Costs selection offset requested =
      clocked-then meter runtime p is_meter request 1 0 _ request-pays (
        >>=-Costs meter _ _ 1 0 0 0
          (timed-Costs meter runtime p is_meter 1 0 (p.guarded_get_range _)
            (is_meter.guarded_get_range _))
          λ answer. free-then 0 0 _ _ (lift-Costs meter answer) λ response.
            free-then 0 0 _ _ (gets-Costs meter _)
              λ operation. free-then 0 0 _ _ (lift-Costs meter _) λ returned. pure-Costs meter _)

  -- the receipt proves at most the bytes requested
  pub guarded_request-most :
      (selection : GuardedReadSelection) (offset requested : ℕ) (s t : State W)
      (response : GuardedReadResponse R) (returned : ℕ)
      → guarded_request runtime p selection offset requested s ≡ (ok (response, returned), t)
      → 1 ≤ requested
      → requested < 2 ^ 64
      → returned ≤ requested
  unfolding guarded_request
  guarded_request-most selection offset requested s t response returned q one fits =
      step-then _ _ s t _ q λ _ a _ k. step-then _ _ a t _ k λ answer b _ k.
        lift-then _ _ b t _ k λ found _ k. lift-then _ _ b t _ (gets-then _ _ b _ k) λ n e k.
          let same =
            ap (λ (x : GuardedReadResponse R × ℕ). x.1)
              (pure-ok (found, n) (response, returned) b t k) in
          let (_, _, _, returns) =
            (validate_guarded_range_receipt_iff found.receipt offset requested n _ one fits).0 e in
          omega (arith, same, at_most found.receipt.total_size n returns)
    where
      at_most : (total : Option ℕ) (n : ℕ) → Returns total offset requested n → n ≤ requested
      at_most none n r = omega (arith, r)
      at_most (some t) n r = omega (arith, r)

  -- one read: at most the buffer, and after a success the bytes returned
  pub timed_read-Costs :
      (capacity : ℕ) (reader : R) → Costs meter 0 capacity (timed_read runtime p capacity reader)
  unfolding timed_read
  timed_read-Costs capacity reader =
      weaken-Costs meter 0 (capacity + 0) 0 capacity _
        (>>=-Costs meter _ _ 0 capacity 0 0
          (timed-Costs meter runtime p is_meter 0 capacity (p.read capacity reader)
            λ w. omega (arith, is_meter.read capacity reader w))
          λ answer. free-then 0 0 _ _ (gets-Costs meter _) λ operation. lift-Costs meter _)
        (omega arith) (omega arith)

  read_result-taken :
      (capacity : ℕ) (o : StorageOperation) (a : IoResult Bytes × R) (chunk : Bytes) (next : R)
      → read_result o a ≡ ok (chunk, next)
      → a ≡ (done chunk, next)
  read_result-taken capacity o (done bytes, r) chunk next q = ground (arith, q)
  read_result-taken capacity o (failed e, r) chunk next q = ground (arith, q)

  pub timed_read-Spends :
      (capacity : ℕ) (reader next : R) (s t : State W) (chunk : Bytes)
      → timed_read runtime p capacity reader s ≡ (ok (chunk, next), t)
      → Spends meter s t 0 (length chunk) × (length chunk ≤ capacity)
  unfolding timed_read
  timed_read-Spends capacity reader next s t chunk q = step-then _ _ s t _ q λ a u e k.
      let (r, here) = lift-ok _ u t _ (gets-then _ _ u _ k) in
      let (w, f, moved) = timed-ok runtime (p.read capacity reader) s u a e in
      let answer =
        is_meter.completes _ s.ledger.deadline _ s.world w a f
        ∙ ap (λ x. (x, w)) (read_result-taken capacity _ a chunk next r) in
      let (counted, fits) = is_meter.read capacity reader s.world in
      subst (λ (u : State W). Spends meter s u 0 (length chunk) × (length chunk ≤ capacity))
        (sym (here ∙ moved)) (omega (arith, (rw answer at counted)), rw answer at fits)

  -- what follows a read, if it can pay for the bytes of the read
  timed_read-then :
      {B : Type 0} (capacity n : ℕ) (reader : R) (rest : Bytes × R → Action W B)
      → capacity ≤ n
      → ((chunk : Bytes) (next : R)
          → length chunk ≤ capacity
          → Costs meter 0 (n - length chunk) (rest (chunk, next)))
      → Costs meter 0 n (timed_read runtime p capacity reader >>= rest)
  timed_read-then capacity n reader rest most paid =
      >>=-cases meter 0 n _ rest
        (λ s t x q. omega (
          arith,
          most,
          subst (λ u. Spends meter s u 0 capacity) (ap (λ o. o.1) q)
              ((timed_read-Costs capacity reader).spends s),
        ))
        λ s t (chunk, next) q.
          let (spent, fits) = timed_read-Spends capacity reader next s t chunk q in
          omega (arith, most, spent, fits, (paid chunk next fits).spends t)

  -- the loop takes the bytes that are missing at most
  pub read_body-Costs :
      (fuel capacity scratch : ℕ) (bytes : Bytes) (reader : R)
      → Costs meter 0
          (capacity - length bytes)
          (read_body runtime p fuel capacity scratch bytes reader)
  unfolding read_body
  read_body-Costs zero capacity scratch bytes reader =
      weaken-Costs meter 0 0 0 (capacity - length bytes) _ (pure-Costs meter _) (omega arith)
        (omega arith)
  read_body-Costs (suc fuel) capacity scratch bytes reader =
      elim (Bool-cases (ltb (length bytes) capacity)) [
        | inr m ↦ rw m (
            weaken-Costs meter 0 0 0 (capacity - length bytes) _ (pure-Costs meter _) (omega arith)
              (omega arith))
        | inl m ↦ rw m (
            free-then 0 _ _ _
              (clocked-Costs meter runtime p is_meter check_clock check_clock-Raises)
              λ _.
                timed_read-then (min (capacity - length bytes) scratch) (capacity - length bytes)
                  reader _ (omega arith)
                  λ chunk next fits. free-then 0 _ _ _ (gets-Costs meter _) λ operation.
                    free-then 0 _ _ _ (lift-Costs meter _) λ _.
                      weaken-Costs meter 0 (capacity - length (bytes ++ chunk)) 0 _ _
                        (read_body-Costs fuel capacity scratch (bytes ++ chunk) next) (omega arith)
                        (omega (arith, length-append bytes chunk)))
      ]
