-- ===== src/S3/Guarded/Range.antt =====
-- A range that the provider serves passes the checks of the inspection operations.
use storageprims.Prelude.{
  ℕ, ◌+◌, ◌≤◌, ◌<◌, ◌^◌, ◌≡◌, refl, sym, ap, arith, Option, none, some, Bytes,
}
use mathlib.Core.Path.{subst}
use storageprims.Core.Error.{StorageOperation, Result, ok, err, ok_or, ◌>>=◌}
use storageprims.Core.Source.{GuardedRangeRequest, ByteWindow, checked_len}
use storageprims.Ops.Provider.{GuardedReadResponse}
use storageprims.Ops.Receipt.{validate_guarded_range_receipt}
use storageprims.Ops.Receipt.Prove.{IsWindow, Returns, validate_guarded_range_receipt_iff}
use storageprims.S3.Response.{
  invalid_response, ℤ, pos, negsuc, checked_content_length, ParsedContentRange,
}
use storageprims.S3.Response.Receipt.{checked_receipt_iff}
use storageprims.S3.Stream.{DeclaredLengthRead, new_declared}
use storageprims.S3.Guarded.{
  checked, requested, S3Provider, Client, GetResponse, Sent, answer, failure, range_end,
  check_range, request_end, get_evidence, present, bound_key, range_answer, range_response,
  guarded_get_range,
}

-- a chain of results that succeeds: its first step did, and so did the rest
bind-then {κ} :
    {A B : Type 0} {P : Type κ} (m : Result A) (f : A → Result B) (b : B)
    → (m >>= f) ≡ ok b
    → ((a : A) → m ≡ ok a → f a ≡ ok b → P)
    → P
bind-then (ok a) f b q found = found a refl q
bind-then (err e) f b q found = ground (arith, q)

module _ {W A B : Type 0} where
  checked-then {κ} :
      {P : Type κ} (m : Result A) (step : A → W → Result B × W) (w v : W) (b : B)
      → checked m step w ≡ (ok b, v)
      → ((a : A) → m ≡ ok a → step a w ≡ (ok b, v) → P)
      → P
  checked-then (ok a) step w v b q found = found a refl q
  checked-then (err e) step w v b q found = ground (arith, q)

  requested-then {κ} :
      {P : Type κ} (m : Result Bytes) (send : Bytes → W → A × W) (finish : Bytes → A → Result B)
      (w v : W) (b : B)
      → requested m send finish w ≡ (ok b, v)
      → ((key : Bytes) → finish key (send key w).0 ≡ ok b → P)
      → P
  requested-then (ok key) send finish w v b q found = found key (ap (λ x. x.0) q)
  requested-then (err e) send finish w v b q found = ground (arith, q)

request_end-ok :
    (offset length e : ℕ)
    → request_end offset length ≡ ok e
    → (1 ≤ length) × (e + 1 ≡ offset + length) × (offset + length ≤ 2 ^ 64)
unfolding request_end
request_end-ok offset length e q = ground (arith, q)

check_range-ok :
    (offset length e status : ℕ) (window : ByteWindow) (total : Option ℕ)
    (content_length : Option ℤ) (n : ℕ)
    → check_range offset e status (record { window = window; total_size = total }) content_length
      ≡ ok n
    → 1 ≤ length
    → e + 1 ≡ offset + length
    → IsWindow (some window) offset n × Returns total offset length n
unfolding check_range range_end checked_len checked_content_length
check_range-ok offset length e status window none none n q one last = ground (arith, q)
check_range-ok offset length e status window none (some (pos c)) n q one last = ground (arith, q)
check_range-ok offset length e status window none (some (negsuc c)) n q one last = ground (arith, q)
check_range-ok offset length e status window (some t) none n q one last = ground (arith, q)
check_range-ok offset length e status window (some t) (some (pos c)) n q one last =
    ground (arith, q)
check_range-ok offset length e status window (some t) (some (negsuc c)) n q one last =
    ground (arith, q)

-- a response that the inspection operations accept for n bytes, of which the reader delivers n
pub record IsServed {B : Type 0} (request : GuardedRangeRequest)
    (response : GuardedReadResponse (DeclaredLengthRead B)) : Type 0 where
  pub size : ℕ
  pub accepted :
      (operation : StorageOperation)
      → validate_guarded_range_receipt response.receipt request.offset request.length operation
        ≡ ok size
  pub declared : response.reader.remaining ≡ some size

module _ {B : Type 0} (s : S3Provider) (request : GuardedRangeRequest)
    (small : request.length < 2 ^ 64) where
  range_answer-IsServed :
      (e status : ℕ) (sent : GetResponse B) (response : GuardedReadResponse (DeclaredLengthRead B))
      → request_end request.offset request.length ≡ ok e
      → range_answer s request e status sent ≡ ok response
      → IsServed request response
  unfolding range_answer new_declared
  range_answer-IsServed e status sent response ended q =
      let (one, last, fits) = request_end-ok request.offset request.length e ended in
      bind-then _ _ response q λ (returned : ParsedContentRange) _ k.
        bind-then _ _ response k λ n checked k. bind-then _ _ response k λ receipt proved k.
          let (window, returns) =
            check_range-ok request.offset request.length e status returned.window
              returned.total_size sent.content_length n checked one last in
          let (_, _, _, _, _, asked, given) =
            (checked_receipt_iff request.selection.key request.selection.selector
                (get_evidence sent) (some (record { start = request.offset; end = e }))
                (some returned.window) StorageOperation.guarded_get_range receipt).0
              proved in
          let full = record receipt { total_size = returned.total_size } in
          let accepts : (operation : StorageOperation)
              → validate_guarded_range_receipt full request.offset request.length operation ≡ ok n =
            λ operation.
              (validate_guarded_range_receipt_iff full request.offset request.length n operation one
                  small).1
                (
                  fits,
                  subst (λ w. IsWindow w request.offset request.length) (sym asked) (refl, last),
                  subst (λ w. IsWindow w request.offset n) (sym given) window,
                  returns,
                ) in
          let made : GuardedReadResponse (DeclaredLengthRead B) = record {
            receipt = full;
            reader = new_declared sent.body (some n);
          } in
          let answered : ok made ≡ ok response = k in
          let same : made ≡ response = ground (arith, answered) in
          subst (IsServed request) same (record { size = n; accepted = accepts; declared = refl })

  range_response-IsServed :
      (e : ℕ) (key : Bytes) (sent : Sent (GetResponse B))
      (response : GuardedReadResponse (DeclaredLengthRead B))
      → request_end request.offset request.length ≡ ok e
      → range_response s request e key sent ≡ ok response
      → IsServed request response
  unfolding range_response
  range_response-IsServed e key (failure error) response ended q = ground (arith, q)
  range_response-IsServed e key (answer r) response ended q =
      bind-then
        (ok_or r.status (
          invalid_response StorageOperation.guarded_get_range
            "range response status was not available"))
        _ response q
        λ status _ k.
          bind-then
            (present StorageOperation.guarded_get_range request.selection.key r.delete_marker) _
            response k λ _ _ k. range_answer-IsServed e status r response ended k

-- A range of fewer than 2^64 bytes that the S3 provider serves is accepted by the check that the
-- inspection operations make of its receipt, for the offset and the length of the request, and its
-- reader is bounded by exactly the number of bytes that the check returns: whatever the client
-- sends.
pub guarded_get_range-IsServed :
    {W B : Type 0} (s : S3Provider) (client : Client W B) (request : GuardedRangeRequest) (w v : W)
    (response : GuardedReadResponse (DeclaredLengthRead B))
    → request.length < 2 ^ 64
    → guarded_get_range s client request w ≡ (ok response, v)
    → IsServed request response
unfolding guarded_get_range
guarded_get_range-IsServed s client request w v response small q =
    checked-then (request_end request.offset request.length) _ w v response q λ e ended k.
      requested-then (bound_key s request.selection StorageOperation.guarded_get_range) _
        (range_response s request e) w v response k
        λ key k. range_response-IsServed s request small e key _ response ended k
