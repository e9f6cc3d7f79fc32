-- ===== src/Ops/Read.antt =====
-- crates/storageprims-ops/src/lib.rs: the guarded reads that the operations are built of.
pub mod Serves
pub mod Returns
pub mod Receipts
pub mod Range
pub mod Keeps
use storageprims.Prelude.{
  ℕ, zero, suc, ◌+◌, ◌-◌, min, max, Bool, Option, none, some, List, [], ◌∷◌, ◌++◌, Bytes, length,
  text, ltb, ◌==◌, not, if◌then◌else◌,
}
use storageprims.Core.Error.{
  StorageOperation, Capability, IoError, IoErrorKind, StorageError, Result, ok, err, ok_or,
}
use storageprims.Core.Source.{
  SourceSelector, native_version, validator_match, GuardedReadSelection, SourceReceipt,
  SourceObservation, ByteWindow, GuardedRangeRequest, checked_add, saturating_add,
}
use storageprims.Ops.Budget.{
  InspectionLedger, request, admit_payload, release_payload, check_deadline,
}
use storageprims.Core.Error.{◌>>◌ as both}
use storageprims.Ops.Receipt.{invalid_guarded_range_response, validate_guarded_range_receipt}
use storageprims.Ops.Align.{reject_binary_prefix}
use storageprims.Ops.Provider.{
  GuardedReadResponse, IoResult, done, failed, GuardedReadProvider, bind_guarded_read, Runtime,
  Action, State, ◌>>=◌, ◌>>◌, pure, lift, gets, charge, clocked, timed,
}

-- `check_deadline` changes nothing
abbrev pub check_clock : ℕ → InspectionLedger → Result InspectionLedger
check_clock now l = both (check_deadline now l) (ok l)

abbrev pub io_error : StorageOperation → IoError → StorageError
io_error operation source = StorageError.io (some operation) source

-- the receipt of a read of no bytes
abbrev pub empty_receipt : Bytes → SourceReceipt
empty_receipt key = record {
  path = key;
  native_version = none;
  validator = none;
  total_size = none;
  requested_window = none;
  returned_window = none;
}

-- the selector that an observation offers
unfoldable pub offered : InspectionLedger → SourceReceipt → Result SourceSelector
offered ledger receipt = elim receipt.native_version [
  | some token ↦ ok (native_version token)
  | none ↦ elim receipt.validator [
    | some token ↦ ok (validator_match token)
    | none ↦ err (
        StorageError.unsupported_capability ledger.provider ledger.operation
          Capability.guarded_read)
  ]
]

-- `receipt.total_size == receipt.returned_window.map(|window| window.end.saturating_add(1))`
abbrev pub past_end : Option ByteWindow → Option ℕ
past_end none = none
past_end (some window) = some (saturating_add window.end 1)

abbrev pub same : Option ℕ → Option ℕ → Bool
same none none = Bool.true
same (some a) (some b) = a == b
same _ _ = Bool.false

unfoldable pub at_end : SourceReceipt → Bool
at_end receipt = same receipt.total_size (past_end receipt.returned_window)

-- one read under the deadline, its error with the operation
abbrev pub read_result : {R : Type 0} → StorageOperation → IoResult Bytes × R → Result (Bytes × R)
read_result operation (done bytes, r) = ok (bytes, r)
read_result operation (failed e, r) = err (io_error operation e)

-- a read of no bytes is the end of the body
abbrev pub some_bytes : StorageOperation → Bytes → Result (Unit {0})
some_bytes operation [] = err (
    io_error operation (record {
      kind = IoErrorKind.unexpected_eof;
      detail = text "guarded range body ended before its validated window";
    }))
some_bytes operation (c ∷ cs) = ok tt

-- no byte stands behind the window
abbrev pub end_of : StorageOperation → Bytes → Result (Unit {0})
end_of operation [] = ok tt
end_of operation (c ∷ cs) =
    err (invalid_guarded_range_response operation "guarded range body exceeds its returned window")

module _ {W R : Type 0} (runtime : Runtime W) (provider : GuardedReadProvider W R) where
  unfoldable pub observe_and_bind : Bytes → Action W (GuardedReadSelection × SourceReceipt)
  observe_and_bind key = do
    clocked runtime request
    answer ← timed runtime (provider.observe_source key)
    observation ← lift answer
    selector ← gets (λ l. offered l observation.receipt)
    selector ← lift selector
    selection ← lift (bind_guarded_read provider key selector)
    pure (selection, observation.receipt)

  -- the receipt of the selected source, under the deadline
  unfoldable pub selected_head : GuardedReadSelection → Action W SourceReceipt
  selected_head selection = do
    clocked runtime request
    answer ← timed runtime (provider.guarded_head selection)
    lift answer

  unfoldable pub selected_size : GuardedReadSelection → SourceReceipt → Action W ℕ
  selected_size selection observation = do
    receipt ← selected_head selection
    operation ← gets (λ l. l.operation)
    lift (
        ok_or receipt.total_size (
          io_error operation (record {
            kind = IoErrorKind.invalid_data;
            detail = text "guarded source response is missing total size";
          })))

  unfoldable pub timed_read : ℕ → R → Action W (Bytes × R)
  timed_read capacity reader = do
    answer ← timed runtime (provider.read capacity reader)
    operation ← gets (λ l. l.operation)
    lift (read_result operation answer)

  -- The `while` loop on `bytes` and the reader; `scratch` is the length of the buffer. A round that
  -- continues adds a byte at least, so `capacity` rounds suffice.
  unfoldable pub read_body : ℕ → ℕ → ℕ → Bytes → R → Action W (Bytes × R)
  read_body zero capacity scratch bytes reader = pure (bytes, reader)
  read_body (suc fuel) capacity scratch bytes reader =
      let round = (do
        clocked runtime check_clock
        (chunk, next) ← timed_read (min (capacity - length bytes) scratch) reader
        operation ← gets (λ l. l.operation)
        lift (some_bytes operation chunk)
        read_body fuel capacity scratch (bytes ++ chunk) next) in
      if ltb (length bytes) capacity then round else pure (bytes, reader)

  -- the read of one byte behind the body
  unfoldable pub prove_end : R → Action W (Unit {0})
  prove_end reader = do
    (extra, _) ← timed_read 1 reader
    operation ← gets (λ l. l.operation)
    lift (end_of operation extra)

  -- the request and its response, with the length that the receipt proves
  unfoldable pub guarded_request :
      GuardedReadSelection → ℕ → ℕ → Action W (GuardedReadResponse R × ℕ)
  guarded_request selection offset length = do
    clocked runtime request
    answer ← timed runtime (
        provider.guarded_get_range
          (record { selection = selection; offset = offset; length = length }))
    response ← lift answer
    operation ← gets (λ l. l.operation)
    returned ← lift (validate_guarded_range_receipt response.receipt offset length operation)
    pure (response, returned)

  -- a range of one byte at least
  unfoldable pub range_bytes : GuardedReadSelection → ℕ → ℕ → Action W (Bytes × SourceReceipt)
  range_bytes selection offset length = do
    operation ← gets (λ l. l.operation)
    reserved ← lift (
        ok_or (checked_add length 1) (
          StorageError.invalid_argument (some operation) (text "length")
            (text "range length cannot reserve an EOF proof byte")))
    clocked runtime (λ now l. admit_payload now reserved l)
    (response, returned) ← guarded_request selection offset length
    chunk_size ← gets (λ l. l.budget.chunk_size)
    (bytes, reader) ←
        read_body returned returned (max (min chunk_size returned) 1) [] response.reader
    prove_end reader
    charge (λ l. ok (release_payload (reserved - returned) l))
    pure (bytes, response.receipt)

  unfoldable pub guarded_range_bytes :
      GuardedReadSelection → ℕ → ℕ → Action W (Bytes × SourceReceipt)
  guarded_range_bytes selection offset zero = pure ([], empty_receipt selection.key)
  guarded_range_bytes selection offset (suc length) = range_bytes selection offset (suc length)

  unfoldable pub line_probe : GuardedReadSelection → ℕ → Action W (Bytes × SourceReceipt)
  line_probe selection size = do
    probe_size ← gets (λ l. l.budget.probe_size)
    (probe, receipt) ← guarded_range_bytes selection 0 (min size probe_size)
    checked ← gets (λ l. reject_binary_prefix probe l.provider l.operation)
    lift checked
    pure (probe, receipt)
