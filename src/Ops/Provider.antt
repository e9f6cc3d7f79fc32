-- ===== src/Ops/Provider.antt =====
-- crates/storageprims-core/src/provider.rs, as far as the inspection operations use it: guarded
-- reads as an interface over a world, and the runtime's clock and timeouts. An action of an
-- operation has the ledger and the world as its state.
pub mod Invert
pub mod Keeps
use storageprims.Prelude.{ℕ, Option, none, some, Bytes, Bool}
use storageprims.Core.Error.{
  ProviderKind, StorageOperation, Capability, IoError, StorageError, Result, ok, err, ok_or,
}
use storageprims.Core.Source.{
  GuardedReadSelection, SourceSelector, SourceReceipt, SourceObservation, GuardedRangeRequest, bind,
}
use storageprims.Ops.Budget.{InspectionLedger, deadline_error}

pub record GuardedReadResponse (R : Type 0) : Type 0 where
  pub receipt : SourceReceipt
  pub reader : R

-- `std::io::Result`
pub data IoResult (A : Type 0) : Type 0 where
  done : A → IoResult A
  failed : IoError → IoResult A

-- Each method of the trait is a step of the world `W`; `R` is the type of the body's readers.
-- `read` is the readers' own method: it puts bytes into a buffer of that length, and returns them
-- and the reader.
pub record GuardedReadProvider (W R : Type 0) : Type 0 where
  pub guarded_read_target_identity : Bytes
  pub observe_source : Bytes → W → Result SourceObservation × W
  pub guarded_head : GuardedReadSelection → W → Result SourceReceipt × W
  pub guarded_get : GuardedReadSelection → W → Result (GuardedReadResponse R) × W
  pub guarded_get_range : GuardedRangeRequest → W → Result (GuardedReadResponse R) × W
  pub read : ℕ → R → W → (IoResult Bytes × R) × W

-- the default method of the trait
abbrev pub bind_guarded_read :
    {W R : Type 0} → GuardedReadProvider W R → Bytes → SourceSelector → Result GuardedReadSelection
bind_guarded_read p key selector = bind p.guarded_read_target_identity key selector

pub record StorageProvider (W R : Type 0) : Type 0 where
  pub provider_kind : ProviderKind
  pub guarded_reads : Option (GuardedReadProvider W R)

unfoldable pub require_guarded_reads :
    {W R : Type 0} → StorageProvider W R → StorageOperation → Result (GuardedReadProvider W R)
require_guarded_reads provider operation =
    ok_or provider.guarded_reads
      (StorageError.unsupported_capability provider.provider_kind operation Capability.guarded_read)

-- tokio: the monotonic clock, and `timeout_at`, whose result is `none` if the deadline passes first
pub record Runtime (W : Type 0) : Type 1 where
  pub now : W → ℕ × W
  pub timeout_at : {A : Type 0} → ℕ → (W → A × W) → W → Option A × W

pub record State (W : Type 0) : Type 0 where
  pub ledger : InspectionLedger
  pub world : W

-- the state comes back with an error too
abbrev pub Action : Type 0 → Type 0 → Type 0
Action W A = State W → Result A × State W

infixl 5 ◌>>=◌ ◌>>◌
-- shut, so that a proof takes a sequence apart step by step
unfoldable pub ◌>>=◌ : {W A B : Type 0} → Action W A → (A → Action W B) → Action W B
◌>>=◌ step rest s = let (r, t) = step s in elim r [ ok a ↦ rest a t | err e ↦ (err e, t) ]

abbrev pub ◌>>◌ : {W B : Type 0} → Action W (Unit {0}) → Action W B → Action W B
check >> rest = check >>= λ _. rest

abbrev pub timed_out : {A : Type 0} → InspectionLedger → Option A → Result A
timed_out ledger none = err (deadline_error ledger)
timed_out ledger (some a) = ok a

module _ {W : Type 0} where
  abbrev pub pure : {A : Type 0} → A → Action W A
  pure a s = (ok a, s)

  -- a fallible step that touches neither ledger nor world
  abbrev pub lift : {A : Type 0} → Result A → Action W A
  lift r s = (r, s)

  abbrev pub gets : {A : Type 0} → (InspectionLedger → A) → Action W A
  gets f s = (ok (f s.ledger), s)

  -- `ledger.method(…)?`, for a method that reads no clock
  abbrev pub charged : Result InspectionLedger → Action W (Unit {0})
  charged (ok l) s = (ok tt, record s { ledger = l })
  charged (err e) s = (err e, s)

  unfoldable pub charge : (InspectionLedger → Result InspectionLedger) → Action W (Unit {0})
  charge method s = charged (method s.ledger) s

  -- the ledger's own error
  unfoldable pub refuse_with : Bool → (InspectionLedger → StorageError) → Action W (Unit {0})
  refuse_with Bool.true error s = (err (error s.ledger), s)
  refuse_with Bool.false error s = (ok tt, s)

  module _ (runtime : Runtime W) where
    -- the same for a method that reads the clock
    unfoldable pub clocked : (ℕ → InspectionLedger → Result InspectionLedger) → Action W (Unit {0})
    clocked method s =
        let (now, w) = runtime.now s.world in
        charged (method now s.ledger) (record { ledger = s.ledger; world = w })

    -- `timeout_at(ledger.deadline(), call).await.map_err(…)?`
    unfoldable pub timed : {A : Type 0} → (W → A × W) → Action W A
    timed call s =
        let (r, w) = runtime.timeout_at s.ledger.deadline call s.world in
        (timed_out s.ledger r, record s { world = w })
