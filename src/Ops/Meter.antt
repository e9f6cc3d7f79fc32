-- ===== src/Ops/Meter.antt =====
-- Provider calls and body bytes, counted in the world, against the charges to the ledger.
pub mod Rules
pub mod Reads
pub mod Range
pub mod Operations
pub mod Limits
pub mod Entry
use storageprims.Prelude.{ℕ, ◌+◌, ◌≤◌, ◌≡◌, Bytes, length}
use storageprims.Core.Error.{Result, ok}
use storageprims.Core.Source.{GuardedReadSelection, GuardedRangeRequest}
use storageprims.Ops.Budget.{InspectionLedger}
use storageprims.Ops.Provider.{IoResult, done, failed, GuardedReadProvider, State, Action, Runtime}
use storageprims.Ops.Read.Serves.{CompletesCalls}

-- what a world has counted
pub record Meter (W : Type 0) : Type 0 where
  pub calls : W → ℕ
  pub delivered : W → ℕ

-- from `w` to `v`, at most that many calls, and body bytes
abbrev pub Counts : {W : Type 0} → Meter W → W → W → ℕ → ℕ → Type 0
Counts meter w v k n =
    (meter.calls v ≤ meter.calls w + k) × (meter.delivered v ≤ meter.delivered w + n)

-- the bytes that a read takes from its body: those it returns, or at most a buffer before an error
abbrev pub taken : ℕ → IoResult Bytes → ℕ
taken capacity (done chunk) = length chunk
taken capacity (failed e) = capacity

-- A meter of a provider: a call counts once, and a read of a body counts its bytes, which fit the
-- buffer; the clock counts nothing, and a call that is dropped at the deadline counts at most what
-- it counts when it completes.
pub record IsMeter {W R : Type 0} (runtime : Runtime W) (p : GuardedReadProvider W R)
    (meter : Meter W) : Type 1 where
  pub now : (w : W) → Counts meter w (runtime.now w).1 0 0
  pub timeout_at :
      (A : Type 0) (deadline : ℕ) (call : W → A × W) (w : W)
      → Counts meter (call w).1 (runtime.timeout_at deadline call w).1 0 0
  pub completes : CompletesCalls runtime
  pub observe_source : (key : Bytes) (w : W) → Counts meter w (p.observe_source key w).1 1 0
  pub guarded_head :
      (selection : GuardedReadSelection) (w : W) → Counts meter w (p.guarded_head selection w).1 1 0
  pub guarded_get_range :
      (request : GuardedRangeRequest) (w : W) → Counts meter w (p.guarded_get_range request w).1 1 0
  pub read :
      (capacity : ℕ) (reader : R) (w : W)
      → (let (answer, v) = p.read capacity reader w in
          Counts meter w v 0 (taken capacity answer.0) × (taken capacity answer.0 ≤ capacity))

-- a method of the ledger that takes no charge back
abbrev pub Raises : (InspectionLedger → Result InspectionLedger) → Type 0
Raises method =
    (l m : InspectionLedger)
    → method l ≡ ok m
    → (l.helper_requests ≤ m.helper_requests) × (l.payload_bytes ≤ m.payload_bytes)

module _ {W : Type 0} (meter : Meter W) where
  -- what is counted between two states is charged, but for `k` calls and `n` bytes
  abbrev pub Spends : State W → State W → ℕ → ℕ → Type 0
  Spends s t k n =
      (meter.calls t.world + s.ledger.helper_requests
        ≤ meter.calls s.world + t.ledger.helper_requests + k)
      × (meter.delivered t.world + s.ledger.payload_bytes
          ≤ meter.delivered s.world + t.ledger.payload_bytes + n)

  pub record Costs {A : Type 0} (k n : ℕ) (action : Action W A) : Type 0 where
    pub spends : (s : State W) → Spends s (action s).1 k n
