-- ===== src/Ops/Operations/Mid.antt =====
-- `mid_lines` on a selected source: its lines from a line start behind the midpoint on.
use storageprims.Prelude.{
  ℕ, ◌-◌, ◌/◌, ◌≤◌, ◌<◌, ◌^◌, ◌≡◌, sym, ap, arith, min, Bool, Bool-cases, inl, inr, Bytes, length,
  if◌then◌else◌,
}
use mathlib.Core.Path.{subst}
use storageprims.Core.Error.{ProviderKind, StorageOperation, ok}
use storageprims.Core.Source.{GuardedReadSelection}
use storageprims.Ops.Read.{at_end}
use storageprims.Ops.Read.Serves.{CompletesCalls, Serves, guarded_range_bytes-IsRange}
use storageprims.Ops.Budget.{InspectionBudget}
use storageprims.Ops.Budget.Bounds.{IsFinite}
use storageprims.Ops.Align.{LineResult}
use storageprims.Ops.Provider.{GuardedReadProvider, Runtime, State}
use storageprims.Ops.Provider.Invert.{step-then, lift-then, gets-then, refuse_with-ok}
use storageprims.Ops.Provider.Keeps.{kept-budget}
use storageprims.Ops.Read.Keeps.{line_probe-Keeps}
use storageprims.Ops.Operations.Answer.{enough_or, answered-ok, fetch_length-bounds}
use storageprims.Ops.Operations.{fetch_length, mid_sized}
use storageprims.Ops.Operations.Middle.{IsMiddle, mid_aligned-IsMiddle}

half : (size : ℕ) → 1 ≤ size → size / 2 < size
half size one = omega (arith, one)

-- what a line operation reads at most
abbrev pub read_limit : {W : Type 0} → State W → ℕ
read_limit s = min s.ledger.budget.pending_line_bytes s.ledger.budget.payload_bytes

module _ {W R : Type 0} (runtime : Runtime W) (completes : CompletesCalls runtime)
    (kind : ProviderKind) (p : GuardedReadProvider W R) (content : GuardedReadSelection → Bytes)
    (serves : Serves p content) (n : ℕ) where
  pub mid_sized-IsMiddle :
      (selection : GuardedReadSelection) (force_stream : Bool) (s t : State W) (r : LineResult)
      → (let size = length (content selection) in
          mid_sized runtime kind p n selection force_stream size s ≡ (ok r, t)
          → IsFinite s.ledger.budget
          → 1 ≤ n
          → 1 ≤ size
          → size < 2 ^ 64
          → IsMiddle (content selection) (size / 2) (read_limit s) n r.lines
            × (r.total_size ≡ size))
  unfolding mid_sized
  mid_sized-IsMiddle selection force_stream s t r q finite wanted one small =
      let size = length (content selection) in
      let middle = half size one in
      step-then _ _ s t _ q λ _ a e k.
        let same_budget = kept-budget _ s a _ e (line_probe-Keeps runtime p selection size) in
        let finite_there = subst IsFinite (sym same_budget) finite in
        let pending = ap (λ (b : InspectionBudget). b.pending_line_bytes) same_budget in
        let payload = ap (λ (b : InspectionBudget). b.payload_bytes) same_budget in
        let fetched = fetch_length size a.ledger in
        let (some_byte, fits) = fetch_length-bounds size a.ledger finite_there one in
        let start = if force_stream then 0 else size / 2 - fetched / 2 in
        let requested = if force_stream then fetched else min fetched (size - start) in
        let behind : start ≤ size / 2 = elim (Bool-cases force_stream) [
          | inl f ↦ ground (arith, f)
          | inr f ↦ ground (arith, f)
        ] in
        let bounds : (1 ≤ requested) × (requested < 2 ^ 64) = elim (Bool-cases force_stream) [
          | inl f ↦ ground (arith, f, some_byte, fits)
          | inr f ↦ ground (arith, f, some_byte, fits, behind, middle)
        ] in
        let at_front : start ≡ 0 → requested ≤ read_limit s = λ z. elim (Bool-cases force_stream) [
          | inl f ↦ ground (arith, f, pending, payload)
          | inr f ↦ ground (arith, f, pending, payload)
        ] in
        let behind_front : 1 ≤ start → read_limit s < size = λ z. elim (Bool-cases force_stream) [
          | inl f ↦ ground (arith, f, z)
          | inr f ↦ ground (arith, f, z, pending, payload)
        ] in
        step-then _ _ a t _ (gets-then _ _ a _ k) λ (bytes, receipt) c g k.
          step-then _ _ c t _ k λ _ d _ k. lift-then _ _ d t _ k λ _ _ k.
            lift-then _ _ d t _ k λ selected parsed k. step-then _ _ d t _ k λ _ l m k.
              let range =
                guarded_range_bytes-IsRange runtime completes p content serves selection start
                  requested a c bytes receipt g bounds.0 bounds.1 in
              let answer =
                answered-ok runtime completes kind p content serves n _ size selected l t r k in
              let found =
                mid_aligned-IsMiddle kind StorageOperation.mid_lines n wanted (content selection)
                  start requested bytes receipt range bounds.0 small (size / 2) behind selected
                  (read_limit s) at_front behind_front
                  (
                    parsed,
                    enough_or n (at_end receipt) (length selected) (refuse_with-ok _ _ d l m).0,
                  ) in
              (
                subst (IsMiddle (content selection) (size / 2) (read_limit s) n) (sym answer.lines)
                    found,
                answer.total_size,
              )
