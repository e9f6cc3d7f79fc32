-- ===== src/Ops/Meter/Limits.antt =====
-- Provider calls and body bytes of a task that opens a ledger, against the ledger's budget.
use storageprims.Prelude.{
  ℕ, ◌*◌, ◌≡◌, refl, ap, ◌∙◌, arith, inl, inr, some, Bytes, ◌==◌, if◌then◌else◌,
}
use mathlib.Core.Path.{subst}
use storageprims.Core.Error.{ProviderKind, StorageOperation, Result, ok, err, Result-cases}
use storageprims.Core.Source.{GuardedReadSelection}
use storageprims.Ops.Budget.{InspectionBudget, InspectionLedger, new_ledger}
use storageprims.Ops.Budget.Charges.{IsFresh, new_ledger-IsFresh}
use storageprims.Ops.Receipt.{LineOptions, line_budget}
use storageprims.Ops.Align.{LineResult}
use storageprims.Ops.Provider.{
  GuardedReadProvider, StorageProvider, require_guarded_reads, Runtime, State, Action, ◌>>=◌, pure,
}
use storageprims.Ops.Provider.Keeps.{Keeps, Follows}
use storageprims.Ops.Read.{observe_and_bind, selected_size}
use storageprims.Ops.Read.Keeps.{keeping, observe_and_bind-Keeps, selected_size-Keeps}
use storageprims.Ops.Operations.{preview_selected}
use storageprims.Ops.Operations.Keeps.{preview_selected-Keeps}
use storageprims.Ops.Entry.{
  opened, with_ledger, on_source, line_operation, preview_body, selected_body,
}
use storageprims.Ops.Meter.{Meter, Counts, IsMeter, Spends, Costs}
use storageprims.Ops.Meter.Rules.{>>=-free}
use storageprims.Ops.Meter.Reads.{observe_and_bind-Costs, selected_size-Costs}
use storageprims.Ops.Meter.Range.{metering, lifted-Costs}
use storageprims.Ops.Meter.Operations.{preview_selected-Costs}

-- a fresh ledger has charged nothing, so what its body charges is within the budget
charged_within :
    {W : Type 0} (meter : Meter W) (now : ℕ) (budget : InspectionBudget) (s t : State W)
    → IsFresh now budget s.ledger
    → Follows s.ledger t.ledger
    → Spends meter s t 0 0
    → Counts meter s.world t.world budget.helper_requests budget.payload_bytes
charged_within meter now budget s t fresh follows spent =
    let requests =
      ap (λ (b : InspectionBudget). b.helper_requests) (follows.budget ∙ fresh.budgeted) in
    let payload =
      ap (λ (b : InspectionBudget). b.payload_bytes) (follows.budget ∙ fresh.budgeted) in
    let within = follows.within (record {
      requests = omega (arith, fresh.requested);
      payload = omega (arith, fresh.paid);
      output = omega (arith, fresh.sent);
    }) in
    omega (arith, spent, requests, payload, within, fresh.requested, fresh.paid)

module _ {W : Type 0} (meter : Meter W) where
  opened-Counts :
      {A : Type 0} (now : ℕ) (budget : InspectionBudget) (o : Result InspectionLedger)
      (body : Action W A) (w : W)
      → ((l : InspectionLedger) → o ≡ ok l → IsFresh now budget l)
      → Keeps body
      → Costs meter 0 0 body
      → Counts meter w (opened o body w).1 budget.helper_requests budget.payload_bytes
  opened-Counts now budget (err x) body w fresh keeps costs = omega arith
  opened-Counts now budget (ok l) body w fresh keeps costs =
      let s : State W = record { ledger = l; world = w } in
      charged_within meter now budget s (body s).1 (fresh l refl) (keeps.follows s) (costs.spends s)

  module _ {R : Type 0} (runtime : Runtime W) (p : GuardedReadProvider W R)
      (is_meter : IsMeter runtime p meter) (clock_max : ℕ) where
    pub with_ledger-Counts :
        {A : Type 0} (kind : ProviderKind) (operation : StorageOperation)
        (budget : InspectionBudget) (body : Action W A) (w : W)
        → Keeps body
        → Costs meter 0 0 body
        → Counts meter w
            (with_ledger runtime clock_max kind operation budget body w).1
            budget.helper_requests
            budget.payload_bytes
    unfolding with_ledger
    with_ledger-Counts kind operation budget body w keeps costs =
        let (now, v) = runtime.now w in
        omega (
          arith,
          is_meter.now w,
          opened-Counts now budget (new_ledger clock_max now kind operation budget) body v
              (λ l e. new_ledger-IsFresh clock_max now kind operation budget l e) keeps costs,
        )

    module _ (provider : StorageProvider W R) (reads : provider.guarded_reads ≡ some p)
        (operation : StorageOperation) where
      only_reads :
          (g : GuardedReadProvider W R) → require_guarded_reads provider operation ≡ ok g → p ≡ g
      unfolding require_guarded_reads
      only_reads g e = ground (arith, (rw reads at e))

      pub on_source-Keeps :
          {A : Type 0} (key : Bytes) (empty : A)
          (body : GuardedReadProvider W R → GuardedReadSelection → ℕ → Action W A)
          → ((g : GuardedReadProvider W R) (selection : GuardedReadSelection) (size : ℕ)
              → Keeps (body g selection size))
          → Keeps (on_source runtime clock_max provider operation key empty body)
      unfolding on_source
      on_source-Keeps key empty body keeps =
          search (keeping, observe_and_bind-Keeps, selected_size-Keeps, keeps) depth 16

      pub on_source-Costs :
          {A : Type 0} (key : Bytes) (empty : A)
          (body : GuardedReadProvider W R → GuardedReadSelection → ℕ → Action W A)
          → ((selection : GuardedReadSelection) (size : ℕ)
              → Costs meter 0 0 (body p selection size))
          → Costs meter 0 0 (on_source runtime clock_max provider operation key empty body)
      unfolding on_source
      on_source-Costs key empty body costs = lifted-Costs meter 0 0 _ _ λ g e.
          subst
            (λ g. Costs meter 0 0 (
              observe_and_bind runtime g key >>= λ bound.
              selected_size runtime g bound.0 bound.1 >>= λ size.
              if size == 0 then pure empty else body g bound.0 size))
            (only_reads g e)
            (search (metering, observe_and_bind-Costs, selected_size-Costs, costs) depth 16)

      line_budget-limits :
          (n : ℕ) (options : LineOptions) (budget : InspectionBudget)
          → line_budget operation n options ≡ ok budget
          → (budget.helper_requests ≡ 16) × (budget.payload_bytes ≡ 8 * 1024 * 1024)
      unfolding line_budget
      line_budget-limits n options budget q = ground (arith, q)

      pub line_operation-Counts :
          (key : Bytes) (n : ℕ) (options : LineOptions) (empty : LineResult)
          (body : GuardedReadProvider W R → GuardedReadSelection → ℕ → Action W LineResult) (w : W)
          → ((g : GuardedReadProvider W R) (selection : GuardedReadSelection) (size : ℕ)
              → Keeps (body g selection size))
          → ((selection : GuardedReadSelection) (size : ℕ)
              → Costs meter 0 0 (body p selection size))
          → Counts meter w
              (line_operation runtime clock_max provider operation key n options empty body w).1
              16
              (8 * 1024 * 1024)
      line_operation-Counts key n options empty body w keeps costs =
          elim (Result-cases (line_budget operation n options)) [
            | inl (budget, e) ↦ rw e (
                omega (
                  arith,
                  line_budget-limits n options budget e,
                  with_ledger-Counts provider.provider_kind operation budget
                      (on_source runtime clock_max provider operation key empty body) w
                      (on_source-Keeps key empty body keeps) (on_source-Costs key empty body costs),
                ))
            | inr (x, e) ↦ rw e (omega arith)
          ]

    pub selected_body-Keeps :
        (g : GuardedReadProvider W R) (selection : GuardedReadSelection) (requested : ℕ)
        → Keeps (selected_body runtime clock_max g selection requested)
    selected_body-Keeps g selection requested = search (keeping, preview_selected-Keeps) depth 16

    pub selected_body-Costs :
        (selection : GuardedReadSelection) (requested : ℕ)
        → Costs meter 0 0 (selected_body runtime clock_max p selection requested)
    selected_body-Costs selection requested = search (metering, preview_selected-Costs) depth 16

    module _ (provider : StorageProvider W R) (reads : provider.guarded_reads ≡ some p) where
      pub preview_body-Keeps :
          (key : Bytes) (requested : ℕ)
          → Keeps (preview_body runtime clock_max provider key requested)
      preview_body-Keeps key requested =
          search (keeping, observe_and_bind-Keeps, preview_selected-Keeps) depth 16

      pub preview_body-Costs :
          (key : Bytes) (requested : ℕ)
          → Costs meter 0 0 (preview_body runtime clock_max provider key requested)
      preview_body-Costs key requested = >>=-free meter _ _ (search metering) λ fits.
          >>=-free meter _ _ (search metering) λ _. lifted-Costs meter 0 0 _ _ λ g e.
            subst
              (λ g. Costs meter 0 0 (
                observe_and_bind runtime g key >>= λ bound.
                preview_selected runtime g bound.0 requested))
              (only_reads provider reads StorageOperation.preview_bytes g e)
              (search (metering, observe_and_bind-Costs, preview_selected-Costs) depth 16)
