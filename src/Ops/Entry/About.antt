-- ===== src/Ops/Entry/About.antt =====
-- What the line operations answer about, and their common start.
use storageprims.Prelude.{
  inl, inr, ℕ, ◌≤◌, ◌≡◌, refl, sym, ap, ◌∙◌, arith, some, List, [], Bytes, length, nil_of_length,
}
use storageprims.Core.Error.{StorageOperation, Result, ok, err, Result-cases}
use storageprims.Core.Source.{GuardedReadSelection}
use storageprims.Ops.Budget.{InspectionBudget, default_budget, validate_budget}
use storageprims.Ops.Receipt.{LineOptions, line_budget}
use storageprims.Ops.Align.{LineResult, ReadStrategy, empty_result}
use storageprims.Ops.Provider.{GuardedReadProvider, StorageProvider, Runtime, State, Action}
use storageprims.Ops.Budget.Bounds.{IsFinite, validate_budget-IsFinite}
use storageprims.Ops.Read.Serves.{CompletesCalls, Serves}
use storageprims.Ops.Operations.Answer.{Answers}
use storageprims.Ops.Entry.{Task, budgeted, with_ledger, on_source, line_operation}
use storageprims.Ops.Entry.Source.{with_ledger-then, on_source-then}

budgeted-then {κ} :
    {W A : Type 0} {P : Type κ} (o : Result InspectionBudget) (body : InspectionBudget → Task W A)
    (w v : W) (r : A)
    → budgeted o body w ≡ (ok r, v)
    → ((budget : InspectionBudget) → o ≡ ok budget → body budget w ≡ (ok r, v) → P)
    → P
budgeted-then (err e) body w v r q found = ground (arith, q)
budgeted-then (ok budget) body w v r q found = found budget refl q

-- a budget for lines is one for a line at least
line_budget-positive :
    (operation : StorageOperation) (n : ℕ) (options : LineOptions) (budget : InspectionBudget)
    → line_budget operation n options ≡ ok budget
    → 1 ≤ n
unfolding line_budget
line_budget-positive operation n options budget q =
    let wanted = record default_budget {
      line_count = n;
      chunk_size = options.chunk_size;
      probe_size = options.probe_size;
    } in
    elim (Result-cases (validate_budget operation wanted)) [
      | inl (_, e) ↦ ((validate_budget-IsFinite operation wanted).0 e).lines.0
      | inr (x, e) ↦ ground (arith, q, e)
    ]

-- an empty object has no lines
pub empty_result-Answers :
    (strategy : ReadStrategy) (wanted : Bytes → List Bytes) (doc : Bytes) (r : LineResult)
    → wanted [] ≡ []
    → length doc ≡ 0
    → empty_result strategy 0 ≡ r
    → Answers r (wanted doc) (length doc)
unfolding empty_result
empty_result-Answers strategy wanted doc r none e q = record {
  lines = ap (λ x. x.lines) (sym q) ∙ sym none ∙ ap wanted (sym (nil_of_length doc e));
  total_size = ap (λ x. x.total_size) (sym q) ∙ sym e;
}

-- the answer is about one selection of the key
pub record IsAbout (content : GuardedReadSelection → Bytes) (path : Bytes)
    (wanted : Bytes → List Bytes) (r : LineResult) : Type 0 where
  pub selection : GuardedReadSelection
  pub key : selection.key ≡ path
  pub answers : Answers r (wanted (content selection)) (length (content selection))

module _ {W R : Type 0} (runtime : Runtime W) (completes : CompletesCalls runtime)
    (p : GuardedReadProvider W R) (content : GuardedReadSelection → Bytes)
    (serves : Serves p content) where
  -- a line operation that succeeds: on an empty source, or by its body on one that is not
  pub line_operation-then {κ} :
      {P : Type κ} (clock_max : ℕ) (provider : StorageProvider W R) (operation : StorageOperation)
      (key : Bytes) (n : ℕ) (options : LineOptions) (strategy : ReadStrategy)
      (body : GuardedReadProvider W R → GuardedReadSelection → ℕ → Action W LineResult) (w v : W)
      (r : LineResult)
      → provider.guarded_reads ≡ some p
      → line_operation runtime clock_max provider operation key n options
          (empty_result strategy 0)
          body
          w
        ≡ (ok r, v)
      → ((selection : GuardedReadSelection)
          → selection.key ≡ key
          → length (content selection) ≡ 0
          → empty_result strategy 0 ≡ r
          → P)
      → ((selection : GuardedReadSelection) (s t : State W)
          → selection.key ≡ key
          → body p selection (length (content selection)) s ≡ (ok r, t)
          → line_budget operation n options ≡ ok s.ledger.budget
          → IsFinite s.ledger.budget
          → 1 ≤ n
          → 1 ≤ length (content selection)
          → P)
      → P
  line_operation-then clock_max provider operation key n options strategy body w v r reads q nothing
        found =
      let start =
        on_source runtime clock_max provider operation key (empty_result strategy 0) body in
      budgeted-then (line_budget operation n options)
        (λ budget. with_ledger runtime clock_max provider.provider_kind operation budget start) w v
        r q
        λ budget b k.
          with_ledger-then runtime clock_max provider.provider_kind operation budget start w v r k
            λ s t opened finite k.
              on_source-then runtime completes p content serves clock_max provider operation key
                (empty_result strategy 0) body s t r k reads finite nothing
                λ selection u keyed one same_budget finite k.
                  found selection u t keyed k (b ∙ ap ok (sym (same_budget ∙ opened))) finite
                    (line_budget-positive operation n options budget b) one

  -- a line operation whose body answers about every source that is not empty
  pub line_operation-IsAbout :
      (clock_max : ℕ) (provider : StorageProvider W R) (operation : StorageOperation) (key : Bytes)
      (n : ℕ) (options : LineOptions) (strategy : ReadStrategy)
      (body : GuardedReadProvider W R → GuardedReadSelection → ℕ → Action W LineResult)
      (wanted : Bytes → List Bytes) (w v : W) (r : LineResult)
      → provider.guarded_reads ≡ some p
      → wanted [] ≡ []
      → ((selection : GuardedReadSelection) (s t : State W)
          → body p selection (length (content selection)) s ≡ (ok r, t)
          → IsFinite s.ledger.budget
          → 1 ≤ n
          → 1 ≤ length (content selection)
          → Answers r (wanted (content selection)) (length (content selection)))
      → line_operation runtime clock_max provider operation key n options
          (empty_result strategy 0)
          body
          w
        ≡ (ok r, v)
      → IsAbout content key wanted r
  line_operation-IsAbout clock_max provider operation key n options strategy body wanted w v r reads
        none sized q =
      line_operation-then clock_max provider operation key n options strategy body w v r reads q
        (λ selection keyed nothing e. record {
          selection = selection;
          key = keyed;
          answers = empty_result-Answers strategy wanted (content selection) r none nothing e;
        })
        λ selection s t keyed k _ finite wanted_one one. record {
          selection = selection;
          key = keyed;
          answers = sized selection s t k finite wanted_one one;
        }
