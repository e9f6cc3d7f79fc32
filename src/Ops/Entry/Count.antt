-- ===== src/Ops/Entry/Count.antt =====
-- `count_lines` against the lines of the object.
use storageprims.Prelude.{ℕ, ◌<◌, ◌^◌, ◌≡◌, sym, ap, ◌∙◌, true, some, Bytes, length, nil_of_length}
use storageprims.Core.Error.{StorageOperation, ok}
use storageprims.Core.Source.{GuardedReadSelection}
use storageprims.Ops.Lines.Reference.{raw_lines, raw_lines-nil}
use storageprims.Ops.Budget.{default_budget}
use storageprims.Ops.Provider.{GuardedReadProvider, StorageProvider, Runtime, Action}
use storageprims.Ops.Read.Serves.{CompletesCalls, Serves}
use storageprims.Ops.Operations.{count_sized}
use storageprims.Ops.Operations.Count.{count_sized-length}
use storageprims.Ops.Entry.{on_source, count_lines}
use storageprims.Ops.Entry.Source.{with_ledger-then, on_source-then}

no_lines : (doc : Bytes) → length doc ≡ 0 → 0 ≡ length (raw_lines true doc)
no_lines doc e =
    sym (ap length (raw_lines-nil true))
    ∙ ap (λ x. length (raw_lines true x)) (sym (nil_of_length doc e))

-- Where calls that end in time are the provider's, and it serves contents of fewer than 2^64
-- bytes, a count that succeeds is the number of lines of the content of one selection of the
-- key, with a last line that has no ending among them.
pub count_lines-length :
    {W R : Type 0} (runtime : Runtime W) (clock_max : ℕ) (provider : StorageProvider W R)
    (p : GuardedReadProvider W R) (content : GuardedReadSelection → Bytes) (key : Bytes) (w v : W)
    (count : ℕ)
    → CompletesCalls runtime
    → Serves p content
    → provider.guarded_reads ≡ some p
    → ((selection : GuardedReadSelection) → length (content selection) < 2 ^ 64)
    → count_lines runtime clock_max provider key w ≡ (ok count, v)
    → (selection : GuardedReadSelection) × (selection.key ≡ key)
      × (count ≡ length (raw_lines true (content selection)))
unfolding count_lines
count_lines-length {W} {R} runtime clock_max provider p content key w v count completes serves reads
      small q =
    let body : GuardedReadProvider W R → GuardedReadSelection → ℕ → Action W ℕ =
      λ guarded selection size. count_sized runtime provider.provider_kind guarded selection size in
    let start = on_source runtime clock_max provider StorageOperation.count_lines key 0 body in
    with_ledger-then runtime clock_max provider.provider_kind StorageOperation.count_lines
      default_budget start w v count q
      λ s t _ finite k.
        on_source-then runtime completes p content serves clock_max provider
          StorageOperation.count_lines key 0 body s t count k reads finite
          (λ selection keyed nothing e.
            (selection, keyed, sym e ∙ no_lines (content selection) nothing))
          λ selection u keyed one _ _ k. (
            selection,
            keyed,
            count_sized-length runtime completes provider.provider_kind p content serves selection _
                u t count k one (small selection) (small selection),
          )
