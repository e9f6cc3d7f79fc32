-- ===== src/Ops/Entry/Tail.antt =====
-- `tail_lines_with_options` against the lines of the object.
use storageprims.Prelude.{
  ℕ, drop, ◌-◌, ◌<◌, ◌^◌, ◌≡◌, refl, arith, true, Bool-cases, inl, inr, not, ◌&&◌, some, [], Bytes,
  length, ap, ◌∙◌,
}
use storageprims.Core.Error.{StorageOperation, ok}
use storageprims.Core.Source.{GuardedReadSelection}
use storageprims.Ops.Lines.Reference.{raw_lines, raw_lines-nil}
use storageprims.Ops.Lines.Select.{take_last}
use storageprims.Ops.Receipt.{LineOptions}
use storageprims.Ops.Align.{LineResult, range_backward, is_compressed_key}
use storageprims.Ops.Provider.{GuardedReadProvider, StorageProvider, Runtime}
use storageprims.Ops.Read.Serves.{CompletesCalls, Serves}
use storageprims.Ops.Read.Receipts.{OfReceipts}
use storageprims.Ops.Read.Range.{raw_texts}
use storageprims.Ops.Operations.{tail_sized}
use storageprims.Ops.Operations.Tail.{StatesTotal, tail_sized-Answers}
use storageprims.Ops.Entry.{tail_lines_with_options}
use storageprims.Ops.Entry.About.{IsAbout, line_operation-IsAbout}

take_last_nil : (n : ℕ) → take_last n (raw_texts (raw_lines true [])) ≡ []
take_last_nil n =
    let none_before : 0 - n ≡ 0 = omega arith in
    ap (λ x. take_last n (raw_texts x)) (raw_lines-nil true) ∙ ap (λ k. drop k []) none_before

-- Where calls that end in time are the provider's, and it serves contents of fewer than 2^64
-- bytes, and where the receipts of its ranges state the total size, a tail that succeeds returns
-- the last `n` lines of the content of one selection of the key, all of them if there are fewer, and
-- the size of the content: whether the end is read alone or, with `force_stream`, the whole source.
pub tail_lines_with_options-IsAbout :
    {W R : Type 0} (runtime : Runtime W) (clock_max : ℕ) (provider : StorageProvider W R)
    (p : GuardedReadProvider W R) (content : GuardedReadSelection → Bytes) (key : Bytes) (n : ℕ)
    (options : LineOptions) (w v : W) (r : LineResult)
    → CompletesCalls runtime
    → Serves p content
    → OfReceipts p StatesTotal
    → provider.guarded_reads ≡ some p
    → ((selection : GuardedReadSelection) → length (content selection) < 2 ^ 64)
    → tail_lines_with_options runtime clock_max provider key n options w ≡ (ok r, v)
    → IsAbout content key (λ doc. take_last n (raw_texts (raw_lines true doc))) r
unfolding tail_lines_with_options
tail_lines_with_options-IsAbout runtime clock_max provider p content key n options w v r completes
      serves states reads small q =
    elim (Bool-cases (is_compressed_key key && not options.force_stream)) [
      | inl m ↦ ground (arith, (rw m at q))
      | inr m ↦
          line_operation-IsAbout runtime completes p content serves clock_max provider
            StorageOperation.tail_lines key n options range_backward
            (λ guarded selection size.
              tail_sized runtime provider.provider_kind guarded n selection options.force_stream
                size)
            (λ doc. take_last n (raw_texts (raw_lines true doc))) w v r reads (take_last_nil n)
            (λ selection s t k finite wanted one.
              tail_sized-Answers runtime completes provider.provider_kind p content serves n
                selection options.force_stream _ s t r states k finite wanted one refl
                (small selection))
            (rw m at q)
    ]
