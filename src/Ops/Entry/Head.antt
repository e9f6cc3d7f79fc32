-- ===== src/Ops/Entry/Head.antt =====
-- `head_lines_with_options` against the lines of the object.
use storageprims.Prelude.{
  ℕ, zero, suc, ◌<◌, ◌^◌, ◌≡◌, refl, ap, ◌∙◌, true, some, [], Bytes, length, take,
}
use storageprims.Core.Error.{StorageOperation, ok}
use storageprims.Core.Source.{GuardedReadSelection}
use storageprims.Ops.Lines.Reference.{raw_lines, raw_lines-nil}
use storageprims.Ops.Receipt.{LineOptions}
use storageprims.Ops.Align.{LineResult, forward_stream}
use storageprims.Ops.Provider.{GuardedReadProvider, StorageProvider, Runtime}
use storageprims.Ops.Read.Serves.{CompletesCalls, Serves}
use storageprims.Ops.Read.Range.{raw_texts}
use storageprims.Ops.Operations.Head.{head_sized-Answers}
use storageprims.Ops.Entry.{head_lines_with_options}
use storageprims.Ops.Entry.About.{IsAbout, line_operation-IsAbout}
use storageprims.Ops.Operations.{head_sized}

take_nil : (n : ℕ) → raw_texts (take n (raw_lines true [])) ≡ []
take_nil n = ap (λ x. raw_texts (take n x)) (raw_lines-nil true) ∙ none_taken n
  where
    none_taken : (n : ℕ) → raw_texts (take n []) ≡ []
    none_taken zero = refl
    none_taken (suc n) = refl

-- Where calls that end in time are the provider's, and it serves contents of fewer than 2^64
-- bytes, a head that succeeds returns the first `n` lines of the content of one selection of the
-- key, all of them if there are fewer, and the size of the content: whatever the provider's pieces,
-- windows and errors, the clock, and the options.
pub head_lines_with_options-IsAbout :
    {W R : Type 0} (runtime : Runtime W) (clock_max : ℕ) (provider : StorageProvider W R)
    (p : GuardedReadProvider W R) (content : GuardedReadSelection → Bytes) (key : Bytes) (n : ℕ)
    (options : LineOptions) (w v : W) (r : LineResult)
    → CompletesCalls runtime
    → Serves p content
    → provider.guarded_reads ≡ some p
    → ((selection : GuardedReadSelection) → length (content selection) < 2 ^ 64)
    → head_lines_with_options runtime clock_max provider key n options w ≡ (ok r, v)
    → IsAbout content key (λ doc. raw_texts (take n (raw_lines true doc))) r
unfolding head_lines_with_options
head_lines_with_options-IsAbout runtime clock_max provider p content key n options w v r completes
      serves reads small q =
    line_operation-IsAbout runtime completes p content serves clock_max provider
      StorageOperation.head_lines key n options forward_stream
      (λ guarded selection size. head_sized runtime provider.provider_kind guarded n selection size)
      (λ doc. raw_texts (take n (raw_lines true doc))) w v r reads (take_nil n)
      (λ selection s t k finite _ one.
        head_sized-Answers runtime completes provider.provider_kind p content serves n selection _ s
          t r k finite one (small selection))
      q
