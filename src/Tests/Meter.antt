-- ===== src/Tests/Meter.antt =====
-- The limits of the operations on a provider that counts. The world is the calls made and the bytes
-- read; the clock stands still.
use storageprims.Prelude.{
  ℕ, ◌+◌, ◌*◌, refl, arith, min, some, Bytes, codes, length, length-take, take,
}
use storageprims.Core.Error.{ProviderKind}
use storageprims.Ops.Budget.{default_budget}
use storageprims.Ops.Provider.{GuardedReadProvider, StorageProvider, Runtime}
use storageprims.Ops.Entry.{
  head_lines_with_options, tail_lines_with_options, mid_lines_with_options, count_lines,
  preview_bytes, preview_bytes_selected,
}
use storageprims.Ops.Meter.{Meter, Counts, IsMeter}
use storageprims.Ops.Meter.Entry.{operations-Counts}
use storageprims.Tests.World.{guarded, selection, short_probe}

abbrev World : Type 0
World = ℕ × ℕ

abbrev called : World → World
called w = (w.0 + 1, w.1)

abbrev counted : GuardedReadProvider World Bytes
counted = record {
  guarded_read_target_identity = guarded.guarded_read_target_identity;
  observe_source = λ key w. ((guarded.observe_source key 0).0, called w);
  guarded_head = λ selection w. ((guarded.guarded_head selection 0).0, called w);
  guarded_get = λ selection w. ((guarded.guarded_get selection 0).0, called w);
  guarded_get_range = λ request w. ((guarded.guarded_get_range request 0).0, called w);
  read = λ capacity reader w.
      ((guarded.read capacity reader 0).0, (w.0, w.1 + length (take (min capacity 2) reader)));
}

abbrev served : StorageProvider World Bytes
served = record { provider_kind = ProviderKind.s3; guarded_reads = some counted }

abbrev still : Runtime World
still = record { now = λ w. (0, w); timeout_at = λ deadline call w. (some (call w).0, (call w).1) }

abbrev counter : Meter World
counter = record { calls = λ w. w.0; delivered = λ w. w.1 }

counter-IsMeter : IsMeter still counted counter
counter-IsMeter = record {
  now = λ w. omega arith;
  timeout_at = λ A deadline call w. omega arith;
  completes = λ A deadline call w v a q. ground (arith, q);
  observe_source = λ key w. omega arith;
  guarded_head = λ selection w. omega arith;
  guarded_get_range = λ request w. omega arith;
  read = λ capacity reader w. omega (arith, length-take (min capacity 2) reader);
}

abbrev key : Bytes
key = codes "logs/a"

abbrev clock_max : ℕ
clock_max = 1_000_000_000_000

abbrev start : World
start = (0, 0)

operations-Counts_example :
    Counts counter start
      (head_lines_with_options still clock_max served key 2 short_probe start).1
      16
      (8 * 1024 * 1024)
    × Counts counter start
        (tail_lines_with_options still clock_max served key 2 short_probe start).1
        16
        (8 * 1024 * 1024)
    × Counts counter start
        (mid_lines_with_options still clock_max served key 2 short_probe start).1
        16
        (8 * 1024 * 1024)
    × Counts counter start (count_lines still clock_max served key start).1 16 (8 * 1024 * 1024)
    × Counts counter start
        (preview_bytes still clock_max served key 4 default_budget start).1
        16
        (8 * 1024 * 1024)
    × Counts counter start
        (preview_bytes_selected still clock_max counted ProviderKind.s3 selection 4 default_budget
          start).1
        16
        (8 * 1024 * 1024)
operations-Counts_example =
    operations-Counts still clock_max served counted counter ProviderKind.s3 key 2 4 short_probe
      default_budget selection start counter-IsMeter refl
