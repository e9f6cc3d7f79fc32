-- ===== src/Tests/World.antt =====
-- A provider of one object, whose reader delivers two bytes at a time. The world is the clock, which
-- every look moves on.
use storageprims.Prelude.{
  ℕ, zero, suc, ◌+◌, ◌-◌, ◌≡◌, refl, ap, arith, min, Option, none, some, [], ◌∷◌, ◌++◌, Bytes,
  codes, leb, length-take, take, drop, slice, if◌then◌else◌, Bool-cases, inl, inr,
}
use storageprims.Core.Error.{ProviderKind, StorageOperation, ok}
use storageprims.Core.Source.{SourceReceipt, GuardedReadSelection, validator_match}
use storageprims.Ops.Budget.{InspectionLedger, request, default_budget}
use storageprims.Ops.Receipt.{LineOptions}
use storageprims.Ops.Provider.{GuardedReadProvider, StorageProvider, Runtime, done, State}
use storageprims.Ops.Read.Serves.{CompletesCalls, Serves}
use storageprims.Ops.Operations.{default_options}
use storageprims.Ops.Operations.Tail.{StatesTotal}
use storageprims.Ops.Read.Receipts.{OfReceipts}

abbrev pub object : Bytes
object = codes "ab\ncd\r\ne"

abbrev pub etag : Bytes
etag = codes "\"v1\""

abbrev pub receipt : SourceReceipt
receipt = record {
  path = codes "logs/a";
  native_version = none;
  validator = some etag;
  total_size = some 8;
  requested_window = none;
  returned_window = none;
}

-- the last byte of a range that starts within the object
abbrev pub last_of : ℕ → ℕ → ℕ
last_of offset requested = min (offset + requested) 8 - 1

abbrev pub range_receipt : ℕ → ℕ → SourceReceipt
range_receipt offset requested = record {
  path = codes "logs/a";
  native_version = none;
  validator = some etag;
  total_size = some 8;
  requested_window = some (record { start = offset; end = offset + requested - 1 });
  returned_window = some (record { start = offset; end = last_of offset requested });
}

abbrev pub guarded : GuardedReadProvider ℕ Bytes
guarded = record {
  guarded_read_target_identity = codes "s3://bucket";
  observe_source = λ key w. (
    ok (record { receipt = receipt; content_type = none; last_modified = none; metadata = [] }),
    w,
  );
  guarded_head = λ selection w. (ok (receipt), w);
  guarded_get = λ selection w. (ok (record { receipt = range_receipt 0 8; reader = object }), w);
  guarded_get_range = λ request w. (
    ok (record {
      receipt = range_receipt request.offset request.length;
      reader = slice request.offset (last_of request.offset request.length + 1) object;
    }),
    w,
  );
  read =
      λ capacity reader w. ((done (take (min capacity 2) reader), drop (min capacity 2) reader), w);
}

abbrev pub provider : StorageProvider ℕ Bytes
provider = record { provider_kind = ProviderKind.s3; guarded_reads = some guarded }

abbrev pub before : {A : Type 0} → ℕ → A × ℕ → Option A × ℕ
before deadline (a, w) = if leb deadline w then (none, w) else (some a, w)

abbrev pub runtime : Runtime ℕ
runtime = record { now = λ w. (w, w + 1); timeout_at = λ deadline call w. before deadline (call w) }

before-some :
    {A : Type 0} (deadline : ℕ) (o : A × ℕ) (v : ℕ) (a : A)
    → before deadline o ≡ (some a, v)
    → o ≡ (a, v)
before-some deadline (b, w) v a q = elim (Bool-cases (leb deadline w)) [
  | inl m ↦ ground (arith, (rw m at q))
  | inr m ↦ ground (arith, (rw m at q))
]

pub completes : CompletesCalls runtime
completes A deadline call w v a q = before-some deadline (call w) v a q

pub take-drop : (n : ℕ) (xs : Bytes) → take n xs ++ drop n xs ≡ xs
take-drop zero xs = refl
take-drop (suc n) [] = refl
take-drop (suc n) (x ∷ xs) = ap (λ k. x ∷ k) (take-drop n xs)

pub serves : Serves guarded (λ selection. object)
serves = record {
  rest = λ reader. reader;
  head = λ selection w v r size q h. ground (arith, q, h);
  total = λ request w v response size q h. ground (arith, q, h);
  body = λ request w v response window q h. ground (arith, q, h);
  piece = λ capacity reader next w v chunk q.
      ground (arith, q, take-drop (min capacity 2) reader, length-take (min capacity 2) reader);
}

abbrev pub short_probe : LineOptions
short_probe = record default_options { probe_size = 4 }

abbrev pub selection : GuardedReadSelection
selection = record {
  target_identity = codes "s3://bucket";
  key = codes "logs/a";
  selector = validator_match etag;
}

pub states : OfReceipts guarded StatesTotal
states request w v response q = (8, ground (arith, q))

abbrev pub ledger : ℕ → ℕ → InspectionLedger
ledger requests payload = record {
  provider = ProviderKind.s3;
  operation = StorageOperation.tail_lines;
  budget = default_budget;
  deadline = 1_000_000_000;
  helper_requests = requests;
  payload_bytes = payload;
  output_bytes = 0;
}

abbrev pub state : State ℕ
state = record { ledger = ledger 0 0; world = 5 }

abbrev pub after : State ℕ
after = record { ledger = ledger 1 4; world = 9 }
