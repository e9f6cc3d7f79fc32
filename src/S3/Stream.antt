-- ===== src/S3/Stream.antt =====
-- crates/storageprims-s3/src/lib.rs: the readers that check a declared length. The reader below is
-- a parameter: its state, and its poll with the capacity of the buffer, which returns the bytes that
-- it puts there.
pub mod Declared
pub mod Frames
use storageprims.Prelude.{
  ℕ, ◌-◌, ◌*◌, ◌==◌, min, Bool, true, false, Option, none, some, [], ◌∷◌, ◌++◌, Bytes, length, text,
  if◌then◌else◌,
}
use storageprims.Prelude.Decimal.{display}
use storageprims.Core.Error.{IoError, IoErrorKind}

-- `Poll<std::io::Result<A>>`
pub data Poll {ℓ} (A : Type ℓ) : Type ℓ where
  pending : Poll A
  ready : A → Poll A
  failed : IoError → Poll A

pub record DeclaredLengthRead {ℓ} (R : Type ℓ) : Type ℓ where
  pub reader : R
  pub remaining : Option ℕ
  pub checked_end : Bool

pub record AsyncReadBody {ℓ} (R : Type ℓ) : Type ℓ where
  pub reader : R
  pub finished : Bool
  pub remaining : ℕ

module _ {ℓ} {R : Type ℓ} where
  unfoldable pub new_declared : R → Option ℕ → DeclaredLengthRead R
  new_declared reader remaining = record {
    reader = reader;
    remaining = remaining;
    checked_end = false;
  }

  unfoldable pub new_body : R → ℕ → AsyncReadBody R
  new_body reader content_length = record {
    reader = reader;
    finished = false;
    remaining = content_length;
  }

  -- the match on the probe for the end
  abbrev pub end_checked : DeclaredLengthRead R → Poll Bytes × R → Poll Bytes × DeclaredLengthRead R
  end_checked s (pending, r) = (pending, record s { reader = r })
  end_checked s (ready [], r) = (ready [], record s { reader = r; checked_end = true })
  end_checked s (ready (c ∷ bytes), r) = (
    failed (record {
      kind = IoErrorKind.invalid_data;
      detail = text "stream exceeded declared response length";
    }),
    record s { reader = r },
  )
  end_checked s (failed e, r) = (failed e, record s { reader = r })

  -- the match on a read of the body
  abbrev pub body_read :
      ℕ → DeclaredLengthRead R → Poll Bytes × R → Poll Bytes × DeclaredLengthRead R
  body_read remaining s (pending, r) = (pending, record s { reader = r })
  body_read remaining s (ready [], r) = (
    failed (record {
      kind = IoErrorKind.unexpected_eof;
      detail = text "stream ended before declared response length";
    }),
    record s { reader = r },
  )
  body_read remaining s (ready (c ∷ bytes), r) = (
    ready (c ∷ bytes),
    record s { reader = r; remaining = some (remaining - length (c ∷ bytes)) },
  )
  body_read remaining s (failed e, r) = (failed e, record s { reader = r })

  -- a finished body's results: the end, a frame, or an error
  abbrev pub probed : AsyncReadBody R → Poll Bytes × R → Poll (Option Bytes) × AsyncReadBody R
  probed s (pending, r) = (pending, record s { reader = r })
  probed s (ready [], r) = (ready none, record s { reader = r; finished = true })
  probed s (ready (c ∷ bytes), r) = (
    failed (record {
      kind = IoErrorKind.invalid_data;
      detail = text "stream exceeded declared content length";
    }),
    record s { reader = r; finished = true },
  )
  probed s (failed e, r) = (failed e, record s { reader = r; finished = true })

  abbrev pub framed : AsyncReadBody R → Poll Bytes × R → Poll (Option Bytes) × AsyncReadBody R
  framed s (pending, r) = (pending, record s { reader = r })
  framed s (ready [], r) = (
    failed (record {
      kind = IoErrorKind.unexpected_eof;
      detail =
          text "stream ended before declared content length; "
          ++ display s.remaining
          ++ text " bytes remaining";
    }),
    record s { reader = r; finished = true },
  )
  framed s (ready (c ∷ bytes), r) = (
    ready (some (c ∷ bytes)),
    record s { reader = r; remaining = s.remaining - length (c ∷ bytes) },
  )
  framed s (failed e, r) = (failed e, record s { reader = r; finished = true })

module _ {ℓ} {R : Type ℓ} (poll : ℕ → R → Poll Bytes × R) where
  -- the reader without a declared length
  abbrev passed : DeclaredLengthRead R → Poll Bytes × R → Poll Bytes × DeclaredLengthRead R
  passed s (result, r) = (result, record s { reader = r })

  abbrev limited : ℕ → ℕ → DeclaredLengthRead R → Poll Bytes × DeclaredLengthRead R
  limited capacity n s =
      if n == 0
      then (if s.checked_end then (ready [], s) else end_checked s (poll 1 s.reader))
      else if min capacity n == 0
      then (ready [], s)
      else body_read n s (poll (min capacity n) s.reader)

  -- `DeclaredLengthRead::poll_read` into a buffer with that capacity left
  unfoldable pub poll_read : ℕ → DeclaredLengthRead R → Poll Bytes × DeclaredLengthRead R
  poll_read capacity s = elim s.remaining [
    | none ↦ passed s (poll capacity s.reader)
    | some n ↦ limited capacity n s
  ]

  -- `AsyncReadBody::poll_frame`
  unfoldable pub poll_frame : AsyncReadBody R → Poll (Option Bytes) × AsyncReadBody R
  poll_frame s =
      if s.finished
      then (ready none, s)
      else if s.remaining == 0
      then probed s (poll 1 s.reader)
      else framed s (poll (min s.remaining (8 * 1024)) s.reader)
