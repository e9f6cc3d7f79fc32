-- ===== src/S3/Stream/Frames.antt =====
-- What the request body hands over, against the declared content length.
use storageprims.Prelude.{
  ℕ, ◌+◌, ◌≡◌, ◌↔◌, ◌⊎◌, ◌<◌, Option, none, some, [], ◌∷◌, Bytes, length, true, false, Bool,
}
use storageprims.S3.Stream.{Poll, ready, failed, AsyncReadBody, poll_frame}

-- the bytes of a frame, and whether a result is no error
abbrev pub frame_size : Poll (Option Bytes) → ℕ
frame_size (ready (some bytes)) = length bytes
frame_size _ = 0

abbrev pub IsFine : Poll (Option Bytes) → Type 0
IsFine (failed e) = ⊥
IsFine _ = Unit

abbrev pub IsFailed : Poll (Option Bytes) → Type 0
IsFailed (failed e) = Unit
IsFailed _ = ⊥

-- a read behind the declared length that finds a byte, and one before it that finds the end
abbrev pub Exceeds : Poll Bytes → Type 0
Exceeds (ready (c ∷ bytes)) = Unit
Exceeds (failed e) = Unit
Exceeds _ = ⊥

abbrev pub EndsShort : Poll Bytes → Type 0
EndsShort (ready []) = Unit
EndsShort (failed e) = Unit
EndsShort _ = ⊥

-- the body of that length: what is handed over and what remains make it, and it is finished only
-- when nothing remains
abbrev IsOpen : ℕ → ℕ → Bool → ℕ → Type 0
IsOpen total n finished remaining = (n + remaining ≡ total) × (finished ≡ true → remaining ≡ 0)

module _ {ℓ} {R : Type ℓ} (poll : ℕ → R → Poll Bytes × R) where
  -- a sequence of polls without an error, and the bytes that they handed over
  pub data Frames (start : AsyncReadBody R) : ℕ → AsyncReadBody R → Type ℓ where
    no_frames : Frames start 0 start
    polled :
        (n : ℕ) (s : AsyncReadBody R)
        → Frames start n s
        → IsFine (poll_frame poll s).0
        → Frames start (n + frame_size (poll_frame poll s).0) (poll_frame poll s).1

  -- the conclusion about one poll, of its result and its new state
  abbrev Advances : ℕ → ℕ → Poll (Option Bytes) × AsyncReadBody R → Type 0
  Advances total n o = IsFine o.0 → IsOpen total (n + frame_size o.0) o.1.finished o.1.remaining

  -- what the answers of the source make of a poll that passed `n` of `total` bytes on before it
  abbrev pub Replies : ℕ → ℕ → Bool → Poll Bytes → Poll Bytes → Poll (Option Bytes) → Type 0
  Replies total n finished probe chunk result =
      ((result ≡ ready none) ↔ ((n ≡ total) × ((finished ≡ true) ⊎ (probe ≡ ready []))))
      × (IsFailed result ↔ (
          (finished ≡ false) × (((n ≡ total) × Exceeds probe) ⊎ ((n < total) × EndsShort chunk))))
