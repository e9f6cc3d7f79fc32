-- ===== src/Tests/Stream.antt =====
-- The checked readers on a reader that yields its chunks one by one, cut to the capacity.
use storageprims.Prelude.{
  ℕ, ◌≤◌, ◌≡◌, refl, arith, some, List, [], ◌∷◌, Bytes, take, length-take, codes, false,
}
use storageprims.S3.Stream.{Poll, ready, DeclaredLengthRead, AsyncReadBody, new_declared, poll_read}
use storageprims.S3.Stream.Declared.{
  Fits, Reads, no_reads, read, Reads-new_declared, poll_read-new_declared,
}
use storageprims.S3.Stream.Frames.{Frames}

abbrev chunk_poll : ℕ → List Bytes → Poll Bytes × List Bytes
chunk_poll capacity [] = (ready [], [])
chunk_poll capacity (chunk ∷ chunks) = (ready (take capacity chunk), chunks)

chunk_poll-Fits : Fits chunk_poll
chunk_poll-Fits capacity [] = omega arith
chunk_poll-Fits capacity (chunk ∷ chunks) = omega (arith, length-take capacity chunk)

abbrev chunks : List Bytes
chunks = codes "ab" ∷ codes "c" ∷ []

abbrev read_all : DeclaredLengthRead (List Bytes)
read_all = record { reader = []; remaining = some 0; checked_end = false }

reads : Reads chunk_poll (new_declared chunks (some 3)) 3 read_all
unfolding new_declared poll_read
reads = read 2 8 _ (read 0 8 _ no_reads)

Reads-new_declared_example : 3 ≤ 3
Reads-new_declared_example = Reads-new_declared chunk_poll chunk_poll-Fits 3 3 chunks read_all reads

ends : (poll_read chunk_poll 8 read_all).0 ≡ ready []
unfolding poll_read
ends = refl

poll_read-new_declared_example : ◌≡◌ {A = ℕ} 3 3
poll_read-new_declared_example =
    poll_read-new_declared chunk_poll chunk_poll-Fits 3 3 8 chunks read_all reads (omega arith) ends

abbrev sent_all : AsyncReadBody (List Bytes)
sent_all = record { reader = []; finished = false; remaining = 0 }
