-- ===== src/Ops/Entry/Mid.antt =====
-- `mid_lines_with_options` against the lines of the object.
use storageprims.Prelude.{ℕ, ◌/◌, ◌≡◌, Bytes, length, ◌*◌}
use storageprims.Core.Source.{GuardedReadSelection}
use storageprims.Ops.Align.{LineResult}
use storageprims.Ops.Read.Serves.{Serves}
use storageprims.Ops.Operations.Middle.{IsMiddle}

-- the middle of one selection of the key
pub record IsMiddleOf (content : GuardedReadSelection → Bytes) (path : Bytes) (n : ℕ)
    (r : LineResult) : Type 0 where
  pub selection : GuardedReadSelection
  pub key : selection.key ≡ path
  pub total_size : r.total_size ≡ length (content selection)
  pub middle : IsMiddle (content selection) (length (content selection) / 2) (1024 * 1024) n r.lines
