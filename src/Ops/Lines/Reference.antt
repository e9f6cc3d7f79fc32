-- ===== src/Ops/Lines/Reference.antt =====
-- The lines of a byte string, by recursion on its bytes: each text with its ending. A line feed, a
-- carriage return with a line feed, and a carriage return alone end a line. At the end of the
-- object a last text with no ending is a line too; short of it, neither that text nor one that
-- a carriage return in the last place ends, since a line feed may follow.
pub mod Next
pub mod Step
pub mod Prefix
pub mod Suffix
use storageprims.Prelude.{
  ℕ, ◌+◌, ◌≡◌, ◌≢◌, refl, Bool, true, false, Option, none, some, List, [], ◌∷◌, ◌++◌, Bytes, arith,
  length, is_empty, ◌==◌, ◌&&◌, not, if◌then◌else◌, append_assoc, append-nil,
}
use storageprims.Ops.Lines.{LineEnding, lf, cr_lf, cr}

pub record RawLine : Type 0 where
  pub text : Bytes
  pub ending : Option LineEnding

abbrev pub terminator : Option LineEnding → Bytes
terminator (some LineEnding.lf) = b'\n' ∷ []
terminator (some LineEnding.cr_lf) = b'\r' ∷ b'\n' ∷ []
terminator (some LineEnding.cr) = b'\r' ∷ []
terminator _ = []

abbrev pub spelled : RawLine → Bytes
spelled l = l.text ++ terminator l.ending

abbrev pub width : RawLine → ℕ
width l = length l.text + length (terminator l.ending)

abbrev pub line : Bytes → LineEnding → RawLine
line text ending = record { text = text; ending = some ending }

-- the text behind the last ending
abbrev pub trailing : Bool → Bytes → List RawLine
trailing true (c ∷ cs) = record { text = c ∷ cs; ending = none } ∷ []
trailing _ _ = []

-- `cur` is the part of the current line that is read
pub raw_from : Bool → Bytes → Bytes → List RawLine
raw_from eof cur [] = trailing eof cur
raw_from eof cur (c ∷ []) = elim (c == b'\n') [
  | true ↦ line cur lf ∷ []
  | false ↦ elim (c == b'\r') [
    | true ↦ if eof then line cur cr ∷ [] else []
    | false ↦ trailing eof (cur ++ c ∷ [])
  ]
]
raw_from eof cur (c ∷ d ∷ s) = elim (c == b'\n') [
  | true ↦ line cur lf ∷ raw_from eof [] (d ∷ s)
  | false ↦ elim (c == b'\r') [
    | true ↦ elim (d == b'\n') [
      | true ↦ line cur cr_lf ∷ raw_from eof [] s
      | false ↦ line cur cr ∷ raw_from eof [] (d ∷ s)
    ]
    | false ↦ raw_from eof (cur ++ c ∷ []) (d ∷ s)
  ]
]

unfoldable pub raw_lines : Bool → Bytes → List RawLine
unfolding raw_from
raw_lines eof = raw_from eof []

abbrev pub unlines : List RawLine → Bytes
unlines [] = []
unlines (l ∷ ls) = spelled l ++ unlines ls

trailing_lossless : (cur : Bytes) → unlines (trailing true cur) ≡ cur
trailing_lossless [] = refl
trailing_lossless (c ∷ cur) = simp append-nil

unlines-raw_from : (cur s : Bytes) → unlines (raw_from true cur s) ≡ cur ++ s
unfolding raw_from
unlines-raw_from [] [] = refl
unlines-raw_from (c ∷ cur) [] = simp append-nil
unlines-raw_from cur (c ∷ []) =
    ground (arith, trailing_lossless (cur ++ c ∷ []), append-nil (cur ++ c ∷ []))
unlines-raw_from cur (c ∷ d ∷ s) = ground (
  arith,
  unlines-raw_from [] (d ∷ s),
  unlines-raw_from [] s,
  unlines-raw_from (cur ++ c ∷ []) (d ∷ s),
  append_assoc cur (c ∷ []) (d ∷ s),
  append_assoc cur (c ∷ d ∷ []) s,
)

-- The lines of a whole object spell its bytes: nothing is lost, added or reordered.
pub unlines-raw_lines : (s : Bytes) → unlines (raw_lines true s) ≡ s
unfolding raw_lines
unlines-raw_lines s = unlines-raw_from [] s

pub raw_lines-nil : (eof : Bool) → raw_lines eof [] ≡ []
unfolding raw_lines
raw_lines-nil true = refl
raw_lines-nil false = refl

pub trailing-ne-nil :
    (s : Bytes) → s ≢ [] → trailing true s ≡ record { text = s; ending = none } ∷ []
trailing-ne-nil [] h = absurd (h refl)
trailing-ne-nil (c ∷ s) h = refl
