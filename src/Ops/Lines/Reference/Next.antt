-- ===== src/Ops/Lines/Reference/Next.antt =====
-- The first line of a byte string and what follows it: the step between the loops and the
-- reference.
use storageprims.Prelude.{
  ◌≡◌, refl, sym, ap, ◌∙◌, ◌+◌, ◌≤◌, ℕ, length, drop, drop-drop, drop-append, length-append, Bool,
  true, false, Option, none, some, [], ◌∷◌, ◌++◌, Bytes, arith, ◌==◌, if◌then◌else◌, append_assoc,
  append-nil,
}
use storageprims.Ops.Lines.{lf, cr_lf, cr}
use storageprims.Ops.Lines.Reference.{
  RawLine, line, spelled, width, terminator, trailing, raw_from, raw_lines,
}

-- behind a carriage return
unfoldable pub cr_line : Bool → Bytes → Bytes → Option (RawLine × Bytes)
cr_line eof cur [] = if eof then some (line cur cr, []) else none
cr_line eof cur (d ∷ s) = if d == b'\n' then some (line cur cr_lf, s) else some (line cur cr, d ∷ s)

unfoldable pub next_from : Bool → Bytes → Bytes → Option (RawLine × Bytes)
next_from eof cur [] = none
next_from eof cur (c ∷ s) = elim (c == b'\n') [
  | true ↦ some (line cur lf, s)
  | false ↦ elim (c == b'\r') [ true ↦ cr_line eof cur s | false ↦ next_from eof (cur ++ c ∷ []) s ]
]

unfoldable pub next_line : Bool → Bytes → Option (RawLine × Bytes)
unfolding next_from cr_line
next_line eof = next_from eof []

next_from-some :
    (eof : Bool) (cur s : Bytes) (l : RawLine) (r : Bytes)
    → next_from false cur s ≡ some (l, r)
    → raw_from eof cur s ≡ l ∷ raw_from eof [] r
unfolding raw_from next_from cr_line
next_from-some eof cur [] l r h = cc
next_from-some eof cur (c ∷ []) l r h = ground arith
next_from-some eof cur (c ∷ d ∷ s) l r h =
    ground (arith, next_from-some eof (cur ++ c ∷ []) (d ∷ s) l r)

next_from-none : (cur s : Bytes) → next_from false cur s ≡ none → raw_from false cur s ≡ []
unfolding raw_from next_from cr_line
next_from-none [] [] h = refl
next_from-none (x ∷ cur) [] h = refl
next_from-none cur (c ∷ []) h = ground arith
next_from-none cur (c ∷ d ∷ s) h = ground (arith, next_from-none (cur ++ c ∷ []) (d ∷ s))

next_from_terminal :
    (cur s : Bytes) (l : RawLine) (r : Bytes)
    → next_from false cur s ≡ none
    → next_from true cur s ≡ some (l, r)
    → (r ≡ []) × (raw_from true cur s ≡ l ∷ [])
unfolding raw_from next_from cr_line
next_from_terminal cur [] l r h k = cc
next_from_terminal cur (c ∷ []) l r h k = ground arith
next_from_terminal cur (c ∷ d ∷ s) l r h k =
    ground (arith, next_from_terminal (cur ++ c ∷ []) (d ∷ s) l r)

next_from_terminal-cr :
    (cur s : Bytes) (l : RawLine) (r : Bytes)
    → next_from false cur s ≡ none
    → next_from true cur s ≡ some (l, r)
    → l.ending ≡ some cr
unfolding next_from cr_line
next_from_terminal-cr cur [] l r h k = cc
next_from_terminal-cr cur (c ∷ []) l r h k = ground arith
next_from_terminal-cr cur (c ∷ d ∷ s) l r h k =
    ground (arith, next_from_terminal-cr (cur ++ c ∷ []) (d ∷ s) l r)

next_from-trailing :
    (cur s : Bytes) → next_from true cur s ≡ none → raw_from true cur s ≡ trailing true (cur ++ s)
unfolding raw_from next_from cr_line
next_from-trailing cur [] h = rw append-nil
next_from-trailing cur (c ∷ []) h = ground arith
next_from-trailing cur (c ∷ d ∷ s) h =
    ground (arith, next_from-trailing (cur ++ c ∷ []) (d ∷ s), append_assoc cur (c ∷ []) (d ∷ s))

next_from-spelled :
    (eof : Bool) (cur s : Bytes) (l : RawLine) (r : Bytes)
    → next_from eof cur s ≡ some (l, r)
    → cur ++ s ≡ spelled l ++ r
unfolding next_from cr_line
next_from-spelled eof cur [] l r h = cc
next_from-spelled eof cur (c ∷ []) l r h =
    ground (arith, append_assoc cur (c ∷ []) [], append-nil (cur ++ c ∷ []))
next_from-spelled eof cur (c ∷ d ∷ s) l r h = ground (
  arith,
  next_from-spelled eof (cur ++ c ∷ []) (d ∷ s) l r,
  append_assoc cur (c ∷ []) (d ∷ s),
  append_assoc cur (c ∷ d ∷ []) s,
)

next_from_ended :
    (eof : Bool) (cur s : Bytes) (l : RawLine) (r : Bytes)
    → next_from eof cur s ≡ some (l, r)
    → 1 ≤ length (terminator l.ending)
unfolding next_from cr_line
next_from_ended eof cur [] l r h = cc
next_from_ended eof cur (c ∷ []) l r h = ground arith
next_from_ended eof cur (c ∷ d ∷ s) l r h =
    ground (arith, next_from_ended eof (cur ++ c ∷ []) (d ∷ s) l r)

module _ (s : Bytes) (l : RawLine) (r : Bytes) where
  -- A line that is found has an ending, so that the cursor moves.
  pub next_line_ended :
      (eof : Bool) → next_line eof s ≡ some (l, r) → 1 ≤ length (terminator l.ending)
  unfolding next_line
  next_line_ended eof h = next_from_ended eof [] s l r h

  -- A complete first line is the first of the reference, at the end of the object or short of it.
  pub next_line-some :
      (eof : Bool) → next_line false s ≡ some (l, r) → raw_lines eof s ≡ l ∷ raw_lines eof r
  unfolding next_line raw_lines
  next_line-some eof h = next_from-some eof [] s l r h

  -- A line found only at the end of the object is the last.
  pub next_line_terminal :
      next_line false s ≡ none
      → next_line true s ≡ some (l, r)
      → (r ≡ []) × (raw_lines true s ≡ l ∷ [])
  unfolding next_line raw_lines
  next_line_terminal h k = next_from_terminal [] s l r h k

  pub next_line_terminal-cr :
      next_line false s ≡ none → next_line true s ≡ some (l, r) → l.ending ≡ some cr
  unfolding next_line
  next_line_terminal-cr h k = next_from_terminal-cr [] s l r h k

  pub next_line-spelled : (eof : Bool) → next_line eof s ≡ some (l, r) → s ≡ spelled l ++ r
  unfolding next_line
  next_line-spelled eof h = next_from-spelled eof [] s l r h

pub next_line-none : (s : Bytes) → next_line false s ≡ none → raw_lines false s ≡ []
unfolding next_line raw_lines
next_line-none s h = next_from-none [] s h

pub next_line-trailing : (s : Bytes) → next_line true s ≡ none → raw_lines true s ≡ trailing true s
unfolding next_line raw_lines
next_line-trailing s h = next_from-trailing [] s h

-- Behind a line the cursor stands at what follows it, and has moved.
pub next_line_onward :
    (bytes : Bytes) (cursor : ℕ) (l : RawLine) (r : Bytes)
    → next_line false (drop cursor bytes) ≡ some (l, r)
    → (drop (cursor + width l) bytes ≡ r)
      × (length (drop cursor bytes) ≡ width l + length r)
      × (1 ≤ width l)
next_line_onward bytes cursor l r n =
    let e : drop cursor bytes ≡ spelled l ++ r =
      next_line-spelled (drop cursor bytes) l r false n in
    let len : length (spelled l) ≡ width l = length-append l.text (terminator l.ending) in
    (
      sym (drop-drop (width l) cursor bytes) ∙ rw (e, ← len) (drop-append (spelled l) r),
      omega (arith, ap length e, length-append {0} (spelled l) r, len),
      omega (arith, next_line_ended (drop cursor bytes) l r false n),
    )
