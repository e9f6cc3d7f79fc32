-- ===== src/Ops/Lines/Parse.antt =====
-- The parsing loops compute the reference: the lines, taken while more are wanted, checked to be
-- UTF-8 one after the other, and placed at their offsets.
use native.Mathlib.Nat.{add_assoc, add-zero}
use storageprims.Prelude.{
  ℕ, zero, suc, ◌+◌, ◌≤◌, ◌<◌, ◌≡◌, ◌≢◌, refl, sym, ap, ◌∙◌, Bool, true, false, none, some, List,
  [], ◌∷◌, Bytes, arith, length, drop, ltb, Bool-cases, Option-cases, length-drop, length-append,
  append-nil, nil_of_length, inl, inr,
}
use storageprims.Core.Error.{ProviderKind, StorageOperation, Result, ok, ◌>>=◌, Result-cases}
use storageprims.Ops.Lines.{
  ParsedLine, checked_text, Progress, last_line, wanted, complete_lines, terminal_line,
  unterminated_line, parse_with,
}
use storageprims.Ops.Lines.Reference.{
  RawLine, spelled, terminator, width, raw_lines, raw_lines-nil, trailing-ne-nil,
}
use storageprims.Ops.Lines.Reference.Next.{
  next_line, next_line_ended, next_line_onward, next_line-some, next_line_terminal,
  next_line-spelled, next_line-none, next_line-trailing,
}
use storageprims.Ops.Lines.Extract.{placed, extracted, extract-extracted}

pub checked_text-eq :
    (provider : ProviderKind) (operation : StorageOperation) (s t : Bytes)
    → checked_text provider operation s ≡ ok t
    → t ≡ s
unfolding checked_text
checked_text-eq provider operation s t h = ground arith

module _ (more : List ParsedLine → Bool) (push : List ParsedLine → ParsedLine → List ParsedLine)
    (provider : ProviderKind) (operation : StorageOperation) where
  -- the lines `ls`, which start at `base`, pushed behind `acc`
  unfoldable pub feed : ℕ → List RawLine → List ParsedLine → Result (List ParsedLine)
  feed base [] acc = ok acc
  feed base (l ∷ ls) acc = elim (more acc) [
    | false ↦ ok acc
    | true ↦ checked_text provider operation l.text >>= λ _.
        feed (base + width l) ls (push acc (placed base l))
  ]

  pub feed_full :
      (base : ℕ) (ls : List RawLine) (acc : List ParsedLine)
      → more acc ≡ false
      → feed base ls acc ≡ ok acc
  unfolding feed
  feed_full base [] acc h = refl
  feed_full base (l ∷ ls) acc h = ground arith

  pub feed_wanted :
      (base : ℕ) (l : RawLine) (ls : List RawLine) (acc : List ParsedLine)
      → more acc ≡ true
      → feed base (l ∷ ls) acc ≡ (
          checked_text provider operation l.text >>= λ _.
          feed (base + width l) ls (push acc (placed base l)))
  unfolding feed
  feed_wanted base l ls acc h = ground arith

  module _ (bytes : Bytes) (base : ℕ) (eof : Bool) where
    finish : Progress → Result (List ParsedLine)
    finish p = do
      q ← terminal_line more push provider operation bytes base eof p
      r ← unterminated_line more push provider operation bytes base eof q
      ok r.lines

    -- what is still to come
    abbrev rest : Progress → Bytes
    rest p = drop p.cursor bytes

    raw_lines_empty : (p : Progress) → length bytes ≤ p.cursor → raw_lines eof (rest p) ≡ []
    raw_lines_empty p h =
        let none_left : rest p ≡ [] =
          nil_of_length (rest p) (omega (arith, length-drop {0} p.cursor bytes)) in
        rw none_left (raw_lines-nil eof)

    abbrev is_wanted : Progress → Bool
    is_wanted p = wanted more push provider operation bytes base p

    finish_unwanted : (p : Progress) → is_wanted p ≡ false → finish p ≡ ok p.lines
    unfolding finish terminal_line unterminated_line
    finish_unwanted p h = ground arith

    wanted_parts :
        (p : Progress) → is_wanted p ≡ true → (p.cursor < length bytes) × (more p.lines ≡ true)
    unfolding wanted
    wanted_parts p h = ground arith

    unwanted_at_end : (p : Progress) → length bytes ≤ p.cursor → is_wanted p ≡ false
    unfolding wanted
    unwanted_at_end p h = ground arith

    feed_unwanted :
        (p : Progress)
        → is_wanted p ≡ false
        → feed (base + p.cursor) (raw_lines eof (rest p)) p.lines ≡ ok p.lines
    unfolding wanted
    feed_unwanted p h = elim (Bool-cases (ltb p.cursor (length bytes))) [
      | inl e ↦ feed_full (base + p.cursor) (raw_lines eof (rest p)) p.lines (rw e at h)
      | inr e ↦ rw (raw_lines_empty p (ground arith)) (unfold feed in refl)
    ]

module _ (more : List ParsedLine → Bool) (push : List ParsedLine → ParsedLine → List ParsedLine)
    (provider : ProviderKind) (operation : StorageOperation) (bytes : Bytes) (base : ℕ) where
  module _ (p : Progress)
      (wants : is_wanted more push provider operation bytes base true p ≡ true) where
    abbrev here : Bytes
    here = drop p.cursor bytes

    inside : (p.cursor < length bytes) × (more p.lines ≡ true)
    inside = wanted_parts more push provider operation bytes base true p wants

    abbrev further : RawLine → Progress
    further l = record {
      cursor = p.cursor + width l;
      lines = push p.lines (placed (base + p.cursor) l);
    }

    -- after the last line nothing more is wanted
    settled :
        (l : RawLine)
        → here ≡ spelled l
        → unterminated_line more push provider operation bytes base true (further l)
          ≡ ok (further l)
    unfolding unterminated_line
    settled l e = rw (
        unwanted_at_end more push provider operation bytes base true (further l) (
          omega (
            arith,
            ap length e,
            length-drop {0} p.cursor bytes,
            length-append {0} l.text (terminator l.ending),
            inside.0,
          )))

    finish_terminal :
        (l : RawLine) (r : Bytes)
        → next_line false here ≡ none
        → next_line true here ≡ some (l, r)
        → finish more push provider operation bytes base true p
          ≡ feed more push provider operation (base + p.cursor) (raw_lines true here) p.lines
    unfolding finish terminal_line extracted
    finish_terminal l r k e =
        let (ends, only) = next_line_terminal here l r k e in
        let spelling : here ≡ spelled l =
          next_line-spelled here l r true e ∙ rw (ends, append-nil) in
        rw
          (
            only,
            feed_wanted more push provider operation (base + p.cursor) l [] p.lines inside.1,
            finish,
            terminal_line,
            wants,
            extract-extracted provider operation (base + p.cursor) here true,
            e,
            extracted,
          )
          (elim (Result-cases (checked_text provider operation l.text)) [
            | inl (t, c) ↦ rw (c, settled l spelling) (unfold feed in refl)
            | inr (x, c) ↦ rw c
          ])

    final : RawLine
    final = record { text = here; ending = none }

    -- the loop's last line is the reference's
    last_line-placed :
        last_line more push provider operation bytes base p here ≡ placed (base + p.cursor) final
    unfolding final
    last_line-placed = ground (arith, length-drop p.cursor bytes, inside)

    finish_trailing :
        next_line false here ≡ none
        → next_line true here ≡ none
        → finish more push provider operation bytes base true p
          ≡ feed more push provider operation (base + p.cursor) (raw_lines true here) p.lines
    unfolding finish terminal_line unterminated_line extracted
    finish_trailing k e =
        let left : here ≢ [] =
          λ n. absurd (omega (arith, ap length n, length-drop {0} p.cursor bytes, inside.0)) in
        rw
          (
            next_line-trailing here e ∙ trailing-ne-nil here left,
            feed_wanted more push provider operation (base + p.cursor) _ [] p.lines inside.1,
            finish,
            terminal_line,
            wants,
            extract-extracted provider operation (base + p.cursor) here true,
            e,
            extracted,
            unterminated_line,
            wants,
          )
          (elim (Result-cases (checked_text provider operation here)) [
            | inl (t, c) ↦
                rw (c, checked_text-eq provider operation here t c, last_line-placed)
                  (unfold feed final in refl)
            | inr (x, c) ↦ rw c
          ])

  -- with no complete line left, the rest of the body reads what is left
  finish_incomplete :
      (eof : Bool) (p : Progress)
      → is_wanted more push provider operation bytes base eof p ≡ true
      → next_line false (drop p.cursor bytes) ≡ none
      → finish more push provider operation bytes base eof p
        ≡ feed more push provider operation
            (base + p.cursor)
            (raw_lines eof (drop p.cursor bytes))
            p.lines
  finish_incomplete true p wants k = elim (Option-cases (next_line true (drop p.cursor bytes))) [
    | inl e ↦ finish_trailing p wants k e
    | inr ((l, r), e) ↦ finish_terminal p wants l r k e
  ]
  finish_incomplete false p wants k =
      rw (next_line-none (drop p.cursor bytes) k)
        (unfold finish terminal_line unterminated_line feed in refl)

  module _ (eof : Bool) (p : Progress) (l : RawLine) (r : Bytes)
      (w : is_wanted more push provider operation bytes base eof p ≡ true)
      (n : next_line false (drop p.cursor bytes) ≡ some (l, r)) where
    abbrev onward : Progress
    onward = record {
      cursor = p.cursor + width l;
      lines = push p.lines (placed (base + p.cursor) l);
    }

    rest_onward : drop (p.cursor + width l) bytes ≡ r
    rest_onward = (next_line_onward bytes p.cursor l r n).0

    -- one round: the line is checked, and the rest follows
    feed_onward :
        feed more push provider operation
          (base + p.cursor)
          (raw_lines eof (drop p.cursor bytes))
          p.lines
        ≡ (checked_text provider operation l.text >>= λ _.
            feed more push provider operation
              (base + (p.cursor + width l))
              (raw_lines eof (drop (p.cursor + width l) bytes))
              onward.lines)
    feed_onward =
        let parts = wanted_parts more push provider operation bytes base eof p w in
        rw (
          next_line-some (drop p.cursor bytes) l r eof n,
          rest_onward,
          feed_wanted more push provider operation (base + p.cursor) l (raw_lines eof r) p.lines
              parts.1,
          ← add_assoc base p.cursor (width l),
        )

    shorter :
        (fuel : ℕ)
        → length (drop p.cursor bytes) ≤ suc fuel
        → length (drop (p.cursor + width l) bytes) ≤ fuel
    shorter fuel h = omega (
      arith,
      length-drop {0} p.cursor bytes,
      length-drop {0} (p.cursor + width l) bytes,
      next_line_ended (drop p.cursor bytes) l r false n,
      h,
    )

  complete_lines-feed :
      (eof : Bool) (fuel : ℕ) (p : Progress)
      → length (drop p.cursor bytes) ≤ fuel
      → (complete_lines more push provider operation bytes base fuel p
          >>= finish more push provider operation bytes base eof)
        ≡ feed more push provider operation
            (base + p.cursor)
            (raw_lines eof (drop p.cursor bytes))
            p.lines
  unfolding complete_lines extracted
  complete_lines-feed eof zero p h =
      let none_left =
        unwanted_at_end more push provider operation bytes base eof p
          (omega (arith, length-drop {0} p.cursor bytes)) in
      finish_unwanted more push provider operation bytes base eof p none_left
      ∙ sym (feed_unwanted more push provider operation bytes base eof p none_left)
  complete_lines-feed eof (suc fuel) p h =
      elim (Bool-cases (is_wanted more push provider operation bytes base eof p)) [
        | inr w ↦
            rw (complete_lines, w)
              (finish_unwanted more push provider operation bytes base eof p w
                ∙ sym (feed_unwanted more push provider operation bytes base eof p w))
        | inl w ↦
            rw
              (
                complete_lines,
                w,
                extract-extracted provider operation (base + p.cursor) (drop p.cursor bytes) false,
              )
              (elim (Option-cases (next_line false (drop p.cursor bytes))) [
                | inl n ↦ rw n (unfold extracted in finish_incomplete eof p w n)
                | inr ((l, r), n) ↦
                    rw (n, feed_onward eof p l r w n)
                      (elim (Result-cases (checked_text provider operation l.text)) [
                        | inl (t, c) ↦
                            rw (extracted, c)
                              (complete_lines-feed eof fuel (onward eof p l r w n)
                                (shorter eof p l r w n fuel h))
                        | inr (x, c) ↦ rw (extracted, c)
                      ])
              ])
      ]

  -- The whole body is the reference's lines, fed one after the other.
  pub parse_with-feed :
      (eof : Bool)
      → parse_with more push provider operation bytes base eof
        ≡ feed more push provider operation base (raw_lines eof bytes) []
  unfolding parse_with finish
  parse_with-feed eof =
      complete_lines-feed eof (length bytes) (record { cursor = 0; lines = [] }) (omega arith)
      ∙ ap (λ (b : ℕ). feed more push provider operation b (raw_lines eof bytes) []) (add-zero base)
