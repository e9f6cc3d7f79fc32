-- ===== src/Ops/Lines/Extract.antt =====
-- `extract_first_complete_line` finds the first line of the reference.
use storageprims.Prelude.{
  ℕ, ◌+◌, ◌≡◌, refl, Bool, Option, none, some, [], ◌∷◌, ◌++◌, Bytes, arith, length, append_assoc,
  length-append, take-append,
}
use storageprims.Core.Error.{ProviderKind, StorageOperation, Result, ok, ◌>>=◌}
use storageprims.Ops.Lines.{ParsedLine, checked_text, extract_from, extract_first_complete_line}
use storageprims.Ops.Lines.Reference.{RawLine, width}
use storageprims.Ops.Lines.Reference.Next.{next_line, next_from, cr_line}

-- a line of the reference, at its offset in the object
abbrev pub placed : ℕ → RawLine → ParsedLine
placed base l = record { text = l.text; start = base; end = base + width l; ending = l.ending }

module _ (provider : ProviderKind) (operation : StorageOperation) (base : ℕ) where
  unfoldable pub extracted : Option (RawLine × Bytes) → Result (Option (ParsedLine × ℕ))
  extracted none = ok none
  extracted (some (l, r)) = do
    text ← checked_text provider operation l.text
    ok (some (placed base l, width l))

  module _ (bytes : Bytes) (eof : Bool) where
    extract_from-extracted :
        (cur rest : Bytes) (index : ℕ)
        → bytes ≡ cur ++ rest
        → index ≡ length cur
        → extract_from provider operation bytes base eof index rest
          ≡ extracted (next_from eof cur rest)
    unfolding extract_from next_from extracted cr_line checked_text
    extract_from-extracted cur [] index e n = refl
    extract_from-extracted cur (c ∷ rest) index e n = ground (
      arith,
      extract_from-extracted (cur ++ c ∷ []) rest (index + 1),
      append_assoc cur (c ∷ []) rest,
      length-append cur (c ∷ []),
      take-append cur (c ∷ rest),
    )

    pub extract-extracted :
        extract_first_complete_line provider operation bytes base eof
        ≡ extracted (next_line eof bytes)
    unfolding extract_first_complete_line next_line
    extract-extracted = extract_from-extracted [] bytes 0 refl refl
