-- ===== src/Ops/Lines/Reference/Step.antt =====
-- The recursion of the reference, by what the next byte is.
use storageprims.Prelude.{
  ◌≡◌, ℕ, Bool, true, false, [], ◌∷◌, ◌++◌, Bytes, arith, ◌==◌, if◌then◌else◌,
}
use storageprims.Ops.Lines.{lf, cr, cr_lf}
use storageprims.Ops.Lines.Reference.{line, raw_from}

module _ (eof : Bool) (cur : Bytes) (c : ℕ) where
  pub raw_from-lf :
      (s : Bytes) → (c == b'\n') ≡ true → raw_from eof cur (c ∷ s) ≡ line cur lf ∷ raw_from eof [] s
  unfolding raw_from
  raw_from-lf [] e =
      elim eof as (λ eof. raw_from eof cur (c ∷ []) ≡ line cur lf ∷ raw_from eof [] []) [
        | true ↦ ground (arith, e)
        | false ↦ ground (arith, e)
      ]
  raw_from-lf (d ∷ s) e = ground (arith, e)

  pub raw_from-cr_lf :
      (d : ℕ) (s : Bytes)
      → (c == b'\n') ≡ false
      → (c == b'\r') ≡ true
      → (d == b'\n') ≡ true
      → raw_from eof cur (c ∷ d ∷ s) ≡ line cur cr_lf ∷ raw_from eof [] s
  unfolding raw_from
  raw_from-cr_lf d s e r n = ground (arith, e, r, n)

  pub raw_from-cr :
      (d : ℕ) (s : Bytes)
      → (c == b'\n') ≡ false
      → (c == b'\r') ≡ true
      → (d == b'\n') ≡ false
      → raw_from eof cur (c ∷ d ∷ s) ≡ line cur cr ∷ raw_from eof [] (d ∷ s)
  unfolding raw_from
  raw_from-cr d s e r n = ground (arith, e, r, n)

  -- a carriage return in the last place
  pub raw_from-last_cr :
      (c == b'\n') ≡ false
      → (c == b'\r') ≡ true
      → raw_from eof cur (c ∷ []) ≡ (if eof then line cur cr ∷ [] else [])
  unfolding raw_from
  raw_from-last_cr e r = ground (arith, e, r)

  pub raw_from-other :
      (s : Bytes)
      → (c == b'\n') ≡ false
      → (c == b'\r') ≡ false
      → raw_from eof cur (c ∷ s) ≡ raw_from eof (cur ++ c ∷ []) s
  unfolding raw_from
  raw_from-other [] e r = ground (arith, e, r)
  raw_from-other (d ∷ s) e r = ground (arith, e, r)
