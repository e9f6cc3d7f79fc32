-- ===== src/Ops/Lines/Reference/Prefix.antt =====
-- The lines of a part of an object that is not its end are the first lines of the object.
use storageprims.Prelude.{
  ℕ, ◌≤◌, ◌≡◌, refl, ap, sym, ◌∙◌, Bool, false, List, [], ◌∷◌, ◌++◌, Bytes, arith, ◌==◌, Bool-cases,
  inl, inr, length, take, suc, zero,
}
use storageprims.Ops.Lines.{lf, cr, cr_lf}
use storageprims.Ops.Lines.Reference.Step.{
  raw_from-lf, raw_from-cr, raw_from-cr_lf, raw_from-last_cr, raw_from-other,
}
use storageprims.Ops.Lines.Reference.{RawLine, line, raw_from, raw_lines}

-- `xs` starts with `ys`
abbrev pub Begins {ℓ} : {A : Type ℓ} → List A → List A → Type ℓ
Begins {A = A} xs ys = (zs : List A) × (xs ≡ ys ++ zs)

Begins-cons : (l : RawLine) (xs ys : List RawLine) → Begins xs ys → Begins (l ∷ xs) (l ∷ ys)
Begins-cons l xs ys (zs, e) = (zs, ap (λ k. l ∷ k) e)

Begins-all : (xs ys : List RawLine) → ys ≡ [] → Begins xs ys
Begins-all xs ys e = (xs, ap (λ k. k ++ xs) (sym e))

no_trailing : (cur : Bytes) → raw_from false cur [] ≡ []
unfolding raw_from
no_trailing [] = refl
no_trailing (c ∷ cur) = refl

module _ (eof : Bool) where
  raw_from-Begins :
      (cur s rest : Bytes) → Begins (raw_from eof cur (s ++ rest)) (raw_from false cur s)
  raw_from-Begins cur [] rest = Begins-all _ (raw_from false cur []) (no_trailing cur)
  raw_from-Begins cur (c ∷ []) rest = elim (Bool-cases (c == b'\n')) [
    | inl e ↦
        rw (raw_from-lf eof cur c rest e, raw_from-lf false cur c [] e)
          (Begins-cons (line cur lf) _ _ (Begins-all _ (raw_from false [] []) (no_trailing [])))
    | inr e ↦ elim (Bool-cases (c == b'\r')) [
      | inl r ↦ Begins-all _ _ (raw_from-last_cr false cur c e r)
      | inr r ↦
          rw (raw_from-other eof cur c rest e r, raw_from-other false cur c [] e r)
            (raw_from-Begins (cur ++ c ∷ []) [] rest)
    ]
  ]
  raw_from-Begins cur (c ∷ d ∷ s) rest = elim (Bool-cases (c == b'\n')) [
    | inl e ↦
        rw (raw_from-lf eof cur c (d ∷ s ++ rest) e, raw_from-lf false cur c (d ∷ s) e)
          (Begins-cons (line cur lf) _ _ (raw_from-Begins [] (d ∷ s) rest))
    | inr e ↦ elim (Bool-cases (c == b'\r')) [
      | inl r ↦ elim (Bool-cases (d == b'\n')) [
        | inl n ↦
            rw (raw_from-cr_lf eof cur c d (s ++ rest) e r n, raw_from-cr_lf false cur c d s e r n)
              (Begins-cons (line cur cr_lf) _ _ (raw_from-Begins [] s rest))
        | inr n ↦
            rw (raw_from-cr eof cur c d (s ++ rest) e r n, raw_from-cr false cur c d s e r n)
              (Begins-cons (line cur cr) _ _ (raw_from-Begins [] (d ∷ s) rest))
      ]
      | inr r ↦
          rw (raw_from-other eof cur c (d ∷ s ++ rest) e r, raw_from-other false cur c (d ∷ s) e r)
            (raw_from-Begins (cur ++ c ∷ []) (d ∷ s) rest)
    ]
  ]

  -- The complete lines of a part are the first lines of the whole, whatever follows the part.
  pub raw_lines-Begins : (s rest : Bytes) → Begins (raw_lines eof (s ++ rest)) (raw_lines false s)
  unfolding raw_lines
  raw_lines-Begins s rest = raw_from-Begins [] s rest

-- So many lines of a part are as many lines of the whole.
pub take-Begins {ℓ} :
    {A : Type ℓ} (n : ℕ) (xs ys : List A) → Begins xs ys → n ≤ length ys → take n xs ≡ take n ys
take-Begins zero xs ys b h = refl
take-Begins (suc n) xs [] b h = absurd (omega (arith, h))
take-Begins (suc n) xs (y ∷ ys) (zs, e) h =
    ap (take (suc n)) e
    ∙ ap (λ k. y ∷ k) (take-Begins n (ys ++ zs) ys (zs, refl) (omega (arith, h)))
