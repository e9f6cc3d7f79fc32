-- ===== src/Ops/Lines/Reference/Suffix.antt =====
-- The lines from a line start on are the last lines of the object.
use storageprims.Prelude.{
  ℕ, zero, suc, ◌≤◌, ◌≡◌, refl, ap, sym, true, false, List, [], ◌∷◌, ◌++◌, Bytes, arith, ◌==◌,
  Option, none, some, ◌≢◌, Bool-cases, inl, inr, length, drop, get_elem?, ==_iff,
}
use mathlib.Core.Path.{subst}
use storageprims.Ops.Align.{slice_starts_on_line_boundary}
use storageprims.Ops.Align.Boundary.{starts_at}
use storageprims.Ops.Lines.{lf, cr, cr_lf}
use storageprims.Ops.Lines.Reference.Step.{
  raw_from-lf, raw_from-cr, raw_from-cr_lf, raw_from-last_cr, raw_from-other,
}
use storageprims.Ops.Lines.Reference.{RawLine, line, raw_from, raw_lines}

-- `xs` ends with `ys`
abbrev pub Ends {ℓ} : {A : Type ℓ} → List A → List A → Type ℓ
Ends {A = A} xs ys = (zs : List A) × (xs ≡ zs ++ ys)

ends_cons : (l : RawLine) (xs ys : List RawLine) → Ends xs ys → Ends (l ∷ xs) ys
ends_cons l xs ys (zs, e) = (l ∷ zs, ap (λ k. l ∷ k) e)

cr_test :
    (c d : ℕ)
    → (c == b'\n') ≡ false
    → (c == b'\r') ≡ true
    → slice_starts_on_line_boundary (some c) (some d) ≡ true
    → (d == b'\n') ≡ false
unfolding slice_starts_on_line_boundary
cr_test c d e r h = ground (arith, e, r, h)

other_test :
    (c : ℕ) (o : Option ℕ)
    → (c == b'\n') ≡ false
    → (c == b'\r') ≡ false
    → slice_starts_on_line_boundary (some c) o ≢ true
unfolding slice_starts_on_line_boundary
other_test c none e r h = ground (arith, e, r, h)
other_test c (some d) e r h = ground (arith, e, r, h)

abbrev ends_refl : (l : RawLine) (xs : List RawLine) → Ends (l ∷ xs) xs
ends_refl l xs = (l ∷ [], refl)

no_lines : raw_from true [] [] ≡ []
unfolding raw_from
no_lines = refl

-- behind a terminator of two bytes
behind :
    (s : Bytes) (k : ℕ)
    → ((j : ℕ)
        → starts_at s (suc j) ≡ true
        → suc j ≤ length s
        → Ends (raw_from true [] s) (raw_from true [] (drop (suc j) s)))
    → slice_starts_on_line_boundary (get_elem? (b'\n' ∷ s) k) (get_elem? s k) ≡ true
    → k ≤ length s
    → Ends (raw_from true [] s) (raw_from true [] (drop k s))
behind s zero ih h m = ([], refl)
behind s (suc k) ih h m = ih k h m

newline_test :
    (d : ℕ) (s : Bytes) (k : ℕ)
    → (d == b'\n') ≡ true
    → slice_starts_on_line_boundary (get_elem? (d ∷ s) k) (get_elem? s k) ≡ true
    → slice_starts_on_line_boundary (get_elem? (b'\n' ∷ s) k) (get_elem? s k) ≡ true
newline_test d s k n h =
    subst (λ x. slice_starts_on_line_boundary (get_elem? (x ∷ s) k) (get_elem? s k) ≡ true)
      ((==_iff d b'\n').0 n) h

raw_from-Ends :
    (cur s : Bytes) (k : ℕ)
    → starts_at s (suc k) ≡ true
    → suc k ≤ length s
    → Ends (raw_from true cur s) (raw_from true [] (drop (suc k) s))
raw_from-Ends cur [] k h l = absurd (omega (arith, l))
raw_from-Ends cur (c ∷ []) zero h l = elim (Bool-cases (c == b'\n')) [
  | inl e ↦ rw (raw_from-lf true cur c [] e) (ends_refl (line cur lf) _)
  | inr e ↦ elim (Bool-cases (c == b'\r')) [
    | inl r ↦
        rw (raw_from-last_cr true cur c e r)
          (line cur cr ∷ [], ap (λ k. line cur cr ∷ k) (sym no_lines))
    | inr r ↦ absurd (other_test c none e r h)
  ]
]
raw_from-Ends cur (c ∷ []) (suc k) h l = absurd (omega (arith, l))
raw_from-Ends cur (c ∷ d ∷ s) zero h l = elim (Bool-cases (c == b'\n')) [
  | inl e ↦ rw (raw_from-lf true cur c (d ∷ s) e) (ends_refl (line cur lf) _)
  | inr e ↦ elim (Bool-cases (c == b'\r')) [
    | inl r ↦ rw (raw_from-cr true cur c d s e r (cr_test c d e r h)) (ends_refl (line cur cr) _)
    | inr r ↦ absurd (other_test c (some d) e r h)
  ]
]
raw_from-Ends cur (c ∷ d ∷ s) (suc k) h l =
    let m : suc k ≤ length (d ∷ s) = omega (arith, l) in
    elim (Bool-cases (c == b'\n')) [
      | inl e ↦
          rw (raw_from-lf true cur c (d ∷ s) e)
            (ends_cons (line cur lf) _ _ (raw_from-Ends [] (d ∷ s) k h m))
      | inr e ↦ elim (Bool-cases (c == b'\r')) [
        | inl r ↦ elim (Bool-cases (d == b'\n')) [
          | inl n ↦ rw (raw_from-cr_lf true cur c d s e r n) (
              ends_cons (line cur cr_lf) _ _
                (behind s k (raw_from-Ends [] s) (newline_test d s k n h) (omega (arith, m))))
          | inr n ↦
              rw (raw_from-cr true cur c d s e r n)
                (ends_cons (line cur cr) _ _ (raw_from-Ends [] (d ∷ s) k h m))
        ]
        | inr r ↦
            rw (raw_from-other true cur c (d ∷ s) e r) (raw_from-Ends (cur ++ c ∷ []) (d ∷ s) k h m)
      ]
    ]

-- The lines from the start of a line on are the last lines of the whole.
pub raw_lines-Ends :
    (s : Bytes) (k : ℕ)
    → starts_at s k ≡ true
    → k ≤ length s
    → Ends (raw_lines true s) (raw_lines true (drop k s))
unfolding raw_lines
raw_lines-Ends s zero h l = ([], refl)
raw_lines-Ends s (suc k) h l = raw_from-Ends [] s k h l
