-- ===== src/Ops/Align/Window.antt =====
-- The starts of lines in a window of an object, against those of the object.
use storageprims.Prelude.{
  ℕ, zero, suc, ◌+◌, ◌-◌, ◌≤◌, ◌<◌, ◌≡◌, sym, ap, ◌∙◌, arith, none, [], ◌∷◌, ◌++◌, append-nil,
  Bytes, length, drop, get_elem?, refl, ◌⊎◌, inl, inr,
}
use storageprims.Ops.Align.Boundary.{starts_at, starts_at-drop, IsFirstStart, IsNextStart}

get_elem?-front : (xs ys : Bytes) (i : ℕ) → i < length xs → get_elem? (xs ++ ys) i ≡ get_elem? xs i
get_elem?-front [] ys i h = absurd (omega (arith, h))
get_elem?-front (x ∷ xs) ys zero h = refl
get_elem?-front (x ∷ xs) ys (suc i) h = get_elem?-front xs ys i (omega (arith, h))

starts_at-front :
    (xs ys : Bytes) (j : ℕ) → 0 < j → j < length xs → starts_at (xs ++ ys) j ≡ starts_at xs j
starts_at-front xs ys zero h l = absurd (omega (arith, h))
starts_at-front xs ys (suc i) h l =
    rw (get_elem?-front xs ys i (omega (arith, l)), get_elem?-front xs ys (suc i) l) refl

module _ (doc : Bytes) (start : ℕ) (bytes rest : Bytes)
    (whole : drop start doc ≡ bytes ++ rest) where
  -- the test of a line start agrees within the window, and at its end where the object ends too
  starts_at-window :
      (j : ℕ)
      → 0 < j
      → (j < length bytes) ⊎ (rest ≡ [])
      → starts_at bytes j ≡ starts_at doc (start + j)
  starts_at-window j h within =
      let there = ap (λ x. starts_at x j) (sym whole) ∙ starts_at-drop start j doc h in
      elim within [
        | inl l ↦ sym (starts_at-front bytes rest j h l) ∙ there
        | inr e ↦
            ap (λ x. starts_at x j) (sym (append-nil bytes) ∙ ap (λ x. bytes ++ x) (sym e)) ∙ there
      ]

  module _ (middle : ℕ) (behind : start ≤ middle) where
    starts_at-behind :
        (j : ℕ)
        → middle < j
        → (j - start < length bytes) ⊎ (rest ≡ [])
        → starts_at bytes (j - start) ≡ starts_at doc j
    starts_at-behind j h within =
        starts_at-window (j - start) (omega (arith, h, behind)) within
        ∙ ap (starts_at doc) (omega (arith, h, behind))

    -- the first start behind an offset of the window is that of the object
    pub IsFirstStart-window :
        (k : ℕ)
        → (k < length bytes) ⊎ (rest ≡ [])
        → start + length bytes ≤ length doc
        → IsFirstStart bytes (middle - start) k
        → IsFirstStart doc middle (start + k)
    IsFirstStart-window k within fits f = record {
      behind = omega (arith, f.behind, behind);
      inside = omega (arith, f.inside, fits);
      is_start = sym (starts_at-window k (omega (arith, f.behind)) within) ∙ f.is_start;
      is_first = λ j h l.
          sym (
            starts_at-behind j h
              (elim within [ inl m ↦ inl (omega (arith, l, m, h, behind)) | inr e ↦ inr e ]))
          ∙ f.is_first (j - start) (omega (arith, h, behind)) (omega (arith, l, h, behind));
    }

    -- a window up to the end of the object without a start behind the offset
    pub IsNextStart-none :
        rest ≡ []
        → start + length bytes ≡ length doc
        → IsNextStart bytes (middle - start) none
        → IsNextStart doc middle none
    unfolding IsNextStart
    IsNextStart-none e all f = λ j h l.
        sym (starts_at-behind j h (inr e))
        ∙ f (j - start) (omega (arith, h, behind)) (omega (arith, l, h, behind, all))
