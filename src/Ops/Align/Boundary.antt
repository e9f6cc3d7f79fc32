-- ===== src/Ops/Align/Boundary.antt =====
-- The boundary that a read is aligned to is the first start of a line behind its offset.
use storageprims.Prelude.{
  ℕ, zero, suc, ◌+◌, ◌-◌, ◌≤◌, ◌<◌, ◌≡◌, refl, sym, ap, ◌∙◌, arith, Option, none, some, [], ◌∷◌,
  Bytes, length, drop, first, get_elem?, true, false, length-drop, get_elem?-drop, first-get_elem?,
  ◌⊎◌, inl, inr, Bool, Bool-cases, not, ◌==◌,
}
use mathlib.Core.Path.{subst}
use storageprims.Ops.Lines.{is_newline}
use storageprims.Ops.Align.{
  boundary_from, next_line_boundary, slice_starts_on_line_boundary, midpoint_alignment,
}

-- the byte before an offset
abbrev pub previous : Bytes → ℕ → Option ℕ
previous bytes zero = none
previous bytes (suc i) = get_elem? bytes i

-- the test of a line start, at an offset
abbrev pub starts_at : Bytes → ℕ → Bool
starts_at bytes offset =
    slice_starts_on_line_boundary (previous bytes offset) (get_elem? bytes offset)

-- `k` is the first line start behind `start`
pub record IsFirstStart (bytes : Bytes) (start k : ℕ) : Type 0 where
  pub behind : start < k
  pub inside : k ≤ length bytes
  pub is_start : starts_at bytes k ≡ true
  pub is_first : (j : ℕ) → start < j → j < k → starts_at bytes j ≡ false

abbrev NoStart : Bytes → ℕ → Type 0
NoStart bytes start = (j : ℕ) → start < j → j ≤ length bytes → starts_at bytes j ≡ false

-- what `boundary_from` says of the bytes from its index
abbrev Found : ℕ → Bytes → Option ℕ → Type 0
Found index s none = NoStart s 0
Found index s (some k) = (index < k) × IsFirstStart s 0 (k - index)

starts-newline : (c : ℕ) (s : Bytes) → (c == b'\n') ≡ true → starts_at (c ∷ s) 1 ≡ true
unfolding slice_starts_on_line_boundary
starts-newline c s e = ground (arith, e)

starts-return :
    (c : ℕ) (s : Bytes)
    → (c == b'\n') ≡ false
    → (c == b'\r') ≡ true
    → starts_at (c ∷ s) 1 ≡ not (is_newline (first s))
unfolding slice_starts_on_line_boundary
starts-return c [] e r = ground (arith, e, r)
starts-return c (d ∷ s) e r = ground (arith, e, r)

starts-other :
    (c : ℕ) (s : Bytes) → (c == b'\n') ≡ false → (c == b'\r') ≡ false → starts_at (c ∷ s) 1 ≡ false
unfolding slice_starts_on_line_boundary
starts-other c s e r = ground (arith, e, r)

at_one : (c : ℕ) (s : Bytes) → starts_at (c ∷ s) 1 ≡ true → IsFirstStart (c ∷ s) 0 1
at_one c s e = record {
  behind = omega arith;
  inside = omega arith;
  is_start = e;
  is_first = λ j h l. absurd (omega (arith, h, l));
}

newline_start : (s : Bytes) → is_newline (first s) ≡ true → IsFirstStart s 0 1
newline_start [] n = ground (arith, n)
newline_start (d ∷ s) n = at_one d s (starts-newline d s n)

no_start-cons :
    (c : ℕ) (s : Bytes) (k : ℕ)
    → starts_at (c ∷ s) 1 ≡ false
    → ((j : ℕ) → 0 < j → j < k → starts_at s j ≡ false)
    → (j : ℕ) → 0 < j
    → j < suc k
    → starts_at (c ∷ s) j ≡ false
no_start-cons c s k e f zero h l = absurd (omega (arith, h))
no_start-cons c s k e f (suc zero) h l = e
no_start-cons c s k e f (suc (suc j)) h l = f (suc j) (omega arith) (omega (arith, l))

IsFirstStart-cons :
    (c : ℕ) (s : Bytes) (k : ℕ)
    → starts_at (c ∷ s) 1 ≡ false
    → IsFirstStart s 0 k
    → IsFirstStart (c ∷ s) 0 (suc k)
IsFirstStart-cons c s zero e f = absurd (omega (arith, f.behind))
IsFirstStart-cons c s (suc k) e f = record {
  behind = omega arith;
  inside = omega (arith, f.inside);
  is_start = f.is_start;
  is_first = no_start-cons c s (suc k) e f.is_first;
}

Found-cons :
    (index c : ℕ) (s : Bytes) (o : Option ℕ)
    → starts_at (c ∷ s) 1 ≡ false
    → Found (index + 1) s o
    → Found index (c ∷ s) o
Found-cons index c s none e f = λ j h l.
    no_start-cons c s (suc (length s)) e (λ i a b. f i a (omega (arith, b))) j h (omega (arith, l))
Found-cons index c s (some k) e (le, f) =
    let d : suc (k - (index + 1)) ≡ k - index = omega (arith, le) in
    (
      omega (arith, le),
      subst (IsFirstStart (c ∷ s) 0) d (IsFirstStart-cons c s (k - (index + 1)) e f),
    )

Found-at : (index n : ℕ) (s : Bytes) → 0 < n → IsFirstStart s 0 n → Found index s (some (index + n))
Found-at index n s h f =
    let d : n ≡ index + n - index = omega arith in (omega (arith, h), subst (IsFirstStart s 0) d f)

-- the three cases of a byte: a terminator of one byte, the first of two, and none
boundary_from-Found : (index : ℕ) (s : Bytes) → Found index s (boundary_from index s)
unfolding boundary_from
boundary_from-Found index [] = λ j h l. absurd (omega (arith, h, l))
boundary_from-Found index (c ∷ s) = elim (Bool-cases (c == b'\n')) [
  | inl e ↦ rw e (Found-at index 1 (c ∷ s) (omega arith) (at_one c s (starts-newline c s e)))
  | inr e ↦ elim (Bool-cases (c == b'\r')) [
    | inl r ↦ elim (Bool-cases (is_newline (first s))) [
      | inl n ↦
          rw (e, r, n)
            (Found-at index 2 (c ∷ s) (omega arith)
              (IsFirstStart-cons c s 1 (starts-return c s e r ∙ ap not n) (newline_start s n)))
      | inr n ↦
          rw (e, r, n)
            (Found-at index 1 (c ∷ s) (omega arith) (at_one c s (starts-return c s e r ∙ ap not n)))
    ]
    | inr r ↦
        rw (e, r)
          (Found-cons index c s (boundary_from (index + 1) s) (starts-other c s e r)
            (boundary_from-Found (index + 1) s))
  ]
]

-- the starts of what is left after a number of bytes
pub starts_at-drop :
    (start j : ℕ) (bytes : Bytes)
    → 0 < j
    → starts_at (drop start bytes) j ≡ starts_at bytes (start + j)
starts_at-drop start zero bytes h = absurd (omega (arith, h))
starts_at-drop start (suc i) bytes h =
    let e : start + suc i ≡ suc (start + i) = omega arith in
    rw (get_elem?-drop start i bytes, get_elem?-drop start (suc i) bytes, e) refl

starts_at_minus :
    (bytes : Bytes) (start j : ℕ)
    → start < j
    → starts_at (drop start bytes) (j - start) ≡ starts_at bytes j
starts_at_minus bytes start j h =
    starts_at-drop start (j - start) bytes (omega (arith, h))
    ∙ ap (starts_at bytes) (omega (arith, h))

NoStart-drop : (bytes : Bytes) (start : ℕ) → NoStart (drop start bytes) 0 → NoStart bytes start
NoStart-drop bytes start f j h l =
    sym (starts_at_minus bytes start j h)
    ∙ f (j - start) (omega (arith, h)) (omega (arith, l, length-drop start bytes))

IsFirstStart-drop :
    (bytes : Bytes) (start k : ℕ)
    → start < k
    → IsFirstStart (drop start bytes) 0 (k - start)
    → IsFirstStart bytes start k
IsFirstStart-drop bytes start k h f =
    let at : (j : ℕ) → start < j → starts_at (drop start bytes) (j - start) ≡ starts_at bytes j =
      λ j l. starts_at_minus bytes start j l in
    record {
      behind = h;
      inside = omega (arith, h, f.inside, length-drop start bytes);
      is_start = sym (at k h) ∙ f.is_start;
      is_first =
          λ j l m. sym (at j l) ∙ f.is_first (j - start) (omega (arith, l)) (omega (arith, l, m));
    }

-- what `next_line_boundary` returns, in terms of the starts of lines
unfoldable pub IsNextStart : Bytes → ℕ → Option ℕ → Type 0
IsNextStart bytes start none = NoStart bytes start
IsNextStart bytes start (some k) = IsFirstStart bytes start k

Found-drop :
    (bytes : Bytes) (start : ℕ) (o : Option ℕ)
    → Found start (drop start bytes) o
    → IsNextStart bytes start o
unfolding IsNextStart
Found-drop bytes start none f = NoStart-drop bytes start f
Found-drop bytes start (some k) (h, f) = IsFirstStart-drop bytes start k h f

-- The boundary behind an offset is the first offset behind it, at most the length, at which the
-- test of two neighbouring bytes finds the start of a line; there is none exactly when that test
-- fails at every offset behind it.
pub next_line_boundary-IsNextStart :
    (bytes : Bytes) (start : ℕ) → IsNextStart bytes start (next_line_boundary bytes start)
unfolding next_line_boundary IsNextStart
next_line_boundary-IsNextStart bytes start =
    Found-drop bytes start _ (boundary_from-Found start (drop start bytes))

drop_cases :
    (n : ℕ) (xs : Bytes)
    → ((drop n xs ≡ []) × (length xs ≤ n)) ⊎ ((c : ℕ) × (s : Bytes) × (drop n xs ≡ c ∷ s))
drop_cases zero [] = inl (refl, omega arith)
drop_cases zero (c ∷ s) = inr (c, s, refl)
drop_cases (suc n) [] = inl (refl, omega arith)
drop_cases (suc n) (c ∷ s) = elim (drop_cases n s) [
  | inl (e, l) ↦ inl (e, omega (arith, l))
  | inr r ↦ inr r
]

byte_at : (n : ℕ) (xs : Bytes) (c : ℕ) (s : Bytes) → drop n xs ≡ c ∷ s → get_elem? xs n ≡ some c
byte_at n xs c s e =
    let z : n + 0 ≡ n = omega arith in
    ap (get_elem? xs) (sym z) ∙ sym (get_elem?-drop n 0 xs) ∙ ap (λ ys. get_elem? ys 0) e

byte_after :
    (n : ℕ) (xs : Bytes) (c : ℕ) (s : Bytes) → drop n xs ≡ c ∷ s → get_elem? xs (n + 1) ≡ first s
byte_after n xs c s e =
    sym (get_elem?-drop n 1 xs) ∙ ap (λ ys. get_elem? ys 1) e ∙ sym (first-get_elem? s)

-- The alignment of a midpoint is the boundary behind the midpoint.
pub midpoint_alignment-next_line_boundary :
    (bytes : Bytes) (midpoint : ℕ)
    → midpoint_alignment bytes midpoint ≡ next_line_boundary bytes midpoint
unfolding midpoint_alignment next_line_boundary boundary_from
midpoint_alignment-next_line_boundary bytes midpoint = elim (drop_cases midpoint bytes) [
  | inl (e, l) ↦ ground (arith, e, l)
  | inr (c, s, e) ↦
      let g : get_elem? bytes midpoint ≡ some c = byte_at midpoint bytes c s e in
      let h : get_elem? bytes (midpoint + 1) ≡ first s = byte_after midpoint bytes c s e in
      ground (arith, e, g, h, length-drop midpoint bytes)
]
