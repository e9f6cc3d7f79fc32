-- ===== src/Ops/Operations/Aligned.antt =====
-- Where a tail starts to parse, and what the lines from there are of the object.
use storageprims.Prelude.{
  ℕ, zero, suc, ◌+◌, ◌-◌, ◌≤◌, ◌≡◌, ◌⊎◌, refl, sym, ap, ◌∙◌, arith, true, false, Bool-cases, inl,
  inr, Option-cases, List, [], ◌∷◌, ◌++◌, map, Bytes, length, length-append, length-drop, drop,
  drop-drop, first, get_elem?, get_elem?-drop, first-get_elem?, ◌==◌,
}
use mathlib.Core.Path.{subst}
use storageprims.Core.Error.{ProviderKind, StorageOperation, ok, Result-cases}
use storageprims.Ops.Lines.{ParsedLine, parse_lines, parse_tail_lines_bounded}
use storageprims.Ops.Lines.Reference.{raw_lines, raw_lines-nil}
use storageprims.Ops.Lines.Reference.Suffix.{raw_lines-Ends}
use storageprims.Ops.Lines.Select.{take_last, parse_lines-place, parse_tail_lines_bounded-take_last}
use storageprims.Ops.Align.{
  first_full_line_start, slice_starts_on_line_boundary, next_line_boundary,
}
use storageprims.Ops.Align.Boundary.{
  previous, starts_at, IsNextStart, IsFirstStart, next_line_boundary-IsNextStart,
}
use storageprims.Ops.Read.Range.{texts, raw_texts, place-texts}
use storageprims.Ops.Operations.{tail_aligned}

-- a line of the object starts where the parse does, or nothing is parsed
abbrev pub Aligned : Bytes → ℕ → ℕ → Type 0
Aligned doc start k =
    ((starts_at doc (start + k) ≡ true) × (start + k ≤ length doc))
    ⊎ ((drop k (drop start doc) ≡ []) × (1 ≤ start))

pub starts_at-drop :
    (doc : Bytes) (start j : ℕ)
    → starts_at (drop start doc) (suc j) ≡ true
    → starts_at doc (start + suc j) ≡ true
starts_at-drop doc start j q =
    let e : start + suc j ≡ suc (start + j) = omega arith in
    let before =
      subst (λ a. slice_starts_on_line_boundary a (get_elem? (drop start doc) (suc j)) ≡ true)
        (get_elem?-drop start j doc) q in
    let here =
      subst (λ b. slice_starts_on_line_boundary (get_elem? doc (start + j)) b ≡ true)
        (get_elem?-drop start (suc j) doc ∙ ap (get_elem? doc) e) before in
    subst (λ k. starts_at doc k ≡ true) (sym e) here

pub first-drop : (doc : Bytes) (n : ℕ) → first (drop n doc) ≡ get_elem? doc n
first-drop doc n =
    let e : n + 0 ≡ n = omega arith in
    first-get_elem? (drop n doc) ∙ get_elem?-drop n 0 doc ∙ ap (get_elem? doc) e

-- a boundary within a suffix is one of the whole
first_start-Aligned :
    (doc : Bytes) (start k : ℕ)
    → IsFirstStart (drop start doc) 0 k
    → start ≤ length doc
    → Aligned doc start k
first_start-Aligned doc start zero f fits = absurd (omega (arith, f.behind))
first_start-Aligned doc start (suc j) f fits =
    inl
      (starts_at-drop doc start j f.is_start, omega (arith, f.inside, length-drop start doc, fits))

pub drop_all {ℓ} : {A : Type ℓ} (xs : List A) → drop (length xs) xs ≡ []
drop_all [] = refl
drop_all (x ∷ xs) = drop_all xs

pub tail_aligned-Aligned :
    (doc : Bytes) (start : ℕ)
    → start ≤ length doc
    → Aligned doc start (tail_aligned start (previous doc start) (drop start doc))
unfolding tail_aligned first_full_line_start slice_starts_on_line_boundary IsNextStart
tail_aligned-Aligned doc zero fits = inl (refl, omega arith)
tail_aligned-Aligned doc (suc i) fits =
    let z : (suc i == 0) ≡ false = ground arith in
    elim (Bool-cases (slice_starts_on_line_boundary (get_elem? doc i) (first (drop (suc i) doc)))) [
      | inl m ↦
          rw (z, m)
            (let e : suc i + 0 ≡ suc i = omega arith in
              let starts =
                ap (slice_starts_on_line_boundary (get_elem? doc i)) (sym (first-drop doc (suc i)))
                ∙ m in
              inl (subst (λ k. starts_at doc k ≡ true) (sym e) starts, omega (arith, fits)))
      | inr m ↦ elim (Option-cases (next_line_boundary (drop (suc i) doc) 0)) [
        | inl e ↦ rw (z, m, e) (inr (drop_all (drop (suc i) doc), omega arith))
        | inr (k, e) ↦
            rw (z, m, e)
              (first_start-Aligned doc (suc i) k
                (subst (IsNextStart (drop (suc i) doc) 0) e
                  (next_line_boundary-IsNextStart (drop (suc i) doc) 0))
                fits)
      ]
    ]

module _ {ℓ κ} {A : Type ℓ} {B : Type κ} (f : A → B) where
  length-map : (xs : List A) → length (map f xs) ≡ length xs
  length-map [] = refl
  length-map (x ∷ xs) = ap suc (length-map xs)

  map-drop : (n : ℕ) (xs : List A) → map f (drop n xs) ≡ drop n (map f xs)
  map-drop zero xs = refl
  map-drop (suc n) [] = refl
  map-drop (suc n) (x ∷ xs) = map-drop n xs

  map-take_last : (n : ℕ) (xs : List A) → map f (take_last n xs) ≡ take_last n (map f xs)
  map-take_last n xs =
      map-drop (length xs - n) xs ∙ ap (λ k. drop (k - n) (map f xs)) (sym (length-map xs))

-- the last elements of a list are those of its end, where that has as many
drop_past_front {ℓ} :
    {A : Type ℓ} (zs ys : List A) (k : ℕ) → drop (length zs + k) (zs ++ ys) ≡ drop k ys
drop_past_front [] ys k = ap (λ n. drop n ys) (omega arith)
drop_past_front (z ∷ zs) ys k =
    let e : suc (length zs) + k ≡ suc (length zs + k) = omega arith in
    ap (λ n. drop n (z ∷ zs ++ ys)) e ∙ drop_past_front zs ys k

take_last_of_end {ℓ} :
    {A : Type ℓ} (n : ℕ) (zs ys : List A) → n ≤ length ys → take_last n (zs ++ ys) ≡ take_last n ys
take_last_of_end n zs ys h =
    let e : length (zs ++ ys) - n ≡ length zs + (length ys - n) =
      omega (arith, length-append zs ys, h) in
    ap (λ k. drop k (zs ++ ys)) e ∙ drop_past_front zs ys (length ys - n)

module _ (kind : ProviderKind) (operation : StorageOperation) where
  -- the lines of a tail, and how many the bytes have
  tail_texts :
      (bytes : Bytes) (base n : ℕ) (selected : List ParsedLine)
      → 1 ≤ n
      → parse_tail_lines_bounded kind operation bytes base true n ≡ ok selected
      → (texts selected ≡ take_last n (raw_texts (raw_lines true bytes)))
        × (length selected ≤ length (raw_lines true bytes))
  tail_texts bytes base n selected one q =
      let all = sym (parse_tail_lines_bounded-take_last kind operation bytes base true n one) ∙ q in
      elim (Result-cases (parse_lines kind operation bytes base true)) [
        | inr (x, e) ↦ ground (arith, all, e)
        | inl (ps, e) ↦
            let last : selected ≡ take_last n ps = ground (arith, all, e) in
            let (t, l) =
              place-texts kind operation base (raw_lines true bytes) ps
                (sym (parse_lines-place kind operation bytes base true) ∙ e) in
            (
              ap texts last ∙ map-take_last _ n ps ∙ ap (take_last n) t,
              omega (arith, ap length last, length-drop (length ps - n) ps, l),
            )
      ]

  -- The last lines parsed behind a line start are the last of the object, where they are as many as
  -- wanted or the object is parsed from its front.
  pub tail_lines-texts :
      (doc : Bytes) (start k base n : ℕ) (selected : List ParsedLine)
      → 1 ≤ n
      → Aligned doc start k
      → (start ≡ 0 → k ≡ 0)
      → parse_tail_lines_bounded kind operation (drop k (drop start doc)) base true n ≡ ok selected
      → (n ≤ length selected) ⊎ (start ≡ 0)
      → texts selected ≡ take_last n (raw_texts (raw_lines true doc))
  tail_lines-texts doc start k base n selected one aligned front parsed enough =
      let at_front : start ≡ 0 → drop (start + k) doc ≡ doc =
        λ z. let both : start + k ≡ 0 = omega (arith, z, front z) in ap (λ x. drop x doc) both in
      let (t, l) = tail_texts (drop k (drop start doc)) base n selected one parsed in
      elim enough [
        | inr z ↦
            t
            ∙ ap (λ x. take_last n (raw_texts (raw_lines true x)))
                (drop-drop k start doc ∙ at_front z)
        | inl m ↦ elim aligned [
          | inr (nothing, _) ↦ absurd (
              omega (
                arith,
                one,
                m,
                l,
                ap (λ x. length (raw_lines true x)) nothing,
                ap length (raw_lines-nil true),
              ))
          | inl (starts, fits) ↦
              let (zs, e) = raw_lines-Ends doc (start + k) starts fits in
              let whole = ap (λ x. raw_lines true x) (drop-drop k start doc) in
              let ys = raw_lines true (drop (start + k) doc) in
              t
              ∙ ap (λ x. take_last n (raw_texts x)) whole
              ∙ sym (map-take_last _ n ys)
              ∙ ap raw_texts (sym (take_last_of_end n zs ys (omega (arith, m, l, ap length whole))))
              ∙ ap (λ x. raw_texts (take_last n x)) (sym e)
              ∙ map-take_last _ n (raw_lines true doc)
        ]
      ]
