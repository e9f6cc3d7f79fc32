-- ===== src/Ops/Read/Range.antt =====
-- A range of a content: what stands behind it, and the lines that are parsed of it.
use storageprims.Prelude.{
  ℕ, zero, suc, ◌+◌, ◌≤◌, ◌<◌, ◌^◌, ◌≡◌, ◌⊎◌, refl, sym, ap, ◌∙◌, arith, Bool, true, false,
  Bool-cases, inl, inr, Option, none, some, List, [], ◌∷◌, ◌++◌, append-nil, Bytes, length,
  length-take, length-drop, nil_of_length, take, drop, map,
}
use mathlib.Core.Path.{subst}
use storageprims.Core.Error.{ProviderKind, StorageOperation, ok, Result-cases}
use storageprims.Core.Source.{SourceReceipt, ByteWindow}
use storageprims.Ops.Lines.{ParsedLine, parse_lines_up_to, checked_text}
use storageprims.Ops.Lines.Reference.{RawLine, raw_lines, width}
use storageprims.Ops.Lines.Reference.Prefix.{raw_lines-Begins, take-Begins}
use storageprims.Ops.Lines.Select.{place, parse_lines_up_to-take}
use storageprims.Ops.Receipt.Prove.{IsWindow, Returns}
use storageprims.Ops.Read.{at_end, past_end, same}
use storageprims.Ops.Read.Serves.{IsRange}

module _ {ℓ} {A : Type ℓ} where
  take-drop : (n : ℕ) (xs : List A) → take n xs ++ drop n xs ≡ xs
  take-drop zero xs = refl
  take-drop (suc n) [] = refl
  take-drop (suc n) (x ∷ xs) = ap (λ k. x ∷ k) (take-drop n xs)

-- what an object has behind a range
abbrev pub beyond : Bytes → ℕ → Bytes → Bytes
beyond doc offset bytes = drop (length bytes) (drop offset doc)

at_end-length :
    (total : Option ℕ) (window : Option ByteWindow) (offset n size : ℕ)
    → IsWindow window offset n
    → ((t : ℕ) → total ≡ some t → t ≡ size)
    → same total (past_end window) ≡ true
    → offset + n ≤ size
    → size < 2 ^ 64
    → offset + n ≡ size
at_end-length none none offset n size w h e fits small = absurd w
at_end-length none (some x) offset n size w h e fits small = ground (arith, e)
at_end-length (some t) none offset n size w h e fits small = absurd w
at_end-length (some t) (some x) offset n size w h e fits small =
    let g : t ≡ size = h t refl in ground (arith, e, w, g, fits, small)

Returns-one :
    (total : Option ℕ) (offset requested n : ℕ)
    → Returns total offset requested n
    → 1 ≤ requested
    → 1 ≤ n
Returns-one none offset requested n r h = omega (arith, r, h)
Returns-one (some t) offset requested n r h = omega (arith, r, h)

module _ (doc : Bytes) (offset requested : ℕ) (bytes : Bytes) (receipt : SourceReceipt)
    (range : IsRange doc offset requested bytes receipt) where
  pub split_at_range : drop offset doc ≡ bytes ++ beyond doc offset bytes
  split_at_range =
      sym (take-drop (length bytes) (drop offset doc))
      ∙ ap (λ x. x ++ beyond doc offset bytes) (sym range.are_bytes)

  pub range_fits : 1 ≤ requested → (1 ≤ length bytes) × (offset + length bytes ≤ length doc)
  range_fits h =
      let one = Returns-one receipt.total_size offset requested (length bytes) range.returns h in
      let l = ap length range.are_bytes ∙ length-take (length bytes) (drop offset doc) in
      let d = length-drop offset doc in (one, omega (arith, l, d, one))

  -- a range up to the stated total size has nothing behind it
  pub nothing_beyond :
      1 ≤ requested → length doc < 2 ^ 64 → at_end receipt ≡ true → beyond doc offset bytes ≡ []
  unfolding at_end
  nothing_beyond h small e =
      let (one, fits) = range_fits h in
      let z =
        at_end-length receipt.total_size receipt.returned_window offset (length bytes) (length doc)
          range.is_window range.is_total e fits small in
      nil_of_length (beyond doc offset bytes)
        (omega (arith, z, length-drop (length bytes) (drop offset doc), length-drop offset doc))

abbrev pub texts : List ParsedLine → List Bytes
texts lines = map (λ (l : ParsedLine). l.text) lines

abbrev pub raw_texts : List RawLine → List Bytes
raw_texts lines = map (λ (l : RawLine). l.text) lines

module _ (provider : ProviderKind) (operation : StorageOperation) where
  checked_text-ok : (s t : Bytes) → checked_text provider operation s ≡ ok t → t ≡ s
  unfolding checked_text
  checked_text-ok s t q = ground (arith, q)

  pub place-texts :
      (base : ℕ) (ls : List RawLine) (ps : List ParsedLine)
      → place provider operation base ls ≡ ok ps
      → (texts ps ≡ raw_texts ls) × (length ps ≡ length ls)
  unfolding place
  place-texts base [] ps q = ground (arith, q)
  place-texts base (l ∷ ls) ps q = elim (Result-cases (checked_text provider operation l.text)) [
    | inr (x, e) ↦ ground (arith, q, e)
    | inl (t, e) ↦ elim (Result-cases (place provider operation (base + width l) ls)) [
      | inr (x, f) ↦ ground (arith, q, e, f)
      | inl (rest, f) ↦
          let (g, h) = place-texts (base + width l) ls rest f in ground (arith, q, e, f, g, h)
    ]
  ]

  -- The first lines parsed of the front of an object are the first lines of the object: where there
  -- are as many as wanted, or where nothing stands behind the front.
  pub front_lines :
      (base n : ℕ) (eof : Bool) (bytes rest : Bytes) (lines : List ParsedLine)
      → parse_lines_up_to provider operation bytes base eof n ≡ ok lines
      → (eof ≡ true → rest ≡ [])
      → (n ≤ length lines) ⊎ (eof ≡ true)
      → texts lines ≡ raw_texts (take n (raw_lines true (bytes ++ rest)))
  front_lines base n eof bytes rest lines q ends enough =
      let (t, l) =
        place-texts base (take n (raw_lines eof bytes)) lines
          (sym (parse_lines_up_to-take provider operation bytes base eof n) ∙ q) in
      elim (Bool-cases eof) [
        | inl e ↦
            let w : bytes ≡ bytes ++ rest =
              sym (append-nil bytes) ∙ ap (λ x. bytes ++ x) (sym (ends e)) in
            t
            ∙ ap (λ b. raw_texts (take n (raw_lines b bytes))) e
            ∙ ap (λ x. raw_texts (take n (raw_lines true x))) w
        | inr e ↦ elim enough [
          | inr f ↦ ground (arith, e, f)
          | inl m ↦
              let k = length-take n (raw_lines eof bytes) in
              let fits : n ≤ length (raw_lines false bytes) =
                subst (λ b. n ≤ length (raw_lines b bytes)) e (omega (arith, m, l, k)) in
              t
              ∙ ap (λ b. raw_texts (take n (raw_lines b bytes))) e
              ∙ ap raw_texts (sym (take-Begins n _ _ (raw_lines-Begins true bytes rest) fits))
        ]
      ]
