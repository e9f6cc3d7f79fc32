-- ===== src/Ops/Lines/Select.antt =====
-- Which lines the three parsers select.
use storageprims.Prelude.{
  ℕ, zero, suc, ◌+◌, ◌-◌, ◌≤◌, ◌≡◌, refl, sym, ap, ◌∙◌, Bool, true, List, [], ◌∷◌, ◌++◌, Bytes,
  arith, length, take, drop, ltb, ◌==◌, length-drop, append-nil, append_assoc, length-append,
  Bool-cases, inl, inr,
}
use storageprims.Core.Error.{ProviderKind, StorageOperation, Result, ok, err, ◌>>=◌, Result-cases}
use storageprims.Ops.Lines.{
  ParsedLine, checked_text, push_back, push_window, parse_lines, parse_lines_up_to,
  parse_tail_lines_bounded,
}
use storageprims.Ops.Lines.Reference.{RawLine, width, raw_lines}
use storageprims.Ops.Lines.Extract.{placed}
use storageprims.Ops.Lines.Parse.{feed, feed_full, feed_wanted, parse_with-feed}

-- the last `n` elements
abbrev pub take_last {ℓ} : {A : Type ℓ} → ℕ → List A → List A
take_last n xs = drop (length xs - n) xs

module _ {ℓ} {A : Type ℓ} where
  take-nil : (m : ℕ) → take {A = A} m [] ≡ []
  take-nil zero = refl
  take-nil (suc m) = refl

ok_bind : (r : Result (List ParsedLine)) → (r >>= λ ps. ok ps) ≡ r
ok_bind (ok ps) = refl
ok_bind (err e) = refl

regroup :
    (acc : List ParsedLine) (x : ParsedLine) (r : Result (List ParsedLine))
    → (r >>= λ ps. ok ((acc ++ x ∷ []) ++ ps))
      ≡ ((r >>= λ rest. ok (x ∷ rest)) >>= λ ps. ok (acc ++ ps))
regroup acc x (ok ps) = ap ok (append_assoc acc (x ∷ []) ps)
regroup acc x (err e) = refl

take_last_all : (n : ℕ) (acc : List ParsedLine) → length acc ≤ n → take_last n (acc ++ []) ≡ acc
take_last_all n acc h =
    let none_dropped : length acc - n ≡ 0 = omega arith in rw (append-nil, none_dropped)

length-push_window :
    (n : ℕ) (acc : List ParsedLine) (x : ParsedLine)
    → 1 ≤ n
    → length acc ≤ n
    → length (push_window n acc x) ≤ n
length-push_window n acc x p h =
    ground
      (arith, length-append acc (x ∷ []), length-append (drop 1 acc) (x ∷ []), length-drop 1 acc)

drop_past :
    (n : ℕ) (a : ParsedLine) (zs : List ParsedLine)
    → n ≤ length zs
    → take_last n (a ∷ zs) ≡ take_last n zs
drop_past n a zs h =
    let e : suc (length zs) - n ≡ suc (length zs - n) = omega arith in ap (λ k. drop k (a ∷ zs)) e

take_last-push_window :
    (n : ℕ) (acc : List ParsedLine) (x : ParsedLine) (ps : List ParsedLine)
    → 1 ≤ n
    → length acc ≤ n
    → take_last n (push_window n acc x ++ ps) ≡ take_last n (acc ++ x ∷ ps)
take_last-push_window n [] x ps p h = ground arith
take_last-push_window n (a ∷ acc) x ps p h = elim (Bool-cases (length (a ∷ acc) == n)) [
  | inl full ↦
      rw (full, append_assoc acc (x ∷ []) ps)
        (sym (drop_past n a (acc ++ x ∷ ps) (ground (arith, length-append acc (x ∷ ps)))))
  | inr room ↦ rw room (rw (append_assoc acc (x ∷ []) ps))
]

module _ (provider : ProviderKind) (operation : StorageOperation) where
  -- The lines in order from `base`, each checked to be UTF-8 before the next is looked at.
  unfoldable pub place : ℕ → List RawLine → Result (List ParsedLine)
  place base [] = ok []
  place base (l ∷ ls) = do
    text ← checked_text provider operation l.text
    rest ← place (base + width l) ls
    ok (placed base l ∷ rest)

  abbrev checked : RawLine → Result Bytes
  checked l = checked_text provider operation l.text

  feed_all :
      (base : ℕ) (ls : List RawLine) (acc : List ParsedLine)
      → feed (λ lines. true) push_back provider operation base ls acc
        ≡ (place base ls >>= λ ps. ok (acc ++ ps))
  unfolding feed place
  feed_all base [] acc = ap ok (sym (append-nil acc))
  feed_all base (l ∷ ls) acc = elim (Result-cases (checked l)) [
    | inl (t, c) ↦
        rw (c, feed_all (base + width l) ls (acc ++ placed base l ∷ []))
          (regroup acc (placed base l) (place (base + width l) ls))
    | inr (e, c) ↦ rw c
  ]

  feed_up_to :
      (n base : ℕ) (ls : List RawLine) (acc : List ParsedLine) (m : ℕ)
      → length acc + m ≡ n
      → feed (λ lines. ltb (length lines) n) push_back provider operation base ls acc
        ≡ (place base (take m ls) >>= λ ps. ok (acc ++ ps))
  unfolding place
  feed_up_to n base [] acc m h = rw (take-nil m) (unfold feed in ap ok (sym (append-nil acc)))
  feed_up_to n base (l ∷ ls) acc zero h =
      feed_full (λ lines. ltb (length lines) n) push_back provider operation base (l ∷ ls) acc
        (ground arith)
      ∙ ap ok (sym (append-nil acc))
  feed_up_to n base (l ∷ ls) acc (suc m) h =
      rw
        (feed_wanted (λ lines. ltb (length lines) n) push_back provider operation base l ls acc
          (ground arith))
        (elim (Result-cases (checked l)) [
          | inl (t, c) ↦
              rw
                (
                  c,
                  feed_up_to n (base + width l) ls (acc ++ placed base l ∷ []) m
                      (omega (arith, length-append {0} acc (placed base l ∷ []))),
                )
                (regroup acc (placed base l) (place (base + width l) (take m ls)))
          | inr (e, c) ↦ rw c
        ])

  feed_window :
      (n base : ℕ) (ls : List RawLine) (acc : List ParsedLine)
      → 1 ≤ n
      → length acc ≤ n
      → feed (λ lines. true) (push_window n) provider operation base ls acc
        ≡ (place base ls >>= λ ps. ok (take_last n (acc ++ ps)))
  unfolding feed place
  feed_window n base [] acc p h = ap ok (sym (take_last_all n acc h))
  feed_window n base (l ∷ ls) acc p h = elim (Result-cases (checked l)) [
    | inl (t, c) ↦
        rw
          (
            c,
            feed_window n (base + width l) ls (push_window n acc (placed base l)) p
                (length-push_window n acc (placed base l) p h),
          )
          (elim (Result-cases (place (base + width l) ls)) [
            | inl (ps, d) ↦ rw d (ap ok (take_last-push_window n acc (placed base l) ps p h))
            | inr (e, d) ↦ rw d
          ])
    | inr (e, c) ↦ rw c
  ]

module _ (provider : ProviderKind) (operation : StorageOperation) (bytes : Bytes) (base : ℕ)
    (eof : Bool) where
  -- The unbounded parser places all lines of the reference.
  pub parse_lines-place :
      parse_lines provider operation bytes base eof
      ≡ place provider operation base (raw_lines eof bytes)
  unfolding parse_lines
  parse_lines-place =
      parse_with-feed (λ lines. true) push_back provider operation bytes base eof
      ∙ feed_all provider operation base (raw_lines eof bytes) []
      ∙ ok_bind (place provider operation base (raw_lines eof bytes))

  -- `parse_lines_up_to` returns the first `maximum` lines of the bytes, at their offsets, or all if
  -- there are fewer. It fails exactly when one of these is no UTF-8: what stands behind them is not
  -- looked at.
  pub parse_lines_up_to-take :
      (maximum : ℕ)
      → parse_lines_up_to provider operation bytes base eof maximum
        ≡ place provider operation base (take maximum (raw_lines eof bytes))
  unfolding parse_lines_up_to
  parse_lines_up_to-take maximum =
      parse_with-feed (λ lines. ltb (length lines) maximum) push_back provider operation bytes base
        eof
      ∙ feed_up_to provider operation maximum base (raw_lines eof bytes) [] maximum (omega arith)
      ∙ ok_bind (place provider operation base (take maximum (raw_lines eof bytes)))

  -- `parse_tail_lines_bounded` returns the last `maximum` of the lines that the unbounded parser
  -- returns, for a positive `maximum`, and fails when that one fails: the window of lines that it
  -- keeps loses none of them and no check.
  pub parse_tail_lines_bounded-take_last :
      (maximum : ℕ)
      → 1 ≤ maximum
      → parse_tail_lines_bounded provider operation bytes base eof maximum
        ≡ (parse_lines provider operation bytes base eof >>= λ lines. ok (take_last maximum lines))
  unfolding parse_tail_lines_bounded
  parse_tail_lines_bounded-take_last maximum p =
      parse_with-feed (λ lines. true) (push_window maximum) provider operation bytes base eof
      ∙ feed_window provider operation maximum base (raw_lines eof bytes) [] p (omega arith)
      ∙ rw parse_lines-place
