-- ===== src/S3/Pages/Rows.antt =====
-- The two loops over a delimiter page.
use storageprims.Prelude.{
  ℕ, ◌+◌, ◌^◌, ◌≤◌, ◌<◌, ◌≡◌, ◌≢◌, ◌↔◌, refl, ap, arith, ◌∙◌, Option, none, some, List, [], ◌∷◌,
  ◌++◌, append-nil, append_assoc, map, length, All, any, bytes_eq, bytes_eq_iff, Bytes,
  Option-cases, inl, inr, strip_prefix, strip_prefix_sound, strip_prefix-append, is_empty, suc,
  true, false,
}
use storageprims.Core.Error.{Result-cases, ok}
use storageprims.S3.Keys.{strip_root_prefix, starts_with}
use storageprims.S3.Keys.Root.{strip_root_prefix_iff}
use storageprims.S3.Pages.{
  Entries, next_row, project_object, visit_objects, check_prefix, visit_prefixes,
}
use storageprims.S3.Pages.Accept.{under}

next_row_iff :
    (page_bound row n : ℕ)
    → page_bound < 2 ^ 64
    → (next_row page_bound row ≡ ok n) ↔ ((n ≡ suc row) × (suc row ≤ page_bound))
unfolding next_row
next_row_iff page_bound row n fits = ground arith

abbrev pub Continues : Bytes → Bytes → Type 0
Continues caller_prefix p = (r : Bytes) × (p ≡ caller_prefix ++ r)

-- the text starts with the prefix exactly if it is the prefix and a rest
starts_with-Continues : (p s : Bytes) → (starts_with p s ≡ true) ↔ Continues p s
starts_with-Continues p s = (
  λ h. elim (Option-cases (strip_prefix p s)) [
    | inl e ↦ ground (arith, h, e)
    | inr (r, e) ↦ (r, strip_prefix_sound p s r e)
  ],
  λ (r, e). rw (e, strip_prefix-append) refl,
)

project_object_iff :
    (root_prefix : Option Bytes) (caller_prefix : Bytes) (entry : Option Bytes) (p : Bytes)
    → (project_object root_prefix caller_prefix entry ≡ ok p)
      ↔ (Continues caller_prefix p × (entry ≡ under root_prefix p))
unfolding project_object
project_object_iff root_prefix caller_prefix none p = ground arith
project_object_iff root_prefix caller_prefix (some key) p =
    let c = starts_with-Continues caller_prefix in
    (
      λ q. elim (Result-cases (strip_root_prefix root_prefix key)) [
        | inl (p', e) ↦
            let k = (strip_root_prefix_iff root_prefix key p').0 e in ground (arith, q, e, k, c p')
        | inr (x, e) ↦ ground (arith, q, e)
      ],
      λ (h, q).
          let e = (strip_root_prefix_iff root_prefix key p).1 (ground (arith, q)) in
          ground (arith, e, (c p).1 h),
    )

-- a projected prefix that is no path of an object, and not empty
abbrev pub IsNewPrefix : List Bytes → Bytes → Type 0
IsNewPrefix objects p = (p ≢ []) × All (λ o. p ≢ o) objects

is_empty_iff : (p : Bytes) → (is_empty p ≡ false) ↔ (p ≢ [])
is_empty_iff [] = ground arith
is_empty_iff (c ∷ p) = ground arith

any_iff :
    (p : Bytes) (objects : List Bytes)
    → (any (bytes_eq p) objects ≡ false) ↔ All (λ o. p ≢ o) objects
any_iff p [] = ground arith
any_iff p (o ∷ objects) = ground (arith, any_iff p objects, bytes_eq_iff p o)

module _ (root_prefix : Option Bytes) (caller_prefix : Bytes) (page_bound : ℕ)
    (fits : page_bound < 2 ^ 64) where
  visit_objects-cons :
      (row n : ℕ) (seen all : List Bytes) (entry : Option Bytes) (keys : Entries)
      → (visit_objects root_prefix caller_prefix page_bound row seen (entry ∷ keys) ≡ ok (n, all))
        ↔ ((p : Bytes) × Continues caller_prefix p
            × (entry ≡ under root_prefix p)
            × (suc row ≤ page_bound)
            × (visit_objects root_prefix caller_prefix page_bound (suc row) (seen ++ p ∷ []) keys
                ≡ ok (n, all)))
  unfolding visit_objects
  visit_objects-cons row n seen all entry keys = (
    λ q. elim (Result-cases (next_row page_bound row)) [
      | inl (m, e) ↦ elim (Result-cases (project_object root_prefix caller_prefix entry)) [
        | inl (p, f) ↦
            let (c, u) = (project_object_iff root_prefix caller_prefix entry p).0 f in
            let (me, le) = (next_row_iff page_bound row m fits).0 e in
            (p, c, u, le, ground (arith, q, e, f, me))
        | inr (x, f) ↦ ground (arith, q, e, f)
      ]
      | inr (x, e) ↦ ground (arith, q, e)
    ],
    λ (p, c, u, le, v).
        let e = (next_row_iff page_bound row (suc row) fits).1 (refl, le) in
        let f = (project_object_iff root_prefix caller_prefix entry p).1 (c, u) in
        ground (arith, e, f, v),
  )

  pub visit_objects_sound :
      (row n : ℕ) (seen all : List Bytes) (keys : Entries)
      → visit_objects root_prefix caller_prefix page_bound row seen keys ≡ ok (n, all)
      → row ≤ page_bound
      → (ps : List Bytes) × (keys ≡ map (under root_prefix) ps)
        × All (Continues caller_prefix) ps
        × (n ≡ row + length ps)
        × (n ≤ page_bound)
        × (all ≡ seen ++ ps)
  unfolding visit_objects
  visit_objects_sound row n seen all [] q h =
      ([], refl, tt, ground (arith, q), ground (arith, q, h), ground (arith, q, append-nil seen))
  visit_objects_sound row n seen all (entry ∷ keys) q h =
      let (p, c, u, le, v) = (visit_objects-cons row n seen all entry keys).0 q in
      let (ps, k, cs, len, bound, eq) =
        visit_objects_sound (suc row) n (seen ++ p ∷ []) all keys v le in
      (
        p ∷ ps,
        ground (arith, u, k),
        (c, cs),
        omega (arith, len),
        bound,
        eq ∙ append_assoc seen (p ∷ []) ps,
      )

  pub visit_objects-map :
      (row : ℕ) (seen ps : List Bytes)
      → All (Continues caller_prefix) ps
      → row + length ps ≤ page_bound
      → visit_objects root_prefix caller_prefix page_bound row seen (map (under root_prefix) ps)
        ≡ ok (row + length ps, seen ++ ps)
  unfolding visit_objects
  visit_objects-map row seen [] c le = ground (arith, append-nil seen)
  visit_objects-map row seen (p ∷ ps) (c, cs) le =
      let rest = visit_objects-map (suc row) (seen ++ p ∷ []) ps cs (omega (arith, le)) in
      let e : suc row + length ps ≡ row + suc (length ps) = omega arith in
      (visit_objects-cons row _ seen _ (under root_prefix p) (map (under root_prefix) ps)).1
        (p, c, refl, omega (arith, le), ground (arith, rest, e, append_assoc seen (p ∷ []) ps))

  -- a common prefix is accepted exactly if its projection continues the caller's prefix, is not
  -- empty and is not one of the projected objects
  pub check_prefix_iff :
      (objects : List Bytes) (entry : Option Bytes)
      → (check_prefix root_prefix caller_prefix objects entry ≡ ok tt) ↔ (
          (p : Bytes) × Continues caller_prefix p
          × (entry ≡ under root_prefix p)
          × IsNewPrefix objects p)
  unfolding check_prefix
  check_prefix_iff objects none = ground arith
  check_prefix_iff objects (some key) =
      let c = starts_with-Continues caller_prefix in
      (
        λ q. elim (Result-cases (strip_root_prefix root_prefix key)) [
          | inl (p, e) ↦
              let k = (strip_root_prefix_iff root_prefix key p).0 e in
              (
                p,
                ground (arith, q, e, c p),
                ap some k,
                ground (arith, q, e, is_empty_iff p, any_iff p objects),
              )
          | inr (x, e) ↦ ground (arith, q, e)
        ],
        λ (p, h, q, new).
            let e = (strip_root_prefix_iff root_prefix key p).1 (ground (arith, q)) in
            ground (arith, e, (c p).1 h, new, is_empty_iff p, any_iff p objects),
      )

  visit_prefixes-cons :
      (row : ℕ) (objects : List Bytes) (entry : Option Bytes) (keys : Entries)
      → (visit_prefixes root_prefix caller_prefix page_bound row objects (entry ∷ keys) ≡ ok tt) ↔ (
          (check_prefix root_prefix caller_prefix objects entry ≡ ok tt)
          × (suc row ≤ page_bound)
          × (visit_prefixes root_prefix caller_prefix page_bound (suc row) objects keys ≡ ok tt))
  unfolding visit_prefixes
  visit_prefixes-cons row objects entry keys = (
    λ q. elim (Result-cases (next_row page_bound row)) [
      | inl (m, e) ↦ elim (Result-cases (check_prefix root_prefix caller_prefix objects entry)) [
        | inl (_, f) ↦
            let (me, le) = (next_row_iff page_bound row m fits).0 e in
            (f, le, ground (arith, q, e, f, me))
        | inr (x, f) ↦ ground (arith, q, e, f)
      ]
      | inr (x, e) ↦ ground (arith, q, e)
    ],
    λ (f, le, v).
        let e = (next_row_iff page_bound row (suc row) fits).1 (refl, le) in
        ground (arith, e, f, v),
  )

  pub visit_prefixes_sound :
      (row : ℕ) (objects : List Bytes) (keys : Entries)
      → visit_prefixes root_prefix caller_prefix page_bound row objects keys ≡ ok tt
      → row ≤ page_bound
      → (ps : List Bytes) × (keys ≡ map (under root_prefix) ps)
        × All (Continues caller_prefix) ps
        × All (IsNewPrefix objects) ps
        × (row + length ps ≤ page_bound)
  visit_prefixes_sound row objects [] q h = ([], refl, tt, tt, omega (arith, h))
  visit_prefixes_sound row objects (entry ∷ keys) q h =
      let (f, le, v) = (visit_prefixes-cons row objects entry keys).0 q in
      let (p, c, u, new) = (check_prefix_iff objects entry).0 f in
      let (ps, k, cs, news, bound) = visit_prefixes_sound (suc row) objects keys v le in
      (p ∷ ps, ground (arith, u, k), (c, cs), (new, news), omega (arith, bound))

  pub visit_prefixes-map :
      (row : ℕ) (objects ps : List Bytes)
      → All (Continues caller_prefix) ps
      → All (IsNewPrefix objects) ps
      → row + length ps ≤ page_bound
      → visit_prefixes root_prefix caller_prefix page_bound row objects (map (under root_prefix) ps)
        ≡ ok tt
  unfolding visit_prefixes
  visit_prefixes-map row objects [] c new le = refl
  visit_prefixes-map row objects (p ∷ ps) (c, cs) (new, news) le =
      (visit_prefixes-cons row objects (under root_prefix p) (map (under root_prefix) ps)).1 (
        (check_prefix_iff objects (under root_prefix p)).1 (p, c, refl, new),
        omega (arith, le),
        visit_prefixes-map (suc row) objects ps cs news (omega (arith, le)),
      )
