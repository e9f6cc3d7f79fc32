-- ===== src/S3/Response/Range.antt =====
-- Content ranges: which texts are accepted, and what a full response proves.
use storageprims.Prelude.{
  ℕ, ◌≤◌, ◌<◌, ◌≡◌, ◌≢◌, ◌↔◌, ◌⊎◌, refl, ap, ◌∙◌, arith, Option, none, some, ◌∷◌, ◌++◌, Bytes,
  codes, inl, inr, Option-cases, Bool-cases, bytes_eq, bytes_eq_iff, strip_prefix,
  strip_prefix_sound, split_once, split_once_sound, split_once-append, Lacks, All-append,
}
use mathlib.Core.Path.{subst}
use storageprims.Prelude.Decimal.{parse_u64, parse_u64-Lacks}
use storageprims.Core.Error.{StorageOperation, Result-cases, ok}
use storageprims.Core.Source.{ByteWindow, checked_len}
use storageprims.S3.Response.{
  ParsedContentRange, fields_of, range_total, range_window, parse_content_range, whole_window,
  full_range, validate_full_get_response,
}

-- the total of a range: a star, or a number that is past the end
abbrev IsTotal : Bytes → ℕ → Option ℕ → Type 0
IsTotal total end none = total ≡ codes "*"
IsTotal total end (some t) = (parse_u64 total ≡ some t) × (end < t)

star : parse_u64 (codes "*") ≡ none
unfolding parse_u64
star = refl

range_total_iff :
    (total : Bytes) (end : ℕ) (o : Option ℕ) (operation : StorageOperation)
    → (range_total total end operation ≡ ok o) ↔ IsTotal total end o
unfolding range_total
range_total_iff total end none operation = ground (arith, bytes_eq_iff total (codes "*"))
range_total_iff total end (some t) operation = elim (Bool-cases (bytes_eq total (codes "*"))) [
  | inl e ↦
      let s = ap parse_u64 ((bytes_eq_iff total (codes "*")).0 e) ∙ star in ground (arith, e, s)
  | inr e ↦ elim (Option-cases (parse_u64 total)) [
    | inl f ↦ ground (arith, e, f)
    | inr (n, f) ↦ ground (arith, e, f)
  ]
]

range_window_iff :
    (window : Bytes) (w : ByteWindow) (operation : StorageOperation)
    → (range_window window operation ≡ ok w) ↔ (
        (s : Bytes) × (e : Bytes) × (window ≡ s ++ b'-' ∷ e)
        × (parse_u64 s ≡ some w.start)
        × (parse_u64 e ≡ some w.end)
        × (w.start ≤ w.end))
unfolding range_window
range_window_iff window w operation = (
  λ q. elim (Option-cases (split_once b'-' window)) [
    | inl e ↦ ground (arith, q, e)
    | inr ((s, t), e) ↦
        let (d, _) = split_once_sound b'-' window s t e in
        elim (Option-cases (parse_u64 s)) [
          | inl f ↦ ground (arith, q, e, f)
          | inr (a, f) ↦ elim (Option-cases (parse_u64 t)) [
            | inl g ↦ ground (arith, q, e, f, g)
            | inr (b, g) ↦ (
              s,
              t,
              d,
              ground (arith, q, e, f, g),
              ground (arith, q, e, f, g),
              ground (arith, q, e, f, g),
            )
          ]
        ]
  ],
  λ (s, t, d, f, g, l).
      let e = split_once-append b'-' s t (parse_u64-Lacks b'-' w.start s refl (omega arith) f) in
      ground (arith, d, e, f, g, l),
)

-- the header `bytes start-end/total`
abbrev pub IsContentRange : Bytes → ParsedContentRange → Type 0
IsContentRange value r =
    (s : Bytes) × (e : Bytes) × (total : Bytes) × (value
      ≡ codes "bytes " ++ s ++ b'-' ∷ e ++ b'/' ∷ total)
    × (parse_u64 s ≡ some r.window.start)
    × (parse_u64 e ≡ some r.window.end)
    × (r.window.start ≤ r.window.end)
    × IsTotal total r.window.end r.total_size

Lacks-window :
    (s e : Bytes) (m n : ℕ)
    → parse_u64 s ≡ some m
    → parse_u64 e ≡ some n
    → Lacks b'/' (s ++ b'-' ∷ e)
Lacks-window s e m n f g =
    All-append (λ c. c ≢ b'/') s (b'-' ∷ e) (parse_u64-Lacks b'/' m s refl (omega arith) f)
      (omega arith, parse_u64-Lacks b'/' n e refl (omega arith) g)

IsContentRange-sound :
    (value : Bytes) (r : ParsedContentRange) (operation : StorageOperation)
    → parse_content_range (some value) operation ≡ ok r
    → IsContentRange value r
unfolding parse_content_range
IsContentRange-sound value r operation q =
    elim (Option-cases (strip_prefix (codes "bytes ") value)) [
      | inl e ↦ ground (arith, q, e)
      | inr (fields, e) ↦ elim (Option-cases (split_once b'/' fields)) [
        | inl f ↦ ground (arith, q, e, f)
        | inr ((window, total), f) ↦ elim (Result-cases (range_window window operation)) [
          | inr (x, g) ↦ ground (arith, q, e, f, g)
          | inl (w, g) ↦ elim (Result-cases (range_total total w.end operation)) [
            | inr (x, h) ↦ ground (arith, q, e, f, g, h)
            | inl (o, h) ↦
                let (s, t, d, a, b, l) = (range_window_iff window w operation).0 g in
                let u = (range_total_iff total w.end o operation).0 h in
                let (k, _) = split_once_sound b'/' fields window total f in
                let v = strip_prefix_sound (codes "bytes ") value fields e in
                let full : value ≡ codes "bytes " ++ s ++ b'-' ∷ t ++ b'/' ∷ total =
                  v ∙ ap (λ x. codes "bytes " ++ x) (k ∙ ap (λ x. x ++ b'/' ∷ total) d) in
                let z : record { window = w; total_size = o } ≡ r = ground (arith, q, e, f, g, h) in
                subst (IsContentRange value) z (s, t, total, full, a, b, l, u)
          ]
        ]
      ]
    ]

IsContentRange-complete :
    (value : Bytes) (r : ParsedContentRange) (operation : StorageOperation)
    → IsContentRange value r
    → parse_content_range (some value) operation ≡ ok r
unfolding parse_content_range
IsContentRange-complete value r operation (s, e, total, d, f, g, l, t) =
    let k =
      split_once-append b'/' (s ++ b'-' ∷ e) total
        (Lacks-window s e r.window.start r.window.end f g) in
    let h = ap (λ x. fields_of (strip_prefix (codes "bytes ") x)) d ∙ k in
    let w = (range_window_iff (s ++ b'-' ∷ e) r.window operation).1 (s, e, refl, f, g, l) in
    let o = (range_total_iff total r.window.end r.total_size operation).1 t in rw (h, w, o) refl

-- A content range is accepted exactly when it is `bytes`, a space, two numbers in order joined by a
-- hyphen, a slash, and a star or a number greater than both; and the result holds these numbers.
pub parse_content_range_iff :
    (value : Bytes) (r : ParsedContentRange) (operation : StorageOperation)
    → (parse_content_range (some value) operation ≡ ok r) ↔ IsContentRange value r
parse_content_range_iff value r operation =
    (IsContentRange-sound value r operation, IsContentRange-complete value r operation)

-- A full response is accepted only with status 200, and its window is then the whole of the
-- declared content length, whatever content range it carries: from 0 to the last byte, or none when
-- the length is 0 or is not declared, which with a content range it has to be.
pub validate_full_get_response-whole_window :
    (status : ℕ) (content_range : Option Bytes) (content_length : Option ℕ) (w : Option ByteWindow)
    → validate_full_get_response status content_range content_length ≡ ok w
    → (status ≡ 200)
      × (w ≡ whole_window content_length)
      × ((content_range ≡ none) ⊎ ((n : ℕ) × (content_length ≡ some n) × (1 ≤ n)))
unfolding validate_full_get_response
validate_full_get_response-whole_window status none content_length w q = ground (arith, q)
validate_full_get_response-whole_window status (some v) content_length w q =
    elim (Result-cases (parse_content_range (some v) StorageOperation.guarded_get)) [
      | inl (p, e) ↦ unfold full_range checked_len in ground (arith, q, e)
      | inr (x, e) ↦ unfold full_range in ground (arith, q, e)
    ]
