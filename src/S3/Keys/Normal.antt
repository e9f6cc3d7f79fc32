-- ===== src/S3/Keys/Normal.antt =====
-- The root prefix after normalization.
use storageprims.Prelude.{
  ℕ, ◌≡◌, ◌≢◌, ◌⊎◌, arith, Option, none, some, [], ◌∷◌, Bytes, first, last, ◌==◌, Bool-cases, inl,
  inr,
}
use mathlib.Core.Path.{subst}
use storageprims.Core.Error.{ok}
use storageprims.S3.Keys.{
  normalize_prefix, resolve_root_prefix, trim_start, trim_end, trim_last, non_empty, one_root,
}

-- no slash at either end, and not empty
abbrev pub IsNormal : Bytes → Type 0
IsNormal s = (s ≢ []) × (first s ≢ some b'/') × (last s ≢ some b'/')

trim_start-first : (s : Bytes) → first (trim_start s) ≢ some b'/'
unfolding trim_start
trim_start-first [] q = ground (arith, q)
trim_start-first (c ∷ s) q = elim (Bool-cases (c == b'/')) [
  | inl e ↦ trim_start-first s (ground (arith, e, q))
  | inr e ↦ ground (arith, e, q)
]

trim_last-last : (c : ℕ) (s : Bytes) → last s ≢ some b'/' → last (trim_last c s) ≢ some b'/'
trim_last-last c [] h q = ground (arith, h, q)
trim_last-last c (d ∷ s) h q = ground (arith, h, q)

trim_end-last : (s : Bytes) → last (trim_end s) ≢ some b'/'
unfolding trim_end
trim_end-last [] q = ground (arith, q)
trim_end-last (c ∷ s) q = trim_last-last c (trim_end s) (trim_end-last s) q

trim_last-first : (c : ℕ) (s : Bytes) → some c ≢ some b'/' → first (trim_last c s) ≢ some b'/'
trim_last-first c [] h q = ground (arith, h, q)
trim_last-first c (d ∷ s) h q = ground (arith, h, q)

trim_end-first : (s : Bytes) → first s ≢ some b'/' → first (trim_end s) ≢ some b'/'
unfolding trim_end
trim_end-first [] h q = ground (arith, q)
trim_end-first (c ∷ s) h q = trim_last-first c (trim_end s) h q

non_empty-IsNormal :
    (s r : Bytes)
    → first s ≢ some b'/'
    → last s ≢ some b'/'
    → non_empty (some s) ≡ some r
    → IsNormal r
non_empty-IsNormal [] r f l q = ground (arith, q)
non_empty-IsNormal (c ∷ s) r f l q =
    let e : c ∷ s ≡ r = ground (arith, q) in subst IsNormal e ((λ e. ground (arith, e)), f, l)

normalize_prefix-IsNormal :
    (p : Option Bytes) (r : Bytes) → normalize_prefix p ≡ some r → IsNormal r
unfolding normalize_prefix
normalize_prefix-IsNormal none r q = ground (arith, q)
normalize_prefix-IsNormal (some value) r q =
    let s = trim_start value in
    non_empty-IsNormal (trim_end s) r (trim_end-first s (trim_start-first value)) (trim_end-last s)
      q

one_root-either :
    (a b : Option Bytes) (r : Bytes) → one_root a b ≡ ok (some r) → (a ≡ some r) ⊎ (b ≡ some r)
one_root-either none none r q = ground (arith, q)
one_root-either none (some b) r q = inr (ground (arith, q))
one_root-either (some a) none r q = inl (ground (arith, q))
one_root-either (some a) (some b) r q = ground (arith, q)

-- The root prefix that a provider is configured with is never empty and neither starts nor ends
-- with a slash, whether it comes from the path of the URI or from the configuration.
pub resolve_root_prefix-IsNormal :
    (uri_path : Bytes) (configured_root : Option Bytes) (r : Bytes)
    → resolve_root_prefix uri_path configured_root ≡ ok (some r)
    → IsNormal r
unfolding resolve_root_prefix
resolve_root_prefix-IsNormal uri_path configured_root r q =
    elim (one_root-either (normalize_prefix (some uri_path)) (normalize_prefix configured_root) r
      q) [
        | inl e ↦ normalize_prefix-IsNormal (some uri_path) r e
        | inr e ↦ normalize_prefix-IsNormal configured_root r e
      ]
