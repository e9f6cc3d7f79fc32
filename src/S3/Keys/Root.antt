-- ===== src/S3/Keys/Root.antt =====
-- Containment in the root prefix: what resolved keys, resolved prefixes and stripped keys are.
use storageprims.Prelude.{
  ◌≡◌, ◌≢◌, ◌↔◌, refl, sym, ap, arith, Option, none, some, [], ◌∷◌, ◌++◌, append-nil, append_assoc,
  Bytes, strip_prefix, strip_prefix_sound, strip_prefix-append, Option-cases, inl, inr, ◌∙◌,
}
use storageprims.Core.Error.{ok}
use storageprims.S3.Keys.{
  list_root_boundary, strip_root_prefix, join_key, stripped, joined_key, resolve_key,
  resolve_list_prefix, trim_start,
}

-- what every key of a root starts with
abbrev pub boundary : Option Bytes → Bytes
boundary none = []
boundary (some []) = []
boundary (some (c ∷ root)) = (c ∷ root) ++ b'/' ∷ []

abbrev pub or_empty : Option Bytes → Bytes
or_empty none = []
or_empty (some s) = s

stripped_iff : (p key rest : Bytes) → (stripped (strip_prefix p key) ≡ ok rest) ↔ (key ≡ p ++ rest)
stripped_iff p key rest = (
  λ eq. elim (Option-cases (strip_prefix p key)) [
    | inl e ↦ ground (arith, eq, e)
    | inr (r, e) ↦ ground (arith, eq, e, strip_prefix_sound p key r e)
  ],
  λ eq. rw (eq, strip_prefix-append p rest) refl,
)

-- A key is stripped exactly of the root and its slash, and every other key is refused.
pub strip_root_prefix_iff :
    (root_prefix : Option Bytes) (key rest : Bytes)
    → (strip_root_prefix root_prefix key ≡ ok rest) ↔ (key ≡ boundary root_prefix ++ rest)
unfolding strip_root_prefix list_root_boundary
strip_root_prefix_iff none key rest = ground arith
strip_root_prefix_iff (some []) key rest = ground arith
strip_root_prefix_iff (some (c ∷ root)) key rest = stripped_iff ((c ∷ root) ++ b'/' ∷ []) key rest

resolved_eq :
    (root_prefix caller_prefix resolved : Option Bytes)
    → resolve_list_prefix root_prefix caller_prefix ≡ ok resolved
    → or_empty resolved ≡ boundary root_prefix ++ or_empty caller_prefix
unfolding resolve_list_prefix list_root_boundary
resolved_eq none none resolved eq = ground arith
resolved_eq none (some []) resolved eq = ground arith
resolved_eq none (some (p ∷ s)) resolved eq = ground arith
resolved_eq (some []) none resolved eq = ground arith
resolved_eq (some []) (some []) resolved eq = ground arith
resolved_eq (some []) (some (p ∷ s)) resolved eq = ground arith
resolved_eq (some (c ∷ root)) none resolved eq = ground (arith, append-nil (root ++ b'/' ∷ []))
resolved_eq (some (c ∷ root)) (some []) resolved eq = ground (arith, append-nil (root ++ b'/' ∷ []))
resolved_eq (some (c ∷ root)) (some (p ∷ s)) resolved eq = ground arith

-- A listing with the resolved prefix and a key that continues it by any text is projected to the
-- caller's prefix continued by that text.
pub resolve_list_prefix-strip_root_prefix :
    (root_prefix caller_prefix resolved : Option Bytes) (rest : Bytes)
    → resolve_list_prefix root_prefix caller_prefix ≡ ok resolved
    → strip_root_prefix root_prefix (or_empty resolved ++ rest)
      ≡ ok (or_empty caller_prefix ++ rest)
unfolding resolve_list_prefix list_root_boundary
resolve_list_prefix-strip_root_prefix root_prefix caller_prefix resolved rest eq =
    (strip_root_prefix_iff root_prefix _ _).1 (
      ap (λ x. x ++ rest) (resolved_eq root_prefix caller_prefix resolved eq)
      ∙ append_assoc (boundary root_prefix) (or_empty caller_prefix) rest)

joined_eq :
    (root_prefix : Option Bytes) (key : Bytes)
    → key ≢ []
    → joined_key root_prefix key ≡ boundary root_prefix ++ key
joined_eq none key ne = refl
joined_eq (some []) key ne = refl
joined_eq (some (c ∷ root)) [] ne = absurd (ne refl)
joined_eq (some (c ∷ root)) (k ∷ key) ne = sym (append_assoc (c ∷ root) (b'/' ∷ []) (k ∷ key))

-- A key that is not made of slashes only resolves into the root, and its projection is the key
-- without its leading slashes.
pub resolve_key-strip_root_prefix :
    (root_prefix : Option Bytes) (key resolved : Bytes)
    → trim_start key ≢ []
    → resolve_key root_prefix key ≡ ok resolved
    → strip_root_prefix root_prefix resolved ≡ ok (trim_start key)
unfolding resolve_key join_key
resolve_key-strip_root_prefix root_prefix key resolved ne eq =
    let e : resolved ≡ joined_key root_prefix (trim_start key) = ground (arith, eq, ne) in
    (strip_root_prefix_iff root_prefix resolved (trim_start key)).1
      (e ∙ joined_eq root_prefix (trim_start key) ne)
